-- ===== src/Buffer/Queue.antt =====
-- What tornado/Buffer.cpp promises its clients: the buffer is a queue of bytes of bounded size.
use simplesvr.Prelude.{
  ℕ, ◌+◌, ◌-◌, ◌≤◌, ◌≡◌, sym, inl, inr, ap, ◌∙◌, Bool, true, false, [], ◌++◌, arith, ltb, leb,
  if◌then◌else◌, length, take, drop, slice, overwrite, slice-overwrite, Bytes, take-append_length,
  drop-drop, drop-take, take_eq, take-take, append-nil, Bool-cases,
}
use simplesvr.Buffer.{
  Buffer, make_space, ensure_writable_bytes, copy_in, append, read_bytes_to_string, read_bytes,
  contents, writable_bytes, readable_bytes,
}
use simplesvr.Buffer.Bounds.{IsValid, length-contents, ensure_writable_bytes-IsValid}

-- The specification: oldest byte first.
abbrev pub push : ℕ → Bytes → Bytes → Bool × Bytes
push cap q bytes = if leb (length q + length bytes) cap then (true, q ++ bytes) else (false, q)

abbrev pub pop : Bytes → ℕ → Bool × Bytes × Bytes
pop q n = if ltb (length q) n then (false, [], q) else (true, take n q, drop n q)

-- Compaction moves the readable bytes and changes none.
pub contents-make_space : (b : Buffer) → IsValid b → contents (make_space b) ≡ contents b
unfolding make_space
contents-make_space b v =
    take_eq (readable_bytes b - 0) (length (contents b)) (overwrite b.mem 0 (contents b))
      (omega (arith, length-contents b v))
    ∙ take-append_length (contents b) (drop (length (contents b)) b.mem)

pub contents-ensure_writable_bytes :
    (b : Buffer) (n : ℕ) → IsValid b → contents (ensure_writable_bytes b n).1 ≡ contents b
unfolding ensure_writable_bytes
contents-ensure_writable_bytes b n v = elim (Bool-cases (leb n (writable_bytes b))) [
  | inl e ↦ rw e
  | inr e ↦ rw e (elim (Bool-cases (ltb (writable_bytes b + b.read_index) n)) [
    | inl e' ↦ rw e'
    | inr e' ↦ rw e' (contents-make_space b v)
  ])
]

-- On a valid buffer `ensureWritableBytes` succeeds exactly when the readable bytes and the new ones
-- fit in the capacity together.
pub ensure_writable_bytes-fits :
    (b : Buffer) (n : ℕ)
    → IsValid b
    → (ensure_writable_bytes b n).0 ≡ leb (readable_bytes b + n) b.buff_len
unfolding ensure_writable_bytes
ensure_writable_bytes-fits b n v = ground arith

pub buff_len-ensure_writable_bytes :
    (b : Buffer) (n : ℕ) → (ensure_writable_bytes b n).1.buff_len ≡ b.buff_len
unfolding ensure_writable_bytes make_space
buff_len-ensure_writable_bytes b n = ground arith

pub contents-copy_in :
    (b : Buffer) (bytes : Bytes) → IsValid b → contents (copy_in b bytes) ≡ contents b ++ bytes
unfolding copy_in
contents-copy_in b bytes v =
    slice-overwrite b.mem b.read_index b.write_index bytes (omega arith) (omega arith)

-- On a valid buffer `append` behaves as a push on the bounded queue of readable bytes, on success
-- and on failure.
pub append_refines :
    (b : Buffer) (bytes : Bytes)
    → IsValid b
    → ((append b bytes).0 ≡ (push b.buff_len (contents b) bytes).0)
      × (contents (append b bytes).1 ≡ (push b.buff_len (contents b) bytes).1)
unfolding append
append_refines b bytes v = ground (
  arith,
  length-contents b v,
  ensure_writable_bytes-fits b (length bytes) v,
  contents-ensure_writable_bytes b (length bytes) v,
  contents-copy_in (ensure_writable_bytes b (length bytes)).1 bytes
      (ensure_writable_bytes-IsValid b (length bytes) v),
)

pub buff_len-append : (b : Buffer) (bytes : Bytes) → (append b bytes).1.buff_len ≡ b.buff_len
unfolding append copy_in
buff_len-append b bytes = ground (arith, buff_len-ensure_writable_bytes b (length bytes))

contents-advance :
    (b : Buffer) (n : ℕ) → slice b.mem (b.read_index + n) b.write_index ≡ drop n (contents b)
contents-advance b n =
    ap (take (b.write_index - (b.read_index + n))) (sym (drop-drop b.read_index n b.mem))
    ∙ take_eq (b.write_index - (b.read_index + n)) (readable_bytes b - n)
        (drop n (drop b.read_index b.mem)) (omega arith)
    ∙ sym (drop-take n (readable_bytes b) (drop b.read_index b.mem))

slice-take :
    (b : Buffer) (n : ℕ)
    → n ≤ readable_bytes b
    → slice b.mem b.read_index (b.read_index + n) ≡ take n (contents b)
slice-take b n h =
    take_eq (b.read_index + n - b.read_index) n (drop b.read_index b.mem) (omega arith)
    ∙ sym (take-take n (readable_bytes b) (drop b.read_index b.mem) h)

pub read_bytes_refines :
    (b : Buffer) (n : ℕ)
    → IsValid b
    → ((read_bytes b n).0 ≡ (pop (contents b) n).0)
      × (contents (read_bytes b n).1 ≡ (pop (contents b) n).2)
unfolding read_bytes
read_bytes_refines b n v = ground (arith, length-contents b v, contents-advance b n)

-- On a valid buffer `readBytesToString` behaves as a pop from the queue of readable bytes, on
-- success and on failure, with the bytes put behind the caller's string.
pub read_bytes_to_string_refines :
    (b : Buffer) (n : ℕ) (s : Bytes)
    → IsValid b
    → let (done, out, b') = read_bytes_to_string b n s in
      let (popped, bytes, q) = pop (contents b) n in
      (done ≡ popped) × (out ≡ s ++ bytes) × (contents b' ≡ q)
unfolding read_bytes_to_string
read_bytes_to_string_refines b n s v =
    ground (arith, length-contents b v, contents-advance b n, slice-take b n, append-nil s)

pub buff_len-read_bytes : (b : Buffer) (n : ℕ) → (read_bytes b n).1.buff_len ≡ b.buff_len
unfolding read_bytes
buff_len-read_bytes b n = ground arith

pub buff_len-read_bytes_to_string :
    (b : Buffer) (n : ℕ) (s : Bytes) → (read_bytes_to_string b n s).2.buff_len ≡ b.buff_len
unfolding read_bytes_to_string
buff_len-read_bytes_to_string b n s = ground arith
