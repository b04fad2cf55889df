-- ===== src/Buffer/Bounds.antt =====
-- The index order that the class comment draws, and that no operation of Buffer.cpp leaves it:
-- each write stays inside the array.
use simplesvr.Prelude.{
  ℕ, ◌*◌, ◌≤◌, ◌<◌, ◌≡◌, true, some, arith, length, length-overwrite, length-replicate,
  length-slice, Bytes,
}
use simplesvr.Buffer.{
  Buffer, new, clear, make_space, ensure_writable_bytes, extend_read_bytes, copy_in, append,
  read_bytes_to_string, read_bytes, contents, writable_bytes, readable_bytes,
}

-- 0 <= read_index_ <= write_index_ <= capacity, and the array has the capacity's size.
pub record IsValid (b : Buffer) : Type 0 where
  pub storage : length b.mem ≡ b.buff_len
  pub ordered : b.read_index ≤ b.write_index
  pub in_range : b.write_index ≤ b.buff_len
  pub small : b.buff_len < 1024 * 1024 * 10

pub length-contents : (b : Buffer) → IsValid b → length (contents b) ≡ readable_bytes b
length-contents b v = length-slice b.mem b.read_index b.write_index (omega arith)

pub new-IsValid : (n : ℕ) {b : Buffer} → new n ≡ some b → IsValid b
unfolding new
new-IsValid n h = ground (arith, length-replicate {A = ℕ} n 0)

pub make_space-IsValid : (b : Buffer) → IsValid b → IsValid (make_space b)
unfolding make_space
make_space-IsValid b v = ground (arith, length-contents b v, length-overwrite b.mem 0 (contents b))

pub ensure_writable_bytes-IsValid :
    (b : Buffer) (n : ℕ) → IsValid b → IsValid (ensure_writable_bytes b n).1
unfolding ensure_writable_bytes
ensure_writable_bytes-IsValid b n v = ground (arith, make_space-IsValid b v)

-- What `append` asserts after `makeSpace`: the room is there when the call succeeds.
pub ensure_writable_bytes-room :
    (b : Buffer) (n : ℕ)
    → IsValid b
    → (ensure_writable_bytes b n).0 ≡ true
    → n ≤ writable_bytes (ensure_writable_bytes b n).1
unfolding ensure_writable_bytes make_space
ensure_writable_bytes-room b n v h = ground arith

pub extend_read_bytes-IsValid : (b : Buffer) (n : ℕ) → IsValid b → IsValid (extend_read_bytes b n).1
unfolding extend_read_bytes
extend_read_bytes-IsValid b n v = ground arith

pub copy_in-IsValid :
    (b : Buffer) (bytes : Bytes)
    → IsValid b
    → length bytes ≤ writable_bytes b
    → IsValid (copy_in b bytes)
unfolding copy_in
copy_in-IsValid b bytes v h = ground (arith, length-overwrite b.mem b.write_index bytes)

pub append-IsValid : (b : Buffer) (bytes : Bytes) → IsValid b → IsValid (append b bytes).1
unfolding append
append-IsValid b bytes v = ground (
  arith,
  ensure_writable_bytes-IsValid b (length bytes) v,
  ensure_writable_bytes-room b (length bytes) v,
  copy_in-IsValid (ensure_writable_bytes b (length bytes)).1 bytes,
)

pub read_bytes-IsValid : (b : Buffer) (n : ℕ) → IsValid b → IsValid (read_bytes b n).1
unfolding read_bytes
read_bytes-IsValid b n v = ground arith

pub read_bytes_to_string-IsValid :
    (b : Buffer) (n : ℕ) (s : Bytes) → IsValid b → IsValid (read_bytes_to_string b n s).2
unfolding read_bytes_to_string
read_bytes_to_string-IsValid b n s v = ground arith

pub clear-IsValid : (b : Buffer) → IsValid b → IsValid (clear b)
unfolding clear
clear-IsValid b v = omega arith
