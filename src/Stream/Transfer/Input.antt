-- ===== src/Stream/Transfer/Input.antt =====
-- Input of tornado/IOStream.cpp: what `readToBuffer` makes of the bytes that arrive, and what the
-- readers get.
use simplesvr.Prelude.{
  ℕ, ◌+◌, ◌-◌, ◌<◌, ◌≤◌, ◌≡◌, ◌≢◌, sym, ap, ◌∙◌, true, [], ◌∷◌, ◌++◌, arith, Bytes, length, take,
  drop, drop-overwrite, take_eq, take-take, take-append_length, overwrite, length-overwrite,
  length-slice,
}
use simplesvr.Buffer.{
  Buffer, readable_bytes, contents, ensure_writable_bytes, extend_read_bytes, writable_bytes,
}
use simplesvr.Buffer.Bounds
use simplesvr.Buffer.Bounds.{
  length-contents, ensure_writable_bytes-IsValid, ensure_writable_bytes-room,
}
use simplesvr.Buffer.Queue.{contents-ensure_writable_bytes, ensure_writable_bytes-fits}
use simplesvr.Stream.{received, read_chunk_size}
use simplesvr.Stream.Reading.{got, store, take_received, read_to_buffer}

-- The buffer after a `read` of `bytes`.
stored : Buffer → Bytes → Buffer
stored b bytes = record (store b bytes) { write_index = b.write_index + length bytes }

contents-stored :
    (b : Buffer) (bytes : Bytes)
    → Bounds.IsValid b
    → contents (stored b bytes)
      ≡ take (readable_bytes b + length bytes) (bytes ++ drop (b.read_index + length bytes) b.mem)
unfolding stored store
contents-stored b bytes v =
    ap (take (b.write_index + length bytes - b.read_index))
      (drop-overwrite b.mem b.read_index bytes (omega arith))
    ∙ take_eq (b.write_index + length bytes - b.read_index) (readable_bytes b + length bytes)
        (bytes ++ drop (b.read_index + length bytes) b.mem) (omega arith)

take_received-stored :
    (b : Buffer) (bytes : Bytes)
    → 0 < length bytes
    → length bytes ≤ writable_bytes b
    → take_received b (received bytes) ≡ (got (length bytes), stored b bytes)
unfolding take_received stored extend_read_bytes store
take_received-stored b bytes h k = ground arith

-- The bytes of a `read` come first in the buffer, before those that were there unread.
front-stored :
    (b : Buffer) (bytes : Bytes)
    → Bounds.IsValid b
    → take (length bytes) (contents (stored b bytes)) ≡ bytes
front-stored b bytes v =
    ap (take (length bytes)) (contents-stored b bytes v)
    ∙ take-take (length bytes) (readable_bytes b + length bytes)
        (bytes ++ drop (b.read_index + length bytes) b.mem) (omega arith)
    ∙ take-append_length bytes (drop (b.read_index + length bytes) b.mem)

stored_empty :
    (b : Buffer) (bytes : Bytes)
    → Bounds.IsValid b
    → readable_bytes b ≡ 0
    → contents (stored b bytes) ≡ bytes
stored_empty b bytes v e =
    contents-stored b bytes v
    ∙ take_eq (readable_bytes b + length bytes) (length bytes)
        (bytes ++ drop (b.read_index + length bytes) b.mem) (omega arith)
    ∙ take-append_length bytes (drop (b.read_index + length bytes) b.mem)

length-stored :
    (b : Buffer) (bytes : Bytes)
    → Bounds.IsValid b
    → length bytes ≤ writable_bytes b
    → length (contents (stored b bytes)) ≡ length (contents b) + length bytes
unfolding stored store
length-stored b bytes v h =
    let n = length bytes in
    let mem = overwrite b.mem b.read_index bytes in
    let kept = length-overwrite b.mem b.read_index bytes (omega arith) in
    length-slice mem b.read_index (b.write_index + n) (omega (arith, kept))
    ∙ omega (arith, length-contents b v)

-- Room for a whole chunk, before or behind the unread bytes.
abbrev pub HasRoom : Buffer → Type 0
HasRoom b = readable_bytes b + read_chunk_size ≤ b.buff_len

read_to_buffer-stored :
    (b : Buffer) (bytes : Bytes)
    → Bounds.IsValid b
    → HasRoom b
    → 0 < length bytes
    → length bytes ≤ read_chunk_size
    → read_to_buffer b (received bytes)
      ≡ (got (length bytes), true, stored (ensure_writable_bytes b read_chunk_size).1 bytes)
unfolding read_to_buffer
read_to_buffer-stored b bytes v room h k = ground (
  arith,
  ensure_writable_bytes-fits b read_chunk_size v,
  ensure_writable_bytes-room b read_chunk_size v,
  take_received-stored (ensure_writable_bytes b read_chunk_size).1 bytes h,
)

room-after :
    (b : Buffer) (bytes : Bytes)
    → Bounds.IsValid b
    → HasRoom b
    → length bytes ≤ read_chunk_size
    → length bytes ≤ writable_bytes (ensure_writable_bytes b read_chunk_size).1
room-after b bytes v room k = ground (
  arith,
  ensure_writable_bytes-fits b read_chunk_size v,
  ensure_writable_bytes-room b read_chunk_size v,
)

-- A `read` of one chunk at most, into a buffer in bounds with room for a chunk and nothing unread,
-- returns the number of bytes and leaves exactly the bytes that arrived.
pub read_to_buffer_first :
    (b : Buffer) (bytes : Bytes)
    → Bounds.IsValid b
    → HasRoom b
    → contents b ≡ []
    → 0 < length bytes
    → length bytes ≤ read_chunk_size
    → ((read_to_buffer b (received bytes)).0 ≡ got (length bytes))
      × (contents (read_to_buffer b (received bytes)).2 ≡ bytes)
read_to_buffer_first b bytes v room e h k =
    let r = read_to_buffer-stored b bytes v room h k in
    let b' = (ensure_writable_bytes b read_chunk_size).1 in
    let v' = ensure_writable_bytes-IsValid b read_chunk_size v in
    let nothing = contents-ensure_writable_bytes b read_chunk_size v ∙ e in
    (
      ap (λ t. t.0) r,
      ap (λ t. contents t.2) r
          ∙ stored_empty b' bytes v' (sym (length-contents b' v') ∙ ap length nothing),
    )

-- A `read` of one chunk at most, into a buffer in bounds with room for a chunk, adds the right
-- number of readable bytes, and the first of them are those that arrived last.
pub read_to_buffer_front :
    (b : Buffer) (bytes : Bytes)
    → Bounds.IsValid b
    → HasRoom b
    → 0 < length bytes
    → length bytes ≤ read_chunk_size
    → let b' = (read_to_buffer b (received bytes)).2 in
      (length (contents b') ≡ length (contents b) + length bytes)
      × (take (length bytes) (contents b') ≡ bytes)
read_to_buffer_front b bytes v room h k =
    let r = read_to_buffer-stored b bytes v room h k in
    let b' = (ensure_writable_bytes b read_chunk_size).1 in
    let v' = ensure_writable_bytes-IsValid b read_chunk_size v in
    let kept = contents-ensure_writable_bytes b read_chunk_size v in
    (
      ap (λ t. length (contents t.2)) r
          ∙ length-stored b' bytes v' (room-after b bytes v room k)
          ∙ ap (λ l. length l + length bytes) kept,
      ap (λ t. take (length bytes) (contents t.2)) r ∙ front-stored b' bytes v',
    )

-- A `read` of one chunk at most, into a buffer in bounds with room for a chunk, breaks the stream of
-- bytes where the first unread byte is not the first new one: the content is not the unread bytes
-- followed by the new ones.
pub read_to_buffer_breaks :
    (b : Buffer) (x y : ℕ) (xs ys : Bytes)
    → Bounds.IsValid b
    → HasRoom b
    → contents b ≡ x ∷ xs
    → x ≢ y
    → length (y ∷ ys) ≤ read_chunk_size
    → contents (read_to_buffer b (received (y ∷ ys))).2 ≢ contents b ++ (y ∷ ys)
read_to_buffer_breaks b x y xs ys v room e ne k same =
    ground (arith, (read_to_buffer_front b (y ∷ ys) v room (omega arith) k).1, same, e)
