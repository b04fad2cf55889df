-- ===== src/Buffer.antt =====
-- tornado/Buffer.h and tornado/Buffer.cpp: the fixed-size byte buffer between a socket and its
-- reader. `mem` is the array `buff_`, with its capacity `buff_len_` and the two indices.
pub mod Bounds
pub mod Queue
pub mod Search
pub mod Script
mod Tests
use simplesvr.Prelude.{
  ℕ, ◌+◌, ◌-◌, ◌*◌, ◌<◌, Bool, true, false, List, [], ◌∷◌, ◌++◌, Option, none, some, ltb, leb, ◌==◌,
  if◌then◌else◌, ◌&&◌, length, replicate, slice, overwrite, take, drop, Bytes, suc,
}

pub record Buffer : Type 0 where
  pub mem : Bytes
  pub buff_len : ℕ
  pub read_index : ℕ
  pub write_index : ℕ

-- `Buffer::Buffer`. The assertion fails as `none`; the new array's content is immaterial.
unfoldable pub new : ℕ → Option Buffer
new buff_len =
    if ltb 0 buff_len && ltb buff_len (1024 * 1024 * 10)
    then some (record {
      mem = replicate buff_len 0;
      buff_len = buff_len;
      read_index = 0;
      write_index = 0;
    })
    else none

unfoldable pub clear : Buffer → Buffer
clear b = record b { read_index = 0; write_index = 0 }

-- The three sizes are `size_t` differences that do not wrap while the indices are in order.
abbrev pub writable_bytes : Buffer → ℕ
writable_bytes b = b.buff_len - b.write_index

abbrev pub prependable_bytes : Buffer → ℕ
prependable_bytes b = b.read_index

abbrev pub readable_bytes : Buffer → ℕ
readable_bytes b = b.write_index - b.read_index

-- The bytes between `begin()` and `end()`.
abbrev pub contents : Buffer → Bytes
contents b = slice b.mem b.read_index b.write_index

-- `std::copy(begin(), end(), buff_)`, then the indices move to the front.
unfoldable pub make_space : Buffer → Buffer
make_space b = record b {
  mem = overwrite b.mem 0 (contents b);
  read_index = 0;
  write_index = readable_bytes b;
}

unfoldable pub ensure_writable_bytes : Buffer → ℕ → Bool × Buffer
ensure_writable_bytes b len =
    if leb len (writable_bytes b)
    then (true, b)
    else if ltb (writable_bytes b + prependable_bytes b) len
    then (false, b)
    else (true, make_space b)

-- The bytes that become readable are those which stand behind the write index.
unfoldable pub extend_read_bytes : Buffer → ℕ → Bool × Buffer
extend_read_bytes b add_bytes =
    if ltb (writable_bytes b) add_bytes
    then (false, b)
    else (true, record b { write_index = b.write_index + add_bytes })

-- `std::copy(data, data + len, end())`, then `write_index_ += len`.
unfoldable pub copy_in : Buffer → Bytes → Buffer
copy_in b bytes = record b {
  mem = overwrite b.mem b.write_index bytes;
  write_index = b.write_index + length bytes;
}

-- `data` and `len` are one list here.
unfoldable pub append : Buffer → Bytes → Bool × Buffer
append b bytes =
    let (ensured, b') = ensure_writable_bytes b (length bytes) in
    if ensured then (true, copy_in b' bytes) else (false, b')

-- The string `result` is passed in and returned with what is appended to it.
unfoldable pub read_bytes_to_string : Buffer → ℕ → Bytes → Bool × Bytes × Buffer
read_bytes_to_string b len result = if ltb (readable_bytes b) len then (false, result, b) else (
  true,
  result ++ slice b.mem b.read_index (b.read_index + len),
  record b { read_index = b.read_index + len },
)

unfoldable pub read_bytes : Buffer → ℕ → Bool × Buffer
read_bytes b len =
    if ltb (readable_bytes b) len
    then (false, b)
    else (true, record b { read_index = b.read_index + len })

abbrev pub is_prefix : Bytes → Bytes → Bool
is_prefix [] ys = true
is_prefix (x ∷ xs) [] = false
is_prefix (x ∷ xs) (y ∷ ys) = x == y && is_prefix xs ys

-- `std::search`: the offset of the first occurrence, or that of the end.
unfoldable pub search : Bytes → Bytes → ℕ
search [] pattern_bytes = 0
search (x ∷ xs) pattern_bytes =
    if is_prefix pattern_bytes (x ∷ xs) then 0 else suc (search xs pattern_bytes)

-- `none` stands for the -1 of a delimiter that is not found.
unfoldable pub find : Buffer → Bytes → Option ℕ
find b delimiter =
    let pos = search (contents b) delimiter in if pos == length (contents b) then none else some pos
