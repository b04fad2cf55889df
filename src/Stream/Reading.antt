-- ===== src/Stream/Reading.antt =====
-- The reading half of tornado/IOStream.cpp: `readToBuffer`, `readToBufferLoop`, `handleRead`.
use simplesvr.Prelude.{
  ℕ, ◌+◌, Bool, true, false, not, ◌&&◌, List, [], ◌∷◌, none, some, ltb, leb, ◌==◌, if◌then◌else◌,
  Bytes, length, overwrite,
}
use simplesvr.Buffer.{
  Buffer, readable_bytes, ensure_writable_bytes, extend_read_bytes, read_bytes_to_string, find,
}
use simplesvr.Stream.{
  Stream, unset, would_block, other, Receive, received, receive_fails, post, run_read,
  read_chunk_size,
}

-- The result of `readToBuffer`: 0, the number of bytes, or -k.
pub data ReadStatus : Type 0 where
  drained : ReadStatus
  got fails : ℕ → ReadStatus

-- `read(socket_, read_buffer_.data(), READ_CHUNK_SIZE)`: the bytes are stored from `data()` on,
-- which is the first unread byte.
unfoldable pub store : Buffer → Bytes → Buffer
store b bytes = record b { mem = overwrite b.mem b.read_index bytes }

-- `readToBuffer` on a buffer with room, by the result of `read`. Line 571 tests a variable `erron`
-- that is nowhere declared; it is read as `errno`.
unfoldable pub take_received : Buffer → Receive → ReadStatus × Buffer
take_received b (receive_fails unset) = (drained, b)
take_received b (receive_fails would_block) = (drained, b)
take_received b (receive_fails other) = (fails 3, b)
take_received b (received bytes) =
    let (extended, b') = extend_read_bytes (store b bytes) (length bytes) in
    if length bytes == 0
    then (fails 2, b)
    else if extended
    then (got (length bytes), b')
    else (fails 4, b')

-- `readToBuffer`, and whether it got as far as to call `read`.
unfoldable pub read_to_buffer : Buffer → Receive → ReadStatus × Bool × Buffer
read_to_buffer b r =
    let (ensured, b') = ensure_writable_bytes b read_chunk_size in
    let (status, b'') = take_received b' r in
    if ensured then (status, true, b'') else (fails 1, false, b')

-- The results of `read` that are left, by whether the next one was used.
abbrev pub remaining : Bool → Receive → List Receive → List Receive
remaining true r rs = rs
remaining false r rs = r ∷ rs

-- `readToBufferLoop`: whether it returns 0. When no result is left `read` would block.
unfoldable pub read_to_buffer_loop : List Receive → Buffer → Bool × List Receive × Buffer
read_to_buffer_loop [] b =
    let (status, called, b') = read_to_buffer b (receive_fails would_block) in
    elim status [ drained ↦ (true, [], b') | _ ↦ (false, [], b') ]
read_to_buffer_loop (r ∷ rs) b =
    let (status, called, b') = read_to_buffer b r in
    let rest = read_to_buffer_loop rs b' in
    elim status [
      | drained ↦ (true, remaining called r rs, b')
      | got n ↦ rest
      | fails k ↦ (false, remaining called r rs, b')
    ]

-- The read callback gets `result` by way of the loop, and is released.
abbrev pub deliver : Bytes → Stream → Stream
deliver result s =
    post s.read_callback (λ cb. run_read cb result) (record s { read_callback = none })

abbrev pub is_empty : Bytes → Bool
is_empty [] = true
is_empty (x ∷ xs) = false

-- The branches of `handleRead` behind the loop. The result is whether 0 is returned.
unfoldable pub deliver_count : Stream → Bool × Stream
deliver_count s =
    let (done, result, b) = read_bytes_to_string s.read_buffer s.read_bytes [] in
    if done
    then (true, deliver result (record s { read_buffer = b; read_bytes = 0 }))
    else (false, s)

unfoldable pub deliver_delimited : Stream → Bool × Stream
deliver_delimited s = elim (find s.read_buffer s.read_delimiter) [
  | none ↦ (true, s)
  | some index ↦
      let (done, result, b) =
        read_bytes_to_string s.read_buffer (index + length s.read_delimiter) [] in
      if done
      then (true, deliver result (record s { read_buffer = b; read_delimiter = [] }))
      else (false, s)
]

-- The callback of a reader until the end stays.
unfoldable pub deliver_available : Stream → Bool × Stream
deliver_available s =
    let buffsize = readable_bytes s.read_buffer in
    let (done, result, b) = read_bytes_to_string s.read_buffer buffsize [] in
    if ltb 0 buffsize
    then if done
      then (true, post s.read_callback (λ cb. run_read cb result) (record s { read_buffer = b }))
      else (false, s)
    else (true, s)

unfoldable pub deliver_read : Stream → Bool × Stream
deliver_read s =
    if ltb 0 s.read_bytes && leb s.read_bytes (readable_bytes s.read_buffer)
    then deliver_count s
    else if not (is_empty s.read_delimiter)
    then deliver_delimited s
    else if s.read_until_close
    then deliver_available s
    else (true, s)

-- `IOStream::handleRead`.
unfoldable pub handle_read : Stream → Bool × Stream
handle_read s =
    let (done, receives, b) = read_to_buffer_loop s.receives s.read_buffer in
    let t = record s { receives = receives; read_buffer = b } in
    if done then deliver_read t else (false, t)
