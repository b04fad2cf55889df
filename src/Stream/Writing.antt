-- ===== src/Stream/Writing.antt =====
-- The writing half of tornado/IOStream.cpp: `handleWrite`.
use simplesvr.Prelude.{
  ℕ, Bool, true, false, List, [], ◌∷◌, ◌++◌, none, ◌==◌, min, if◌then◌else◌, take,
}
use simplesvr.Buffer.{readable_bytes, read_bytes, contents}
use simplesvr.Stream.{
  Stream, would_block, Send, accepts, send_fails, post, run_plain, write_chunk_size,
}

-- One round on a result of `write(2)`: the number of bytes that it takes of the chunk.
abbrev pub taken : ℕ → Stream → ℕ
taken room s = min room (min write_chunk_size (readable_bytes s.write_buffer))

-- The loop of `handleWrite`: whether it ends by `break` or by its test.
unfoldable pub write_loop : List Send → Stream → Bool × Stream
write_loop [] s = (true, record s { sends = [] })
write_loop (send_fails errno ∷ rs) s =
    if readable_bytes s.write_buffer == 0
    then (true, record s { sends = send_fails errno ∷ rs })
    else elim errno [
      | would_block ↦ (true, record s { sends = rs })
      | _ ↦ (false, record s { sends = rs })
    ]
write_loop (accepts room ∷ rs) s =
    let n = taken room s in
    let (done, b) = read_bytes s.write_buffer n in
    let t = record s { sent = s.sent ++ take n (contents s.write_buffer); write_buffer = b } in
    let rest = write_loop rs t in
    if readable_bytes s.write_buffer == 0
    then (true, record s { sends = accepts room ∷ rs })
    else if n == 0
    then (true, record s { sends = rs })
    else if done
    then rest
    else (false, record t { sends = rs })

-- The write callback runs once the buffer is empty.
unfoldable pub finish_write : Stream → Stream
finish_write s =
    if readable_bytes s.write_buffer == 0
    then post s.write_callback run_plain (record s { write_callback = none })
    else s

-- `IOStream::handleWrite`: whether 0 is returned.
unfoldable pub handle_write : Stream → Bool × Stream
handle_write s =
    let (done, t) = write_loop s.sends s in if done then (true, finish_write t) else (false, t)
