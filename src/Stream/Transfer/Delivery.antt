-- ===== src/Stream/Transfer/Delivery.antt =====
-- What `handleRead` of tornado/IOStream.cpp hands to a reader that waits for a delimiter, when all
-- the bytes arrive at once.
use simplesvr.Prelude.{
  ℕ, ◌+◌, ◌<◌, ◌≤◌, ◌≡◌, sym, ap, ◌∙◌, Bool, true, false, subst, [], ◌∷◌, some, arith, Bytes,
  length, take, drop,
}
use simplesvr.Buffer.{Buffer, readable_bytes, contents, ensure_writable_bytes, search, find}
use simplesvr.Buffer.Bounds
use simplesvr.Buffer.Bounds.{
  length-contents, ensure_writable_bytes-IsValid, read_bytes_to_string-IsValid,
}
use simplesvr.Buffer.Queue.{
  contents-ensure_writable_bytes, ensure_writable_bytes-fits, buff_len-ensure_writable_bytes,
  read_bytes_to_string_refines,
}
use simplesvr.Stream.{
  Stream, received, receive_fails, would_block, read_chunk_size, add_callback, run_read,
}
use simplesvr.Stream.Reading.{
  drained, store, take_received, read_to_buffer, read_to_buffer_loop, deliver_delimited,
  deliver_read, handle_read, is_empty,
}
use simplesvr.Stream.Api.{not_reading}
use simplesvr.Stream.Calls.Steps.{read_to_buffer-IsValid}
use simplesvr.Stream.Transfer.Input.{HasRoom, read_to_buffer_first}

-- With room for a chunk, a `read` that would block ends the loop.
read_to_buffer-drained :
    (b : Buffer)
    → Bounds.IsValid b
    → HasRoom b
    → read_to_buffer b (receive_fails would_block)
      ≡ (drained, true, (ensure_writable_bytes b read_chunk_size).1)
unfolding read_to_buffer take_received
read_to_buffer-drained b v room = ground (arith, ensure_writable_bytes-fits b read_chunk_size v)

buff_len-read_to_buffer :
    (b : Buffer) (bytes : Bytes) → (read_to_buffer b (received bytes)).2.buff_len ≡ b.buff_len
unfolding read_to_buffer take_received store simplesvr.Buffer.extend_read_bytes
buff_len-read_to_buffer b bytes = ground (arith, buff_len-ensure_writable_bytes b read_chunk_size)

-- Bytes that come all at once, behind nothing unread, with room for one chunk more.
pub record Arrives (bytes : Bytes) (b : Buffer) : Type 0 where
  pub reads : Bounds.IsValid b
  pub nothing : contents b ≡ []
  pub some_bytes : 0 < length bytes
  pub one_chunk : length bytes ≤ read_chunk_size
  pub room : length bytes + read_chunk_size ≤ b.buff_len

-- The buffer after `readToBufferLoop`.
abbrev filled : Bytes → Buffer → Buffer
filled bytes b = (ensure_writable_bytes (read_to_buffer b (received bytes)).2 read_chunk_size).1

module _ (bytes : Bytes) (b : Buffer) (a : Arrives bytes b) where
  once : Buffer
  once = (read_to_buffer b (received bytes)).2

  once-IsValid : Bounds.IsValid once
  unfolding once
  once-IsValid = read_to_buffer-IsValid b (received bytes) a.reads a.one_chunk

  room_before : HasRoom b
  room_before = omega (arith, length-contents b a.reads, ap length a.nothing)

  contents-once : contents once ≡ bytes
  unfolding once
  contents-once =
      (read_to_buffer_first b bytes a.reads room_before a.nothing a.some_bytes a.one_chunk).1

  room_after : HasRoom once
  unfolding once
  room_after = omega (
    arith,
    length-contents once once-IsValid,
    ap length contents-once,
    buff_len-read_to_buffer b bytes,
    a.room,
  )

  read_all : read_to_buffer_loop (received bytes ∷ []) b ≡ (true, [], filled bytes b)
  unfolding read_to_buffer_loop once
  read_all =
      let first =
        read_to_buffer_first b bytes a.reads room_before a.nothing a.some_bytes a.one_chunk in
      let d = read_to_buffer-drained once once-IsValid room_after in
      rw (first.0, read_to_buffer_loop) (rw (ap (λ t. t.0) d) (ap (λ t. (true, [], t.2)) d))

  contents-filled : contents (filled bytes b) ≡ bytes
  unfolding once
  contents-filled = contents-ensure_writable_bytes once read_chunk_size once-IsValid ∙ contents-once

  filled-IsValid : Bounds.IsValid (filled bytes b)
  unfolding once
  filled-IsValid = ensure_writable_bytes-IsValid once read_chunk_size once-IsValid

-- The writing half is left alone.
pub record SameOutput (s t : Stream) : Type 0 where
  pub write_buffer : t.write_buffer ≡ s.write_buffer
  pub sent : t.sent ≡ s.sent
  pub write_callback : t.write_callback ≡ s.write_callback
  pub sends : t.sends ≡ s.sends
  pub connecting : t.connecting ≡ s.connecting

-- The reader of `s` got the first `n` of the unread bytes by way of the loop; the others stay, and
-- nobody waits any more.
pub record IsDelivered (cb n : ℕ) (s : Stream) (r : Bool × Stream) : Type 0 where
  pub succeeds : r.0 ≡ true
  pub posted : r.1.calls ≡ add_callback (run_read cb (take n (contents s.read_buffer))) ∷ s.calls
  pub kept : contents r.1.read_buffer ≡ drop n (contents s.read_buffer)
  pub idle : not_reading r.1 ≡ true
  pub reads : Bounds.IsValid r.1.read_buffer
  pub output : SameOutput s r.1

find-inside :
    (b : Buffer) (d : Bytes)
    → search (contents b) d < length (contents b)
    → find b d ≡ some (search (contents b) d)
unfolding find
find-inside b d h = ground arith

deliver_delimited_lem :
    (cb n : ℕ) (s : Stream)
    → Bounds.IsValid s.read_buffer
    → s.read_callback ≡ some cb
    → s.read_bytes ≡ 0
    → s.read_until_close ≡ false
    → find s.read_buffer s.read_delimiter ≡ some n
    → n + length s.read_delimiter ≤ length (contents s.read_buffer)
    → IsDelivered cb (n + length s.read_delimiter) s (deliver_delimited s)
unfolding deliver_delimited
deliver_delimited_lem cb n s v waits none_left bounded found inside =
    let size = n + length s.read_delimiter in
    let r = read_bytes_to_string_refines s.read_buffer size [] v in
    let kept = read_bytes_to_string-IsValid s.read_buffer size [] v in
    ground (arith, found, r, kept)

length-some : (d : Bytes) → is_empty d ≡ false → 0 < length d
length-some [] h = absurd (ground arith)
length-some (x ∷ d) h = omega arith

-- Where the delimiter stands in the bytes that arrive, `handleRead` delivers them up to its end.
pub handle_read_delivers :
    (cb n : ℕ) (bytes : Bytes) (s : Stream)
    → Arrives bytes s.read_buffer
    → s.receives ≡ received bytes ∷ []
    → s.read_callback ≡ some cb
    → is_empty s.read_delimiter ≡ false
    → s.read_bytes ≡ 0
    → s.read_until_close ≡ false
    → search bytes s.read_delimiter + length s.read_delimiter ≡ n
    → n ≤ length bytes
    → let r = handle_read s in
      (r.0 ≡ true)
      × (r.1.calls ≡ add_callback (run_read cb (take n bytes)) ∷ s.calls)
      × (contents r.1.read_buffer ≡ drop n bytes)
      × (not_reading r.1 ≡ true)
      × Bounds.IsValid r.1.read_buffer
      × SameOutput s r.1
unfolding handle_read deliver_read
handle_read_delivers cb n bytes s a script waits delimited idle bounded place inside =
    let b = s.read_buffer in
    let all = read_all bytes b a in
    let t : Stream = record s { receives = []; read_buffer = filled bytes b } in
    let same = contents-filled bytes b a in
    let d = s.read_delimiter in
    let some_delimiter = length-some d delimited in
    let found : find (filled bytes b) d ≡ some (search bytes d) =
      find-inside (filled bytes b) d (subst (λ l. search l d < length l) (sym same) (omega arith))
      ∙ ap (λ l. some (search l d)) same in
    let r =
      deliver_delimited_lem cb (search bytes d) t (filled-IsValid bytes b a) waits idle bounded
        found (subst (λ l. search bytes d + length d ≤ length l) (sym same) (omega arith)) in
    let step : handle_read s ≡ deliver_delimited t =
      rw (script, handle_read) (rw all (ground arith)) in
    ground (
      arith, step, r.succeeds, r.posted, r.kept, r.idle, r.reads, r.output.write_buffer,
      r.output.sent, r.output.write_callback, r.output.sends, r.output.connecting, same, place,
    )
