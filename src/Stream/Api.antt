-- ===== src/Stream/Api.antt =====
-- The public operations of tornado/IOStream.cpp and its event handler. `none` is a failed
-- assertion; the number is the `int` that is returned.
use simplesvr.Prelude.{
  ℕ, ◌+◌, Bool, true, false, not, ◌&&◌, ◌||◌, List, [], Option, none, some, ltb, leb, ◌==◌,
  if◌then◌else◌, Bytes, length,
}
use simplesvr.Prelude.Int.{ℤ, pos, negsuc, is_nonzero}
use simplesvr.Buffer.{Buffer, readable_bytes, append, read_bytes_to_string, find}
use simplesvr.Stream.{
  Stream, Events, no_events, read_event, write_event, events_eq, Receive, Send, run_read,
  run_connect, call, post, update_handler, close, add_io_state,
}
use simplesvr.Stream.Reading.{handle_read, is_empty}
use simplesvr.Stream.Writing.{handle_write}

-- `IOStream::IOStream` on the two buffers that it makes.
unfoldable pub new : ℕ → Buffer → Buffer → List Receive → List Send → Stream
new socket read_buffer write_buffer receives sends = record {
  socket = socket;
  connecting = false;
  closed = false;
  state = no_events;
  connect_callback = none;
  read_callback = none;
  write_callback = none;
  close_callback = none;
  read_buffer = read_buffer;
  write_buffer = write_buffer;
  read_bytes = 0;
  read_delimiter = [];
  read_until_close = false;
  receives = receives;
  sends = sends;
  sent = [];
  calls = [];
}

abbrev pub is_none : Option ℕ → Bool
is_none none = true
is_none (some cb) = false

-- `::connect` returns 0 or is in progress, or it fails.
unfoldable pub connect : Bool → Stream → Bool × Stream
connect started s =
    let t = record s { connecting = true } in
    if started then (true, add_io_state write_event t) else (false, close t)

unfoldable pub connect_with : Bool → Option ℕ → Stream → Bool × Stream
connect_with started callback s =
    let (done, t) = connect started s in
    if done then (true, record t { connect_callback = callback }) else (false, t)

unfoldable pub set_close_callback : Option ℕ → Stream → Stream
set_close_callback callback s = record s { close_callback = callback }

-- What `writeBytes` does once the data is in the buffer.
unfoldable pub start_write : Stream → ℤ × Stream
start_write s =
    let (done, t) = handle_write s in
    if s.connecting
    then (pos 0, s)
    else if done
    then if ltb 0 (readable_bytes t.write_buffer)
      then (pos 0, add_io_state write_event t)
      else (pos 0, t)
    else (negsuc 3, close t)

-- The guards that `writeBytes` and `justWriteBytesToBuff` share, and the append.
unfoldable pub just_write_bytes_to_buff : Bytes → Stream → ℤ × Stream
just_write_bytes_to_buff bytes s =
    let (done, b) = append s.write_buffer bytes in
    let t = record s { write_buffer = b } in
    if s.closed
    then (negsuc 0, s)
    else if length bytes == 0
    then (negsuc 1, s)
    else if done
    then (pos 0, t)
    else (negsuc 2, close t)

unfoldable pub write_bytes : Bytes → Stream → ℤ × Stream
write_bytes bytes s =
    let (code, t) = just_write_bytes_to_buff bytes s in
    if is_nonzero code then (code, t) else start_write t

unfoldable pub write_bytes_with : Bytes → Option ℕ → Stream → Option (ℤ × Stream)
write_bytes_with bytes callback s =
    let (code, t) = write_bytes bytes (record s { write_callback = callback }) in
    if is_none s.write_callback
    then some (code, if is_nonzero code then record t { write_callback = none } else t)
    else none

-- The assertions of the three read operations.
abbrev pub not_reading : Stream → Bool
not_reading s =
    is_none s.read_callback
    && (is_empty s.read_delimiter && (s.read_bytes == 0 && not s.read_until_close))

-- What the three read operations do once the request is noted, with the code of a failure.
unfoldable pub start_read : ℤ → Stream → ℤ × Stream
start_read failure s =
    let (done, t) = handle_read s in
    if done then (pos 0, if t.closed then t else add_io_state read_event t) else (failure, close t)

-- A request that the read buffer can serve at once.
unfoldable pub serve : ℕ → Option ℕ → Stream → ℤ × Stream
serve num_bytes callback s =
    let (done, result, b) = read_bytes_to_string s.read_buffer num_bytes [] in
    if done
    then (pos 0, post callback (λ cb. run_read cb result) (record s { read_buffer = b }))
    else (pos 1, s)

unfoldable pub read_bytes : ℕ → Option ℕ → Stream → Option (ℤ × Stream)
read_bytes num_bytes callback s =
    if num_bytes == 0
    then some (negsuc 0, s)
    else if not_reading s
    then some (
        if leb num_bytes (readable_bytes s.read_buffer)
        then serve num_bytes callback s
        else start_read (negsuc 1) (record s { read_bytes = num_bytes; read_callback = callback }))
    else none

unfoldable pub read_until : Bytes → Option ℕ → Stream → Option (ℤ × Stream)
read_until delimiter callback s =
    if is_empty delimiter
    then some (negsuc 0, s)
    else if not_reading s
    then elim (find s.read_buffer delimiter) [
      | some index ↦ some (serve (index + length delimiter) callback s)
      | none ↦ some (
          start_read (negsuc 1) (record s { read_delimiter = delimiter; read_callback = callback }))
    ]
    else none

unfoldable pub read_until_close : Option ℕ → Stream → Option (ℤ × Stream)
read_until_close callback s =
    if not_reading s
    then some
        (start_read (negsuc 0) (record s { read_until_close = true; read_callback = callback }))
    else none

-- The connect callback gets `err` by way of the loop, and is released.
unfoldable pub report : ℕ → Stream → Stream
report err s =
    post s.connect_callback (λ cb. run_connect cb err) (record s { connect_callback = none })

-- `handleConnect`, by whether the socket has an error, with the `errno` that the callback gets.
unfoldable pub handle_connect : Bool → ℕ → Stream → Stream
handle_connect socket_error errno s =
    if socket_error then close (report errno s) else record (report 0 s) { connecting = false }

abbrev pub reading : Stream → Bool
reading s = ltb 0 s.read_bytes

abbrev pub writing : Stream → Bool
writing s = ltb 0 (readable_bytes s.write_buffer)

-- A step of `handleEvents` behind its test `if(closed_) return`. A step that closes the stream and
-- returns makes the later steps return too.
abbrev pub unless_closed : (Stream → Stream) → Stream → Stream
unless_closed step s = if s.closed then s else step s

unfoldable pub on_connect : Bool → ℕ → Stream → Stream
on_connect socket_error errno s = if s.connecting then handle_connect socket_error errno s else s

unfoldable pub on_readable : Events → Stream → Stream
on_readable events s =
    let (done, t) = handle_read s in if events.readable then if done then t else close t else s

unfoldable pub on_writable : Events → Stream → Stream
on_writable events s =
    let (done, t) = handle_write s in if events.writable then if done then t else close t else s

unfoldable pub on_failing : Events → Stream → Stream
on_failing events s = if events.failing then close s else s

-- The events to wait for: reads also where there is nothing else to wait for.
abbrev pub interest : Stream → Events
interest s = record {
  readable = reading s || not (writing s);
  writable = writing s;
  failing = true;
}

unfoldable pub update_interest : Stream → Stream
update_interest s =
    if events_eq (interest s) s.state
    then s
    else call (update_handler s.socket (interest s)) (record s { state = interest s })

-- `IOStream::handleEvents`.
unfoldable pub handle_events : Events → Bool → ℕ → Stream → Stream
handle_events events socket_error errno s =
    let connected = unless_closed (on_connect socket_error errno) s in
    let read = unless_closed (on_readable events) connected in
    let written = unless_closed (on_writable events) read in
    let checked = unless_closed (on_failing events) written in unless_closed update_interest checked
