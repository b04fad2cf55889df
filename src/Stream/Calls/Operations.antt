-- ===== src/Stream/Calls/Operations.antt =====
-- The public operations of tornado/IOStream.cpp keep the invariant of the calls.
use simplesvr.Prelude.{
  ℕ, Bool, true, List, [], Option, none, some, arith, Bytes, length, ◌+◌, refl, Option-cases, inl,
  inr,
}
use simplesvr.Prelude.Partial.{All}
use simplesvr.Prelude.Int.{ℤ, negsuc}
use simplesvr.Buffer.{Buffer, append, find}
use simplesvr.Buffer.Bounds
use simplesvr.Buffer.Bounds.{append-IsValid, read_bytes_to_string-IsValid}
use simplesvr.Stream.{Stream, read_event, write_event, Receive, Send}
use simplesvr.Stream.Reading.{handle_read}
use simplesvr.Stream.Writing.{handle_write}
use simplesvr.Stream.Api.{
  connect, connect_with, just_write_bytes_to_buff, start_write, write_bytes, write_bytes_with,
  start_read, serve, read_bytes, read_until, read_until_close, handle_connect, report, new,
}
use simplesvr.Stream.Calls.{IsValid, IsRead, close-IsValid, add_io_state-IsValid}
use simplesvr.Stream.Calls.Steps.{handle_read-IsValid}
use simplesvr.Stream.Calls.Writes.{handle_write-IsValid, written-IsValid}

-- A result with a code leaves a valid stream.
abbrev pub CodeValid : ℤ × Stream → Type 0
CodeValid r = IsValid r.1

pub new-IsValid :
    (socket : ℕ) (b c : Buffer) (receives : List Receive) (sends : List Send)
    → Bounds.IsValid b
    → Bounds.IsValid c
    → All IsRead receives
    → IsValid (new socket b c receives sends)
unfolding new
new-IsValid socket b c receives sends hb hc h = record {
  reads = hb;
  writes = hc;
  orderly = tt;
  in_loop = refl;
  closed_once = refl;
  scripted = h;
  released = refl;
}

pub connect-IsValid : (started : Bool) (s : Stream) → IsValid s → IsValid (connect started s).1
unfolding connect
connect-IsValid started s v = ground (
  arith,
  close-IsValid (record s { connecting = true }),
  add_io_state-IsValid (record s { connecting = true }) write_event,
)

pub connect_with-IsValid :
    (started : Bool) (callback : Option ℕ) (s : Stream)
    → IsValid s
    → IsValid (connect_with started callback s).1
unfolding connect_with
connect_with-IsValid started callback s v = ground (arith, connect-IsValid started s v)

pub start_write-IsValid : (s : Stream) → IsValid s → IsValid (start_write s).1
unfolding start_write
start_write-IsValid s v = ground (
  arith,
  handle_write-IsValid s v,
  close-IsValid (handle_write s).1 (handle_write-IsValid s v),
  add_io_state-IsValid (handle_write s).1 write_event (handle_write-IsValid s v),
)

pub just_write_bytes_to_buff-IsValid :
    (bytes : Bytes) (s : Stream) → IsValid s → IsValid (just_write_bytes_to_buff bytes s).1
unfolding just_write_bytes_to_buff
just_write_bytes_to_buff-IsValid bytes s v =
    let b = (append s.write_buffer bytes).1 in
    let h = append-IsValid s.write_buffer bytes v.writes in
    let t = written-IsValid s s.sends b s.sent v h in
    ground (arith, t, close-IsValid (record s { write_buffer = b }) t)

pub write_bytes-IsValid : (bytes : Bytes) (s : Stream) → IsValid s → IsValid (write_bytes bytes s).1
unfolding write_bytes
write_bytes-IsValid bytes s v =
    let t = just_write_bytes_to_buff-IsValid bytes s v in
    ground (arith, t, start_write-IsValid (just_write_bytes_to_buff bytes s).1 t)

pub start_read-IsValid : (code : ℤ) (s : Stream) → IsValid s → IsValid (start_read code s).1
unfolding start_read
start_read-IsValid code s v =
    let t = handle_read-IsValid s v in
    ground (
      arith,
      t,
      close-IsValid (handle_read s).1 t,
      add_io_state-IsValid (handle_read s).1 read_event t,
    )

pub serve-IsValid :
    (n : ℕ) (callback : Option ℕ) (s : Stream) → IsValid s → IsValid (serve n callback s).1
unfolding serve
serve-IsValid n callback s v = ground (arith, read_bytes_to_string-IsValid s.read_buffer n [])

pub report-IsValid : (err : ℕ) (s : Stream) → IsValid s → IsValid (report err s)
unfolding report
report-IsValid err s v = ground arith

pub handle_connect-IsValid :
    (failed : Bool) (errno : ℕ) (s : Stream) → IsValid s → IsValid (handle_connect failed errno s)
unfolding handle_connect
handle_connect-IsValid failed errno s v = ground (
  arith,
  report-IsValid errno s v,
  report-IsValid 0 s v,
  close-IsValid (report errno s) (report-IsValid errno s v),
)

write_callback-IsValid :
    (s : Stream) (callback : Option ℕ)
    → IsValid s
    → IsValid (record s { write_callback = callback })
write_callback-IsValid s callback v = record {
  reads = v.reads;
  writes = v.writes;
  orderly = v.orderly;
  in_loop = v.in_loop;
  closed_once = v.closed_once;
  scripted = v.scripted;
  released = v.released;
}

-- The request that a read operation notes before it reads.
requested-IsValid :
    (s : Stream) (n : ℕ) (delimiter : Bytes) (until_close : Bool) (callback : Option ℕ)
    → IsValid s
    → IsValid (record s {
      read_bytes = n;
      read_delimiter = delimiter;
      read_until_close = until_close;
      read_callback = callback;
    })
requested-IsValid s n delimiter until_close callback v = record {
  reads = v.reads;
  writes = v.writes;
  orderly = v.orderly;
  in_loop = v.in_loop;
  closed_once = v.closed_once;
  scripted = v.scripted;
  released = v.released;
}

-- The stream that an operation leaves, or the old one where an assertion stops the program.
abbrev pub after : Stream → Option (ℤ × Stream) → Stream
after s none = s
after s (some (code, t)) = t

pub write_bytes_with-IsValid :
    (bytes : Bytes) (callback : Option ℕ) (s : Stream)
    → IsValid s
    → IsValid (after s (write_bytes_with bytes callback s))
unfolding write_bytes_with
write_bytes_with-IsValid bytes callback s v =
    let t = record s { write_callback = callback } in
    let w = write_bytes-IsValid bytes t (write_callback-IsValid s callback v) in
    ground (arith, w, write_callback-IsValid (write_bytes bytes t).1 none w)

pub read_bytes-IsValid :
    (n : ℕ) (callback : Option ℕ) (s : Stream)
    → IsValid s
    → IsValid (after s (read_bytes n callback s))
unfolding read_bytes
read_bytes-IsValid n callback s v = ground (
  arith,
  serve-IsValid n callback s v,
  start_read-IsValid (negsuc 1) (record s { read_bytes = n; read_callback = callback })
      (requested-IsValid s n s.read_delimiter s.read_until_close callback v),
)

pub read_until-IsValid :
    (delimiter : Bytes) (callback : Option ℕ) (s : Stream)
    → IsValid s
    → IsValid (after s (read_until delimiter callback s))
unfolding read_until
read_until-IsValid delimiter callback s v =
    let t = record s { read_delimiter = delimiter; read_callback = callback } in
    let w =
      start_read-IsValid (negsuc 1) t
        (requested-IsValid s s.read_bytes delimiter s.read_until_close callback v) in
    elim (Option-cases (find s.read_buffer delimiter)) [
      | inl e ↦ ground (arith, w)
      | inr (i, e) ↦ ground (arith, serve-IsValid (i + length delimiter) callback s v)
    ]

pub read_until_close-IsValid :
    (callback : Option ℕ) (s : Stream) → IsValid s → IsValid (after s (read_until_close callback s))
unfolding read_until_close
read_until_close-IsValid callback s v = ground (
  arith,
  start_read-IsValid (negsuc 0) (record s { read_until_close = true; read_callback = callback })
      (requested-IsValid s s.read_bytes s.read_delimiter true callback v),
)
