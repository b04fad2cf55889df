-- ===== src/Stream/Calls/Dispatch.antt =====
-- `handleEvents` of tornado/IOStream.cpp, called by the loop while the stream is registered, and
-- any sequence of operations and events.
use simplesvr.Prelude.{
  List, [], ◌∷◌, Bytes, if◌then◌else◌, Option, ℕ, ◌≡◌, Bool, true, false, ◌||◌, arith, if_elim,
}
use simplesvr.Stream.{Stream, Events, close, has_events}
use simplesvr.Stream.Reading.{handle_read}
use simplesvr.Stream.Writing.{handle_write}
use simplesvr.Stream.Api.{
  connect_with, set_close_callback, just_write_bytes_to_buff, write_bytes, write_bytes_with,
  read_bytes, read_until, read_until_close, handle_connect, report, on_connect, on_readable,
  on_writable, on_failing, update_interest, unless_closed, handle_events,
}
use simplesvr.Stream.Calls.{IsValid, close-IsValid, closed-close}
use simplesvr.Stream.Calls.Frame.{SameState, handle_read-SameState, handle_write-SameState}
use simplesvr.Stream.Calls.Steps.{handle_read-IsValid}
use simplesvr.Stream.Calls.Writes.{handle_write-IsValid}
use simplesvr.Stream.Calls.Operations.{
  connect_with-IsValid, just_write_bytes_to_buff-IsValid, write_bytes-IsValid, after,
  write_bytes_with-IsValid, read_bytes-IsValid, read_until-IsValid, read_until_close-IsValid,
  handle_connect-IsValid,
}

-- A valid stream that is in the loop, or has been closed since.
record IsLive (s : Stream) : Type 0 where
  valid : IsValid s
  live : s.closed || has_events s.state ≡ true

unless_closed_elim :
    (step : Stream → Stream) (s : Stream)
    → IsLive s
    → (s.closed ≡ false → IsLive (step s))
    → IsLive (unless_closed step s)
unless_closed_elim step s v h = if_elim IsLive s.closed (λ _. v) h

close-IsLive : (s : Stream) → IsValid s → IsLive (close s)
close-IsLive s v = record { valid = close-IsValid s v; live = ground (arith, closed-close s) }

same-IsLive : (s : Stream) (r : Bool × Stream) → IsLive s → SameState s r → IsValid r.1 → IsLive r.1
same-IsLive s r v e w = record { valid = w; live = ground (arith, v.live, e.state, e.closed) }

handle_connect-live :
    (failed : Bool) (errno : ℕ) (s : Stream)
    → s.closed || has_events s.state ≡ true
    → (handle_connect failed errno s).closed || has_events (handle_connect failed errno s).state
      ≡ true
unfolding handle_connect report
handle_connect-live failed errno s h = ground (arith, closed-close (report errno s))

on_connect-IsLive :
    (failed : Bool) (errno : ℕ) (s : Stream) → IsLive s → IsLive (on_connect failed errno s)
unfolding on_connect
on_connect-IsLive failed errno s v =
    if_elim IsLive s.connecting
      (λ _. record {
        valid = handle_connect-IsValid failed errno s v.valid;
        live = handle_connect-live failed errno s v.live;
      })
      (λ _. v)

on_readable-IsLive : (events : Events) (s : Stream) → IsLive s → IsLive (on_readable events s)
unfolding on_readable
on_readable-IsLive events s v =
    let t = handle_read-IsValid s v.valid in
    if_elim IsLive events.readable
      (λ _.
        if_elim IsLive (handle_read s).0
          (λ _. same-IsLive s (handle_read s) v (handle_read-SameState s) t)
          (λ _. close-IsLive (handle_read s).1 t))
      (λ _. v)

on_writable-IsLive : (events : Events) (s : Stream) → IsLive s → IsLive (on_writable events s)
unfolding on_writable
on_writable-IsLive events s v =
    let t = handle_write-IsValid s v.valid in
    if_elim IsLive events.writable
      (λ _.
        if_elim IsLive (handle_write s).0
          (λ _. same-IsLive s (handle_write s) v (handle_write-SameState s) t)
          (λ _. close-IsLive (handle_write s).1 t))
      (λ _. v)

on_failing-IsLive : (events : Events) (s : Stream) → IsLive s → IsLive (on_failing events s)
unfolding on_failing
on_failing-IsLive events s v = if_elim IsLive events.failing (λ _. close-IsLive s v.valid) (λ _. v)

update_interest-IsValid : (s : Stream) → IsLive s → s.closed ≡ false → IsValid (update_interest s)
unfolding update_interest
update_interest-IsValid s v h = ground (arith, v.valid, v.live)

pub handle_events-IsValid :
    (events : Events) (failed : Bool) (errno : ℕ) (s : Stream)
    → IsValid s
    → has_events s.state ≡ true
    → IsValid (handle_events events failed errno s)
unfolding handle_events
handle_events-IsValid events failed errno s v h =
    if_elim IsValid (checked).closed (λ _. c.valid) (λ e. update_interest-IsValid checked c e)
  where
    start : IsLive s
    start = record { valid = v; live = ground (arith, h) }

    connected : Stream
    connected = unless_closed (on_connect failed errno) s

    connected-IsLive : IsLive connected
    connected-IsLive =
        unless_closed_elim (on_connect failed errno) s start
          (λ _. on_connect-IsLive failed errno s start)

    read : Stream
    read = unless_closed (on_readable events) connected

    read-IsLive : IsLive read
    read-IsLive =
        unless_closed_elim (on_readable events) connected connected-IsLive
          (λ _. on_readable-IsLive events connected connected-IsLive)

    written : Stream
    written = unless_closed (on_writable events) read

    written-IsLive : IsLive written
    written-IsLive =
        unless_closed_elim (on_writable events) read read-IsLive
          (λ _. on_writable-IsLive events read read-IsLive)

    checked : Stream
    checked = unless_closed (on_failing events) written

    c : IsLive checked
    c =
        unless_closed_elim (on_failing events) written written-IsLive
          (λ _. on_failing-IsLive events written written-IsLive)

-- A client's call, or an event of the loop.
pub data Op : Type 0 where
  connects : Bool → Option ℕ → Op
  sets_close_callback : Option ℕ → Op
  writes buffers : Bytes → Op
  writes_with : Bytes → Option ℕ → Op
  reads : ℕ → Option ℕ → Op
  reads_until : Bytes → Option ℕ → Op
  reads_until_close : Option ℕ → Op
  events_come : Events → Bool → ℕ → Op
  closes : Op

-- An event comes only while the handler is in the loop; a call whose assertion fails ends the
-- program, and the stream stays as it was.
pub step : Op → Stream → Stream
step (connects started callback) s = (connect_with started callback s).1
step (sets_close_callback callback) s = set_close_callback callback s
step (writes bytes) s = (write_bytes bytes s).1
step (buffers bytes) s = (just_write_bytes_to_buff bytes s).1
step (writes_with bytes callback) s = after s (write_bytes_with bytes callback s)
step (reads n callback) s = after s (read_bytes n callback s)
step (reads_until delimiter callback) s = after s (read_until delimiter callback s)
step (reads_until_close callback) s = after s (read_until_close callback s)
step (events_come events failed errno) s =
    if has_events s.state then handle_events events failed errno s else s
step closes s = close s

pub run : List Op → Stream → Stream
run [] s = s
run (op ∷ ops) s = run ops (step op s)

pub set_close_callback-IsValid :
    (callback : Option ℕ) (s : Stream) → IsValid s → IsValid (set_close_callback callback s)
unfolding set_close_callback
set_close_callback-IsValid callback s v = record {
  reads = v.reads;
  writes = v.writes;
  orderly = v.orderly;
  in_loop = v.in_loop;
  closed_once = v.closed_once;
  scripted = v.scripted;
  released = v.released;
}

pub step-IsValid : (op : Op) (s : Stream) → IsValid s → IsValid (step op s)
unfolding step
step-IsValid (connects started callback) s v = connect_with-IsValid started callback s v
step-IsValid (sets_close_callback callback) s v = set_close_callback-IsValid callback s v
step-IsValid (writes bytes) s v = write_bytes-IsValid bytes s v
step-IsValid (buffers bytes) s v = just_write_bytes_to_buff-IsValid bytes s v
step-IsValid (writes_with bytes callback) s v = write_bytes_with-IsValid bytes callback s v
step-IsValid (reads n callback) s v = read_bytes-IsValid n callback s v
step-IsValid (reads_until delimiter callback) s v = read_until-IsValid delimiter callback s v
step-IsValid (reads_until_close callback) s v = read_until_close-IsValid callback s v
step-IsValid (events_come events failed errno) s v =
    if_elim IsValid (has_events s.state) (λ h. handle_events-IsValid events failed errno s v h)
      (λ _. v)
step-IsValid closes s v = close-IsValid s v

-- From a valid stream, whatever operations are called and whatever events come while the handler is
-- in the loop, in any order, the stream stays valid: both buffers are in bounds, the handler is
-- added, changed and removed in turn, and the descriptor is closed once, where the stream is closed,
-- and after the handler has left the loop.
pub run-IsValid : (ops : List Op) (s : Stream) → IsValid s → IsValid (run ops s)
unfolding run
run-IsValid [] s v = v
run-IsValid (op ∷ ops) s v = run-IsValid ops (step op s) (step-IsValid op s v)
