-- ===== src/Stream.antt =====
-- tornado/IOStream.h and tornado/IOStream.cpp: a non-blocking socket with a read and a write
-- buffer. The state of the object stands in one record with the environment that it acts on: the
-- results of its system calls, and the calls that it makes of the event loop.
pub mod Reading
pub mod Writing
pub mod Api
pub mod Calls
pub mod Transfer
mod Tests
use simplesvr.Prelude.{
  ℕ, ◌*◌, ◌/◌, Bool, true, false, not, ◌&&◌, ◌||◌, List, [], ◌∷◌, Option, none, some, ltb,
  if◌then◌else◌, Bytes,
}
use simplesvr.Buffer.{Buffer, readable_bytes, read_bytes_to_string}

-- A set of epoll events. `failing` stands for `IOLoop::ERROR`, the two flags EPOLLERR and EPOLLHUP.
pub record Events : Type 0 where
  pub readable : Bool
  pub writable : Bool
  pub failing : Bool

abbrev pub no_events : Events
no_events = record { readable = false; writable = false; failing = false }

abbrev pub read_event : Events
read_event = record { readable = true; writable = false; failing = false }

abbrev pub write_event : Events
write_event = record { readable = false; writable = true; failing = false }

abbrev pub error_event : Events
error_event = record { readable = false; writable = false; failing = true }

-- `a | b`.
abbrev pub union : Events → Events → Events
union a b = record {
  readable = a.readable || b.readable;
  writable = a.writable || b.writable;
  failing = a.failing || b.failing;
}

-- `a != 0`.
abbrev pub has_events : Events → Bool
has_events a = a.readable || (a.writable || a.failing)

abbrev pub bool_eq : Bool → Bool → Bool
bool_eq true b = b
bool_eq false b = not b

abbrev pub events_eq : Events → Events → Bool
events_eq a b =
    bool_eq a.readable b.readable && (bool_eq a.writable b.writable && bool_eq a.failing b.failing)

-- `WRITE_CHUNK_SIZE` and `READ_CHUNK_SIZE`.
abbrev pub write_chunk_size : ℕ
write_chunk_size = 128 * 1024 / 64

abbrev pub read_chunk_size : ℕ
read_chunk_size = 64 * 1024 / 64

-- What a failed system call leaves in `errno`, as far as the code tells errors apart.
pub data Errno : Type 0 where
  unset would_block other : Errno

-- One call of `read(2)`: the bytes that it stores (none at the end of the stream), or an error.
pub data Receive : Type 0 where
  received : Bytes → Receive
  receive_fails : Errno → Receive

-- One call of `write(2)`: the room in the socket, of which the call takes what it needs.
pub data Send : Type 0 where
  accepts : ℕ → Send
  send_fails : Errno → Send

-- What the stream hands to `IOLoop::addCallback`. A callback is known by a number.
pub data Job : Type 0 where
  run_read : ℕ → Bytes → Job
  run_connect : ℕ → ℕ → Job
  run_plain : ℕ → Job

-- The calls that leave the object.
pub data Call : Type 0 where
  add_handler update_handler : ℕ → Events → Call
  remove_handler close_fd : ℕ → Call
  add_callback : Job → Call

pub record Stream : Type 0 where
  pub socket : ℕ
  pub connecting : Bool
  pub closed : Bool
  pub state : Events
  pub connect_callback : Option ℕ
  pub read_callback : Option ℕ
  pub write_callback : Option ℕ
  pub close_callback : Option ℕ
  pub read_buffer : Buffer
  pub write_buffer : Buffer
  pub read_bytes : ℕ
  pub read_delimiter : Bytes
  pub read_until_close : Bool
  -- The environment: the results to come of the system calls, the bytes that `write(2)` has taken,
  -- and the calls made so far, the newest first.
  pub receives : List Receive
  pub sends : List Send
  pub sent : Bytes
  pub calls : List Call

abbrev pub call : Call → Stream → Stream
call c s = record s { calls = c ∷ s.calls }

-- `if(cb) io_loop_->addCallback(...)`, for a callback that may be empty.
abbrev pub post : Option ℕ → (ℕ → Job) → Stream → Stream
post none job s = s
post (some cb) job s = call (add_callback (job cb)) s

-- The first part of `close`: what the reader until the end has not seen goes to its callback.
unfoldable pub flush_unread : Stream → Stream
flush_unread s =
    let t = record s { read_until_close = false } in
    let buffsize = readable_bytes s.read_buffer in
    let (done, result, buffer) = read_bytes_to_string s.read_buffer buffsize [] in
    if s.read_until_close
    then if ltb 0 buffsize
      then if done
        then post s.read_callback (λ cb. run_read cb result)
            (record t { read_buffer = buffer; read_callback = none })
        else t
      else t
    else s

-- The handler leaves the loop if it is registered.
unfoldable pub unregister : Stream → Stream
unregister s =
    if has_events s.state
    then call (remove_handler s.socket) (record s { state = no_events })
    else s

-- `IOStream::close`.
unfoldable pub close : Stream → Stream
unfolding flush_unread unregister
close s =
    let t = unregister (flush_unread (record s { closed = true })) in
    let u = post t.close_callback run_plain (call (close_fd t.socket) t) in
    if s.closed then s else record u {
      close_callback = none;
      connect_callback = none;
      read_callback = none;
      write_callback = none;
    }

-- `IOStream::addIOState`. The two results of the loop are not looked at.
unfoldable pub add_io_state : Events → Stream → Stream
add_io_state events s =
    let first = union error_event events in
    let more = union s.state events in
    if s.closed
    then s
    else if has_events s.state
    then call (update_handler s.socket more) (record s { state = more })
    else call (add_handler s.socket first) (record s { state = first })
