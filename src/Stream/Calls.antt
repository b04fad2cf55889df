-- ===== src/Stream/Calls.antt =====
-- The calls that a stream of tornado/IOStream.cpp makes of the event loop and of the system, and
-- the invariant that ties them to its state.
pub mod Steps
pub mod Frame
pub mod Writes
pub mod Operations
pub mod Dispatch
pub mod Interest
use simplesvr.Prelude.{
  none, ℕ, suc, ◌≡◌, ◌≤◌, length, Bool, true, false, not, ◌&&◌, List, [], ◌∷◌, if◌then◌else◌, arith,
}
use simplesvr.Prelude.Partial.{All}
use simplesvr.Buffer.{readable_bytes}
use simplesvr.Buffer.Bounds
use simplesvr.Buffer.Bounds.{read_bytes_to_string-IsValid}
use simplesvr.Stream.{
  Stream, Events, Receive, received, receive_fails, read_chunk_size, has_events, Call, add_handler,
  update_handler, remove_handler, close_fd, add_callback, close, add_io_state,
}
use simplesvr.Stream.Api.{is_none}

-- Whether the newest of the calls leaves the stream's handler in the loop.
abbrev pub registered : List Call → Bool
registered [] = false
registered (add_handler fd events ∷ cs) = true
registered (update_handler fd events ∷ cs) = registered cs
registered (remove_handler fd ∷ cs) = false
registered (close_fd fd ∷ cs) = registered cs
registered (add_callback job ∷ cs) = registered cs

-- How often a descriptor was closed.
abbrev pub closings : List Call → ℕ
closings [] = 0
closings (add_handler fd events ∷ cs) = closings cs
closings (update_handler fd events ∷ cs) = closings cs
closings (remove_handler fd ∷ cs) = closings cs
closings (close_fd fd ∷ cs) = suc (closings cs)
closings (add_callback job ∷ cs) = closings cs

-- Every call is about the stream's own socket. A handler is added where there is none, changed and
-- removed where there is one, and the descriptor is closed after that, with no call for it later.
abbrev pub IsOrderly : ℕ → List Call → Type 0
IsOrderly socket [] = Unit {0}
IsOrderly socket (add_handler fd events ∷ cs) =
    (fd ≡ socket) × (registered cs ≡ false) × (closings cs ≡ 0) × IsOrderly socket cs
IsOrderly socket (update_handler fd events ∷ cs) =
    (fd ≡ socket) × (registered cs ≡ true) × (closings cs ≡ 0) × IsOrderly socket cs
IsOrderly socket (remove_handler fd ∷ cs) =
    (fd ≡ socket) × (registered cs ≡ true) × (closings cs ≡ 0) × IsOrderly socket cs
IsOrderly socket (close_fd fd ∷ cs) =
    (fd ≡ socket) × (registered cs ≡ false) × (closings cs ≡ 0) × IsOrderly socket cs
IsOrderly socket (add_callback job ∷ cs) = IsOrderly socket cs

-- `read(2)` stores at most what it was asked for.
abbrev pub IsRead : Receive → Type 0
IsRead (received bytes) = length bytes ≤ read_chunk_size
IsRead (receive_fails errno) = Unit {0}

pub record IsValid (s : Stream) : Type 0 where
  pub reads : Bounds.IsValid s.read_buffer
  pub writes : Bounds.IsValid s.write_buffer
  pub orderly : IsOrderly s.socket s.calls
  pub in_loop : registered s.calls ≡ has_events s.state
  pub closed_once : closings s.calls ≡ (if s.closed then 1 else 0)
  pub scripted : All IsRead s.receives
  pub released : s.closed && has_events s.state ≡ false

-- A handler's result leaves a valid stream.
abbrev pub LeavesValid : Bool × Stream → Type 0
LeavesValid r = IsValid r.1

pub close-IsValid : (s : Stream) → IsValid s → IsValid (close s)
unfolding close
close-IsValid s v =
    ground (arith, read_bytes_to_string-IsValid s.read_buffer (readable_bytes s.read_buffer) [])

pub closed-close : (s : Stream) → (close s).closed ≡ true
unfolding close
closed-close s = ground arith

-- `close` of an open stream lets go of all four callbacks, and of the reader until the end.
pub close_releases :
    (s : Stream)
    → s.closed ≡ false
    → let t = close s in
      (t.connect_callback ≡ none)
      × (t.read_callback ≡ none)
      × (t.write_callback ≡ none)
      × (t.close_callback ≡ none)
      × (t.read_until_close ≡ false)
unfolding close
close_releases s h = ground arith

-- Closing a stream twice is closing it once.
pub close-close : (s : Stream) → close (close s) ≡ close s
unfolding close
close-close s = ground arith

pub add_io_state-IsValid :
    (s : Stream) (events : Events) → IsValid s → IsValid (add_io_state events s)
unfolding add_io_state
add_io_state-IsValid s events v = ground arith
