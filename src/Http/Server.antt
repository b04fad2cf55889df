-- ===== src/Http/Server.antt =====
-- `HTTPServer` of tornado/HttpServer.cpp on top of tornado/TcpServer.cpp: what becomes of a connection
-- that has been accepted. What the system calls of its socket return is given.
use simplesvr.Prelude.{
  ℕ, ◌≡◌, ◌≤◌, ◌⊎◌, ◌∙◌, inl, inr, refl, ap, true, false, List, [], Option, none, some, arith, ltb,
  length, subst, if◌then◌else◌, Option-cases, Bytes, codes,
}
use simplesvr.Prelude.Int.{ℤ, negsuc}
use simplesvr.Prelude.Partial.{◌>>=◌, All}
use simplesvr.Buffer.{Buffer, contents, find}
use simplesvr.Buffer.Bounds
use simplesvr.Buffer.Search.{find-Occurs}
use simplesvr.Stream.{Stream, Receive, Send, Job, read_event, has_events, close, add_io_state}
use simplesvr.Stream.Reading.{handle_read}
use simplesvr.Stream.Api.{new, not_reading, set_close_callback, read_until, start_read}
use simplesvr.Stream.Calls.{IsValid, IsRead, IsOrderly, closed-close}
use simplesvr.Stream.Calls.Frame.{handle_read-SameState}
use simplesvr.Stream.Calls.Operations.{after, new-IsValid, read_until-IsValid}
use simplesvr.Stream.Calls.Dispatch.{set_close_callback-IsValid}
use simplesvr.TimeoutQueue.MultiIndex.{Container}
use simplesvr.Loop.{Loop, min_fd, in_range, slot_at}
use simplesvr.Loop.Streams.{make_calls, make_calls-registered}
use simplesvr.Http.Connection.{
  Connection, new_connection, start_run, on_headers_callback, on_stream_close_callback,
}

-- A new stream's buffers, and the results to come of its system calls.
pub record Incoming : Type 0 where
  pub read_buffer : Buffer
  pub write_buffer : Buffer
  pub receives : List Receive
  pub sends : List Send

-- The stream that `handleConnection` makes; `none` is the failed assertion of its constructor.
unfoldable pub make_stream : Incoming → ℕ → Option Stream
make_stream i fd =
    if ltb fd min_fd then none else some (new fd i.read_buffer i.write_buffer i.receives i.sends)

-- `HTTPServer::handleStream`, at the time `now`.
unfoldable pub handle_stream : ℕ → Stream → Option Connection
handle_stream now s = start_run (new_connection s now)

close-socket : (s : Stream) → (close s).socket ≡ s.socket
unfolding close
close-socket s = ground arith

-- A stream that waits in the loop, or is closed.
abbrev IsStarted : Stream → Stream → Type 0
IsStarted s t =
    (t.socket ≡ s.socket) × (((t.closed ≡ false) × (has_events t.state ≡ true)) ⊎ (t.closed ≡ true))

add_io_state-IsStarted : (s : Stream) → s.closed ≡ false → IsStarted s (add_io_state read_event s)
unfolding add_io_state
add_io_state-IsStarted s h = ground arith

start_read-IsStarted :
    (failure : ℤ) (s : Stream) → s.closed ≡ false → IsStarted s (start_read failure s).1
unfolding start_read
start_read-IsStarted failure s h =
    let same = handle_read-SameState s in
    let t = (handle_read s).1 in
    let (kept, started) = add_io_state-IsStarted t (same.closed ∙ h) in
    let shut = closed-close t in
    let socket = close-socket t in ground (arith, same.socket, same.closed)

pub find-empty : (b : Buffer) (d : Bytes) → contents b ≡ [] → find b d ≡ none
find-empty b d empty = elim (Option-cases (find b d)) [
  | inl e ↦ e
  | inr (i, e) ↦ let (_, below) = find-Occurs b d e in absurd (omega (arith, ap length empty))
]

-- `startRun` on a stream with nothing to read reads what there is, and waits for more or is closed.
start_run-IsStarted :
    (s : Stream) (now : ℕ)
    → contents s.read_buffer ≡ []
    → not_reading s ≡ true
    → s.closed ≡ false
    → IsValid s
    → (h : Connection) × (start_run (new_connection s now) ≡ some h)
      × IsStarted s h.stream
      × IsValid h.stream
unfolding start_run new_connection set_close_callback read_until
start_run-IsStarted s now empty idle open_ v =
    let first = set_close_callback (some on_stream_close_callback) s in
    let d = codes "\r\n\r\n" in
    let waiting = record first { read_delimiter = d; read_callback = some on_headers_callback } in
    let reads : read_until d (some on_headers_callback) first
        ≡ some (start_read (negsuc 1) waiting) =
      ground (arith, find-empty s.read_buffer d empty) in
    let valid =
      read_until-IsValid d (some on_headers_callback) first
        (set_close_callback-IsValid (some on_stream_close_callback) s v) in
    let left = (start_read (negsuc 1) waiting).1 in
    (
      record (new_connection s now) { stream = left },
      ap (λ o. o >>= λ r. some (record (new_connection s now) { stream = r.1 })) reads,
      start_read-IsStarted (negsuc 1) waiting open_,
      subst (λ o. IsValid (after first o)) reads valid,
    )

module _ (c : Container) (handler : ℕ) (number : Job → ℕ) where
  -- The handler's slot and the stream agree.
  abbrev pub IsConnected : ℕ → Connection → Loop c → Type 0
  IsConnected fd h l =
      ((h.stream.closed ≡ false) × ((slot_at l.handlers fd).taken ≡ true))
      ⊎ ((h.stream.closed ≡ true) × ((slot_at l.handlers fd).taken ≡ false))

  -- A connection that has been accepted, with a descriptor from 3 on whose slot is in range and
  -- free, and an empty read buffer, fails no assertion of the stream or of the loop, on which the
  -- calls of its stream are made: afterwards its stream is open and its handler is in the table, or
  -- it is closed and the handler is not.
  pub handle_stream-IsConnected :
      (i : Incoming) (fd now : ℕ) (l : Loop c)
      → Bounds.IsValid i.read_buffer
      → Bounds.IsValid i.write_buffer
      → contents i.read_buffer ≡ []
      → All IsRead i.receives
      → 3 ≤ fd
      → in_range c fd l ≡ true
      → (slot_at l.handlers fd).taken ≡ false
      → (s : Stream) × (h : Connection) × (l' : Loop c) × (make_stream i fd ≡ some s)
        × (handle_stream now s ≡ some h)
        × (make_calls c handler number h.stream.calls l ≡ some l')
        × IsConnected fd h l'
  unfolding make_stream handle_stream new
  handle_stream-IsConnected i fd now l reads writes empty scripted low inside free =
      let s = new fd i.read_buffer i.write_buffer i.receives i.sends in
      let v =
        new-IsValid fd i.read_buffer i.write_buffer i.receives i.sends reads writes scripted in
      let (h, runs, (same, started), valid) = start_run-IsStarted s now empty refl refl v in
      let orderly : IsOrderly fd h.stream.calls =
        subst (λ k. IsOrderly k h.stream.calls) same valid.orderly in
      let (l', made, _, taken) =
        make_calls-registered c handler number fd h.stream.calls l orderly inside free in
      let held : (slot_at l'.handlers fd).taken ≡ has_events h.stream.state =
        taken ∙ valid.in_loop in
      (
        s,
        h,
        l',
        ground arith,
        runs,
        made,
        elim started [
          | inl (open_, has) ↦ inl (open_, held ∙ has)
          | inr shut ↦ inr (shut, ground (arith, valid.released))
        ],
      )
