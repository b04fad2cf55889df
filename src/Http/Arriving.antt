-- ===== src/Http/Arriving.antt =====
-- The bytes of a request that come on a connection of tornado/HttpServer.cpp, from the socket to
-- `onHeaders`.
use simplesvr.Prelude.{
  ℕ, ◌+◌, ◌≤◌, ◌≡◌, refl, ap, ◌∙◌, true, false, List, [], ◌∷◌, ◌++◌, none, some, arith, length,
  take, drop, append_assoc, length-append, Bytes, codes, drop-append_length, take-append_length,
}
use simplesvr.Prelude.Partial.{All, ◌>>=◌}
use simplesvr.Prelude.Int.{negsuc}
use simplesvr.Buffer.{search, contents}
use simplesvr.Stream.{
  Stream, received, add_handler, add_callback, run_read, union, error_event, read_event,
  add_io_state,
}
use simplesvr.Buffer.Bounds
use simplesvr.Stream.Api.{not_reading, new, set_close_callback, read_until, start_read}
use simplesvr.Stream.Calls.Frame.{handle_read-SameState}
use simplesvr.Stream.Transfer.Delivery.{Arrives, handle_read_delivers}
use simplesvr.Http.Connection.{
  Connection, new_connection, start_run, no_request, on_headers_callback, on_stream_close_callback,
}
use simplesvr.Http.Server.{Incoming, make_stream, handle_stream, find-empty}
use simplesvr.Http.{absent}
use simplesvr.Http.Lines.{IsField, field_line, field_line-absent, length-field_line, length-field}
use simplesvr.Http.StartLine.{print_head}

abbrev blank_line : Bytes
blank_line = codes "\r\n\r\n"

-- No carriage return in front: the search goes on at the first one.
search-skip :
    (line rest : Bytes)
    → absent 13 line ≡ true
    → search (line ++ (13 ∷ rest)) blank_line ≡ length line + search (13 ∷ rest) blank_line
unfolding search
search-skip [] rest h = omega arith
search-skip (x ∷ line) rest h = ground (arith, search-skip line rest)

search-line_end :
    (line rest : Bytes)
    → absent 13 line ≡ true
    → 1 ≤ length line
    → search (13 ∷ 10 ∷ (line ++ rest)) blank_line ≡ 2 + search (line ++ rest) blank_line
unfolding search
search-line_end [] rest h k = absurd (omega arith)
search-line_end (x ∷ line) rest h k = ground arith

-- The empty line ends the head, and does not stand before its end.
search-print_head :
    (fs : List (Bytes × Bytes)) (more : Bytes)
    → All IsField fs
    → search (13 ∷ 10 ∷ (print_head fs ++ more)) blank_line + 2 ≡ length (print_head fs)
unfolding search
search-print_head [] more v = omega arith
search-print_head (f ∷ fs) more v =
    let line = field_line f in
    let rest = 13 ∷ 10 ∷ print_head fs in
    let lined = field_line-absent f v.0 in
    let head = search-line_end line (rest ++ more) lined (length-field_line f) in
    let body = search-skip line (10 ∷ (print_head fs ++ more)) lined in
    let ih = search-print_head fs more v.1 in
    ap (λ t. search (13 ∷ 10 ∷ t) blank_line + 2) (append_assoc line rest more)
    ∙ omega (arith, head, body, ih, length-field line (print_head fs))

-- Any first line, without a carriage return, and the fields of a head behind it.
abbrev pub print_lines : Bytes → List (Bytes × Bytes) → Bytes
print_lines line fs = line ++ (13 ∷ 10 ∷ print_head fs)

search-print_lines :
    (line more : Bytes) (fs : List (Bytes × Bytes))
    → absent 13 line ≡ true
    → All IsField fs
    → search (print_lines line fs ++ more) blank_line + 4 ≡ length (print_lines line fs)
search-print_lines line more fs v w =
    let rest = 13 ∷ 10 ∷ print_head fs in
    let skip = search-skip line (10 ∷ (print_head fs ++ more)) v in
    ap (λ t. search t blank_line + 4) (append_assoc line rest more)
    ∙ omega (arith, skip, search-print_head fs more w, length-field line (print_head fs))

-- The stream of a connection that has been accepted, on which `bytes` have come.
abbrev pub arrived : ℕ → Incoming → Bytes → Stream
arrived fd i bytes = new fd i.read_buffer i.write_buffer (received bytes ∷ []) i.sends

-- Nothing has been written, and the stream is open.
pub record IsFresh (i : Incoming) (s : Stream) : Type 0 where
  pub is_open : s.closed ≡ false
  pub free : s.write_callback ≡ none
  pub writes : s.write_buffer ≡ i.write_buffer
  pub unsent : s.sent ≡ []
  pub sends : s.sends ≡ i.sends
  pub connecting : s.connecting ≡ false
  pub idle : not_reading s ≡ true
  pub reads : Bounds.IsValid s.read_buffer

-- `startRun` where the head of a request, and what follows it, come at once.
start_run-delivers :
    (fd now n : ℕ) (i : Incoming) (bytes : Bytes)
    → Arrives bytes i.read_buffer
    → search bytes blank_line + 4 ≡ n
    → n ≤ length bytes
    → (h : Connection) × (start_run (new_connection (arrived fd i bytes) now) ≡ some h)
      × (h.stream.calls
          ≡ add_handler fd (union error_event read_event)
            ∷ add_callback (run_read on_headers_callback (take n bytes))
            ∷ [])
      × (contents h.stream.read_buffer ≡ drop n bytes)
      × (h.request ≡ no_request)
      × (h.accepted ≡ [])
      × IsFresh i h.stream
unfolding start_run new_connection set_close_callback read_until new start_read add_io_state
start_run-delivers fd now n i bytes a place inside =
    let s = arrived fd i bytes in
    let first = set_close_callback (some on_stream_close_callback) s in
    let waiting : Stream = record first {
      read_delimiter = blank_line;
      read_callback = some on_headers_callback;
    } in
    let r =
      handle_read_delivers on_headers_callback n bytes waiting a refl refl refl refl refl place
        inside in
    let same = handle_read-SameState waiting in
    let reads : read_until blank_line (some on_headers_callback) first
        ≡ some (start_read (negsuc 1) waiting) =
      ground (arith, find-empty i.read_buffer blank_line a.nothing) in
    let left = (start_read (negsuc 1) waiting).1 in
    (
      record (new_connection s now) { stream = left },
      ap (λ o. o >>= λ r. some (record (new_connection s now) { stream = r.1 })) reads,
      ground (arith, r, same.closed, same.state, same.socket),
      ground (arith, r, same.closed, same.state, same.socket),
      refl,
      refl,
      ground (
        arith, r.5.write_buffer, r.5.sent, r.5.write_callback, r.5.sends, r.5.connecting,
        same.closed, same.state, r.3, r.4,
      ),
    )

-- A connection that has been accepted, with a descriptor from 3 on, on which the head of a request, and what
-- follows it, come at once.
pub handle_stream-reads :
    (line more : Bytes) (fs : List (Bytes × Bytes)) (fd now : ℕ) (i : Incoming)
    → absent 13 line ≡ true
    → All IsField fs
    → i.receives ≡ received (print_lines line fs ++ more) ∷ []
    → Arrives (print_lines line fs ++ more) i.read_buffer
    → 3 ≤ fd
    → let text = print_lines line fs in
      (s : Stream) × (h : Connection) × (make_stream i fd ≡ some s)
      × (handle_stream now s ≡ some h)
      × (h.stream.calls
          ≡ add_handler fd (union error_event read_event)
            ∷ add_callback (run_read on_headers_callback text)
            ∷ [])
      × (contents h.stream.read_buffer ≡ more)
      × (h.request ≡ no_request)
      × (h.accepted ≡ [])
      × IsFresh i h.stream
unfolding make_stream handle_stream
handle_stream-reads line more fs fd now i v w script a low =
    let text = print_lines line fs in
    let size = length-append text more in
    let (h, runs, calls, kept, fresh, none_yet, unwritten) =
      start_run-delivers fd now (length text) i (text ++ more) a
        (search-print_lines line more fs v w) (omega arith) in
    let same : new fd i.read_buffer i.write_buffer i.receives i.sends
        ≡ arrived fd i (text ++ more) =
      ap (λ rs. new fd i.read_buffer i.write_buffer rs i.sends) script in
    (
      arrived fd i (text ++ more),
      h,
      ground (arith, same),
      runs,
      calls
          ∙ ap
              (λ t.
                add_handler fd (union error_event read_event)
                ∷ add_callback (run_read on_headers_callback t)
                ∷ [])
              (take-append_length text more),
      kept ∙ drop-append_length text more,
      fresh,
      none_yet,
      unwritten,
    )
