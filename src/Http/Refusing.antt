-- ===== src/Http/Refusing.antt =====
-- What tornado/HttpServer.cpp does with a malformed first line, from the bytes on the socket on.
use simplesvr.Prelude.{
  ℕ, zero, suc, ◌≤◌, ◌≡◌, ◌≢◌, refl, sym, ap, ◌∙◌, true, false, List, [], ◌∷◌, ◌++◌, some, arith,
  length, take, length-append, Bytes, take-append_length, if◌then◌else◌, ◌==◌, ◌⊎◌, inl, inr,
  Bool-cases,
}
use simplesvr.Prelude.Partial.{All}
use simplesvr.Prelude.Int.{negsuc}
use simplesvr.Buffer.{search}
use simplesvr.Stream.{
  Stream, close, received, add_handler, add_callback, run_read, union, error_event, read_event,
}
use simplesvr.Stream.Calls.{closed-close}
use simplesvr.Stream.Transfer.Delivery.{Arrives}
use simplesvr.Http.Connection.{
  Connection, on_headers, after_parse, close_stream, on_headers_callback,
}
use simplesvr.Http.Arriving.{print_lines, handle_stream-reads}
use simplesvr.Http.Server.{Incoming, make_stream, handle_stream}
use simplesvr.Http.{Strings, absent, crlf}
use simplesvr.Http.Requests.{Request, parse_start_line, parse_http_request}
use simplesvr.Http.Lines.{IsField, search-crlf, length-field}
use simplesvr.Http.StartLine.{print_head}

-- How often a character stands in a text.
abbrev pub count : ℕ → Bytes → ℕ
count sep [] = 0
count sep (x ∷ s) = let n = count sep s in if x == sep then suc n else n

count-absent : (sep : ℕ) (s : Bytes) → absent sep s ≡ true → count sep s ≡ 0
count-absent sep [] h = refl
count-absent sep (x ∷ s) h = ground (arith, count-absent sep s)

count-first :
    (sep : ℕ) (s t : Bytes) → absent sep s ≡ true → count sep (s ++ (sep ∷ t)) ≡ suc (count sep t)
count-first sep [] t h = ground arith
count-first sep (x ∷ s) t h = ground (arith, count-first sep s t)

-- A separator is not there, or there is a first one.
first_or_absent :
    (sep : ℕ) (s : Bytes)
    → (absent sep s ≡ true)
      ⊎ ((front : Bytes) × (rest : Bytes) × (s ≡ front ++ (sep ∷ rest)) × (absent sep front ≡ true))
first_or_absent sep [] = inl refl
first_or_absent sep (x ∷ s) = elim (Bool-cases (x == sep)) [
  | inl same ↦ let e : x ≡ sep = ground (arith, same) in inr ([], s, ap (λ y. y ∷ s) e, refl)
  | inr other ↦ elim (first_or_absent sep s) [
    | inl e ↦ inl (ground (arith, other, e))
    | inr (front, rest, e, v) ↦ inr (x ∷ front, rest, ap (λ t. x ∷ t) e, ground (arith, other, v))
  ]
]

sent-close : (s : Stream) → (close s).sent ≡ s.sent
unfolding close simplesvr.Stream.flush_unread simplesvr.Stream.unregister
sent-close s = ground arith

module _ (b : Strings) where
  -- `split` cuts into one part more than there are separators.
  length-split : (n sep : ℕ) (s : Bytes) → length s ≤ n → length (b.split sep s) ≡ suc (count sep s)
  length-split zero sep [] h = ap length (b.split_none sep [] refl)
  length-split zero sep (x ∷ s) h = absurd (omega arith)
  length-split (suc n) sep s h = elim (first_or_absent sep s) [
    | inl e ↦ ap length (b.split_none sep s e) ∙ omega (arith, count-absent sep s e)
    | inr (front, rest, e, v) ↦
        let size = ap length e ∙ length-append front (sep ∷ rest) in
        let ih = length-split n sep rest (omega (arith, size)) in
        ap (λ t. length (b.split sep t)) e
        ∙ ap length (b.split_first sep front rest v)
        ∙ ap suc ih
        ∙ ap suc (sym (count-first sep front rest v))
        ∙ ap (λ t. suc (count sep t)) (sym e)
  ]

  parse_start_line-parts :
      (items : List Bytes) (r : Request)
      → length items ≢ 3
      → (q : Request) × (parse_start_line b items r ≡ (negsuc 1, q))
  unfolding parse_start_line
  parse_start_line-parts [] r h = (r, refl)
  parse_start_line-parts (m ∷ []) r h = (r, refl)
  parse_start_line-parts (m ∷ u ∷ []) r h = (r, refl)
  parse_start_line-parts (m ∷ u ∷ v ∷ []) r h = absurd (h refl)
  parse_start_line-parts (m ∷ u ∷ v ∷ w ∷ items) r h = (r, refl)

  parse_http_request-refused :
      (text : Bytes) (r q : Request)
      → parse_start_line b (b.split 32 (take (search text crlf) text)) r ≡ (negsuc 1, q)
      → (search text crlf == length text) ≡ false
      → parse_http_request b text r ≡ some (negsuc 1, q)
  unfolding parse_http_request
  parse_http_request-refused text r q line inside = ground arith

  -- A first line that has not three parts.
  parse_http_request-parts :
      (line : Bytes) (fs : List (Bytes × Bytes)) (r : Request)
      → absent 13 line ≡ true
      → count 32 line ≢ 2
      → (q : Request) × (parse_http_request b (print_lines line fs) r ≡ some (negsuc 1, q))
  parse_http_request-parts line fs r v odd =
      let rest = print_head fs in
      let at = search-crlf line rest v in
      let size = length-field line rest in
      let cut = length-split (length line) 32 line (omega arith) in
      let (q, e) =
        parse_start_line-parts (b.split 32 line) r (λ three. odd (omega (arith, cut, three))) in
      let front =
        ap (λ n. take n (print_lines line fs)) at ∙ take-append_length line (13 ∷ 10 ∷ rest) in
      (
        q,
        parse_http_request-refused (print_lines line fs) r q
            (ap (λ l. parse_start_line b (b.split 32 l) r) front ∙ e) (ground (arith, at, size)),
      )

  -- A head whose first line, without a carriage return, has not exactly two blanks, and whatever
  -- follows it, come at once, one chunk at most, on a connection that has been accepted, with a
  -- descriptor from 3 on and a read buffer with room for another chunk: the loop is asked to watch
  -- the socket and to call `onHeaders` with the head, which closes the stream; nothing is sent, and
  -- the callback of the server is not called.
  pub handle_stream_refuses :
      (line more : Bytes) (fs : List (Bytes × Bytes)) (fd now : ℕ) (i : Incoming)
      → absent 13 line ≡ true
      → count 32 line ≢ 2
      → All IsField fs
      → i.receives ≡ received (print_lines line fs ++ more) ∷ []
      → Arrives (print_lines line fs ++ more) i.read_buffer
      → 3 ≤ fd
      → (s : Stream) × (h : Connection) × (c : Connection) × (make_stream i fd ≡ some s)
        × (handle_stream now s ≡ some h)
        × (h.stream.calls
            ≡ add_handler fd (union error_event read_event)
              ∷ add_callback (run_read on_headers_callback (print_lines line fs))
              ∷ [])
        × (on_headers b (print_lines line fs) h ≡ some c)
        × (c.stream.closed ≡ true)
        × (c.stream.sent ≡ [])
        × (c.accepted ≡ [])
  unfolding on_headers after_parse
  handle_stream_refuses line more fs fd now i v odd w script a low =
      let text = print_lines line fs in
      let (s, h, made, runs, calls, kept, fresh, none_yet, unwritten) =
        handle_stream-reads line more fs fd now i v w script a low in
      let (q, refused) = parse_http_request-parts line fs h.request v odd in
      (
        s,
        h,
        close_stream (record h { request = q }),
        made,
        runs,
        calls,
        rw (refused, on_headers) refl,
        closed-close h.stream,
        sent-close h.stream ∙ unwritten.unsent,
        none_yet,
      )
