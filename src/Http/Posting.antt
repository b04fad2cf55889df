-- ===== src/Http/Posting.antt =====
-- A posted form of tornado/HttpServer.cpp, from the bytes on the socket to the callback of the server.
use simplesvr.Prelude.{
  ℕ, ◌<◌, ◌≤◌, ◌≡◌, refl, ap, ◌∙◌, true, false, List, [], ◌∷◌, ◌++◌, some, arith, length, take,
  drop, length-append, Bytes, codes, drop-append_length, take-append_length, bytes_eq,
}
use simplesvr.Prelude.Partial.{All}
use simplesvr.Prelude.Int.{pos}
use simplesvr.Buffer.{contents, readable_bytes}
use simplesvr.Buffer.Bounds
use simplesvr.Buffer.Bounds.{length-contents}
use simplesvr.Stream.{
  Stream, received, add_handler, add_callback, run_read, union, error_event, read_event,
}
use simplesvr.Stream.Api.{not_reading}
use simplesvr.Stream.Transfer.Delivery.{Arrives}
use simplesvr.Stream.Transfer.Requests.{Served, read_bytes_local}
use simplesvr.Http.Connection.{
  Connection, on_headers, on_request_body, after_parse, expect_body, confirm, max_body,
  on_headers_callback, on_request_body_callback,
}
use simplesvr.Http.Arriving.{IsFresh, handle_stream-reads}
use simplesvr.Http.Server.{Incoming, make_stream, handle_stream}
use simplesvr.Http.{Strings, Headers, no_headers, get_value, get_value_int, with_cookies}
use simplesvr.Http.Requests.{Request, parse_http_request, parse_body_arguments}
use simplesvr.Http.Lines.{IsField, note_fields}
use simplesvr.Http.Queries.{print_query, IsItem, put_all, parse_qs_bytes-print_query}
use simplesvr.Http.Serving.{request_of, parse_http_request-request_of}
use simplesvr.Http.StartLine.{print_request, IsPlain, plain-IsLine, start_line, start_line-absent}

-- The type of a form, where `parseBodyArguments` looks for it.
abbrev pub form_type : Bytes
form_type = codes "application/x-www-form-urlencoded"

print_query_some : (p : Bytes × Bytes) (ps : List (Bytes × Bytes)) → 0 < length (print_query p ps)
print_query_some (key, value) [] = omega (arith, length-append key (b'=' ∷ value))
print_query_some (key, value) (q ∷ ps) =
    omega (arith, length-append (key ++ (b'=' ∷ value)) (b'&' ∷ print_query q ps))

-- A body that is there already, and is not confirmed, is read at once.
expect_body-Served :
    (n : ℕ) (c : Connection)
    → 0 < n
    → n ≤ max_body
    → bytes_eq (get_value (codes "Expect") c.request.headers) (codes "100-continue") ≡ false
    → not_reading c.stream ≡ true
    → Bounds.IsValid c.stream.read_buffer
    → n ≤ readable_bytes c.stream.read_buffer
    → (t : Stream) × (expect_body (pos n) c ≡ some (record c { stream = t }))
      × Served on_request_body_callback n c.stream t
unfolding expect_body confirm
expect_body-Served n c some_bytes small quiet idle v there =
    let (t, reads, served) =
      read_bytes_local n on_request_body_callback c.stream v idle some_bytes there in
    (t, ground (arith, reads), served)

module _ (b : Strings) where
  abbrev pub with_form : Bytes × Bytes → List (Bytes × Bytes) → Request → Request
  with_form p ps r = record r {
    body_arguments = put_all (p ∷ ps) r.body_arguments;
    body = print_query p ps;
  }

  on_request_body-form :
      (p : Bytes × Bytes) (ps : List (Bytes × Bytes)) (rest : Bytes) (c : Connection)
      → c.request.method ≡ codes "POST"
      → get_value (codes "Content-Encoding") c.request.headers ≡ form_type ++ rest
      → IsItem p
      → All IsItem ps
      → on_request_body b (print_query p ps) c ≡ record c {
        request = with_form p ps c.request;
        accepted = with_form p ps c.request ∷ c.accepted;
      }
  unfolding on_request_body parse_body_arguments
  on_request_body-form p ps rest c posts typed v w =
      let items = parse_qs_bytes-print_query b p ps c.request.body_arguments v w in
      let starts : b.starts_with (get_value (codes "Content-Encoding") c.request.headers) form_type
          ≡ true =
        ap (λ t. b.starts_with t form_type) typed ∙ b.starts_with_front rest form_type in
      rw (posts, starts, items) refl

  -- A form, posted without query to a path, with its size in the headers and its type where
  -- `parseBodyArguments` looks for it, comes at once with the head, and whatever follows, one chunk
  -- at most, on a connection that has been accepted, with a descriptor from 3 on and a read buffer
  -- with room for another chunk: the loop is asked to watch the socket, to call `onHeaders` with the
  -- head and, when that has run, `onRequestBody` with the form, which hands the request to the
  -- callback of the server with the arguments of the form. What follows stays in the buffer, and nothing is
  -- written.
  pub handle_stream_posts :
      (path version rest more : Bytes) (p : Bytes × Bytes) (ps fs : List (Bytes × Bytes))
      (hd : Headers) (fd now : ℕ) (i : Incoming)
      → IsPlain (codes "POST") path version
      → All IsField fs
      → with_cookies b (pos 0, note_fields fs no_headers) ≡ (pos 0, hd)
      → get_value_int (codes "Content-Length") hd ≡ pos (length (print_query p ps))
      → length (print_query p ps) ≤ max_body
      → bytes_eq (get_value (codes "Expect") hd) (codes "100-continue") ≡ false
      → get_value (codes "Content-Encoding") hd ≡ form_type ++ rest
      → IsItem p
      → All IsItem ps
      → i.receives
        ≡ received (print_request (codes "POST") path version fs ++ (print_query p ps ++ more)) ∷ []
      → Arrives
          (print_request (codes "POST") path version fs ++ (print_query p ps ++ more))
          i.read_buffer
      → 3 ≤ fd
      → let text = print_request (codes "POST") path version fs in
        let posted = with_form p ps (request_of b (codes "POST") path version hd) in
        (s : Stream) × (h : Connection) × (c : Connection) × (make_stream i fd ≡ some s)
        × (handle_stream now s ≡ some h)
        × (h.stream.calls
            ≡ add_handler fd (union error_event read_event)
              ∷ add_callback (run_read on_headers_callback text)
              ∷ [])
        × (on_headers b text h ≡ some c)
        × (c.stream.calls
            ≡ add_callback (run_read on_request_body_callback (print_query p ps))
              ∷ add_handler fd (union error_event read_event)
              ∷ add_callback (run_read on_headers_callback text)
              ∷ [])
        × (contents c.stream.read_buffer ≡ more)
        × (c.accepted ≡ [])
        × (on_request_body b (print_query p ps) c
            ≡ record c { request = posted; accepted = posted ∷ [] })
        × IsFresh i c.stream
  unfolding on_headers after_parse
  handle_stream_posts path version rest more p ps fs hd fd now i v w cookies sized small quiet typed
        item items script a low =
      let body = print_query p ps in
      let text = print_request (codes "POST") path version fs in
      let r = request_of b (codes "POST") path version hd in
      let (s, h, made, runs, calls, kept, fresh, none_yet, unwritten) =
        handle_stream-reads (start_line (codes "POST") path version) (body ++ more) fs fd now i
          (start_line-absent (codes "POST") path version
            (plain-IsLine (codes "POST") path version v))
          w script a low in
      let waiting : Connection = record h { request = r } in
      let size = length-contents h.stream.read_buffer unwritten.reads in
      let (t, reads, served) =
        expect_body-Served (length body) waiting (print_query_some p ps) small quiet unwritten.idle
          unwritten.reads (omega (arith, size, ap length kept, length-append body more)) in
      let c : Connection = record waiting { stream = t } in
      let parsed : parse_http_request b text h.request ≡ some (pos 0, r) =
        ap (parse_http_request b text) fresh
        ∙ parse_http_request-request_of b (codes "POST") path version fs hd v w cookies in
      (
        s,
        h,
        c,
        made,
        runs,
        calls,
        rw (parsed, on_headers) (ap (λ n. expect_body n waiting) sized ∙ reads),
        served.posted
            ∙ ap (λ l. add_callback (run_read on_request_body_callback l) ∷ h.stream.calls)
                (ap (take (length body)) kept ∙ take-append_length body more)
            ∙ ap (λ l. add_callback (run_read on_request_body_callback body) ∷ l) calls,
        served.kept ∙ ap (drop (length body)) kept ∙ drop-append_length body more,
        none_yet,
        on_request_body-form p ps rest c refl typed item items
            ∙ ap (λ l. record c { request = with_form p ps r; accepted = with_form p ps r ∷ l })
                none_yet,
        record {
          is_open = served.is_open ∙ unwritten.is_open;
          free = served.output.write_callback ∙ unwritten.free;
          writes = served.output.write_buffer ∙ unwritten.writes;
          unsent = served.output.sent ∙ unwritten.unsent;
          sends = served.output.sends ∙ unwritten.sends;
          connecting = served.output.connecting ∙ unwritten.connecting;
          idle = served.idle ∙ unwritten.idle;
          reads = served.reads;
        },
      )
