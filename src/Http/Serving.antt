-- ===== src/Http/Serving.antt =====
-- A request of tornado/HttpServer.cpp from the bytes on the socket to the callback of the server.
use simplesvr.Prelude.{
  ℕ, ◌≤◌, ◌≡◌, refl, ap, ◌∙◌, List, [], ◌∷◌, ◌++◌, some, Bytes, codes, if◌then◌else◌,
}
use simplesvr.Prelude.Partial.{All}
use simplesvr.Prelude.Int.{ℤ, pos, negsuc, is_nonzero}
use simplesvr.Buffer.{contents}
use simplesvr.Stream.{
  Stream, received, add_handler, add_callback, run_read, union, error_event, read_event,
}
use simplesvr.Stream.Transfer.Delivery.{Arrives}
use simplesvr.Http.Connection.{
  Connection, on_headers, after_parse, expect_body, no_request, on_headers_callback,
}
use simplesvr.Http.Arriving.{IsFresh, handle_stream-reads}
use simplesvr.Http.Server.{Incoming, make_stream, handle_stream}
use simplesvr.Http.{Strings, Headers, no_headers, get_value_int, with_cookies}
use simplesvr.Http.Requests.{Request, parse_http_request}
use simplesvr.Http.Lines.{IsField, note_fields}
use simplesvr.Http.StartLine.{
  print_request, IsPlain, plain-IsLine, start_line, start_line-absent, with_line,
  parse_http_request-print_request,
}

module _ (b : Strings) where
  on_headers-accepts :
      (text : Bytes) (r : Request) (c : Connection)
      → parse_http_request b text c.request ≡ some (pos 0, r)
      → get_value_int (codes "Content-Length") r.headers ≡ pos 0
      → on_headers b text c ≡ some (record c { request = r; accepted = r ∷ c.accepted })
  unfolding on_headers after_parse expect_body
  on_headers-accepts text r c parsed no_body = rw (parsed, on_headers) (rw no_body refl)

  -- The request that the parts and the fields stand for.
  abbrev pub request_of : Bytes → Bytes → Bytes → Headers → Request
  request_of method path version hd = record (with_line b method path version no_request) {
    headers = hd;
  }

  pub parse_http_request-request_of :
      (method path version : Bytes) (fs : List (Bytes × Bytes)) (hd : Headers)
      → IsPlain method path version
      → All IsField fs
      → with_cookies b (pos 0, note_fields fs no_headers) ≡ (pos 0, hd)
      → parse_http_request b (print_request method path version fs) no_request
        ≡ some (pos 0, request_of method path version hd)
  parse_http_request-request_of method path version fs hd v w cookies =
      parse_http_request-print_request b method path version fs no_request v w
      ∙ ap
          (λ (p : ℤ × Headers). some (
            if is_nonzero p.0 then negsuc 5 else pos 0,
            record (with_line b method path version no_request) { headers = p.1 },
          ))
          cookies

  -- A request without query and body, whose line and fields are as `parseHttpRequest` reads them
  -- back, and whatever follows it, come at once, one chunk at most, on a connection that has been
  -- accepted, with a descriptor from 3 on and a read buffer with room for another chunk: the loop is
  -- asked to watch the socket and to call `onHeaders` with the request, which hands it to the
  -- callback of the server as it was sent. What follows stays in the buffer, and nothing is written.
  pub handle_stream_serves :
      (method path version more : Bytes) (fs : List (Bytes × Bytes)) (hd : Headers) (fd now : ℕ)
      (i : Incoming)
      → IsPlain method path version
      → All IsField fs
      → with_cookies b (pos 0, note_fields fs no_headers) ≡ (pos 0, hd)
      → get_value_int (codes "Content-Length") hd ≡ pos 0
      → i.receives ≡ received (print_request method path version fs ++ more) ∷ []
      → Arrives (print_request method path version fs ++ more) i.read_buffer
      → 3 ≤ fd
      → let text = print_request method path version fs in
        let request = request_of method path version hd in
        (s : Stream) × (h : Connection) × (make_stream i fd ≡ some s)
        × (handle_stream now s ≡ some h)
        × (h.stream.calls
            ≡ add_handler fd (union error_event read_event)
              ∷ add_callback (run_read on_headers_callback text)
              ∷ [])
        × (contents h.stream.read_buffer ≡ more)
        × (on_headers b text h ≡ some (record h { request = request; accepted = request ∷ [] }))
        × IsFresh i h.stream
  handle_stream_serves method path version more fs hd fd now i v w cookies no_body script a low =
      let text = print_request method path version fs in
      let (s, h, made, runs, calls, kept, fresh, none_yet, unwritten) =
        handle_stream-reads (start_line method path version) more fs fd now i
          (start_line-absent method path version (plain-IsLine method path version v)) w script a
          low in
      let parsed = parse_http_request-request_of method path version fs hd v w cookies in
      (
        s,
        h,
        made,
        runs,
        calls,
        kept,
        on_headers-accepts text (request_of method path version hd) h
              (ap (parse_http_request b text) fresh ∙ parsed) no_body
            ∙ ap
                (λ l. some (record h {
                  request = request_of method path version hd;
                  accepted = request_of method path version hd ∷ l;
                }))
                none_yet,
        unwritten,
      )
