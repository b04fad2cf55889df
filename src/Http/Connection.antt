-- ===== src/Http/Connection.antt =====
-- `HTTPConnection` of tornado/HttpServer.cpp, on the stream of tornado/IOStream.cpp.
use simplesvr.Prelude.{
  ℕ, ◌*◌, Bool, true, false, not, ◌&&◌, List, [], ◌∷◌, Option, none, some, ltb, ◌==◌, if◌then◌else◌,
  Bytes, codes, bytes_eq,
}
use simplesvr.Prelude.Partial.{◌>>=◌}
use simplesvr.Prelude.Int.{ℤ, pos, negsuc, is_nonzero}
use simplesvr.Stream.{Stream, close}
use simplesvr.Stream.Api.{
  set_close_callback, read_until, read_bytes, write_bytes, write_bytes_with,
  just_write_bytes_to_buff, writing,
}
use simplesvr.Http.{Strings, no_headers, get_value, get_value_int}
use simplesvr.Http.Requests.{Request, parse_http_request, parse_body_arguments}

-- The methods that are bound as callbacks of the stream.
abbrev pub on_stream_close_callback : ℕ
on_stream_close_callback = 0

abbrev pub on_headers_callback : ℕ
on_headers_callback = 1

abbrev pub on_request_body_callback : ℕ
on_request_body_callback = 2

abbrev pub on_write_complete_callback : ℕ
on_write_complete_callback = 3

pub record Connection : Type 0 where
  pub request : Request
  pub stream : Stream
  pub close_callback : Option ℕ
  pub request_finished : Bool
  pub start_time : ℕ
  pub finish_time : ℕ
  -- The requests for which `request_callback_` was called and the runs of `close_callback_`, the
  -- newest first.
  pub accepted : List Request
  pub closings : List ℕ

abbrev pub no_request : Request
no_request = record {
  method = [];
  path = [];
  query = [];
  version = [];
  arguments = [];
  body_arguments = [];
  headers = no_headers;
  body = [];
}

-- `HTTPConnection::HTTPConnection`.
unfoldable pub new_connection : Stream → ℕ → Connection
new_connection s now = record {
  request = no_request;
  stream = s;
  close_callback = none;
  request_finished = false;
  start_time = now;
  finish_time = 0;
  accepted = [];
  closings = [];
}

-- `onStreamColse`.
unfoldable pub on_stream_close : Connection → Connection
on_stream_close c = elim c.close_callback [
  | none ↦ c
  | some cb ↦ record c { close_callback = none; closings = cb ∷ c.closings }
]

-- `startRun`. The result of `readUntil` is only logged.
unfoldable pub start_run : Connection → Option Connection
start_run c = do
  r ←
      read_until (codes "\r\n\r\n") (some on_headers_callback)
        (set_close_callback (some on_stream_close_callback) c.stream)
  some (record c { stream = r.1 })

-- `stream_->close()`.
abbrev pub close_stream : Connection → Connection
close_stream c = record c { stream = close c.stream }

abbrev pub run_request : Connection → Connection
run_request c = record c { accepted = c.request ∷ c.accepted }

-- The greatest body.
abbrev pub max_body : ℕ
max_body = 1024 * 100

-- The answer to `Expect: 100-continue`.
unfoldable pub confirm : Connection → Stream
confirm c =
    if bytes_eq (get_value (codes "Expect") c.request.headers) (codes "100-continue")
    then (write_bytes (codes "HTTP/1.1 100 (Continue)\r\n\r\n") c.stream).1
    else c.stream

-- What `onHeaders` does with the length that the headers give.
unfoldable pub expect_body : ℤ → Connection → Option Connection
expect_body (negsuc n) c = some (run_request c)
expect_body (pos n) c =
    if n == 0 then some (run_request c) else if ltb max_body n then some (close_stream c) else (do
      r ← read_bytes n (some on_request_body_callback) (confirm c)
      some (record c { stream = r.1 }))

unfoldable pub after_parse : ℤ × Request → Connection → Option Connection
after_parse (code, request) c =
    let c' = record c { request = request } in
    if is_nonzero code
    then some (close_stream c')
    else expect_body (get_value_int (codes "Content-Length") request.headers) c'

module _ (b : Strings) where
  -- `onHeaders`. `none` is a failed assertion of the stream.
  unfoldable pub on_headers : Bytes → Connection → Option Connection
  on_headers text c = do r ← parse_http_request b text c.request; after_parse r c

  -- `onRequestBody`.
  unfoldable pub on_request_body : Bytes → Connection → Connection
  on_request_body text c =
      let request : Request = record (c.request) { body = text } in
      let (done, parsed) = parse_body_arguments b text request in
      if bytes_eq request.method (codes "POST")
      then if done
        then run_request (record c { request = parsed })
        else close_stream (record c { request = parsed })
      else run_request (record c { request = request })

-- `finish`, at the time `now`.
unfoldable pub finish : ℕ → Connection → Connection
finish now c =
    let c' = record c { finish_time = now; request_finished = true } in
    if writing c.stream then c' else close_stream c'

-- `write`: the result of `writeBytes`. `none` is the assertion that no write callback is left.
unfoldable pub write : Bytes → Connection → Option (ℤ × Connection)
write chunk c = do
  r ← write_bytes_with chunk (some on_write_complete_callback) c.stream
  some (r.0, record c { stream = r.1 })

-- `writeToBuff`.
unfoldable pub write_to_buff : Bytes → Connection → ℤ × Connection
write_to_buff chunk c =
    let (code, s) = just_write_bytes_to_buff chunk c.stream in (code, record c { stream = s })

-- `onWriteComplete`.
unfoldable pub on_write_complete : Connection → Connection
on_write_complete c =
    if c.request_finished && (not (writing c.stream) && not c.stream.closed)
    then close_stream c
    else c
