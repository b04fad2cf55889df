-- ===== src/Web/ExchangeTests.antt =====
-- An exchange over tornado/Web.cpp on a small socket.
use simplesvr.Prelude.{
  ℕ, ◌≡◌, refl, true, false, List, [], ◌∷◌, none, some, arith, Bytes, codes, replicate,
  length-replicate, Option, length, ◌≤◌,
}
use native.Mathlib.Nat.{le_trans}
use simplesvr.Prelude.Int.{pos}
use simplesvr.Buffer.{Buffer}
use simplesvr.Buffer.Bounds
use simplesvr.Stream.{
  Stream, received, accepts, add_handler, add_callback, run_read, union, error_event, read_event,
}
use simplesvr.Stream.Transfer.Delivery.{Arrives}
use simplesvr.Stream.Transfer.Output.{output}
use simplesvr.Http.{Headers, no_headers, get_value_int, atoi, with_cookies, parse_cookies}
use simplesvr.Http.Lines.{note_fields}
use simplesvr.Http.StartLine.{print_request}
use simplesvr.Http.Requests.{parse_http_request}
use simplesvr.Http.Queries.{with_query}
use simplesvr.Http.PlainStrings.{plain_strings}
use simplesvr.Http.Connection.{
  Connection, new_connection, no_request, on_headers, on_headers_callback,
}
use simplesvr.Http.Server.{Incoming, make_stream, handle_stream}
use simplesvr.Http.Arriving.{arrived}
use simplesvr.Http.Serving.{request_of}
use simplesvr.Http.Answers.{IsServed}
use simplesvr.Web.{Handler, answer_head, decimal_digits}
use simplesvr.Web.Application.{HandlerMap, find_handler, error_handler, handle_request}
use simplesvr.Web.EndToEnd.{not_found, answers_not_found, answers_and_closes}
use simplesvr.Web.Arguments.{argument, argument-print_query}

abbrev some_bytes : Buffer
some_bytes = record { mem = replicate 2000 0; buff_len = 2000; read_index = 0; write_index = 0 }

some_bytes-IsValid : Bounds.IsValid some_bytes
some_bytes-IsValid = record {
  storage = length-replicate {A = ℕ} 2000 0;
  ordered = omega arith;
  in_range = omega arith;
  small = omega arith;
}

abbrev host : List (Bytes × Bytes)
host = (codes "Host", codes "localhost") ∷ []

abbrev host_headers : Headers
host_headers = note_fields host no_headers

abbrev request_text : Bytes
request_text = print_request (codes "GET") (codes "/x") (codes "1.1") host

abbrev asking : Incoming
asking = record {
  read_buffer = some_bytes;
  write_buffer = some_bytes;
  receives = received request_text ∷ [];
  sends = accepts 1000 ∷ [];
}

request_text-Arrives : Arrives request_text some_bytes
request_text-Arrives = record {
  reads = some_bytes-IsValid;
  nothing = refl;
  some_bytes = omega arith;
  one_chunk = omega arith;
  room = omega arith;
}

no_cookies : with_cookies plain_strings (pos 0, host_headers) ≡ (pos 0, host_headers)
unfolding parse_cookies
no_cookies = refl

no_body : get_value_int (codes "Content-Length") host_headers ≡ pos 0
unfolding get_value_int atoi
no_body = refl

abbrev pages : HandlerMap
pages = (codes "/", 1) ∷ []

no_page : find_handler (codes "/x") pages ≡ error_handler
unfolding find_handler
no_page = refl

abbrev idle_page : ℕ → Handler → Option Handler
idle_page n h = none

abbrev missing : Bytes
missing = not_found plain_strings idle_page idle_page pages (codes "today")

missing_size : length missing ≤ 1000
unfolding answer_head decimal_digits
missing_size = omega arith

answers_not_found_example :
    (s : Stream) × (h : Connection) × (c : Connection) × (d : Handler) × (last : Connection)
    × (make_stream asking 7 ≡ some s)
    × (handle_stream 5 s ≡ some h)
    × (h.stream.calls
        ≡ add_handler 7 (union error_event read_event)
          ∷ add_callback (run_read on_headers_callback request_text)
          ∷ [])
    × (on_headers plain_strings request_text h ≡ some c)
    × (c.accepted
        ≡ request_of plain_strings (codes "GET") (codes "/x") (codes "1.1") host_headers ∷ [])
    × (handle_request idle_page idle_page pages (codes "today") 9 c ≡ some d)
    × (d.conn ≡ some last)
    × (output last.stream ≡ missing)
    × IsServed last
answers_not_found_example =
    answers_not_found plain_strings idle_page idle_page pages (codes "today") (codes "/x")
      (codes "1.1") [] host host_headers 7 5 9 asking (refl, refl, refl, refl, refl, refl, refl)
      ((refl, refl, refl, refl, refl, refl), tt) no_cookies no_body refl request_text-Arrives
      (omega arith) no_page some_bytes-IsValid refl (le_trans missing_size (omega arith))

answers_and_closes_example :
    (s : Stream) × (h : Connection) × (c : Connection) × (d : Handler) × (last : Connection)
    × (make_stream asking 7 ≡ some s)
    × (handle_stream 5 s ≡ some h)
    × (h.stream.calls
        ≡ add_handler 7 (union error_event read_event)
          ∷ add_callback (run_read on_headers_callback request_text)
          ∷ [])
    × (on_headers plain_strings request_text h ≡ some c)
    × (c.accepted
        ≡ request_of plain_strings (codes "GET") (codes "/x") (codes "1.1") host_headers ∷ [])
    × (handle_request idle_page idle_page pages (codes "today") 9 c ≡ some d)
    × (d.conn ≡ some last)
    × (last.stream.sent ≡ missing)
    × (last.stream.closed ≡ true)
answers_and_closes_example =
    answers_and_closes plain_strings idle_page idle_page pages (codes "today") (codes "/x")
      (codes "1.1") [] host host_headers 7 5 9 1000 asking
      (refl, refl, refl, refl, refl, refl, refl) ((refl, refl, refl, refl, refl, refl), tt)
      no_cookies no_body refl request_text-Arrives (omega arith) no_page some_bytes-IsValid refl
      (le_trans missing_size (omega arith)) refl missing_size (le_trans missing_size (omega arith))

abbrev first_argument : Bytes × Bytes
first_argument = (codes "a", codes "1")

abbrev more_arguments : List (Bytes × Bytes)
more_arguments = (codes "b", codes "2") ∷ (codes "a", codes "3") ∷ []

abbrev asked : Connection
asked = record (new_connection (arrived 7 asking request_text) 5) {
  request =
      record (with_query plain_strings (codes "GET") (codes "/x") (codes "1.1") first_argument
        more_arguments no_request) { headers = host_headers };
}

abbrev answering : Handler
answering = record { finished = false; status_code = pos 200; buff = []; conn = some asked }

argument-print_query_example :
    (parse_http_request plain_strings
        (print_request (codes "GET") (codes "/x?a=1&b=2&a=3") (codes "1.1") host)
        no_request
      ≡ some (pos 0, asked.request))
    × (argument (codes "a") answering ≡ some (codes "3"))
argument-print_query_example =
    argument-print_query plain_strings (codes "GET") (codes "/x") (codes "1.1") (codes "a")
      first_argument more_arguments host host_headers answering asked
      (refl, refl, refl, refl, refl, refl) refl refl (refl, refl, refl, refl)
      ((refl, refl, refl, refl), ((refl, refl, refl, refl), tt))
      ((refl, refl, refl, refl, refl, refl), tt) no_cookies refl refl
