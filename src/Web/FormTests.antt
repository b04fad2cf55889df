-- ===== src/Web/FormTests.antt =====
-- A form that is posted to tornado/Web.cpp on a small socket.
use simplesvr.Prelude.{
  ℕ, ◌≡◌, ◌≤◌, ◌++◌, refl, List, [], ◌∷◌, none, some, arith, Bytes, codes, replicate,
  length-replicate, Option, length,
}
use simplesvr.Prelude.Partial.{◌>>=◌}
use native.Mathlib.Nat.{le_trans}
use simplesvr.Prelude.Int.{pos}
use simplesvr.Buffer.{Buffer}
use simplesvr.Buffer.Bounds
use simplesvr.Buffer.{contents}
use simplesvr.Http.Requests.{Request}
use simplesvr.Http.Posting.{with_form}
use simplesvr.Http.Serving.{request_of}
use simplesvr.Stream.{
  Stream, received, accepts, add_handler, add_callback, run_read, union, error_event, read_event,
}
use simplesvr.Stream.Transfer.Delivery.{Arrives}
use simplesvr.Stream.Transfer.Output.{output}
use simplesvr.Http.{Headers, no_headers, get_value_int, atoi, with_cookies, parse_cookies}
use simplesvr.Http.Lines.{note_fields}
use simplesvr.Http.StartLine.{print_request}
use simplesvr.Http.Queries.{print_query}
use simplesvr.Http.PlainStrings.{plain_strings}
use simplesvr.Http.Connection.{
  Connection, on_headers, on_request_body, on_headers_callback, on_request_body_callback,
}
use simplesvr.Http.Server.{Incoming, make_stream, handle_stream}
use simplesvr.Http.Answers.{IsServed}
use simplesvr.Web.{Handler, answer_head, decimal_digits, write_chunk, finish_handler}
use simplesvr.Web.Application.{HandlerMap, find_handler, registered, handle_request}
use simplesvr.Web.Arguments.{body_argument}
use simplesvr.Web.Forms.{page_answer, answers_form}

abbrev some_bytes : Buffer
some_bytes = record { mem = replicate 2000 0; buff_len = 2000; read_index = 0; write_index = 0 }

some_bytes-IsValid : Bounds.IsValid some_bytes
some_bytes-IsValid = record {
  storage = length-replicate {A = ℕ} 2000 0;
  ordered = omega arith;
  in_range = omega arith;
  small = omega arith;
}

abbrev form_fields : List (Bytes × Bytes)
form_fields =
    (codes "Content-Encoding", codes "application/x-www-form-urlencoded")
    ∷ (codes "Content-Length", codes "7")
    ∷ []

abbrev form_headers : Headers
form_headers = note_fields form_fields no_headers

abbrev form_head : Bytes
form_head = print_request (codes "POST") (codes "/x") (codes "1.1") form_fields

abbrev form_item : Bytes × Bytes
form_item = (codes "a", codes "1")

abbrev more_items : List (Bytes × Bytes)
more_items = (codes "b", codes "2") ∷ []

abbrev next_head : Bytes
next_head = print_request (codes "GET") (codes "/y") (codes "1.1") []

abbrev form_text : Bytes
form_text = form_head ++ (print_query form_item more_items ++ next_head)

abbrev form_request : Request
form_request =
    with_form plain_strings form_item more_items
      (request_of plain_strings (codes "POST") (codes "/x") (codes "1.1") form_headers)

abbrev form_socket : Incoming
form_socket = record {
  read_buffer = some_bytes;
  write_buffer = some_bytes;
  receives = received form_text ∷ [];
  sends = accepts 50 ∷ [];
}

form_text-Arrives : Arrives form_text some_bytes
form_text-Arrives = record {
  reads = some_bytes-IsValid;
  nothing = refl;
  some_bytes = omega arith;
  one_chunk = omega arith;
  room = omega arith;
}

form_cookies :
    with_cookies plain_strings (pos 0, note_fields form_fields no_headers) ≡ (pos 0, form_headers)
unfolding parse_cookies
form_cookies = refl

form_length : get_value_int (codes "Content-Length") form_headers ≡ pos 7
unfolding get_value_int atoi
form_length = refl

abbrev pages : HandlerMap
pages = (codes "/", 1) ∷ (codes "/x", 2) ∷ []

known_page : find_handler (codes "/x") pages ≡ registered 2
unfolding find_handler
known_page = refl

abbrev idle_page : ℕ → Handler → Option Handler
idle_page n h = none

-- Every page answers with what was posted as `b`.
abbrev echo_page : ℕ → Handler → Option Handler
echo_page n h =
    body_argument (codes "b") h >>= λ text. finish_handler (codes "today") 9 (write_chunk text h)

answer_size : length (page_answer (codes "today") (codes "2")) ≤ 1000
unfolding answer_head decimal_digits
answer_size = omega arith

answers_form_example :
    (s : Stream) × (h : Connection) × (c : Connection) × (d : Handler) × (last : Connection)
    × (make_stream form_socket 7 ≡ some s)
    × (handle_stream 5 s ≡ some h)
    × (h.stream.calls
        ≡ add_handler 7 (union error_event read_event)
          ∷ add_callback (run_read on_headers_callback form_head)
          ∷ [])
    × (on_headers plain_strings form_head h ≡ some c)
    × (c.stream.calls
        ≡ add_callback (run_read on_request_body_callback (codes "a=1&b=2"))
          ∷ add_handler 7 (union error_event read_event)
          ∷ add_callback (run_read on_headers_callback form_head)
          ∷ [])
    × (contents c.stream.read_buffer ≡ next_head)
    × ((on_request_body plain_strings (codes "a=1&b=2") c).accepted ≡ form_request ∷ [])
    × (handle_request idle_page echo_page pages
          (codes "today")
          9
          (on_request_body plain_strings (codes "a=1&b=2") c)
        ≡ some d)
    × (d.conn ≡ some last)
    × (output last.stream ≡ page_answer (codes "today") (codes "2"))
    × IsServed last
answers_form_example =
    answers_form plain_strings idle_page echo_page pages (codes "today") (codes "b") (codes "/x")
      (codes "1.1") [] next_head form_item more_items form_fields form_headers 2 7 5 9 form_socket
      (refl, refl, refl, refl, refl, refl, refl)
      ((refl, refl, refl, refl, refl, refl), ((refl, refl, refl, refl, refl, refl), tt))
      form_cookies form_length (omega arith) refl refl (refl, refl, refl, refl)
      ((refl, refl, refl, refl), tt) refl form_text-Arrives (omega arith) known_page (λ h. refl)
      (omega arith) some_bytes-IsValid refl (le_trans answer_size (omega arith))
