-- ===== src/Http/ArrivalTests.antt =====
-- A malformed request of tornado/HttpServer.cpp that comes on a small socket.
use simplesvr.Prelude.{◌≡◌, ◌++◌, refl, List, [], ◌∷◌, some, arith, true, Bytes, codes}
use simplesvr.Stream.{
  Stream, received, add_handler, add_callback, run_read, union, error_event, read_event,
}
use simplesvr.Stream.Transfer.Delivery.{Arrives}
use simplesvr.Http.PlainStrings.{plain_strings}
use simplesvr.Http.Connection.{Connection, on_headers, on_headers_callback}
use simplesvr.Http.Server.{Incoming, make_stream, handle_stream}
use simplesvr.Http.StartLine.{print_request}
use simplesvr.Http.Arriving.{print_lines}
use simplesvr.Http.Refusing.{handle_stream_refuses}
use simplesvr.Http.Tests.{no_bytes, no_bytes-IsValid, quiet_socket}

abbrev some_fields : List (Bytes × Bytes)
some_fields =
    (codes "Content-Encoding", codes "application/x-www-form-urlencoded")
    ∷ (codes "Content-Length", codes "7")
    ∷ []

abbrev next_head : Bytes
next_head = print_request (codes "GET") (codes "/y") (codes "1.1") []

abbrev odd_line : Bytes
odd_line = codes "GET /x y HTTP/1.1"

abbrev odd_text : Bytes
odd_text = print_lines odd_line some_fields

abbrev odd_socket : Incoming
odd_socket = record quiet_socket { receives = received (odd_text ++ next_head) ∷ [] }

odd_text-Arrives : Arrives (odd_text ++ next_head) no_bytes
odd_text-Arrives = record {
  reads = no_bytes-IsValid;
  nothing = refl;
  some_bytes = omega arith;
  one_chunk = omega arith;
  room = omega arith;
}

handle_stream_refuses_example :
    (s : Stream) × (h : Connection) × (c : Connection) × (make_stream odd_socket 7 ≡ some s)
    × (handle_stream 5 s ≡ some h)
    × (h.stream.calls
        ≡ add_handler 7 (union error_event read_event)
          ∷ add_callback (run_read on_headers_callback odd_text)
          ∷ [])
    × (on_headers plain_strings odd_text h ≡ some c)
    × (c.stream.closed ≡ true)
    × (c.stream.sent ≡ [])
    × (c.accepted ≡ [])
handle_stream_refuses_example =
    handle_stream_refuses plain_strings odd_line next_head some_fields 7 5 odd_socket refl
      (λ e. absurd (ground (arith, e)))
      ((refl, refl, refl, refl, refl, refl), ((refl, refl, refl, refl, refl, refl), tt)) refl
      odd_text-Arrives (omega arith)
