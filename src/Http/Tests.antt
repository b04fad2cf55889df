-- ===== src/Http/Tests.antt =====
-- Runs of tornado/HttpServer.cpp on plain strings and a small stream.
use simplesvr.Prelude.{
  ℕ, ◌≡◌, ◌++◌, refl, List, [], ◌∷◌, none, some, arith, true, false, Bytes, codes, replicate,
  length-replicate,
}
use simplesvr.Prelude.Int.{ℤ, pos}
use simplesvr.Buffer.{Buffer}
use simplesvr.Buffer.Bounds
use simplesvr.Stream.{Stream, received, accepts, read_event}
use simplesvr.Stream.Calls.{IsValid}
use simplesvr.Stream.Calls.Dispatch.{events_come}
use simplesvr.Http.{Headers, no_headers, with_cookies, parse}
use simplesvr.Http.PlainStrings.{plain_strings}
use simplesvr.Stream.{add_handler, add_callback, run_read, union, error_event}
use simplesvr.Stream.Transfer.Delivery.{Arrives}
use simplesvr.Http.Connection.{on_headers, on_headers_callback}
use simplesvr.Http.Arriving.{IsFresh}
use simplesvr.Http.Serving.{request_of, handle_stream_serves}
use simplesvr.Http.{parse_cookies, put_items, get_value_int, atoi}
use simplesvr.Buffer.{contents}
use simplesvr.Http.Connection.{Connection, no_request}
use simplesvr.Http.Server.{
  Incoming, make_stream, handle_stream, IsConnected, handle_stream-IsConnected,
}
use simplesvr.TimeoutQueue.SortedList.{sorted_list}
use simplesvr.Loop.{Loop, free_slot}
use simplesvr.Loop.Streams.{make_calls}
use simplesvr.Stream.{Job}
use simplesvr.Http.StartLine.{print_request}
use simplesvr.Http.Lines.{note_fields, parse_ends}
use simplesvr.Http.Answers.{Op, runs, headers_come, writes, finishes, write_completes, streams}

abbrev fields : List (Bytes × Bytes)
fields =
    (codes "Host", codes "localhost")
    ∷ (codes "Cookie", codes "a=1; b=2")
    ∷ (codes "Content-Length", codes "0")
    ∷ []

parse_ends_example :
    (r : ℤ × Headers) × (parse plain_strings (codes "Host: a\r\nno colon\r\n") 0 no_headers
      ≡ some r)
parse_ends_example = parse_ends plain_strings (codes "Host: a\r\nno colon\r\n") 0 no_headers

abbrev pub no_bytes : Buffer
no_bytes = record { mem = replicate 2000 0; buff_len = 2000; read_index = 0; write_index = 0 }

pub no_bytes-IsValid : Bounds.IsValid no_bytes
no_bytes-IsValid = record {
  storage = length-replicate {A = ℕ} 2000 0;
  ordered = omega arith;
  in_range = omega arith;
  small = omega arith;
}

abbrev socket_stream : Stream
socket_stream = record {
  socket = 7;
  connecting = false;
  closed = false;
  state = record { readable = false; writable = false; failing = false };
  connect_callback = none;
  read_callback = none;
  write_callback = none;
  close_callback = none;
  read_buffer = no_bytes;
  write_buffer = no_bytes;
  read_bytes = 0;
  read_delimiter = [];
  read_until_close = false;
  receives = received (codes "GET / HTTP/1.1\r\n\r\n") ∷ [];
  sends = accepts 1000 ∷ [];
  sent = [];
  calls = [];
}

socket_stream-IsValid : IsValid socket_stream
socket_stream-IsValid = record {
  reads = no_bytes-IsValid;
  writes = no_bytes-IsValid;
  orderly = tt;
  in_loop = refl;
  closed_once = refl;
  scripted = (omega arith, tt);
  released = refl;
}

abbrev connection : Connection
connection = record {
  request = no_request;
  stream = socket_stream;
  close_callback = none;
  request_finished = false;
  start_time = 5;
  finish_time = 0;
  accepted = [];
  closings = [];
}

abbrev exchange : List Op
exchange =
    runs
    ∷ streams (events_come read_event false 0)
    ∷ headers_come (codes "GET / HTTP/1.1\r\n\r\n")
    ∷ writes (codes "HTTP/1.1 200 OK\r\n\r\n")
    ∷ finishes 9
    ∷ write_completes
    ∷ []

abbrev pub quiet_socket : Incoming
quiet_socket = record { read_buffer = no_bytes; write_buffer = no_bytes; receives = []; sends = [] }

abbrev quiet_loop : Loop sorted_list
quiet_loop = record {
  handle_num = 0;
  handlers = replicate 8 free_slot;
  callbacks = [];
  timeouts = record { timeouts = []; next_id = 1 };
  running = true;
  controls = [];
}

abbrev numbered : Job → ℕ
numbered job = 1

handle_stream-IsConnected_example :
    (s : Stream) × (h : Connection) × (l' : Loop sorted_list) × (make_stream quiet_socket 7
      ≡ some s)
    × (handle_stream 5 s ≡ some h)
    × (make_calls sorted_list 9 numbered h.stream.calls quiet_loop ≡ some l')
    × IsConnected sorted_list 9 numbered 7 h l'
handle_stream-IsConnected_example =
    handle_stream-IsConnected sorted_list 9 numbered quiet_socket 7 5 quiet_loop no_bytes-IsValid
      no_bytes-IsValid refl tt (omega arith) refl refl

abbrev whole_request : Bytes
whole_request = print_request (codes "GET") (codes "/x") (codes "1.1") fields

-- A request with another one behind it.
abbrev two_requests : Bytes
two_requests =
    print_request (codes "GET") (codes "/x") (codes "1.1") fields
    ++ print_request (codes "GET") (codes "/y") (codes "1.1") []

abbrev second_request : Bytes
second_request = print_request (codes "GET") (codes "/y") (codes "1.1") []

abbrev busy_socket : Incoming
busy_socket = record quiet_socket { receives = received two_requests ∷ [] }

two_requests-Arrives : Arrives two_requests no_bytes
two_requests-Arrives = record {
  reads = no_bytes-IsValid;
  nothing = refl;
  some_bytes = omega arith;
  one_chunk = omega arith;
  room = omega arith;
}

abbrev read_fields : Headers
read_fields = record (note_fields fields no_headers) {
  cookies = (codes "a", codes "1") ∷ (codes "b", codes "2") ∷ [];
}

cookies_read :
    with_cookies plain_strings (pos 0, note_fields fields no_headers) ≡ (pos 0, read_fields)
unfolding parse_cookies put_items
cookies_read = refl

no_body : get_value_int (codes "Content-Length") read_fields ≡ pos 0
unfolding get_value_int atoi
no_body = refl

handle_stream_serves_example :
    let text = print_request (codes "GET") (codes "/x") (codes "1.1") fields in
    let request = request_of plain_strings (codes "GET") (codes "/x") (codes "1.1") read_fields in
    (s : Stream) × (h : Connection) × (make_stream busy_socket 7 ≡ some s)
    × (handle_stream 5 s ≡ some h)
    × (h.stream.calls
        ≡ add_handler 7 (union error_event read_event)
          ∷ add_callback (run_read on_headers_callback text)
          ∷ [])
    × (contents h.stream.read_buffer ≡ second_request)
    × (on_headers plain_strings text h
        ≡ some (record h { request = request; accepted = request ∷ [] }))
    × IsFresh busy_socket h.stream
handle_stream_serves_example =
    handle_stream_serves plain_strings (codes "GET") (codes "/x") (codes "1.1") second_request
      fields read_fields 7 5 busy_socket (refl, refl, refl, refl, refl, refl, refl)
      (
        (refl, refl, refl, refl, refl, refl),
        ((refl, refl, refl, refl, refl, refl), ((refl, refl, refl, refl, refl, refl), tt)),
      )
      cookies_read no_body refl two_requests-Arrives (omega arith)
