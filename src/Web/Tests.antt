-- ===== src/Web/Tests.antt =====
-- Runs of tornado/Web.cpp on a small connection.
use simplesvr.Prelude.{
  ◌≡◌, ◌≤◌, Bytes, arith, length, ◌∷◌, refl, [], none, some, true, false, replicate, codes,
}
use simplesvr.Prelude.Int.{pos, negsuc}
use simplesvr.Buffer.{Buffer, append, ensure_writable_bytes}
use simplesvr.Http.Connection.{Connection, no_request}
use simplesvr.Web.{Handler, to_str, decimal_digits, answer_head, send_answer}
use simplesvr.Web.Flush.{send_answer_silent}
use simplesvr.Web.Answering.{CanWrite, HasAnswered, error_answer}
use simplesvr.Web.Unknown.{handle_request_unknown}
use simplesvr.Web.Application.{
  handle_request, find_handler, error_handler, Application, listen_once,
}
use simplesvr.Web.Application
use simplesvr.TcpServer.{Opening}
use simplesvr.Loop.{free_slot}
use simplesvr.TimeoutQueue.SortedList.{sorted_list}

abbrev fresh_buffer : Buffer
fresh_buffer = record { mem = replicate 500 0; buff_len = 500; read_index = 0; write_index = 0 }

abbrev answered : Connection
answered = record {
  request = no_request;
  stream = record {
    socket = 7;
    connecting = false;
    closed = false;
    state = record { readable = true; writable = false; failing = true };
    connect_callback = none;
    read_callback = none;
    write_callback = none;
    close_callback = none;
    read_buffer = fresh_buffer;
    write_buffer = fresh_buffer;
    read_bytes = 0;
    read_delimiter = [];
    read_until_close = false;
    receives = [];
    sends = [];
    sent = [];
    calls = [];
  };
  close_callback = some 0;
  request_finished = false;
  start_time = 5;
  finish_time = 0;
  accepted = [];
  closings = [];
}

ok_message : to_str (pos 200) ≡ some (codes "OK")
unfolding to_str
ok_message = refl

head_fits : (append fresh_buffer (answer_head (pos 200) (codes "OK") (codes "today") 0)).0 ≡ true
unfolding append ensure_writable_bytes answer_head decimal_digits
head_fits = refl

send_answer_silent_example :
    (c' : Connection) × (send_answer (codes "today") (pos 200) [] answered ≡ some c')
    × (c'.stream.calls ≡ [])
    × (c'.stream.sent ≡ [])
    × (c'.stream.write_callback ≡ none)
send_answer_silent_example =
    send_answer_silent (codes "today") (codes "OK") (pos 200) answered ok_message refl refl
      head_fits

abbrev lost : Connection
lost = record answered { request = record no_request { method = codes "GET"; path = codes "/x" } }

is_lost : find_handler (codes "/x") ((codes "/", 1) ∷ []) ≡ error_handler
unfolding find_handler
is_lost = refl

abbrev refusal_answer : Bytes
refusal_answer = error_answer (pos 404) (codes "Not Found") []

refusal_size : length refusal_answer ≤ 500
unfolding answer_head decimal_digits
refusal_size = omega arith

answered-CanWrite : CanWrite (length refusal_answer) answered.stream
answered-CanWrite = record {
  is_open = refl;
  free = refl;
  writes = record {
    storage = refl;
    ordered = omega arith;
    in_range = omega arith;
    small = omega arith;
  };
  room = omega (arith, refusal_size);
}

handle_request_unknown_example :
    (h : Handler) × (handle_request (λ n h. none) (λ n h. none) ((codes "/", 1) ∷ []) [] 0 lost
      ≡ some h)
    × HasAnswered refusal_answer lost.stream h
handle_request_unknown_example =
    handle_request_unknown (λ n h. none) (λ n h. none) ((codes "/", 1) ∷ []) [] 0 lost is_lost
      answered-CanWrite

abbrev small_app : Application sorted_list
small_app = record {
  made = false;
  server = record {
    socket = none;
    loop = record {
      handle_num = 0;
      handlers = replicate 8 free_slot;
      callbacks = [];
      timeouts = record { timeouts = []; next_id = 1 };
      running = false;
      controls = [];
    };
    closed = [];
    accepts = [];
  };
}

-- `bind` fails.
abbrev taken_port : Opening
taken_port = record {
  opened = some 5;
  options_set = true;
  bound = false;
  listening = true;
  registered = pos 0;
}

abbrev failed_app : Application sorted_list
failed_app = record { made = true; server = record (small_app.server) { socket = some 5 } }

fails_to_listen :
    Application.listen sorted_list taken_port 9 small_app ≡ some (negsuc 0, failed_app)
unfolding Application.listen simplesvr.TcpServer.listen
fails_to_listen = refl
