-- ===== src/Web.antt =====
-- tornado/Web.h and tornado/Web.cpp: the handler of a request. What a handler's `get` and `post` do is
-- a parameter; the date is given with each call.
pub mod Flush
pub mod Sending
pub mod Answering
pub mod Application
pub mod Completing
pub mod Arguments
pub mod EndToEnd
pub mod Unknown
pub mod Forms
mod Tests
mod ExchangeTests
mod FormTests
use simplesvr.Prelude.{
  ℕ, zero, suc, ◌+◌, ◌/◌, ◌%◌, ◌*◌, Bool, true, false, List, [], ◌∷◌, ◌++◌, Option, none, some, ltb,
  leb, ◌==◌, if◌then◌else◌, length, Bytes, codes, bytes_eq,
}
use simplesvr.Prelude.Partial.{◌>>=◌}
use simplesvr.Prelude.Int.{ℤ, pos, negsuc}
use simplesvr.Http.{Map, lookup}
use simplesvr.Http.Connection
use simplesvr.Http.Connection.{Connection, write_to_buff}

-- The entries of `httpCodeMsg_` that are not null.
abbrev pub code_messages : List (ℕ × Bytes)
code_messages =
    (0, codes "Unknown")
    ∷ (100, codes "Continue")
    ∷ (101, codes "Switching Protocols")
    ∷ (200, codes "OK")
    ∷ (201, codes "Created")
    ∷ (202, codes "Accepted")
    ∷ (203, codes "Non-Authoritative Information")
    ∷ (204, codes "No Content")
    ∷ (205, codes "Reset Content")
    ∷ (206, codes "Partial Content")
    ∷ (300, codes "Multiple Choices")
    ∷ (301, codes "Moved Permanently")
    ∷ (302, codes "Found")
    ∷ (303, codes "See Other")
    ∷ (304, codes "Not Modified")
    ∷ (305, codes "Use Proxy")
    ∷ (306, codes "(Unused)")
    ∷ (307, codes "Temporary Redirect")
    ∷ (400, codes "Bad Request")
    ∷ (401, codes "Unauthorized")
    ∷ (402, codes "Payment Required")
    ∷ (403, codes "Forbidden")
    ∷ (404, codes "Not Found")
    ∷ (405, codes "Method Not Allowed")
    ∷ (406, codes "Not Acceptable")
    ∷ (407, codes "Proxy Authentication Required")
    ∷ (408, codes "Request Timeout")
    ∷ (409, codes "Conflict")
    ∷ (410, codes "Gone")
    ∷ (411, codes "Length Required")
    ∷ (412, codes "Precondition Failed")
    ∷ (413, codes "Request Entity Too Large")
    ∷ (414, codes "Request-URI Too Long")
    ∷ (415, codes "Unsupported Media Type")
    ∷ (416, codes "Requested Range Not Satisfiable")
    ∷ (417, codes "Expectation Failed")
    ∷ (500, codes "Internal Server Error")
    ∷ (501, codes "Not Implemented")
    ∷ (502, codes "Bad Gateway")
    ∷ (503, codes "Service Unavailable")
    ∷ (504, codes "Gateway Timeout")
    ∷ (505, codes "HTTP Version Not Supported")
    ∷ []

abbrev pub message_of : ℕ → List (ℕ × Bytes) → Option Bytes
message_of code [] = none
message_of code ((c, message) ∷ ms) = if c == code then some message else message_of code ms

abbrev pub max_code : ℕ
max_code = 506

-- `HTTPCode::toStr`. The array has `max_code` entries, and the test admits `max_code` as an index:
-- `none` is the read behind the array.
unfoldable pub to_str : ℤ → Option Bytes
to_str (negsuc n) = some (codes "Unknown")
to_str (pos code) =
    if ltb code max_code
    then elim (message_of code code_messages) [ none ↦ some (codes "Unknown") | some m ↦ some m ]
    else if code == max_code
    then none
    else some (codes "Unknown")

-- `%d` and `%zd`.
pub decimal_digits : ℕ → ℕ → Bytes
decimal_digits zero n = []
decimal_digits (suc fuel) n =
    let front = decimal_digits fuel (n / 10) in
    if ltb n 10 then (48 + n) ∷ [] else front ++ (48 + n % 10) ∷ []

abbrev pub decimal : ℤ → Bytes
decimal (pos n) = decimal_digits (suc n) n
decimal (negsuc n) = b'-' ∷ decimal_digits (suc (suc n)) (suc n)

-- `RequestHandler`.
pub record Handler : Type 0 where
  pub finished : Bool
  pub status_code : ℤ
  pub buff : Bytes
  pub conn : Option Connection

-- `RequestHandler::RequestHandler`, then `setHTTPConnection`. The close callback only logs.
pub new_handler : Connection → Handler
new_handler c = record {
  finished = false;
  status_code = pos 200;
  buff = [];
  conn = some (record c { close_callback = some 0 });
}

-- `RequestHandler::write`.
pub write_chunk : Bytes → Handler → Handler
write_chunk chunk h = if h.finished then h else record h { buff = h.buff ++ chunk }

-- The head of an answer. It is shorter than the 256 characters of its array.
pub answer_head : ℤ → Bytes → Bytes → ℕ → Bytes
answer_head status message date size =
    codes "HTTP/1.1 "
    ++ decimal status
    ++ codes " "
    ++ message
    ++ codes "\r\nServer: cppsvr\r\nDate: "
    ++ date
    ++ codes "\r\nContent-Type: text/html; charset=utf-8\r\nContent-Length: "
    ++ decimal (pos size)
    ++ codes "\r\n\r\n"

-- What `flush` sends on a connection. `none` is a failed assertion or a read out of bounds.
unfoldable pub send_answer : Bytes → ℤ → Bytes → Connection → Option Connection
send_answer date status body c = do
  message ← to_str status
  r ← Connection.write body (write_to_buff (answer_head status message date (length body)) c).1
  some r.1

unfoldable pub flush : Bytes → Handler → Option Handler
flush date h = elim h.conn [
  | none ↦ some h
  | some c ↦ (do
    c' ← send_answer date h.status_code h.buff c
    some (record h { buff = []; conn = some c' }))
]

-- `conn_->finish()`; `none` is a call on the null pointer.
abbrev pub finish_conn : ℕ → Handler → Option Handler
finish_conn now h = do c ← h.conn; some (record h { conn = some (Connection.finish now c) })

-- `RequestHandler::finish`, at the time `now`.
unfoldable pub finish_handler : Bytes → ℕ → Handler → Option Handler
finish_handler date now h =
    if h.finished
    then some h
    else (do h' ← flush date (record h { finished = true }); finish_conn now h')

-- `send_error`.
pub send_error : Bytes → ℕ → ℤ → Handler → Option Handler
send_error date now status h = do
  message ← to_str status
  finish_handler date now (
      write_chunk
        (codes "<html><title>" ++ decimal status ++ codes ": " ++ message ++ codes "</title>")
        (record h { status_code = status }))

-- `execute`, with the handler's `get` and `post`.
pub execute :
    (Handler → Option Handler) → (Handler → Option Handler) → Bytes → ℕ → Handler → Option Handler
execute get post date now h =
    let run : Connection → Option Handler = λ c.
      if bytes_eq c.request.method (codes "GET")
      then get h
      else if bytes_eq c.request.method (codes "POST")
      then post h
      else send_error date now (pos 405) h in
    if h.finished then some h else h.conn >>= run

-- `_get_argument`.
pub get_argument : Bytes → Map → Bytes
get_argument name args = elim (lookup name args) [ none ↦ [] | some v ↦ v ]
