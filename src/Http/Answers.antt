-- ===== src/Http/Answers.antt =====
-- `HTTPConnection` of tornado/HttpServer.cpp: its stream stays valid, and it is closed in the end.
use simplesvr.Prelude.{
  ℕ, ◌≡◌, ◌⊎◌, inl, inr, true, List, [], ◌∷◌, Option, none, some, arith, if_elim, Option-cases,
  Bytes, codes,
}
use simplesvr.Prelude.Int.{ℤ, pos, negsuc, is_nonzero}
use simplesvr.Stream.{Stream}
use simplesvr.Stream.Api.{set_close_callback, writing}
use simplesvr.Stream.Calls.{IsValid, close-IsValid, closed-close}
use simplesvr.Stream.Calls.Dispatch
use simplesvr.Stream.Calls.Dispatch.{step-IsValid, set_close_callback-IsValid}
use simplesvr.Stream.Calls.Operations.{
  just_write_bytes_to_buff-IsValid, write_bytes-IsValid, write_bytes_with-IsValid,
  read_bytes-IsValid, read_until-IsValid,
}
use simplesvr.Http.{Strings, get_value_int}
use simplesvr.Http.Requests.{Request, parse_http_request}
use simplesvr.Http.Connection.{
  Connection, start_run, confirm, expect_body, after_parse, on_headers, on_request_body, finish,
  on_headers_callback, on_stream_close_callback, on_request_body_callback,
  on_write_complete_callback, write, write_to_buff, on_write_complete, on_stream_close,
}

-- Closed, or with output that the socket has not taken.
abbrev pub IsServed : Connection → Type 0
IsServed c = (c.stream.closed ≡ true) ⊎ (writing c.stream ≡ true)

finish-IsServed : (now : ℕ) (c : Connection) → IsServed (finish now c)
unfolding finish
finish-IsServed now c =
    if_elim IsServed (writing c.stream) (λ e. inr e) (λ _. inl (closed-close c.stream))

finish-finished : (now : ℕ) (c : Connection) → (finish now c).request_finished ≡ true
unfolding finish
finish-finished now c = ground arith

on_write_complete-IsServed :
    (c : Connection) → c.request_finished ≡ true → IsServed (on_write_complete c)
unfolding on_write_complete
on_write_complete-IsServed c h = ground (arith, closed-close c.stream)

pub finish_serves :
    (now : ℕ) (c : Connection) (s : Stream)
    → IsServed (finish now c) × IsServed (on_write_complete (record (finish now c) { stream = s }))
finish_serves now c s = (
  finish-IsServed now c,
  on_write_complete-IsServed (record (finish now c) { stream = s }) (finish-finished now c),
)

-- A callback of the connection, a call of its client, or an operation or event of its stream.
pub data Op : Type 0 where
  runs stream_closes write_completes : Op
  headers_come body_comes : Bytes → Op
  finishes : ℕ → Op
  writes buffers : Bytes → Op
  streams : Dispatch.Op → Op

abbrev kept : Connection → Option Connection → Connection
kept c none = c
kept c (some c') = c'

abbrev kept_write : Connection → Option (ℤ × Connection) → Connection
kept_write c none = c
kept_write c (some (code, c')) = c'

-- A result leaves a valid stream.
abbrev Keeps : Option Connection → Type 0
Keeps none = Unit {0}
Keeps (some c) = IsValid c.stream

kept-IsValid :
    (c : Connection) (o : Option Connection)
    → IsValid c.stream
    → Keeps o
    → IsValid (kept c o).stream
kept-IsValid c none v k = v
kept-IsValid c (some c') v k = k

module _ (b : Strings) where
  -- A failed assertion ends the program, and the connection stays as it was.
  pub serve_step : Op → Connection → Connection
  serve_step runs c = kept c (start_run c)
  serve_step stream_closes c = on_stream_close c
  serve_step write_completes c = on_write_complete c
  serve_step (headers_come text) c = kept c (on_headers b text c)
  serve_step (body_comes text) c = on_request_body b text c
  serve_step (finishes now) c = finish now c
  serve_step (writes chunk) c = kept_write c (write chunk c)
  serve_step (buffers chunk) c = (write_to_buff chunk c).1
  serve_step (streams op) c = record c { stream = Dispatch.step op c.stream }

  pub serve : List Op → Connection → Connection
  serve [] c = c
  serve (op ∷ ops) c = serve ops (serve_step op c)

  start_run-IsValid : (c : Connection) → IsValid c.stream → IsValid (kept c (start_run c)).stream
  unfolding start_run
  start_run-IsValid c v = ground (
    arith,
    read_until-IsValid (codes "\r\n\r\n") (some on_headers_callback)
        (set_close_callback (some on_stream_close_callback) c.stream)
        (set_close_callback-IsValid (some on_stream_close_callback) c.stream v),
  )

  confirm-IsValid : (c : Connection) → IsValid c.stream → IsValid (confirm c)
  unfolding confirm
  confirm-IsValid c v =
      ground (arith, write_bytes-IsValid (codes "HTTP/1.1 100 (Continue)\r\n\r\n") c.stream v)

  expect_body-IsValid :
      (length : ℤ) (c : Connection) → IsValid c.stream → Keeps (expect_body length c)
  unfolding expect_body
  expect_body-IsValid (negsuc n) c v = v
  expect_body-IsValid (pos n) c v = ground (
    arith,
    close-IsValid c.stream v,
    confirm-IsValid c v,
    read_bytes-IsValid n (some on_request_body_callback) (confirm c) (confirm-IsValid c v),
  )

  after_parse-IsValid :
      (r : ℤ × Request) (c : Connection) → IsValid c.stream → Keeps (after_parse r c)
  unfolding after_parse
  after_parse-IsValid (code, request) c v =
      let c' = record c { request = request } in
      if_elim Keeps (is_nonzero code) (λ _. close-IsValid c.stream v)
        (λ _. expect_body-IsValid (get_value_int (codes "Content-Length") request.headers) c' v)

  on_headers-IsValid :
      (text : Bytes) (c : Connection)
      → IsValid c.stream
      → IsValid (kept c (on_headers b text c)).stream
  unfolding on_headers
  on_headers-IsValid text c v = elim (Option-cases (parse_http_request b text c.request)) [
    | inl e ↦ rw e v
    | inr (r, e) ↦ rw e (kept-IsValid c (after_parse r c) v (after_parse-IsValid r c v))
  ]

  on_request_body-IsValid :
      (text : Bytes) (c : Connection) → IsValid c.stream → IsValid (on_request_body b text c).stream
  unfolding on_request_body
  on_request_body-IsValid text c v = ground (arith, close-IsValid c.stream v)

  finish-IsValid : (now : ℕ) (c : Connection) → IsValid c.stream → IsValid (finish now c).stream
  unfolding finish
  finish-IsValid now c v = ground (arith, close-IsValid c.stream v)

  serve_step-IsValid :
      (op : Op) (c : Connection) → IsValid c.stream → IsValid (serve_step op c).stream
  unfolding serve_step on_stream_close on_write_complete write write_to_buff
  serve_step-IsValid runs c v = start_run-IsValid c v
  serve_step-IsValid stream_closes c v = ground arith
  serve_step-IsValid write_completes c v = ground (arith, close-IsValid c.stream v)
  serve_step-IsValid (headers_come text) c v = on_headers-IsValid text c v
  serve_step-IsValid (body_comes text) c v = on_request_body-IsValid text c v
  serve_step-IsValid (finishes now) c v = finish-IsValid now c v
  serve_step-IsValid (writes chunk) c v =
      ground (arith, write_bytes_with-IsValid chunk (some on_write_complete_callback) c.stream v)
  serve_step-IsValid (buffers chunk) c v = just_write_bytes_to_buff-IsValid chunk c.stream v
  serve_step-IsValid (streams op) c v = step-IsValid op c.stream v

  -- From a connection with a valid stream, whatever callbacks of the connection run, whatever its
  -- client calls and whatever the stream does, in any order, the stream stays valid.
  pub serve-IsValid :
      (ops : List Op) (c : Connection) → IsValid c.stream → IsValid (serve ops c).stream
  unfolding serve
  serve-IsValid [] c v = v
  serve-IsValid (op ∷ ops) c v = serve-IsValid ops (serve_step op c) (serve_step-IsValid op c v)
