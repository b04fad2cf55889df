-- ===== src/Web/Unknown.antt =====
-- `Application::handler` of tornado/Web.cpp for a path that no handler is registered for, down to the
-- bytes of the answer.
use simplesvr.Prelude.{
  ℕ, ◌≡◌, ◌∙◌, refl, ◌||◌, if◌then◌else◌, Option, some, arith, length, Bytes, codes, bytes_eq,
}
use simplesvr.Prelude.Int.{ℤ, pos}
use simplesvr.Http.Connection.{Connection}
use simplesvr.Web.{Handler, new_handler, send_error, to_str}
use simplesvr.Web.Application.{
  HandlerMap, handle_request, handle_request-unknown, find_handler, error_handler,
}
use simplesvr.Web.Answering.{CanWrite, HasAnswered, error_answer, send_error-output}

-- The status of the answer, with its phrase.
abbrev pub refusal : Bytes → ℤ × Bytes
refusal method =
    if bytes_eq method (codes "GET") || bytes_eq method (codes "POST")
    then (pos 404, codes "Not Found")
    else (pos 405, codes "Method Not Allowed")

to_str-refusal : (method : Bytes) → to_str (refusal method).0 ≡ some (refusal method).1
unfolding to_str
to_str-refusal method = ground arith

-- The handlers of an application, the code of their methods, and the date that it prints.
module _ (get post : ℕ → Handler → Option Handler) (handlers : HandlerMap) (date : Bytes) where
  handle_request-refusal :
      (now : ℕ) (c : Connection)
      → find_handler c.request.path handlers ≡ error_handler
      → handle_request get post handlers date now c
        ≡ send_error date now (refusal c.request.method).0 (new_handler c)
  handle_request-refusal now c unknown =
      handle_request-unknown get post handlers date now c unknown ∙ ground arith

  -- On an open connection that waits for no write and has room for the answer, where no handler is
  -- registered for the path, all that `Application::handler` writes is the answer, head and page, of
  -- status 404 to GET and POST, and of 405 to any other method. The handler is finished, and the
  -- connection is closed or waits for the socket to take the rest.
  pub handle_request_unknown :
      (now : ℕ) (c : Connection)
      → find_handler c.request.path handlers ≡ error_handler
      → let (status, message) = refusal c.request.method in
        CanWrite (length (error_answer status message date)) c.stream
        → (h : Handler) × (handle_request get post handlers date now c ≡ some h)
          × HasAnswered (error_answer status message date) c.stream h
  unfolding new_handler
  handle_request_unknown now c unknown can =
      let linked : Connection = record c { close_callback = some 0 } in
      let (status, message) = refusal c.request.method in
      let (h, sent, answered) =
        send_error-output date message now status (new_handler c) linked refl refl refl
          (to_str-refusal c.request.method) can in
      (h, handle_request-refusal now c unknown ∙ sent, answered)
