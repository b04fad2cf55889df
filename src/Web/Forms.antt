-- ===== src/Web/Forms.antt =====
-- tornado/Web.cpp on tornado/HttpServer.cpp on tornado/IOStream.cpp: from a posted form to the answer of
-- a registered handler.
use simplesvr.Prelude.{
  ℕ, ◌+◌, ◌<◌, ◌≤◌, ◌≡◌, refl, ap, true, false, ◌∙◌, List, [], ◌∷◌, ◌++◌, Option, some, arith,
  length, length-append, Bytes, codes, bytes_eq,
}
use simplesvr.Prelude.Int.{pos}
use simplesvr.Prelude.Partial.{All, ◌>>=◌}
use simplesvr.Buffer.{contents}
use simplesvr.Buffer.Bounds
use simplesvr.Stream.{
  Stream, received, add_handler, add_callback, run_read, union, error_event, read_event,
}
use simplesvr.Stream.Transfer.Delivery.{Arrives}
use simplesvr.Stream.Transfer.Output.{output}
use simplesvr.Http.{Strings, Headers, no_headers, get_value, get_value_int, with_cookies}
use simplesvr.Http.Lines.{IsField, note_fields}
use simplesvr.Http.StartLine.{print_request, IsPlain}
use simplesvr.Http.Queries.{print_query, IsItem}
use simplesvr.Http.Connection.{
  Connection, on_headers, on_request_body, max_body, on_headers_callback, on_request_body_callback,
}
use simplesvr.Http.Server.{Incoming, make_stream, handle_stream}
use simplesvr.Http.Serving.{request_of}
use simplesvr.Http.Posting.{form_type, with_form, handle_stream_posts}
use simplesvr.Http.Answers.{IsServed}
use simplesvr.Web.{Handler, new_handler, to_str, answer_head, write_chunk, finish_handler, execute}
use simplesvr.Web.Application.{HandlerMap, handle_request, find_handler, registered}
use simplesvr.Web.Arguments.{body_argument, body_argument-with_form, last_value, or_empty}
use simplesvr.Web.Answering.{CanWrite, HasAnswered, finish_handler-output}
use simplesvr.Web.EndToEnd.{fresh-CanWrite}

-- The answer with a page.
abbrev pub page_answer : Bytes → Bytes → Bytes
page_answer date page = answer_head (pos 200) (codes "OK") date (length page) ++ page

module _ (b : Strings) (get post : ℕ → Handler → Option Handler) (handlers : HandlerMap)
    (date : Bytes) where
  -- A method that writes what was posted under a name, and finishes.
  abbrev pub Echoes : Bytes → ℕ → (Handler → Option Handler) → Type 0
  Echoes name now method =
      (h : Handler)
      → method h ≡ (body_argument name h >>= λ text. finish_handler date now (write_chunk text h))

  handle_request-form :
      (name : Bytes) (p : Bytes × Bytes) (ps : List (Bytes × Bytes)) (path version : Bytes)
      (hd : Headers) (n now : ℕ) (c : Connection)
      → c.request ≡ with_form b p ps (request_of b (codes "POST") path version hd)
      → find_handler path handlers ≡ registered n
      → Echoes name now (post n)
      → let page = or_empty (last_value name (p ∷ ps)) in
        0 < length page
        → CanWrite (length (page_answer date page)) c.stream
        → (d : Handler) × (handle_request get post handlers date now c ≡ some d)
          × HasAnswered (page_answer date page) c.stream d
  unfolding handle_request execute new_handler to_str write_chunk
  handle_request-form name p ps path version hd n now c same known echoes some_ can =
      let page = or_empty (last_value name (p ∷ ps)) in
      let linked : Connection = record c { close_callback = some 0 } in
      let fresh = new_handler c in
      let head = answer_head (pos 200) (codes "OK") date (length page) in
      let read : body_argument name fresh ≡ some page =
        body_argument-with_form b name p ps (request_of b (codes "POST") path version hd) fresh
          linked refl refl same in
      let sized : CanWrite (length head + length page) c.stream = record {
        is_open = can.is_open;
        free = can.free;
        writes = can.writes;
        room = omega (arith, can.room, length-append head page);
      } in
      let (d, done, answered) =
        finish_handler-output date (codes "OK") now (record fresh { buff = page }) linked refl refl
          refl some_ sized in
      let runs : post n fresh ≡ some d = echoes fresh ∙ rw read done in
      let found : find_handler c.request.path handlers ≡ registered n =
        ap (λ r. find_handler r.path handlers) same ∙ known in
      let no_get : bytes_eq c.request.method (codes "GET") ≡ false =
        ap (λ r. bytes_eq r.method (codes "GET")) same in
      let is_post : bytes_eq c.request.method (codes "POST") ≡ true =
        ap (λ r. bytes_eq r.method (codes "POST")) same in
      (d, rw (found, handle_request) (rw (no_get, is_post) runs), answered)

  -- A form, posted without query, with its type under `Content-Encoding`, where `parseBodyArguments`
  -- looks for it, to a path whose handler writes the value that was posted under a name and
  -- finishes, comes at once with the head, on a connection that has been accepted, whose write
  -- buffer is empty and has room for the answer. The loop is asked to watch the socket and to call
  -- `onHeaders` with the head, and by that to call `onRequestBody` with the form; these hand the
  -- request on, and all that the connection then writes is the answer of status 200 with the last
  -- value of that name in the form, which is not empty. The connection is closed then, or waits for
  -- the socket to take the rest.
  pub answers_form :
      (name path version rest more : Bytes) (p : Bytes × Bytes) (ps fs : List (Bytes × Bytes))
      (hd : Headers) (n fd start now : ℕ) (i : Incoming)
      → IsPlain (codes "POST") path version
      → All IsField fs
      → with_cookies b (pos 0, note_fields fs no_headers) ≡ (pos 0, hd)
      → get_value_int (codes "Content-Length") hd ≡ pos (length (print_query p ps))
      → length (print_query p ps) ≤ max_body
      → bytes_eq (get_value (codes "Expect") hd) (codes "100-continue") ≡ false
      → get_value (codes "Content-Encoding") hd ≡ form_type ++ rest
      → IsItem p
      → All IsItem ps
      → i.receives
        ≡ received (print_request (codes "POST") path version fs ++ (print_query p ps ++ more)) ∷ []
      → Arrives
          (print_request (codes "POST") path version fs ++ (print_query p ps ++ more))
          i.read_buffer
      → 3 ≤ fd
      → find_handler path handlers ≡ registered n
      → Echoes name now (post n)
      → let page = or_empty (last_value name (p ∷ ps)) in
        0 < length page
        → Bounds.IsValid i.write_buffer
        → contents i.write_buffer ≡ []
        → length (page_answer date page) ≤ i.write_buffer.buff_len
        → (s : Stream) × (h : Connection) × (c : Connection) × (d : Handler) × (last : Connection)
          × (make_stream i fd ≡ some s)
          × (handle_stream start s ≡ some h)
          × (h.stream.calls
              ≡ add_handler fd (union error_event read_event)
                ∷ add_callback
                    (run_read on_headers_callback (print_request (codes "POST") path version fs))
                ∷ [])
          × (on_headers b (print_request (codes "POST") path version fs) h ≡ some c)
          × (c.stream.calls
              ≡ add_callback (run_read on_request_body_callback (print_query p ps))
                ∷ add_handler fd (union error_event read_event)
                ∷ add_callback
                    (run_read on_headers_callback (print_request (codes "POST") path version fs))
                ∷ [])
          × (contents c.stream.read_buffer ≡ more)
          × ((on_request_body b (print_query p ps) c).accepted
              ≡ with_form b p ps (request_of b (codes "POST") path version hd) ∷ [])
          × (handle_request get post handlers date now (on_request_body b (print_query p ps) c)
              ≡ some d)
          × (d.conn ≡ some last)
          × (output last.stream ≡ page_answer date page)
          × IsServed last
  answers_form name path version rest more p ps fs hd n fd start now i v w cookies sized small quiet
        typed item items script a low known echoes some_ writes empty room =
      let page = or_empty (last_value name (p ∷ ps)) in
      let (s, h, c, made, starts, first, parsed, second, kept, _, handed, fresh) =
        handle_stream_posts b path version rest more p ps fs hd fd start i v w cookies sized small
          quiet typed item items script a low in
      let posted = with_form b p ps (request_of b (codes "POST") path version hd) in
      let ready : Connection = record c { request = posted; accepted = posted ∷ [] } in
      let can =
        fresh-CanWrite (length (page_answer date page)) i c.stream fresh writes empty room in
      let (d, answers, done) =
        handle_request-form name p ps path version hd n now ready refl known echoes some_ can in
      let before : output c.stream ≡ [] = rw (fresh.unsent, fresh.writes) empty in
      (
        s,
        h,
        c,
        d,
        done.conn,
        made,
        starts,
        first,
        parsed,
        second,
        kept,
        ap (λ (k : Connection). k.accepted) handed,
        ap (handle_request get post handlers date now) handed ∙ answers,
        done.holds,
        done.answer ∙ ap (λ l. l ++ page_answer date page) before,
        done.served,
      )
