-- ===== src/Web/EndToEnd.antt =====
-- tornado/Web.cpp on tornado/HttpServer.cpp on tornado/IOStream.cpp: from the bytes that come on a socket
-- to those that go out on it.
use simplesvr.Prelude.{
  ℕ, ◌≤◌, ◌≡◌, refl, sym, ap, true, ◌∙◌, List, [], ◌∷◌, ◌++◌, some, arith, length, Bytes, codes,
  bytes_eq_iff, Option, subst,
}
use simplesvr.Prelude.Int.{pos}
use simplesvr.Prelude.Partial.{All}
use simplesvr.Buffer.{contents}
use simplesvr.Buffer.Bounds
use simplesvr.Stream.{
  Stream, received, accepts, write_chunk_size, add_handler, add_callback, run_read, union,
  error_event, read_event,
}
use simplesvr.Stream.Transfer.Delivery.{Arrives}
use simplesvr.Stream.Transfer.Output.{output}
use simplesvr.Http.{Strings, Headers, no_headers, get_value_int, with_cookies}
use simplesvr.Http.Lines.{IsField, note_fields}
use simplesvr.Http.StartLine.{print_request, IsPlain}
use simplesvr.Http.Connection.{Connection, on_headers, on_headers_callback}
use simplesvr.Http.Server.{Incoming, make_stream, handle_stream}
use simplesvr.Http.Arriving.{IsFresh}
use simplesvr.Http.Serving.{request_of, handle_stream_serves}
use simplesvr.Http.Answers.{IsServed}
use simplesvr.Web.{Handler, new_handler, to_str}
use simplesvr.Web.Application.{
  HandlerMap, error_page, handle_request, handle_request-unknown, find_handler, error_handler,
}
use simplesvr.Web.Completing.{Drains, send_error-closed}
use simplesvr.Web.Answering.{CanWrite, HasAnswered, error_answer, send_error-output}

pub fresh-CanWrite :
    (n : ℕ) (i : Incoming) (s : Stream)
    → IsFresh i s
    → Bounds.IsValid i.write_buffer
    → contents i.write_buffer ≡ []
    → n ≤ i.write_buffer.buff_len
    → CanWrite n s
fresh-CanWrite n i s f v e h = record {
  is_open = f.is_open;
  free = f.free;
  writes = subst Bounds.IsValid (sym f.writes) v;
  room = rw f.writes (rw e (omega arith));
}

-- The handlers of an application, the code of their methods, and the date that it prints.
module _ (b : Strings) (get post : ℕ → Handler → Option Handler) (handlers : HandlerMap)
    (date : Bytes) where
  abbrev pub not_found : Bytes
  not_found = error_answer (pos 404) (codes "Not Found") date

  handle_request-not_found :
      (now : ℕ) (c : Connection)
      → find_handler c.request.path handlers ≡ error_handler
      → c.request.method ≡ codes "GET"
      → CanWrite (length not_found) c.stream
      → (h : Handler) × (handle_request get post handlers date now c ≡ some h)
        × HasAnswered not_found c.stream h
  unfolding new_handler to_str
  handle_request-not_found now c unknown is_get can =
      let linked : Connection = record c { close_callback = some 0 } in
      let (h, sent, answered) =
        send_error-output date (codes "Not Found") now (pos 404) (new_handler c) linked refl refl
          refl refl can in
      let e = handle_request-unknown get post handlers date now c unknown in
      let g = (bytes_eq_iff c.request.method (codes "GET")).1 is_get in (h, e ∙ rw g sent, answered)

  handle_request-closed :
      (now : ℕ) (c : Connection) {h : Handler} {last : Connection}
      → find_handler c.request.path handlers ≡ error_handler
      → c.request.method ≡ codes "GET"
      → CanWrite (length not_found) c.stream
      → Drains (length not_found) c.stream
      → handle_request get post handlers date now c ≡ some h
      → h.conn ≡ some last
      → (last.stream.closed ≡ true) × (last.stream.sent ≡ output last.stream)
  unfolding new_handler to_str
  handle_request-closed now c {h} {last} unknown is_get can d answers held =
      let linked : Connection = record c { close_callback = some 0 } in
      let e = handle_request-unknown get post handlers date now c unknown in
      let g = (bytes_eq_iff c.request.method (codes "GET")).1 is_get in
      let page : error_page date now (new_handler c) ≡ some h = sym (e ∙ rw g refl) ∙ answers in
      send_error-closed date (codes "Not Found") now (pos 404) (new_handler c) linked {h' = h}
        {last = last} refl refl refl refl can d page held

  -- A GET without query and body for a path that has no handler comes at once on a connection that
  -- has been accepted, whose write buffer is empty and has room for the answer. The loop is asked to
  -- watch the socket and to call `onHeaders` with the request, which hands it on as it was sent, and
  -- all that the connection then writes is the answer of status 404, head and page. It is closed
  -- then, or waits for the socket to take the rest.
  pub answers_not_found :
      (path version more : Bytes) (fs : List (Bytes × Bytes)) (hd : Headers) (fd start now : ℕ)
      (i : Incoming)
      → IsPlain (codes "GET") path version
      → All IsField fs
      → with_cookies b (pos 0, note_fields fs no_headers) ≡ (pos 0, hd)
      → get_value_int (codes "Content-Length") hd ≡ pos 0
      → i.receives ≡ received (print_request (codes "GET") path version fs ++ more) ∷ []
      → Arrives (print_request (codes "GET") path version fs ++ more) i.read_buffer
      → 3 ≤ fd
      → find_handler path handlers ≡ error_handler
      → Bounds.IsValid i.write_buffer
      → contents i.write_buffer ≡ []
      → length not_found ≤ i.write_buffer.buff_len
      → let text = print_request (codes "GET") path version fs in
        (s : Stream) × (h : Connection) × (c : Connection) × (d : Handler) × (last : Connection)
        × (make_stream i fd ≡ some s)
        × (handle_stream start s ≡ some h)
        × (h.stream.calls
            ≡ add_handler fd (union error_event read_event)
              ∷ add_callback (run_read on_headers_callback text)
              ∷ [])
        × (on_headers b text h ≡ some c)
        × (c.accepted ≡ request_of b (codes "GET") path version hd ∷ [])
        × (handle_request get post handlers date now c ≡ some d)
        × (d.conn ≡ some last)
        × (output last.stream ≡ not_found)
        × IsServed last
  answers_not_found path version more fs hd fd start now i v w cookies no_body script a low unknown
        writes empty room =
      let text = print_request (codes "GET") path version fs in
      let (s, h, made, starts, calls, _, parsed, fresh) =
        handle_stream_serves b (codes "GET") path version more fs hd fd start i v w cookies no_body
          script a low in
      let request = request_of b (codes "GET") path version hd in
      let c : Connection = record h { request = request; accepted = request ∷ [] } in
      let can = fresh-CanWrite (length not_found) i h.stream fresh writes empty room in
      let (d, answers, done) = handle_request-not_found now c unknown refl can in
      let before : output h.stream ≡ [] = rw (fresh.unsent, fresh.writes) empty in
      (
        s,
        h,
        c,
        d,
        done.conn,
        made,
        starts,
        calls,
        parsed,
        refl,
        answers,
        done.holds,
        done.answer ∙ ap (λ l. l ++ not_found) before,
        done.served,
      )

  -- A GET without query and body for a path that has no handler comes at once on a connection that
  -- has been accepted, whose write buffer is empty and has room for the answer, where the socket
  -- takes the whole answer, one chunk at most, in one call. The loop is asked to watch the socket
  -- and to call `onHeaders` with the request, which hands it on as it was sent; then the answer of
  -- status 404 is sent, exactly, and the connection is closed.
  pub answers_and_closes :
      (path version more : Bytes) (fs : List (Bytes × Bytes)) (hd : Headers) (fd start now room : ℕ)
      (i : Incoming)
      → IsPlain (codes "GET") path version
      → All IsField fs
      → with_cookies b (pos 0, note_fields fs no_headers) ≡ (pos 0, hd)
      → get_value_int (codes "Content-Length") hd ≡ pos 0
      → i.receives ≡ received (print_request (codes "GET") path version fs ++ more) ∷ []
      → Arrives (print_request (codes "GET") path version fs ++ more) i.read_buffer
      → 3 ≤ fd
      → find_handler path handlers ≡ error_handler
      → Bounds.IsValid i.write_buffer
      → contents i.write_buffer ≡ []
      → length not_found ≤ i.write_buffer.buff_len
      → i.sends ≡ accepts room ∷ []
      → length not_found ≤ room
      → length not_found ≤ write_chunk_size
      → let text = print_request (codes "GET") path version fs in
        (s : Stream) × (h : Connection) × (c : Connection) × (d : Handler) × (last : Connection)
        × (make_stream i fd ≡ some s)
        × (handle_stream start s ≡ some h)
        × (h.stream.calls
            ≡ add_handler fd (union error_event read_event)
              ∷ add_callback (run_read on_headers_callback text)
              ∷ [])
        × (on_headers b text h ≡ some c)
        × (c.accepted ≡ request_of b (codes "GET") path version hd ∷ [])
        × (handle_request get post handlers date now c ≡ some d)
        × (d.conn ≡ some last)
        × (last.stream.sent ≡ not_found)
        × (last.stream.closed ≡ true)
  answers_and_closes path version more fs hd fd start now room i v w cookies no_body script a low
        unknown writes empty fits takes whole chunk =
      let text = print_request (codes "GET") path version fs in
      let (s, h, made, starts, calls, _, parsed, fresh) =
        handle_stream_serves b (codes "GET") path version more fs hd fd start i v w cookies no_body
          script a low in
      let request = request_of b (codes "GET") path version hd in
      let c : Connection = record h { request = request; accepted = request ∷ [] } in
      let can = fresh-CanWrite (length not_found) i h.stream fresh writes empty fits in
      let (d, answers, done) = handle_request-not_found now c unknown refl can in
      let waiting : length (contents h.stream.write_buffer) ≡ 0 =
        rw fresh.writes (ap length empty) in
      let (closes, sent) =
        handle_request-closed now c {h = d} {last = done.conn} unknown refl can
          (record {
            room = room;
            script = fresh.sends ∙ takes;
            fits = omega (arith, waiting);
            one_chunk = omega (arith, waiting);
            connected = fresh.connecting;
          })
          answers done.holds in
      let before : output h.stream ≡ [] = rw (fresh.unsent, fresh.writes) empty in
      (
        s,
        h,
        c,
        d,
        done.conn,
        made,
        starts,
        calls,
        parsed,
        refl,
        answers,
        done.holds,
        sent ∙ done.answer ∙ ap (λ l. l ++ not_found) before,
        closes,
      )
