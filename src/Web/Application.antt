-- ===== src/Web/Application.antt =====
-- `Application` and `ErrorHandler` of tornado/Web.h and tornado/Web.cpp. The registered handlers are
-- known by numbers; what their `get` and `post` do is a parameter.
use simplesvr.Prelude.{
  ℕ, ◌≡◌, refl, sym, Bool, true, List, [], ◌∷◌, Option, none, some, arith, Bytes, codes, bytes_eq,
  if◌then◌else◌, subst,
}
use simplesvr.Prelude.Int.{ℤ, pos}
use simplesvr.Prelude.Partial.{◌>>=◌, >>=-eq-some}
use simplesvr.TimeoutQueue.MultiIndex.{Container}
use simplesvr.Loop.{slot_at, free_slot, remove_handler}
use simplesvr.Loop.Signals.{IsSameTable}
use simplesvr.TcpServer
use simplesvr.TcpServer.{TcpServer, Opening}
use simplesvr.TcpServer.Listening.{stop-listen}
use simplesvr.Http.Connection.{Connection}
use simplesvr.Web.{Handler, new_handler, send_error, execute}

-- `HandlerMap`.
abbrev pub HandlerMap : Type 0
HandlerMap = List (Bytes × ℕ)

-- What `find_handler` makes: an `ErrorHandler`, or a clone of a registered one.
pub data Found : Type 0 where
  error_handler : Found
  registered : ℕ → Found

unfoldable pub find_handler : Bytes → HandlerMap → Found
find_handler path [] = error_handler
find_handler path ((p, n) ∷ handlers) =
    if bytes_eq p path then registered n else find_handler path handlers

-- `ErrorHandler::get` and `ErrorHandler::post`.
abbrev pub error_page : Bytes → ℕ → Handler → Option Handler
error_page date now h = send_error date now (pos 404) h

-- The `get` and `post` of `RequestHandler`, which a registered handler may override.
abbrev pub default_page : Bytes → ℕ → Handler → Option Handler
default_page date now h = send_error date now (pos 405) h

module _ (get post : ℕ → Handler → Option Handler) where
  -- `Application::handler`.
  unfoldable pub handle_request : HandlerMap → Bytes → ℕ → Connection → Option Handler
  handle_request handlers date now c = elim (find_handler c.request.path handlers) [
    | error_handler ↦ execute (error_page date now) (error_page date now) date now (new_handler c)
    | registered n ↦ execute (get n) (post n) date now (new_handler c)
  ]

-- What answers where no handler is registered for the path.
pub handle_request-unknown :
    (get post : ℕ → Handler → Option Handler) (handlers : HandlerMap) (date : Bytes) (now : ℕ)
    (c : Connection)
    → find_handler c.request.path handlers ≡ error_handler
    → handle_request get post handlers date now c ≡ (
        if bytes_eq c.request.method (codes "GET")
        then error_page date now (new_handler c)
        else if bytes_eq c.request.method (codes "POST")
        then error_page date now (new_handler c)
        else default_page date now (new_handler c))
unfolding handle_request execute new_handler
handle_request-unknown get post handlers date now c unknown = ground arith

module _ (c : Container) where
  -- `server_`: whether it has been made, and the server, whose loop is the one of the process.
  pub record Application : Type 0 where
    pub made : Bool
    pub server : TcpServer c

  -- `Application::listen`. `none` is a failed assertion.
  unfoldable pub listen : Opening → ℕ → Application → Option (ℤ × Application)
  listen o handler a = if a.made then none else (do
    r ← TcpServer.listen c o handler (record (a.server) { socket = none })
    some (r.0, record { made = true; server = r.1 }))

  unfoldable pub stop : ℤ → Application → Application
  stop result a = if a.made then record a { server = TcpServer.stop c result a.server } else a

  -- `signal_handler_stop`, by what `unregisterFD` returns for the signal and for the server.
  unfoldable pub signal_handler_stop : ℕ → ℤ → ℤ → Application → Application
  signal_handler_stop fd signal_result result a = stop result (record a {
    server = record (a.server) { loop = (remove_handler c fd signal_result a.server.loop).1 };
  })

  -- An application that listened, with whatever result, is put back by `stop` as far as the table goes,
  -- and never listens again: every later `listen` fails the assertion.
  pub listen_once :
      (o again : Opening) (handler fd : ℕ) (result : ℤ) (a : Application) {r : ℤ × Application}
      → o.opened ≡ some fd
      → slot_at a.server.loop.handlers fd ≡ free_slot
      → listen o handler a ≡ some r
      → let a' = stop result r.1 in
        IsSameTable c a.server.loop a'.server.loop × (listen again handler a' ≡ none)
  unfolding listen stop
  listen_once o again handler fd result a {r} e free h =
      let fresh : TcpServer c = record (a.server) { socket = none } in
      let fill : ℤ × TcpServer c → Option (ℤ × Application) =
        λ r. some (r.0, record { made = true; server = r.1 }) in
      let chain : (TcpServer.listen c o handler fresh >>= fill) ≡ some r = ground arith in
      let (t, listened, filled) = >>=-eq-some (TcpServer.listen c o handler fresh) fill chain in
      let (_, _, table) = stop-listen c o handler fd result fresh e free listened in
      let made : r.1 ≡ record { made = true; server = t.1 } = ground arith in
      subst
        (λ b.
          IsSameTable c a.server.loop (stop result b).server.loop
          × (listen again handler (stop result b) ≡ none))
        (sym made) (table, refl)
