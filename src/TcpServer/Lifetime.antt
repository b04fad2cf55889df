-- ===== src/TcpServer/Lifetime.antt =====
-- The constructor and the destructor of tornado/TcpServer.cpp.
use simplesvr.Prelude.{ℕ, ◌≡◌, [], ◌∷◌, List, none, some, arith}
use simplesvr.Prelude.Int.{ℤ}
use simplesvr.TimeoutQueue.MultiIndex.{Container}
use simplesvr.Loop.{Loop, free_slot, slot_at}
use simplesvr.Loop.Signals.{IsSameTable}
use simplesvr.TcpServer.{Opening, Accept, TcpServer, stop, listen}
use simplesvr.TcpServer.Listening.{stop-listen}

module _ (c : Container) where
  -- `TcpServer::TcpServer`, on the loop of the process, with what `accept4` will give.
  abbrev pub new_server : Loop c → List Accept → TcpServer c
  new_server l accepts = record { socket = none; loop = l; closed = []; accepts = accepts }

  -- `TcpServer::~TcpServer`, by what `unregisterFD` returns.
  abbrev pub destroy_server : ℤ → TcpServer c → TcpServer c
  destroy_server result s = stop c result s

  -- Stopping a server that has been stopped does nothing.
  stop-stop :
      (result again : ℤ) (s : TcpServer c) → stop c again (stop c result s) ≡ stop c result s
  unfolding stop
  stop-stop result again s = ground arith

  -- From its construction on, a server whose `listen` opened a descriptor, for which the slot was
  -- free, and returned, with whatever result, gives back what it took when it is destroyed, stopped
  -- before or not: the table has the handlers that it had, and the descriptor is closed, once, and
  -- no other.
  pub destroy_server-new_server :
      (o : Opening) (handler fd : ℕ) (result again : ℤ) (l : Loop c) (accepts : List Accept)
      {r : ℤ × TcpServer c}
      → o.opened ≡ some fd
      → slot_at l.handlers fd ≡ free_slot
      → listen c o handler (new_server l accepts) ≡ some r
      → let s = destroy_server result r.1 in
        (destroy_server again (stop c result r.1) ≡ s)
        × (s.closed ≡ fd ∷ [])
        × IsSameTable c l s.loop
  destroy_server-new_server o handler fd result again l accepts {r} opened free listened =
      let (_, closed, table) =
        stop-listen c o handler fd result (new_server l accepts) opened free listened in
      (stop-stop result again r.1, closed, table)
