-- ===== src/TcpServer/Accepting.antt =====
-- `handleConnection` of tornado/TcpServer.cpp.
use simplesvr.Prelude.{
  ℕ, zero, suc, ◌≡◌, ◌≤◌, refl, ap, ◌∙◌, List, ◌∷◌, ◌++◌, some, arith, replicate,
}
use simplesvr.TimeoutQueue.MultiIndex.{Container}
use simplesvr.TcpServer.{
  Accept, accepted, aborted, connection, accept_one, TcpServer, handle_connection,
}

accept_one-aborted :
    (k : ℕ) (waiting : List Accept)
    → accept_one (replicate k aborted ++ waiting) ≡ accept_one waiting
unfolding accept_one
accept_one-aborted zero waiting = refl
accept_one-aborted (suc k) waiting = accept_one-aborted k waiting

accept_one-first :
    (fd : ℕ) (rest : List Accept) → 3 ≤ fd → accept_one (accepted fd ∷ rest) ≡ (connection fd, rest)
unfolding accept_one
accept_one-first fd rest h = ground arith

module _ (c : Container) where
  -- Connections that have gone away are skipped, and the first that is there, with a descriptor from
  -- 3 on, is handed on: one for each event, the later ones stay for the next.
  pub handle_connection-accepted :
      (handle_stream : ℕ → TcpServer c → TcpServer c) (socket k fd : ℕ) (rest : List Accept)
      (s : TcpServer c)
      → s.socket ≡ some socket
      → s.accepts ≡ replicate k aborted ++ accepted fd ∷ rest
      → 3 ≤ fd
      → handle_connection c handle_stream socket s
        ≡ some (handle_stream fd (record s { accepts = rest }))
  unfolding handle_connection
  handle_connection-accepted handle_stream socket k fd rest s e a h =
      let one : accept_one s.accepts ≡ (connection fd, rest) =
        ap accept_one a ∙ accept_one-aborted k (accepted fd ∷ rest) ∙ accept_one-first fd rest h in
      rw (e, handle_connection, one) (ground arith)
