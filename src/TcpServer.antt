-- ===== src/TcpServer.antt =====
-- tornado/TcpServer.h and tornado/TcpServer.cpp: a listening socket on the event loop. The model is
-- that of a build with assertions. `handleStream`, which is virtual, is a parameter; the address that
-- `bind` gets and the options of the socket have no effect on the state.
pub mod Listening
pub mod Accepting
pub mod Lifetime
mod Tests
use simplesvr.Prelude.{ℕ, Bool, not, List, [], ◌∷◌, Option, none, some, ltb, ◌==◌, if◌then◌else◌}
use simplesvr.Prelude.Int.{ℤ, pos, negsuc}
use simplesvr.Stream.{read_event}
use simplesvr.TimeoutQueue.MultiIndex.{Container}
use simplesvr.Loop.{min_fd, Loop, add_handler, remove_handler}

-- What the system gives one call of `listen`: the descriptor of `socket`, whether the three options
-- are set, whether `bind` and `listen` succeed, and the result of `registerFD`.
pub record Opening : Type 0 where
  pub opened : Option ℕ
  pub options_set : Bool
  pub bound : Bool
  pub listening : Bool
  pub registered : ℤ

-- One call of `accept4`: a connection, or the error of an empty queue, of a connection that has gone
-- away, or another one.
pub data Accept : Type 0 where
  accepted : ℕ → Accept
  would_block aborted fails : Accept

-- What the loop of `handleConnection` hands on: a connection, nothing, or a failed assertion on the
-- descriptor.
pub data Outcome : Type 0 where
  connection : ℕ → Outcome
  nothing bad_fd : Outcome

-- The loop of `handleConnection` over the results to come of `accept4`, with those that are left.
-- Where they are used up no connection waits.
unfoldable pub accept_one : List Accept → Outcome × List Accept
accept_one [] = (nothing, [])
accept_one (accepted fd ∷ rest) = (if ltb fd min_fd then bad_fd else connection fd, rest)
accept_one (would_block ∷ rest) = (nothing, rest)
accept_one (aborted ∷ rest) = accept_one rest
accept_one (fails ∷ rest) = (nothing, rest)

module _ (c : Container) where
  -- `socket_`, where `none` is -1, and the loop. `closed` has the descriptors given to `::close`, the
  -- newest first, `accepts` the results to come of `accept4`.
  pub record TcpServer : Type 0 where
    pub socket : Option ℕ
    pub loop : Loop c
    pub closed : List ℕ
    pub accepts : List Accept

  -- `stop`, by what `unregisterFD` returns.
  unfoldable pub stop : ℤ → TcpServer → TcpServer
  stop result s = elim s.socket [
    | none ↦ s
    | some fd ↦ record s {
      socket = none;
      loop = (remove_handler c fd result s.loop).1;
      closed = fd ∷ s.closed;
    }
  ]

  -- `listen`. `none` is a failed assertion; the result of `addHandler` is dropped.
  unfoldable pub listen : Opening → ℕ → TcpServer → Option (ℤ × TcpServer)
  listen o handler s = elim s.socket [
    | some old ↦ none
    | none ↦ elim o.opened [
      | none ↦ some (negsuc 0, s)
      | some fd ↦
          let s' = record s { socket = some fd } in
          if not o.options_set
          then none
          else if not o.bound
          then some (negsuc 0, s')
          else if not o.listening
          then some (negsuc 0, s')
          else elim (add_handler c fd (some handler) read_event o.registered s.loop) [
            | none ↦ none
            | some (result, l) ↦ some (pos 0, record s' { loop = l })
          ]
    ]
  ]

  -- `handleConnection`, with what `handleStream` does for a descriptor.
  unfoldable pub handle_connection : (ℕ → TcpServer → TcpServer) → ℕ → TcpServer → Option TcpServer
  handle_connection handle_stream socket s =
      let (outcome, rest) = accept_one s.accepts in
      let s' = record s { accepts = rest } in
      elim s.socket [
        | none ↦ none
        | some fd ↦ if not (fd == socket) then none else elim outcome [
          | bad_fd ↦ none
          | nothing ↦ some s'
          | connection new ↦ some (handle_stream new s')
        ]
      ]
