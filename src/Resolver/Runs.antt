-- ===== src/Resolver/Runs.antt =====
-- The callbacks that c-ares makes in one call, against the table of the loop (tornado/Resolver.cpp).
use simplesvr.Prelude.{
  ℕ, ◌≡◌, refl, List, [], ◌∷◌, Option, none, some, ◌==◌, Bool-cases, Option-cases, inl, inr,
}
use simplesvr.Prelude.Int.{ℤ, pos, negsuc}
use simplesvr.TimeoutQueue.MultiIndex.{Container}
use simplesvr.Loop.{remove_timeout}
use simplesvr.Resolver.{
  Hosts, AresEvent, sock_state, host_reply, Resolver, OnReply, remove_timer, run_callback,
  host_callback, run_event, run_events,
}
use simplesvr.Resolver.Sockets.{IsRegistered, sock_state_callback-IsRegistered}

-- c-ares uses one socket.
abbrev pub OneSocket : ℕ → List AresEvent → Type 0
OneSocket socket [] = Unit
OneSocket socket (sock_state fd read write result ∷ es) = (fd ≡ socket) × OneSocket socket es
OneSocket socket (host_reply hosts ∷ es) = OneSocket socket es

module _ (c : Container) (handler timer_callback : ℕ) where
  remove_timer-IsRegistered :
      (socket : ℕ) (r : Resolver c handler timer_callback)
      → IsRegistered c handler timer_callback socket r
      → IsRegistered c handler timer_callback socket (remove_timer c handler timer_callback r)
  unfolding remove_timer remove_timeout
  remove_timer-IsRegistered socket r v = elim (Bool-cases (r.timer == 0)) [
    | inl e ↦ rw e v
    | inr e ↦ rw e (record { ready = v.ready; inside = v.inside; taken = v.taken })
  ]

  -- A callback of a lookup that leaves the sockets in step.
  abbrev pub Keeps : ℕ → OnReply c handler timer_callback → Type 0
  Keeps socket on_reply =
      (cb : ℕ) (err : ℤ) (hosts : Option Hosts) (r : Resolver c handler timer_callback)
      → IsRegistered c handler timer_callback socket r
      → IsRegistered c handler timer_callback socket (on_reply cb err hosts r)

  run_callback-IsRegistered :
      (socket : ℕ) (on_reply : OnReply c handler timer_callback) (err : ℤ) (hosts : Option Hosts)
      (r : Resolver c handler timer_callback)
      → Keeps socket on_reply
      → IsRegistered c handler timer_callback socket r
      → IsRegistered c handler timer_callback socket
          (run_callback c handler timer_callback on_reply err hosts r)
  unfolding run_callback
  run_callback-IsRegistered socket on_reply err hosts r keeps v =
      let r' = remove_timer c handler timer_callback r in
      let v' = remove_timer-IsRegistered socket r v in
      elim (Option-cases r'.cb) [
        | inl e ↦ rw (e, run_callback) v'
        | inr (cb, e) ↦
            let w = keeps cb err hosts r' v' in
            rw (e, run_callback) (record { ready = w.ready; inside = w.inside; taken = w.taken })
      ]

  host_callback-IsRegistered :
      (socket : ℕ) (on_reply : OnReply c handler timer_callback) (hosts : Option Hosts)
      (r : Resolver c handler timer_callback)
      → Keeps socket on_reply
      → IsRegistered c handler timer_callback socket r
      → IsRegistered c handler timer_callback socket
          (host_callback c handler timer_callback on_reply hosts r)
  unfolding host_callback
  host_callback-IsRegistered socket on_reply none r keeps v =
      run_callback-IsRegistered socket on_reply (negsuc 0) none r keeps v
  host_callback-IsRegistered socket on_reply (some hosts) r keeps v =
      run_callback-IsRegistered socket on_reply (pos 0) (some hosts) r keeps v

  -- Whatever callbacks c-ares makes in one call, as long as it uses one socket, which is in range,
  -- and the callback of the lookup leaves the sockets in step, no assertion fails and the table
  -- stays in step with `state_`.
  pub run_events-IsRegistered :
      (socket : ℕ) (on_reply : OnReply c handler timer_callback) (es : List AresEvent)
      (r : Resolver c handler timer_callback)
      → Keeps socket on_reply
      → OneSocket socket es
      → IsRegistered c handler timer_callback socket r
      → (r' : Resolver c handler timer_callback) × (run_events c handler timer_callback on_reply es
            r
          ≡ some r')
        × IsRegistered c handler timer_callback socket r'
  unfolding run_events run_event
  run_events-IsRegistered socket on_reply [] r keeps one v = (r, refl, v)
  run_events-IsRegistered socket on_reply (sock_state fd read write result ∷ es) r keeps one v =
      let (r1, e, v1, _) =
        sock_state_callback-IsRegistered c handler timer_callback socket read write result r v in
      let (r2, e', v2) = run_events-IsRegistered socket on_reply es r1 keeps one.1 v1 in
      (r2, rw (one.0, e) e', v2)
  run_events-IsRegistered socket on_reply (host_reply hosts ∷ es) r keeps one v =
      run_events-IsRegistered socket on_reply es _ keeps one
        (host_callback-IsRegistered socket on_reply hosts r keeps v)
