-- ===== src/App/Timers.antt =====
-- The timer of an application (tornado/App.cpp).
use simplesvr.Prelude.{
  ℕ, ◌+◌, ◌^◌, ◌≡◌, ◌<◌, ◌∙◌, refl, ap, true, false, List, Option, none, some, arith, Option-cases,
  inl, inr, subst,
}
use simplesvr.Prelude.Int.{ℤ}
use simplesvr.TimeoutQueue
use simplesvr.TimeoutQueue.MultiIndex.{Container, Event, has_id, insert_sorted}
use simplesvr.TimeoutQueue.Timers.{IsValid, add_lem, erase_lem, has_id-insert_sorted}
use simplesvr.Loop.{
  Loop, SignalSetup, add_handler, remove_handler, add_timeout, remove_timeout, add_signal_handler,
}
use simplesvr.App.{App, stop, signal_handler, start, run_one_loop}

module _ (c : Container) (signal_callback loop_callback : ℕ) where
  abbrev pub timers : App c signal_callback loop_callback → List Event
  timers a = c.events a.loop.timeouts.timeouts

  -- The timers are valid, and while the application runs its own one is among them.
  pub record IsTicking (a : App c signal_callback loop_callback) : Type 0 where
    pub valid : IsValid c a.loop.timeouts
    pub waits : a.running ≡ true → has_id a.tid (timers a) ≡ true

  -- `stop`, on an application that runs, takes its timer out of the queue.
  pub stop_lem :
      (a : App c signal_callback loop_callback)
      → IsTicking a
      → a.running ≡ true
      → let a' = stop c signal_callback loop_callback a in
        (a'.running ≡ false) × (has_id a.tid (timers a') ≡ false) × IsTicking a'
  unfolding stop remove_timeout
  stop_lem a v h =
      let (_, _, gone, valid) = erase_lem c a.tid a.loop.timeouts v.valid in
      rw (h, stop) (refl, gone, record { valid = valid; waits = λ e. absurd (ground arith) })

  timeouts-remove_handler :
      (fd : ℕ) (result : ℤ) (l : Loop c) → (remove_handler c fd result l).1.timeouts ≡ l.timeouts
  unfolding remove_handler
  timeouts-remove_handler fd result l = ground arith

  -- The handler of the signal stops an application that runs with its timer in a valid queue:
  -- afterwards that timer is not in the queue.
  pub signal_handler_lem :
      (fd : ℕ) (result : ℤ) (a : App c signal_callback loop_callback)
      → IsTicking a
      → a.running ≡ true
      → let a' = signal_handler c signal_callback loop_callback fd result a in
        (a'.running ≡ false) × (has_id a.tid (timers a') ≡ false) × IsTicking a'
  unfolding signal_handler
  signal_handler_lem fd result a v h =
      let e = timeouts-remove_handler fd result a.loop in
      stop_lem (record a { loop = (remove_handler c fd result a.loop).1 })
        (record {
          valid = rw e (v.valid);
          waits = λ r. ap (λ q. has_id a.tid (c.events q.timeouts)) e ∙ v.waits h;
        })
        h

  -- After the code of an application that runs has run and has left valid timers, before the
  -- identifiers come round, one timer is added to those that it left, with an identifier that none
  -- of them has, at its place in the order of expiration, for the time now and the delay that the
  -- code returned; the timers are valid, and while the application runs its own one is among them.
  -- The timer is added even if that code has called `stop`, and whether the application runs is as
  -- the code left it.
  pub run_one_loop_lem :
      (process : App c signal_callback loop_callback → ℕ × App c signal_callback loop_callback)
      (now : ℕ) (a : App c signal_callback loop_callback)
      → a.running ≡ true
      → IsValid c (process a).1.loop.timeouts
      → (process a).1.loop.timeouts.next_id + 1 < 2 ^ 64
      → let a' = run_one_loop c signal_callback loop_callback process now a in
        let next : Event = record {
          id = a'.tid;
          expiration = now + (process a).0;
          callback = loop_callback;
        } in
        IsTicking a'
        × (a'.running ≡ (process a).1.running)
        × (has_id a'.tid (timers (process a).1) ≡ false)
        × (timers a' ≡ insert_sorted next (timers (process a).1))
  unfolding run_one_loop add_timeout
  run_one_loop_lem process now a h v small =
      let (delay, a1) = process a in
      let (new, placed, valid) = add_lem c now delay loop_callback a1.loop.timeouts v small in
      let (tid, q) = TimeoutQueue.add c now delay loop_callback a1.loop.timeouts in
      let there : has_id tid (c.events q.timeouts) ≡ true =
        ap (has_id tid) placed
        ∙ has_id-insert_sorted tid
            (record { id = tid; expiration = now + delay; callback = loop_callback })
            (c.events a1.loop.timeouts.timeouts)
        ∙ ground arith in
      simp h (record { valid = valid; waits = λ e. there }, refl, new, placed)

  -- An application that does not run does nothing when its timer expires.
  pub run_one_loop_stopped :
      (process : App c signal_callback loop_callback → ℕ × App c signal_callback loop_callback)
      (now : ℕ) (a : App c signal_callback loop_callback)
      → a.running ≡ false
      → run_one_loop c signal_callback loop_callback process now a ≡ a
  unfolding run_one_loop
  run_one_loop_stopped process now a h = rw h refl

  add_signal_handler-timeouts :
      (setup : SignalSetup) (l : Loop c) {out : Option ℕ} {closed : List ℕ} {l' : Loop c}
      → add_signal_handler c setup signal_callback l ≡ some (out, closed, l')
      → l'.timeouts ≡ l.timeouts
  unfolding add_signal_handler add_handler remove_handler
  add_signal_handler-timeouts setup l h = ground arith

  -- An application that `start` hands to the loop runs, with its timer in the queue.
  pub start_lem :
      (setup : SignalSetup) (now : ℕ) (a : App c signal_callback loop_callback)
      {a' : App c signal_callback loop_callback}
      → IsValid c a.loop.timeouts
      → a.loop.timeouts.next_id + 1 < 2 ^ 64
      → start c signal_callback loop_callback setup now a ≡ some (true, a')
      → (a'.running ≡ true) × IsTicking a'
  unfolding start add_timeout
  start_lem setup now a {a'} v small h =
      elim (Option-cases (add_signal_handler c setup signal_callback a.loop)) [
        | inl e ↦ absurd (ground arith)
        | inr ((none, closed, l), e) ↦ absurd (ground arith)
        | inr ((some sfd, closed, l), e) ↦
            let same = add_signal_handler-timeouts setup a.loop e in
            let v' : IsValid c l.timeouts = rw same v in
            let (_, placed, valid) =
              add_lem c now 0 loop_callback l.timeouts v'
                (ground (arith, ap (λ q. q.next_id) same)) in
            let (tid, q) = TimeoutQueue.add c now 0 loop_callback l.timeouts in
            let there : has_id tid (c.events q.timeouts) ≡ true =
              ap (has_id tid) placed
              ∙ has_id-insert_sorted tid
                  (record { id = tid; expiration = now + 0; callback = loop_callback })
                  (c.events l.timeouts.timeouts)
              ∙ ground arith in
            let made : record a {
              running = true;
              tid = tid;
              loop = record l { timeouts = q };
              closed = closed;
            }
                ≡ a' =
              ground arith in
            subst (λ b. (b.running ≡ true) × IsTicking b) made
              (refl, record { valid = valid; waits = λ r. there })
      ]
