-- ===== src/Loop/Restarts.antt =====
-- `IOLoop::start` of tornado/IOLoop.cpp on a loop that it has left before, with the other operations
-- called in between.
use simplesvr.Prelude.{
  ℕ, ◌≡◌, ◌≢◌, refl, true, List, [], ◌∷◌, Option, none, some, arith, inl, inr, ◌∙◌, ap,
}
use simplesvr.Prelude.Int.{ℤ}
use simplesvr.Prelude.Partial.{All, >>=-eq-some}
use simplesvr.Stream.{Events, read_event}
use simplesvr.TimeoutQueue.MultiIndex.{Container}
use simplesvr.Loop.{
  Loop, SignalSetup, Effects, Round, idle, add_handler, update_handler, remove_handler,
  add_signal_handler, add_callback, add_timeout, remove_timeout, stop, start,
}
use simplesvr.Loop.Start.{run_rounds-Leaves}
use simplesvr.Loop.Counting.{
  LoopCall, adds, updates, removes, signals, posts, cancels, schedules, stops, run_call, run_calls,
  add_signal_handler_cases,
}

module _ (c : Container) where
  add_handler-running :
      (fd : ℕ) (cb : Option ℕ) (events : Events) (result : ℤ) (l : Loop c) {r : ℤ × Loop c}
      → add_handler c fd cb events result l ≡ some r
      → r.1.running ≡ l.running
  unfolding add_handler
  add_handler-running fd cb events result l h = ground arith

  remove_handler-running :
      (fd : ℕ) (result : ℤ) (l : Loop c) → (remove_handler c fd result l).1.running ≡ l.running
  unfolding remove_handler
  remove_handler-running fd result l = ground arith

  add_signal_handler-running :
      (setup : SignalSetup) (cb : ℕ) (l : Loop c) {r : Option ℕ × List ℕ × Loop c}
      → add_signal_handler c setup cb l ≡ some r
      → r.2.running ≡ l.running
  add_signal_handler-running setup cb l {r} h = elim (add_signal_handler_cases c setup cb l h) [
    | inl same ↦ ap (λ m. m.running) same
    | inr (sfd, added, a, inl same) ↦
        ap (λ m. m.running) same ∙ add_handler-running sfd (some cb) read_event setup.registered l a
    | inr (sfd, added, a, inr same) ↦
        ap (λ m. m.running) same
        ∙ remove_handler-running sfd setup.unregistered added.1
        ∙ add_handler-running sfd (some cb) read_event setup.registered l a
  ]

  -- Only `stop` writes `running_`.
  run_call-running :
      (call : LoopCall) (l : Loop c) {l' : Loop c}
      → call ≢ stops
      → run_call c call l ≡ some l'
      → l'.running ≡ l.running
  unfolding run_call add_callback remove_timeout add_timeout update_handler
  run_call-running (adds fd cb events result) l {l'} other h =
      let (r, e, e') = >>=-eq-some (add_handler c fd cb events result l) (λ r. some r.1) h in
      ground (arith, add_handler-running fd cb events result l e)
  run_call-running (updates fd events result) l other h = ground arith
  run_call-running (removes fd result) l other h =
      ground (arith, remove_handler-running fd result l)
  run_call-running (signals setup cb) l other h =
      let (r, e, e') = >>=-eq-some (add_signal_handler c setup cb l) (λ r. some r.2) h in
      ground (arith, add_signal_handler-running setup cb l e)
  run_call-running (posts cb) l other h = ground arith
  run_call-running (cancels id) l other h = ground arith
  run_call-running (schedules now delay cb) l other h = ground arith
  run_call-running stops l other h = absurd (other refl)

  run_calls-running :
      (calls : List LoopCall) (l : Loop c) {l' : Loop c}
      → All (λ call. call ≢ stops) calls
      → run_calls c calls l ≡ some l'
      → l'.running ≡ l.running
  unfolding run_calls
  run_calls-running [] l others h = ground arith
  run_calls-running (call ∷ calls) l others h =
      let (m, e, e') = >>=-eq-some (run_call c call l) (λ m. run_calls c calls m) h in
      run_calls-running calls m others.1 e' ∙ run_call-running call l others.0 e

  -- A loop that `start` left because it had nothing to do still counts as running. Whatever
  -- operations but `stop` are called after that, in any order, as long as no assertion fails, the
  -- next `start` returns -1; after a `stop` it does not.
  pub start_idle :
      (e : Effects c) (rounds more : List (Round c)) (calls : List LoopCall) (l l' m : Loop c)
      → start c e rounds l ≡ some (idle l')
      → All (λ call. call ≢ stops) calls
      → run_calls c calls l' ≡ some m
      → (start c e more m ≡ none) × (start c e more (stop c m) ≢ none)
  unfolding start stop
  start_idle e rounds more calls l l' m h others runs =
      let left : l'.running ≡ true =
        ground (arith, run_rounds-Leaves c e rounds (record l { running = true })) in
      let kept = run_calls-running calls l' others runs in
      (ground (arith, left, kept), λ none_. ground arith)
