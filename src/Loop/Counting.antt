-- ===== src/Loop/Counting.antt =====
-- The operations of tornado/IOLoop.cpp and tornado/IOLoop.h, called in any order.
use simplesvr.Prelude.{ℕ, ◌≡◌, List, [], ◌∷◌, Option, some, arith, Option-cases, inl, inr, ◌⊎◌}
use simplesvr.Prelude.Int.{ℤ}
use simplesvr.Prelude.Partial.{◌>>=◌, >>=-eq-some}
use simplesvr.Stream.{Events, read_event}
use simplesvr.TimeoutQueue.MultiIndex.{Container}
use simplesvr.Loop.{
  Loop, SignalSetup, add_handler, update_handler, remove_handler, add_signal_handler, add_callback,
  add_timeout, remove_timeout, stop,
}
use simplesvr.Loop.Table.{IsCounted, add_handler-IsCounted, remove_handler-IsCounted}

-- A call of the loop, with what the system gives it.
pub data LoopCall : Type 0 where
  adds : ℕ → Option ℕ → Events → ℤ → LoopCall
  updates : ℕ → Events → ℤ → LoopCall
  removes : ℕ → ℤ → LoopCall
  signals : SignalSetup → ℕ → LoopCall
  posts cancels : ℕ → LoopCall
  schedules : ℕ → ℕ → ℕ → LoopCall
  stops : LoopCall

module _ (c : Container) where
  -- `none` is a failed assertion.
  unfoldable pub run_call : LoopCall → Loop c → Option (Loop c)
  run_call (adds fd cb events result) l = do r ← add_handler c fd cb events result l; some r.1
  run_call (updates fd events result) l = some (update_handler c fd events result l).1
  run_call (removes fd result) l = some (remove_handler c fd result l).1
  run_call (signals setup cb) l = do r ← add_signal_handler c setup cb l; some r.2
  run_call (posts cb) l = some (add_callback c cb l)
  run_call (cancels id) l = some (remove_timeout c id l).1
  run_call (schedules now delay cb) l = some (add_timeout c now delay cb l).1
  run_call stops l = some (stop c l)

  unfoldable pub run_calls : List LoopCall → Loop c → Option (Loop c)
  run_calls [] l = some l
  run_calls (call ∷ calls) l = do l' ← run_call call l; run_calls calls l'

  update_handler-IsCounted :
      (fd : ℕ) (events : Events) (result : ℤ) (l : Loop c)
      → IsCounted c l
      → IsCounted c (update_handler c fd events result l).1
  unfolding update_handler
  update_handler-IsCounted fd events result l v = ground (arith, v.counted)

  -- `addSignalHandler` that fails no assertion changes nothing, or it adds a handler and may remove it.
  pub add_signal_handler_cases :
      (setup : SignalSetup) (cb : ℕ) (l : Loop c) {r : Option ℕ × List ℕ × Loop c}
      → add_signal_handler c setup cb l ≡ some r
      → (r.2 ≡ l)
        ⊎ ((sfd : ℕ) × (added : ℤ × Loop c) × (add_handler c sfd
                (some cb)
                read_event
                setup.registered
                l
              ≡ some added)
            × ((r.2 ≡ added.1) ⊎ (r.2 ≡ (remove_handler c sfd setup.unregistered added.1).1)))
  unfolding add_signal_handler
  add_signal_handler_cases setup cb l {r} h = elim (Option-cases setup.signal_fd) [
    | inl e ↦ inl (ground arith)
    | inr (sfd, e) ↦
        elim (Option-cases (add_handler c sfd (some cb) read_event setup.registered l)) [
          | inl a ↦ inl (ground arith)
          | inr ((result, l1), a) ↦
              let left : (r.2 ≡ l)
                  ⊎ ((r.2 ≡ l1) ⊎ (r.2 ≡ (remove_handler c sfd setup.unregistered l1).1)) =
                ground arith in
              elim left [ inl same ↦ inl same | inr other ↦ inr (sfd, (result, l1), a, other) ]
        ]
  ]

  add_signal_handler-IsCounted :
      (setup : SignalSetup) (cb : ℕ) (l : Loop c) {r : Option ℕ × List ℕ × Loop c}
      → IsCounted c l
      → add_signal_handler c setup cb l ≡ some r
      → IsCounted c r.2
  add_signal_handler-IsCounted setup cb l {r} v h = elim (add_signal_handler_cases setup cb l h) [
    | inl same ↦ rw same v
    | inr (sfd, added, a, inl same) ↦
        rw same (add_handler-IsCounted c sfd (some cb) read_event setup.registered l v a)
    | inr (sfd, added, a, inr same) ↦ rw same (
        remove_handler-IsCounted c sfd setup.unregistered added.1
          (add_handler-IsCounted c sfd (some cb) read_event setup.registered l v a))
  ]

  run_call-IsCounted :
      (call : LoopCall) (l : Loop c) {l' : Loop c}
      → IsCounted c l
      → run_call call l ≡ some l'
      → IsCounted c l'
  unfolding run_call add_callback remove_timeout add_timeout stop
  run_call-IsCounted (adds fd cb events result) l {l'} v h =
      let (r, e, e') = >>=-eq-some (add_handler c fd cb events result l) (λ r. some r.1) h in
      ground (arith, add_handler-IsCounted c fd cb events result l v e)
  run_call-IsCounted (updates fd events result) l v h =
      ground (arith, update_handler-IsCounted fd events result l v)
  run_call-IsCounted (removes fd result) l v h =
      ground (arith, remove_handler-IsCounted c fd result l v)
  run_call-IsCounted (signals setup cb) l v h =
      let (r, e, e') = >>=-eq-some (add_signal_handler c setup cb l) (λ r. some r.2) h in
      ground (arith, add_signal_handler-IsCounted setup cb l v e)
  run_call-IsCounted (posts cb) l v h = ground (arith, v.counted)
  run_call-IsCounted (cancels id) l v h = ground (arith, v.counted)
  run_call-IsCounted (schedules now delay cb) l v h = ground (arith, v.counted)
  run_call-IsCounted stops l v h = ground (arith, v.counted)

  -- Whatever operations are called, in any order and whatever `epoll_ctl` returns, `handle_num_`
  -- stays the number of handlers in the table as long as no assertion fails.
  pub run_calls-IsCounted :
      (calls : List LoopCall) (l : Loop c) {l' : Loop c}
      → IsCounted c l
      → run_calls calls l ≡ some l'
      → IsCounted c l'
  unfolding run_calls
  run_calls-IsCounted [] l v h = ground (arith, v.counted)
  run_calls-IsCounted (call ∷ calls) l v h =
      let (m, e, e') = >>=-eq-some (run_call call l) (λ m. run_calls calls m) h in
      run_calls-IsCounted calls m (run_call-IsCounted call l v e) e'
