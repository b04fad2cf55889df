-- ===== src/Loop/Lifetime.antt =====
-- `IOLoop::IOLoop` and the accessors of tornado/IOLoop.h: the loop of the process from its start.
use simplesvr.Prelude.{
  ℕ, zero, suc, ◌+◌, ◌≡◌, refl, sym, ◌∙◌, true, false, ◌&&◌, Bool, List, [], ◌∷◌, Option, some,
  arith, length, replicate, length-replicate, inl, inr,
}
use simplesvr.Prelude.Int.{ℤ}
use simplesvr.Prelude.Partial.{>>=-eq-some}
use simplesvr.Stream.{Events, read_event}
use simplesvr.TimeoutQueue
use simplesvr.TimeoutQueue.MultiIndex.{Container}
use simplesvr.Loop.{
  Loop, free_slot, slot_at, is_nil, SignalSetup, add_handler, update_handler, remove_handler,
  add_signal_handler, add_callback, add_timeout, remove_timeout, stop,
}
use simplesvr.Loop.Table.{IsCounted, count_taken, length-set_slot}
use simplesvr.Loop.Counting.{
  LoopCall, adds, updates, removes, signals, posts, cancels, schedules, stops, run_call, run_calls,
  run_calls-IsCounted, add_signal_handler_cases,
}
use simplesvr.Loop.Watching.{watches, IsWatched, run_calls-IsWatched}

-- `DEFAULT_MAX_FD`.
abbrev pub default_max_fd : ℕ
default_max_fd = 10000 + 4

count_taken-free : (n : ℕ) → count_taken (replicate n free_slot) ≡ 0
count_taken-free zero = refl
count_taken-free (suc n) = count_taken-free n

slot_at-free : (n fd : ℕ) → (slot_at (replicate n free_slot) fd).taken ≡ false
slot_at-free zero fd = refl
slot_at-free (suc n) zero = refl
slot_at-free (suc n) (suc fd) = slot_at-free n fd

module _ (c : Container) where
  -- `IOLoop::IOLoop`.
  unfoldable pub new_loop : ℕ → Loop c
  new_loop maxfd = record {
    handle_num = 0;
    handlers = replicate maxfd free_slot;
    callbacks = [];
    timeouts = record { timeouts = c.empty_set; next_id = 1 };
    running = false;
    controls = [];
  }

  unfoldable pub get_max_fd : Loop c → ℕ
  get_max_fd l = length l.handlers

  unfoldable pub get_handler_num : Loop c → ℕ
  get_handler_num l = l.handle_num

  -- `IOLoop::idle`.
  unfoldable pub is_idle : Loop c → Bool
  is_idle l = is_nil l.callbacks && TimeoutQueue.empty c l.timeouts

  remove_handler-size :
      (fd : ℕ) (result : ℤ) (l : Loop c)
      → length (remove_handler c fd result l).1.handlers ≡ length l.handlers
  unfolding remove_handler
  remove_handler-size fd result l = ground (arith, length-set_slot l.handlers fd free_slot)

  add_handler-size :
      (fd : ℕ) (cb : Option ℕ) (events : Events) (result : ℤ) (l : Loop c) {r : ℤ × Loop c}
      → add_handler c fd cb events result l ≡ some r
      → length r.1.handlers ≡ length l.handlers
  unfolding add_handler
  add_handler-size fd cb events result l h =
      ground (arith, length-set_slot l.handlers fd (record { taken = true; cb = cb }))

  add_signal_handler-size :
      (setup : SignalSetup) (cb : ℕ) (l : Loop c) {r : Option ℕ × List ℕ × Loop c}
      → add_signal_handler c setup cb l ≡ some r
      → length r.2.handlers ≡ length l.handlers
  add_signal_handler-size setup cb l {r} h = elim (add_signal_handler_cases c setup cb l h) [
    | inl same ↦ rw same refl
    | inr (sfd, added, a, inl same) ↦
        rw same (add_handler-size sfd (some cb) read_event setup.registered l a)
    | inr (sfd, added, a, inr same) ↦ rw same (
        remove_handler-size sfd setup.unregistered added.1
        ∙ add_handler-size sfd (some cb) read_event setup.registered l a)
  ]

  run_call-size :
      (call : LoopCall) (l : Loop c) {l' : Loop c}
      → run_call c call l ≡ some l'
      → length l'.handlers ≡ length l.handlers
  unfolding run_call add_callback remove_timeout add_timeout stop update_handler
  run_call-size (adds fd cb events result) l {l'} h =
      let (r, e, e') = >>=-eq-some (add_handler c fd cb events result l) (λ r. some r.1) h in
      ground (arith, add_handler-size fd cb events result l e)
  run_call-size (updates fd events result) l h = ground arith
  run_call-size (removes fd result) l h = ground (arith, remove_handler-size fd result l)
  run_call-size (signals setup cb) l h =
      let (r, e, e') = >>=-eq-some (add_signal_handler c setup cb l) (λ r. some r.2) h in
      ground (arith, add_signal_handler-size setup cb l e)
  run_call-size (posts cb) l h = ground arith
  run_call-size (cancels id) l h = ground arith
  run_call-size (schedules now delay cb) l h = ground arith
  run_call-size stops l h = ground arith

  run_calls-size :
      (calls : List LoopCall) (l : Loop c) {l' : Loop c}
      → run_calls c calls l ≡ some l'
      → length l'.handlers ≡ length l.handlers
  unfolding run_calls
  run_calls-size [] l h = ground arith
  run_calls-size (call ∷ calls) l h =
      let (m, e, e') = >>=-eq-some (run_call c call l) (λ m. run_calls c calls m) h in
      run_calls-size calls m e' ∙ run_call-size call l e

  -- From the construction of the loop on, whatever operations are called, in any order, as long as
  -- no assertion fails: the table keeps its size, `getHandlerNum` is the number of handlers in it,
  -- and epoll has been asked to watch exactly their descriptors.
  pub new_loop-calls :
      (maxfd : ℕ) (calls : List LoopCall) {l : Loop c}
      → run_calls c calls (new_loop maxfd) ≡ some l
      → (get_max_fd l ≡ maxfd)
        × (get_handler_num l ≡ count_taken l.handlers)
        × ((fd : ℕ) → watches l.controls fd ≡ (slot_at l.handlers fd).taken)
  unfolding new_loop get_max_fd get_handler_num
  new_loop-calls maxfd calls {l} h =
      let start = new_loop maxfd in
      let counted : IsCounted c start = record { counted = sym (count_taken-free maxfd) } in
      let watched : IsWatched c start = record { watched = λ fd. sym (slot_at-free maxfd fd) } in
      (
        run_calls-size calls start h ∙ length-replicate maxfd free_slot,
        (run_calls-IsCounted c calls start counted h).counted,
        (run_calls-IsWatched c calls start watched h).watched,
      )
