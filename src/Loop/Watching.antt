-- ===== src/Loop/Watching.antt =====
-- What tornado/IOLoop.cpp asks epoll for, by way of tornado/EPoll.cpp, against its handler table.
use simplesvr.Prelude.{
  ℕ, zero, suc, ◌≡◌, ◌<◌, ◌∙◌, refl, sym, ap, subst, Bool, true, false, List, [], ◌∷◌, Option, some,
  arith, Bool-cases, inl, inr, ◌==◌, if◌then◌else◌, length,
}
use simplesvr.Prelude.Int.{ℤ}
use simplesvr.Prelude.Partial.{>>=-eq-some}
use simplesvr.Stream.{Events, read_event}
use simplesvr.TimeoutQueue.MultiIndex.{Container}
use simplesvr.Loop.{
  Loop, Slot, free_slot, slot_at, set_slot, SignalSetup, Control, register_fd, modify_fd,
  unregister_fd, add_handler, update_handler, remove_handler, add_signal_handler, add_callback,
  add_timeout, remove_timeout, stop,
}
use simplesvr.Loop.Table.{slot_at-set_slot}
use simplesvr.Loop.Counting.{
  LoopCall, adds, updates, removes, signals, posts, cancels, schedules, stops, run_call, run_calls,
  add_signal_handler_cases,
}

-- Whether epoll watches a descriptor after the calls of `epoll_ctl`, the newest of which stands first.
abbrev pub watches : List Control → ℕ → Bool
watches [] fd = false
watches (register_fd f events ∷ cs) fd = if f == fd then true else watches cs fd
watches (modify_fd f events ∷ cs) fd = watches cs fd
watches (unregister_fd f ∷ cs) fd = if f == fd then false else watches cs fd

slot_at-other :
    (ss : List Slot) (fd j : ℕ) (s : Slot)
    → (fd == j) ≡ false
    → slot_at (set_slot ss fd s) j ≡ slot_at ss j
slot_at-other [] fd j s h = refl
slot_at-other (x ∷ ss) zero zero s h = absurd (ground arith)
slot_at-other (x ∷ ss) zero (suc j) s h = refl
slot_at-other (x ∷ ss) (suc fd) zero s h = refl
slot_at-other (x ∷ ss) (suc fd) (suc j) s h = slot_at-other ss fd j s (ground arith)

module _ (c : Container) where
  -- The loop has asked epoll for exactly the descriptors that have a handler.
  pub record IsWatched (l : Loop c) : Type 0 where
    pub watched : (fd : ℕ) → watches l.controls fd ≡ (slot_at l.handlers fd).taken

  some-IsWatched : {l l' : Loop c} → some l ≡ some l' → IsWatched l → IsWatched l'
  some-IsWatched {l} {l'} h v = let same : l ≡ l' = cc in subst IsWatched same v

  -- A slot and the calls are changed together.
  set-watched :
      (ss : List Slot) (cs : List Control) (fd j : ℕ) (s : Slot) (asked : Bool)
      → fd < length ss
      → s.taken ≡ asked
      → watches cs j ≡ (slot_at ss j).taken
      → (if fd == j then asked else watches cs j) ≡ (slot_at (set_slot ss fd s) j).taken
  set-watched ss cs fd j s asked inside e v = elim (Bool-cases (fd == j)) [
    | inl same ↦
        let there : fd ≡ j = ground arith in
        rw same (
          sym (
            ap (λ k. (slot_at (set_slot ss fd s) k).taken) (sym there)
            ∙ ap (λ t. t.taken) (slot_at-set_slot ss fd s inside)
            ∙ e))
    | inr other ↦ rw (other, slot_at-other ss fd j s other) v
  ]

  add_handler-IsWatched :
      (fd : ℕ) (cb : Option ℕ) (events : Events) (result : ℤ) (l : Loop c) {r : ℤ × Loop c}
      → IsWatched l
      → add_handler c fd cb events result l ≡ some r
      → IsWatched r.1
  unfolding add_handler
  add_handler-IsWatched fd cb events result l {r} v h = record {
    watched = λ j.
        let slot : Slot = record { taken = true; cb = cb } in
        let set : fd < length l.handlers
            → (if fd == j then true else watches l.controls j)
              ≡ (slot_at (set_slot l.handlers fd slot) j).taken =
          λ inside. set-watched l.handlers l.controls fd j slot true inside refl (v.watched j) in
        ground (arith, v.watched j, set);
  }

  remove_handler-IsWatched :
      (fd : ℕ) (result : ℤ) (l : Loop c) → IsWatched l → IsWatched (remove_handler c fd result l).1
  unfolding remove_handler
  remove_handler-IsWatched fd result l v = record {
    watched = λ j.
        let set : fd < length l.handlers
            → (if fd == j then false else watches l.controls j)
              ≡ (slot_at (set_slot l.handlers fd free_slot) j).taken =
          λ inside.
            set-watched l.handlers l.controls fd j free_slot false inside refl (v.watched j) in
        ground (arith, v.watched j, set);
  }

  update_handler-IsWatched :
      (fd : ℕ) (events : Events) (result : ℤ) (l : Loop c)
      → IsWatched l
      → IsWatched (update_handler c fd events result l).1
  unfolding update_handler
  update_handler-IsWatched fd events result l v = record {
    watched = λ j. ground (arith, v.watched j);
  }

  add_signal_handler-IsWatched :
      (setup : SignalSetup) (cb : ℕ) (l : Loop c) {r : Option ℕ × List ℕ × Loop c}
      → IsWatched l
      → add_signal_handler c setup cb l ≡ some r
      → IsWatched r.2
  add_signal_handler-IsWatched setup cb l {r} v h = elim (add_signal_handler_cases c setup cb l h) [
    | inl same ↦ rw same v
    | inr (sfd, (result, l1), a, inl same) ↦
        rw same (add_handler-IsWatched sfd (some cb) read_event setup.registered l v a)
    | inr (sfd, (result, l1), a, inr same) ↦ rw same (
        remove_handler-IsWatched sfd setup.unregistered l1
          (add_handler-IsWatched sfd (some cb) read_event setup.registered l v a))
  ]

  run_call-IsWatched :
      (call : LoopCall) (l : Loop c) {l' : Loop c}
      → IsWatched l
      → run_call c call l ≡ some l'
      → IsWatched l'
  unfolding run_call add_callback remove_timeout add_timeout stop
  run_call-IsWatched (adds fd cb events result) l {l'} v h =
      let (r, e, e') = >>=-eq-some (add_handler c fd cb events result l) (λ r. some r.1) h in
      some-IsWatched e' (add_handler-IsWatched fd cb events result l v e)
  run_call-IsWatched (updates fd events result) l v h =
      some-IsWatched h (update_handler-IsWatched fd events result l v)
  run_call-IsWatched (removes fd result) l v h =
      some-IsWatched h (remove_handler-IsWatched fd result l v)
  run_call-IsWatched (signals setup cb) l v h =
      let (r, e, e') = >>=-eq-some (add_signal_handler c setup cb l) (λ r. some r.2) h in
      some-IsWatched e' (add_signal_handler-IsWatched setup cb l v e)
  run_call-IsWatched (posts cb) l v h = some-IsWatched h (record { watched = v.watched })
  run_call-IsWatched (cancels id) l v h = some-IsWatched h (record { watched = v.watched })
  run_call-IsWatched (schedules now delay cb) l v h =
      some-IsWatched h (record { watched = v.watched })
  run_call-IsWatched stops l v h = some-IsWatched h (record { watched = v.watched })

  -- Whatever operations are called, in any order, the descriptors that the loop has asked epoll to
  -- watch are exactly those that have a handler in the table, as long as no assertion fails.
  pub run_calls-IsWatched :
      (calls : List LoopCall) (l : Loop c) {l' : Loop c}
      → IsWatched l
      → run_calls c calls l ≡ some l'
      → IsWatched l'
  unfolding run_calls
  run_calls-IsWatched [] l v h = some-IsWatched h v
  run_calls-IsWatched (call ∷ calls) l v h =
      let (m, e, e') = >>=-eq-some (run_call c call l) (λ m. run_calls c calls m) h in
      run_calls-IsWatched calls m (run_call-IsWatched call l v e) e'
