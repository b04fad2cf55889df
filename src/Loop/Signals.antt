-- ===== src/Loop/Signals.antt =====
-- `addSignalHandler` of tornado/IOLoop.cpp, and handlers that are added and removed again.
use simplesvr.Prelude.{
  ℕ, zero, suc, ◌≡◌, ◌<◌, refl, sym, ap, true, false, List, [], ◌∷◌, Option, none, some, arith,
  length, Bool-cases, inl, inr, ◌⊎◌,
}
use simplesvr.Prelude.Int.{ℤ}
use simplesvr.Stream.{Events, read_event}
use simplesvr.TimeoutQueue.MultiIndex.{Container}
use simplesvr.Loop.{
  Slot, free_slot, set_slot, slot_at, Loop, SignalSetup, in_range, is_zero, add_handler,
  remove_handler, add_signal_handler,
}
use simplesvr.Loop.Table.{
  added, add_handler-added, add_handler-outside, slot_at-added, slot_at-set_slot, length-set_slot,
}

-- A slot that is taken and freed again is as it was.
pub set_slot-set_slot :
    (ss : List Slot) (fd : ℕ) (s : Slot)
    → slot_at ss fd ≡ free_slot
    → set_slot (set_slot ss fd s) fd free_slot ≡ ss
set_slot-set_slot [] fd s e = refl
set_slot-set_slot (x ∷ ss) zero s e = ap (λ y. y ∷ ss) (sym e)
set_slot-set_slot (x ∷ ss) (suc fd) s e = ap (λ ys. x ∷ ys) (set_slot-set_slot ss fd s e)

module _ (c : Container) where
  -- The same handlers, and as many of them.
  pub record IsSameTable (l l' : Loop c) : Type 0 where
    pub handlers : l'.handlers ≡ l.handlers
    pub handle_num : l'.handle_num ≡ l.handle_num

  pub remove_handler_out :
      (fd : ℕ) (result : ℤ) (l : Loop c)
      → in_range c fd l ≡ false
      → (remove_handler c fd result l).1 ≡ l
  unfolding remove_handler
  remove_handler_out fd result l e = rw e refl

  -- A handler that `addHandler` puts into a free slot, and that `removeHandler` takes out again,
  -- leaves the table as it was, whatever the two calls of `epoll_ctl` return.
  pub remove_handler-add_handler :
      (fd : ℕ) (cb : Option ℕ) (events : Events) (result result' : ℤ) (l : Loop c) {r : ℤ × Loop c}
      → slot_at l.handlers fd ≡ free_slot
      → add_handler c fd cb events result l ≡ some r
      → IsSameTable l (remove_handler c fd result' r.1).1
  unfolding add_handler remove_handler
  remove_handler-add_handler fd cb events result result' l {r} e h =
      let slot : Slot = record { taken = true; cb = cb } in
      let same = set_slot-set_slot l.handlers fd slot e in
      let long = length-set_slot l.handlers fd slot in
      let there : fd < length l.handlers → slot_at (set_slot l.handlers fd slot) fd ≡ slot =
        slot_at-set_slot l.handlers fd slot in
      ground (arith, same, long, there)

  -- What `addSignalHandler` leaves: the descriptor with its handler, or the table as it was.
  abbrev pub SignalAdded : ℕ → ℕ → Loop c → Option ℕ → List ℕ → Loop c → Type 0
  SignalAdded sfd cb l out closed l' =
      ((out ≡ some sfd)
        × (closed ≡ [])
        × (slot_at l'.handlers sfd ≡ record { taken = true; cb = some cb }))
      ⊎ ((out ≡ none) × (closed ≡ sfd ∷ []) × IsSameTable l l')

  -- Where the signal can be blocked and `signalfd` returns a descriptor whose slot is free,
  -- `addSignalHandler` fails no assertion. Either its handler is in the table afterwards and the
  -- descriptor is open, or the descriptor is closed and the table is as it was.
  pub add_signal_handler_lem :
      (setup : SignalSetup) (cb sfd : ℕ) (l : Loop c)
      → setup.blocked ≡ true
      → setup.signal_fd ≡ some sfd
      → slot_at l.handlers sfd ≡ free_slot
      → (out : Option ℕ) × (closed : List ℕ) × (l' : Loop c) × (add_signal_handler c setup cb l
          ≡ some (out, closed, l'))
        × SignalAdded sfd cb l out closed l'
  unfolding add_signal_handler
  add_signal_handler_lem setup cb sfd l b e free = elim (Bool-cases (in_range c sfd l)) [
    | inl inside ↦
        let h =
          add_handler-added c sfd (some cb) read_event setup.registered l inside
            (ap (λ s. s.taken) free) in
        elim (Bool-cases (is_zero setup.registered)) [
          | inl z ↦ (
            some sfd,
            [],
            added c sfd (some cb) read_event l,
            rw (b, e, h, z) refl,
            inl (refl, refl, slot_at-added c sfd (some cb) read_event l inside),
          )
          | inr z ↦ (
            none,
            sfd ∷ [],
            (remove_handler c sfd setup.unregistered (added c sfd (some cb) read_event l)).1,
            rw (b, e, h, z) refl,
            inr (
              refl,
              refl,
              remove_handler-add_handler sfd (some cb) read_event setup.registered
                  setup.unregistered l free h,
            ),
          )
        ]
    | inr outside ↦
        let h = add_handler-outside c sfd (some cb) read_event setup.registered l outside in
        let k = remove_handler_out sfd setup.unregistered l outside in
        (
          none,
          sfd ∷ [],
          (remove_handler c sfd setup.unregistered l).1,
          rw (b, e, h) refl,
          inr (
            refl,
            refl,
            record { handlers = ap (λ t. t.handlers) k; handle_num = ap (λ t. t.handle_num) k },
          ),
        )
  ]
