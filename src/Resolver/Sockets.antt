-- ===== src/Resolver/Sockets.antt =====
-- The sockets of a lookup: `sock_state_callback` of tornado/Resolver.cpp.
use simplesvr.Prelude.{
  ℕ, ◌≡◌, refl, ap, Bool, true, false, not, ◌||◌, some, arith, Bool-cases, inl, inr, ◌∙◌, sym, ◌&&◌,
  leb, ltb, length,
}
use simplesvr.Prelude.Int.{ℤ}
use simplesvr.Stream.{Events, no_events, has_events, events_eq}
use simplesvr.TimeoutQueue.MultiIndex.{Container}
use simplesvr.Loop.{
  Loop, Slot, free_slot, set_slot, min_fd, slot_at, in_range, remove_handler, update_handler,
}
use simplesvr.Loop.Table.{
  add_handler-added, slot_at-added, added, length-set_slot, slot_at-set_slot,
}
use simplesvr.Resolver.{Resolver, wanted, add_if_new, update_if_changed, sock_state_callback}

events_eq-eq : (a b : Events) → events_eq a b ≡ true → a ≡ b
events_eq-eq a b h = ground arith

module _ (c : Container) (handler timer_callback : ℕ) where
  -- The table has a handler for the socket exactly if `state_` is not 0.
  pub record IsRegistered (socket : ℕ) (r : Resolver c handler timer_callback) : Type 0 where
    pub ready : r.ready ≡ true
    pub inside : in_range c socket r.loop ≡ true
    pub taken : (slot_at r.loop.handlers socket).taken ≡ has_events r.state

  remove_handler_taken :
      (fd : ℕ) (result : ℤ) (l : Loop c)
      → in_range c fd l ≡ true
      → (slot_at l.handlers fd).taken ≡ true
      → (remove_handler c fd result l).1.handlers ≡ set_slot l.handlers fd free_slot
  unfolding remove_handler
  remove_handler_taken fd result l inside t = ground arith

  pub handlers-update_handler :
      (fd : ℕ) (events : Events) (result : ℤ) (l : Loop c)
      → (update_handler c fd events result l).1.handlers ≡ l.handlers
  unfolding update_handler
  handlers-update_handler fd events result l = ground arith

  add_if_new-IsRegistered :
      (socket : ℕ) (events : Events) (result : ℤ) (r : Resolver c handler timer_callback)
      → has_events events ≡ true
      → IsRegistered socket r
      → (r' : Resolver c handler timer_callback) × (add_if_new c handler timer_callback socket
            events result r
          ≡ some r')
        × IsRegistered socket r'
        × (has_events r'.state ≡ true)
  unfolding add_if_new
  add_if_new-IsRegistered socket events result r e v = elim (Bool-cases (has_events r.state)) [
    | inl has ↦ (r, rw has refl, v, has)
    | inr has ↦
        let h =
          add_handler-added c socket (some handler) events result r.loop v.inside (v.taken ∙ has) in
        let slot : Slot = record { taken = true; cb = some handler } in
        let long = length-set_slot r.loop.handlers socket slot in
        (
          record r { state = events; loop = added c socket (some handler) events r.loop },
          rw (has, h) refl,
          record {
            ready = v.ready;
            inside = ground (arith, v.inside, long);
            taken =
                ap (λ t. t.taken) (slot_at-added c socket (some handler) events r.loop v.inside)
                ∙ sym e;
          },
          e,
        )
  ]

  update_if_changed-IsRegistered :
      (socket : ℕ) (events : Events) (result : ℤ) (r : Resolver c handler timer_callback)
      → has_events events ≡ true
      → IsRegistered socket r
      → has_events r.state ≡ true
      → let r' = update_if_changed c handler timer_callback socket events result r in
        IsRegistered socket r' × (r'.state ≡ events)
  unfolding update_if_changed
  update_if_changed-IsRegistered socket events result r e v has =
      elim (Bool-cases (events_eq r.state events)) [
        | inl same ↦ rw same (v, events_eq-eq r.state events same)
        | inr other ↦
            let k = handlers-update_handler socket events result r.loop in
            rw other (
              record {
                ready = v.ready;
                inside = ap (λ h. leb min_fd socket && ltb socket (length h)) k ∙ v.inside;
                taken = ap (λ h. (slot_at h socket).taken) k ∙ v.taken ∙ has ∙ sym e;
              },
              refl,
            )
      ]

  sock_state_callback-changes :
      (socket : ℕ) (read write : Bool) (result : ℤ) (r r' : Resolver c handler timer_callback)
      → r.ready ≡ true
      → not read && (not write && has_events r.state) ≡ false
      → add_if_new c handler timer_callback socket
          (wanted c handler timer_callback read write)
          result
          r
        ≡ some r'
      → sock_state_callback c handler timer_callback socket read write result r
        ≡ some (
            update_if_changed c handler timer_callback socket
              (wanted c handler timer_callback read write)
              result
              r')
  unfolding sock_state_callback
  sock_state_callback-changes socket read write result r r' h stays e = ground arith

  -- While c-ares has no other socket, `sock_state_callback` fails no assertion and keeps the table and
  -- `state_` in step; `state_` is then what c-ares asked for.
  pub sock_state_callback-IsRegistered :
      (socket : ℕ) (read write : Bool) (result : ℤ) (r : Resolver c handler timer_callback)
      → IsRegistered socket r
      → (r' : Resolver c handler timer_callback) × (sock_state_callback c handler timer_callback
            socket read write result r
          ≡ some r')
        × IsRegistered socket r'
        × ((read || write ≡ true) → r'.state ≡ wanted c handler timer_callback read write)
  unfolding sock_state_callback
  sock_state_callback-IsRegistered socket read write result r v =
      let wants : has_events (wanted c handler timer_callback read write) ≡ true = ground arith in
      elim (Bool-cases (not read && (not write && has_events r.state))) [
        | inl gone ↦
            let has : has_events r.state ≡ true = ground arith in
            let freed = remove_handler_taken socket result r.loop v.inside (v.taken ∙ has) in
            let long = length-set_slot r.loop.handlers socket free_slot in
            (
              record r { loop = (remove_handler c socket result r.loop).1; state = no_events },
              rw (v.ready, sock_state_callback, gone) refl,
              record {
                ready = v.ready;
                inside =
                    ap (λ h. leb min_fd socket && ltb socket (length h)) freed
                    ∙ ap (λ n. leb min_fd socket && ltb socket n) long
                    ∙ v.inside;
                taken =
                    ap (λ h. (slot_at h socket).taken) freed
                    ∙ ap (λ t. t.taken)
                        (slot_at-set_slot r.loop.handlers socket free_slot (ground arith));
              },
              λ w. absurd (ground arith),
            )
        | inr stays ↦
            let (r1, e, v1, has) =
              add_if_new-IsRegistered socket (wanted c handler timer_callback read write) result r
                wants v in
            let (v2, state) =
              update_if_changed-IsRegistered socket (wanted c handler timer_callback read write)
                result r1 wants v1 has in
            (
              update_if_changed c handler timer_callback socket
                  (wanted c handler timer_callback read write) result r1,
              sock_state_callback-changes socket read write result r r1 v.ready stays e,
              v2,
              λ w. state,
            )
      ]

  handlers-update_if_changed :
      (socket : ℕ) (events : Events) (result : ℤ) (r : Resolver c handler timer_callback)
      → (update_if_changed c handler timer_callback socket events result r).loop.handlers
        ≡ r.loop.handlers
  unfolding update_if_changed
  handlers-update_if_changed socket events result r =
      ground (arith, handlers-update_handler socket events result r.loop)

  -- While `state_` is not 0, a second socket that c-ares opens is not put into the table: the table
  -- stays as it was.
  pub second_socket_lost :
      (socket : ℕ) (read write : Bool) (result : ℤ) (r : Resolver c handler timer_callback)
      → r.ready ≡ true
      → has_events r.state ≡ true
      → read || write ≡ true
      → (r' : Resolver c handler timer_callback) × (sock_state_callback c handler timer_callback
            socket read write result r
          ≡ some r')
        × (r'.loop.handlers ≡ r.loop.handlers)
  unfolding sock_state_callback add_if_new
  second_socket_lost socket read write result r h e w =
      let stays : not read && (not write && has_events r.state) ≡ false = ground arith in
      (
        update_if_changed c handler timer_callback socket
            (wanted c handler timer_callback read write) result r,
        sock_state_callback-changes socket read write result r r h stays (rw e refl),
        handlers-update_if_changed socket (wanted c handler timer_callback read write) result r,
      )
