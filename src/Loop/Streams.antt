-- ===== src/Loop/Streams.antt =====
-- The calls of a stream of tornado/IOStream.cpp, made on the event loop of tornado/IOLoop.cpp.
use simplesvr.Prelude.{
  ℕ, ◌+◌, ◌-◌, ◌∙◌, ◌≡◌, refl, Bool, true, false, List, [], ◌∷◌, Option, some, arith,
}
use simplesvr.Prelude.Partial.{◌>>=◌}
use simplesvr.Prelude.Int.{pos}
use simplesvr.Stream.{union, error_event, Call, Job, Events}
use simplesvr.Stream
use simplesvr.Stream.Calls.{IsOrderly, registered}
use simplesvr.TimeoutQueue.MultiIndex.{Container}
use simplesvr.Loop.{
  register_fd, modify_fd, unregister_fd, Loop, Slot, free_slot, slot_at, set_slot, in_range,
  add_handler, update_handler, remove_handler, add_callback,
}
use simplesvr.Loop.Table.{slot_at-set_slot, length-set_slot}

module _ (c : Container) (handler : ℕ) (number : Job → ℕ) where
  -- One call, with calls of `epoll_ctl` that succeed. `::close` is no call of the loop.
  pub make_call : Call → Loop c → Option (Loop c)
  make_call (Stream.add_handler fd events) l = do
    r ← add_handler c fd (some handler) events (pos 0) l
    some r.1
  make_call (Stream.update_handler fd events) l = some (update_handler c fd events (pos 0) l).1
  make_call (Stream.remove_handler fd) l = some (remove_handler c fd (pos 0) l).1
  make_call (Stream.close_fd fd) l = some l
  make_call (Stream.add_callback job) l = some (add_callback c (number job) l)

  -- The calls from the oldest, which stands last, to the newest. `none` is a failed assertion.
  pub make_calls : List Call → Loop c → Option (Loop c)
  make_calls [] l = some l
  make_calls (call ∷ calls) l = do l' ← make_calls calls l; make_call call l'

  -- What a call leaves in the table at the socket.
  abbrev Registers : ℕ → Call → Loop c → Bool → Type 0
  Registers socket call l taken =
      (l' : Loop c) × (make_call call l ≡ some l')
      × (in_range c socket l' ≡ true)
      × ((slot_at l'.handlers socket).taken ≡ taken)

  make_call-add_handler :
      (socket fd : ℕ) (events : Events) (l : Loop c)
      → fd ≡ socket
      → in_range c socket l ≡ true
      → (slot_at l.handlers socket).taken ≡ false
      → Registers socket (Stream.add_handler fd events) l true
  unfolding make_call add_handler
  make_call-add_handler socket fd events l e r f =
      let slot : Slot = record { taken = true; cb = some handler } in
      let l' : Loop c = record l {
        handle_num = l.handle_num + 1;
        handlers = set_slot l.handlers fd slot;
        controls = register_fd fd (union events error_event) ∷ l.controls;
      } in
      (
        l',
        ground arith,
        ground (arith, length-set_slot l.handlers fd slot),
        ground (arith, slot_at-set_slot l.handlers fd slot),
      )

  make_call-update_handler :
      (socket fd : ℕ) (events : Events) (l : Loop c)
      → fd ≡ socket
      → in_range c socket l ≡ true
      → Registers socket (Stream.update_handler fd events) l (slot_at l.handlers socket).taken
  unfolding make_call update_handler
  make_call-update_handler socket fd events l e r =
      let l' : Loop c = record l {
        controls = modify_fd fd (union events error_event) ∷ l.controls;
      } in
      (l', ground arith, r, refl)

  make_call-remove_handler :
      (socket fd : ℕ) (l : Loop c)
      → fd ≡ socket
      → in_range c socket l ≡ true
      → (slot_at l.handlers socket).taken ≡ true
      → Registers socket (Stream.remove_handler fd) l false
  unfolding make_call remove_handler
  make_call-remove_handler socket fd l e r f =
      let l' : Loop c = record l {
        handle_num = l.handle_num - 1;
        handlers = set_slot l.handlers fd free_slot;
        controls = unregister_fd fd ∷ l.controls;
      } in
      (
        l',
        ground arith,
        ground (arith, length-set_slot l.handlers fd free_slot),
        ground (arith, slot_at-set_slot l.handlers fd free_slot),
      )

  -- The calls of an orderly stream, made where the slot for its socket is in range and free, fail no
  -- assertion of `addHandler`, and its handler is in the table afterwards exactly if the stream is
  -- registered.
  pub make_calls-registered :
      (socket : ℕ) (calls : List Call) (l : Loop c)
      → IsOrderly socket calls
      → in_range c socket l ≡ true
      → (slot_at l.handlers socket).taken ≡ false
      → (l' : Loop c) × (make_calls calls l ≡ some l')
        × (in_range c socket l' ≡ true)
        × ((slot_at l'.handlers socket).taken ≡ registered calls)
  unfolding make_calls make_call add_callback
  make_calls-registered socket [] l o r f = (l, refl, r, f)
  make_calls-registered socket (Stream.add_handler fd events ∷ calls) l o r f =
      let (l', made, inside, taken) = make_calls-registered socket calls l o.3 r f in
      let (m, made', inside', taken') =
        make_call-add_handler socket fd events l' o.0 inside (taken ∙ o.1) in
      (m, rw (made, made'), inside', taken')
  make_calls-registered socket (Stream.update_handler fd events ∷ calls) l o r f =
      let (l', made, inside, taken) = make_calls-registered socket calls l o.3 r f in
      let (m, made', inside', taken') = make_call-update_handler socket fd events l' o.0 inside in
      (m, rw (made, made'), inside', taken' ∙ taken)
  make_calls-registered socket (Stream.remove_handler fd ∷ calls) l o r f =
      let (l', made, inside, taken) = make_calls-registered socket calls l o.3 r f in
      let (m, made', inside', taken') =
        make_call-remove_handler socket fd l' o.0 inside (taken ∙ o.1) in
      (m, rw (made, made'), inside', taken')
  make_calls-registered socket (Stream.close_fd fd ∷ calls) l o r f =
      let (l', made, inside, taken) = make_calls-registered socket calls l o.3 r f in
      (l', rw made, inside, taken)
  make_calls-registered socket (Stream.add_callback job ∷ calls) l o r f =
      let (l', made, inside, taken) = make_calls-registered socket calls l o r f in
      (add_callback c (number job) l', rw made, inside, taken)
