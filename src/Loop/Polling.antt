-- ===== src/Loop/Polling.antt =====
-- `EPollImpl::poll` of tornado/EPoll.cpp and the rounds of `IOLoop::start` that use it.
use simplesvr.Prelude.{
  ℕ, zero, suc, ◌≡◌, ◌≤◌, ◌∙◌, refl, true, List, [], ◌∷◌, none, some, ap, arith, Option-cases, inl,
  inr, length, take, if◌then◌else◌,
}
use simplesvr.Prelude.Int.{ℤ, pos, negsuc}
use simplesvr.Stream.{Events}
use simplesvr.TimeoutQueue.MultiIndex.{Container}
use simplesvr.Loop.{Loop, Effects, dispatch, in_range, slot_at}

-- One call of `epoll_wait`: the events that are ready, of which it stores as many as there is room for,
-- or an error.
pub data Wait : Type 0 where
  ready : List (ℕ × Events) → Wait
  interrupted broken : Wait

-- `poll`, with room for `events_num` events: the result, and the events that can be read.
unfoldable pub poll : ℕ → Wait → ℤ × List (ℕ × Events)
poll events_num (ready events) = (pos (length (take events_num events)), take events_num events)
poll events_num interrupted = (pos 0, [])
poll events_num broken = (negsuc 0, [])

length-take_le {ℓ} : {A : Type ℓ} (n : ℕ) (xs : List A) → length (take n xs) ≤ n
length-take_le zero xs = omega arith
length-take_le (suc n) [] = omega arith
length-take_le (suc n) (x ∷ xs) = omega (arith, length-take_le n xs)

module _ (c : Container) where
  -- The descriptors of the events are those of the table.
  abbrev pub InRange : List (ℕ × Events) → Loop c → Type 0
  InRange [] l = Unit {0}
  InRange ((fd, events) ∷ polled) l = (in_range c fd l ≡ true) × InRange polled l

  -- A handler that keeps the size of the table.
  abbrev pub KeepsSize : Effects c → Type 0
  KeepsSize e =
      (cb fd : ℕ) (events : Events) (l : Loop c)
      → length (e.on_event cb fd events l).handlers ≡ length l.handlers

  InRange-same :
      (polled : List (ℕ × Events)) (l l' : Loop c)
      → length l'.handlers ≡ length l.handlers
      → InRange polled l
      → InRange polled l'
  InRange-same [] l l' h v = tt
  InRange-same ((fd, events) ∷ polled) l l' h v =
      (ground (arith, v.0), InRange-same polled l l' h v.1)

  InRange-take :
      (n : ℕ) (polled : List (ℕ × Events)) (l : Loop c)
      → InRange polled l
      → InRange (take n polled) l
  InRange-take zero polled l v = tt
  InRange-take (suc n) [] l v = tt
  InRange-take (suc n) ((fd, events) ∷ polled) l v = (v.0, InRange-take n polled l v.1)

  -- Whatever the handlers do to the table, as long as it keeps its size, the events of descriptors that
  -- are in range fail no assertion, and those whose handler was taken out meanwhile are skipped.
  pub dispatch-InRange :
      (e : Effects c) (polled : List (ℕ × Events)) (l : Loop c)
      → KeepsSize e
      → InRange polled l
      → (l' : Loop c) × (dispatch c e polled l ≡ some l') × (length l'.handlers ≡ length l.handlers)
  unfolding dispatch
  dispatch-InRange e [] l k v = (l, refl, refl)
  dispatch-InRange e ((fd, events) ∷ polled) l k v =
      let slot = slot_at l.handlers fd in
      let called : Loop c = elim slot.cb [ none ↦ l | some cb ↦ e.on_event cb fd events l ] in
      let next : Loop c = if slot.taken then called else l in
      let same : length next.handlers ≡ length l.handlers = elim (Option-cases slot.cb) [
        | inl none_set ↦ ground arith
        | inr (cb, set) ↦ ground (arith, k cb fd events l)
      ] in
      let (l', done, size) =
        dispatch-InRange e polled next k (InRange-same polled l next same v.1) in
      (l', ap (λ b. if b then dispatch c e polled next else none) v.0 ∙ done, size ∙ same)

  -- What a wait brings, whether it is interrupted, fails or stores only as many events as there is room
  -- for, fails no assertion of the round, if all the descriptors that are ready are in range.
  pub dispatch-poll :
      (e : Effects c) (events_num : ℕ) (wait : List (ℕ × Events)) (l : Loop c)
      → KeepsSize e
      → InRange wait l
      → (length (poll events_num (ready wait)).1 ≤ events_num)
        × ((l' : Loop c) × (dispatch c e (poll events_num (ready wait)).1 l ≡ some l')
            × (length l'.handlers ≡ length l.handlers))
  unfolding poll
  dispatch-poll e events_num wait l k v = (
    length-take_le events_num wait,
    dispatch-InRange e (take events_num wait) l k (InRange-take events_num wait l v),
  )
