-- ===== src/Shm/Timers.antt =====
-- `TimerQueue` of tornado/shm/container.hpp: timers without callbacks, with identifiers of 32 bits.
-- Its container is the one of `boost::multi_index` that tornado/TimeoutQueue.cpp has.
use simplesvr.Prelude.{
  ℕ, ◌+◌, ◌%◌, ◌^◌, ◌≡◌, refl, Bool, true, false, List, [], ◌∷◌, ◌++◌, ◌==◌, if◌then◌else◌,
}
use simplesvr.TimeoutQueue.{never}
use simplesvr.TimeoutQueue.MultiIndex.{Entry, Index, has_id}

-- `TimerQueue::Item`.
abbrev pub Item : Type 0
Item = Entry (Unit {0})

abbrev pub first_item : List Item → ℕ
first_item [] = never
first_item (e ∷ es) = e.expiration

module _ (c : Index (Unit {0})) where
  open c use {Set, events, insert, erase_id, take_until, insert_old}

  -- `timers_` and `nextId_`.
  pub record TimerQueue : Type 0 where
    pub timers : Set
    pub next_id : ℕ

  pub empty : TimerQueue → Bool
  empty q = elim (events q.timers) [ [] ↦ true | e ∷ es ↦ false ]

  -- 0 is skipped when the counter comes round.
  abbrev pub fresh_timer_id : TimerQueue → ℕ
  fresh_timer_id q = if q.next_id == 0 then 1 else q.next_id

  unfoldable pub add : ℕ → TimerQueue → ℕ × TimerQueue
  add expiration q = (
    fresh_timer_id q,
    record {
      timers =
          insert (record { id = fresh_timer_id q; expiration = expiration; callback = tt })
            q.timers;
      next_id = (fresh_timer_id q + 1) % 2 ^ 32;
    },
  )

  unfoldable pub erase : ℕ → TimerQueue → Bool × TimerQueue
  erase id q = let (erased, s) = erase_id id q.timers in (erased, record q { timers = s })

  unfoldable pub next_expiration : TimerQueue → ℕ
  next_expiration q = first_item (events q.timers)

  -- `getExpirationTimer`: the due items go behind those of the caller.
  unfoldable pub get_expiration_timer : ℕ → List Item → TimerQueue → ℕ × List Item × TimerQueue
  unfolding next_expiration
  get_expiration_timer now items q =
      let (expired, s) = take_until now q.timers in
      let q' = record q { timers = s } in (next_expiration q', items ++ expired, q')

  -- Once the counter has come round to the identifier of a timer that is still there, `add` returns
  -- that identifier and adds nothing: the caller's timer is lost.
  pub add_lost :
      (expiration : ℕ) (q : TimerQueue)
      → has_id (fresh_timer_id q) (events q.timers) ≡ true
      → let (id, q') = add expiration q in
        (id ≡ fresh_timer_id q) × (events q'.timers ≡ events q.timers)
  unfolding add
  add_lost expiration q h = (
    refl,
    insert_old (record { id = fresh_timer_id q; expiration = expiration; callback = tt }) q.timers
        h,
  )
