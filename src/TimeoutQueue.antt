-- ===== src/TimeoutQueue.antt =====
-- tornado/TimeoutQueue.h and tornado/TimeoutQueue.cpp: one-time timers, by identifier and by time
-- of expiration. Times are natural numbers; a negative delay and the overflow of `int64_t` sums
-- are outside the model. `boost::multi_index_container` is a parameter.
pub mod MultiIndex
pub mod Timers
pub mod Rounds
pub mod SortedList
mod Tests
use simplesvr.Prelude.{
  ℕ, zero, suc, ◌+◌, ◌-◌, ◌%◌, ◌^◌, Bool, true, false, List, [], ◌∷◌, Option, none, some, ltb, leb,
  ◌==◌, if◌then◌else◌,
}
use MultiIndex.{Event, Container}

-- `std::numeric_limits<int64_t>::max()`.
abbrev pub never : ℕ
never = 2 ^ 63 - 1

abbrev pub first_expiration : List Event → ℕ
first_expiration [] = never
first_expiration (e ∷ es) = e.expiration

module _ (c : Container) where
  open c use {Set, events, insert, erase_id, take_until}

  -- `timeouts_` and `nextId_`, a `uint64_t`.
  pub record Queue : Type 0 where
    pub timeouts : Set
    pub next_id : ℕ

  unfoldable pub empty : Queue → Bool
  empty q = elim (events q.timeouts) [ [] ↦ true | e ∷ es ↦ false ]

  -- 0 is skipped when the counter comes round.
  abbrev pub fresh_id : Queue → ℕ
  fresh_id q = if q.next_id == 0 then 1 else q.next_id

  unfoldable pub add : ℕ → ℕ → ℕ → Queue → ℕ × Queue
  add now delay callback q = (
    fresh_id q,
    record {
      timeouts =
          insert (record { id = fresh_id q; expiration = now + delay; callback = callback })
            q.timeouts;
      next_id = (fresh_id q + 1) % 2 ^ 64;
    },
  )

  unfoldable pub erase : ℕ → Queue → Bool × Queue
  erase id q = let (erased, s) = erase_id id q.timeouts in (erased, record q { timeouts = s })

  unfoldable pub next_expiration : Queue → ℕ
  next_expiration q = first_expiration (events q.timeouts)

  -- What a callback does to the queue when it runs with its identifier and the time.
  abbrev pub Effects : Type 0
  Effects = ℕ → ℕ → ℕ → Queue → Queue

  unfoldable pub call_all : Effects → ℕ → List Event → Queue → Queue
  call_all effect now [] q = q
  call_all effect now (e ∷ es) q = call_all effect now es (effect e.callback e.id now q)

  -- One pass of the loop of `runInternal`, with the events whose callbacks it calls.
  unfoldable pub run_pass : Effects → ℕ → Queue → List Event × Queue
  run_pass effect now q =
      let (expired, s) = take_until now q.timeouts in
      (expired, call_all effect now expired (record q { timeouts = s }))

  -- `runOnce`.
  unfoldable pub run_once : Effects → ℕ → Queue → ℕ × Queue
  run_once effect now q = let (expired, q') = run_pass effect now q in (next_expiration q', q')

  -- `runLoop`, by the number of passes that are allowed; `none` is one pass too many.
  pub run_loop : ℕ → Effects → ℕ → Queue → Option (ℕ × Queue)
  run_loop zero effect now q = none
  run_loop (suc fuel) effect now q =
      let (next, q') = run_once effect now q in
      let again = run_loop fuel effect now q' in if leb next now then again else some (next, q')
