-- ===== src/TimeoutQueue/Tests.antt =====
-- Runs of tornado/TimeoutQueue.cpp on a sorted list.
use simplesvr.Prelude.{ℕ, ◌≤◌, refl, [], ◌∷◌, arith}
use simplesvr.TimeoutQueue.MultiIndex.{Event}
use simplesvr.TimeoutQueue.SortedList.{sorted_list}
use simplesvr.TimeoutQueue.{Queue, Effects, next_expiration}
use simplesvr.TimeoutQueue.Timers.{IsValid}
use simplesvr.TimeoutQueue.Rounds.{KeepsQuiet, KeepsBusy}

abbrev timer : ℕ → ℕ → Event
timer id expiration = record { id = id; expiration = expiration; callback = id }

abbrev two_timers : Queue sorted_list
two_timers = record { timeouts = timer 2 100 ∷ timer 1 300 ∷ []; next_id = 3 }

two_timers-IsValid : IsValid sorted_list two_timers
two_timers-IsValid = record {
  sorted = ((omega arith, tt), (tt, tt));
  unique = (refl, (refl, tt));
  issued = ((omega arith, omega arith), ((omega arith, omega arith), tt));
  started = omega arith;
}

-- A callback that changes nothing.
abbrev no_effect : Effects sorted_list
no_effect callback id now q = q

no_effect-KeepsQuiet : KeepsQuiet sorted_list no_effect 200
no_effect-KeepsQuiet callback id q h = h

-- A callback that leaves one timer, due at once.
abbrev repeats : Effects sorted_list
repeats callback id now q = record { timeouts = timer id 0 ∷ []; next_id = q.next_id }

repeats-KeepsBusy : KeepsBusy sorted_list repeats 200
unfolding next_expiration
repeats-KeepsBusy callback id q = omega arith

two_timers-first : next_expiration sorted_list two_timers ≤ 200
unfolding next_expiration
two_timers-first = omega arith
