-- ===== src/Shm/Tests.antt =====
-- Runs of tornado/shm/container.hpp, with segments as a function of their names and a sorted list for
-- the container of the timers.
use simplesvr.Prelude.{◌≡◌, refl, true, List, [], ◌∷◌, none, some, Bytes, codes, arith, ◌^◌, ◌-◌}
use simplesvr.TimeoutQueue
use simplesvr.TimeoutQueue.MultiIndex.{Index}
use simplesvr.TimeoutQueue.SortedList.{sorted_list, sorted_index}
use simplesvr.Shm.Segment.{attach, create_segment}
use simplesvr.Shm.Timers
use simplesvr.Shm.Timers.{TimerQueue, Item, add_lost}
use simplesvr.Shm.Equivalence.{
  Op, adds, erases, expires, added, erased, expired, run_local, run_shared, run_same,
}
use simplesvr.Shm.Opening.{Object}
use simplesvr.Shm.Memory.{named_segments, Names, at, put}

abbrev no_segments : Names Bytes
no_segments name = none

-- A new segment of the name `s` with an empty vector.
abbrev one_segment : Names Bytes
one_segment =
    put (codes "s") (codes "Vector") []
      (at (codes "s") (some (record { size = 64; objects = λ object. none })) no_segments)

attaches_first :
    attach named_segments (codes "Vector") [] (codes "s") 64 no_segments ≡ some ([], one_segment)
unfolding attach create_segment
attaches_first = refl

abbrev no_items : Index (Unit {0})
no_items = sorted_index

abbrev come_round : TimerQueue no_items
come_round = record { timers = record { id = 1; expiration = 50; callback = tt } ∷ []; next_id = 0 }

abbrev no_timeouts : TimeoutQueue.Queue sorted_list
no_timeouts = record { timeouts = []; next_id = 1 }

abbrev no_timers : TimerQueue no_items
no_timers = record { timers = []; next_id = 1 }

abbrev three_ops : List Op
three_ops = adds 10 5 8 ∷ adds 10 2 9 ∷ erases 1 ∷ expires 13 ∷ []

runs_shared :
    run_shared sorted_list no_items three_ops no_timers
    ≡ added 1
      ∷ added 2
      ∷ erased true
      ∷ expired (2 ^ 63 - 1) (record { id = 2; expiration = 12; callback = tt } ∷ [])
      ∷ []
unfolding run_shared Timers.add Timers.erase Timers.get_expiration_timer
runs_shared = refl

run_same_example :
    run_local sorted_list no_items three_ops no_timeouts
    ≡ run_shared sorted_list no_items three_ops no_timers
run_same_example =
    run_same sorted_list no_items three_ops no_timeouts no_timers
      (record { sorted = tt; unique = tt; issued = tt; started = omega arith }) (omega arith)
      (record { timers = refl; next_id = refl })

abbrev no_queues : Names (Object (List Item))
no_queues name = none
