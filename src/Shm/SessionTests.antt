-- ===== src/Shm/SessionTests.antt =====
-- Runs of the containers of tornado/shm/container.hpp and of the queue of tornado/shm/mq.hpp.
use simplesvr.Prelude.{
  ℕ, ◌≡◌, refl, Bool, true, false, List, [], ◌∷◌, none, some, arith, Bytes, codes, bytes_eq,
  bytes_eq_iff, if◌then◌else◌, ◌&&◌, ◌==◌,
}
use simplesvr.Shm.Segment.{attach, destroy_container, shm_remove, create_segment, destroy_blocks}
use simplesvr.Shm.Memory.{Names, named_segments, at, put}
use simplesvr.Shm.PlainMap.{Plain, plain_map, where_room}
use simplesvr.Shm.Sessions.{run_calls, run_sessions}
use simplesvr.Shm.Maps.{insert_or_update}
use simplesvr.Shm.StringMaps.{
  Op, Reply, Answers, updates, finds, erases, call, run_sessions-replies, updated, out_of_memory,
  found, erased,
}
use simplesvr.Shm.Queue
use simplesvr.Shm.Queue.{MessageQueues, sends, receives, open_queue, open_queue-fifo}
use simplesvr.Shm.PlainQueues.{Queues, plain_queues}

abbrev no_segments : Names Plain
no_segments name = none

abbrev map_ops : List (Op Bytes)
map_ops =
    updates (codes "k") (codes "w")
    ∷ finds (codes "k")
    ∷ updates (codes "k") (codes "too long a value")
    ∷ erases (codes "k")
    ∷ finds (codes "k")
    ∷ []

abbrev first_op : Op Bytes
first_op = updates (codes "k") (codes "v")

map_replies :
    run_calls (call plain_map) (first_op ∷ map_ops) (λ key. none)
    ≡ updated ∷ updated ∷ found (some (codes "w")) ∷ out_of_memory ∷ erased 1 ∷ found none ∷ []
unfolding run_calls call insert_or_update where_room
map_replies = refl

run_sessions-replies_example :
    (rs : List Reply) × (s' : Names Plain) × (run_sessions named_segments
        (codes "Map")
        (λ key. none)
        (call plain_map)
        (codes "m")
        64
        (first_op ∷ map_ops)
        no_segments
      ≡ some (rs, s'))
    × Answers plain_map bytes_eq bytes_eq_iff (first_op ∷ map_ops) rs (λ key. none)
run_sessions-replies_example =
    run_sessions-replies plain_map bytes_eq bytes_eq_iff named_segments (codes "m") 64 first_op
      map_ops no_segments refl refl refl (λ e. omega (arith, e))

abbrev no_counts : Names ℕ
no_counts name = none

-- A new segment of the name `c`.
abbrev new_count : ℕ → Names ℕ → Names ℕ
new_count n s = at (codes "c") (some (record { size = n; objects = λ object. none })) s

abbrev made_count : Names ℕ
made_count = put (codes "c") (codes "Set") 0 (new_count 64 no_counts)

-- The store after `destroy` and `shm_remove`.
abbrev removed_count : Names ℕ
removed_count =
    shm_remove named_segments (codes "c")
      (destroy_container named_segments (codes "Set") (codes "c") made_count)

count_made : attach named_segments (codes "Set") 0 (codes "c") 64 no_counts ≡ some (0, made_count)
unfolding attach create_segment
count_made = refl

destroy_blocks_example :
    ((size : ℕ)
      → attach named_segments
          (codes "Set")
          7
          (codes "c")
          size
          (destroy_container named_segments (codes "Set") (codes "c") made_count)
        ≡ none)
    × (attach named_segments (codes "Set") 7 (codes "c") 32 removed_count
        ≡ some (7, put (codes "c") (codes "Set") 7 (new_count 32 removed_count)))
destroy_blocks_example =
    destroy_blocks named_segments (codes "Set") 0 7 (codes "c") 64 32 no_counts count_made
      (λ e. omega (arith, e)) refl refl

abbrev no_queues : Queues
no_queues name = none

abbrev queue_ops : List Queue.Op
queue_ops =
    sends (codes "a")
    ∷ sends (codes "b")
    ∷ sends (codes "c")
    ∷ receives 8
    ∷ receives 8
    ∷ receives 8
    ∷ []

queue_replies :
    Queue.replies 2 queue_ops []
    ≡ Queue.accepted true
      ∷ Queue.accepted true
      ∷ Queue.accepted false
      ∷ Queue.got (some (codes "a"))
      ∷ Queue.got (some (codes "b"))
      ∷ Queue.got none
      ∷ []
unfolding Queue.replies
queue_replies = refl

open_queue-fifo_example :
    (s1 : Queues) × (s' : Queues) × (open_queue plain_queues (codes "q") 2 8 true no_queues
      ≡ some s1)
    × ((num size : ℕ) (create : Bool)
        → open_queue plain_queues (codes "q") num size create s1
          ≡ (if (2 == num) && (8 == size) then some s1 else none))
    × (Queue.run plain_queues (codes "q") queue_ops s1 ≡ some (Queue.replies 2 queue_ops [], s'))
open_queue-fifo_example =
    open_queue-fifo plain_queues (codes "q") 2 8 queue_ops no_queues refl refl
      (omega arith, (omega arith, (omega arith, (omega arith, (omega arith, (omega arith, tt))))))
