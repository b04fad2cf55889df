-- ===== src/Shm/Opening.antt =====
-- The constructor of `TimerQueue` of tornado/shm/container.hpp: its segment holds the timers and the next
-- identifier.
use simplesvr.Prelude.{
  ℕ, ◌+◌, ◌^◌, ◌<◌, ◌≡◌, ◌≢◌, refl, ap, ◌∙◌, sym, map, false, List, length, Option, none, some,
  arith, ◌==◌, if◌then◌else◌, Bytes, codes,
}
use simplesvr.Prelude.Partial.{◌>>=◌}
use simplesvr.TimeoutQueue
use simplesvr.TimeoutQueue.MultiIndex.{Index, Container}
use simplesvr.TimeoutQueue.Timers.{IsValid}
use simplesvr.Shm.Segment.{Segments}
use simplesvr.Shm.Timers.{TimerQueue}
use simplesvr.Shm.Stripped.{strip}
use simplesvr.Shm.Equivalence.{Op, run_local, run_shared, run_same}

-- The two objects of the segment.
pub data Object (S : Type 0) : Type 0 where
  timer_set : S → Object S
  next_number : ℕ → Object S

abbrev as_set : {S : Type 0} → Object S → Option S
as_set (timer_set s) = some s
as_set (next_number n) = none

abbrev as_number : {S : Type 0} → Object S → Option ℕ
as_number (timer_set s) = none
as_number (next_number n) = some n

module _ (d : Index (Unit {0})) (m : Segments (Object d.Set)) where
  open m use {
    Store, size_of, find, create, construct, size_of-create, size_of-construct, find-construct,
    find-construct_other,
  }

  abbrev pub set_name : Bytes
  set_name = codes "TimerQueue"

  abbrev pub id_name : Bytes
  id_name = codes "IntNextId"

  -- `assert( alloc_size &&  m_pSegment->get_size() == alloc_size )`.
  abbrev sized : ℕ → ℕ → TimerQueue d → Store → Option (TimerQueue d × Store)
  sized alloc_size size q s =
      if alloc_size == 0 then none else if size == alloc_size then some (q, s) else none

  -- What both branches end in: the two pointers, and the size of the segment.
  abbrev opened : Bytes → ℕ → Store → Option (TimerQueue d × Store)
  opened name alloc_size s = do
    size ← size_of name s
    held ← find name set_name s
    timers ← as_set held
    number ← find name id_name s
    next_id ← as_number number
    sized alloc_size size (record { timers = timers; next_id = next_id }) s

  -- The constructor. `none` is a failed assertion or an exception of `create_only` or `construct`.
  unfoldable pub open_timers : Bytes → ℕ → Store → Option (TimerQueue d × Store)
  open_timers name alloc_size s = elim (size_of name s) [
    | some size ↦ opened name alloc_size s
    | none ↦ if alloc_size == 0 then none else (do
      s0 ← create name alloc_size s
      s1 ← construct name set_name (timer_set d.empty_set) s0
      s2 ← construct name id_name (next_number 1) s1
      opened name alloc_size s2)
  ]

  abbrev pub new_timers : TimerQueue d
  new_timers = record { timers = d.empty_set; next_id = 1 }

  opened-some :
      (name : Bytes) (n : ℕ) (s : Store) (t : d.Set) (i : ℕ)
      → size_of name s ≡ some n
      → find name set_name s ≡ some (timer_set t)
      → find name id_name s ≡ some (next_number i)
      → n ≢ 0
      → opened name n s ≡ some (record { timers = t; next_id = i }, s)
  opened-some name n s t i size set number positive = rw (size, set, number) (ground arith)

  -- The store `s2` after the constructor has made the segment and its two objects in `s`.
  pub record IsMade (name : Bytes) (n : ℕ) (s s0 s1 s2 : Store) : Type 0 where
    pub absent : size_of name s ≡ none
    pub made : create name n s ≡ some s0
    pub set : construct name set_name (timer_set d.empty_set) s0 ≡ some s1
    pub number : construct name id_name (next_number 1) s1 ≡ some s2

  open_timers-created :
      (name : Bytes) (n : ℕ) (s : Store) {s0 s1 s2 : Store}
      → IsMade name n s s0 s1 s2
      → (n == 0) ≡ false
      → open_timers name n s ≡ opened name n s2
  unfolding open_timers
  open_timers-created name n s h e = rw (h.absent, open_timers, e, h.made, h.set, h.number) refl

  -- The queue that the first process gets is empty, and its first identifier is 1.
  pub open_timers_new :
      (name : Bytes) (n : ℕ) (s : Store) {s0 s1 s2 : Store}
      → IsMade name n s s0 s1 s2
      → n ≢ 0
      → open_timers name n s ≡ some (new_timers, s2)
  open_timers_new name n s {s0} {s1} {s2} h positive =
      let size0 = size_of-create name n s h.made in
      let size1 : size_of name s1 ≡ some n =
        size_of-construct name set_name (timer_set d.empty_set) s0 h.set ∙ size0 in
      let size2 : size_of name s2 ≡ some n =
        size_of-construct name id_name (next_number 1) s1 h.number ∙ size1 in
      let set : find name set_name s2 ≡ some (timer_set d.empty_set) =
        find-construct_other name id_name set_name (next_number 1) s1 (λ e. cc) h.number
        ∙ find-construct name set_name (timer_set d.empty_set) s0 size0 h.set in
      let number : find name id_name s2 ≡ some (next_number 1) =
        find-construct name id_name (next_number 1) s1 size1 h.number in
      let e : (n == 0) ≡ false = ground arith in
      let done : opened name n s2 ≡ some (new_timers, s2) =
        opened-some name n s2 d.empty_set 1 size2 set number positive in
      open_timers-created name n s h e ∙ done

module _ (c : Container) (d : Index (Unit {0})) (m : Segments (Object d.Set)) where
  open m use {Store, size_of, create}

  abbrev pub new_queue : TimeoutQueue.Queue c
  new_queue = record { timeouts = c.empty_set; next_id = 1 }

  new_queue-IsValid : IsValid c new_queue
  new_queue-IsValid = record {
    sorted = rw c.events-empty_set tt;
    unique = rw c.events-empty_set tt;
    issued = rw c.events-empty_set tt;
    started = omega arith;
  }

  -- Where the segment does not exist and can be created with a size that is not 0, the constructor
  -- of the queue in shared memory fails no assertion, and its queue answers every sequence of
  -- operations that does not use up the identifiers of 32 bits as a new queue of the loop does,
  -- whose callbacks do nothing here.
  pub open_timers-run_same :
      (ops : List Op) (name : Bytes) (n : ℕ) (s : Store) {s0 s1 s2 : Store}
      → IsMade d m name n s s0 s1 s2
      → n ≢ 0
      → 1 + length ops < 2 ^ 32
      → (q : TimerQueue d) × (open_timers d m name n s ≡ some (q, s2))
        × (run_local c d ops new_queue ≡ run_shared c d ops q)
  open_timers-run_same ops name n s h positive small = (
    new_timers d m,
    open_timers_new d m name n s h positive,
    run_same c d ops new_queue (new_timers d m) new_queue-IsValid small (record {
      timers = d.events-empty_set ∙ ap (map strip) (sym c.events-empty_set);
      next_id = refl;
    }),
  )
