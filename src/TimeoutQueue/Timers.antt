-- ===== src/TimeoutQueue/Timers.antt =====
-- Identifiers and order in tornado/TimeoutQueue.cpp: what `add` and `erase` do to the queue.
use simplesvr.Prelude.{
  ℕ, ◌+◌, ◌%◌, ◌^◌, ◌≤◌, ◌<◌, ◌≡◌, refl, false, ◌||◌, List, [], ◌∷◌, arith, ◌==◌, if◌then◌else◌,
}
use simplesvr.Prelude.Partial.{All}
use simplesvr.TimeoutQueue.MultiIndex.{Event, Container, has_id, insert_sorted, without}
use simplesvr.TimeoutQueue.{Queue, add, erase, fresh_id}

-- By expiration.
abbrev pub IsSorted : List Event → Type 0
IsSorted [] = Unit {0}
IsSorted (e ∷ es) = All (λ x. e.expiration ≤ x.expiration) es × IsSorted es

-- Identifiers are from 1 up to, and without, the next one.
abbrev pub IsIssued : ℕ → Event → Type 0
IsIssued next e = (0 < e.id) × (e.id < next)

-- The identifiers differ.
abbrev pub IsUnique : List Event → Type 0
IsUnique [] = Unit {0}
IsUnique (e ∷ es) = (has_id e.id es ≡ false) × IsUnique es

has_id_of_issued :
    (next id : ℕ) (es : List Event) → All (IsIssued next) es → next ≤ id → has_id id es ≡ false
has_id_of_issued next id [] a h = refl
has_id_of_issued next id (e ∷ es) a h = ground (arith, has_id_of_issued next id es a.1 h)

All-mono :
    (d e : ℕ) (es : List Event)
    → d ≤ e
    → All (λ (x : Event). e ≤ x.expiration) es
    → All (λ (x : Event). d ≤ x.expiration) es
All-mono d e [] h a = tt
All-mono d e (x ∷ es) h a = (omega arith, All-mono d e es h a.1)

insert_sorted-All :
    (d : ℕ) (e : Event) (es : List Event)
    → d ≤ e.expiration
    → All (λ (x : Event). d ≤ x.expiration) es
    → All (λ (x : Event). d ≤ x.expiration) (insert_sorted e es)
insert_sorted-All d e [] h a = (h, tt)
insert_sorted-All d e (x ∷ es) h a = ground (arith, insert_sorted-All d e es h a.1)

insert_sorted-IsSorted : (e : Event) (es : List Event) → IsSorted es → IsSorted (insert_sorted e es)
insert_sorted-IsSorted e [] s = (tt, tt)
insert_sorted-IsSorted e (x ∷ es) s = ground (
  arith,
  insert_sorted-IsSorted e es s.1,
  insert_sorted-All x.expiration e es,
  All-mono e.expiration x.expiration es,
)

insert_sorted-IsIssued :
    (next : ℕ) (e : Event) (es : List Event)
    → IsIssued next e
    → All (IsIssued next) es
    → All (IsIssued next) (insert_sorted e es)
insert_sorted-IsIssued next e [] h a = (h, tt)
insert_sorted-IsIssued next e (x ∷ es) h a = ground (arith, insert_sorted-IsIssued next e es h a.1)

IsIssued-mono : (m n : ℕ) (es : List Event) → m ≤ n → All (IsIssued m) es → All (IsIssued n) es
IsIssued-mono m n [] h a = tt
IsIssued-mono m n (x ∷ es) h a = ((a.0.0, omega arith), IsIssued-mono m n es h a.1)

pub has_id-insert_sorted :
    (id : ℕ) (e : Event) (es : List Event)
    → has_id id (insert_sorted e es) ≡ (e.id == id) || has_id id es
has_id-insert_sorted id e [] = refl
has_id-insert_sorted id e (x ∷ es) = ground (arith, has_id-insert_sorted id e es)

insert_sorted-IsUnique :
    (e : Event) (es : List Event)
    → has_id e.id es ≡ false
    → IsUnique es
    → IsUnique (insert_sorted e es)
insert_sorted-IsUnique e [] h u = (refl, tt)
insert_sorted-IsUnique e (x ∷ es) h u =
    ground (arith, insert_sorted-IsUnique e es, has_id-insert_sorted x.id e es)

-- The elements of a list that `without` keeps have what all had.
without-All {ℓ} : (P : Event → Type ℓ) (id : ℕ) (es : List Event) → All P es → All P (without id es)
without-All P id [] a = a
without-All P id (x ∷ es) a = ground (arith, without-All P id es a.1)

without-IsSorted : (id : ℕ) (es : List Event) → IsSorted es → IsSorted (without id es)
without-IsSorted id [] s = s
without-IsSorted id (x ∷ es) s = ground (
  arith,
  without-IsSorted id es s.1,
  without-All (λ (y : Event). x.expiration ≤ y.expiration) id es s.0,
)

has_id-without :
    (id j : ℕ) (es : List Event)
    → has_id j (without id es) ≡ (if id == j then false else has_id j es)
has_id-without id j [] = ground arith
has_id-without id j (x ∷ es) = ground (arith, has_id-without id j es)

without-IsUnique : (id : ℕ) (es : List Event) → IsUnique es → IsUnique (without id es)
without-IsUnique id [] u = u
without-IsUnique id (x ∷ es) u =
    ground (arith, without-IsUnique id es u.1, has_id-without id x.id es)

module _ (c : Container) where
  open c use {events, insert_new, erased, events-erase_id}

  -- Sorted by expiration, with different identifiers that were issued before the next one.
  pub record IsValid (q : Queue c) : Type 0 where
    pub sorted : IsSorted (events q.timeouts)
    pub unique : IsUnique (events q.timeouts)
    pub issued : All (IsIssued q.next_id) (events q.timeouts)
    pub started : 0 < q.next_id

  -- On a valid queue, until the counter of identifiers comes round, `add` returns an identifier that
  -- no timer in the queue has, puts the timer at its place in the order of expiration, and leaves a
  -- valid queue.
  pub add_lem :
      (now delay callback : ℕ) (q : Queue c)
      → IsValid q
      → q.next_id + 1 < 2 ^ 64
      → let (id, q') = add c now delay callback q in
        (has_id id (events q.timeouts) ≡ false)
        × (events q'.timeouts
            ≡ insert_sorted
                (record { id = id; expiration = now + delay; callback = callback })
                (events q.timeouts))
        × IsValid q'
  unfolding add
  add_lem now delay callback q v h =
      let es = events q.timeouts in
      let e : Event = record { id = fresh_id c q; expiration = now + delay; callback = callback } in
      let issued : fresh_id c q ≡ q.next_id = ground (arith, v.started) in
      let new : has_id (fresh_id c q) es ≡ false =
        has_id_of_issued q.next_id (fresh_id c q) es v.issued (omega (arith, issued)) in
      let placed = insert_new e q.timeouts new in
      let next : (fresh_id c q + 1) % 2 ^ 64 ≡ q.next_id + 1 = omega (arith, issued) in
      (
        new,
        placed,
        record {
          sorted = rw placed (insert_sorted-IsSorted e es v.sorted);
          unique = rw placed (insert_sorted-IsUnique e es new v.unique);
          issued =
              rw (placed, next)
                (insert_sorted-IsIssued (q.next_id + 1) e es
                  ((omega (arith, issued, v.started)), (omega (arith, issued)))
                  (IsIssued-mono q.next_id (q.next_id + 1) es (omega arith) v.issued));
          started = rw next (omega arith);
        },
      )

  -- On a valid queue `erase` says whether the timer was there, removes it, keeps the others, and
  -- leaves a valid queue.
  pub erase_lem :
      (id : ℕ) (q : Queue c)
      → IsValid q
      → let (found, q') = erase c id q in
        (found ≡ has_id id (events q.timeouts))
        × (events q'.timeouts ≡ without id (events q.timeouts))
        × (has_id id (events q'.timeouts) ≡ false)
        × IsValid q'
  unfolding erase
  erase_lem id q v =
      let es = events q.timeouts in
      let left = events-erase_id id q.timeouts in
      (
        erased id q.timeouts,
        left,
        rw left (ground (arith, has_id-without id id es)),
        record {
          sorted = rw left (without-IsSorted id es v.sorted);
          unique = rw left (without-IsUnique id es v.unique);
          issued = rw left (without-All (IsIssued q.next_id) id es v.issued);
          started = v.started;
        },
      )
