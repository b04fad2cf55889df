-- ===== src/Shm/Stripped.antt =====
-- The timers of tornado/TimeoutQueue.cpp without their callbacks, as tornado/shm/container.hpp has them.
use simplesvr.Prelude.{ℕ, ◌≡◌, refl, List, [], ◌∷◌, map, arith}
use simplesvr.Prelude.Partial.{All}
use simplesvr.TimeoutQueue.{first_expiration}
use simplesvr.TimeoutQueue.MultiIndex.{Event, has_id, insert_sorted, without, due, later}
use simplesvr.TimeoutQueue.Timers.{IsSorted, IsUnique}
use simplesvr.Shm.Timers.{Item, first_item}

-- A timer without its callback.
abbrev pub strip : Event → Item
strip e = record { id = e.id; expiration = e.expiration; callback = tt }

pub strip-insert_sorted :
    (e : Event) (es : List Event)
    → map strip (insert_sorted e es) ≡ insert_sorted (strip e) (map strip es)
strip-insert_sorted e [] = refl
strip-insert_sorted e (x ∷ es) = ground (arith, strip-insert_sorted e es)

pub strip-without :
    (id : ℕ) (es : List Event) → map strip (without id es) ≡ without id (map strip es)
strip-without id [] = refl
strip-without id (x ∷ es) = ground (arith, strip-without id es)

pub strip-due : (now : ℕ) (es : List Event) → map strip (due now es) ≡ due now (map strip es)
strip-due now [] = refl
strip-due now (x ∷ es) = ground (arith, strip-due now es)

pub strip-later : (now : ℕ) (es : List Event) → map strip (later now es) ≡ later now (map strip es)
strip-later now [] = refl
strip-later now (x ∷ es) = ground (arith, strip-later now es)

pub has_id-strip : (id : ℕ) (es : List Event) → has_id id (map strip es) ≡ has_id id es
has_id-strip id [] = refl
has_id-strip id (x ∷ es) = ground (arith, has_id-strip id es)

pub first_item-strip : (es : List Event) → first_item (map strip es) ≡ first_expiration es
first_item-strip [] = refl
first_item-strip (x ∷ es) = refl

-- What stays after a pass has what all had.
pub later-All {ℓ} :
    (P : Event → Type ℓ) (now : ℕ) (es : List Event) → All P es → All P (later now es)
later-All P now [] a = a
later-All P now (x ∷ es) a = ground (arith, later-All P now es a.1)

pub later-IsSorted : (now : ℕ) (es : List Event) → IsSorted es → IsSorted (later now es)
later-IsSorted now [] s = s
later-IsSorted now (x ∷ es) s = ground (arith, later-IsSorted now es s.1)

pub later-IsUnique : (now : ℕ) (es : List Event) → IsUnique es → IsUnique (later now es)
later-IsUnique now [] s = s
later-IsUnique now (x ∷ es) s = ground (arith, later-IsUnique now es s.1)
