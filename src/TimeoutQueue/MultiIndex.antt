-- ===== src/TimeoutQueue/MultiIndex.antt =====
-- The part of `boost::multi_index_container` that tornado/TimeoutQueue.cpp and tornado/shm/container.hpp
-- use, by the order of the second index: a set of entries with unique identifiers, kept by
-- expiration. `C` is what an entry carries, a callback or nothing.
use simplesvr.Prelude.{ℕ, ◌≡◌, Bool, true, false, ◌||◌, List, [], ◌∷◌, leb, ◌==◌, if◌then◌else◌}

pub record Entry {ℓ} (C : Type ℓ) : Type ℓ where
  pub id : ℕ
  pub expiration : ℕ
  pub callback : C

-- A timer of `TimeoutQueue`. A callback is known by a number.
abbrev pub Event : Type 0
Event = Entry ℕ

abbrev pub has_id {ℓ} : {C : Type ℓ} → ℕ → List (Entry C) → Bool
has_id id [] = false
has_id id (e ∷ es) = e.id == id || has_id id es

-- A new entry goes behind those that expire when it does.
abbrev pub insert_sorted {ℓ} : {C : Type ℓ} → Entry C → List (Entry C) → List (Entry C)
insert_sorted e [] = e ∷ []
insert_sorted e (x ∷ es) =
    if leb x.expiration e.expiration then x ∷ insert_sorted e es else e ∷ x ∷ es

abbrev pub without {ℓ} : {C : Type ℓ} → ℕ → List (Entry C) → List (Entry C)
without id [] = []
without id (e ∷ es) = if e.id == id then without id es else e ∷ without id es

-- The entries before and from `upper_bound(now)` on.
abbrev pub due {ℓ} : {C : Type ℓ} → ℕ → List (Entry C) → List (Entry C)
due now [] = []
due now (e ∷ es) = if leb e.expiration now then e ∷ due now es else []

abbrev pub later {ℓ} : {C : Type ℓ} → ℕ → List (Entry C) → List (Entry C)
later now [] = []
later now (e ∷ es) = if leb e.expiration now then later now es else e ∷ es

-- The operations, and what its documentation says of them. `take_until` is the `std::move` of the
-- range that ends at `upper_bound(now)`, with the `erase` of it.
pub record Index {ℓ} (C : Type ℓ) : Type (1 ⊔ ℓ) where
  pub Set : Type 0
  pub events : Set → List (Entry C)
  pub empty_set : Set
  pub insert : Entry C → Set → Set
  pub erase_id : ℕ → Set → Bool × Set
  pub take_until : ℕ → Set → List (Entry C) × Set
  pub events-empty_set : events empty_set ≡ []
  pub insert_new :
      (e : Entry C) (s : Set)
      → has_id e.id (events s) ≡ false
      → events (insert e s) ≡ insert_sorted e (events s)
  pub insert_old :
      (e : Entry C) (s : Set) → has_id e.id (events s) ≡ true → events (insert e s) ≡ events s
  pub erased : (id : ℕ) (s : Set) → (erase_id id s).0 ≡ has_id id (events s)
  pub events-erase_id : (id : ℕ) (s : Set) → events (erase_id id s).1 ≡ without id (events s)
  pub taken : (now : ℕ) (s : Set) → (take_until now s).0 ≡ due now (events s)
  pub events-take_until : (now : ℕ) (s : Set) → events (take_until now s).1 ≡ later now (events s)

-- The container of `TimeoutQueue`.
abbrev pub Container : Type 1
Container = Index ℕ
