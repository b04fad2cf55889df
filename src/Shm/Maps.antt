-- ===== src/Shm/Maps.antt =====
-- `ShmMap` and `StringShmMap` of tornado/shm/container.hpp, over the map of `boost::interprocess`.
use simplesvr.Prelude.{ℕ, ◌≡◌, ◌≢◌, ◌⊎◌, Option, none, some, Option-cases, inl, inr, Bytes, arith}

-- The operations of `boost::interprocess::map` that are called, and what its documentation says of
-- them: `insert` keeps a value that is there, `assign` is that of the string at a key. `none` is the
-- exception of a segment that has no room, which leaves the map as it was.
pub record OrderedMap {ℓ κ} (K : Type ℓ) (V : Type κ) : Type (1 ⊔ ℓ ⊔ κ) where
  pub Map : Type 0
  pub empty_map : Map
  pub find : K → Map → Option V
  pub insert : K → V → Map → Option Map
  pub assign : K → V → Map → Option Map
  pub erase : K → Map → ℕ × Map
  pub find-insert_new :
      (key : K) (v : V) (m : Map) {m' : Map}
      → find key m ≡ none
      → insert key v m ≡ some m'
      → find key m' ≡ some v
  pub find-assign :
      (key : K) (v old : V) (m : Map) {m' : Map}
      → find key m ≡ some old
      → assign key v m ≡ some m'
      → find key m' ≡ some v
  pub find-insert_other :
      (key j : K) (v : V) (m : Map) {m' : Map}
      → j ≢ key
      → insert key v m ≡ some m'
      → find j m' ≡ find j m
  pub find-assign_other :
      (key j : K) (v : V) (m : Map) {m' : Map}
      → j ≢ key
      → assign key v m ≡ some m'
      → find j m' ≡ find j m
  pub find-empty_map : (key : K) → find key empty_map ≡ none
  pub find-erase_other : (key j : K) (m : Map) → j ≢ key → find j (erase key m).1 ≡ find j m
  pub find-erase : (key : K) (m : Map) → find key (erase key m).1 ≡ none
  pub erased : (key : K) (m : Map) → (erase key m).0 ≡ elim (find key m) [ none ↦ 0 | some v ↦ 1 ]

module _ {ℓ} {K : Type ℓ} (t : OrderedMap K Bytes) where
  open t use {
    Map, find, insert, assign, find-insert_new, find-assign, find-insert_other, find-assign_other,
  }

  -- `StringShmMap::insert_or_update`. It catches no exception: `none` is that of the segment.
  unfoldable pub insert_or_update : K → Bytes → Map → Option Map
  insert_or_update key buff m = elim (find key m) [
    | none ↦ insert key buff m
    | some old ↦ assign key buff m
  ]

  -- Whether the key is new or not, it has the value afterwards.
  pub insert_or_update_self :
      (key : K) (buff : Bytes) (m : Map) {m' : Map}
      → insert_or_update key buff m ≡ some m'
      → find key m' ≡ some buff
  unfolding insert_or_update
  insert_or_update_self key buff m {m'} h = elim (Option-cases (find key m)) [
    | inl e ↦ find-insert_new key buff m e (ground arith)
    | inr (old, e) ↦ find-assign key buff old m e (ground arith)
  ]

  -- No other key changes.
  pub insert_or_update_other :
      (key j : K) (buff : Bytes) (m : Map) {m' : Map}
      → j ≢ key
      → insert_or_update key buff m ≡ some m'
      → find j m' ≡ find j m
  unfolding insert_or_update
  insert_or_update_other key j buff m {m'} other h = elim (Option-cases (find key m)) [
    | inl e ↦ find-insert_other key j buff m other (ground arith)
    | inr (old, e) ↦ find-assign_other key j buff m other (ground arith)
  ]

  -- It fails only where the insertion of a key that is missing fails, or the assignment to one that
  -- is there.
  pub insert_or_update_fails :
      (key : K) (buff : Bytes) (m : Map)
      → insert_or_update key buff m ≡ none
      → ((find key m ≡ none) × (insert key buff m ≡ none))
        ⊎ ((find key m ≢ none) × (assign key buff m ≡ none))
  unfolding insert_or_update
  insert_or_update_fails key buff m h = elim (Option-cases (find key m)) [
    | inl e ↦ inl (e, ground arith)
    | inr (old, e) ↦ inr ((λ absent. cc), ground arith)
  ]
