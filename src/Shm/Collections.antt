-- ===== src/Shm/Collections.antt =====
-- `StringShmVector`, `StringShmSet` and `ShmMultiMap` of tornado/shm/container.hpp, by what a call does to
-- the container behind the pointer, and how `ShmRemove` and `destroy` end a segment.
use simplesvr.Prelude.{
  ℕ, ◌≡◌, ◌≢◌, ◌↔◌, refl, ap, ◌∙◌, Bool, true, List, [], ◌∷◌, ◌++◌, Option, none, some, length,
  Bytes, if◌then◌else◌, Bool-cases, Option-cases, ◌⊎◌, inl, inr,
}
use simplesvr.Shm.Maps.{OrderedMap}

-- `StringShmVector::push_back`, and a look at the vector by `get_vecotr`.
pub data VectorOp : Type 0 where
  pushes : Bytes → VectorOp
  looks : VectorOp

pub data VectorReply : Type 0 where
  pushed full : VectorReply
  saw : List Bytes → VectorReply

-- Whether the segment has room for one more string behind those of the vector is a parameter: where
-- it has none, `boost::interprocess` throws and the vector is as it was.
module _ (has_room : Bytes → List Bytes → Bool) where
  -- `none` is the exception.
  unfoldable pub push_back : Bytes → List Bytes → Option (List Bytes)
  push_back buff v = if has_room buff v then some (v ++ (buff ∷ [])) else none

  unfoldable pub vector_call : VectorOp → List Bytes → VectorReply × List Bytes
  vector_call (pushes buff) v = elim (push_back buff v) [
    | none ↦ (full, v)
    | some v' ↦ (pushed, v')
  ]
  vector_call looks v = (saw v, v)

-- A set is a map whose entries carry nothing.
module _ {ℓ} {K : Type ℓ} (t : OrderedMap K (Unit {0})) where
  open t use {Map, insert}

  -- `StringShmSet::insert`: a key that is there stays.
  unfoldable pub insert_key : K → Map → Option Map
  insert_key key v = insert key tt v

  -- `ShmSet::find`: the key in the set, or a null pointer.
  unfoldable pub find_key : K → Map → Option K
  find_key key v = elim (t.find key v) [ none ↦ none | some u ↦ some key ]

  -- `ShmSet::erase`.
  unfoldable pub erase_key : K → Map → ℕ × Map
  erase_key key v = t.erase key v

-- The operations of `boost::interprocess::multimap` that are called, and what its documentation says of
-- them: the values of a key stand in the order of their insertion. `none` is the exception of a
-- segment that has no room, which leaves the map as it was.
pub record OrderedMultiMap {ℓ κ} (K : Type ℓ) (V : Type κ) : Type (1 ⊔ ℓ ⊔ κ) where
  pub MultiMap : Type 0
  pub empty_multi_map : MultiMap
  pub values : K → MultiMap → List V
  pub insert : K → V → MultiMap → Option MultiMap
  pub erase : K → MultiMap → ℕ × MultiMap
  pub values-empty : (key : K) → values key empty_multi_map ≡ []
  pub values-insert :
      (key : K) (v : V) (m : MultiMap) {m' : MultiMap}
      → insert key v m ≡ some m'
      → values key m' ≡ values key m ++ (v ∷ [])
  pub values-insert_other :
      (key j : K) (v : V) (m : MultiMap) {m' : MultiMap}
      → j ≢ key
      → insert key v m ≡ some m'
      → values j m' ≡ values j m
  pub erased : (key : K) (m : MultiMap) → (erase key m).0 ≡ length (values key m)
  pub values-erase : (key : K) (m : MultiMap) → values key (erase key m).1 ≡ []
  pub values-erase_other :
      (key j : K) (m : MultiMap) → j ≢ key → values j (erase key m).1 ≡ values j m

pub data Op {ℓ κ} (K : Type ℓ) (V : Type κ) : Type (ℓ ⊔ κ) where
  inserts : K → V → Op K V
  looks_up erases : K → Op K V

pub data Reply {κ} (V : Type κ) : Type κ where
  inserted out_of_memory : Reply V
  holds : List V → Reply V
  erased : ℕ → Reply V

-- The specification: the values of each key.
module _ {ℓ κ} {K : Type ℓ} {V : Type κ} (same : K → K → Bool) where
  abbrev change : K → List V → (K → List V) → K → List V
  change key vs f j = if same j key then vs else f j

  abbrev reply_of : Op K V → (K → List V) → Reply V
  reply_of (inserts key v) f = inserted
  reply_of (looks_up key) f = holds (f key)
  reply_of (erases key) f = erased (length (f key))

  abbrev effect_of : Op K V → (K → List V) → K → List V
  effect_of (inserts key v) f = change key (f key ++ (v ∷ [])) f
  effect_of (looks_up key) f = f
  effect_of (erases key) f = change key [] f

module _ {ℓ κ} {K : Type ℓ} {V : Type κ} (t : OrderedMultiMap K V) where
  open t use {
    MultiMap, values, values-insert, values-insert_other, values-erase, values-erase_other,
  }

  -- `ShmMultiMap::insert` and `ShmMultiMap::erase`, and a look at the map by `get_map`.
  unfoldable pub multi_map_call : Op K V → MultiMap → Reply V × MultiMap
  multi_map_call (inserts key v) m = elim (t.insert key v m) [
    | none ↦ (out_of_memory, m)
    | some m' ↦ (inserted, m')
  ]
  multi_map_call (looks_up key) m = (holds (values key m), m)
  multi_map_call (erases key) m = let (n, m') = t.erase key m in (erased n, m')

  abbrev Means : (K → List V) → MultiMap → Type (ℓ ⊔ κ)
  Means f m = (key : K) → values key m ≡ f key

  module _ (same : K → K → Bool) (same_iff : (a b : K) → (same a b ≡ true) ↔ (a ≡ b)) where
    -- The answer of the specification, or an insertion that finds no room and changes nothing.
    abbrev Outcome : Op K V → (K → List V) → MultiMap → Reply V × MultiMap → Type (ℓ ⊔ κ)
    Outcome op f m r =
        ((r.0 ≡ reply_of same op f) × Means (effect_of same op f) r.1)
        ⊎ ((key : K) × (v : V) × (op ≡ inserts key v)
            × (t.insert key v m ≡ none)
            × (r ≡ (out_of_memory, m)))

    inserts-Outcome :
        (key : K) (v : V) (f : K → List V) (m : MultiMap)
        → Means f m
        → Outcome (inserts key v) f m (multi_map_call (inserts key v) m)
    unfolding multi_map_call
    inserts-Outcome key v f m h = elim (Option-cases (t.insert key v m)) [
      | inl e ↦ rw (e, multi_map_call) (inr (key, v, refl, e, refl))
      | inr (m', e) ↦
          rw (e, multi_map_call)
            (inl (
              refl,
              λ j. elim (Bool-cases (same j key)) [
                | inl p ↦
                    rw (p, (same_iff j key).0 p)
                      (values-insert key v m e ∙ ap (λ l. l ++ (v ∷ [])) (h key))
                | inr p ↦
                    rw p (values-insert_other key j v m (λ q. cc ((same_iff j key).1 q)) e ∙ h j)
              ],
            ))
    ]

    -- A key has the values that were inserted for it since it was erased last, in their order, and
    -- `erase` returns their number; an insertion may be refused where there is no room.
    pub multi_map_call-Outcome :
        (op : Op K V) (f : K → List V) (m : MultiMap)
        → Means f m
        → Outcome op f m (multi_map_call op m)
    unfolding multi_map_call
    multi_map_call-Outcome (looks_up key) f m h = inl (ap holds (h key), h)
    multi_map_call-Outcome (erases key) f m h = inl (
      ap erased (t.erased key m ∙ ap length (h key)),
      λ j. elim (Bool-cases (same j key)) [
        | inl e ↦ rw (e, (same_iff j key).0 e) (values-erase key m)
        | inr e ↦ rw e (values-erase_other key j m (λ p. cc ((same_iff j key).1 p)) ∙ h j)
      ],
    )
    multi_map_call-Outcome (inserts key v) f m h = inserts-Outcome key v f m h
