-- ===== src/Shm/StringMaps.antt =====
-- `StringShmMap` of tornado/shm/container.hpp as a finite map that several processes share.
use simplesvr.Prelude.{
  ℕ, ◌≡◌, ◌≢◌, ◌↔◌, refl, ap, ◌∙◌, Bool, true, List, [], ◌∷◌, Option, none, some, Bytes, codes,
  if◌then◌else◌, Bool-cases, Option-cases, inl, inr, ◌⊎◌, subst,
}
use simplesvr.Shm.Segment.{Segments}
use simplesvr.Shm.Maps.{
  OrderedMap, insert_or_update, insert_or_update_self, insert_or_update_other,
  insert_or_update_fails,
}
use simplesvr.Shm.Sessions.{run_calls, run_sessions, run_sessions_new}

pub data Op {ℓ} (K : Type ℓ) : Type ℓ where
  updates : K → Bytes → Op K
  finds erases : K → Op K

pub data Reply : Type 0 where
  updated out_of_memory : Reply
  found : Option Bytes → Reply
  erased : ℕ → Reply

-- The specification: one map, as a function of its keys.
module _ {ℓ} {K : Type ℓ} (same : K → K → Bool) where
  abbrev change : K → Option Bytes → (K → Option Bytes) → K → Option Bytes
  change key v f j = if same j key then v else f j

  abbrev occurrences : Option Bytes → ℕ
  occurrences none = 0
  occurrences (some v) = 1

  abbrev reply_of : Op K → (K → Option Bytes) → Reply
  reply_of (updates key buff) f = updated
  reply_of (finds key) f = found (f key)
  reply_of (erases key) f = erased (occurrences (f key))

  abbrev effect_of : Op K → (K → Option Bytes) → K → Option Bytes
  effect_of (updates key buff) f = change key (some buff) f
  effect_of (finds key) f = f
  effect_of (erases key) f = change key none f

module _ {ℓ} {K : Type ℓ} (t : OrderedMap K Bytes) where
  open t use {Map, empty_map, insert, assign, find-empty_map, find-erase, find-erase_other}

  -- `ShmMap::find` and `ShmMap::erase`, with `StringShmMap::insert_or_update`, whose exception the
  -- caller gets.
  unfoldable pub call : Op K → Map → Reply × Map
  call (updates key buff) v = elim (insert_or_update t key buff v) [
    | none ↦ (out_of_memory, v)
    | some v' ↦ (updated, v')
  ]
  call (finds key) v = (found (t.find key v), v)
  call (erases key) v = let (n, v') = t.erase key v in (erased n, v')

  -- The map answers as the function does.
  abbrev Means : (K → Option Bytes) → Map → Type ℓ
  Means f v = (key : K) → t.find key v ≡ f key

  -- An update that finds no room, in a map of these contents: for a new entry, or for the value of
  -- one that is there.
  pub record IsRefused (op : Op K) (f : K → Option Bytes) : Type ℓ where
    pub key : K
    pub buff : Bytes
    pub held : Map
    pub is_update : op ≡ updates key buff
    pub means : Means f held
    pub no_room :
        ((f key ≡ none) × (insert key buff held ≡ none))
        ⊎ ((f key ≢ none) × (assign key buff held ≡ none))

  module _ (same : K → K → Bool) (same_iff : (a b : K) → (same a b ≡ true) ↔ (a ≡ b)) where
    erased-occurrences :
        (key : K) (f : K → Option Bytes) (v : Map)
        → Means f v
        → (t.erase key v).0 ≡ occurrences same (f key)
    erased-occurrences key f v h =
        t.erased key v ∙ count_lem (t.find key v) ∙ ap (occurrences same) (h key)
      where
        count_lem :
            (o : Option Bytes) → elim o as (λ _. ℕ) [ none ↦ 0 | some w ↦ 1 ] ≡ occurrences same o
        count_lem none = refl
        count_lem (some w) = refl

    -- The replies of one map whose contents are `f` at first. An operation is answered from the
    -- contents, and changes them, or it is refused, and changes nothing.
    pub data Answers : List (Op K) → List Reply → (K → Option Bytes) → Type ℓ where
      done : {f : K → Option Bytes} → Answers [] [] f
      granted :
          {op : Op K} {ops : List (Op K)} {r : Reply} {rs : List Reply} {f : K → Option Bytes}
          → r ≡ reply_of same op f
          → Answers ops rs (effect_of same op f)
          → Answers (op ∷ ops) (r ∷ rs) f
      refused :
          {op : Op K} {ops : List (Op K)} {r : Reply} {rs : List Reply} {f : K → Option Bytes}
          → r ≡ out_of_memory
          → IsRefused op f
          → Answers ops rs f
          → Answers (op ∷ ops) (r ∷ rs) f

    -- What one call does.
    abbrev Outcome : Op K → (K → Option Bytes) → Reply × Map → Type ℓ
    Outcome op f r =
        ((r.0 ≡ reply_of same op f) × Means (effect_of same op f) r.1)
        ⊎ ((r.0 ≡ out_of_memory) × IsRefused op f × Means f r.1)

    updates-Outcome :
        (key : K) (buff : Bytes) (f : K → Option Bytes) (v : Map)
        → Means f v
        → Outcome (updates key buff) f (call (updates key buff) v)
    unfolding call
    updates-Outcome key buff f v h = elim (Option-cases (insert_or_update t key buff v)) [
      | inl e ↦
          let failure : IsRefused (updates key buff) f = record {
            key = key;
            buff = buff;
            held = v;
            is_update = refl;
            means = h;
            no_room =
                subst
                  (λ o.
                    ((o ≡ none) × (insert key buff v ≡ none))
                    ⊎ ((o ≢ none) × (assign key buff v ≡ none)))
                  (h key) (insert_or_update_fails t key buff v e);
          } in
          rw (e, call) (inr (refl, failure, h))
      | inr (v', e) ↦
          rw (e, call)
            (inl (
              refl,
              λ j. elim (Bool-cases (same j key)) [
                | inl p ↦ rw (p, (same_iff j key).0 p) (insert_or_update_self t key buff v e)
                | inr p ↦
                    rw p (
                      insert_or_update_other t key j buff v (λ q. cc ((same_iff j key).1 q)) e
                      ∙ h j)
              ],
            ))
    ]

    call-Outcome :
        (op : Op K) (f : K → Option Bytes) (v : Map) → Means f v → Outcome op f (call op v)
    unfolding call
    call-Outcome (finds key) f v h = inl (ap found (h key), h)
    call-Outcome (erases key) f v h = inl (
      ap erased (erased-occurrences key f v h),
      λ j. elim (Bool-cases (same j key)) [
        | inl e ↦ rw (e, (same_iff j key).0 e) (find-erase key v)
        | inr e ↦ rw e (find-erase_other key j v (λ p. cc ((same_iff j key).1 p)) ∙ h j)
      ],
    )
    call-Outcome (updates key buff) f v h = updates-Outcome key buff f v h

    run_calls-Answers :
        (ops : List (Op K)) (f : K → Option Bytes) (v : Map)
        → Means f v
        → Answers ops (run_calls call ops v) f
    unfolding run_calls
    run_calls-Answers [] f v h = done
    run_calls-Answers (op ∷ ops) f v h = elim (call-Outcome op f v h) [
      | inl (reply, means) ↦
          granted reply (run_calls-Answers ops (effect_of same op f) (call op v).1 means)
      | inr (reply, no_room, means) ↦
          refused reply no_room (run_calls-Answers ops f (call op v).1 means)
    ]

    -- Processes that use one map in turn, each with the same size, which is not 0, where the segment
    -- can be created by the first, with room for the empty map: no assertion fails, and they are
    -- answered as by one map that is empty at first, in which `insert_or_update` sets the value of a
    -- key, `find` reads it, and `erase` takes it out and returns the number of values that went.
    -- Only an `insert_or_update` may be refused: where a map of the contents at that time has no
    -- room, to insert the key if it is missing or to assign to it if it is there; it changes nothing
    -- then.
    pub run_sessions-replies :
        (m : Segments Map) (name : Bytes) (n : ℕ) (op : Op K) (ops : List (Op K)) (s : m.Store)
        {s0 s1 : m.Store}
        → m.size_of name s ≡ none
        → m.create name n s ≡ some s0
        → m.construct name (codes "Map") empty_map s0 ≡ some s1
        → n ≢ 0
        → (rs : List Reply) × (s' : m.Store) × (run_sessions m
              (codes "Map")
              empty_map
              call
              name
              n
              (op ∷ ops)
              s
            ≡ some (rs, s'))
          × Answers (op ∷ ops) rs (λ key. none)
    run_sessions-replies m name n op ops s absent made put positive =
        let (s', answered) =
          run_sessions_new m (codes "Map") empty_map call name n op ops s absent made put
            positive in
        (
          run_calls call (op ∷ ops) empty_map,
          s',
          answered,
          run_calls-Answers (op ∷ ops) (λ key. none) empty_map find-empty_map,
        )
