-- ===== src/Shm/Memory.antt =====
-- Segments as a function of their names, in place of those of `boost::interprocess` that
-- tornado/shm/container.hpp opens: they show that what is asked of them can be had.
use simplesvr.Prelude.{
  ℕ, ◌≡◌, refl, sym, ap, ◌∙◌, true, Option, none, some, arith, if◌then◌else◌, Bytes, bytes_eq,
  bytes_eq_iff, Option-cases, Bool-cases, ◌≢◌, inl, inr,
}
use simplesvr.Shm.Segment.{Segments}

-- A segment has a size and, by name, its objects.
pub record Held (V : Type 0) : Type 0 where
  pub size : ℕ
  pub objects : Bytes → Option V

abbrev pub Names : Type 0 → Type 0
Names V = Bytes → Option (Held V)

-- A write to one place of a function.
abbrev pub at : {A : Type 0} → Bytes → A → (Bytes → A) → Bytes → A
at name v f j = if bytes_eq j name then v else f j

abbrev pub size_of : {V : Type 0} → Bytes → Names V → Option ℕ
size_of name s = elim (s name) [ none ↦ none | some g ↦ some g.size ]

abbrev pub find : {V : Type 0} → Bytes → Bytes → Names V → Option V
find name object s = elim (s name) [ none ↦ none | some g ↦ g.objects object ]

abbrev pub create : {V : Type 0} → Bytes → ℕ → Names V → Option (Names V)
create name size s = elim (s name) [
  | none ↦ some (at name (some (record { size = size; objects = λ object. none })) s)
  | some g ↦ none
]

-- Both `construct` and a write through the pointer set the object, where there is a segment.
abbrev pub put : {V : Type 0} → Bytes → Bytes → V → Names V → Names V
put name object v s = elim (s name) [
  | none ↦ s
  | some g ↦ at name (some (record g { objects = at object (some v) g.objects })) s
]

abbrev pub destroy : {V : Type 0} → Bytes → Bytes → Names V → Names V
destroy name object s = elim (s name) [
  | none ↦ s
  | some g ↦ at name (some (record g { objects = at object none g.objects })) s
]

same : (name : Bytes) → bytes_eq name name ≡ true
same name = (bytes_eq_iff name name).1 refl

at_same : {A : Type 0} (name : Bytes) (v : A) (f : Bytes → A) → at name v f name ≡ v
at_same name v f = rw (same name) refl

module _ {V : Type 0} where
  -- What is in a new segment's place.
  size_after : Bytes → Option (Names V) → Option ℕ
  size_after name none = none
  size_after name (some s) = size_of name s

  size_after-create :
      (name : Bytes) (size : ℕ) (s : Names V)
      → s name ≡ none
      → size_after name (create name size s) ≡ some size
  unfolding size_after
  size_after-create name size s e = ground (arith, same name)

  create_old :
      (name : Bytes) (size : ℕ) (s : Names V) (g : Held V)
      → s name ≡ some g
      → create name size s ≡ none
  create_old name size s g e = ground arith

  impossible : {s' : Names V} {P : Type 0} → none ≡ some s' → P
  impossible h = cc

  pub size_of-create :
      (name : Bytes) (size : ℕ) (s : Names V) {s' : Names V}
      → create name size s ≡ some s'
      → size_of name s' ≡ some size
  unfolding size_after
  size_of-create name size s {s'} h = elim (Option-cases (s name)) [
    | inl e ↦ ap (size_after name) (sym h) ∙ size_after-create name size s e
    | inr (g, e) ↦ impossible (sym (create_old name size s g e) ∙ h)
  ]

  pub size_of-put :
      (name object : Bytes) (v : V) (s : Names V)
      → size_of name (put name object v s) ≡ size_of name s
  size_of-put name object v s = ground (arith, same name)

  pub find-put :
      (name object : Bytes) (v : V) (s : Names V) {size : ℕ}
      → size_of name s ≡ some size
      → find name object (put name object v s) ≡ some v
  find-put name object v s {size} h = ground (arith, same name, same object)

  pub find-put_other :
      (name object other : Bytes) (v : V) (s : Names V)
      → other ≢ object
      → find name other (put name object v s) ≡ find name other s
  find-put_other name object other v s h = elim (Bool-cases (bytes_eq other object)) [
    | inl e ↦ absurd (h ((bytes_eq_iff other object).0 e))
    | inr e ↦ ground (arith, same name, e)
  ]

  find_after : Bytes → Bytes → Option (Names V) → Option V
  find_after name object none = none
  find_after name object (some s) = find name object s

  -- The laws of `construct`, which always has room here.
  pub constructed_size :
      (name object : Bytes) (v : V) (s : Names V) {s' : Names V}
      → some (put name object v s) ≡ some s'
      → size_of name s' ≡ size_of name s
  unfolding size_after
  constructed_size name object v s h = ap (size_after name) (sym h) ∙ size_of-put name object v s

  pub constructed :
      (name object : Bytes) (v : V) (s : Names V) {size : ℕ} {s' : Names V}
      → size_of name s ≡ some size
      → some (put name object v s) ≡ some s'
      → find name object s' ≡ some v
  unfolding find_after
  constructed name object v s e h = ap (find_after name object) (sym h) ∙ find-put name object v s e

  pub constructed_other :
      (name object other : Bytes) (v : V) (s : Names V) {s' : Names V}
      → other ≢ object
      → some (put name object v s) ≡ some s'
      → find name other s' ≡ find name other s
  unfolding find_after
  constructed_other name object other v s e h =
      ap (find_after name other) (sym h) ∙ find-put_other name object other v s e

  pub find-rewrite :
      (name object : Bytes) (v old : V) (s : Names V)
      → find name object s ≡ some old
      → find name object (put name object v s) ≡ some v
  find-rewrite name object v old s h = ground (arith, same name, same object)

  pub size_of-destroy :
      (name object : Bytes) (s : Names V) → size_of name (destroy name object s) ≡ size_of name s
  size_of-destroy name object s = ground (arith, same name)

  pub find-destroy :
      (name object : Bytes) (s : Names V) → find name object (destroy name object s) ≡ none
  find-destroy name object s = ground (arith, same name, same object)

  pub size_of-remove : (name : Bytes) (s : Names V) → size_of name (at name none s) ≡ none
  size_of-remove name s =
      ap (λ g. elim g as (λ _. Option ℕ) [ none ↦ none | some h ↦ some h.size ])
        (at_same name none s)

abbrev pub named_segments : {V : Type 0} → Segments V
named_segments {V} = record {
  Store = Names V;
  size_of = size_of;
  find = find;
  create = create;
  construct = λ name object v s. some (put name object v s);
  write = put;
  destroy = destroy;
  remove = λ name s. at name none s;
  size_of-create = size_of-create;
  size_of-construct = constructed_size;
  size_of-write = size_of-put;
  find-construct = constructed;
  find-construct_other = constructed_other;
  find-write = find-rewrite;
  size_of-destroy = size_of-destroy;
  find-destroy = find-destroy;
  size_of-remove = size_of-remove;
}
