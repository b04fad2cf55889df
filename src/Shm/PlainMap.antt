-- ===== src/Shm/PlainMap.antt =====
-- A map as a function of its keys, in place of `boost::interprocess::map` that
-- tornado/shm/container.hpp uses: it shows that what is asked of it can be had.
use simplesvr.Prelude.{
  ℕ, ◌≡◌, ◌≢◌, leb, length, arith, refl, ap, sym, ◌∙◌, Option, none, some, if◌then◌else◌, Bytes,
  bytes_eq, bytes_eq_iff, inl, inr, Bool-cases, Option-cases,
}
use simplesvr.Shm.Maps.{OrderedMap}

abbrev pub Plain : Type 0
Plain = Bytes → Option Bytes

abbrev pub place : Bytes → Option Bytes → Plain → Plain
place key v m j = if bytes_eq j key then v else m j

abbrev pub keep_or_place : Bytes → Bytes → Plain → Plain
keep_or_place key v m = elim (m key) [ none ↦ place key (some v) m | some old ↦ m ]

abbrev pub count : Option Bytes → ℕ
count none = 0
count (some v) = 1

pub place_same : (key : Bytes) (v : Option Bytes) (m : Plain) → place key v m key ≡ v
place_same key v m = rw ((bytes_eq_iff key key).1 refl) refl

pub place_other : (key j : Bytes) (v : Option Bytes) (m : Plain) → j ≢ key → place key v m j ≡ m j
place_other key j v m h = elim (Bool-cases (bytes_eq j key)) [
  | inl e ↦ absurd (h ((bytes_eq_iff j key).0 e))
  | inr e ↦ rw e refl
]

pub insert_new : (key v : Bytes) (m : Plain) → m key ≡ none → keep_or_place key v m key ≡ some v
insert_new key v m e = rw (e, keep_or_place) (place_same key (some v) m)

pub insert_other : (key j v : Bytes) (m : Plain) → j ≢ key → keep_or_place key v m j ≡ m j
insert_other key j v m h = elim (Option-cases (m key)) [
  | inl e ↦ rw (e, keep_or_place) (place_other key j (some v) m h)
  | inr (old, e) ↦ rw (e, keep_or_place) refl
]

-- There is room for values of eight bytes at most.
unfoldable pub where_room : Bytes → Plain → Option Plain
where_room v m = if leb (length v) 8 then some m else none

pub room-place : (j v : Bytes) (m : Plain) {m' : Plain} → where_room v m ≡ some m' → m' j ≡ m j
unfolding where_room
room-place j v m {m'} h = elim (Bool-cases (leb (length v) 8)) [
  | inl e ↦
      let same : some m ≡ some m' = ground arith in
      ap (λ o. elim o as (λ _. Option Bytes) [ none ↦ m j | some f ↦ f j ]) (sym same)
  | inr e ↦ absurd (ground arith)
]

abbrev pub plain_map : OrderedMap Bytes Bytes
plain_map = record {
  Map = Plain;
  empty_map = λ key. none;
  find = λ key m. m key;
  insert = λ key v m. where_room v (keep_or_place key v m);
  assign = λ key v m. where_room v (place key (some v) m);
  erase = λ key m. (count (m key), place key none m);
  find-empty_map = λ key. refl;
  find-insert_new =
      λ key v m e h. room-place key v (keep_or_place key v m) h ∙ insert_new key v m e;
  find-assign =
      λ key v old m e h. room-place key v (place key (some v) m) h ∙ place_same key (some v) m;
  find-insert_other =
      λ key j v m other h. room-place j v (keep_or_place key v m) h ∙ insert_other key j v m other;
  find-assign_other = λ key j v m other h.
      room-place j v (place key (some v) m) h ∙ place_other key j (some v) m other;
  find-erase = λ key m. place_same key none m;
  find-erase_other = λ key j m h. place_other key j none m h;
  erased = λ key m. elim (m key) as (λ o. count o ≡ elim o [ none ↦ 0 | some v ↦ 1 ]) [
    | none ↦ refl
    | some v ↦ refl
  ];
}
