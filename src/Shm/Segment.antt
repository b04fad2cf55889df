-- ===== src/Shm/Segment.antt =====
-- How the classes of tornado/shm/container.hpp open or create the segment that holds their container.
-- `boost::interprocess` is a parameter.
use simplesvr.Prelude.{
  ℕ, ◌≡◌, ◌≢◌, refl, ◌∙◌, sym, ap, Option, none, some, arith, false, ◌==◌, if◌then◌else◌,
  Option-cases, inl, inr, Bytes, codes,
}
use simplesvr.Prelude.Partial.{◌>>=◌, >>=-eq-some}

-- Named segments with named objects of one type in them, and what the documentation says of the
-- operations on them. `size_of` is `open_only`, which throws where there is no such segment, with
-- `get_size`; `create` is `create_only`, which throws on an existing one; `construct` throws
-- `bad_alloc` where the segment has no room; `write` is a write through the pointer to an object,
-- for which the room has been allocated.
pub record Segments {ℓ} (V : Type ℓ) : Type (1 ⊔ ℓ) where
  pub Store : Type 0
  pub size_of : Bytes → Store → Option ℕ
  pub find : Bytes → Bytes → Store → Option V
  pub create : Bytes → ℕ → Store → Option Store
  pub construct : Bytes → Bytes → V → Store → Option Store
  pub write : Bytes → Bytes → V → Store → Store
  pub destroy : Bytes → Bytes → Store → Store
  pub remove : Bytes → Store → Store
  pub size_of-create :
      (name : Bytes) (size : ℕ) (s : Store) {s' : Store}
      → create name size s ≡ some s'
      → size_of name s' ≡ some size
  pub size_of-construct :
      (name object : Bytes) (v : V) (s : Store) {s' : Store}
      → construct name object v s ≡ some s'
      → size_of name s' ≡ size_of name s
  pub size_of-write :
      (name object : Bytes) (v : V) (s : Store)
      → size_of name (write name object v s) ≡ size_of name s
  pub find-construct :
      (name object : Bytes) (v : V) (s : Store) {size : ℕ} {s' : Store}
      → size_of name s ≡ some size
      → construct name object v s ≡ some s'
      → find name object s' ≡ some v
  pub find-construct_other :
      (name object other : Bytes) (v : V) (s : Store) {s' : Store}
      → other ≢ object
      → construct name object v s ≡ some s'
      → find name other s' ≡ find name other s
  pub find-write :
      (name object : Bytes) (v old : V) (s : Store)
      → find name object s ≡ some old
      → find name object (write name object v s) ≡ some v
  pub size_of-destroy :
      (name object : Bytes) (s : Store) → size_of name (destroy name object s) ≡ size_of name s
  pub find-destroy :
      (name object : Bytes) (s : Store) → find name object (destroy name object s) ≡ none
  pub size_of-remove : (name : Bytes) (s : Store) → size_of name (remove name s) ≡ none

module _ {ℓ} {V : Type ℓ} (m : Segments V) where
  open m use {
    Store, size_of, find, create, construct, write, destroy, remove, size_of-create,
    size_of-construct, size_of-write, find-construct, find-write, size_of-destroy, find-destroy,
    size_of-remove,
  }

  -- `assert( alloc_size &&  m_pSegment->get_size() == alloc_size )`.
  abbrev pub checked : ℕ → ℕ → V → Store → Option (V × Store)
  checked alloc_size size v s =
      if alloc_size == 0 then none else if size == alloc_size then some (v, s) else none

  -- The branch of a new segment: its container is constructed.
  unfoldable pub create_segment : Bytes → V → Bytes → ℕ → Store → Option (V × Store)
  create_segment object initial name alloc_size s = if alloc_size == 0 then none else (do
    s' ← create name alloc_size s
    s'' ← construct name object initial s'
    size ← size_of name s''
    checked alloc_size size initial s'')

  -- The constructors, which differ in the name of the object. `none` is a failed assertion, or an
  -- exception of `create_only` or `construct`.
  unfoldable pub attach : Bytes → V → Bytes → ℕ → Store → Option (V × Store)
  attach object initial name alloc_size s = elim (size_of name s) [
    | none ↦ create_segment object initial name alloc_size s
    | some size ↦ (do v ← find name object s; checked alloc_size size v s)
  ]

  abbrev pub shm_vector : V → Bytes → ℕ → Store → Option (V × Store)
  shm_vector = attach (codes "Vector")

  abbrev pub shm_set : V → Bytes → ℕ → Store → Option (V × Store)
  shm_set = attach (codes "Set")

  abbrev pub shm_map : V → Bytes → ℕ → Store → Option (V × Store)
  shm_map = attach (codes "Map")

  abbrev pub shm_multi_map : V → Bytes → ℕ → Store → Option (V × Store)
  shm_multi_map = attach (codes "MultiMap")

  -- `destroy` of the containers, and what the constructors and the destructor of `ShmRemove` do.
  abbrev pub destroy_container : Bytes → Bytes → Store → Store
  destroy_container object name s = destroy name object s

  abbrev pub shm_remove : Bytes → Store → Store
  shm_remove name s = remove name s

  -- Without a size nothing can be opened, not even a segment that exists: the default argument 0
  -- always fails an assertion.
  pub attach_unsized :
      (object : Bytes) (initial : V) (name : Bytes) (s : Store)
      → attach object initial name 0 s ≡ none
  unfolding attach create_segment
  attach_unsized object initial name s = elim (Option-cases (size_of name s)) [
    | inl e ↦ rw (e, attach)
    | inr (size, e) ↦ elim (Option-cases (find name object s)) [
      | inl f ↦ rw (e, attach, f)
      | inr (v, f) ↦ rw (e, attach, f)
    ]
  ]

  -- What a constructor leaves: a segment of the size, with the object in it.
  abbrev pub IsOpen : Bytes → Bytes → ℕ → V × Store → Type ℓ
  IsOpen object name n r = (size_of name r.1 ≡ some n) × (find name object r.1 ≡ some r.0) × (n ≢ 0)

  checked-some :
      (alloc_size size : ℕ) (v : V) (s : Store) {r : V × Store}
      → checked alloc_size size v s ≡ some r
      → (size ≡ alloc_size) × (alloc_size ≢ 0) × (r ≡ (v, s))
  checked-some alloc_size size v s {r} h = ground arith

  create_segment-IsOpen :
      (object : Bytes) (initial : V) (name : Bytes) (n : ℕ) (s : Store) {r : V × Store}
      → create_segment object initial name n s ≡ some r
      → IsOpen object name n r
  unfolding create_segment
  create_segment-IsOpen object initial name n s {r} h =
      let check : ℕ → Store → Option (V × Store) = λ size s''. checked n size initial s'' in
      let measure : Store → Option (V × Store) =
        λ s''. size_of name s'' >>= λ size. check size s'' in
      let fill : Store → Option (V × Store) = λ s'. construct name object initial s' >>= measure in
      let chain : (create name n s >>= fill) ≡ some r = ground arith in
      let (s', made, filled) = >>=-eq-some (create name n s) fill chain in
      let (s'', put, measured) = >>=-eq-some (construct name object initial s') measure filled in
      let (size, sized, done) = >>=-eq-some (size_of name s'') (λ k. check k s'') measured in
      let (same, positive, e) = checked-some n size initial s'' done in
      let present = find-construct name object initial s' (size_of-create name n s made) put in
      (
        ap (λ t. size_of name t.1) e ∙ sized ∙ ap some same,
        ap (λ t. find name object t.1) e ∙ present ∙ ap (λ t. some t.0) (sym e),
        positive,
      )

  pub attach-IsOpen :
      (object : Bytes) (initial : V) (name : Bytes) (n : ℕ) (s : Store) {r : V × Store}
      → attach object initial name n s ≡ some r
      → IsOpen object name n r
  unfolding attach
  attach-IsOpen object initial name n s {r} h = elim (Option-cases (size_of name s)) [
    | inl e ↦ create_segment-IsOpen object initial name n s (ground arith)
    | inr (size, e) ↦
        let check : V → Option (V × Store) = λ v. checked n size v s in
        let chain : (find name object s >>= check) ≡ some r = ground arith in
        let (v, found, done) = >>=-eq-some (find name object s) check chain in
        let (same, positive, e') = checked-some n size v s done in
        (
          ap (λ t. size_of name t.1) e' ∙ e ∙ ap some same,
          ap (λ t. find name object t.1) e' ∙ found ∙ ap (λ t. some t.0) (sym e'),
          positive,
        )
  ]

  -- A second process that opens a segment with the size that it was opened with gets what the first
  -- one has written, whatever it would have put into a new one.
  pub attach_shares :
      (object : Bytes) (first second w : V) (name : Bytes) (n : ℕ) (s : Store) {r : V × Store}
      → attach object first name n s ≡ some r
      → attach object second name n (write name object w r.1) ≡ some (w, write name object w r.1)
  unfolding attach
  attach_shares object first second w name n s {r} h =
      let (sized, present, positive) = attach-IsOpen object first name n s h in
      let size = size_of-write name object w r.1 ∙ sized in
      let found = find-write name object w r.0 r.1 present in
      rw (size, attach, found) (ground arith)

  -- The constructor on a segment that is open elsewhere with the same size.
  pub attach_open :
      (object : Bytes) (initial v : V) (name : Bytes) (n : ℕ) (s : Store)
      → size_of name s ≡ some n
      → find name object s ≡ some v
      → n ≢ 0
      → attach object initial name n s ≡ some (v, s)
  unfolding attach
  attach_open object initial v name n s sized present positive =
      rw (sized, attach, present) (ground arith)

  -- The constructor where there is no segment, and the new one has room for the container.
  pub attach_new :
      (object : Bytes) (initial : V) (name : Bytes) (n : ℕ) (s : Store) {s' s'' : Store}
      → size_of name s ≡ none
      → create name n s ≡ some s'
      → construct name object initial s' ≡ some s''
      → n ≢ 0
      → attach object initial name n s ≡ some (initial, s'')
  unfolding attach create_segment
  attach_new object initial name n s {s'} {s''} absent made put positive =
      let size = size_of-construct name object initial s' put ∙ size_of-create name n s made in
      let e : (n == 0) ≡ false = ground arith in
      rw (absent, attach, e, made, put, size) (ground arith)

  -- `destroy` leaves the segment: from then on every constructor fails, with whatever size. Once the
  -- segment itself is removed, as `ShmRemove` does, a constructor with a size that is not 0 makes a
  -- new container, where the segment can be created and has room for it.
  pub destroy_blocks :
      (object : Bytes) (initial fresh : V) (name : Bytes) (n again : ℕ) (s : Store) {r : V × Store}
      {s' s'' : Store}
      → attach object initial name n s ≡ some r
      → again ≢ 0
      → create name again (shm_remove name (destroy_container object name r.1)) ≡ some s'
      → construct name object fresh s' ≡ some s''
      → ((size : ℕ) → attach object fresh name size (destroy_container object name r.1) ≡ none)
        × (attach object fresh name again (shm_remove name (destroy_container object name r.1))
            ≡ some (fresh, s''))
  unfolding attach
  destroy_blocks object initial fresh name n again s {r} h positive made put =
      let (sized, _, _) = attach-IsOpen object initial name n s h in
      let size = size_of-destroy name object r.1 ∙ sized in
      let lost = find-destroy name object r.1 in
      let removed = size_of-remove name (destroy name object r.1) in
      (
        λ k. rw (size, attach, lost) refl,
        attach_new object fresh name again (shm_remove name (destroy name object r.1)) removed made
            put positive,
      )
