-- ===== src/Buffer/Search.antt =====
-- `Buffer::find` of tornado/Buffer.cpp against the occurrences of the delimiter.
use simplesvr.Prelude.{
  ◌+◌, ℕ, zero, suc, ◌≤◌, ◌<◌, ◌≡◌, refl, inl, inr, ap, true, [], ◌∷◌, arith, length, take, drop,
  Bytes, ◌≢◌, some, Bool-cases, length-take, length-drop,
}
use simplesvr.Buffer.{Buffer, contents, is_prefix, search, find}

-- The delimiter stands at offset `i`.
abbrev pub Occurs : Bytes → Bytes → ℕ → Type 0
Occurs d xs i = take (length d) (drop i xs) ≡ d

take-is_prefix : (d xs : Bytes) → is_prefix d xs ≡ true → take (length d) xs ≡ d
take-is_prefix [] xs h = refl
take-is_prefix (y ∷ d) [] h = ground arith
take-is_prefix (y ∷ d) (x ∷ xs) h = ground (arith, take-is_prefix d xs)

is_prefix-take : (d xs : Bytes) → take (length d) xs ≡ d → is_prefix d xs ≡ true
is_prefix-take [] xs h = refl
is_prefix-take (y ∷ d) [] h = ground arith
is_prefix-take (y ∷ d) (x ∷ xs) h = ground (arith, is_prefix-take d xs)

pub search-le : (xs d : Bytes) → search xs d ≤ length xs
unfolding search
search-le [] d = omega arith
search-le (x ∷ xs) d = ground (arith, search-le xs d)

search-Occurs : (xs d : Bytes) → search xs d ≢ length xs → Occurs d xs (search xs d)
unfolding search
search-Occurs [] d h = absurd (h refl)
search-Occurs (x ∷ xs) d h = elim (Bool-cases (is_prefix d (x ∷ xs))) [
  | inl e ↦ rw e (take-is_prefix d (x ∷ xs) e)
  | inr e ↦ rw e (search-Occurs xs d (λ same. h (rw e (ap suc same))))
]

search-least : (xs d : Bytes) (j : ℕ) → Occurs d xs j → j < length xs → search xs d ≤ j
unfolding search
search-least [] d j o h = absurd (omega arith)
search-least (x ∷ xs) d zero o h = rw (is_prefix-take d (x ∷ xs) o) (omega arith)
search-least (x ∷ xs) d (suc j) o h = ground (arith, search-least xs d j o)

-- Where `find` returns an index, the delimiter stands there in the content, and the index is within
-- the content.
pub find-Occurs :
    (b : Buffer) (d : Bytes) {i : ℕ}
    → find b d ≡ some i
    → Occurs d (contents b) i × (i < length (contents b))
unfolding find
find-Occurs b d h = ground (arith, search-Occurs (contents b) d, search-le (contents b) d)

pub Occurs-le : (xs d : Bytes) (j : ℕ) → d ≢ [] → Occurs d xs j → j + length d ≤ length xs
Occurs-le xs [] j h o = absurd (h refl)
Occurs-le xs (c ∷ d) j h o =
    omega (arith, ap length o, length-take (suc (length d)) (drop j xs), length-drop j xs)

lt_of_Occurs : (xs d : Bytes) (j : ℕ) → d ≢ [] → Occurs d xs j → j < length xs
lt_of_Occurs xs [] j h o = absurd (h refl)
lt_of_Occurs xs (c ∷ d) j h o = omega (arith, Occurs-le xs (c ∷ d) j h o)

-- A delimiter that is not empty and stands anywhere in the content is found, at or before that
-- place, and it stands where it is found.
pub find_first :
    (b : Buffer) (d : Bytes) (j : ℕ)
    → d ≢ []
    → Occurs d (contents b) j
    → (i : ℕ) × (find b d ≡ some i) × (i ≤ j) × Occurs d (contents b) i
unfolding find
find_first b d j h o = (search (contents b) d, found, least, occurs)
  where
    inside : j < length (contents b)
    inside = lt_of_Occurs (contents b) d j h o

    least : search (contents b) d ≤ j
    least = search-least (contents b) d j o inside

    occurs : Occurs d (contents b) (search (contents b) d)
    occurs = search-Occurs (contents b) d (λ e. omega (arith, inside, least, e))

    found : find b d ≡ some (search (contents b) d)
    found = ground (arith, inside, least)
