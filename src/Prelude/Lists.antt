-- ===== src/Prelude/Lists.antt =====
-- Arrays and strings as lists with native indices: slices, and writes of a block of elements.
use Prim.Native.Nat.{ℕ, zero, suc, ◌+◌, ◌-◌, ◌≤◌, min}
use mathlib.Core.Path.{◌≡◌, refl, sym, ap, ◌∙◌}
use mathlib.Core.List.{List, [], ◌∷◌, ◌++◌}
use mathlib.Core.Option.{Option, none, some}
use native.Mathlib.Omega.{arith}

module _ {ℓ} {A : Type ℓ} where
  abbrev pub length : List A → ℕ
  length [] = 0
  length (x ∷ xs) = suc (length xs)

  abbrev pub get_elem? : List A → ℕ → Option A
  get_elem? [] i = none
  get_elem? (x ∷ xs) zero = some x
  get_elem? (x ∷ xs) (suc i) = get_elem? xs i

  abbrev pub take : ℕ → List A → List A
  take zero xs = []
  take (suc n) [] = []
  take (suc n) (x ∷ xs) = x ∷ take n xs

  abbrev pub drop : ℕ → List A → List A
  drop zero xs = xs
  drop (suc n) [] = []
  drop (suc n) (x ∷ xs) = drop n xs

  abbrev pub replicate : ℕ → A → List A
  replicate zero a = []
  replicate (suc n) a = a ∷ replicate n a

  pub length-append : (xs ys : List A) → length (xs ++ ys) ≡ length xs + length ys
  length-append [] ys = omega arith
  length-append (x ∷ xs) ys = omega (arith, length-append xs ys)

  pub length-take : (n : ℕ) (xs : List A) → length (take n xs) ≡ min n (length xs)
  length-take zero xs = omega arith
  length-take (suc n) [] = omega arith
  length-take (suc n) (x ∷ xs) = omega (arith, length-take n xs)

  pub length-drop : (n : ℕ) (xs : List A) → length (drop n xs) ≡ length xs - n
  length-drop zero xs = omega arith
  length-drop (suc n) [] = omega arith
  length-drop (suc n) (x ∷ xs) = omega (arith, length-drop n xs)

  pub length-replicate : (n : ℕ) (a : A) → length (replicate n a) ≡ n
  length-replicate zero a = refl
  length-replicate (suc n) a = ap suc (length-replicate n a)

  pub take-append-drop : (n : ℕ) (xs : List A) → take n xs ++ drop n xs ≡ xs
  take-append-drop zero xs = refl
  take-append-drop (suc n) [] = refl
  take-append-drop (suc n) (x ∷ xs) = rw (take-append-drop n xs)

  pub take-append_length : (xs ys : List A) → take (length xs) (xs ++ ys) ≡ xs
  take-append_length [] ys = refl
  take-append_length (x ∷ xs) ys = rw (take-append_length xs ys)

  pub drop-append_length : (xs ys : List A) → drop (length xs) (xs ++ ys) ≡ ys
  drop-append_length [] ys = refl
  drop-append_length (x ∷ xs) ys = drop-append_length xs ys

  pub take_all : (n : ℕ) (xs : List A) → length xs ≤ n → take n xs ≡ xs
  take_all zero [] h = refl
  take_all zero (x ∷ xs) h = absurd (omega arith)
  take_all (suc n) [] h = refl
  take_all (suc n) (x ∷ xs) h = rw (take_all n xs (omega arith))

  pub drop_all : (n : ℕ) (xs : List A) → length xs ≤ n → drop n xs ≡ []
  drop_all zero [] h = refl
  drop_all zero (x ∷ xs) h = absurd (omega arith)
  drop_all (suc n) [] h = refl
  drop_all (suc n) (x ∷ xs) h = drop_all n xs (omega arith)

  pub take_eq : (m n : ℕ) (xs : List A) → m ≡ n → take m xs ≡ take n xs
  take_eq m n xs e = ap (λ k. take k xs) e

  pub drop_eq : (m n : ℕ) (xs : List A) → m ≡ n → drop m xs ≡ drop n xs
  drop_eq m n xs e = ap (λ k. drop k xs) e

  pub drop-drop : (m n : ℕ) (xs : List A) → drop n (drop m xs) ≡ drop (m + n) xs
  drop-drop zero n xs = drop_eq n (zero + n) xs (omega arith)
  drop-drop (suc m) n [] = drop_all n [] (omega arith) ∙ sym (drop_all (suc m + n) [] (omega arith))
  drop-drop (suc m) n (x ∷ xs) =
      drop-drop m n xs ∙ drop_eq (suc (m + n)) (suc m + n) (x ∷ xs) (omega arith)

  pub take-take : (m n : ℕ) (xs : List A) → m ≤ n → take m (take n xs) ≡ take m xs
  take-take zero n xs h = refl
  take-take (suc m) zero xs h = absurd (omega arith)
  take-take (suc m) (suc n) [] h = refl
  take-take (suc m) (suc n) (x ∷ xs) h = rw (take-take m n xs (omega arith))

  pub drop-take : (m n : ℕ) (xs : List A) → drop m (take n xs) ≡ take (n - m) (drop m xs)
  drop-take zero n xs = take_eq n (n - zero) xs (omega arith)
  drop-take (suc m) zero xs = sym (take_eq (zero - suc m) zero (drop (suc m) xs) (omega arith))
  drop-take (suc m) (suc n) [] = sym (take_all (suc n - suc m) [] (omega arith))
  drop-take (suc m) (suc n) (x ∷ xs) =
      drop-take m n xs ∙ take_eq (n - m) (suc n - suc m) (drop m xs) (omega arith)

  -- The elements from index `r` up to index `w`.
  abbrev pub slice : List A → ℕ → ℕ → List A
  slice mem r w = take (w - r) (drop r mem)

  -- `std::copy(xs.begin(), xs.end(), mem + i)`.
  abbrev pub overwrite : List A → ℕ → List A → List A
  overwrite mem zero xs = xs ++ drop (length xs) mem
  overwrite [] (suc i) xs = []
  overwrite (m ∷ mem) (suc i) xs = m ∷ overwrite mem i xs

  -- A write inside the array keeps its length.
  pub length-overwrite :
      (mem : List A) (i : ℕ) (xs : List A)
      → i + length xs ≤ length mem
      → length (overwrite mem i xs) ≡ length mem
  length-overwrite mem zero xs h =
      omega (arith, length-append xs (drop (length xs) mem), length-drop (length xs) mem)
  length-overwrite [] (suc i) xs h = absurd (omega arith)
  length-overwrite (m ∷ mem) (suc i) xs h = ap suc (length-overwrite mem i xs (omega arith))

  take-overwrite :
      (mem : List A) (w : ℕ) (xs : List A)
      → w ≤ length mem
      → take (w + length xs) (overwrite mem w xs) ≡ take w mem ++ xs
  take-overwrite mem zero xs h =
      take_eq (zero + length xs) (length xs) (overwrite mem zero xs) (omega arith)
      ∙ take-append_length xs (drop (length xs) mem)
  take-overwrite [] (suc w) xs h = absurd (omega arith)
  take-overwrite (m ∷ mem) (suc w) xs h =
      take_eq (suc w + length xs) (suc (w + length xs)) (overwrite (m ∷ mem) (suc w) xs)
        (omega arith)
      ∙ ap (λ l. m ∷ l) (take-overwrite mem w xs (omega arith))

  -- What is written stands at the place of the write.
  pub drop-overwrite :
      (mem : List A) (r : ℕ) (xs : List A)
      → r ≤ length mem
      → drop r (overwrite mem r xs) ≡ xs ++ drop (r + length xs) mem
  drop-overwrite mem zero xs h =
      ap (λ l. xs ++ l) (drop_eq (length xs) (zero + length xs) mem (omega arith))
  drop-overwrite [] (suc r) xs h = absurd (omega arith)
  drop-overwrite (m ∷ mem) (suc r) xs h =
      drop-overwrite mem r xs (omega arith)
      ∙ ap (λ l. xs ++ l)
          (drop_eq (suc (r + length xs)) (suc r + length xs) (m ∷ mem) (omega arith))

  -- Writing just past a slice extends it by what is written.
  pub slice-overwrite :
      (mem : List A) (r w : ℕ) (xs : List A)
      → r ≤ w
      → w ≤ length mem
      → slice (overwrite mem w xs) r (w + length xs) ≡ slice mem r w ++ xs
  slice-overwrite mem zero w xs h k =
      take_eq (w + length xs - zero) (w + length xs) (overwrite mem w xs) (omega arith)
      ∙ take-overwrite mem w xs k
      ∙ ap (λ l. l ++ xs) (take_eq w (w - zero) mem (omega arith))
  slice-overwrite mem (suc r) zero xs h k = absurd (omega arith)
  slice-overwrite [] (suc r) (suc w) xs h k = absurd (omega arith)
  slice-overwrite (m ∷ mem) (suc r) (suc w) xs h k =
      take_eq (suc w + length xs - suc r) (w + length xs - r) (drop r (overwrite mem w xs))
        (omega arith)
      ∙ slice-overwrite mem r w xs (omega arith) (omega arith)
      ∙ ap (λ l. l ++ xs) (take_eq (w - r) (suc w - suc r) (drop r mem) (omega arith))

  pub length-slice : (mem : List A) (r w : ℕ) → w ≤ length mem → length (slice mem r w) ≡ w - r
  length-slice mem r w h = omega (arith, length-take (w - r) (drop r mem), length-drop r mem)

  -- An array read whose index is known to be in range.
  abbrev pub get_or : List A → ℕ → A → A
  get_or [] i d = d
  get_or (x ∷ xs) zero d = x
  get_or (x ∷ xs) (suc i) d = get_or xs i d
