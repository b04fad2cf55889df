-- ===== src/Encoding/Base64/Faults.antt =====
-- The byte strings that the base64 encoders of tornado/util/comm.cpp cannot encode.
use simplesvr.Prelude.{
  ℕ, ◌+◌, ◌-◌, ◌*◌, ◌/◌, ◌%◌, ◌≤◌, ◌<◌, ◌≡◌, ◌↔◌, ◌⊎◌, ◌^◌, ap, refl, sym, ◌∙◌, inl, inr, Bool,
  true, false, [], ◌∷◌, Option, none, some, ltb, get_elem?, Bytes, arith, Bool-cases,
}
use simplesvr.Prelude.Int.{ℤ, pos, negsuc}
use simplesvr.Prelude.Partial.{All, ◌>>=◌, holds_below, holds_below-lt}
use simplesvr.Encoding.Base64.{
  alphabet, url_alphabet, or_shifted, element, pad, encode_base64_internal, encode_base64,
  encode_base64url,
}
use simplesvr.Encoding.Base64.RoundTrip.{
  IsEncodable, decode_base64-encode_base64, decode_base64url-encode_base64url,
}

is_negative : ℤ → Bool
is_negative (pos i) = false
is_negative (negsuc i) = true

element-negative : (basis : Bytes) (i : ℤ) → is_negative i ≡ true → element basis i ≡ none
unfolding is_negative
element-negative basis (pos i) h = absurd (ground arith)
element-negative basis (negsuc i) h = refl

-- The shifted characters from 128 on, with whatever bits they are joined to.
second_table :
    holds_below (λ a. holds_below (λ d. is_negative (or_shifted (a * 16) (128 + d) 4)) 128) 4 ≡ true
unfolding holds_below is_negative or_shifted
second_table = refl

third_table :
    holds_below (λ a. holds_below (λ d. is_negative (or_shifted (a * 4) (128 + d) 6)) 128) 16 ≡ true
unfolding holds_below is_negative or_shifted
third_table = refl

or_shifted_second :
    (a c : ℕ) → a < 4 → 128 ≤ c → c < 256 → is_negative (or_shifted (a * 16) c 4) ≡ true
or_shifted_second a c ha low high =
    let d : 128 + (c - 128) ≡ c = omega (arith, low) in
    ap (λ k. is_negative (or_shifted (a * 16) k 4)) (sym d)
    ∙ holds_below-lt (λ d. is_negative (or_shifted (a * 16) (128 + d) 4)) 128 (c - 128)
        (omega (arith, low, high))
        (holds_below-lt (λ a. holds_below (λ d. is_negative (or_shifted (a * 16) (128 + d) 4)) 128)
          4 a ha second_table)

or_shifted_third :
    (a c : ℕ) → a < 16 → 128 ≤ c → c < 256 → is_negative (or_shifted (a * 4) c 6) ≡ true
or_shifted_third a c ha low high =
    let d : 128 + (c - 128) ≡ c = omega (arith, low) in
    ap (λ k. is_negative (or_shifted (a * 4) k 6)) (sym d)
    ∙ holds_below-lt (λ d. is_negative (or_shifted (a * 4) (128 + d) 6)) 128 (c - 128)
        (omega (arith, low, high))
        (holds_below-lt (λ a. holds_below (λ d. is_negative (or_shifted (a * 4) (128 + d) 6)) 128)
          16 a ha third_table)

-- A round of the encoder fails where one of its lookups or the rest does.
round_fails :
    (c0 c1 c2 c3 : Option ℕ) (rest : Option Bytes)
    → ((c1 ≡ none) ⊎ ((c2 ≡ none) ⊎ (rest ≡ none)))
    → (do a0 ← c0; a1 ← c1; a2 ← c2; a3 ← c3; dst ← rest; some (a0 ∷ a1 ∷ a2 ∷ a3 ∷ dst)) ≡ none
round_fails none c1 c2 c3 rest h = refl
round_fails (some a0) none c2 c3 rest h = refl
round_fails (some a0) (some a1) none c3 rest h = refl
round_fails (some a0) (some a1) (some a2) none rest h = refl
round_fails (some a0) (some a1) (some a2) (some a3) none h = refl
round_fails (some a0) (some a1) (some a2) (some a3) (some dst) h = elim h [
  | inl e ↦ cc
  | inr (inl e) ↦ cc
  | inr (inr e) ↦ cc
]

last_fails :
    (c0 c1 c2 : Option ℕ) (padding : Bytes)
    → c1 ≡ none
    → (do a0 ← c0; a1 ← c1; a2 ← c2; some (a0 ∷ a1 ∷ a2 ∷ padding)) ≡ none
last_fails none c1 c2 padding h = refl
last_fails (some a0) none c2 padding h = refl
last_fails (some a0) (some a1) c2 padding h = cc

module _ (alpha : Bytes) (padding : Bool) where
  negative_second :
      (s0 s1 : ℕ)
      → s1 < 256
      → ltb s1 128 ≡ false
      → element alpha (or_shifted (s0 % 4 * 2 ^ 4) s1 4) ≡ none
  negative_second s0 s1 h e =
      element-negative alpha (or_shifted (s0 % 4 * 16) s1 4)
        (or_shifted_second (s0 % 4) s1 (omega arith) (ground arith) h)

  negative_third :
      (s1 s2 : ℕ)
      → s2 < 256
      → ltb s2 128 ≡ false
      → element alpha (or_shifted (s1 % 16 * 2 ^ 2) s2 6) ≡ none
  negative_third s1 s2 h e =
      element-negative alpha (or_shifted (s1 % 16 * 4) s2 6)
        (or_shifted_third (s1 % 16) s2 (omega arith) (ground arith) h)

  encode-none :
      (s : Bytes)
      → All (λ b. b < 256) s
      → ¬ (IsEncodable s)
      → encode_base64_internal alpha padding s ≡ none
  unfolding encode_base64_internal
  encode-none [] a h = absurd (h tt)
  encode-none (s0 ∷ []) a h = absurd (h a.0)
  encode-none (s0 ∷ s1 ∷ []) a h = elim (Bool-cases (ltb s1 128)) [
    | inl e ↦ absurd (h (a.0, ground arith))
    | inr e ↦
        last_fails (get_elem? alpha (s0 / 4 % 64)) (element alpha (or_shifted (s0 % 4 * 16) s1 4))
          (get_elem? alpha (s1 % 16 * 4)) (pad padding 1) (negative_second s0 s1 a.1.0 e)
  ]
  encode-none (s0 ∷ s1 ∷ s2 ∷ s) a h =
      round_fails (get_elem? alpha (s0 / 4 % 64)) (element alpha (or_shifted (s0 % 4 * 16) s1 4))
        (element alpha (or_shifted (s1 % 16 * 4) s2 6)) (get_elem? alpha (s2 % 64))
        (encode_base64_internal alpha padding s)
        (elim (Bool-cases (ltb s1 128)) [
          | inr e ↦ inl (negative_second s0 s1 a.1.0 e)
          | inl e ↦ elim (Bool-cases (ltb s2 128)) [
            | inr e' ↦ inr (inl (negative_third s1 s2 a.1.1.0 e'))
            | inl e' ↦
                inr (inr (encode-none s a.1.1.1 (λ r. h (a.0, ground arith, ground arith, r))))
          ]
        ])

-- What succeeds does not fail.
succeeds : {o : Option Bytes} {d : Bytes} → o ≡ some d → o ≡ none → ⊥
succeeds e e' = cc

-- Both encoders read outside their table exactly on the byte strings in which the second or the
-- third byte of a group of three is 128 or more.
pub encode_base64-out_of_bounds :
    (src : Bytes)
    → All (λ b. b < 256) src
    → ((encode_base64 src ≡ none) ↔ (¬ (IsEncodable src)))
      × ((encode_base64url src ≡ none) ↔ (¬ (IsEncodable src)))
unfolding encode_base64 encode_base64url
encode_base64-out_of_bounds src a = (
  (λ e h. succeeds (decode_base64-encode_base64 src h).1 e, λ h. encode-none alphabet true src a h),
  (
    λ e h. succeeds (decode_base64url-encode_base64url src h).1 e,
    λ h. encode-none url_alphabet false src a h,
  ),
)
