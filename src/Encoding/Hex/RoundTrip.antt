-- ===== src/Encoding/Hex/RoundTrip.antt =====
-- What the hexadecimal functions of tornado/util/comm.cpp give back, and where they leave the
-- caller's buffer.
use simplesvr.Prelude.{
  ℕ, ◌-◌, ◌*◌, ◌/◌, ◌%◌, ◌^◌, ◌<◌, ◌≤◌, ◌≡◌, refl, ap, Bool, true, false, [], ◌∷◌, Option, none,
  some, leb, ◌==◌, if◌then◌else◌, length, Bytes, arith, ==_iff, ◌⊎◌, ◌&&◌, ◌||◌,
}
use simplesvr.Prelude.Partial.{All, holds_below, holds_below-lt}
use simplesvr.Encoding.Hex.{
  high_digit, low_digit, hex, out_of_bounds, wrote, hex_to_buff, decode_pair, unhex_loop, unhex,
  unhex_to_buff,
}

-- A value of `char` read as a byte.
abbrev pub IsByte : ℕ → Type 0
IsByte c = c < 256

pub length-hex : (s : Bytes) → length (hex s) ≡ 2 * length s
unfolding hex
length-hex [] = refl
length-hex (c ∷ s) = omega (arith, length-hex s)

-- The result of a decoder is the value `c`.
gives : ℕ → Option ℕ → Bool
gives c none = false
gives c (some v) = v == c

gives-some : (c : ℕ) (o : Option ℕ) → gives c o ≡ true → o ≡ some c
unfolding gives
gives-some c none h = cc
gives-some c (some v) h = ap some ((==_iff v c).0 h)

decodes_table : holds_below (λ c. gives c (decode_pair (high_digit c) (low_digit c))) 256 ≡ true
unfolding holds_below gives decode_pair high_digit low_digit
decodes_table = refl

decode_pair-digits : (c : ℕ) → c < 256 → decode_pair (high_digit c) (low_digit c) ≡ some c
decode_pair-digits c h = gives-some c _ (holds_below-lt _ 256 c h decodes_table)

unhex_loop-hex : (s : Bytes) → All IsByte s → unhex_loop (hex s) ≡ wrote s
unfolding unhex_loop hex
unhex_loop-hex [] h = refl
unhex_loop-hex (c ∷ s) h = ground (arith, decode_pair-digits c h.0, unhex_loop-hex s h.1)

-- Decoding what was encoded from bytes gives the bytes back, in the version that returns a string
-- and in the one with a buffer of exact size.
pub unhex-hex :
    (s : Bytes)
    → All IsByte s
    → (unhex (hex s) ≡ wrote s) × (unhex_to_buff (hex s) (length s) ≡ wrote s)
unfolding unhex unhex_to_buff
unhex-hex s h = ground (arith, length-hex s, unhex_loop-hex s h)

-- The guard of the version of `hex` with a buffer, smaller than 2 ^ 63, admits buffers of less than
-- two characters a byte, if they have at least half as many characters as the input has bytes: it
-- then writes beyond the buffer.
pub hex_to_buff-out_of_bounds :
    (s : Bytes) (size : ℕ)
    → size < 2 ^ 63
    → length s ≤ size * 2
    → size < 2 * length s
    → hex_to_buff s size ≡ out_of_bounds
unfolding hex_to_buff
hex_to_buff-out_of_bounds s size small h k = ground (arith, length-hex s)

-- With room for two characters a byte, in a buffer smaller than 2 ^ 63, the version of `hex` with a
-- buffer writes what the version that returns a string returns.
pub hex_to_buff-wrote :
    (s : Bytes) (size : ℕ)
    → size < 2 ^ 63
    → 2 * length s ≤ size
    → hex_to_buff s size ≡ wrote (hex s)
unfolding hex_to_buff
hex_to_buff-wrote s size small h = ground (arith, length-hex s)

-- A character of `upper_hex`.
abbrev pub IsUpperHex : ℕ → Type 0
IsUpperHex c = ((b'0' ≤ c) × (c ≤ b'9')) ⊎ ((b'A' ≤ c) × (c ≤ b'F'))

is_upper_hex : ℕ → Bool
is_upper_hex c = (leb b'0' c && leb c b'9') || (leb b'A' c && leb c b'F')

is_upper_hex-true : (c : ℕ) → IsUpperHex c → is_upper_hex c ≡ true
unfolding is_upper_hex
is_upper_hex-true c h = ground arith

-- The result of a decoder is a value with the digits `c` and `d`.
has_digits : ℕ → ℕ → Option ℕ → Bool
has_digits c d none = false
has_digits c d (some v) = high_digit v == c && low_digit v == d

has_digits-some :
    (c d : ℕ) (o : Option ℕ)
    → has_digits c d o ≡ true
    → (v : ℕ) × (o ≡ some v) × (high_digit v ≡ c) × (low_digit v ≡ d)
unfolding has_digits
has_digits-some c d none h = cc
has_digits-some c d (some v) h = (v, refl, ground arith, ground arith)

-- Both characters are digits, and only then the check is of interest.
encodes : ℕ → ℕ → Bool
encodes c d = if is_upper_hex c && is_upper_hex d then has_digits c d (decode_pair c d) else true

encodes_table : holds_below (λ c. holds_below (encodes c) 71) 71 ≡ true
unfolding holds_below encodes has_digits decode_pair high_digit low_digit is_upper_hex
encodes_table = refl

digits-decode_pair :
    (c d : ℕ)
    → IsUpperHex c
    → IsUpperHex d
    → (v : ℕ) × (decode_pair c d ≡ some v) × (high_digit v ≡ c) × (low_digit v ≡ d)
digits-decode_pair c d hc hd = has_digits-some c d (decode_pair c d) holds
  where
    row : holds_below (encodes c) 71 ≡ true
    row = holds_below-lt (λ e. holds_below (encodes e) 71) 71 c (ground arith) encodes_table

    checked : encodes c d ≡ true
    checked = holds_below-lt (encodes c) 71 d (ground arith) row

    holds : has_digits c d (decode_pair c d) ≡ true
    holds =
        unfold encodes in ground (arith, checked, is_upper_hex-true c hc, is_upper_hex-true d hd)

unhex_loop-cons :
    (c d : ℕ) (t : Bytes) (v : ℕ) (s : Bytes)
    → decode_pair c d ≡ some v
    → unhex_loop t ≡ wrote s
    → unhex_loop (c ∷ d ∷ t) ≡ wrote (v ∷ s)
unfolding unhex_loop
unhex_loop-cons c d t v s e rest = ground arith

hex-cons :
    (c d : ℕ) (t : Bytes) (v : ℕ) (s : Bytes)
    → high_digit v ≡ c
    → low_digit v ≡ d
    → hex s ≡ t
    → hex (v ∷ s) ≡ c ∷ d ∷ t
unfolding hex
hex-cons c d t v s high low back = cc

hex-unhex_loop :
    (t : Bytes) (n : ℕ)
    → length t ≡ 2 * n
    → All IsUpperHex t
    → (s : Bytes) × (unhex_loop t ≡ wrote s) × (hex s ≡ t)
unfolding unhex_loop hex
hex-unhex_loop [] n e h = ([], refl, refl)
hex-unhex_loop (c ∷ []) n e h = absurd (omega arith)
hex-unhex_loop (c ∷ d ∷ t) n e h =
    let (v, decoded, high, low) = digits-decode_pair c d h.0 h.1.0 in
    let (s, rest, back) = hex-unhex_loop t (n - 1) (omega arith) h.1.1 in
    (v ∷ s, unhex_loop-cons c d t v s decoded rest, hex-cons c d t v s high low back)

-- An even number of capital hexadecimal digits can be decoded, and encoding the result gives the
-- digits back.
pub hex-unhex :
    (t : Bytes)
    → length t % 2 ≡ 0
    → All IsUpperHex t
    → (s : Bytes) × (unhex t ≡ wrote s) × (hex s ≡ t)
unfolding unhex
hex-unhex t e h =
    let (s, p, q) = hex-unhex_loop t (length t / 2) (omega arith) h in (s, ground arith, q)
