-- ===== src/Encoding/Base64/RoundTrip.antt =====
-- Decoding undoes encoding in the base64 functions of tornado/util/comm.cpp, for the byte strings
-- that the encoder can encode at all.
use simplesvr.Prelude.{
  ℕ, suc, zero, ◌+◌, ◌*◌, ◌/◌, ◌%◌, ◌<◌, ◌≡◌, ◌≢◌, refl, ap₂, ◌∙◌, ap, bit_or, Bool, true, false,
  List, [], ◌∷◌, ◌++◌, Option, some, get_or, get_elem?, length, Bytes, arith, take-append_length,
}
use simplesvr.Prelude.Int.{pos}
use simplesvr.Encoding.Base64.{
  alphabet, url_alphabet, decode_table, url_decode_table, or_shifted, pad, encode_base64_internal,
  encode_base64, encode_base64url, stopped_at, scan, join, decode_groups, decoded,
  decode_base64_internal, decode_base64, decode_base64url,
}
use simplesvr.Encoding.Base64.Tables.{
  AreInverse, ReadsAs, standard-AreInverse, url-AreInverse, char_of, bit_or_64, bit_or_16, bit_or_4,
}

-- Bytes whose second and third of each group of three are not negative as `char`s.
abbrev pub IsEncodable : Bytes → Type 0
IsEncodable [] = Unit {0}
IsEncodable (s0 ∷ []) = s0 < 256
IsEncodable (s0 ∷ s1 ∷ []) = (s0 < 256) × (s1 < 128)
IsEncodable (s0 ∷ s1 ∷ s2 ∷ s) = (s0 < 256) × (s1 < 128) × (s2 < 128) × IsEncodable s

-- What the decoder's loop accepts as a whole: every character is of the alphabet.
abbrev Accepted : List ℕ → Bytes → Type 0
Accepted basis [] = Unit {0}
Accepted basis (c ∷ t) = (c < 128) × (c ≢ b'=') × (get_or basis c 77 ≢ 77) × Accepted basis t

scan-pad :
    (basis : List ℕ) (t : Bytes) (padding : Bool) (n : ℕ)
    → Accepted basis t
    → scan basis (t ++ pad padding n) ≡ stopped_at (length t)
unfolding scan
scan-pad basis [] true zero a = refl
scan-pad basis [] true (suc n) a = ground arith
scan-pad basis [] false n a = refl
scan-pad basis (c ∷ t) padding n a = ground (arith, scan-pad basis t padding n a.3)

decode-pad :
    (basis : List ℕ) (t : Bytes) (padding : Bool) (n : ℕ)
    → Accepted basis t
    → length t % 4 ≢ 1
    → decode_base64_internal (t ++ pad padding n) basis ≡ decoded (decode_groups basis t)
unfolding decode_base64_internal
decode-pad basis t padding n a h =
    rw (scan-pad basis t padding n a) (ground (arith, take-append_length t (pad padding n)))

-- The three characters that a pair of characters of the alphabet decodes to.
join_first : (x y : ℕ) → x < 64 → y < 64 → join x 2 y 4 ≡ (x * 4 + y / 16) % 256
join_first x y hx hy = ap (λ t. t % 256) (bit_or_4 x (y / 16) hx (omega arith))

join_second : (y z : ℕ) → y < 64 → z < 64 → join y 4 z 2 ≡ (y * 16 + z / 4) % 256
join_second y z hy hz = ap (λ t. t % 256) (bit_or_16 y (z / 4) hy (omega arith))

join_third : (z w : ℕ) → z < 64 → w < 64 → join z 6 w 0 ≡ (z * 64 + w) % 256
join_third z w hz hw =
    ap (λ t. bit_or (z * 64) t % 256) {x = w / 1} {y = w} (omega arith)
    ∙ ap (λ t. t % 256) (bit_or_64 z w hz hw)

or_shifted_4 : (s0 s1 : ℕ) → s1 < 128 → or_shifted (s0 % 4 * 16) s1 4 ≡ pos (s0 % 4 * 16 + s1 / 16)
unfolding or_shifted
or_shifted_4 s0 s1 h = ground (arith, bit_or_16 (s0 % 4) (s1 / 16))

or_shifted_6 : (s1 s2 : ℕ) → s2 < 128 → or_shifted (s1 % 16 * 4) s2 6 ≡ pos (s1 % 16 * 4 + s2 / 64)
unfolding or_shifted
or_shifted_6 s1 s2 h = ground (arith, bit_or_4 (s1 % 16) (s2 / 64))

-- An encoding in its parts: the characters of the alphabet, the padding, and what they decode to.
record IsEncoding (basis : List ℕ) (padding : Bool) (s : Bytes) (o : Option Bytes) : Type 0 where
  chars : Bytes
  padded : ℕ
  encoded : o ≡ some (chars ++ pad padding padded)
  accepted : Accepted basis chars
  not_one : length chars % 4 ≢ 1
  decodes : decode_groups basis chars ≡ s

pad-zero : (padding : Bool) → pad padding 0 ≡ []
pad-zero true = refl
pad-zero false = refl

module _ (basis : List ℕ) (alpha : Bytes) (padding : Bool) where
  encode_none : IsEncoding basis padding [] (encode_base64_internal alpha padding [])
  unfolding encode_base64_internal decode_groups
  encode_none = record {
    chars = [];
    padded = 0;
    encoded = rw (pad-zero padding);
    accepted = tt;
    not_one = omega arith;
    decodes = refl;
  }

  encode_one :
      (s0 c0 c1 : ℕ)
      → s0 < 256
      → get_elem? alpha (s0 / 4 % 64) ≡ some c0
      → ReadsAs basis c0 (s0 / 4 % 64)
      → get_elem? alpha (s0 % 4 * 16) ≡ some c1
      → ReadsAs basis c1 (s0 % 4 * 16)
      → IsEncoding basis padding (s0 ∷ []) (encode_base64_internal alpha padding (s0 ∷ []))
  unfolding encode_base64_internal decode_groups
  encode_one s0 c0 c1 h e0 r0 e1 r1 = record {
    chars = c0 ∷ c1 ∷ [];
    padded = 2;
    encoded = rw (e0, e1);
    accepted = omega arith;
    not_one = omega arith;
    decodes =
        ap (λ v. v ∷ [])
          (join_first (get_or basis c0 77) (get_or basis c1 77) (omega arith) (omega arith)
            ∙ omega arith);
  }

  encode_two :
      (s0 s1 c0 c1 c2 : ℕ)
      → s0 < 256
      → s1 < 128
      → get_elem? alpha (s0 / 4 % 64) ≡ some c0
      → ReadsAs basis c0 (s0 / 4 % 64)
      → get_elem? alpha (s0 % 4 * 16 + s1 / 16) ≡ some c1
      → ReadsAs basis c1 (s0 % 4 * 16 + s1 / 16)
      → get_elem? alpha (s1 % 16 * 4) ≡ some c2
      → ReadsAs basis c2 (s1 % 16 * 4)
      → IsEncoding basis padding
          (s0 ∷ s1 ∷ [])
          (encode_base64_internal alpha padding (s0 ∷ s1 ∷ []))
  unfolding encode_base64_internal decode_groups
  encode_two s0 s1 c0 c1 c2 h h1 e0 r0 e1 r1 e2 r2 = record {
    chars = c0 ∷ c1 ∷ c2 ∷ [];
    padded = 1;
    encoded = rw (e0, or_shifted_4 s0 s1 h1, e1, e2);
    accepted = omega arith;
    not_one = omega arith;
    decodes =
        ap₂ (λ v w. v ∷ w ∷ [])
          (join_first (get_or basis c0 77) (get_or basis c1 77) (omega arith) (omega arith)
            ∙ omega arith)
          (join_second (get_or basis c1 77) (get_or basis c2 77) (omega arith) (omega arith)
            ∙ omega arith);
  }

  encode_three :
      (s0 s1 s2 c0 c1 c2 c3 : ℕ) (s : Bytes)
      → s0 < 256
      → s1 < 128
      → s2 < 128
      → get_elem? alpha (s0 / 4 % 64) ≡ some c0
      → ReadsAs basis c0 (s0 / 4 % 64)
      → get_elem? alpha (s0 % 4 * 16 + s1 / 16) ≡ some c1
      → ReadsAs basis c1 (s0 % 4 * 16 + s1 / 16)
      → get_elem? alpha (s1 % 16 * 4 + s2 / 64) ≡ some c2
      → ReadsAs basis c2 (s1 % 16 * 4 + s2 / 64)
      → get_elem? alpha (s2 % 64) ≡ some c3
      → ReadsAs basis c3 (s2 % 64)
      → IsEncoding basis padding s (encode_base64_internal alpha padding s)
      → IsEncoding basis padding
          (s0 ∷ s1 ∷ s2 ∷ s)
          (encode_base64_internal alpha padding (s0 ∷ s1 ∷ s2 ∷ s))
  unfolding encode_base64_internal decode_groups
  encode_three s0 s1 s2 c0 c1 c2 c3 s h h1 h2 e0 r0 e1 r1 e2 r2 e3 r3 r = record {
    chars = c0 ∷ c1 ∷ c2 ∷ c3 ∷ r.chars;
    padded = r.padded;
    encoded = rw (e0, or_shifted_4 s0 s1 h1, e1, or_shifted_6 s1 s2 h2, e2, e3, r.encoded);
    accepted = (
      r0.positive,
      r0.not_padding,
      omega arith,
      (
        r1.positive,
        r1.not_padding,
        omega arith,
        (
          r2.positive,
          r2.not_padding,
          omega arith,
          (r3.positive, r3.not_padding, omega arith, r.accepted),
        ),
      ),
    );
    not_one = λ e. r.not_one (omega arith);
    decodes = ground (
      arith,
      r.decodes,
      join_first (get_or basis c0 77) (get_or basis c1 77),
      join_second (get_or basis c1 77) (get_or basis c2 77),
      join_third (get_or basis c2 77) (get_or basis c3 77),
    );
  }

module _ (basis : List ℕ) (alpha : Bytes) (t : AreInverse alpha basis) (padding : Bool) where
  encode-IsEncoding :
      (s : Bytes)
      → IsEncodable s
      → IsEncoding basis padding s (encode_base64_internal alpha padding s)
  encode-IsEncoding [] h = encode_none basis alpha padding
  encode-IsEncoding (s0 ∷ []) h =
      let (c0, e0, r0) = char_of alpha basis (s0 / 4 % 64) t (omega arith) in
      let (c1, e1, r1) = char_of alpha basis (s0 % 4 * 16) t (omega arith) in
      encode_one basis alpha padding s0 c0 c1 h e0 r0 e1 r1
  encode-IsEncoding (s0 ∷ s1 ∷ []) h =
      let (c0, e0, r0) = char_of alpha basis (s0 / 4 % 64) t (omega arith) in
      let (c1, e1, r1) = char_of alpha basis (s0 % 4 * 16 + s1 / 16) t (omega arith) in
      let (c2, e2, r2) = char_of alpha basis (s1 % 16 * 4) t (omega arith) in
      encode_two basis alpha padding s0 s1 c0 c1 c2 h.0 h.1 e0 r0 e1 r1 e2 r2
  encode-IsEncoding (s0 ∷ s1 ∷ s2 ∷ s) h =
      let (c0, e0, r0) = char_of alpha basis (s0 / 4 % 64) t (omega arith) in
      let (c1, e1, r1) = char_of alpha basis (s0 % 4 * 16 + s1 / 16) t (omega arith) in
      let (c2, e2, r2) = char_of alpha basis (s1 % 16 * 4 + s2 / 64) t (omega arith) in
      let (c3, e3, r3) = char_of alpha basis (s2 % 64) t (omega arith) in
      encode_three basis alpha padding s0 s1 s2 c0 c1 c2 c3 s h.0 h.1 h.2 e0 r0 e1 r1 e2 r2 e3 r3
        (encode-IsEncoding s h.3)

  round_trip :
      (s : Bytes)
      → IsEncodable s
      → (d : Bytes) × (encode_base64_internal alpha padding s ≡ some d)
        × (decode_base64_internal d basis ≡ decoded s)
  round_trip s h =
      let e = encode-IsEncoding s h in
      (
        e.chars ++ pad padding e.padded,
        e.encoded,
        decode-pad basis e.chars padding e.padded e.accepted e.not_one ∙ ap decoded e.decodes,
      )

-- For bytes of which the second and the third of each group of three are below 128, the encoder
-- succeeds and decoding its result gives the bytes back.
pub decode_base64-encode_base64 :
    (s : Bytes)
    → IsEncodable s
    → (d : Bytes) × (encode_base64 s ≡ some d) × (decode_base64 d ≡ decoded s)
unfolding encode_base64 decode_base64
decode_base64-encode_base64 = round_trip decode_table alphabet standard-AreInverse true

-- For bytes of which the second and the third of each group of three are below 128, the encoder for
-- addresses, without padding, succeeds, and decoding its result gives the bytes back.
pub decode_base64url-encode_base64url :
    (s : Bytes)
    → IsEncodable s
    → (d : Bytes) × (encode_base64url s ≡ some d) × (decode_base64url d ≡ decoded s)
unfolding encode_base64url decode_base64url
decode_base64url-encode_base64url = round_trip url_decode_table url_alphabet url-AreInverse false
