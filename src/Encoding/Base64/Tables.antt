-- ===== src/Encoding/Base64/Tables.antt =====
-- The tables of the base64 functions of tornado/util/comm.cpp undo one another.
use simplesvr.Prelude.{
  ℕ, ◌+◌, ◌*◌, ◌<◌, ◌≡◌, ◌≢◌, refl, bit_or, Bool, true, false, ◌&&◌, not, List, Option, none, some,
  ltb, ◌==◌, get_or, get_elem?, length, Bytes, arith, ==_iff,
}
use simplesvr.Prelude.Partial.{holds_below, holds_below-lt}
use simplesvr.Encoding.Base64.{alphabet, url_alphabet, decode_table, url_decode_table}

-- `c` is a character that the decoder accepts and reads as `i`.
pub reads_as : List ℕ → ℕ → Option ℕ → Bool
reads_as basis i none = false
reads_as basis i (some c) = ltb c 128 && (not (c == b'=') && (get_or basis c 77 == i))

-- The encoder's character for each of the 64 indices, as the decoder sees it.
pub record AreInverse (chars : Bytes) (basis : List ℕ) : Type 0 where
  pub table : holds_below (λ i. reads_as basis i (get_elem? chars i)) 64 ≡ true

pub standard-AreInverse : AreInverse alphabet decode_table
unfolding holds_below reads_as
standard-AreInverse = record { table = refl }

pub url-AreInverse : AreInverse url_alphabet url_decode_table
unfolding holds_below reads_as
url-AreInverse = record { table = refl }

decode_tables_sizes : (length decode_table ≡ 256) × (length url_decode_table ≡ 256)
decode_tables_sizes = (refl, refl)

-- The decoder accepts the character `c` and reads it as `i`.
pub record ReadsAs (basis : List ℕ) (c i : ℕ) : Type 0 where
  pub positive : c < 128
  pub not_padding : c ≢ b'='
  pub value : get_or basis c 77 ≡ i

reads_as-some :
    (basis : List ℕ) (i : ℕ) (o : Option ℕ)
    → reads_as basis i o ≡ true
    → (c : ℕ) × (o ≡ some c) × ReadsAs basis c i
unfolding reads_as
reads_as-some basis i none h = absurd (ground arith)
reads_as-some basis i (some c) h =
    (c, refl, record { positive = ground arith; not_padding = ground arith; value = ground arith })

pub char_of :
    (chars : Bytes) (basis : List ℕ) (i : ℕ)
    → AreInverse chars basis
    → i < 64
    → (c : ℕ) × (get_elem? chars i ≡ some c) × ReadsAs basis c i
char_of chars basis i t h =
    reads_as-some basis i (get_elem? chars i)
      (holds_below-lt (λ i. reads_as basis i (get_elem? chars i)) 64 i h t.table)

-- Where the bits do not overlap, `|` is a sum.
bit_or-add_table :
    holds_below (λ m. holds_below (λ n. bit_or (m * 64) n == m * 64 + n) 64) 64 ≡ true
unfolding holds_below
bit_or-add_table = refl

pub bit_or_64 : (m n : ℕ) → m < 64 → n < 64 → bit_or (m * 64) n ≡ m * 64 + n
bit_or_64 m n hm hn = (==_iff _ _).0 (
    holds_below-lt (λ n. bit_or (m * 64) n == m * 64 + n) 64 n hn
      (holds_below-lt (λ m. holds_below (λ n. bit_or (m * 64) n == m * 64 + n) 64) 64 m hm
        bit_or-add_table))

bit_or_16_table : holds_below (λ m. holds_below (λ n. bit_or (m * 16) n == m * 16 + n) 16) 64 ≡ true
unfolding holds_below
bit_or_16_table = refl

pub bit_or_16 : (m n : ℕ) → m < 64 → n < 16 → bit_or (m * 16) n ≡ m * 16 + n
bit_or_16 m n hm hn = (==_iff _ _).0 (
    holds_below-lt (λ n. bit_or (m * 16) n == m * 16 + n) 16 n hn
      (holds_below-lt (λ m. holds_below (λ n. bit_or (m * 16) n == m * 16 + n) 16) 64 m hm
        bit_or_16_table))

bit_or_4_table : holds_below (λ m. holds_below (λ n. bit_or (m * 4) n == m * 4 + n) 4) 64 ≡ true
unfolding holds_below
bit_or_4_table = refl

pub bit_or_4 : (m n : ℕ) → m < 64 → n < 4 → bit_or (m * 4) n ≡ m * 4 + n
bit_or_4 m n hm hn = (==_iff _ _).0 (
    holds_below-lt (λ n. bit_or (m * 4) n == m * 4 + n) 4 n hn
      (holds_below-lt (λ m. holds_below (λ n. bit_or (m * 4) n == m * 4 + n) 4) 64 m hm
        bit_or_4_table))
