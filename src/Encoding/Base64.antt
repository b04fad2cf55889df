-- ===== src/Encoding/Base64.antt =====
-- The base64 functions of tornado/util/comm.cpp, which are nginx's with `char` for `u_char`.
-- A `char` is signed: a byte from 128 on is negative, and so it is after a shift, while a mask makes
-- it an index again. `none` is a read outside the table.
pub mod Tables
pub mod RoundTrip
pub mod Faults
use simplesvr.Prelude.{
  ℕ, suc, ◌+◌, ◌-◌, ◌*◌, ◌/◌, ◌%◌, ◌^◌, bit_or, Bool, true, false, List, [], ◌∷◌, ◌++◌, Option,
  none, some, ltb, ◌==◌, if◌then◌else◌, length, get_or, get_elem?, replicate, take, Bytes, codes,
}
use simplesvr.Prelude.Int.{ℤ, pos, negsuc}
use simplesvr.Prelude.Partial.{◌>>=◌}

-- The `basis64` of the two encoders.
abbrev pub alphabet : Bytes
alphabet = codes "ABCDEFGHIJKLMNOPQRSTUVWXYZabcdefghijklmnopqrstuvwxyz0123456789+/"

abbrev pub url_alphabet : Bytes
url_alphabet = codes "ABCDEFGHIJKLMNOPQRSTUVWXYZabcdefghijklmnopqrstuvwxyz0123456789-_"

-- `start, start + 1, …`, `n` numbers.
abbrev pub ascending : ℕ → ℕ → List ℕ
ascending start ℕ.zero = []
ascending start (suc n) = start ∷ ascending (suc start) n

-- The `basis64` of the two decoders: 256 entries, 77 where the character is not of the alphabet.
abbrev pub decode_table : List ℕ
decode_table =
    replicate 43 77
    ++ (62 ∷ 77 ∷ 77 ∷ 77 ∷ 63 ∷ [])
    ++ ascending 52 10
    ++ replicate 7 77
    ++ ascending 0 26
    ++ replicate 6 77
    ++ ascending 26 26
    ++ replicate 133 77

abbrev pub url_decode_table : List ℕ
url_decode_table =
    replicate 45 77
    ++ (62 ∷ 77 ∷ 77 ∷ [])
    ++ ascending 52 10
    ++ replicate 7 77
    ++ ascending 0 26
    ++ (77 ∷ 77 ∷ 77 ∷ 77 ∷ 63 ∷ 77 ∷ [])
    ++ ascending 26 26
    ++ replicate 133 77

-- A `char` as an `int`, of 32 bits in two's complement.
abbrev pub promote : ℕ → ℕ
promote c = if ltb c 128 then c else c + (2 ^ 32 - 256)

-- `>>` of an `int` copies the sign in.
abbrev pub shift_right : ℕ → ℕ → ℕ
shift_right w k = if ltb w (2 ^ 31) then w / 2 ^ k else w / 2 ^ k + (2 ^ 32 - 2 ^ (32 - k))

-- The number that 32 bits stand for.
abbrev pub to_int : ℕ → ℤ
to_int w = if ltb w (2 ^ 31) then pos w else negsuc (2 ^ 32 - 1 - w)

-- `bits | (c >> k)`.
unfoldable pub or_shifted : ℕ → ℕ → ℕ → ℤ
or_shifted bits c k = to_int (bit_or bits (shift_right (promote c) k))

-- `basis[i]`.
abbrev pub element : Bytes → ℤ → Option ℕ
element basis (pos i) = get_elem? basis i
element basis (negsuc i) = none

-- What `padding` adds behind an incomplete group.
abbrev pub pad : Bool → ℕ → Bytes
pad true n = replicate n b'='
pad false n = []

-- `encode_base64_internal`, with `basis` as a list: three characters a round, then the rest.
unfoldable pub encode_base64_internal : Bytes → Bool → Bytes → Option Bytes
unfolding or_shifted
encode_base64_internal basis padding [] = some []
encode_base64_internal basis padding (s0 ∷ []) = do
  c0 ← get_elem? basis (s0 / 2 ^ 2 % 64)
  c1 ← get_elem? basis (s0 % 4 * 2 ^ 4)
  some (c0 ∷ c1 ∷ pad padding 2)
encode_base64_internal basis padding (s0 ∷ s1 ∷ []) = do
  c0 ← get_elem? basis (s0 / 2 ^ 2 % 64)
  c1 ← element basis (or_shifted (s0 % 4 * 2 ^ 4) s1 4)
  c2 ← get_elem? basis (s1 % 16 * 2 ^ 2)
  some (c0 ∷ c1 ∷ c2 ∷ pad padding 1)
encode_base64_internal basis padding (s0 ∷ s1 ∷ s2 ∷ s) = do
  c0 ← get_elem? basis (s0 / 2 ^ 2 % 64)
  c1 ← element basis (or_shifted (s0 % 4 * 2 ^ 4) s1 4)
  c2 ← element basis (or_shifted (s1 % 16 * 2 ^ 2) s2 6)
  c3 ← get_elem? basis (s2 % 64)
  dst ← encode_base64_internal basis padding s
  some (c0 ∷ c1 ∷ c2 ∷ c3 ∷ dst)

unfoldable pub encode_base64 : Bytes → Option Bytes
encode_base64 src = encode_base64_internal alphabet true src

unfoldable pub encode_base64url : Bytes → Option Bytes
encode_base64url src = encode_base64_internal url_alphabet false src

-- What the first loop of the decoder ends in: the position of the `=` or of the end, or a fault.
pub data Scan : Type 0 where
  overrun bad_char : Scan
  stopped_at : ℕ → Scan

abbrev pub next_position : Scan → Scan
next_position (stopped_at len) = stopped_at (suc len)
next_position overrun = overrun
next_position bad_char = bad_char

unfoldable pub scan : List ℕ → Bytes → Scan
scan basis [] = stopped_at 0
scan basis (c ∷ src) =
    let rest = next_position (scan basis src) in
    if c == b'='
    then stopped_at 0
    else if ltb c 128
    then (if get_or basis c 77 == 77 then bad_char else rest)
    else overrun

-- The two lines that make a `char` of two table entries.
abbrev pub join : ℕ → ℕ → ℕ → ℕ → ℕ
join high up low down = bit_or (high * 2 ^ up) (low / 2 ^ down) % 256

-- The second loop and what follows it, over the `len` characters that were accepted.
unfoldable pub decode_groups : List ℕ → Bytes → Bytes
decode_groups basis [] = []
decode_groups basis (s0 ∷ []) = []
decode_groups basis (s0 ∷ s1 ∷ []) = join (get_or basis s0 77) 2 (get_or basis s1 77) 4 ∷ []
decode_groups basis (s0 ∷ s1 ∷ s2 ∷ []) =
    join (get_or basis s0 77) 2 (get_or basis s1 77) 4
    ∷ join (get_or basis s1 77) 4 (get_or basis s2 77) 2
    ∷ []
decode_groups basis (s0 ∷ s1 ∷ s2 ∷ s3 ∷ s) =
    join (get_or basis s0 77) 2 (get_or basis s1 77) 4
    ∷ join (get_or basis s1 77) 4 (get_or basis s2 77) 2
    ∷ join (get_or basis s2 77) 6 (get_or basis s3 77) 0
    ∷ decode_groups basis s

-- The codes -1 and -2, a fault, or 0 with `dst`. An error leaves `dst` as it was.
pub data Decoded : Type 0 where
  out_of_bounds invalid_char bad_length : Decoded
  decoded : Bytes → Decoded

abbrev pub after_scan : List ℕ → Bytes → Scan → Decoded
after_scan basis src overrun = out_of_bounds
after_scan basis src bad_char = invalid_char
after_scan basis src (stopped_at len) =
    if len % 4 == 1 then bad_length else decoded (decode_groups basis (take len src))

unfoldable pub decode_base64_internal : Bytes → List ℕ → Decoded
decode_base64_internal src basis = after_scan basis src (scan basis src)

unfoldable pub decode_base64 : Bytes → Decoded
decode_base64 src = decode_base64_internal src decode_table

unfoldable pub decode_base64url : Bytes → Decoded
decode_base64url src = decode_base64_internal src url_decode_table
