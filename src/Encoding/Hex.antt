-- ===== src/Encoding/Hex.antt =====
-- The hexadecimal functions of tornado/util/comm.cpp.
pub mod RoundTrip
use simplesvr.Prelude.{
  ℕ, ◌+◌, ◌*◌, ◌/◌, ◌%◌, ◌^◌, Bool, List, [], ◌∷◌, ◌++◌, Option, none, some, ltb, leb, ◌==◌,
  if◌then◌else◌, length, get_or, replicate, Bytes, codes,
}

-- `upper_hex`.
abbrev pub upper_hex : Bytes
upper_hex = codes "0123456789ABCDEF"

-- `hex_char_to_int`: 128 entries are written, C++ sets the other 128 to 0. The `int8_t` -1 is 255,
-- since the sum below is taken modulo 256.
abbrev pub hex_char_to_int : List ℕ
hex_char_to_int =
    replicate 48 255
    ++ (0 ∷ 1 ∷ 2 ∷ 3 ∷ 4 ∷ 5 ∷ 6 ∷ 7 ∷ 8 ∷ 9 ∷ [])
    ++ replicate 7 255
    ++ (10 ∷ 11 ∷ 12 ∷ 13 ∷ 14 ∷ 15 ∷ [])
    ++ replicate 26 255
    ++ (10 ∷ 11 ∷ 12 ∷ 13 ∷ 14 ∷ 15 ∷ [])
    ++ replicate 25 255
    ++ replicate 128 0

-- `upper_hex[(val >> 4) & 0x0F]`, where the mask undoes the sign, and `upper_hex[val & 0x0F]`.
unfoldable pub high_digit : ℕ → ℕ
high_digit val = get_or upper_hex (val / 2 ^ 4 % 16) 0

unfoldable pub low_digit : ℕ → ℕ
low_digit val = get_or upper_hex (val % 16) 0

-- `std::string hex(const char*, size_t)`, which `hex(const std::string&)` calls.
unfoldable pub hex : Bytes → Bytes
hex [] = []
hex (val ∷ input) = high_digit val ∷ low_digit val ∷ hex input

-- What a call that works on the caller's buffer, or indexes a table by a character, can end in.
pub data Outcome : Type 0 where
  throws : Outcome
  out_of_bounds : Outcome
  wrote : Bytes → Outcome

-- `size_t hex(const char*, size_t, char* buff, size_t buff_size)`: the guard, then a loop that
-- writes two characters for each byte, whatever the buffer holds.
unfoldable pub hex_to_buff : Bytes → ℕ → Outcome
hex_to_buff input buff_size =
    if ltb (buff_size * 2 % 2 ^ 64) (length input)
    then throws
    else if leb (length (hex input)) buff_size
    then wrote (hex input)
    else out_of_bounds

-- `hex_char_to_int[val]`: a character above 127 is a negative `int8_t` index.
unfoldable pub digit_value : ℕ → Option ℕ
digit_value c = if ltb c 128 then some (get_or hex_char_to_int c 0) else none

-- Puts one decoded character before the outcome of the rest of the loop.
abbrev pub prepend : ℕ → Outcome → Outcome
prepend v (wrote out) = wrote (v ∷ out)
prepend v throws = throws
prepend v out_of_bounds = out_of_bounds

-- `(hex_char_to_int[val1] << 4) + hex_char_to_int[val2]`, cut to a `char`.
unfoldable pub decode_pair : ℕ → ℕ → Option ℕ
unfolding digit_value
decode_pair val1 val2 = elim (digit_value val1) [
  | none ↦ none
  | some h ↦ elim (digit_value val2) [ none ↦ none | some l ↦ some ((h * 2 ^ 4 + l) % 256) ]
]

-- The loop of `unhex`, two characters a round.
unfoldable pub unhex_loop : Bytes → Outcome
unhex_loop [] = wrote []
unhex_loop (val1 ∷ []) = throws
unhex_loop (val1 ∷ val2 ∷ input) =
    let rest = unhex_loop input in
    elim (decode_pair val1 val2) [ none ↦ out_of_bounds | some v ↦ prepend v rest ]

-- `std::string unhex(const char*, size_t)`, which `unhex(const std::string&)` calls.
unfoldable pub unhex : Bytes → Outcome
unhex input = if length input % 2 == 1 then throws else unhex_loop input

-- `size_t unhex(const char*, size_t, char* buff, size_t buff_size)`.
unfoldable pub unhex_to_buff : Bytes → ℕ → Outcome
unhex_to_buff input buff_size =
    if length input % 2 == 1
    then throws
    else if ltb buff_size (length input / 2)
    then throws
    else unhex_loop input
