-- ===== src/Http.antt =====
-- tornado/HttpServer.h and tornado/HttpServer.cpp: HTTP/1.x requests on a stream. This file has
-- `HTTPHeaders`. The string functions of boost are a parameter.
pub mod Requests
pub mod Connection
pub mod Server
pub mod Lines
pub mod StartLine
pub mod Queries
pub mod Answers
pub mod Arriving
pub mod Serving
pub mod Posting
pub mod Refusing
pub mod Printing
pub mod PlainStrings
mod Tests
mod ArrivalTests
use simplesvr.Prelude.{
  ℕ, zero, suc, ◌+◌, ◌*◌, ◌-◌, Bool, true, false, not, ◌&&◌, ◌||◌, List, [], ◌∷◌, ◌++◌, Option,
  none, some, leb, ◌==◌, if◌then◌else◌, length, take, drop, Bytes, codes, bytes_eq, ◌≡◌,
}
use simplesvr.Prelude.Partial.{◌>>=◌, All}
use simplesvr.Prelude.Int.{ℤ, pos, negsuc, is_nonzero}
use simplesvr.Buffer.{search, is_prefix}
use simplesvr.Stream.Reading.{is_empty}

abbrev pub crlf : Bytes
crlf = 13 ∷ 10 ∷ []

-- A `std::map` of strings, without its order.
abbrev pub Map : Type 0
Map = List (Bytes × Bytes)

-- `map[key] = value`.
abbrev pub put : Bytes → Bytes → Map → Map
put key value [] = (key, value) ∷ []
put key value ((k, v) ∷ m) = if bytes_eq k key then (k, value) ∷ m else (k, v) ∷ put key value m

abbrev pub lookup : Bytes → Map → Option Bytes
lookup key [] = none
lookup key ((k, v) ∷ m) = if bytes_eq k key then some v else lookup key m

-- The place of a character, as `std::find` gives it.
abbrev pub index_of : ℕ → Bytes → Option ℕ
index_of c [] = none
index_of c (x ∷ xs) =
    if x == c then some 0 else elim (index_of c xs) [ none ↦ none | some i ↦ some (suc i) ]

-- Neither the first nor the last character is a blank.
abbrev pub blank : ℕ → Bool
blank c = (c == 32) || (leb 9 c && leb c 13)

abbrev pub last_blank : Bytes → Bool
last_blank [] = false
last_blank (x ∷ []) = blank x
last_blank (x ∷ y ∷ xs) = last_blank (y ∷ xs)

abbrev pub first_blank : Bytes → Bool
first_blank [] = false
first_blank (x ∷ xs) = blank x

-- The character does not occur.
abbrev pub absent : ℕ → Bytes → Bool
absent c [] = true
absent c (x ∷ xs) = not (x == c) && absent c xs

-- The functions of `boost::algorithm`, and what is relied on: `trim` takes the blanks off both ends,
-- `trim_left` off the front; `split` cuts at every separator; `starts_with` looks at the front.
pub record Strings : Type 0 where
  pub split : ℕ → Bytes → List Bytes
  pub trim : Bytes → Bytes
  pub trim_left : Bytes → Bytes
  pub starts_with : Bytes → Bytes → Bool
  pub split_none : (sep : ℕ) (s : Bytes) → absent sep s ≡ true → split sep s ≡ s ∷ []
  pub split_first :
      (sep : ℕ) (s t : Bytes) → absent sep s ≡ true → split sep (s ++ (sep ∷ t)) ≡ s ∷ split sep t
  pub starts_with_front : (s prefix : Bytes) → starts_with (prefix ++ s) prefix ≡ true
  pub trim_blank : (s : Bytes) → trim (32 ∷ s) ≡ trim s
  pub trim_none : (s : Bytes) → first_blank s || last_blank s ≡ false → trim s ≡ s

pub record Headers : Type 0 where
  pub last_key : Bytes
  pub last_value : Bytes
  pub headers : Map
  pub cookies : Map

abbrev pub no_headers : Headers
no_headers = record { last_key = []; last_value = []; headers = []; cookies = [] }

-- `getValue`.
abbrev pub get_value : Bytes → Headers → Bytes
get_value key h = elim (lookup key h.headers) [ none ↦ [] | some v ↦ v ]

-- `atoi`: blanks, a sign, digits. The overflow of `int`, which is undefined, is outside the model.
abbrev pub is_digit : ℕ → Bool
is_digit c = leb 48 c && leb c 57

abbrev pub digits : ℕ → Bytes → ℕ
digits acc [] = acc
digits acc (c ∷ s) = if is_digit c then digits (acc * 10 + (c - 48)) s else acc

abbrev pub negated : ℕ → ℤ
negated zero = pos 0
negated (suc n) = negsuc n

abbrev pub signed : Bytes → ℤ
signed [] = pos 0
signed (c ∷ s) =
    if c == b'-'
    then negated (digits 0 s)
    else if c == b'+'
    then pos (digits 0 s)
    else pos (digits 0 (c ∷ s))

abbrev pub skip_blanks : Bytes → Bytes
skip_blanks [] = []
skip_blanks (c ∷ s) = if blank c then skip_blanks s else c ∷ s

unfoldable pub atoi : Bytes → ℤ
atoi s = signed (skip_blanks s)

-- `getValueInt`.
unfoldable pub get_value_int : Bytes → Headers → ℤ
get_value_int key h = elim (lookup key h.headers) [ none ↦ pos 0 | some v ↦ atoi v ]

-- Both branches of `parseLine` end in this: the line's key and value are noted.
abbrev pub note_line : Bytes → Bytes → Headers → ℤ × Headers
note_line key value h =
    (pos 0, record h { last_key = key; last_value = value; headers = put key value h.headers })

-- The two strings that `vArgs` must hold.
abbrev pub as_pair : List Bytes → Option (Bytes × Bytes)
as_pair [] = none
as_pair (key ∷ []) = none
as_pair (key ∷ value ∷ []) = some (key, value)
as_pair (key ∷ value ∷ more ∷ args) = none

module _ (b : Strings) where
  -- `parseLine`. A line that starts with a space continues the header before it.
  unfoldable pub parse_line : Bytes → Headers → ℤ × Headers
  parse_line [] h = (negsuc 1, h)
  parse_line (c ∷ line) h =
      if c == 32
      then if is_empty h.last_key
        then (negsuc 0, h)
        else note_line h.last_key ((h.last_value ++ (32 ∷ [])) ++ b.trim_left (c ∷ line)) h
      else elim (index_of b':' (c ∷ line)) [
        | none ↦ (negsuc 1, h)
        | some i ↦ note_line (take i (c ∷ line)) (b.trim (drop (suc i) (c ∷ line))) h
      ]

  -- The items of a cookie header or a query, `key=value` each. An item that is no pair ends the
  -- loop; those before it stay.
  unfoldable pub put_items : (Bytes → Bytes) → List Bytes → Map → Bool × Map
  put_items clean [] m = (true, m)
  put_items clean (item ∷ items) m = elim (as_pair (b.split b'=' (clean item))) [
    | none ↦ (false, m)
    | some pair ↦ put_items clean items (put pair.0 pair.1 m)
  ]

  -- `parseCookies`: whether it returns 0.
  unfoldable pub parse_cookies : Headers → Bool × Headers
  parse_cookies h =
      let buff = get_value (codes "Cookie") h in
      let (done, cookies) = put_items b.trim (b.split b';' buff) h.cookies in
      if is_empty buff then (true, h) else (done, record h { cookies = cookies })

  -- The loop of `parse` over the text that is left, by a bound on its rounds; `none` is one round
  -- too many.
  unfoldable pub parse_lines : ℕ → Bytes → Headers → Option (ℤ × Headers)
  parse_lines zero rest h = none
  parse_lines (suc fuel) rest h =
      let index = search rest crlf in
      let parsed = if index == 0 then (pos 0, h) else parse_line (take index rest) h in
      let next = parse_lines fuel (drop (index + 2) rest) parsed.1 in
      if index == length rest
      then some (pos 0, h)
      else if is_nonzero parsed.0
      then some parsed
      else next

  abbrev pub with_cookies : ℤ × Headers → ℤ × Headers
  with_cookies (code, h) =
      let (done, h') = parse_cookies h in
      if is_nonzero code then (code, h) else (if done then pos 0 else pos 100, h')

  -- `HTTPHeaders::parse`, in as many rounds as there are characters, and one.
  unfoldable pub parse : Bytes → ℕ → Headers → Option (ℤ × Headers)
  parse text position h = do
    r ← parse_lines (suc (length text)) (drop position text) h
    some (with_cookies r)
