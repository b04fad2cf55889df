-- ===== src/Http/Lines.antt =====
-- `HTTPHeaders::parse` of tornado/HttpServer.cpp: its loop ends, and it reads back what was written.
use simplesvr.Prelude.{
  ℕ, zero, suc, ◌+◌, ◌<◌, ◌≡◌, refl, ap, ◌∙◌, true, false, ◌&&◌, ◌||◌, List, [], ◌∷◌, ◌++◌, Option,
  some, arith, ◌==◌, if◌then◌else◌, if_elim, length, take, drop, take-append_length, length-drop,
  Bytes,
}
use simplesvr.Prelude.Partial.{All}
use simplesvr.Prelude.Int.{ℤ, pos, is_nonzero}
use simplesvr.Buffer.{search}
use simplesvr.Buffer.Search.{search-le}
use simplesvr.Stream.Reading.{is_empty}
use simplesvr.Http.{
  Strings, Headers, absent, crlf, index_of, first_blank, last_blank, note_line, parse_line,
  parse_lines, with_cookies, parse,
}

pub absent-append : (c : ℕ) (xs ys : Bytes) → absent c (xs ++ ys) ≡ absent c xs && absent c ys
absent-append c [] ys = refl
absent-append c (x ∷ xs) ys = ground (arith, absent-append c xs ys)

pub search-crlf :
    (line rest : Bytes)
    → absent 13 line ≡ true
    → search (line ++ (13 ∷ 10 ∷ rest)) crlf ≡ length line
unfolding search
search-crlf [] rest h = refl
search-crlf (x ∷ line) rest h = ground (arith, search-crlf line rest)

pub drop-line : (line rest : Bytes) → drop (length line + 2) (line ++ (13 ∷ 10 ∷ rest)) ≡ rest
drop-line [] rest = refl
drop-line (x ∷ line) rest =
    ap (λ n. drop n (x ∷ (line ++ (13 ∷ 10 ∷ rest)))) {x = suc (length line) + 2}
      {y = suc (length line + 2)} (omega arith)
    ∙ drop-line line rest

drop-key : (key text : Bytes) (c : ℕ) → drop (suc (length key)) (key ++ (c ∷ text)) ≡ text
drop-key [] text c = refl
drop-key (x ∷ key) text c = drop-key key text c

index_of-key :
    (key text : Bytes)
    → absent b':' key ≡ true
    → index_of b':' (key ++ (b':' ∷ text)) ≡ some (length key)
index_of-key [] text h = refl
index_of-key (x ∷ key) text h = ground (arith, index_of-key key text)

-- A key with its value, as a line.
abbrev pub field_line : Bytes × Bytes → Bytes
field_line (key, value) = key ++ (b':' ∷ 32 ∷ value)

abbrev pub print_fields : List (Bytes × Bytes) → Bytes
print_fields [] = []
print_fields (f ∷ fs) = field_line f ++ (13 ∷ 10 ∷ print_fields fs)

-- The key is not empty and starts with no space; there is no colon in it, no carriage return in
-- either, and no blank at an end of the value.
abbrev pub IsField : Bytes × Bytes → Type 0
IsField (key, value) =
    (is_empty key ≡ false)
    × (first_blank key ≡ false)
    × (absent b':' key ≡ true)
    × (absent 13 key ≡ true)
    × (absent 13 value ≡ true)
    × (first_blank value || last_blank value ≡ false)

-- Every field is noted, the last one as the line that may be continued.
abbrev pub note_fields : List (Bytes × Bytes) → Headers → Headers
note_fields [] h = h
note_fields ((key, value) ∷ fs) h = note_fields fs (note_line key value h).1

pub length-field :
    (line rest : Bytes) → length (line ++ (13 ∷ 10 ∷ rest)) ≡ length line + 2 + length rest
length-field [] rest = omega arith
length-field (x ∷ line) rest = omega (arith, length-field line rest)

pub field_line-absent : (f : Bytes × Bytes) → IsField f → absent 13 (field_line f) ≡ true
field_line-absent (key, value) v = ground (arith, absent-append 13 key (b':' ∷ 32 ∷ value))

pub length-field_line : (f : Bytes × Bytes) → 0 < length (field_line f)
length-field_line ([], value) = omega arith
length-field_line (c ∷ key, value) = omega arith

module _ (b : Strings) where
  pub parse_line-field :
      (f : Bytes × Bytes) (h : Headers)
      → IsField f
      → parse_line b (field_line f) h ≡ note_line f.0 f.1 h
  unfolding parse_line
  parse_line-field ([], value) h v = absurd (ground (arith, v.0))
  parse_line-field (c ∷ key, value) h v =
      let at = index_of-key (c ∷ key) (32 ∷ value) v.2 in
      let front = take-append_length (c ∷ key) (b':' ∷ 32 ∷ value) in
      let back = drop-key (c ∷ key) (32 ∷ value) b':' in
      let trimmed = b.trim_blank value ∙ b.trim_none value v.5 in
      ground (arith, at, front, back, trimmed, v.1)

  parse_lines-print_fields :
      (fuel : ℕ) (fs : List (Bytes × Bytes)) (h : Headers)
      → All IsField fs
      → length (print_fields fs) < fuel
      → parse_lines b fuel (print_fields fs) h ≡ some (pos 0, note_fields fs h)
  unfolding parse_lines search
  parse_lines-print_fields zero fs h v k = absurd (omega arith)
  parse_lines-print_fields (suc fuel) [] h v k = refl
  parse_lines-print_fields (suc fuel) (f ∷ fs) h v k =
      let line = field_line f in
      let rest = print_fields fs in
      let at = search-crlf line rest (field_line-absent f v.0) in
      let front = take-append_length line (13 ∷ 10 ∷ rest) in
      let back = drop-line line rest in
      let size = length-field line rest in
      let some_key = length-field_line f in
      let noted = parse_line-field f h v.0 in
      let ih = parse_lines-print_fields fuel fs (note_line f.0 f.1 h).1 v.1 (omega (arith, size)) in
      ground (arith, at, front, back, size, some_key, noted, ih)

  -- Fields whose keys are not empty, start with no blank and hold no colon, with no carriage return
  -- in key or value and no blank at an end of the value, are read back by `HTTPHeaders::parse` from
  -- their lines: every one is noted, in order, before the cookies are parsed.
  pub parse-print_fields :
      (fs : List (Bytes × Bytes)) (h : Headers)
      → All IsField fs
      → parse b (print_fields fs) 0 h ≡ some (with_cookies b (pos 0, note_fields fs h))
  unfolding parse
  parse-print_fields fs h v =
      rw (parse_lines-print_fields (suc (length (print_fields fs))) fs h v (omega arith))

  parse_lines_ends :
      (fuel : ℕ) (rest : Bytes) (h : Headers)
      → length rest < fuel
      → (r : ℤ × Headers) × (parse_lines b fuel rest h ≡ some r)
  unfolding parse_lines
  parse_lines_ends zero rest h k = absurd (omega arith)
  parse_lines_ends (suc fuel) rest h k =
      let index = search rest crlf in
      let parsed = if index == 0 then (pos 0, h) else parse_line b (take index rest) h in
      let left = drop (index + 2) rest in
      if_elim (λ (o : Option (ℤ × Headers)). (r : ℤ × Headers) × (o ≡ some r))
        (index == length rest) (λ _. ((pos 0, h), refl))
        (λ differs.
          if_elim (λ (o : Option (ℤ × Headers)). (r : ℤ × Headers) × (o ≡ some r))
            (is_nonzero parsed.0) (λ _. (parsed, refl))
            (λ _.
              parse_lines_ends fuel left parsed.1
                (ground (arith, differs, length-drop (index + 2) rest, search-le rest crlf))))

  -- `HTTPHeaders::parse` ends on every text, at every position, within as many rounds as the text
  -- has characters, and one.
  pub parse_ends :
      (text : Bytes) (position : ℕ) (h : Headers)
      → (r : ℤ × Headers) × (parse b text position h ≡ some r)
  unfolding parse
  parse_ends text position h =
      let (r, e) =
        parse_lines_ends (suc (length text)) (drop position text) h
          (omega (arith, length-drop position text)) in
      (with_cookies b r, rw e)
