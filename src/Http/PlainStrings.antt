-- ===== src/Http/PlainStrings.antt =====
-- String functions on lists of characters, in place of those of boost that tornado/HttpServer.cpp
-- calls: they show that what is asked of them can be had, and let requests be parsed.
use simplesvr.Prelude.{
  ℕ, ◌≡◌, refl, ◌∙◌, ap, false, ◌&&◌, ◌||◌, List, [], ◌∷◌, ◌++◌, true, arith, ◌==◌, if◌then◌else◌,
  Bytes,
}
use simplesvr.Buffer.{is_prefix}
use simplesvr.Stream.Reading.{is_empty}
use simplesvr.Http.{Strings, blank, first_blank, last_blank, skip_blanks, absent}

abbrev pub skip_last_blanks : Bytes → Bytes
skip_last_blanks [] = []
skip_last_blanks (x ∷ s) =
    let rest = skip_last_blanks s in if blank x && is_empty rest then [] else x ∷ rest

abbrev pub add_first : ℕ → List Bytes → List Bytes
add_first x [] = (x ∷ []) ∷ []
add_first x (s ∷ ss) = (x ∷ s) ∷ ss

abbrev pub split_at : ℕ → Bytes → List Bytes
split_at sep [] = [] ∷ []
split_at sep (x ∷ s) = let rest = split_at sep s in if x == sep then [] ∷ rest else add_first x rest

skip_blanks-none : (s : Bytes) → first_blank s ≡ false → skip_blanks s ≡ s
skip_blanks-none [] h = refl
skip_blanks-none (x ∷ s) h = ground arith

skip_last_blanks-none : (s : Bytes) → last_blank s ≡ false → skip_last_blanks s ≡ s
skip_last_blanks-none [] h = refl
skip_last_blanks-none (x ∷ []) h = ground arith
skip_last_blanks-none (x ∷ y ∷ s) h = ground (arith, skip_last_blanks-none (y ∷ s) h)

pub trim-none :
    (s : Bytes) → first_blank s || last_blank s ≡ false → skip_last_blanks (skip_blanks s) ≡ s
trim-none s h =
    ap skip_last_blanks (skip_blanks-none s (ground arith)) ∙ skip_last_blanks-none s (ground arith)

pub split_at-none : (sep : ℕ) (s : Bytes) → absent sep s ≡ true → split_at sep s ≡ s ∷ []
split_at-none sep [] h = refl
split_at-none sep (x ∷ s) h = ground (arith, split_at-none sep s)

pub split_at-first :
    (sep : ℕ) (s t : Bytes)
    → absent sep s ≡ true
    → split_at sep (s ++ (sep ∷ t)) ≡ s ∷ split_at sep t
split_at-first sep [] t h = ground arith
split_at-first sep (x ∷ s) t h = ground (arith, split_at-first sep s t)

pub is_prefix-front : (s prefix : Bytes) → is_prefix prefix (prefix ++ s) ≡ true
is_prefix-front s [] = refl
is_prefix-front s (x ∷ prefix) = ground (arith, is_prefix-front s prefix)

abbrev pub plain_strings : Strings
plain_strings = record {
  split = split_at;
  trim = λ s. skip_last_blanks (skip_blanks s);
  trim_left = skip_blanks;
  starts_with = λ s prefix. is_prefix prefix s;
  split_none = split_at-none;
  split_first = split_at-first;
  starts_with_front = is_prefix-front;
  trim_blank = λ s. refl;
  trim_none = trim-none;
}
