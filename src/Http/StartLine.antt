-- ===== src/Http/StartLine.antt =====
-- `parseHttpRequest` of tornado/HttpServer.cpp on a whole request.
use simplesvr.Prelude.{
  ℕ, zero, suc, ◌+◌, ◌<◌, ◌≡◌, refl, ap, ◌∙◌, true, false, List, [], ◌∷◌, ◌++◌, some, arith, ◌==◌,
  if◌then◌else◌, length, take, take-append_length, Bytes, codes,
}
use simplesvr.Prelude.Partial.{All, ◌>>=◌}
use simplesvr.Prelude.Int.{ℤ, pos, negsuc, is_nonzero}
use simplesvr.Buffer.{search}
use simplesvr.Http.{Strings, Headers, absent, crlf, note_line, parse_lines, with_cookies, parse}
use simplesvr.Http.Requests.{Request, parse_uri, parse_start_line, parse_http_request}
use simplesvr.Http.Lines.{
  IsField, field_line, note_fields, search-crlf, drop-line, length-field, field_line-absent,
  length-field_line, parse_line-field, absent-append,
}

-- The lines of a header, and the empty line behind them.
abbrev pub print_head : List (Bytes × Bytes) → Bytes
print_head [] = 13 ∷ 10 ∷ []
print_head (f ∷ fs) = field_line f ++ (13 ∷ 10 ∷ print_head fs)

abbrev pub start_line : Bytes → Bytes → Bytes → Bytes
start_line method path version = method ++ (32 ∷ (path ++ (32 ∷ (codes "HTTP/" ++ version))))

abbrev pub print_request : Bytes → Bytes → Bytes → List (Bytes × Bytes) → Bytes
print_request method path version fs = start_line method path version ++ (13 ∷ 10 ∷ print_head fs)

-- No blank and no carriage return in any part, and no question mark in the path.
abbrev pub IsPlain : Bytes → Bytes → Bytes → Type 0
IsPlain method path version =
    (absent 32 method ≡ true)
    × (absent 13 method ≡ true)
    × (absent 32 path ≡ true)
    × (absent 13 path ≡ true)
    × (absent b'?' path ≡ true)
    × (absent 32 version ≡ true)
    × (absent 13 version ≡ true)

-- No blank and no carriage return in any part.
abbrev pub IsLine : Bytes → Bytes → Bytes → Type 0
IsLine method uri version =
    (absent 32 method ≡ true)
    × (absent 13 method ≡ true)
    × (absent 32 uri ≡ true)
    × (absent 13 uri ≡ true)
    × (absent 32 version ≡ true)
    × (absent 13 version ≡ true)

pub plain-IsLine :
    (method path version : Bytes) → IsPlain method path version → IsLine method path version
plain-IsLine method path version v = (v.0, v.1, v.2, v.3, v.5, v.6)

pub start_line-absent :
    (method path version : Bytes)
    → IsLine method path version
    → absent 13 (start_line method path version) ≡ true
start_line-absent method path version v = ground (
  arith,
  absent-append 13 method (32 ∷ (path ++ (32 ∷ (codes "HTTP/" ++ version)))),
  absent-append 13 path (32 ∷ (codes "HTTP/" ++ version)),
)

module _ (b : Strings) where
  parse_lines-print_head :
      (fuel : ℕ) (fs : List (Bytes × Bytes)) (h : Headers)
      → All IsField fs
      → length (print_head fs) < fuel
      → parse_lines b fuel (print_head fs) h ≡ some (pos 0, note_fields fs h)
  unfolding parse_lines search
  parse_lines-print_head zero fs h v k = absurd (omega arith)
  parse_lines-print_head (suc zero) [] h v k = absurd (omega arith)
  parse_lines-print_head (suc (suc fuel)) [] h v k = refl
  parse_lines-print_head (suc fuel) (f ∷ fs) h v k =
      let line = field_line f in
      let rest = print_head fs in
      let at = search-crlf line rest (field_line-absent f v.0) in
      let front = take-append_length line (13 ∷ 10 ∷ rest) in
      let back = drop-line line rest in
      let size = length-field line rest in
      let some_key = length-field_line f in
      let noted = parse_line-field b f h v.0 in
      let ih = parse_lines-print_head fuel fs (note_line f.0 f.1 h).1 v.1 (omega (arith, size)) in
      ground (arith, at, front, back, size, some_key, noted, ih)

  pub split-start_line :
      (method path version : Bytes)
      → IsLine method path version
      → b.split 32 (start_line method path version)
        ≡ method ∷ path ∷ (codes "HTTP/" ++ version) ∷ []
  split-start_line method path version v =
      b.split_first 32 method (path ++ (32 ∷ (codes "HTTP/" ++ version))) v.0
      ∙ ap (λ l. method ∷ l)
          (b.split_first 32 path (codes "HTTP/" ++ version) v.2
            ∙ ap (λ l. path ∷ l) (b.split_none 32 (codes "HTTP/" ++ version) (ground arith)))

  -- The request with its line and its headers.
  abbrev pub with_line : Bytes → Bytes → Bytes → Request → Request
  with_line method path version r = record r {
    method = method;
    path = path;
    version = codes "HTTP/" ++ version;
  }

  parse_start_line-plain :
      (method path version : Bytes) (r : Request)
      → IsPlain method path version
      → parse_start_line b (method ∷ path ∷ (codes "HTTP/" ++ version) ∷ []) r
        ≡ (pos 0, with_line method path version r)
  unfolding parse_start_line parse_uri
  parse_start_line-plain method path version r v =
      rw (b.starts_with_front version (codes "HTTP/"), b.split_none b'?' path v.4) refl

  pub parse_http_request-steps :
      (text : Bytes) (r r' : Request) (p : ℤ × Headers)
      → parse_start_line b (b.split 32 (take (search text crlf) text)) r ≡ (pos 0, r')
      → (search text crlf == length text) ≡ false
      → parse b text (search text crlf + 2) r'.headers ≡ some p
      → parse_http_request b text r
        ≡ some (if is_nonzero p.0 then negsuc 5 else pos 0, record r' { headers = p.1 })
  unfolding parse_http_request
  parse_http_request-steps text r r' p line inside parsed = ground arith

  pub parse-print_head :
      (line : Bytes) (fs : List (Bytes × Bytes)) (h : Headers)
      → All IsField fs
      → parse b (line ++ (13 ∷ 10 ∷ print_head fs)) (length line + 2) h
        ≡ some (with_cookies b (pos 0, note_fields fs h))
  unfolding parse
  parse-print_head line fs h w =
      let rest = print_head fs in
      let text = line ++ (13 ∷ 10 ∷ rest) in
      ap (λ t. parse_lines b (suc (length text)) t h >>= λ r. some (with_cookies b r))
        (drop-line line rest)
      ∙ ap (λ o. o >>= λ r. some (with_cookies b r))
          (parse_lines-print_head (suc (length text)) fs h w
            (omega (arith, length-field line rest)))

  -- A request line of three parts without blanks, of a path without query, and fields as
  -- `HTTPHeaders::parse` reads them back, behind which there is an empty line, are parsed to the
  -- parts and the fields, whatever string functions behave as those of boost. The result is 0,
  -- unless the cookies among the fields cannot be parsed.
  pub parse_http_request-print_request :
      (method path version : Bytes) (fs : List (Bytes × Bytes)) (r : Request)
      → IsPlain method path version
      → All IsField fs
      → let (code, h) = with_cookies b (pos 0, note_fields fs r.headers) in
        parse_http_request b (print_request method path version fs) r
        ≡ some (
          if is_nonzero code then negsuc 5 else pos 0,
          record (with_line method path version r) { headers = h },
        )
  parse_http_request-print_request method path version fs r v w =
      let line = start_line method path version in
      let rest = print_head fs in
      let text = print_request method path version fs in
      let at =
        search-crlf line rest
          (start_line-absent method path version (plain-IsLine method path version v)) in
      let parsed =
        ap (λ n. parse_start_line b (b.split 32 (take n text)) r) at
        ∙ ap (λ l. parse_start_line b (b.split 32 l) r) (take-append_length line (13 ∷ 10 ∷ rest))
        ∙ ap (λ l. parse_start_line b l r)
            (split-start_line method path version (plain-IsLine method path version v))
        ∙ parse_start_line-plain method path version r v in
      parse_http_request-steps text r (with_line method path version r)
        (with_cookies b (pos 0, note_fields fs r.headers)) parsed
        (ground (arith, at, length-field line rest))
        (ap (λ n. parse b text (n + 2) r.headers) at ∙ parse-print_head line fs r.headers w)
