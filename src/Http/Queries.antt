-- ===== src/Http/Queries.antt =====
-- Queries of tornado/HttpServer.cpp: `parseQsBytes`, and `parseHttpRequest` on an address with a query.
use simplesvr.Prelude.{
  ◌+◌, ◌≡◌, refl, ap, ◌∙◌, true, List, [], ◌∷◌, ◌++◌, some, arith, if◌then◌else◌, take,
  take-append_length, Bytes, codes, bytes_eq, bytes_eq_iff,
}
use simplesvr.Prelude.Partial.{All}
use simplesvr.Prelude.Int.{pos, negsuc, is_nonzero}
use simplesvr.Http.{Strings, Map, absent, put, lookup, put_items, as_pair, parse, with_cookies}
use simplesvr.Http.Requests.{
  Request, parse_qs_bytes, parse_uri, parse_start_line, parse_http_request,
}
use simplesvr.Http.Lines.{IsField, note_fields, search-crlf, length-field, absent-append}
use simplesvr.Http.StartLine.{
  print_head, start_line, print_request, IsLine, start_line-absent, split-start_line,
  parse_http_request-steps, parse-print_head,
}

-- An argument as it stands in a query, and a query of at least one.
abbrev pub print_item : Bytes × Bytes → Bytes
print_item (key, value) = key ++ (b'=' ∷ value)

abbrev pub print_query : Bytes × Bytes → List (Bytes × Bytes) → Bytes
print_query p [] = print_item p
print_query p (q ∷ ps) = print_item p ++ (b'&' ∷ print_query q ps)

-- Neither part holds one of the characters that separate.
abbrev pub IsItem : Bytes × Bytes → Type 0
IsItem (key, value) =
    (absent b'=' key ≡ true)
    × (absent b'=' value ≡ true)
    × (absent b'&' key ≡ true)
    × (absent b'&' value ≡ true)

-- The arguments one after another: a later one replaces an earlier one of the same key.
abbrev pub put_all : List (Bytes × Bytes) → Map → Map
put_all [] m = m
put_all ((key, value) ∷ ps) m = put_all ps (put key value m)

item-absent : (p : Bytes × Bytes) → IsItem p → absent b'&' (print_item p) ≡ true
item-absent (key, value) v = ground (arith, absent-append b'&' key (b'=' ∷ value))

pub lookup-put :
    (key j value : Bytes) (m : Map)
    → lookup j (put key value m) ≡ (if bytes_eq key j then some value else lookup j m)
lookup-put key j value [] = refl
lookup-put key j value ((k, v) ∷ m) =
    ground
      (arith, bytes_eq_iff k key, bytes_eq_iff k j, bytes_eq_iff key j, lookup-put key j value m)

module _ (b : Strings) where
  split-item : (p : Bytes × Bytes) → IsItem p → as_pair (b.split b'=' (print_item p)) ≡ some p
  split-item (key, value) v =
      ap as_pair
        (b.split_first b'=' key value v.0 ∙ ap (λ l. key ∷ l) (b.split_none b'=' value v.1))

  pub parse_qs_bytes-print_query :
      (p : Bytes × Bytes) (ps : List (Bytes × Bytes)) (m : Map)
      → IsItem p
      → All IsItem ps
      → parse_qs_bytes b (print_query p ps) m ≡ (true, put_all (p ∷ ps) m)
  unfolding parse_qs_bytes put_items
  parse_qs_bytes-print_query p [] m v w =
      let one = b.split_none b'&' (print_item p) (item-absent p v) in
      let pair = split-item p v in rw (one, put_items) (rw (pair, put_items) refl)
  parse_qs_bytes-print_query p (q ∷ ps) m v w =
      let more = b.split_first b'&' (print_item p) (print_query q ps) (item-absent p v) in
      let pair = split-item p v in
      let ih = parse_qs_bytes-print_query q ps (put p.0 p.1 m) w.0 w.1 in
      rw (more, put_items) (rw (pair, put_items) ih)

  -- The request with its line.
  abbrev pub with_query :
      Bytes → Bytes → Bytes → Bytes × Bytes → List (Bytes × Bytes) → Request → Request
  with_query method path version p ps r = record r {
    method = method;
    path = path;
    query = print_query p ps;
    version = codes "HTTP/" ++ version;
    arguments = put_all (p ∷ ps) r.arguments;
  }

  parse_start_line-query :
      (method path version : Bytes) (p : Bytes × Bytes) (ps : List (Bytes × Bytes)) (r : Request)
      → absent b'?' path ≡ true
      → absent b'?' (print_query p ps) ≡ true
      → IsItem p
      → All IsItem ps
      → parse_start_line b
          (method ∷ (path ++ (b'?' ∷ print_query p ps)) ∷ (codes "HTTP/" ++ version) ∷ [])
          r
        ≡ (pos 0, with_query method path version p ps r)
  unfolding parse_start_line parse_uri
  parse_start_line-query method path version p ps r no_mark no_other v w =
      let cut =
        b.split_first b'?' path (print_query p ps) no_mark
        ∙ ap (λ l. path ∷ l) (b.split_none b'?' (print_query p ps) no_other) in
      let parsed = parse_qs_bytes-print_query p ps r.arguments v w in
      rw (b.starts_with_front version (codes "HTTP/"), cut) (rw parsed refl)

  -- A request line of three parts without blanks, whose address has a path and a query of at least
  -- one argument, and fields as `HTTPHeaders::parse` reads them back, are parsed to the parts, the
  -- arguments and the fields, whatever string functions behave as those of boost: a question mark
  -- stands only before the query, and no argument holds a separator. The result is 0, unless the cookies
  -- among the fields cannot be parsed.
  pub parse_http_request-print_query :
      (method path version : Bytes) (p : Bytes × Bytes) (ps fs : List (Bytes × Bytes)) (r : Request)
      → IsLine method (path ++ (b'?' ∷ print_query p ps)) version
      → absent b'?' path ≡ true
      → absent b'?' (print_query p ps) ≡ true
      → IsItem p
      → All IsItem ps
      → All IsField fs
      → let uri = path ++ (b'?' ∷ print_query p ps) in
        let (code, h) = with_cookies b (pos 0, note_fields fs r.headers) in
        parse_http_request b (print_request method uri version fs) r
        ≡ some (
          if is_nonzero code then negsuc 5 else pos 0,
          record (with_query method path version p ps r) { headers = h },
        )
  parse_http_request-print_query method path version p ps fs r lined no_mark no_other v w fields =
      let uri = path ++ (b'?' ∷ print_query p ps) in
      let line = start_line method uri version in
      let rest = print_head fs in
      let text = print_request method uri version fs in
      let at = search-crlf line rest (start_line-absent method uri version lined) in
      let parsed =
        ap (λ n. parse_start_line b (b.split 32 (take n text)) r) at
        ∙ ap (λ l. parse_start_line b (b.split 32 l) r) (take-append_length line (13 ∷ 10 ∷ rest))
        ∙ ap (λ l. parse_start_line b l r) (split-start_line b method uri version lined)
        ∙ parse_start_line-query method path version p ps r no_mark no_other v w in
      parse_http_request-steps b text r (with_query method path version p ps r)
        (with_cookies b (pos 0, note_fields fs r.headers)) parsed
        (ground (arith, at, length-field line rest))
        (ap (λ n. parse b text (n + 2) r.headers) at ∙ parse-print_head b line fs r.headers fields)
