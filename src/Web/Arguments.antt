-- ===== src/Web/Arguments.antt =====
-- What a handler of tornado/Web.cpp reads from its request.
use simplesvr.Prelude.{
  ◌≡◌, refl, true, List, [], ◌∷◌, ◌++◌, Option, some, none, arith, if◌then◌else◌, Bytes, bytes_eq,
}
use simplesvr.Prelude.Partial.{All, ◌>>=◌}
use simplesvr.Prelude.Int.{pos}
use simplesvr.Http.{Strings, Map, Headers, absent, lookup, put, with_cookies, no_headers}
use simplesvr.Http.Requests.{Request, parse_http_request}
use simplesvr.Http.Posting.{with_form}
use simplesvr.Http.Lines.{IsField, note_fields}
use simplesvr.Http.StartLine.{print_request, IsLine}
use simplesvr.Http.Queries.{
  print_query, IsItem, put_all, lookup-put, with_query, parse_http_request-print_query,
}
use simplesvr.Http.Connection.{Connection, no_request}
use simplesvr.Web.{Handler, get_argument}

-- `get_argument`, `get_body_argument` and `get_cookie`. `none` is a call on the null pointer.
unfoldable pub argument : Bytes → Handler → Option Bytes
argument name h = do c ← h.conn; some (get_argument name c.request.arguments)

unfoldable pub body_argument : Bytes → Handler → Option Bytes
body_argument name h = do c ← h.conn; some (get_argument name c.request.body_arguments)

unfoldable pub cookie : Bytes → Handler → Option Bytes
cookie name h = do c ← h.conn; some (get_argument name c.request.headers.cookies)

-- The last argument of a name, or nothing.
abbrev pub last_value : Bytes → List (Bytes × Bytes) → Option Bytes
last_value name [] = none
last_value name ((key, value) ∷ ps) = elim (last_value name ps) [
  | some v ↦ some v
  | none ↦ if bytes_eq key name then some value else none
]

abbrev pub or_empty : Option Bytes → Bytes
or_empty none = []
or_empty (some v) = v

abbrev over : Option Bytes → Option Bytes → Option Bytes
over none old = old
over (some v) old = some v

lookup-put_all :
    (name : Bytes) (ps : List (Bytes × Bytes)) (m : Map)
    → lookup name (put_all ps m) ≡ over (last_value name ps) (lookup name m)
lookup-put_all name [] m = refl
lookup-put_all name ((key, value) ∷ ps) m =
    ground (arith, lookup-put_all name ps (put key value m), lookup-put key name value m)

get_argument-put_all :
    (name : Bytes) (ps : List (Bytes × Bytes))
    → get_argument name (put_all ps []) ≡ or_empty (last_value name ps)
unfolding get_argument
get_argument-put_all name ps = ground (arith, lookup-put_all name ps [])

module _ (b : Strings) where
  -- A request whose address has a query is parsed to a request in which a handler finds, under every
  -- name, the last value that the query gives to it, and the empty string for a name that it does
  -- not give; the cookies among the fields are to be readable.
  pub argument-print_query :
      (method path version name : Bytes) (p : Bytes × Bytes) (ps fs : List (Bytes × Bytes))
      (hd : Headers) (h : Handler) (c : Connection)
      → IsLine method (path ++ (b'?' ∷ print_query p ps)) version
      → absent b'?' path ≡ true
      → absent b'?' (print_query p ps) ≡ true
      → IsItem p
      → All IsItem ps
      → All IsField fs
      → with_cookies b (pos 0, note_fields fs no_headers) ≡ (pos 0, hd)
      → h.conn ≡ some c
      → c.request ≡ record (with_query b method path version p ps no_request) { headers = hd }
      → (parse_http_request b
            (print_request method (path ++ (b'?' ∷ print_query p ps)) version fs)
            no_request
          ≡ some (pos 0, c.request))
        × (argument name h ≡ some (or_empty (last_value name (p ∷ ps))))
  unfolding argument
  argument-print_query method path version name p ps fs hd h c lined no_mark no_other v w fields
        cookies held same =
      let read =
        parse_http_request-print_query b method path version p ps fs no_request lined no_mark
          no_other v w fields in
      let value = get_argument-put_all name (p ∷ ps) in
      (ground (arith, read, cookies, same), ground (arith, value, same, held))

  -- In a posted form a handler finds, under every name, the last value that the form gives to it, and the
  -- empty string for a name that it does not give.
  pub body_argument-with_form :
      (name : Bytes) (p : Bytes × Bytes) (ps : List (Bytes × Bytes)) (r : Request) (h : Handler)
      (c : Connection)
      → r.body_arguments ≡ []
      → h.conn ≡ some c
      → c.request ≡ with_form b p ps r
      → body_argument name h ≡ some (or_empty (last_value name (p ∷ ps)))
  unfolding body_argument
  body_argument-with_form name p ps r h c fresh held same =
      let value = get_argument-put_all name (p ∷ ps) in ground (arith, value, same, held, fresh)
