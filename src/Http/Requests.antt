-- ===== src/Http/Requests.antt =====
-- `HTTPRequest` of tornado/HttpServer.h, and how tornado/HttpServer.cpp parses one.
use simplesvr.Prelude.{
  ◌+◌, Bool, true, List, [], ◌∷◌, Option, some, ◌==◌, if◌then◌else◌, length, take, Bytes, codes,
}
use simplesvr.Prelude.Partial.{◌>>=◌}
use simplesvr.Prelude.Int.{ℤ, pos, negsuc, is_nonzero}
use simplesvr.Buffer.{search}
use simplesvr.Http.{Strings, Map, Headers, crlf, get_value, put_items, parse}

-- `HTTPRequest`.
pub record Request : Type 0 where
  pub method : Bytes
  pub path : Bytes
  pub query : Bytes
  pub version : Bytes
  pub arguments : Map
  pub body_arguments : Map
  pub headers : Headers
  pub body : Bytes

module _ (b : Strings) where
  -- `parseQsBytes`: whether it returns 0.
  unfoldable pub parse_qs_bytes : Bytes → Map → Bool × Map
  parse_qs_bytes qs arguments = put_items b (λ item. item) (b.split b'&' qs) arguments

  -- The block that parses the address.
  unfoldable pub parse_uri : List Bytes → Request → ℤ × Request
  parse_uri [] r = (pos 0, r)
  parse_uri (path ∷ []) r = (pos 0, record r { path = path })
  parse_uri (path ∷ query ∷ []) r =
      let (done, arguments) = parse_qs_bytes query r.arguments in
      (
        if done then pos 0 else negsuc 4,
        record r { path = path; query = query; arguments = arguments },
      )
  parse_uri (path ∷ query ∷ more ∷ items) r = (negsuc 3, r)

  unfoldable pub parse_start_line : List Bytes → Request → ℤ × Request
  parse_start_line [] r = (negsuc 1, r)
  parse_start_line (method ∷ []) r = (negsuc 1, r)
  parse_start_line (method ∷ uri ∷ []) r = (negsuc 1, r)
  parse_start_line (method ∷ uri ∷ version ∷ []) r =
      let r' = record r { method = method; version = version } in
      if b.starts_with version (codes "HTTP/")
      then parse_uri (b.split b'?' uri) r'
      else (negsuc 2, r')
  parse_start_line (method ∷ uri ∷ version ∷ more ∷ items) r = (negsuc 1, r)

  -- `parseHttpRequest`.
  unfoldable pub parse_http_request : Bytes → Request → Option (ℤ × Request)
  parse_http_request data_ r =
      let eol = search data_ crlf in
      let (code, r') = parse_start_line (b.split 32 (take eol data_)) r in
      if eol == length data_
      then some (negsuc 0, r)
      else if is_nonzero code
      then some (code, r')
      else (do
        parsed ← parse b data_ (eol + 2) r'.headers
        some (if is_nonzero parsed.0 then negsuc 5 else pos 0, record r' { headers = parsed.1 }))

  -- `parseBodyArguments`: whether it returns 0. The header it looks at is `Content-Encoding`.
  unfoldable pub parse_body_arguments : Bytes → Request → Bool × Request
  parse_body_arguments body r =
      let (done, arguments) = parse_qs_bytes body r.body_arguments in
      if b.starts_with (get_value (codes "Content-Encoding") r.headers)
        (codes "application/x-www-form-urlencoded")
      then (done, record r { body_arguments = arguments })
      else (true, r)
