-- ===== src/Http/Printing.antt =====
-- `print` of `HTTPHeaders` and `HTTPRequest`, and `getRequestTimeMS`, of tornado/HttpServer.h and
-- tornado/HttpServer.cpp. What is printed is a text.
use simplesvr.Prelude.{
  ℕ, ◌-◌, ◌<◌, ◌≤◌, ◌≡◌, refl, Bool, true, false, ◌&&◌, ◌||◌, [], ◌∷◌, ◌++◌, arith, ltb, leb, ◌==◌,
  if◌then◌else◌, Bytes, codes,
}
use simplesvr.Prelude.Int.{ℤ, pos, negsuc}
use simplesvr.Http.{Map, Headers}
use simplesvr.Http.Requests.{Request}
use simplesvr.Http.Connection.{Connection, finish, on_write_complete}
use simplesvr.Stream.{Stream}

-- The order of the keys, by which a `std::map` is gone through.
abbrev pub bytes_less : Bytes → Bytes → Bool
bytes_less [] [] = false
bytes_less [] (y ∷ ys) = true
bytes_less (x ∷ xs) [] = false
bytes_less (x ∷ xs) (y ∷ ys) = ltb x y || (x == y && bytes_less xs ys)

abbrev pub insert_item : Bytes × Bytes → Map → Map
insert_item item [] = item ∷ []
insert_item item (x ∷ m) = if bytes_less x.0 item.0 then x ∷ insert_item item m else item ∷ x ∷ m

abbrev pub in_order : Map → Map
in_order [] = []
in_order (x ∷ m) = insert_item x (in_order m)

-- What `%s` prints of `c_str`: the text up to its first null byte.
abbrev pub c_str : Bytes → Bytes
c_str [] = []
c_str (x ∷ xs) = if x == 0 then [] else x ∷ c_str xs

-- `printf("[%s]:[%s]\n", ...)` for every item, behind a prefix.
unfoldable pub print_items : Bytes → Map → Bytes
print_items prefix [] = []
print_items prefix ((key, value) ∷ m) =
    prefix
    ++ codes "["
    ++ c_str key
    ++ codes "]:["
    ++ c_str value
    ++ codes "]\n"
    ++ print_items prefix m

abbrev pub cookies_title : Bytes
cookies_title = codes ".....cookies.....\n"

-- `HTTPHeaders::print`. The second loop goes through `headers_` again.
unfoldable pub print_headers : Headers → Bytes
print_headers h =
    print_items [] (in_order h.headers)
    ++ cookies_title
    ++ print_items (codes "cookies\t\t") (in_order h.headers)

abbrev print_part : Bytes → Bytes → Bytes
print_part name value = name ++ codes "=" ++ c_str value ++ codes "\n"

-- `HTTPRequest::print`.
unfoldable pub print : Request → Bytes
print r =
    print_part (codes "method") r.method
    ++ print_part (codes "path") r.path
    ++ print_part (codes "query") r.query
    ++ print_part (codes "version") r.version
    ++ print_part (codes "body") r.body
    ++ print_part (codes "method") r.method
    ++ codes "===========>> arguments <<===========\n"
    ++ print_items [] (in_order r.arguments)
    ++ codes "===========>> body_arguments <<===========\n"
    ++ print_items [] (in_order r.body_arguments)
    ++ codes "===========>> HTTPHeaders <<===========\n"
    ++ print_headers r.headers

-- Two requests that differ in their cookies only are printed alike: the cookies of a request are never
-- printed.
pub print-cookies :
    (r : Request) (m : Map)
    → print (record r { headers = record (r.headers) { cookies = m } }) ≡ print r
unfolding print print_headers
print-cookies r m = refl

-- A difference of times.
abbrev pub difference : ℕ → ℕ → ℤ
difference a b = if leb b a then pos (a - b) else negsuc (b - a - 1)

-- `getRequestTimeMS`, at the time `now`.
unfoldable pub get_request_time_ms : ℕ → Connection → ℤ
get_request_time_ms now c =
    if c.finish_time == 0
    then difference now c.start_time
    else difference c.finish_time c.start_time

-- From `finish` on, at a time that is not 0, the time of the request stays what it was then, whatever the
-- clock says later and whatever becomes of the stream.
pub get_request_time_ms-finish :
    (now later : ℕ) (s : Stream) (c : Connection)
    → 0 < now
    → c.start_time ≤ now
    → c.finish_time ≡ 0
    → (get_request_time_ms now c ≡ pos (now - c.start_time))
      × (get_request_time_ms later (on_write_complete (record (finish now c) { stream = s }))
          ≡ pos (now - c.start_time))
unfolding get_request_time_ms finish on_write_complete
get_request_time_ms-finish now later s c positive started running = ground arith
