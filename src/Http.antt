-- ===== src/Http.antt =====
-- `HttpRequest` and `HttpResponse` (include/elcache/http_api.hpp, src/http/http_api.cpp). Texts are lists
-- of bytes. A header map is the list of its entries in the order in which they are visited. What throws
-- is `none`.
use el_cache.Common.{
  ℕ, suc, ◌+◌, ◌-◌, Bool, true, false, not, Option, none, some, List, [], ◌∷◌, ◌++◌, ltb, ◌==◌,
  if◌then◌else◌, add64, sub64, length, take, drop,
}
use el_cache.Range.{Range}
use el_cache.Text.{codes, same_text, is_empty, find_char, lower, stoull, decimal, minus}
pub mod Ranges
pub mod Options
pub mod Handlers
pub mod SparseHandlers
pub mod Router
pub mod Gets
pub mod Written
pub mod PutGet
mod Tests
pub mod Effects
pub mod Finalize

abbrev pub Headers : Type 0
Headers = List (List ℕ × List ℕ)

pub record HttpRequest : Type 0 where
  pub method : List ℕ
  pub path : List ℕ
  pub query : List ℕ
  pub headers : Headers
  pub body : List ℕ

-- `headers.find(name)`, and the search that ignores case.
unfoldable pub find_header : List ℕ → Headers → Option (List ℕ)
unfolding same_text
find_header name [] = none
find_header name ((k, v) ∷ l) =
    let rest = find_header name l in if same_text k name then some v else rest

unfoldable pub find_lower : List ℕ → Headers → List ℕ
unfolding same_text lower
find_lower name [] = []
find_lower name ((k, v) ∷ l) =
    let rest = find_lower name l in if same_text (lower k) (lower name) then v else rest

unfoldable pub header : HttpRequest → List ℕ → List ℕ
unfolding find_header find_lower
header req name = elim (find_header name req.headers) [
  | some v ↦ v
  | none ↦ find_lower name req.headers
]

-- `std::optional<uint64_t>`, inside what an exception leaves out.
unfoldable pub content_length : HttpRequest → Option (Option ℕ)
unfolding header stoull
content_length req =
    let cl : List ℕ = header req (codes "Content-Length") in
    if is_empty cl then some none else elim (stoull cl) [ none ↦ none | some n ↦ some (some n) ]

unfoldable pub has_range_header : HttpRequest → Bool
unfolding header
has_range_header req = not (is_empty (header req (codes "Range")))

-- The range of a start and an end, as `uint64_t` computes it.
abbrev pub between : ℕ → ℕ → Range
between start stop = record { offset = start; length = add64 (sub64 stop start) 1 }

-- The start, if there are bytes before the dash, and the end, if there are bytes behind it.
unfoldable pub range_start : List ℕ → ℕ → Option ℕ
unfolding stoull
range_start range_val dash = if ltb 0 dash then stoull (take dash range_val) else some 0

unfoldable pub range_end : List ℕ → ℕ → ℕ → Option ℕ
unfolding stoull
range_end range_val dash total_size =
    if ltb dash (length range_val - 1)
    then stoull (drop (suc dash) range_val)
    else some (sub64 total_size 1)

-- What stands behind "bytes=".
unfoldable pub parse_range_value : List ℕ → ℕ → Option Range
unfolding find_char range_start range_end add64 sub64
parse_range_value range_val total_size = elim (find_char minus range_val) [
  | none ↦ some (record { offset = 0; length = total_size })
  | some dash ↦ elim (range_start range_val dash) [
    | none ↦ none
    | some start ↦ elim (range_end range_val dash total_size) [
      | none ↦ none
      | some stop ↦
          if dash == 0
          then some (between (sub64 total_size stop) (sub64 total_size 1))
          else some (between start stop)
    ]
  ]
]

-- The text of the header.
unfoldable pub parse_range_text : List ℕ → ℕ → Option Range
unfolding find_char parse_range_value
parse_range_text range_str total_size =
    let whole : Range = record { offset = 0; length = total_size } in
    if is_empty range_str then some whole else elim (find_char 61 range_str) [
      | none ↦ some whole
      | some eq ↦ parse_range_value (drop (suc eq) range_str) total_size
    ]

unfoldable pub parse_range_header : HttpRequest → ℕ → Option Range
unfolding header parse_range_text
parse_range_header req total_size = parse_range_text (header req (codes "Range")) total_size

pub record HttpResponse : Type 0 where
  pub status_code : ℕ
  pub status_text : List ℕ
  pub headers : Headers
  pub body : List ℕ

-- `headers[name] = value`.
unfoldable pub set_header : List ℕ → List ℕ → Headers → Headers
unfolding same_text
set_header name value [] = (name, value) ∷ []
set_header name value ((k, v) ∷ l) =
    let rest = (k, v) ∷ set_header name value l in if same_text k name then (k, value) ∷ l else rest

-- `resp.headers[name] = value`.
unfoldable pub with_header : List ℕ → List ℕ → HttpResponse → HttpResponse
unfolding set_header
with_header name value resp = record resp { headers = set_header name value resp.headers }

unfoldable pub set_content_type : List ℕ → HttpResponse → HttpResponse
unfolding with_header
set_content_type type = with_header (codes "Content-Type") type

unfoldable pub set_content_length : ℕ → HttpResponse → HttpResponse
unfolding with_header decimal
set_content_length len = with_header (codes "Content-Length") (decimal len)

-- The text of `Content-Range`.
unfoldable pub content_range : Range → ℕ → List ℕ
unfolding decimal add64 sub64
content_range range total =
    codes "bytes "
    ++ decimal range.offset
    ++ codes "-"
    ++ decimal (sub64 (add64 range.offset range.length) 1)
    ++ codes "/"
    ++ decimal total

unfoldable pub set_range_headers : Range → ℕ → HttpResponse → HttpResponse
unfolding with_header content_range
set_range_headers range total resp =
    with_header (codes "Accept-Ranges") (codes "bytes")
      (with_header (codes "Content-Range") (content_range range total) resp)

unfoldable pub answer : ℕ → List ℕ → List ℕ → HttpResponse
answer code text body = record { status_code = code; status_text = text; headers = []; body = body }

unfoldable pub ok : List ℕ → HttpResponse
unfolding answer
ok body = answer 200 (codes "OK") body

unfoldable pub created : HttpResponse
unfolding answer
created = answer 201 (codes "Created") []

unfoldable pub no_content : HttpResponse
unfolding answer
no_content = answer 204 (codes "No Content") []

unfoldable pub partial_content : List ℕ → Range → ℕ → HttpResponse
unfolding answer set_range_headers
partial_content body range total =
    set_range_headers range total (answer 206 (codes "Partial Content") body)

unfoldable pub text_answer : ℕ → List ℕ → List ℕ → HttpResponse
unfolding answer set_content_type
text_answer code text msg = set_content_type (codes "text/plain") (answer code text msg)

unfoldable pub not_found : List ℕ → HttpResponse
unfolding text_answer
not_found msg = text_answer 404 (codes "Not Found") msg

unfoldable pub bad_request : List ℕ → HttpResponse
unfolding text_answer
bad_request msg = text_answer 400 (codes "Bad Request") msg

unfoldable pub internal_error : List ℕ → HttpResponse
unfolding text_answer
internal_error msg = text_answer 500 (codes "Internal Server Error") msg

unfoldable pub service_unavailable : List ℕ → HttpResponse
unfolding text_answer
service_unavailable msg = text_answer 503 (codes "Service Unavailable") msg
