-- ===== src/Http/Headers.antt =====
-- xotero/src/http/headers.rs, http/access.rs and error.rs: the headers that a request is read by,
-- and the responses that the handlers make.
use zhost.Prelude.{
  String, Bool, not, ◌&&◌, Option, none, some, string_eq, List, [], ◌∷◌, ◌++◌, ℕ, ◌==◌, and_then,
  unwrap_or, retain,
}
use zhost.Prelude.Int.{ℤ, pos, ltb_ℤ, leb_ℤ}
use zhost.Prelude.Table.{Table, lookup}
use zhost.Prelude.Text.{split, is_nonempty, parse_i64}
use zhost.Prelude.Format.{concat, int_to_string}
use zhost.Json.{Value}
use zhost.Domain.{LibraryAccess, LibraryId}
use zhost.Config.{Config}
use zhost.Db.{Db, DbError, Result, ok, ◌>>=◌}
use zhost.Store.{current_version}

-- The headers of a request, by their lowercase names; `none` is a value that is not visible ASCII.
abbrev pub HeaderMap : Type 0
HeaderMap = Table String (Option String)

-- A query or a form, decoded.
abbrev pub Form : Type 0
Form = Table String String

pub data ResponseBody : Type 0 where
  empty : ResponseBody
  text : String → ResponseBody
  json : Value → ResponseBody

pub record Response : Type 0 where
  pub status : ℕ
  pub headers : Table String String
  pub body : ResponseBody

-- `status.into_response()`.
abbrev pub status_only : ℕ → Response
status_only status = record { status = status; headers = []; body = empty }

abbrev pub message : ℕ → String → Response
message status words = record { status = status; headers = []; body = text words }

abbrev pub with_headers : ℕ → Table String String → Response
with_headers status headers = record { status = status; headers = headers; body = empty }

abbrev pub json_response : Table String String → Value → Response
json_response headers value = record { status = 200; headers = headers; body = json value }

-- `server_error` and `s3_error` of xotero/src/error.rs.
abbrev pub server_error : DbError → Response
server_error error = status_only 500

abbrev pub s3_error : Response
s3_error = status_only 500

-- `request_library` of xotero/src/http/access.rs; the access is the one that was selected.
abbrev pub request_library : LibraryAccess → LibraryId
request_library access = access.library_id

unfoldable pub version_headers : ℤ → Table String String
version_headers version = ("last-modified-version", int_to_string version) ∷ []

unfoldable pub current_headers : Db → LibraryAccess → Result (Table String String)
unfolding version_headers
current_headers db access = do
  current ← current_version db (request_library access)
  ok (version_headers current)

unfoldable pub since_check : Db → LibraryAccess → ℤ → Result (ℤ × Bool)
since_check db access since = do
  current ← current_version db (request_library access)
  ok (current, ltb_ℤ (pos 0) since && leb_ℤ current since)

-- `headers.get(name).and_then(|v| v.to_str().ok())`.
unfoldable pub header_text : String → HeaderMap → Option String
header_text name headers = and_then (lookup name headers) (λ value. value)

unfoldable pub if_modified_since : HeaderMap → ℤ
unfolding header_text
if_modified_since headers =
    unwrap_or (pos 0) (and_then (header_text "if-modified-since-version" headers) parse_i64)

unfoldable pub if_unmodified : HeaderMap → Option ℤ
unfolding header_text
if_unmodified headers = and_then (header_text "if-unmodified-since-version" headers) parse_i64

-- `parse` is the http crate's test of a header's value.
abbrev pub header_value : (String → Option String) → String → String
header_value parse value = unwrap_or "" (parse value)

-- The `Result` of the source: a rejection, or the version.
pub data Guard : Type 0 where
  reject : Response → Guard
  expect : ℤ → Guard

abbrev pub required : Option ℤ → Guard
required none = reject (message 428 "If-Unmodified-Since-Version required")
required (some version) = expect version

unfoldable pub precondition : HeaderMap → Guard
unfolding if_unmodified
precondition headers = required (if_unmodified headers)

unfoldable pub conflict : ℤ → Response
unfolding version_headers
conflict current = with_headers 412 (version_headers current)

unfoldable pub since_of : Form → ℤ
since_of params = unwrap_or (pos 0) (and_then (lookup "since" params) parse_i64)

unfoldable pub csv : String → List String
csv value = retain is_nonempty (split b',' value)

unfoldable pub csv_of : Form → String → List String
unfolding csv
csv_of params key = elim (lookup key params) [ none ↦ [] | some value ↦ csv value ]

-- `from_str` and `to_string` are those of serde_urlencoded.
module _ (from_str : String → Option (List (String × String)))
    (to_string : List (String × String) → Option String) where
  abbrev pub next_pairs : Option String → ℤ → List (String × String)
  next_pairs raw start =
      retain (λ pair. not (pair.0 == "start")) (unwrap_or [] (and_then raw from_str))
      ++ (("start", int_to_string start) ∷ [])

  unfoldable pub next_link : Config → String → Option String → ℤ → String
  next_link config path raw start =
      let qs = unwrap_or "" (to_string (next_pairs raw start)) in
      concat ("<" ∷ config.public_url ∷ path ∷ "?" ∷ qs ∷ ">; rel=\"next\"" ∷ [])
