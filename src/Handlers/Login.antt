-- ===== src/Handlers/Login.antt =====
-- xotero/src/handlers/login.rs: login sessions in the browser.
pub mod Key
pub mod Length
pub mod Handout
use zhost.Prelude.{
  ℕ, String, Bool, true, false, not, ◌&&◌, ◌||◌, Option, none, some, ◌==◌, if◌then◌else◌, string_eq,
  List, [], ◌∷◌, is_some, is_some_and, unwrap_or, keep_if, and_then,
}
use zhost.Prelude.Int.{ℤ}
use zhost.Prelude.Table.{lookup}
use zhost.Prelude.Text.{codes, is_nonempty}
use zhost.Prelude.Format.{concat, lowercase, contains_codes, trim_end_matches}
use zhost.Json.{Value, obj, str, end, field, from_int}
use zhost.Domain.{Principal}
use zhost.Config.{Config, recovery_permissions}
use zhost.Db.{Db, Digest, Result, ok, err}
use zhost.Store.Sessions.{
  LoginSession, pending, cancelled, expired, missing, completed, LoginSessionChange, done, conflict,
  user_unavailable, create_login_session, login_session, cancel_login_session,
  complete_login_session,
}
use zhost.Store.Sessions
use zhost.Http.Headers.{
  HeaderMap, Form, Response, ResponseBody, status_only, message, json_response, server_error,
  header_text, json, text,
}

abbrev pub mentions : String → String → Bool
mentions word agent = contains_codes (codes word) (lowercase agent)

unfoldable pub client_type_of : String → String
client_type_of agent =
    if mentions "android" agent
    then "android"
    else if mentions "iphone" agent || mentions "ipad" agent || mentions "ios" agent
    then "ios"
    else if mentions "windows" agent
    then "windows"
    else if mentions "mac" agent
    then "mac"
    else if mentions "linux" agent
    then "linux"
    else "unknown"

unfoldable pub login_client_type : HeaderMap → String
unfolding client_type_of
login_client_type headers = client_type_of (unwrap_or "" (header_text "user-agent" headers))

-- The values of a header, in order.
abbrev pub get_all : String → HeaderMap → List (Option String)
get_all name [] = []
get_all name ((other, value) ∷ headers) =
    if other == name then value ∷ get_all name headers else get_all name headers

abbrev pub only_value : List (Option String) → Option String
only_value [] = none
only_value (value ∷ []) = keep_if is_nonempty value
only_value (value ∷ other ∷ more) = none

-- A claim of the reverse proxy: exactly one value, visible and not empty.
unfoldable pub claim : String → HeaderMap → Option String
claim name headers = only_value (get_all name headers)

-- The origin is this server's, where the browser tells it.
unfoldable pub is_own_origin : Config → HeaderMap → Bool
is_own_origin config headers = elim (header_text "origin" headers) [
  | none ↦ true
  | some origin ↦ trim_end_matches b'/' origin == trim_end_matches b'/' config.public_url
]

abbrev created : Value → Response
created value = record { status = 201; headers = []; body = json value }

abbrev pub status_json : String → Value
status_json status = obj (field "status" (str status) end)

abbrev pub cancel_status : LoginSessionChange → ℕ
cancel_status done = 204
cancel_status Sessions.LoginSessionChange.missing = 404
cancel_status change = 409

abbrev page : String → String
page token = concat (
    "<!doctype html><meta charset=utf-8><title>xotero login</title>"
    ∷ "<h1>Authorize this Zotero login?</h1>" ∷ "<form method=post action=\"/login\">"
    ∷ "<input type=hidden name=session value=\"" ∷ token ∷ "\">"
    ∷ "<button type=submit>Approve</button></form>" ∷ [])

unfoldable pub answer_page : String → Result LoginSession → Response
answer_page token (ok pending) = message 200 (page token)
answer_page token (ok expired) = status_only 410
answer_page token (ok other) = status_only 404
answer_page token (err error) = server_error error

abbrev pub change_response : LoginSessionChange → Response
change_response done = message 200 "Authorized — return to Zotero."
change_response conflict = status_only 409
change_response Sessions.LoginSessionChange.expired = status_only 410
change_response Sessions.LoginSessionChange.missing = status_only 404
change_response user_unavailable = status_only 403

unfoldable pub answer_completion : Db → Result (Db × LoginSessionChange) → Db × Response
answer_completion db (ok (db', change)) = (db', change_response change)
answer_completion db (err error) = (db, server_error error)

-- `sha256` is the digest of the sha2 crate, and `api_key` the key of a session's token under the
-- secret of the server (`login_api_key` of Key).
module _ (sha256 : String → Digest) (api_key : String → String) (config : Config) where
  abbrev pub session_json : String → Value
  session_json token = obj (
      field "sessionToken" (str token)
        (field "loginURL" (str (concat (config.public_url ∷ "/login?session=" ∷ token ∷ []))) end))

  -- `token` is what the random device gives.
  unfoldable pub create_session : Option String → ℕ → HeaderMap → Db → Db × Response
  create_session none now headers db = (db, status_only 500)
  create_session (some token) now headers db =
      elim (create_login_session db now (sha256 token) (login_client_type headers)) [
        | err error ↦ (db, server_error error)
        | ok db' ↦ (db', created (session_json token))
      ]

  abbrev pub completed_json : String → Principal → Value
  completed_json token principal = obj (
      field "status" (str "completed") (
        field "apiKey" (str (api_key token)) (
          field "userID" (from_int principal.user_id.get)
            (field "username" (str principal.username) end))))

  unfoldable pub answer_check : String → Result LoginSession → Response
  answer_check token (ok pending) = json_response [] (status_json "pending")
  answer_check token (ok cancelled) = json_response [] (status_json "cancelled")
  answer_check token (ok (completed principal)) = json_response [] (completed_json token principal)
  answer_check token (ok expired) = status_only 410
  answer_check token (ok missing) = status_only 404
  answer_check token (err error) = server_error error

  unfoldable pub check_session : ℕ → String → Db → Response
  unfolding answer_check
  check_session now token db = answer_check token (login_session db now (sha256 token))

  unfoldable pub cancel_session : ℕ → String → Db → Db × Response
  cancel_session now token db =
      let r = cancel_login_session db now (sha256 token) in (r.0, status_only (cancel_status r.1))

  unfoldable pub login_page : ℕ → Form → Db → Response
  unfolding answer_page
  login_page now params db = elim (lookup "session" params) [
    | none ↦ message 400 "missing session"
    | some token ↦ answer_page token (login_session db now (sha256 token))
  ]

  -- `sequence` is the next value of the identity column of `api_keys`.
  unfoldable pub complete_session : ℕ → ℤ → String → String → String → Db → Db × Response
  unfolding answer_completion
  complete_session now sequence token issuer subject db =
      if is_some (recovery_permissions config (sha256 (api_key token)))
      then (db, message 409 "generated key collides with recovery key")
      else answer_completion db (
          complete_login_session db now sequence (sha256 token) (sha256 (api_key token)) issuer
            subject)

  unfoldable pub login_authorize : ℕ → ℤ → HeaderMap → Form → Db → Db × Response
  unfolding complete_session claim is_own_origin
  login_authorize now sequence headers form db =
      if not (is_own_origin config headers)
      then (db, message 403 "bad origin")
      else elim (claim "x-xotero-oidc-issuer" headers) [
        | none ↦ (db, message 403 "missing verified OIDC identity")
        | some issuer ↦ elim (claim "x-xotero-oidc-subject" headers) [
          | none ↦ (db, message 403 "missing verified OIDC identity")
          | some subject ↦ elim (lookup "session" form) [
            | none ↦ (db, message 400 "missing session")
            | some token ↦ complete_session now sequence token issuer subject db
          ]
        ]
      ]
