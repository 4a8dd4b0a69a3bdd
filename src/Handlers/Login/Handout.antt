-- ===== src/Handlers/Login/Handout.antt =====
-- The key that polling a login session hands out.
use zhost.Prelude.{
  ℕ, ◌≡◌, inl, inr, refl, some, arith, true, false, String, string_eq, [], Bool-cases, Option-cases,
  is_some, list_eq, nat_eq, pair_eq,
}
use zhost.Prelude.Int.{ℤ, int_eq}
use zhost.Prelude.Table.{lookup}
use zhost.Domain.{LibraryId, ApiKeyId, Principal, api_key_id_new, library_id_new}
use zhost.Config.{Config, recovery_permissions}
use zhost.Db.{Db, Digest, ok, Result-cases}
use zhost.Store.Identity.{authenticate_api_key}
use zhost.Store.Sessions.{
  LoginSessionChange, done, conflict, user_unavailable, complete_login_session, mapped_user,
}
use zhost.Store.Sessions
use zhost.Store.Minted.{complete_login_session-Authenticates}
use zhost.Http.Headers.{HeaderMap, Form, json_response}
use zhost.Handlers.Login.{
  claim, is_own_origin, completed_json, check_session, answer_check, change_response,
  answer_completion, complete_session, login_authorize,
}

only_done : (change : LoginSessionChange) → (change_response change).status ≡ 200 → change ≡ done
only_done done h = refl
only_done conflict h = absurd (ground arith)
only_done Sessions.LoginSessionChange.expired h = absurd (ground arith)
only_done Sessions.LoginSessionChange.missing h = absurd (ground arith)
only_done user_unavailable h = absurd (ground arith)

module _ (sha256 : String → Digest) (api_key : String → String) (config : Config) (now : ℕ)
    (sequence : ℤ) where
  complete_session-Completed :
      (token issuer subject : String) (db : Db)
      → (complete_session sha256 api_key config now sequence token issuer subject db).1.status ≡ 200
      → (is_some (recovery_permissions config (sha256 (api_key token))) ≡ false)
        × (complete_login_session db now sequence
              (sha256 token)
              (sha256 (api_key token))
              issuer
              subject
            ≡ ok (
              (complete_session sha256 api_key config now sequence token issuer subject db).0,
              done,
            ))
  unfolding complete_session answer_completion
  complete_session-Completed token issuer subject db h =
      elim (Bool-cases (is_some (recovery_permissions config (sha256 (api_key token))))) [
        | inl collides ↦ absurd (ground arith)
        | inr free ↦
            elim (Result-cases (
              complete_login_session db now sequence (sha256 token) (sha256 (api_key token)) issuer
                subject)) [
                  | inl (problem, broken) ↦ absurd (ground arith)
                  | inr ((db', change), run) ↦
                      let is_done = only_done change (ground arith) in
                      (free, rw (complete_session, free, run, is_done) refl)
                ]
      ]

-- The claims of the request, the session of its form, and what is found after it.
abbrev pub HandedOut :
    (String → Digest)
    → (String → String)
    → Config
    → HeaderMap
    → Form
    → Db
    → Db
    → ApiKeyId
    → ℕ
    → Type 0
HandedOut sha256 api_key config headers form db db' key_id later =
    (token issuer subject : String) × (p : Principal) × (is_own_origin config headers ≡ true)
    × (claim "x-xotero-oidc-issuer" headers ≡ some issuer)
    × (claim "x-xotero-oidc-subject" headers ≡ some subject)
    × (lookup "session" form ≡ some token)
    × (mapped_user db issuer subject ≡ some p.user_id.get)
    × (is_some (recovery_permissions config (sha256 (api_key token))) ≡ false)
    × (authenticate_api_key db' (sha256 (api_key token))
        ≡ ok
            (some (key_id, p, record { library = true; notes = true; write = true; files = true })))
    × (check_session sha256 api_key config later token db'
        ≡ json_response [] (completed_json sha256 api_key config token p))

-- An approval that is answered 200 came from this server's origin, or told none, with exactly one
-- issuer and one subject that are mapped to a user. Polling the session then hands out the key of
-- its token, and that key, which is no recovery key, authenticates as the mapped user with every
-- permission. The identifier of the key and those of stored personal libraries must be positive.
pub login_authorize-HandedOut :
    (sha256 : String → Digest) (api_key : String → String) (config : Config) (now : ℕ)
    (sequence : ℤ) (headers : HeaderMap) (form : Form) (db : Db) (key_id : ApiKeyId) (later : ℕ)
    → api_key_id_new sequence ≡ some key_id
    → ((user library_id : ℤ)
        → lookup user db.accounts.personal_libraries ≡ some library_id
        → (l : LibraryId) × (library_id_new library_id ≡ some l))
    → (login_authorize sha256 api_key config now sequence headers form db).1.status ≡ 200
    → HandedOut sha256 api_key config headers form db
        (login_authorize sha256 api_key config now sequence headers form db).0
        key_id
        later
unfolding login_authorize check_session answer_check
login_authorize-HandedOut sha256 api_key config now sequence headers form db key_id later valid
      libraries h =
    elim (Bool-cases (is_own_origin config headers)) [
      | inr other ↦ absurd (ground arith)
      | inl own ↦ elim (Option-cases (claim "x-xotero-oidc-issuer" headers)) [
        | inl absent ↦ absurd (ground arith)
        | inr (issuer, one) ↦ elim (Option-cases (claim "x-xotero-oidc-subject" headers)) [
          | inl absent ↦ absurd (ground arith)
          | inr (subject, two) ↦ elim (Option-cases (lookup "session" form)) [
            | inl absent ↦ absurd (ground arith)
            | inr (token, given) ↦
                let run : login_authorize sha256 api_key config now sequence headers form db
                    ≡ complete_session sha256 api_key config now sequence token issuer subject db =
                  rw (login_authorize, own, one, two, given) refl in
                let (free, completed) =
                  complete_session-Completed sha256 api_key config now sequence token issuer subject
                    db (rw (← run) h) in
                let (p, mapped, authenticated, polled) =
                  complete_login_session-Authenticates db _ now sequence (sha256 token)
                    (sha256 (api_key token)) issuer subject key_id later completed valid
                    libraries in
                (
                  token,
                  issuer,
                  subject,
                  p,
                  own,
                  one,
                  two,
                  given,
                  mapped,
                  free,
                  rw run authenticated,
                  rw (run, check_session, polled) refl,
                )
          ]
        ]
      ]
    ]
