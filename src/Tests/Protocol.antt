-- ===== src/Tests/Protocol.antt =====
-- Requests that follow one another on the example: an upload and its registration, a cleanup, and a
-- login up to the key that it hands out.
use zhost.Prelude.{
  ℕ, ◌≡◌, refl, ◌∙◌, inr, String, Bool, true, false, Option, none, some, List, [], ◌∷◌, arith,
  string_eq, nat_eq, list_eq, ◌==◌, if◌then◌else◌, length, all, ap,
}
use zhost.Prelude.Int.{ℤ, pos, int_eq}
use zhost.Prelude.Table.{Table, lookup, upsert, delete, lookup-upsert_self}
use zhost.Prelude.Text.{chars}
use zhost.Domain.{LibraryId, ApiKeyId, library_id_new, user_id_new, api_key_id_new}
use zhost.Db.{Db, Digest, Result, authorized, ok, err}
use zhost.Http.Body.{bytes, buffered_body}
use zhost.Http.Middleware.{max_body}
use zhost.Http.Headers.{HeaderMap, Form, status_only, header_text}
use zhost.Json.{insert, str_of, get_field}
use zhost.Prelude.Int.{add_i64}
use zhost.Prelude.Text.{eq_ignore_ascii_case}
use zhost.Prelude.Table.{update_rows}
use zhost.Store.{is_stored_file_attachment}
use zhost.Store.Identity.{
  authenticate_api_key, active_key, find_key, active_principal, principal_from_row,
}
use zhost.Store.Authority.{
  lock_upload_authorities, lock_and_recheck, with_libraries, resolve, allows, still_allows,
  lock_libraries, sort, dedup, insert_sorted, upload_authorized,
}
use zhost.Store.Registration.{
  FileRegistrationOutcome, done, register_file, register_row, register_locked, register_item,
  install,
}
use zhost.Store.Files.{pending_upload, claim_pending_upload, mark_pending_upload_uploaded, move}
use zhost.Config.{key_permissions, recovery_permissions}
use zhost.Http.Body.{decode_gzip, read_frames}
use zhost.Handlers.Files.Put.{put_found, receive_bytes, store_bytes, complete_upload}
use zhost.Handlers.Files.Storage.{put}
use zhost.Handlers.Files.Storage.{Bucket, BucketLaws}
use zhost.Handlers.Files.Cleanup.{Rounds}
use zhost.Handlers.Files.Put.{Circumstances, UploadRequest, upload_put}
use zhost.Handlers.Files.Stored.{Respects, StoredBytes, upload_put-StoredBytes}
use zhost.Handlers.Files.Registered.{Carried, upload_put-register_file}
use zhost.Store.Keys.{is_key_char}
use zhost.Handlers.Login.{login_authorize}
use zhost.Handlers.Login.Handout.{HandedOut, login_authorize-HandedOut}
use zhost.Handlers.Login.Key.{login_api_key}
use zhost.Handlers.Login.Length.{login_api_key-KeyPart}
use zhost.Store.Sessions.{complete_login_session, mint, mapped_user}
use zhost.Store.Sessions
use zhost.Store.Minted.{Authenticates, complete_login_session-Authenticates}
use zhost.Tests.{config, access, context, db_with, db, library_one, session}

abbrev table : Bucket (Table String (List ℕ))
table = record {
  put_object_with_content_type = λ s key body content_type. (upsert key body s, some 200);
  delete_object = λ s key. (delete key s, some 204);
  presign_get = λ s key. none;
  holds = λ s key. lookup key s;
}

table-BucketLaws : BucketLaws table
table-BucketLaws = record {
  put_same = λ s key body content_type stored. lookup-upsert_self key body s;
}

abbrev body_md5 : List ℕ → String
body_md5 body = "m"

abbrev hash_token : String → Digest
hash_token s = if s == "token" then 1 ∷ [] else 9 ∷ []

abbrev no_gunzip : List ℕ → ℕ → Option (List ℕ)
no_gunzip body bound = none

abbrev prompt : Rounds
prompt = record { claimed_at = λ i. some 10; removes = λ i h. true }

abbrev quiet : Circumstances (Table String (List ℕ))
quiet = record {
  looked_up = 10;
  claimed_at = 10;
  stored_at = 10;
  rounds = prompt;
  meanwhile = λ d. d;
  during = λ d. d;
}

abbrev ten_bytes : List ℕ
ten_bytes = 1 ∷ 2 ∷ 3 ∷ 4 ∷ 5 ∷ 6 ∷ 7 ∷ 8 ∷ 9 ∷ 10 ∷ []

abbrev upload : UploadRequest
upload = record { token = "token"; content_encoding = none; frames = bytes ten_bytes ∷ [] }

alone : (h : Digest) → Respects table h (λ w. w)
alone h w row there = (row, there, refl, inr refl)

abbrev after_put : (Db × Table String (List ℕ))
after_put =
    (upload_put table body_md5 quiet hash_token no_gunzip config upload (db_with authorized, [])).0

put_run :
    upload_put table body_md5 quiet hash_token no_gunzip config upload (db_with authorized, [])
    ≡ ((db, ("blob", ten_bytes) ∷ []), status_only 201)
unfolding upload_put pending_upload lookup upload_authorized authenticate_api_key active_key
    find_key active_principal api_key_id_new principal_from_row user_id_new library_id_new
    buffered_body claim_pending_upload put mark_pending_upload_uploaded upsert key_permissions
    recovery_permissions put_found receive_bytes store_bytes complete_upload decode_gzip read_frames
    eq_ignore_ascii_case allows resolve move update_rows
put_run = refl

created :
    (upload_put table body_md5 quiet hash_token no_gunzip config upload
      (db_with authorized, [])).1.status
    ≡ 201
created = ap (λ w. w.1.status) put_run

abbrev registered_db : Result (Db × FileRegistrationOutcome) → Db
registered_db (ok r) = r.0
registered_db (err e) = db

-- The database after the upload is registered.
abbrev with_file : Db
with_file =
    registered_db (register_file hash_token config context db db 10 (1 ∷ []) "ABCD2345" access)

registered_run :
    register_file hash_token config context db db 10 (1 ∷ []) "ABCD2345" access
    ≡ ok (with_file, done (pos 6))
unfolding register_file register_row lock_upload_authorities lock_and_recheck with_libraries resolve
    allows still_allows lock_libraries sort dedup insert_sorted register_locked register_item
    install is_stored_file_attachment str_of insert lookup upsert delete authenticate_api_key
    active_key find_key active_principal principal_from_row library_id_new user_id_new
    api_key_id_new get_field add_i64
registered_run = refl

registered_after :
    register_file hash_token config context db after_put.0 10 (1 ∷ []) "ABCD2345" access
    ≡ ok (with_file, done (pos 6))
registered_after =
    ap (λ w. register_file hash_token config context db w.0.0 10 (1 ∷ []) "ABCD2345" access) put_run
    ∙ registered_run

upload_put-StoredBytes_example :
    StoredBytes table body_md5 quiet config
      (1 ∷ [])
      (buffered_body no_gunzip none max_body (bytes ten_bytes ∷ []))
      (db_with authorized)
      after_put
upload_put-StoredBytes_example =
    upload_put-StoredBytes table body_md5 quiet hash_token no_gunzip config upload
      (db_with authorized) [] table-BucketLaws (alone (1 ∷ [])) (alone (1 ∷ [])) created

upload_put-register_file_example :
    Carried table body_md5
      (buffered_body no_gunzip none max_body (bytes ten_bytes ∷ []))
      after_put.1
      with_file
      access
      "ABCD2345"
upload_put-register_file_example =
    upload_put-register_file table body_md5 quiet hash_token no_gunzip config upload
      (db_with authorized) [] (λ w. w) context db with_file 10 "ABCD2345" access (pos 6)
      table-BucketLaws (alone (1 ∷ [])) (alone (1 ∷ [])) (alone (1 ∷ [])) created registered_after

-- A login whose proxy says who logs in.
abbrev hash_session : String → Digest
hash_session s = if s == "tok" then 5 ∷ [] else 6 ∷ []

abbrev key_of : String → String
key_of token = "KEY"

abbrev key_nine : ApiKeyId
key_nine = record { get = pos 9 }

positive_one : library_id_new (pos 1) ≡ some library_one
unfolding library_id_new
positive_one = refl

library_of :
    (b : Bool) (library_id : ℤ)
    → (if b then some (pos 1) else none) ≡ some library_id
    → (l : LibraryId) × (library_id_new library_id ≡ some l)
library_of true library_id e =
    let q : pos 1 ≡ library_id = cc in rw (← q) (library_one, positive_one)
library_of false library_id e = absurd (ground arith)

one_library :
    (user library_id : ℤ)
    → lookup user db.accounts.personal_libraries ≡ some library_id
    → (l : LibraryId) × (library_id_new library_id ≡ some l)
unfolding lookup
one_library user library_id e = library_of (pos 7 == user) library_id e

-- The database after the session is completed.
abbrev after_login : Db
after_login = mint db 10 (5 ∷ []) session (6 ∷ []) (pos 7) (pos 9)

completed_run :
    complete_login_session db 10 (pos 9) (5 ∷ []) (6 ∷ []) "issuer" "ada"
    ≡ ok (after_login, Sessions.done)
unfolding complete_login_session lookup mapped_user user_id_new find_key
completed_run = refl

positive_nine : api_key_id_new (pos 9) ≡ some key_nine
unfolding api_key_id_new
positive_nine = refl

complete_login_session-Authenticates_example :
    Authenticates db (5 ∷ []) (6 ∷ []) "issuer" "ada" after_login key_nine 20
complete_login_session-Authenticates_example =
    complete_login_session-Authenticates db after_login 10 (pos 9) (5 ∷ []) (6 ∷ []) "issuer" "ada"
      key_nine 20 completed_run positive_nine one_library

abbrev claims : HeaderMap
claims = ("x-xotero-oidc-issuer", some "issuer") ∷ ("x-xotero-oidc-subject", some "ada") ∷ []

abbrev session_form : Form
session_form = ("session", "tok") ∷ []

login_authorize-HandedOut_example :
    HandedOut hash_session key_of config claims session_form db
      (login_authorize hash_session key_of config 10 (pos 9) claims session_form db).0
      key_nine
      20
unfolding login_authorize header_text lookup recovery_permissions complete_login_session user_id_new
    find_key
login_authorize-HandedOut_example =
    login_authorize-HandedOut hash_session key_of config 10 (pos 9) claims session_form db key_nine
      20 positive_nine one_library refl

abbrev twelve : List ℕ
twelve = 1 ∷ 2 ∷ 3 ∷ 250 ∷ 4 ∷ 5 ∷ 6 ∷ 7 ∷ 8 ∷ 9 ∷ 10 ∷ 11 ∷ 12 ∷ []

abbrev hmac : String → String → List ℕ → List ℕ
hmac separator token counter = twelve

login_api_key-KeyPart_example :
    (length (chars (login_api_key hmac "tok")) ≡ 24)
    × (all is_key_char (chars (login_api_key hmac "tok")) ≡ true)
login_api_key-KeyPart_example = login_api_key-KeyPart hmac "tok" 2 (omega arith) (omega arith)
