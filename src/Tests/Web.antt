-- ===== src/Tests/Web.antt =====
-- Requests, groups, queries and logins on the example.
use zhost.Prelude.{
  ℕ, ◌≡◌, ◌≤◌, refl, Option, none, some, List, [], ◌∷◌, true, false, pair_eq, string_eq, ◌==◌,
  list_eq, nat_eq, length,
}
use zhost.Prelude.Int.{ℤ, pos, int_eq, ◌≤ℤ◌}
use zhost.Prelude.Table.{lookup, upsert}
use zhost.Prelude.Text.{split, parse_i64, eq_ignore_ascii_case}
use zhost.Domain.{LibraryAccess, library_id_new, user_id_new, api_key_id_new}
use zhost.Db.{Db, LoginRow, ok}
use zhost.Config.{recovery_permissions}
use zhost.Store.Groups.{
  allowed, resolve_group_library, resolve_group_library_with_grants, group_row, decide_group,
}
use zhost.Store.Granted.{Granted}
use zhost.Store.Policy.{resolve_group_library-Justified}
use zhost.Store.Sessions.{
  done, conflict, complete_login_session, cancel_login_session, mapped_user, mint, is_expired,
}
use zhost.Store.Logins.{complete_login_session-once, cancel_login_session-closes}
use zhost.Store.Identity.{
  authenticate_api_key, active_key, find_key, active_principal, principal_from_row,
}
use zhost.Query.{Params, from_params}
use zhost.Query.Bounds.{from_params-bounds}
use zhost.Http.Body.{bytes, complete, buffered_body, read_frames, decode_gzip}
use zhost.Http.Limits.{buffered_body-length}
use zhost.Http.Middleware.{
  proceed, put, log_and_auth, personal_access, check_owner, select_access, check_access,
  is_bootstrap, is_upload, authenticate_request,
}
use zhost.Http.Validation.{
  path_user_id, path_group_data_id, is_group_discovery_path, is_attachment_permission_path,
  is_group_discovery, is_attachment_segments,
}
use zhost.Http.Access.{Passed, log_and_auth-Permitted}
use zhost.Tests.{hash, config, context, db, session}

put_run :
    log_and_auth hash config db put "/users/7/items" (some "secret")
    ≡ proceed (some (personal_access context)) (some context)
unfolding log_and_auth authenticate_request check_owner select_access check_access is_bootstrap
    is_upload path_user_id path_group_data_id is_group_discovery_path is_group_discovery
    is_attachment_permission_path is_attachment_segments recovery_permissions authenticate_api_key
    active_key find_key active_principal principal_from_row lookup library_id_new user_id_new
    api_key_id_new split parse_i64
put_run = refl

log_and_auth-Permitted_example :
    Passed hash config db put "/users/7/items"
      (some "secret")
      (some (personal_access context))
      (some context)
log_and_auth-Permitted_example =
    log_and_auth-Permitted hash config db put "/users/7/items" (some "secret")
      (some (personal_access context)) (some context) put_run

abbrev access_of_group : LibraryAccess
access_of_group = record {
  library_id = record { get = pos 2 };
  group_id = some (record { get = pos 4 });
  permissions = record { library = true; notes = true; write = true; files = true };
  is_admin = false;
  file_write = false;
}

group_run :
    resolve_group_library db
      (record { get = pos 4 })
      (record { get = pos 7 })
      (some (record { get = pos 3 }))
      none
    ≡ ok (allowed access_of_group)
unfolding resolve_group_library resolve_group_library_with_grants group_row decide_group lookup
    library_id_new
group_run = refl

resolve_group_library-Justified_example :
    Granted db
      (record { get = pos 4 })
      (record { get = pos 7 })
      (some (record { get = pos 3 }))
      none
      access_of_group
resolve_group_library-Justified_example =
    resolve_group_library-Justified db (record { get = pos 4 }) (record { get = pos 7 })
      (some (record { get = pos 3 })) none access_of_group group_run

abbrev gunzip : List ℕ → ℕ → Option (List ℕ)
gunzip raw n = some raw

body_run : buffered_body gunzip (some "gzip") 4 (bytes (1 ∷ 2 ∷ []) ∷ []) ≡ complete (1 ∷ 2 ∷ [])
unfolding buffered_body read_frames decode_gzip eq_ignore_ascii_case
body_run = refl

buffered_body-length_example : length {A = ℕ} (1 ∷ 2 ∷ []) ≤ 4
buffered_body-length_example =
    buffered_body-length gunzip (some "gzip") 4 (bytes (1 ∷ 2 ∷ []) ∷ []) (1 ∷ 2 ∷ []) body_run

abbrev wide : Params
wide = record { pairs = ("limit", "9999") ∷ ("start", "-3") ∷ [] }

from_params-bounds_example :
    (pos 1 ≤ℤ (from_params wide).limit)
    × ((from_params wide).limit ≤ℤ pos 100)
    × (pos 0 ≤ℤ (from_params wide).start)
from_params-bounds_example = from_params-bounds wide

abbrev completed : Db
completed = mint db 10 (5 ∷ []) session (6 ∷ []) (pos 7) (pos 9)

complete_run :
    complete_login_session db 10 (pos 9) (5 ∷ []) (6 ∷ []) "issuer" "ada" ≡ ok (completed, done)
unfolding complete_login_session mapped_user mint lookup upsert find_key user_id_new
complete_run = refl

complete_login_session-once_example :
    (complete_login_session completed 11 (pos 10) (5 ∷ []) (7 ∷ []) "issuer" "ada"
      ≡ ok (completed, conflict))
    × (cancel_login_session completed 11 (5 ∷ []) ≡ (completed, conflict))
    × ((r : LoginRow) × (user : ℤ) × (lookup (5 ∷ []) db.accounts.login_sessions ≡ some r)
        × ((r.status == "pending") ≡ true)
        × (is_expired 10 r ≡ false)
        × (mapped_user db "issuer" "ada" ≡ some user))
complete_login_session-once_example =
    complete_login_session-once db completed 10 (pos 9) (5 ∷ []) (6 ∷ []) "issuer" "ada" 11 (pos 10)
      (7 ∷ []) "issuer" "ada" complete_run

abbrev cancelled : Db
cancelled = (cancel_login_session db 10 (5 ∷ [])).0

cancel_run : cancel_login_session db 10 (5 ∷ []) ≡ (cancelled, done)
unfolding cancel_login_session lookup upsert
cancel_run = refl

cancel_login_session-closes_example :
    complete_login_session cancelled 11 (pos 9) (5 ∷ []) (6 ∷ []) "issuer" "ada"
    ≡ ok (cancelled, conflict)
cancel_login_session-closes_example =
    cancel_login_session-closes db cancelled 10 11 (pos 9) (5 ∷ []) (6 ∷ []) "issuer" "ada"
      cancel_run
