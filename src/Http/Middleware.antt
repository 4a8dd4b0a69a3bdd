-- ===== src/Http/Middleware.antt =====
-- xotero/src/http/middleware.rs: authenticating a request and selecting its library.
use zhost.Prelude.{
  ℕ, String, Bool, true, false, not, ◌&&◌, ◌||◌, Option, none, some, ◌==◌, if◌then◌else◌, string_eq,
  List, [], ◌∷◌, is_some, is_some_and, keep_if,
}
use zhost.Prelude.Int.{int_eq}
use zhost.Prelude.Text.{split, is_nonempty}
use zhost.Domain.{LibraryAccess, RequestContext, Permissions, Principal, ApiKeyId}
use zhost.Config.{Config, recovery_permissions}
use zhost.Db.{Db, Digest, Result, ok, err, ◌>>=◌}
use zhost.Store.Identity.{bootstrap_principal, authenticate_api_key}
use zhost.Store.Groups.{allowed, denied, missing, resolve_group_library}
use zhost.Http.Validation.{
  is_attachment_permission_path, is_group_discovery_path, path_user_id, path_group_data_id,
}

pub data Method : Type 0 where
  get head post put patch delete other : Method

abbrev pub max_body : ℕ
max_body = 268435456

abbrev pub max_public_body : ℕ
max_public_body = 1048576

abbrev recovery_context : String → Permissions → Option Principal → Option RequestContext
recovery_context token permissions none = none
recovery_context token permissions (some principal) = some (record {
  presented_key = token;
  principal = principal;
  permissions = permissions;
  api_key_id = none;
})

abbrev key_context : String → Option (ApiKeyId × Principal × Permissions) → Option RequestContext
key_context token none = none
key_context token (some (id, principal, permissions)) = some (record {
  presented_key = token;
  principal = principal;
  permissions = permissions;
  api_key_id = some id;
})

-- `token` is the header `zotero-api-key`, if it is there and visible ASCII.
unfoldable pub authenticate_request :
    (String → Digest) → Config → Db → Option String → Result (Option RequestContext)
authenticate_request sha256 config db token = elim (keep_if is_nonempty token) [
  | none ↦ ok none
  | some key ↦ elim (recovery_permissions config (sha256 key)) [
    | some permissions ↦ (do
      principal ← bootstrap_principal db config.user_id
      ok (recovery_context key permissions principal))
    | none ↦ (do found ← authenticate_api_key db (sha256 key); ok (key_context key found))
  ]
]

abbrev pub is_post : Method → Bool
is_post post = true
is_post _ = false

abbrev pub is_login_method : Method → Bool
is_login_method get = true
is_login_method head = true
is_login_method post = true
is_login_method _ = false

abbrev pub is_session_method : Method → Bool
is_session_method get = true
is_session_method head = true
is_session_method delete = true
is_session_method _ = false

abbrev pub is_mutating : Method → Bool
is_mutating post = true
is_mutating put = true
is_mutating patch = true
is_mutating delete = true
is_mutating _ = false

abbrev pub upload_segments : List String → Bool
upload_segments (root ∷ uploads ∷ token ∷ []) =
    root == "" && uploads == "uploads" && is_nonempty token
upload_segments segments = false

abbrev pub session_segments : List String → Bool
session_segments (root ∷ keys ∷ sessions ∷ token ∷ []) =
    root == "" && keys == "keys" && sessions == "sessions" && is_nonempty token
session_segments segments = false

unfoldable pub is_upload : Method → String → Bool
is_upload method path = is_post method && upload_segments (split b'/' path)

unfoldable pub is_bootstrap : Method → String → Bool
is_bootstrap method path =
    is_upload method path
    || (path == "/login" && is_login_method method)
    || (path == "/keys/sessions" && is_post method)
    || (session_segments (split b'/' path) && is_session_method method)

-- A response made at once, or the access and the context that the handler runs with.
pub data Verdict : Type 0 where
  respond : ℕ → Verdict
  proceed : Option LibraryAccess → Option RequestContext → Verdict

-- The guards on the selected library, in the order of the source.
unfoldable pub check_access : Method → String → RequestContext → Option LibraryAccess → Verdict
check_access method path context access =
    if is_attachment_permission_path path && is_some_and (λ a. not a.permissions.files) access
    then respond 403
    else if is_mutating method
        && is_attachment_permission_path path
        && is_some_and (λ a. not a.file_write) access
    then respond 403
    else if is_mutating method && is_some_and (λ a. not a.permissions.write) access
    then respond 403
    else proceed access (some context)

abbrev pub personal_access : RequestContext → LibraryAccess
personal_access context = record {
  library_id = context.principal.library_id;
  group_id = none;
  permissions = context.permissions;
  is_admin = true;
  file_write = context.permissions.write && context.permissions.files;
}

unfoldable pub select_access : Db → Method → String → RequestContext → Verdict
unfolding check_access
select_access db method path context = elim (path_group_data_id path) [
  | none ↦ respond 404
  | some (some group_id) ↦
      elim (resolve_group_library db group_id context.principal.user_id context.api_key_id
        (if is_some context.api_key_id then none else some context.permissions)) [
          | err e ↦ respond 500
          | ok (allowed access) ↦ check_access method path context (some access)
          | ok denied ↦ respond 403
          | ok missing ↦ respond 404
        ]
  | some none ↦
      if not (path == "/keys/current") && not (is_group_discovery_path path)
      then (if context.permissions.library
          then check_access method path context (some (personal_access context))
          else respond 403)
      else check_access method path context none
]

-- The owner named by the path is the caller, but for the discovery of groups.
unfoldable pub check_owner : Db → Method → String → RequestContext → Verdict
unfolding select_access
check_owner db method path context = elim (path_user_id path) [
  | none ↦ respond 404
  | some none ↦ select_access db method path context
  | some (some id) ↦
      if id == context.principal.user_id.get || is_group_discovery_path path
      then select_access db method path context
      else respond 403
]

-- `log_and_auth`, up to the body.
unfoldable pub log_and_auth :
    (String → Digest) → Config → Db → Method → String → Option String → Verdict
unfolding authenticate_request check_owner
log_and_auth sha256 config db method path token =
    if is_bootstrap method path
    then proceed none none
    else elim (authenticate_request sha256 config db token) [
      | err e ↦ respond 500
      | ok none ↦ respond 403
      | ok (some context) ↦ check_owner db method path context
    ]

-- The limit of the body that is read before the handler runs; an upload reads its own.
unfoldable pub body_limit : Method → String → Option ℕ
body_limit method path =
    if is_upload method path
    then none
    else if is_bootstrap method path
    then some max_public_body
    else some max_body
