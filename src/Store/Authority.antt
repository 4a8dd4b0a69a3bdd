-- ===== src/Store/Authority.antt =====
-- xotero/src/store/files.rs: who may still upload. `sha256` is the digest of the sha2 crate.
use zhost.Prelude.{
  String, Bool, true, false, not, ◌&&◌, Option, none, some, ◌==◌, if◌then◌else◌, string_eq, list_eq,
  nat_eq, pair_eq, option_eq, List, [], ◌∷◌, ◌++◌, is_some, is_some_and, any, retain, length,
}
use zhost.Prelude.Int.{ℤ, int_eq, leb_ℤ}
use zhost.Prelude.Table.{lookup}
use zhost.Domain.{
  library_id_eq, UserId, user_id_eq, ApiKeyId, api_key_id_eq, Permissions, Principal,
  RequestContext,
}
use zhost.Config.{Config, recovery_permissions}
use zhost.Db.{Db, Digest, Result, ok, ◌>>=◌}
use zhost.Store.Identity.{bootstrap_principal, authenticate_api_key}
use zhost.Store.Groups.{
  GroupLibraryResolution, allowed, denied, missing, resolve_group_library_with_grants,
}
use zhost.Store.Files.{PendingUpload}

pub record UploadAuthority : Type 0 where
  pub api_key_id : Option ApiKeyId
  pub principal : Principal
  pub permissions : Permissions

abbrev of_recovery : Permissions → Option Principal → Option UploadAuthority
of_recovery permissions none = none
of_recovery permissions (some principal) =
    some (record { api_key_id = none; principal = principal; permissions = permissions })

abbrev of_key : Option (ApiKeyId × Principal × Permissions) → Option UploadAuthority
of_key none = none
of_key (some (id, principal, permissions)) =
    some (record { api_key_id = some id; principal = principal; permissions = permissions })

unfoldable pub resolve : Db → Config → Digest → Option UserId → Result (Option UploadAuthority)
resolve db config key_hash (some user_id) =
    if not (user_id == config.user_id)
    then ok none
    else elim (recovery_permissions config key_hash) [
      | none ↦ ok none
      | some permissions ↦ (do
        principal ← bootstrap_principal db user_id
        ok (of_recovery permissions principal))
    ]
resolve db config key_hash none = do key ← authenticate_api_key db key_hash; ok (of_key key)

abbrev pub static_permissions : UploadAuthority → Option Permissions
static_permissions a = if is_some a.api_key_id then none else some a.permissions

abbrev allows_resolved : PendingUpload → GroupLibraryResolution → Bool
allows_resolved upload (allowed access) =
    access.library_id == upload.library_id && access.file_write
allows_resolved upload denied = false
allows_resolved upload missing = false

unfoldable pub allows : Db → PendingUpload → Bool × Bool → UploadAuthority → Result Bool
allows db upload grant_rows a = elim upload.group_id [
  | none ↦ ok (
      a.principal.library_id == upload.library_id
      && a.permissions.library
      && a.permissions.write
      && a.permissions.files)
  | some group_id ↦ (do
    r ←
        resolve_group_library_with_grants db group_id a.principal.user_id a.api_key_id
          (static_permissions a) grant_rows
    ok (allows_resolved upload r))
]

-- `PendingUpload::authorized`.
unfoldable pub upload_authorized : Db → Config → PendingUpload → Result Bool
unfolding resolve allows
upload_authorized db config upload =
    resolve db config upload.authorizer_key_hash upload.bootstrap_user_id >>= λ found. elim found [
      | none ↦ ok false
      | some a ↦ allows db upload (true, true) a
    ]

unfoldable pub insert_sorted : ℤ → List ℤ → List ℤ
insert_sorted x [] = x ∷ []
insert_sorted x (y ∷ ys) = if leb_ℤ x y then x ∷ y ∷ ys else y ∷ insert_sorted x ys

unfoldable pub sort : List ℤ → List ℤ
unfolding insert_sorted
sort [] = []
sort (x ∷ xs) = insert_sorted x (sort xs)

unfoldable pub dedup : List ℤ → List ℤ
dedup [] = []
dedup (x ∷ []) = x ∷ []
dedup (x ∷ y ∷ ys) = let rest = dedup (y ∷ ys) in if x == y then rest else x ∷ rest

-- The version of the upload's library; `none` if the row of some library is gone.
unfoldable pub lock_libraries : Db → ℤ → List ℤ → Option ℤ → Option (Option ℤ)
lock_libraries db target [] current = some current
lock_libraries db target (id ∷ ids) current = elim (lookup id db.library) [
  | none ↦ none
  | some l ↦ lock_libraries db target ids (if id == target then some l.version else current)
]

-- The rows that a `select … where <key> = any($1)` returns are as many as the keys.
abbrev pub all_present : (ℤ → Bool) → List ℤ → Bool
all_present present keys = length (retain present keys) == length keys

abbrev pub key_list : Option ApiKeyId → List ℤ
key_list none = []
key_list (some id) = id.get ∷ []

abbrev pub group_locked : Db → PendingUpload → List ℤ → Bool
group_locked db upload owners = elim upload.group_id [
  | none ↦ true
  | some g ↦
      is_some_and (λ row. row.library_id == upload.library_id.get) (lookup g.get db.accounts.groups)
      && all_present (λ u. is_some (lookup (g.get, u) db.accounts.group_memberships)) owners
]

abbrev pub grants : Db → PendingUpload → List ℤ → List ℤ × List ℤ
grants db upload keys = elim upload.group_id [
  | none ↦ ([], [])
  | some g ↦ (
    retain (λ k. is_some (lookup k db.accounts.api_key_all_groups_permissions)) keys,
    retain (λ k. is_some (lookup (k, g.get) db.accounts.api_key_group_permissions)) keys,
  )
]

abbrev pub same_identity : UploadAuthority → UploadAuthority → Bool
same_identity a b =
    a.api_key_id == b.api_key_id
    && a.principal.user_id == b.principal.user_id
    && a.principal.library_id == b.principal.library_id

abbrev granted : List ℤ → Option ApiKeyId → Bool
granted ids = is_some_and (λ id. any (λ k. k == id.get) ids)

-- The second reading of one credential, against what the first reading found.
unfoldable pub still_allows :
    Db
    → Config
    → PendingUpload
    → List ℤ × List ℤ
    → Digest × Option UserId
    → UploadAuthority
    → Result Bool
unfolding resolve allows
still_allows db config upload grant_ids credential discovered =
    resolve db config credential.0 credential.1 >>= λ found. elim found [
      | none ↦ ok false
      | some current ↦
          if not (same_identity current discovered)
          then ok false
          else allows db upload
              (granted grant_ids.0 current.api_key_id, granted grant_ids.1 current.api_key_id)
              current
    ]

module _ (sha256 : String → Digest) (config : Config) (context : RequestContext) where
  abbrev pub uploader : PendingUpload → Digest × Option UserId
  uploader upload = (upload.authorizer_key_hash, upload.bootstrap_user_id)

  abbrev pub caller : Digest × Option UserId
  caller = (
    sha256 context.presented_key,
    if is_some context.api_key_id then none else some context.principal.user_id,
  )

  abbrev pub recheck :
      Db
      → PendingUpload
      → List ℤ × List ℤ
      → UploadAuthority
      → UploadAuthority
      → Option ℤ
      → Result (Option ℤ)
  recheck db upload grant_ids a b current_version = do
    first ← still_allows db config upload grant_ids (uploader upload) a
    second ← (if first then still_allows db config upload grant_ids caller b else ok false)
    ok (if second then current_version else none)

  -- The libraries are locked: the other rows, then the credentials again.
  unfoldable pub with_libraries :
      Db → PendingUpload → UploadAuthority → UploadAuthority → Option (Option ℤ) → Result (Option ℤ)
  unfolding sort dedup still_allows
  with_libraries db upload a b none = ok none
  with_libraries db upload a b (some current_version) =
      let owners = dedup (sort (a.principal.user_id.get ∷ b.principal.user_id.get ∷ [])) in
      let keys = dedup (sort (key_list a.api_key_id ++ key_list b.api_key_id)) in
      if group_locked db upload owners
        && all_present (λ u. is_some (lookup u db.accounts.personal_libraries)) owners
        && all_present (λ k. is_some (lookup k db.accounts.api_keys)) keys
        && all_present (λ k. is_some (lookup k db.accounts.api_key_user_permissions)) keys
      then recheck db upload (grants db upload keys) a b current_version
      else ok none

  -- After both credentials are found: take the locks, then read the credentials again.
  unfoldable pub lock_and_recheck :
      Db → PendingUpload → UploadAuthority → UploadAuthority → Result (Option ℤ)
  unfolding lock_libraries sort dedup with_libraries
  lock_and_recheck db upload a b = with_libraries db upload a b (
      lock_libraries db upload.library_id.get
        (dedup (
          sort
            (upload.library_id.get ∷ a.principal.library_id.get ∷ b.principal.library_id.get ∷ [])))
        none)

  -- `seen` is the database of the first reading and `db` that of the later ones: other
  -- transactions may commit while the locks are waited for.
  unfoldable pub lock_upload_authorities : Db → Db → PendingUpload → Result (Option ℤ)
  unfolding resolve lock_and_recheck
  lock_upload_authorities seen db upload =
      resolve seen config upload.authorizer_key_hash upload.bootstrap_user_id >>= λ first.
      elim first [
        | none ↦ ok none
        | some a ↦
            (resolve seen config caller.0 caller.1 >>= λ second. elim second [
              | none ↦ ok none
              | some b ↦ lock_and_recheck db upload a b
            ])
      ]
