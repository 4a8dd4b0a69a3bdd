-- ===== src/Http/Access.antt =====
-- What a request has passed when its handler runs.
use zhost.Prelude.{
  ◌≡◌, ◌⊎◌, ◌↔◌, inl, inr, refl, Option, none, some, arith, true, false, not, ◌&&◌, ◌||◌, ◌==◌,
  String, string_eq, Bool-cases, Option-cases, is_some, if◌then◌else◌,
}
use zhost.Prelude.Int.{int_eq, beq_ℤ_iff}
use zhost.Domain.{LibraryAccess, RequestContext, GroupId, Permissions}
use zhost.Store.Granted.{Granted}
use zhost.Store.Policy.{resolve_group_library-Justified}
use zhost.Config.{Config}
use zhost.Db.{Db, Digest, Result, ok, err}
use zhost.Store.Groups.{GroupLibraryResolution, allowed, denied, missing, resolve_group_library}
use zhost.Http.Validation.{
  is_attachment_permission_path, is_group_discovery_path, path_user_id, path_group_data_id,
}
use zhost.Http.Middleware.{
  Method, respond, proceed, is_mutating, is_bootstrap, authenticate_request, check_access,
  select_access, check_owner, log_and_auth, personal_access,
}

-- What the method and the path ask of an access besides reading.
abbrev Rights : Method → String → LibraryAccess → Type 0
Rights method path a =
    ((is_mutating method && not a.permissions.write) ≡ false)
    × ((is_attachment_permission_path path && not a.permissions.files) ≡ false)
    × ((is_mutating method && is_attachment_permission_path path && not a.file_write) ≡ false)

-- The rights that the method and the path ask of the selected library, reading first.
abbrev pub Permitted : Method → String → Option LibraryAccess → Type 0
Permitted method path none = ((path == "/keys/current") || is_group_discovery_path path) ≡ true
Permitted method path (some a) =
    (a.permissions.library ≡ true)
    × ((is_mutating method && not a.permissions.write) ≡ false)
    × ((is_attachment_permission_path path && not a.permissions.files) ≡ false)
    × ((is_mutating method && is_attachment_permission_path path && not a.file_write) ≡ false)

-- The library is that of the group that the path names, with what the group gives the caller, or,
-- if the path names no group's data, the caller's personal one with the rights of the key.
abbrev pub Selected : Db → String → RequestContext → LibraryAccess → Type 0
Selected db path context a =
    ((group_id : GroupId) × (path_group_data_id path ≡ some (some group_id))
      × Granted db group_id context.principal.user_id context.api_key_id
          (if is_some context.api_key_id then none else some context.permissions) a)
    ⊎ ((path_group_data_id path ≡ some none)
        × (a.library_id ≡ context.principal.library_id)
        × (a.group_id ≡ none)
        × (a.permissions ≡ context.permissions)
        × ((a.file_write ≡ true)
            ↔ ((context.permissions.write ≡ true) × (context.permissions.files ≡ true))))

abbrev pub IsSelected : Db → String → RequestContext → Option LibraryAccess → Type 0
IsSelected db path context access =
    (access ≡ none) ⊎ ((a : LibraryAccess) × (access ≡ some a) × Selected db path context a)

-- The path names no user, or the caller, or it is about the discovery of groups.
abbrev pub OwnPath : String → RequestContext → Type 0
OwnPath path context =
    (path_user_id path ≡ some none)
    ⊎ (path_user_id path ≡ some (some context.principal.user_id.get))
    ⊎ (is_group_discovery_path path ≡ true)

-- The request is public, or authenticated, on a path of its own and permitted.
abbrev pub Passed :
    (String → Digest)
    → Config
    → Db
    → Method
    → String
    → Option String
    → Option LibraryAccess
    → Option RequestContext
    → Type 0
Passed sha256 config db method path token access c =
    ((is_bootstrap method path ≡ true) × (access ≡ none) × (c ≡ none))
    ⊎ ((context : RequestContext) × (authenticate_request sha256 config db token
          ≡ ok (some context))
        × (c ≡ some context)
        × OwnPath path context
        × IsSelected db path context access
        × Permitted method path access)

check_access-some :
    (method : Method) (path : String) (context : RequestContext) (a : LibraryAccess)
    (access : Option LibraryAccess) (c : Option RequestContext)
    → check_access method path context (some a) ≡ proceed access c
    → (c ≡ some context) × (access ≡ some a) × Rights method path a
unfolding check_access
check_access-some method path context a access c h =
    (ground arith, ground arith, (ground arith, ground arith, ground arith))

check_access-none :
    (method : Method) (path : String) (context : RequestContext) (access : Option LibraryAccess)
    (c : Option RequestContext)
    → check_access method path context none ≡ proceed access c
    → (c ≡ some context) × (access ≡ none)
unfolding check_access
check_access-none method path context access c h = (ground arith, ground arith)

group_access :
    (method : Method) (path : String) (context : RequestContext) (r : Result GroupLibraryResolution)
    (access : Option LibraryAccess) (c : Option RequestContext)
    → (elim r [
      | err e ↦ respond 500
      | ok (allowed a) ↦ check_access method path context (some a)
      | ok denied ↦ respond 403
      | ok missing ↦ respond 404
    ])
      ≡ proceed access c
    → (a : LibraryAccess) × (r ≡ ok (allowed a))
      × (c ≡ some context)
      × (access ≡ some a)
      × Rights method path a
group_access method path context (err e) access c h = absurd (ground arith)
group_access method path context (ok (allowed a)) access c h =
    let (caller, same, rights) = check_access-some method path context a access c h in
    (a, refl, caller, same, rights)
group_access method path context (ok denied) access c h = absurd (ground arith)
group_access method path context (ok missing) access c h = absurd (ground arith)

-- The selected library with its rights.
permitted :
    (db : Db) (method : Method) (path : String) (context : RequestContext) (a : LibraryAccess)
    (access : Option LibraryAccess)
    → access ≡ some a
    → Selected db path context a
    → a.permissions.library ≡ true
    → Rights method path a
    → IsSelected db path context access × Permitted method path access
permitted db method path context a access same selected reads rights =
    (inr (a, same, selected), rw same (reads, rights.0, rights.1, rights.2))

personal :
    (db : Db) (method : Method) (path : String) (context : RequestContext)
    (access : Option LibraryAccess) (c : Option RequestContext)
    → path_group_data_id path ≡ some none
    → (if not (path == "/keys/current") && not (is_group_discovery_path path)
        then (if context.permissions.library
            then check_access method path context (some (personal_access context))
            else respond 403)
        else check_access method path context none)
      ≡ proceed access c
    → (c ≡ some context) × IsSelected db path context access × Permitted method path access
personal db method path context access c no_group h =
    elim (Bool-cases (path == "/keys/current" || is_group_discovery_path path)) [
      | inl free ↦
          let (caller, nothing) = check_access-none method path context access c (ground arith) in
          (caller, inl nothing, rw nothing free)
      | inr bound ↦ elim (Bool-cases context.permissions.library) [
        | inl reads ↦
            let (caller, same, rights) =
              check_access-some method path context (personal_access context) access c
                (ground arith) in
            let own : Selected db path context (personal_access context) =
              inr (no_group, refl, refl, refl, ground arith) in
            let (selected, enough) =
              permitted db method path context _ access same own reads rights in
            (caller, selected, enough)
        | inr blind ↦ absurd (ground arith)
      ]
    ]

select_access-Permitted :
    (db : Db) (method : Method) (path : String) (context : RequestContext)
    (access : Option LibraryAccess) (c : Option RequestContext)
    → select_access db method path context ≡ proceed access c
    → (c ≡ some context) × IsSelected db path context access × Permitted method path access
unfolding select_access
select_access-Permitted db method path context access c h =
    elim (Option-cases (path_group_data_id path)) [
      | inl unreadable ↦ absurd (ground arith)
      | inr (some group_id, e) ↦
          let static_permissions : Option Permissions =
            if is_some context.api_key_id then none else some context.permissions in
          let (a, resolved, caller, same, rights) =
            group_access method path context
              (resolve_group_library db group_id context.principal.user_id context.api_key_id
                static_permissions)
              access c (ground arith) in
          let granted =
            resolve_group_library-Justified db group_id context.principal.user_id context.api_key_id
              static_permissions a resolved in
          let (selected, enough) =
            permitted db method path context a access same (inl (group_id, e, granted)) granted.5
              rights in
          (caller, selected, enough)
      | inr (none, e) ↦ personal db method path context access c e (ground arith)
    ]

check_owner-Permitted :
    (db : Db) (method : Method) (path : String) (context : RequestContext)
    (access : Option LibraryAccess) (c : Option RequestContext)
    → check_owner db method path context ≡ proceed access c
    → (c ≡ some context)
      × OwnPath path context
      × IsSelected db path context access
      × Permitted method path access
unfolding check_owner
check_owner-Permitted db method path context access c h = elim (Option-cases (path_user_id path)) [
  | inl unreadable ↦ absurd (ground arith)
  | inr (none, e) ↦
      let (caller, selected, rights) =
        select_access-Permitted db method path context access c (ground arith) in
      (caller, inl e, selected, rights)
  | inr (some id, e) ↦
      elim (Bool-cases (id == context.principal.user_id.get || is_group_discovery_path path)) [
        | inr other ↦ absurd (ground arith)
        | inl own ↦
            let (caller, selected, rights) =
              select_access-Permitted db method path context access c (ground arith) in
            (caller, ground (arith, beq_ℤ_iff id context.principal.user_id.get), selected, rights)
      ]
]

authenticated :
    (db : Db) (method : Method) (path : String) (r : Result (Option RequestContext))
    (access : Option LibraryAccess) (c : Option RequestContext)
    → (elim r [
      | err e ↦ respond 500
      | ok none ↦ respond 403
      | ok (some context) ↦ check_owner db method path context
    ])
      ≡ proceed access c
    → (context : RequestContext) × (r ≡ ok (some context))
      × (c ≡ some context)
      × OwnPath path context
      × IsSelected db path context access
      × Permitted method path access
authenticated db method path (err e) access c h = absurd (ground arith)
authenticated db method path (ok none) access c h = absurd (ground arith)
authenticated db method path (ok (some context)) access c h =
    let (caller, own, selected, rights) = check_owner-Permitted db method path context access c h in
    (context, refl, caller, own, selected, rights)

-- A request whose handler runs is one of the public ones, and comes without an identity, or its
-- key is authenticated and its path names no other user than the caller but for the discovery of
-- groups. The selected library is that of the group that the path names, with the rights that the
-- group gives the caller, or else the caller's personal one with the rights of the key. These rights
-- include reading, writing for a mutating method, files for an attachment's path, and both for a
-- mutating method on such a path. A library is selected but for the discovery of groups and the
-- current key.
pub log_and_auth-Permitted :
    (sha256 : String → Digest) (config : Config) (db : Db) (method : Method) (path : String)
    (token : Option String) (access : Option LibraryAccess) (c : Option RequestContext)
    → log_and_auth sha256 config db method path token ≡ proceed access c
    → Passed sha256 config db method path token access c
unfolding log_and_auth
log_and_auth-Permitted sha256 config db method path token access c h =
    elim (Bool-cases (is_bootstrap method path)) [
      | inl public ↦ inl (public, ground arith, ground arith)
      | inr private ↦ inr (
          authenticated db method path (authenticate_request sha256 config db token) access c
            (ground arith))
    ]
