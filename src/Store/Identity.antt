-- ===== src/Store/Identity.antt =====
-- xotero/src/store/identity.rs: resolving a principal from the stored identities.
use zhost.Prelude.{
  String, Bool, not, ◌&&◌, Option, none, some, ◌==◌, if◌then◌else◌, string_eq, list_eq, nat_eq, [],
  ◌∷◌, and_then, is_some, Eq, pair_eq,
}
use zhost.Prelude.Int.{ℤ, int_eq}
use zhost.Prelude.Table.{Table, lookup, upsert}
use zhost.Domain.{
  LibraryId, UserId, ApiKeyId, library_id_new, user_id_new, api_key_id_new, Principal, Permissions,
}
use zhost.Db.{Db, Digest, User, ApiKey, Result, ok, err, protocol, ◌>>=◌, fetch_one}

abbrev pub or_protocol {ℓ} : {A : Type ℓ} → String → Option A → Result A
or_protocol message none = err (protocol message)
or_protocol message (some a) = ok a

-- The columns that `principal_from_row` reads.
pub record PrincipalRow : Type 0 where
  pub user_id : ℤ
  pub username : String
  pub display_name : String
  pub library_id : ℤ

unfoldable pub principal_from_row : PrincipalRow → Result Principal
principal_from_row row = do
  user_id ← or_protocol "invalid user ID" (user_id_new row.user_id)
  library_id ← or_protocol "invalid library ID" (library_id_new row.library_id)
  ok (record {
    user_id = user_id;
    username = row.username;
    display_name = row.display_name;
    library_id = library_id;
  })

abbrev pub is_active : User → Bool
is_active u = not (is_some u.disabled_at)

-- An active user joined with the personal library that the user owns.
unfoldable pub active_principal : Db → ℤ → Option PrincipalRow
active_principal db user_id = and_then (lookup user_id db.accounts.users) λ u.
    and_then (lookup user_id db.accounts.personal_libraries) λ library_id.
      and_then (lookup library_id db.library) λ l.
        if is_active u && l.kind == "personal"
        then some (record {
          user_id = user_id;
          username = u.username;
          display_name = u.display_name;
          library_id = library_id;
        })
        else none

unfoldable pub bootstrap_principal : Db → UserId → Result (Option Principal)
bootstrap_principal db user_id = elim (active_principal db user_id.get) [
  | none ↦ ok none
  | some row ↦ (do principal ← principal_from_row row; ok (some principal))
]

-- `token_hash` is unique.
unfoldable pub find_key : Digest → Table ℤ ApiKey → Option (ℤ × ApiKey)
find_key token_hash [] = none
find_key token_hash ((id, k) ∷ keys) =
    if k.token_hash == token_hash then some (id, k) else find_key token_hash keys

pub record KeyRow : Type 0 where
  pub api_key_id : ℤ
  pub principal : PrincipalRow
  pub permissions : Permissions

unfoldable pub active_key : Db → Digest → Option KeyRow
active_key db token_hash = and_then (find_key token_hash db.accounts.api_keys) λ k.
    and_then (active_principal db k.1.user_id) λ principal.
      and_then (lookup k.0 db.accounts.api_key_user_permissions) λ permissions.
        if is_some k.1.revoked_at
        then none
        else some (record { api_key_id = k.0; principal = principal; permissions = permissions })

abbrev key_from_row : KeyRow → Result (ApiKeyId × Principal × Permissions)
key_from_row row = do
  api_key_id ← or_protocol "invalid API key ID" (api_key_id_new row.api_key_id)
  principal ← principal_from_row row.principal
  ok (api_key_id, principal, row.permissions)

unfoldable pub authenticate_api_key :
    Db → Digest → Result (Option (ApiKeyId × Principal × Permissions))
authenticate_api_key db token_hash = elim (active_key db token_hash) [
  | none ↦ ok none
  | some row ↦ (do key ← key_from_row row; ok (some key))
]

abbrev pub set_users : Db → Table ℤ User → Db
set_users db users = record db { accounts = record (db.accounts) { users = users } }

abbrev pub set_libraries : Db → Table ℤ ℤ → Db
set_libraries db libraries = record db {
  accounts = record (db.accounts) { personal_libraries = libraries };
}

-- `insert … on conflict do nothing`.
abbrev pub insert_new {ℓ κ} : {K : Type ℓ} {V : Type κ} ⦃e : Eq K⦄ → K → V → Table K V → Table K V
insert_new k v t = if is_some (lookup k t) then t else upsert k v t

-- `bootstrap_identity`; the identity sequence that it moves is not part of the tables.
unfoldable pub bootstrap_identity : Db → UserId → String → String → LibraryId → Result Db
bootstrap_identity db user_id username display_name library_id = do
  l ← fetch_one (lookup library_id.get db.library)
  if l.kind == "personal"
      then (let db1 = set_users db (
            insert_new user_id.get
              (record { username = username; display_name = display_name; disabled_at = none })
              db.accounts.users) in
          fetch_one (lookup user_id.get db1.accounts.users) >>= λ u.
          if u.username == username && u.display_name == display_name
          then (let db2 =
                set_libraries db1
                  (insert_new user_id.get library_id.get db1.accounts.personal_libraries) in
              fetch_one (lookup user_id.get db2.accounts.personal_libraries) >>= λ mapped.
              if mapped == library_id.get
              then ok db2
              else err (protocol "bootstrap user already owns library"))
          else err (protocol "bootstrap user does not match configured identity"))
      else err (protocol "bootstrap library is not personal")

unfoldable pub bootstrap_external_identity : Db → String → String → UserId → Result Db
bootstrap_external_identity db issuer subject user_id =
    let identities = insert_new (issuer, subject) user_id.get db.accounts.external_identities in
    fetch_one (lookup (issuer, subject) identities) >>= λ mapped.
    if mapped == user_id.get
    then ok (record db { accounts = record (db.accounts) { external_identities = identities } })
    else err (protocol "external identity already belongs to user")
