-- ===== src/Store/Minted.antt =====
-- The key that a completed login session mints.
use zhost.Prelude.{
  ℕ, ◌≡◌, inl, inr, refl, some, none, arith, true, false, ◌==◌, String, string_eq, list_eq, nat_eq,
  pair_eq, Bool-cases, Option-cases, is_some, [], ◌∷◌, list_beq_iff,
}
use zhost.Prelude.Int.{ℤ, int_eq, beq_ℤ_iff}
use zhost.Prelude.Table.{Table, lookup, upsert, lookup-upsert_self}
use zhost.Domain.{
  LibraryId, UserId, ApiKeyId, Principal, Permissions, user_id_new, api_key_id_new, library_id_new,
}
use zhost.Db.{Db, Digest, LoginRow, User, Library, ApiKey, ok}
use zhost.Store.Identity.{
  PrincipalRow, principal_from_row, active_principal, find_key, active_key, authenticate_api_key,
  is_active,
}
use zhost.Store.Sessions.{
  done, completed, complete_login_session, login_session, session_of, mint, mapped_user, is_expired,
  key_name,
}

abbrev full : Permissions
full = record { library = true; notes = true; write = true; files = true }

-- A completion that is done minted for the mapped user, under a new identifier and digest.
complete-minted :
    (db db' : Db) (now : ℕ) (id : ℤ) (h key_hash : Digest) (issuer subject : String)
    → complete_login_session db now id h key_hash issuer subject ≡ ok (db', done)
    → (r : LoginRow) × (user : ℤ) × (user_id : UserId) × (mapped_user db issuer subject ≡ some user)
      × (user_id_new user ≡ some user_id)
      × (is_some (lookup id db.accounts.api_keys) ≡ false)
      × (is_some (find_key key_hash db.accounts.api_keys) ≡ false)
      × (db' ≡ mint db now h r key_hash user_id.get id)
unfolding complete_login_session
complete-minted db db' now id h key_hash issuer subject e =
    elim (Option-cases (lookup h db.accounts.login_sessions)) [
      | inl gone ↦ absurd (ground arith)
      | inr (r, there) ↦ elim (Bool-cases (r.status == "pending")) [
        | inr closed ↦ absurd (ground arith)
        | inl pending ↦ elim (Bool-cases (is_expired now r)) [
          | inl late ↦ absurd (ground arith)
          | inr live ↦ elim (Option-cases (mapped_user db issuer subject)) [
            | inl unknown ↦ absurd (ground arith)
            | inr (user, found) ↦ elim (Option-cases (user_id_new user)) [
              | inl invalid ↦ absurd (ground arith)
              | inr (user_id, e') ↦ elim (Bool-cases (is_some (lookup id db.accounts.api_keys))) [
                | inl taken ↦ absurd (ground arith)
                | inr new ↦ elim (Bool-cases (is_some (find_key key_hash db.accounts.api_keys))) [
                  | inl used ↦ absurd (ground arith)
                  | inr unused ↦ (r, user, user_id, found, e', new, unused, ground arith)
                ]
              ]
            ]
          ]
        ]
      ]
    ]

user_id_new-get :
    (user : ℤ) (user_id : UserId) → user_id_new user ≡ some user_id → user_id.get ≡ user
unfolding user_id_new
user_id_new-get user user_id h = ground arith

library_id_new-get :
    (raw : ℤ) (library : LibraryId) → library_id_new raw ≡ some library → library.get ≡ raw
unfolding library_id_new
library_id_new-get raw library h = ground arith

user_id_new-again :
    (raw : ℤ) (user : UserId) → user_id_new raw ≡ some user → user_id_new user.get ≡ some user
unfolding user_id_new
user_id_new-again raw user h = ground arith

library_id_new-again :
    (raw : ℤ) (library : LibraryId)
    → library_id_new raw ≡ some library
    → library_id_new library.get ≡ some library
unfolding library_id_new
library_id_new-again raw library h = ground arith

-- A new key is found by its digest.
find_key-upsert :
    (id : ℤ) (k : ApiKey) (h : Digest) (keys : Table ℤ ApiKey)
    → is_some (lookup id keys) ≡ false
    → is_some (find_key h keys) ≡ false
    → k.token_hash ≡ h
    → find_key h (upsert id k keys) ≡ some (id, k)
unfolding find_key upsert lookup
find_key-upsert id k h [] new unused same = ground (arith, list_beq_iff k.token_hash h)
find_key-upsert id k h ((j, w) ∷ keys) new unused same =
    ground (arith, find_key-upsert id k h keys, beq_ℤ_iff j id)

-- What the mapping of an external identity found.
mapped_user-row :
    (db : Db) (issuer subject : String) (user : ℤ)
    → mapped_user db issuer subject ≡ some user
    → (u : User) × (library_id : ℤ) × (l : Library) × (lookup user db.accounts.users ≡ some u)
      × (is_active u ≡ true)
      × (lookup user db.accounts.personal_libraries ≡ some library_id)
      × (lookup library_id db.library ≡ some l)
      × ((l.kind == "personal") ≡ true)
unfolding mapped_user
mapped_user-row db issuer subject user h =
    elim (Option-cases (lookup (issuer, subject) db.accounts.external_identities)) [
      | inl unmapped ↦ absurd (ground arith)
      | inr (id, e) ↦ elim (Option-cases (lookup id db.accounts.users)) [
        | inl gone ↦ absurd (ground arith)
        | inr (u, there) ↦ elim (Bool-cases (is_active u)) [
          | inr disabled ↦ absurd (ground arith)
          | inl active ↦ elim (Option-cases (lookup id db.accounts.personal_libraries)) [
            | inl none_owned ↦ absurd (ground arith)
            | inr (library_id, owned) ↦ elim (Option-cases (lookup library_id db.library)) [
              | inl missing ↦ absurd (ground arith)
              | inr (l, stored) ↦ elim (Bool-cases (l.kind == "personal")) [
                | inr other ↦ absurd (ground arith)
                | inl personal ↦
                    let same : id ≡ user = ground arith in
                    (
                      u,
                      library_id,
                      l,
                      rw (← same) there,
                      active,
                      rw (← same) owned,
                      stored,
                      personal,
                    )
              ]
            ]
          ]
        ]
      ]
    ]

-- The key authenticates as the mapped user with every permission, and polling the session gives the
-- same user.
abbrev pub Authenticates : Db → Digest → Digest → String → String → Db → ApiKeyId → ℕ → Type 0
Authenticates db h key_hash issuer subject db' key_id later =
    (p : Principal) × (mapped_user db issuer subject ≡ some p.user_id.get)
    × (authenticate_api_key db' key_hash ≡ ok (some (key_id, p, full)))
    × (login_session db' later h ≡ ok (completed p))

module _ (db : Db) (now : ℕ) (id : ℤ) (h key_hash : Digest) (r : LoginRow) (user : UserId)
    (key_id : ApiKeyId) (u : User) (library : LibraryId) (l : Library)
    (positive : user_id_new user.get ≡ some user) (valid : api_key_id_new id ≡ some key_id)
    (new : is_some (lookup id db.accounts.api_keys) ≡ false)
    (unused : is_some (find_key key_hash db.accounts.api_keys) ≡ false)
    (there : lookup user.get db.accounts.users ≡ some u) (active : is_active u ≡ true)
    (owned : lookup user.get db.accounts.personal_libraries ≡ some library.get)
    (stored : lookup library.get db.library ≡ some l) (personal : (l.kind == "personal") ≡ true)
    (owner : library_id_new library.get ≡ some library) where
  abbrev minted : Db
  minted = mint db now h r key_hash user.get id

  abbrev principal : Principal
  principal = record {
    user_id = user;
    username = u.username;
    display_name = u.display_name;
    library_id = library;
  }

  abbrev principal_row : PrincipalRow
  principal_row = record {
    user_id = user.get;
    username = u.username;
    display_name = u.display_name;
    library_id = library.get;
  }

  minted-principal : principal_from_row principal_row ≡ ok principal
  unfolding principal_from_row
  minted-principal = rw (positive, owner) refl

  minted-active : active_principal minted user.get ≡ some principal_row
  unfolding active_principal mint
  minted-active = rw (there, owned, stored, active, personal) refl

  abbrev new_key : ApiKey
  new_key = record {
    user_id = user.get;
    name = key_name r.client_type;
    token_hash = key_hash;
    revoked_at = none;
  }

  minted-found : find_key key_hash minted.accounts.api_keys ≡ some (id, new_key)
  unfolding mint
  minted-found = find_key-upsert id new_key key_hash db.accounts.api_keys new unused refl

  minted-permissions : lookup id minted.accounts.api_key_user_permissions ≡ some full
  unfolding mint
  minted-permissions = lookup-upsert_self id full db.accounts.api_key_user_permissions

  minted-key :
      active_key minted key_hash
      ≡ some (record { api_key_id = id; principal = principal_row; permissions = full })
  unfolding active_key
  minted-key = rw (active_key, minted-found, minted-active, minted-permissions) refl

  minted-authenticates : authenticate_api_key minted key_hash ≡ ok (some (key_id, principal, full))
  unfolding authenticate_api_key
  minted-authenticates = rw (authenticate_api_key, minted-key, valid, minted-principal) refl

  abbrev session_row : LoginRow
  session_row = record r {
    status = "completed";
    user_id = some user.get;
    api_key_id = some id;
    completed_at = some now;
  }

  minted-row : lookup h minted.accounts.login_sessions ≡ some session_row
  unfolding mint
  minted-row = lookup-upsert_self h session_row db.accounts.login_sessions

  minted-session : (later : ℕ) → login_session minted later h ≡ ok (completed principal)
  unfolding login_session session_of mint
  minted-session later = rw (login_session, minted-row, there, owned, minted-principal) refl

  minted-Authenticates :
      (issuer subject : String) (later : ℕ)
      → mapped_user db issuer subject ≡ some user.get
      → Authenticates db h key_hash issuer subject minted key_id later
  minted-Authenticates issuer subject later found =
      (principal, found, minted-authenticates, minted-session later)

-- A login session that is completed minted a key that authenticates, as the user that the external
-- identity is mapped to, with every permission; polling the session then gives that user. The
-- identifier of the key and those of the stored personal libraries must be positive.
pub complete_login_session-Authenticates :
    (db db' : Db) (now : ℕ) (id : ℤ) (h key_hash : Digest) (issuer subject : String)
    (key_id : ApiKeyId) (later : ℕ)
    → complete_login_session db now id h key_hash issuer subject ≡ ok (db', done)
    → api_key_id_new id ≡ some key_id
    → ((user library_id : ℤ)
        → lookup user db.accounts.personal_libraries ≡ some library_id
        → (l : LibraryId) × (library_id_new library_id ≡ some l))
    → Authenticates db h key_hash issuer subject db' key_id later
complete_login_session-Authenticates db db' now id h key_hash issuer subject key_id later e valid
      libraries =
    let (r, raw, user, found, positive, new, unused, same) =
      complete-minted db db' now id h key_hash issuer subject e in
    let (u, raw_library, l, there, active, owned, stored, personal) =
      mapped_user-row db issuer subject raw found in
    let (library, owner) = libraries raw raw_library owned in
    let q = user_id_new-get raw user positive in
    let k = library_id_new-get raw_library library owner in
    let there' : lookup user.get db.accounts.users ≡ some u = rw q there in
    let owned' : lookup user.get db.accounts.personal_libraries ≡ some library.get =
      rw (q, k) owned in
    let stored' : lookup library.get db.library ≡ some l = rw k stored in
    rw same (
      minted-Authenticates db now id h key_hash r user key_id u library l
        (user_id_new-again raw user positive) valid new unused there' active owned' stored' personal
        (library_id_new-again raw_library library owner) issuer subject later (rw q found))
