-- ===== src/Store/Sessions.antt =====
-- xotero/src/store/sessions.rs: login sessions. `now` is the transaction's time, in microseconds.
use zhost.Prelude.{
  ℕ, ◌+◌, String, Bool, true, not, ◌&&◌, ◌||◌, Option, none, some, ◌==◌, if◌then◌else◌, string_eq,
  list_eq, nat_eq, pair_eq, [], ◌∷◌, and_then, is_some, keep_if, ltb, leb,
}
use zhost.Prelude.Int.{ℤ, int_eq}
use zhost.Prelude.Table.{Table, lookup, upsert}
use zhost.Domain.{Principal, Permissions, user_id_new}
use zhost.Db.{Db, Digest, LoginRow, GroupPermission, Result, ok, err, protocol, ◌>>=◌}
use zhost.Store.Identity.{PrincipalRow, principal_from_row, is_active, find_key, or_protocol}

pub data LoginSession : Type 0 where
  pending cancelled expired missing : LoginSession
  completed : Principal → LoginSession

pub data LoginSessionChange : Type 0 where
  done conflict expired missing user_unavailable : LoginSessionChange

abbrev pub day : ℕ
day = 86_400_000_000

abbrev pub quarter_hour : ℕ
quarter_hour = 900_000_000

abbrev pub set_sessions : Db → Table Digest LoginRow → Db
set_sessions db rows = record db { accounts = record (db.accounts) { login_sessions = rows } }

abbrev pub is_abandoned : ℕ → LoginRow → Bool
is_abandoned now r =
    (r.status == "pending" && ltb (r.expires_at + day) now)
    || (r.status == "cancelled" && ltb (r.created_at + day) now)

unfoldable pub without_abandoned : ℕ → Table Digest LoginRow → Table Digest LoginRow
without_abandoned now [] = []
without_abandoned now ((h, r) ∷ rows) =
    let rest = without_abandoned now rows in if is_abandoned now r then rest else (h, r) ∷ rest

abbrev pub new_session : ℕ → String → LoginRow
new_session now client_type = record {
  user_id = none;
  api_key_id = none;
  client_type = client_type;
  status = "pending";
  created_at = now;
  expires_at = now + quarter_hour;
  completed_at = none;
}

unfoldable pub create_login_session : Db → ℕ → Digest → String → Result Db
unfolding without_abandoned
create_login_session db now token_hash client_type =
    let rows = without_abandoned now db.accounts.login_sessions in
    if is_some (lookup token_hash rows)
    then err (protocol "duplicate key")
    else ok (set_sessions db (upsert token_hash (new_session now client_type) rows))

abbrev pub is_expired : ℕ → LoginRow → Bool
is_expired now r = leb r.expires_at now

-- The user and the personal library of a completed session.
abbrev session_principal : Db → LoginRow → Option PrincipalRow
session_principal db r = and_then r.user_id λ id. and_then (lookup id db.accounts.users) λ u.
    and_then (lookup id db.accounts.personal_libraries) λ library_id. some (record {
      user_id = id;
      username = u.username;
      display_name = u.display_name;
      library_id = library_id;
    })

unfoldable pub session_of : Db → ℕ → LoginRow → Result LoginSession
session_of db now r =
    if r.status == "pending"
    then ok (if is_expired now r then expired else pending)
    else if r.status == "cancelled"
    then ok cancelled
    else if r.status == "completed"
    then (or_protocol "missing session principal" (session_principal db r) >>= λ row.
        principal_from_row row >>= λ p. ok (completed p))
    else err (protocol "invalid login session status")

unfoldable pub login_session : Db → ℕ → Digest → Result LoginSession
unfolding session_of
login_session db now token_hash = elim (lookup token_hash db.accounts.login_sessions) [
  | none ↦ ok missing
  | some r ↦ session_of db now r
]

unfoldable pub cancel_login_session : Db → ℕ → Digest → Db × LoginSessionChange
cancel_login_session db now token_hash = elim (lookup token_hash db.accounts.login_sessions) [
  | none ↦ (db, missing)
  | some r ↦
      if r.status == "pending" && not (is_expired now r)
      then (
        set_sessions db
            (upsert token_hash (record r { status = "cancelled" }) db.accounts.login_sessions),
        done,
      )
      else (db, conflict)
]

-- The active user of an external identity, with a personal library.
unfoldable pub mapped_user : Db → String → String → Option ℤ
mapped_user db issuer subject =
    and_then (lookup (issuer, subject) db.accounts.external_identities) λ id.
      and_then (keep_if is_active (lookup id db.accounts.users)) λ u.
        and_then (lookup id db.accounts.personal_libraries) λ library_id.
          and_then (keep_if (λ l. l.kind == "personal") (lookup library_id db.library)) λ l. some id

abbrev pub key_name : String → String
key_name client_type =
    if client_type == "mac"
    then "Zotero for Mac"
    else if client_type == "windows"
    then "Zotero for Windows"
    else if client_type == "linux"
    then "Zotero for Linux"
    else if client_type == "ios"
    then "Zotero for iOS"
    else if client_type == "android"
    then "Zotero for Android"
    else "Zotero"

abbrev full_permissions : Permissions
full_permissions = record { library = true; notes = true; write = true; files = true }

abbrev group_permission : GroupPermission
group_permission = record { library = true; write = true }

-- The key, its two permission rows and the completed session. `api_key_id` comes from the identity
-- sequence of the table.
unfoldable pub mint : Db → ℕ → Digest → LoginRow → Digest → ℤ → ℤ → Db
mint db now token_hash r api_key_hash user_id api_key_id = record db {
  accounts = record (db.accounts) {
    api_keys =
        upsert api_key_id
          (record {
            user_id = user_id;
            name = key_name r.client_type;
            token_hash = api_key_hash;
            revoked_at = none;
          })
          db.accounts.api_keys;
    api_key_user_permissions =
        upsert api_key_id full_permissions db.accounts.api_key_user_permissions;
    api_key_all_groups_permissions =
        upsert api_key_id group_permission db.accounts.api_key_all_groups_permissions;
    login_sessions =
        upsert token_hash
          (record r {
            status = "completed";
            user_id = some user_id;
            api_key_id = some api_key_id;
            completed_at = some now;
          })
          db.accounts.login_sessions;
  };
}

-- `sequence` is the next value of the identity column of `api_keys`; `token_hash` is unique there.
unfoldable pub complete_login_session :
    Db → ℕ → ℤ → Digest → Digest → String → String → Result (Db × LoginSessionChange)
unfolding mapped_user mint
complete_login_session db now sequence token_hash api_key_hash issuer subject =
    elim (lookup token_hash db.accounts.login_sessions) [
      | none ↦ ok (db, missing)
      | some r ↦
          if not (r.status == "pending")
          then ok (db, conflict)
          else if is_expired now r
          then ok (db, expired)
          else elim (mapped_user db issuer subject) [
            | none ↦ ok (db, user_unavailable)
            | some id ↦
                (or_protocol "invalid mapped user ID" (user_id_new id) >>= λ user_id.
                if is_some (lookup sequence db.accounts.api_keys)
                  || is_some (find_key api_key_hash db.accounts.api_keys)
                then err (protocol "duplicate key")
                else ok (mint db now token_hash r api_key_hash user_id.get sequence, done))
          ]
    ]
