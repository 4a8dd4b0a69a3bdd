-- ===== src/Db.antt =====
-- The tables of the database that the statements of xotero/src/store read and write
-- (xotero/migrations has their columns), and the result of a call.
use zhost.Prelude.{ℕ, String, Bool, Option, List, ◌≡◌, ◌⊎◌, inl, inr, refl}
use zhost.Prelude.Int.{ℤ}
use zhost.Prelude.Table.{Table}
use zhost.Json.{Value}
use zhost.Domain.{Permissions}

-- A SHA-256 digest, byte by byte.
abbrev pub Digest : Type 0
Digest = List ℕ

-- (library_id, (kind, key)) and (library_id, key).
abbrev pub ObjectKey : Type 0
ObjectKey = ℤ × (String × String)

abbrev pub ItemKey : Type 0
ItemKey = ℤ × String

pub record Library : Type 0 where
  pub version : ℤ
  pub kind : String

pub record Object : Type 0 where
  pub version : ℤ
  pub json : Value

pub record Setting : Type 0 where
  pub version : ℤ
  pub value : Value

pub record File : Type 0 where
  pub blob_key : String
  pub md5 : String
  pub blob_md5 : String
  pub filename : String
  pub filesize : ℤ
  pub mtime : ℤ
  pub compressed : Bool
  pub version : ℤ

pub record Fulltext : Type 0 where
  pub content : String
  pub indexed_chars : ℤ
  pub total_chars : ℤ
  pub indexed_pages : ℤ
  pub total_pages : ℤ
  pub version : ℤ

pub data PendingUploadState : Type 0 where
  authorized uploading uploaded discarded deleting : PendingUploadState

-- Times are microseconds; `none` is SQL's null.
pub record PendingRow : Type 0 where
  pub library_id : ℤ
  pub group_id : Option ℤ
  pub authorizer_key_hash : Digest
  pub bootstrap_user_id : Option ℤ
  pub item_key : String
  pub expected_md5 : Option String
  pub blob_key : String
  pub md5 : String
  pub upload_md5 : String
  pub filename : String
  pub filesize : ℤ
  pub mtime : ℤ
  pub compressed : Bool
  pub state : PendingUploadState
  pub expires_at : ℕ
  pub gc_attempted_at : Option ℕ

pub record User : Type 0 where
  pub username : String
  pub display_name : String
  pub disabled_at : Option ℕ

pub record ApiKey : Type 0 where
  pub user_id : ℤ
  pub name : String
  pub token_hash : Digest
  pub revoked_at : Option ℕ

pub record GroupPermission : Type 0 where
  pub library : Bool
  pub write : Bool

pub record Group : Type 0 where
  pub library_id : ℤ
  pub owner_user_id : ℤ
  pub library_editing : String
  pub file_editing : String

pub record LoginRow : Type 0 where
  pub user_id : Option ℤ
  pub api_key_id : Option ℤ
  pub client_type : String
  pub status : String
  pub created_at : ℕ
  pub expires_at : ℕ
  pub completed_at : Option ℕ

pub record Accounts : Type 0 where
  pub users : Table ℤ User
  pub personal_libraries : Table ℤ ℤ
  pub external_identities : Table (String × String) ℤ
  pub api_keys : Table ℤ ApiKey
  pub api_key_user_permissions : Table ℤ Permissions
  pub api_key_all_groups_permissions : Table ℤ GroupPermission
  pub api_key_group_permissions : Table (ℤ × ℤ) GroupPermission
  pub groups : Table ℤ Group
  pub group_memberships : Table (ℤ × ℤ) String
  pub login_sessions : Table Digest LoginRow

pub record Db : Type 0 where
  pub accounts : Accounts
  pub library : Table ℤ Library
  pub object : Table ObjectKey Object
  pub setting : Table ItemKey Setting
  pub deletion : Table ObjectKey ℤ
  pub file : Table ItemKey File
  pub fulltext : Table ItemKey Fulltext
  pub pending_uploads : Table Digest PendingRow

-- `sqlx::Error`: `fetch_one` found no row, or a stored row is not one the program accepts.
pub data DbError : Type 0 where
  row_not_found : DbError
  protocol : String → DbError

pub data Result {κ} (T : Type κ) : Type κ where
  err : DbError → Result T
  ok : T → Result T

infixl 5 ◌>>=◌
abbrev pub ◌>>=◌ {ι κ} : {T : Type ι} {U : Type κ} (r : Result T) (next : T → Result U) → Result U
err problem >>= next = err problem
ok value >>= next = next value

-- `fetch_one`.
abbrev pub fetch_one {ℓ} : {A : Type ℓ} → Option A → Result A
fetch_one Option.none = err row_not_found
fetch_one (Option.some a) = ok a

-- Inversion of a successful bind.
pub bind-eq-ok {ι κ} :
    {T : Type ι} {U : Type κ} {u : U} (r : Result T) (next : T → Result U)
    → (r >>= next) ≡ ok u
    → (t : T) × (r ≡ ok t) × (next t ≡ ok u)
bind-eq-ok (err problem) next h = cc
bind-eq-ok (ok value) next h = (value, refl, h)

pub fetch_one-eq-ok {ℓ} :
    {A : Type ℓ} (o : Option A) {a : A} → fetch_one o ≡ ok a → o ≡ Option.some a
fetch_one-eq-ok Option.none h = cc
fetch_one-eq-ok (Option.some x) h = cc

pub Result-cases {ℓ} :
    {A : Type ℓ} (r : Result A) → ((e : DbError) × (r ≡ err e)) ⊎ ((a : A) × (r ≡ ok a))
Result-cases (err e) = inl (e, refl)
Result-cases (ok a) = inr (a, refl)
