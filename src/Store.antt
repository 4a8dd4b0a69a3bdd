-- ===== src/Store.antt =====
-- xotero/src/store/mod.rs: what every write shares. A write runs in one transaction: it computes on
-- a copy of the database, and a return before the commit leaves the database as it was.
pub mod Guard
pub mod Accepted
pub mod Keys
pub mod Minted
pub mod Queries
pub mod Escaped
pub mod Answers
pub mod Ordering
pub mod Logins
pub mod Collected
pub mod Granted
pub mod Policy
pub mod Committed
pub mod Tokens
pub mod Protection
pub mod Ownership
pub mod Written
pub mod Attachments
pub mod Merge
pub mod Untagged
pub mod Stale
pub mod Objects
pub mod Settings
pub mod Tags
pub mod Fulltext
pub mod Identity
pub mod Groups
pub mod Files
pub mod Garbage
pub mod Authority
pub mod Locks
pub mod Registration
pub mod Registered
pub mod Sessions
pub mod Versions
use zhost.Prelude.{
  String, Bool, true, false, not, ◌&&◌, ◌||◌, Option, none, some, Eq, ◌==◌, if◌then◌else◌,
  string_eq, option_eq, List,
}
use zhost.Prelude.Int.{ℤ, pos, int_eq, add_i64}
use zhost.Prelude.Table.{lookup, upsert}
use zhost.Json.{Value, str_of}
use zhost.Domain.{LibraryId}
use zhost.Db.{Db, Library, Result, ok, err, ◌>>=◌, fetch_one}

pub data Outcome {ℓ} (A : Type ℓ) : Type ℓ where
  done : A → Outcome A
  conflict : ℤ → Outcome A

unfoldable pub is_stored_file_attachment : Value → Bool
is_stored_file_attachment value =
    str_of "itemType" value == some "attachment"
    && (str_of "linkMode" value == some "imported_file"
        || str_of "linkMode" value == some "imported_url")

-- `current_version` of xotero/src/store/versions.rs.
unfoldable pub current_version : Db → LibraryId → Result ℤ
current_version db library_id = do
  row ← fetch_one (lookup library_id.get db.library)
  ok row.version

-- `matches!(expected, Some(v) if v != current)`.
abbrev pub is_stale : Option ℤ → ℤ → Bool
is_stale none current = false
is_stale (some v) current = not (v == current)

abbrev pub next_version : ℤ → ℤ
next_version current = add_i64 current (pos 1)

abbrev pub set_version : Db → LibraryId → Library → ℤ → Db
set_version db library_id row version = record db {
  library = upsert library_id.get (record row { version = version }) db.library;
}

unfoldable pub guarded_version : Db → LibraryId → Option ℤ → Result (Db × Outcome ℤ)
guarded_version db library_id expected = do
  row ← fetch_one (lookup library_id.get db.library)
  if is_stale expected row.version
      then ok (db, conflict row.version)
      else ok (
        set_version db library_id row (next_version row.version),
        done (next_version row.version),
      )

unfoldable pub no_change : Db → LibraryId → Option ℤ → Result (Outcome ℤ)
unfolding current_version
no_change db library_id expected = do
  current ← current_version db library_id
  ok (if is_stale expected current then conflict current else done current)

-- The shape that the writes of settings and tags share: behind the guard `change` runs at the new
-- version and is committed; a conflict leaves the database as it was.
unfoldable pub at_next_version : Db → LibraryId → Option ℤ → (ℤ → Db → Db) → Result (Db × Outcome ℤ)
at_next_version db library_id expected change = do
  guarded ← guarded_version db library_id expected
  ok (elim guarded.1 [
    | conflict current ↦ (db, conflict current)
    | done version ↦ (change version guarded.0, done version)
  ])
