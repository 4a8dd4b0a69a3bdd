-- ===== src/Store/Registered.antt =====
-- Inversion of `register_file`: it refuses, or everything that it checks holds and it commits.
use zhost.Prelude.{
  ℕ, ◌≡◌, ◌⊎◌, inl, inr, refl, Option, none, some, arith, true, String, Option-cases, Bool-cases,
  ltb, pair_eq, string_eq, list_eq, nat_eq,
}
use zhost.Prelude.Int.{ℤ, int_eq}
use zhost.Prelude.Table.{lookup}
use zhost.Domain.{LibraryId, LibraryAccess, RequestContext}
use zhost.Config.{Config}
use zhost.Db.{Db, Object, Library, Digest, PendingRow, ok, bind-eq-ok}
use zhost.Store.{is_stored_file_attachment, next_version, set_version}
use zhost.Store.Objects.{object_key, item_key}
use zhost.Store.Files.{pending_upload_from_row}
use zhost.Store.Authority.{lock_upload_authorities}
use zhost.Store.Registration.{
  FileRegistrationOutcome, done, conflict, invalid_item, invalid_upload, denied,
  precondition_matches, md5_of, discard, matches_request, install, register_item, register_locked,
  register_row, register_file, register_authorized,
}

abbrev pub IsRefusal : FileRegistrationOutcome → Type 0
IsRefusal (done v) = ⊥
IsRefusal out = Unit {0}

done_refusal : (v : ℤ) (out : FileRegistrationOutcome) → out ≡ done v → IsRefusal out → ⊥
done_refusal v (done w) e refusal = refusal
done_refusal v (conflict w) e refusal = ground arith
done_refusal v invalid_item e refusal = ground arith
done_refusal v invalid_upload e refusal = ground arith
done_refusal v denied e refusal = ground arith

-- A refusal leaves the database as it was, or discards the upload.
abbrev pub Refused : Db → Db → Digest → FileRegistrationOutcome → Type 0
Refused db db' token_hash out =
    IsRefusal out
    × ((db' ≡ db)
        ⊎ ((row : PendingRow) × (lookup token_hash db.pending_uploads ≡ some row)
            × (db' ≡ discard db token_hash row)))

-- What is committed for an item.
pub record Commits (db db' : Db) (token_hash : Digest) (row : PendingRow) (l : LibraryId)
    (key : String) (version : ℤ) (out : FileRegistrationOutcome) : Type 0 where
  pub item : Object
  pub stored : lookup (object_key l "item" key) db.object ≡ some item
  pub attachment : is_stored_file_attachment item.json ≡ true
  pub precondition :
      precondition_matches row.expected_md5 (md5_of (lookup (item_key l key) db.file)) ≡ true
  pub lib : Library
  pub library : lookup l.get db.library ≡ some lib
  pub committed :
      db'
      ≡ install
          (set_version db l lib (next_version version))
          token_hash
          l
          key
          (pending_upload_from_row row)
          item
          (next_version version)
  pub answer : out ≡ done (next_version version)

module _ (db db' : Db) (token_hash : Digest) (row : PendingRow) (l : LibraryId) (key : String)
    (version : ℤ) (out : FileRegistrationOutcome)
    (found : lookup token_hash db.pending_uploads ≡ some row) where
  commit_found :
      (item : Object)
      → lookup (object_key l "item" key) db.object ≡ some item
      → is_stored_file_attachment item.json ≡ true
      → precondition_matches row.expected_md5 (md5_of (lookup (item_key l key) db.file)) ≡ true
      → register_item db token_hash row l key version (some item) ≡ ok (db', out)
      → Commits db db' token_hash row l key version out
  unfolding register_item
  commit_found item stored attachment precondition h =
      elim (Option-cases (lookup l.get db.library)) [
        | inl gone ↦ absurd (ground arith)
        | inr (lib, there) ↦ record {
          item = item;
          stored = stored;
          attachment = attachment;
          precondition = precondition;
          lib = lib;
          library = there;
          committed = ground arith;
          answer = ground arith;
        }
      ]

  register_item-cases :
      (o : Option Object)
      → lookup (object_key l "item" key) db.object ≡ o
      → register_item db token_hash row l key version o ≡ ok (db', out)
      → Refused db db' token_hash out ⊎ Commits db db' token_hash row l key version out
  unfolding register_item
  register_item-cases none e h = inl (ground arith, inr (row, found, ground arith))
  register_item-cases (some item) e h = elim (Bool-cases (is_stored_file_attachment item.json)) [
    | inr plain ↦ inl (ground arith, inr (row, found, ground arith))
    | inl attachment ↦
        elim (Bool-cases
          (precondition_matches row.expected_md5 (md5_of (lookup (item_key l key) db.file)))) [
            | inr moved ↦ inl (ground arith, inr (row, found, ground arith))
            | inl precondition ↦ inr (commit_found item e attachment precondition h)
          ]
  ]

  pub register_locked-cases :
      register_locked db token_hash row l key version ≡ ok (db', out)
      → Refused db db' token_hash out ⊎ Commits db db' token_hash row l key version out
  unfolding register_locked
  register_locked-cases h = register_item-cases (lookup (object_key l "item" key) db.object) refl h

module _ (sha256 : String → Digest) (config : Config) (context : RequestContext) (seen db db' : Db)
    (now : ℕ) (token_hash : Digest) (key : String) (access : LibraryAccess)
    (out : FileRegistrationOutcome) where
  -- Every check of a registration that is done.
  pub record Registers : Type 0 where
    pub row : PendingRow
    pub found : lookup token_hash db.pending_uploads ≡ some row
    pub live : ltb now row.expires_at ≡ true
    pub requested : matches_request (pending_upload_from_row row) access key ≡ true
    pub version : ℤ
    pub locked :
        lock_upload_authorities sha256 config context seen db (pending_upload_from_row row)
        ≡ ok (some version)
    pub commits : Commits db db' token_hash row access.library_id key version out

  authorized-cases :
      (row : PendingRow) (answer : Option ℤ)
      → lookup token_hash db.pending_uploads ≡ some row
      → ltb now row.expires_at ≡ true
      → matches_request (pending_upload_from_row row) access key ≡ true
      → lock_upload_authorities sha256 config context seen db (pending_upload_from_row row)
        ≡ ok answer
      → register_authorized sha256 config context db token_hash row access.library_id key answer
        ≡ ok (db', out)
      → Refused db db' token_hash out ⊎ Registers
  authorized-cases row none found live requested locked h = inl (ground arith, inl (ground arith))
  authorized-cases row (some version) found live requested locked h =
      elim (register_locked-cases db db' token_hash row access.library_id key version out found h) [
        | inl refused ↦ inl refused
        | inr commits ↦ inr (record {
          row = row;
          found = found;
          live = live;
          requested = requested;
          version = version;
          locked = locked;
          commits = commits;
        })
      ]

  register_row-cases :
      (o : Option PendingRow)
      → lookup token_hash db.pending_uploads ≡ o
      → register_row sha256 config context seen db now token_hash key access o ≡ ok (db', out)
      → Refused db db' token_hash out ⊎ Registers
  unfolding register_row
  register_row-cases none e h = inl (ground arith, inl (ground arith))
  register_row-cases (some row) e h = elim (Bool-cases (ltb now row.expires_at)) [
    | inr late ↦ inl (ground arith, inr (row, e, ground arith))
    | inl live ↦ elim (Bool-cases (matches_request (pending_upload_from_row row) access key)) [
      | inr other ↦ inl (ground arith, inl (ground arith))
      | inl requested ↦
          let (answer, locked, rest) =
            bind-eq-ok
              (lock_upload_authorities sha256 config context seen db (pending_upload_from_row row))
              (register_authorized sha256 config context db token_hash row access.library_id key)
              (ground arith) in
          authorized-cases row answer e live requested locked rest
    ]
  ]

  pub register_file-cases :
      register_file sha256 config context seen db now token_hash key access ≡ ok (db', out)
      → Refused db db' token_hash out ⊎ Registers
  unfolding register_file
  register_file-cases h = register_row-cases (lookup token_hash db.pending_uploads) refl h

  -- A registration that is refused leaves libraries, objects, files, the deletion log and accounts
  -- as they are; at most it discards the upload.
  pub register_file-refusal :
      register_file sha256 config context seen db now token_hash key access ≡ ok (db', out)
      → IsRefusal out
      → (db'.library ≡ db.library)
        × (db'.object ≡ db.object)
        × (db'.file ≡ db.file)
        × (db'.deletion ≡ db.deletion)
        × (db'.accounts ≡ db.accounts)
  register_file-refusal h refusal = elim (register_file-cases h) [
    | inl (_, inl same) ↦ rw same (refl, refl, refl, refl, refl)
    | inl (_, inr (row, _, same)) ↦ rw same (refl, refl, refl, refl, refl)
    | inr g ↦ absurd (done_refusal (next_version g.version) out g.commits.answer refusal)
  ]
