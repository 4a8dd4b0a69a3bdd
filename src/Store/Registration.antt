-- ===== src/Store/Registration.antt =====
-- xotero/src/store/files.rs: `register_file`, which makes an uploaded candidate the file of its
-- attachment item and consumes the upload's token.
use zhost.Prelude.{
  ℕ, String, Bool, true, false, not, ◌&&◌, Option, none, some, ◌==◌, if◌then◌else◌, string_eq,
  list_eq, nat_eq, pair_eq, option_eq, ltb,
}
use zhost.Prelude.Int.{ℤ, int_eq}
use zhost.Prelude.Text.{eq_ignore_ascii_case}
use zhost.Prelude.Table.{lookup, upsert, delete}
use zhost.Json.{Value, obj, str, insert, from_int}
use zhost.Domain.{LibraryId, library_id_eq, group_id_eq, LibraryAccess, RequestContext}
use zhost.Config.{Config}
use zhost.Db.{
  Db, Object, File, Digest, PendingRow, uploaded, discarded, Result, ok, ◌>>=◌, fetch_one,
}
use zhost.Store.{is_stored_file_attachment, next_version, set_version}
use zhost.Store.Objects.{object_key, item_key}
use zhost.Store.Files.{PendingUpload, pending_upload_from_row, set_pending, with_state, state_beq}
use zhost.Store.Authority.{lock_upload_authorities}

pub data FileRegistrationOutcome : Type 0 where
  done conflict : ℤ → FileRegistrationOutcome
  invalid_item invalid_upload denied : FileRegistrationOutcome

abbrev pub precondition_matches : Option String → Option String → Bool
precondition_matches none none = true
precondition_matches (some expected) (some current) = eq_ignore_ascii_case expected current
precondition_matches none (some current) = false
precondition_matches (some expected) none = false

abbrev pub md5_of : Option File → Option String
md5_of none = none
md5_of (some f) = some f.md5

abbrev pub discard : Db → Digest → PendingRow → Db
discard db token_hash row =
    set_pending db (upsert token_hash (with_state row discarded) db.pending_uploads)

abbrev pub registered_file : PendingUpload → ℤ → File
registered_file u version = record {
  blob_key = u.blob_key;
  md5 = u.md5;
  blob_md5 = u.upload_md5;
  filename = u.filename;
  filesize = u.filesize;
  mtime = u.mtime;
  compressed = u.compressed;
  version = version;
}

-- `data || jsonb_build_object('md5', …, 'mtime', …, 'filename', …, 'version', …)`.
abbrev pub file_fields : PendingUpload → ℤ → Value → Value
file_fields u version (obj fields) = obj (
    insert "version" (from_int version) (
      insert "filename" (str u.filename)
        (insert "mtime" (from_int u.mtime) (insert "md5" (str u.md5) fields))))
file_fields u version value = value

-- The commit: version, file, item and token.
unfoldable pub install : Db → Digest → LibraryId → String → PendingUpload → Object → ℤ → Db
install db token_hash library_id key u item version = record db {
  file = upsert (item_key library_id key) (registered_file u version) db.file;
  object =
      upsert (object_key library_id "item" key)
        (record { version = version; json = file_fields u version item.json }) db.object;
  pending_uploads = delete token_hash db.pending_uploads;
}

abbrev pub matches_request : PendingUpload → LibraryAccess → String → Bool
matches_request upload access key =
    state_beq upload.state uploaded
    && upload.library_id == access.library_id
    && upload.group_id == access.group_id
    && upload.item_key == key

-- What is done with the item's row, behind the authority check.
unfoldable pub register_item :
    Db
    → Digest
    → PendingRow
    → LibraryId
    → String
    → ℤ
    → Option Object
    → Result (Db × FileRegistrationOutcome)
unfolding install
register_item db token_hash row library_id key current_version none =
    ok (discard db token_hash row, invalid_item)
register_item db token_hash row library_id key current_version (some item) =
    let upload = pending_upload_from_row row in
    if not (is_stored_file_attachment item.json)
    then ok (discard db token_hash row, invalid_item)
    else if not (
        precondition_matches upload.expected_md5
          (md5_of (lookup (item_key library_id key) db.file)))
    then ok (discard db token_hash row, conflict current_version)
    else fetch_one (lookup library_id.get db.library) >>= λ l. ok (
      install (set_version db library_id l (next_version current_version)) token_hash library_id key
          upload item (next_version current_version),
      done (next_version current_version),
    )

-- `current_version` is the version of the locked library.
unfoldable pub register_locked :
    Db → Digest → PendingRow → LibraryId → String → ℤ → Result (Db × FileRegistrationOutcome)
unfolding register_item
register_locked db token_hash row library_id key current_version =
    register_item db token_hash row library_id key current_version
      (lookup (object_key library_id "item" key) db.object)

module _ (sha256 : String → Digest) (config : Config) (context : RequestContext) where
  -- Behind the authority check, whose answer is given.
  abbrev pub register_authorized :
      Db
      → Digest
      → PendingRow
      → LibraryId
      → String
      → Option ℤ
      → Result (Db × FileRegistrationOutcome)
  register_authorized db token_hash row library_id key none = ok (db, denied)
  register_authorized db token_hash row library_id key (some current_version) =
      register_locked db token_hash row library_id key current_version

  -- Behind the look-up of the token.
  unfoldable pub register_row :
      Db
      → Db
      → ℕ
      → Digest
      → String
      → LibraryAccess
      → Option PendingRow
      → Result (Db × FileRegistrationOutcome)
  register_row seen db now token_hash key access none = ok (db, invalid_upload)
  register_row seen db now token_hash key access (some row) =
      if not (ltb now row.expires_at)
      then ok (discard db token_hash row, invalid_upload)
      else if not (matches_request (pending_upload_from_row row) access key)
      then ok (db, invalid_upload)
      else lock_upload_authorities sha256 config context seen db (pending_upload_from_row row)
        >>= register_authorized db token_hash row access.library_id key

  unfoldable pub register_file :
      Db → Db → ℕ → Digest → String → LibraryAccess → Result (Db × FileRegistrationOutcome)
  unfolding register_row
  register_file seen db now token_hash key access =
      register_row seen db now token_hash key access (lookup token_hash db.pending_uploads)
