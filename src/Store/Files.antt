-- ===== src/Store/Files.antt =====
-- xotero/src/store/files.rs: stored files and the states of pending uploads. `now` is the time of
-- the statement, in microseconds.
use zhost.Prelude.{
  ℕ, ◌+◌, String, Bool, true, false, ◌&&◌, ◌||◌, Option, none, some, ◌==◌, if◌then◌else◌, string_eq,
  list_eq, nat_eq, pair_eq, is_some, is_some_and, ltb, any,
}
use zhost.Prelude.Int.{ℤ, int_eq}
use zhost.Prelude.Table.{Table, lookup, upsert, update_rows}
use zhost.Domain.{LibraryId, GroupId, UserId}
use zhost.Db.{
  Db, File, Digest, PendingRow, PendingUploadState, authorized, uploading, uploaded, discarded,
  deleting, Result, ok, err, protocol,
}
use zhost.Store.{is_stored_file_attachment}
use zhost.Store.Objects.{json_of, object_key, item_key}

unfoldable pub stored_file_attachment_exists : Db → LibraryId → String → Bool
stored_file_attachment_exists db library_id key =
    is_some_and is_stored_file_attachment
      (json_of (lookup (object_key library_id "item" key) db.object))

-- `file` joined with the attachment item that it belongs to.
unfoldable pub file_meta : Db → LibraryId → String → Option File
unfolding stored_file_attachment_exists
file_meta db library_id key =
    if stored_file_attachment_exists db library_id key
    then lookup (item_key library_id key) db.file
    else none

abbrev pub state_beq : PendingUploadState → PendingUploadState → Bool
state_beq authorized authorized = true
state_beq uploading uploading = true
state_beq uploaded uploaded = true
state_beq discarded discarded = true
state_beq deleting deleting = true
state_beq _ _ = false

pub record PendingUpload : Type 0 where
  pub library_id : LibraryId
  pub group_id : Option GroupId
  pub authorizer_key_hash : Digest
  pub bootstrap_user_id : Option UserId
  pub item_key : String
  pub expected_md5 : Option String
  pub blob_key : String
  pub md5 : String
  pub upload_md5 : String
  pub filename : String
  pub filesize : ℤ
  pub mtime : ℤ
  pub compressed : Bool
  pub state : PendingUploadState

abbrev group_of : Option ℤ → Option GroupId
group_of none = none
group_of (some id) = some (record { get = id })

abbrev user_of : Option ℤ → Option UserId
user_of none = none
user_of (some id) = some (record { get = id })

-- The table's constraints give the positive identifiers that the source expects here.
abbrev pub pending_upload_from_row : PendingRow → PendingUpload
pending_upload_from_row row = record {
  library_id = record { get = row.library_id };
  group_id = group_of row.group_id;
  authorizer_key_hash = row.authorizer_key_hash;
  bootstrap_user_id = user_of row.bootstrap_user_id;
  item_key = row.item_key;
  expected_md5 = row.expected_md5;
  blob_key = row.blob_key;
  md5 = row.md5;
  upload_md5 = row.upload_md5;
  filename = row.filename;
  filesize = row.filesize;
  mtime = row.mtime;
  compressed = row.compressed;
  state = row.state;
}

abbrev get_group : Option GroupId → Option ℤ
get_group none = none
get_group (some id) = some id.get

abbrev get_user : Option UserId → Option ℤ
get_user none = none
get_user (some id) = some id.get

abbrev pub hour : ℕ
hour = 3_600_000_000

abbrev pub minute : ℕ
minute = 60_000_000

abbrev new_row : ℕ → PendingUpload → PendingRow
new_row now u = record {
  library_id = u.library_id.get;
  group_id = get_group u.group_id;
  authorizer_key_hash = u.authorizer_key_hash;
  bootstrap_user_id = get_user u.bootstrap_user_id;
  item_key = u.item_key;
  expected_md5 = u.expected_md5;
  blob_key = u.blob_key;
  md5 = u.md5;
  upload_md5 = u.upload_md5;
  filename = u.filename;
  filesize = u.filesize;
  mtime = u.mtime;
  compressed = u.compressed;
  state = authorized;
  expires_at = now + hour;
  gc_attempted_at = none;
}

abbrev pub set_pending : Db → Table Digest PendingRow → Db
set_pending db rows = record db { pending_uploads = rows }

-- The token's digest is the primary key, and `blob_key` is unique.
unfoldable pub create_pending_upload : Db → ℕ → Digest → PendingUpload → Result Db
create_pending_upload db now token_hash upload =
    if is_some (lookup token_hash db.pending_uploads)
      || any (λ r. r.1.blob_key == upload.blob_key) db.pending_uploads
    then err (protocol "duplicate key")
    else ok (set_pending db (upsert token_hash (new_row now upload) db.pending_uploads))

unfoldable pub pending_upload : Db → ℕ → Digest → Option PendingUpload
pending_upload db now token_hash = elim (lookup token_hash db.pending_uploads) [
  | none ↦ none
  | some row ↦ if ltb now row.expires_at then some (pending_upload_from_row row) else none
]

abbrev pub with_state : PendingRow → PendingUploadState → PendingRow
with_state row state = record row { state = state }

-- `update pending_uploads set state = … where token_hash = $1 and …`, with the rows affected.
unfoldable pub move : Db → Digest → (PendingRow → Option PendingUploadState) → Db × ℕ
move db token_hash next = elim (lookup token_hash db.pending_uploads) [
  | none ↦ (db, 0)
  | some row ↦ elim (next row) [
    | none ↦ (db, 0)
    | some state ↦ (set_pending db (upsert token_hash (with_state row state) db.pending_uploads), 1)
  ]
]

abbrev pub to_uploading : ℕ → PendingRow → Option PendingUploadState
to_uploading now row =
    if state_beq row.state authorized && ltb now row.expires_at then some uploading else none

unfoldable pub claim_pending_upload : Db → ℕ → Digest → Db × Bool
unfolding move
claim_pending_upload db now token_hash =
    let r = move db token_hash (to_uploading now) in (r.0, r.1 == 1)

abbrev pub to_reset : ℕ → PendingRow → Option PendingUploadState
to_reset now row =
    if state_beq row.state uploading
    then some (if ltb now row.expires_at then authorized else discarded)
    else none

unfoldable pub reset_pending_upload : Db → ℕ → Digest → Db
unfolding move
reset_pending_upload db now token_hash = (move db token_hash (to_reset now)).0

abbrev pub to_discarded : PendingRow → Option PendingUploadState
to_discarded row = if state_beq row.state uploading then some discarded else none

unfoldable pub discard_pending_upload : Db → Digest → Db
unfolding move
discard_pending_upload db token_hash = (move db token_hash to_discarded).0

abbrev pub to_uploaded : ℕ → PendingRow → Option PendingUploadState
to_uploaded now row =
    if state_beq row.state uploading && ltb now row.expires_at then some uploaded else none

unfoldable pub mark_pending_upload_uploaded : Db → ℕ → Digest → Db × Bool
unfolding move
mark_pending_upload_uploaded db now token_hash =
    let r = move db token_hash (to_uploaded now) in (r.0, r.1 == 1)

abbrev pub interrupted : Digest → PendingRow → PendingRow
interrupted token_hash row =
    if state_beq row.state uploading then with_state row authorized else row

unfoldable pub reset_interrupted_pending_uploads : Db → Db
reset_interrupted_pending_uploads db = set_pending db (update_rows interrupted db.pending_uploads)
