-- ===== src/Store/Committed.antt =====
-- What `register_file` has checked when it is done, and what it changes otherwise.
use zhost.Prelude.{
  ℕ, ◌≡◌, inl, inr, refl, none, some, arith, list_eq, nat_eq, pair_eq, string_eq, true, List,
  String, ltb,
}
use zhost.Prelude.Int.{ℤ, int_eq, beq_ℤ_iff}
use zhost.Prelude.Table.{lookup, lookup-delete_self, lookup-upsert_self}
use zhost.Domain.{library_id_eq, LibraryAccess, RequestContext}
use zhost.Config.{Config}
use zhost.Db.{Db, Object, Digest, PendingRow, ok, uploaded}
use zhost.Store.{is_stored_file_attachment, next_version}
use text.Mathlib.TextEquality.{eq_iff}
use zhost.Store.Objects.{object_key, item_key}
use zhost.Store.Files.{pending_upload_from_row, state_beq}
use zhost.Store.Authority.{still_allows, uploader, caller, UploadAuthority}
use zhost.Store.Locks.{lock_upload_authorities-Locked}
use zhost.Store.Registration.{
  FileRegistrationOutcome, done, invalid_upload, register_file, register_row, install,
  registered_file, precondition_matches, md5_of, matches_request,
}
use zhost.Store.Registered.{Registers, register_file-cases}

-- A live upload of the item whose bytes are there, its attachment and expected file, both rights to
-- upload, and what the registration leaves.
abbrev pub Checked :
    (String → Digest)
    → Config
    → RequestContext
    → Db
    → Db
    → ℕ
    → Digest
    → String
    → LibraryAccess
    → ℤ
    → Type 0
Checked sha256 config context db db' now token_hash key access v =
    (row : PendingRow) × (item : Object) × (grant_ids : List ℤ × List ℤ) × (first
      second : UploadAuthority)
    × (lookup token_hash db.pending_uploads ≡ some row)
    × (ltb now row.expires_at ≡ true)
    × (state_beq row.state uploaded ≡ true)
    × (row.library_id ≡ access.library_id.get)
    × (row.item_key ≡ key)
    × (lookup (object_key access.library_id "item" key) db.object ≡ some item)
    × (is_stored_file_attachment item.json ≡ true)
    × (precondition_matches row.expected_md5
          (md5_of (lookup (item_key access.library_id key) db.file))
        ≡ true)
    × (still_allows db config (pending_upload_from_row row) grant_ids
          (uploader sha256 config context (pending_upload_from_row row)) first
        ≡ ok true)
    × (still_allows db config (pending_upload_from_row row) grant_ids (caller sha256 config context)
          second
        ≡ ok true)
    × (lookup (item_key access.library_id key) db'.file
        ≡ some (registered_file (pending_upload_from_row row) v))
    × (lookup token_hash db'.pending_uploads ≡ none)

module _ (sha256 : String → Digest) (config : Config) (context : RequestContext) (seen db db' : Db)
    (now : ℕ) (token_hash : Digest) (key : String) (access : LibraryAccess) (v : ℤ)
    (e : register_file sha256 config context seen db now token_hash key access
      ≡ ok (db', done v)) where
  registers : Registers sha256 config context seen db db' now token_hash key access (done v)
  registers =
      elim (register_file-cases sha256 config context seen db db' now token_hash key access (done v)
        e) [ inl (refusal, _) ↦ absurd refusal | inr g ↦ g ]

  -- The version that is answered.
  answered :
      (g : Registers sha256 config context seen db db' now token_hash key access (done v))
      → v ≡ next_version g.version
  answered g = version_of v (next_version g.version) g.commits.answer
    where
      version_of : (a b : ℤ) → ◌≡◌ {A = FileRegistrationOutcome} (done a) (done b) → a ≡ b
      version_of a b h = cc

  installed :
      (g : Registers sha256 config context seen db db' now token_hash key access (done v))
      → (lookup (item_key access.library_id key) db'.file
          ≡ some (registered_file (pending_upload_from_row g.row) v))
        × (lookup token_hash db'.pending_uploads ≡ none)
  unfolding install
  installed g =
      let c = g.commits in
      rw (c.committed, answered g)
        (
          lookup-upsert_self (item_key access.library_id key) _ db.file,
          lookup-delete_self token_hash db.pending_uploads,
        )

  -- A registration that is done found a live upload of the requested item whose bytes are there,
  -- an attachment for it, the expected file, and rights of the uploader and of the caller that
  -- still stand; it makes the upload the item's file at the answered version and uses the token up.
  pub register_file-Checked : Checked sha256 config context db db' now token_hash key access v
  register_file-Checked =
      let g = registers in
      let c = g.commits in
      let k =
        lock_upload_authorities-Locked sha256 config context seen db (pending_upload_from_row g.row)
          g.version g.locked in
      let (state, library, item) = requested g.row g.requested in
      (
        g.row,
        c.item,
        k.grant_ids,
        k.first,
        k.second,
        g.found,
        g.live,
        state,
        library,
        item,
        c.stored,
        c.attachment,
        c.precondition,
        k.uploader_allows,
        k.caller_allows,
        (installed g).0,
        (installed g).1,
      )
    where
      requested :
          (row : PendingRow)
          → matches_request (pending_upload_from_row row) access key ≡ true
          → (state_beq row.state uploaded ≡ true)
            × (row.library_id ≡ access.library_id.get)
            × (row.item_key ≡ key)
      requested row h = (
        ground arith,
        ground (arith, beq_ℤ_iff row.library_id access.library_id.get),
        ground (arith, eq_iff row.item_key key),
      )

  -- After a registration that is done, no request can register with the token again: the answer
  -- is that the upload is invalid, and nothing changes.
  pub register_file-once :
      (other : RequestContext) (seen' : Db) (later : ℕ) (key' : String) (access' : LibraryAccess)
      → register_file sha256 config other seen' db' later token_hash key' access'
        ≡ ok (db', invalid_upload)
  unfolding register_file register_row
  register_file-once other seen' later key' access' = let g = registers in rw ((installed g).1) refl
