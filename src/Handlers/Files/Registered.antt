-- ===== src/Handlers/Files/Registered.antt =====
-- From the bytes that are sent to the file that is registered.
use zhost.Prelude.{
  ℕ, ◌≡◌, ◌∙◌, inl, inr, true, arith, sym, ap, String, Option, some, list_eq, nat_eq, pair_eq,
  string_eq, List, length,
}
use zhost.Prelude.Int.{ℤ, pos, int_eq}
use zhost.Prelude.Table.{lookup}
use zhost.Prelude.Text.{codes}
use zhost.Prelude.Format.{lowercase}
use zhost.Domain.{LibraryAccess, RequestContext}
use zhost.Config.{Config}
use zhost.Db.{Db, Digest, File, ok}
use zhost.Store.Objects.{item_key}
use zhost.Store.Files.{pending_upload_from_row}
use zhost.Store.Registration.{done, register_file, registered_file}
use zhost.Store.Committed.{register_file-Checked}
use zhost.Http.Body.{Read, complete, buffered_body}
use zhost.Http.Middleware.{max_body}
use zhost.Handlers.Files.Storage.{Bucket, BucketLaws}
use zhost.Handlers.Files.Put.{Circumstances, UploadRequest, upload_put}
use zhost.Handlers.Files.Stored.{names, is_kept, Respects, upload_put-StoredBytes}

-- The file at a key is the one that the body carries.
abbrev pub Carried :
    {S : Type 0} → Bucket S → (List ℕ → String) → Read → S → Db → LibraryAccess → String → Type 0
Carried storage md5 body bucket db access key =
    (f : File) × (bytes : List ℕ) × (body ≡ complete bytes)
    × (lookup (item_key access.library_id key) db.file ≡ some f)
    × (storage.holds bucket f.blob_key ≡ some bytes)
    × (pos (length bytes) ≡ f.filesize)
    × (codes (md5 bytes) ≡ lowercase f.blob_md5)

-- If an upload is answered 201 and its token is then registered for an item, the item's file has the
-- name under which the bucket has the body that was sent when the item is registered, and its length
-- and digest. Other requests may change the database and the bucket before and during the upload and
-- before the registration, if they leave alone what the row of the token says and, as long as it is
-- uploading or uploaded, the object under its name.
pub upload_put-register_file :
    {S : Type 0} (storage : Bucket S) (md5 : List ℕ → String) (c : Circumstances S)
    (sha256 : String → Digest) (gunzip : List ℕ → ℕ → Option (List ℕ)) (config : Config)
    (r : UploadRequest) (db : Db) (bucket : S) (others : Db × S → Db × S) (context : RequestContext)
    (seen db' : Db) (now : ℕ) (key : String) (access : LibraryAccess) (v : ℤ)
    → BucketLaws storage
    → Respects storage (sha256 r.token) c.meanwhile
    → Respects storage (sha256 r.token) c.during
    → Respects storage (sha256 r.token) others
    → (upload_put storage md5 c sha256 gunzip config r (db, bucket)).1.status ≡ 201
    → register_file sha256 config context seen
        (others (upload_put storage md5 c sha256 gunzip config r (db, bucket)).0).0
        now
        (sha256 r.token)
        key
        access
      ≡ ok (db', done v)
    → Carried storage md5
        (buffered_body gunzip r.content_encoding max_body r.frames)
        (others (upload_put storage md5 c sha256 gunzip config r (db, bucket)).0).1
        db'
        access
        key
upload_put-register_file storage md5 c sha256 gunzip config r db bucket others context seen db' now
      key access v laws meanwhile during after put registered =
    let w = (upload_put storage md5 c sha256 gunzip config r (db, bucket)).0 in
    let (upload, row, bytes, _, _, _, sent, there, _, size, digest, held) =
      upload_put-StoredBytes storage md5 c sha256 gunzip config r db bucket laws meanwhile during
        put in
    let (left, item, ids, a, b, found, _, state, _, _, _, _, _, _, _, file, _) =
      register_file-Checked sha256 config context seen (others w).0 db' now (sha256 r.token) key
        access v registered in
    let (kept, at, same, stays) = after w left found in
    let one : kept ≡ row = cc in
    let agree : names row ≡ names left = sym (same ∙ ap names one) in
    let alive : is_kept left.state ≡ true = ground arith in
    let still : storage.holds (others w).1 kept.blob_key ≡ storage.holds w.1 kept.blob_key =
      elim stays [ inl dead ↦ absurd (ground arith) | inr still ↦ still ] in
    let name : left.blob_key ≡ kept.blob_key = ap (λ u. u.blob_key) same in
    (
      registered_file (pending_upload_from_row left) v,
      bytes,
      sent,
      file,
      rw name (still ∙ rw one held),
      size ∙ ap (λ u. u.filesize) agree,
      digest ∙ ap (λ u. lowercase u.upload_md5) agree,
    )
