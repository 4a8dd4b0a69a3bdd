-- ===== src/Handlers/Files/Put.antt =====
-- xotero/src/handlers/files.rs: `upload_put`. Between its statements other requests may run:
-- `meanwhile` is what they do to the database and the bucket while the body is read, and `during` what
-- they do between the storing of the bytes and the last statement. `md5` is the hexadecimal digest of the md5 crate.
use zhost.Prelude.{
  ℕ, String, Bool, true, false, not, ◌&&◌, Option, none, some, ◌==◌, if◌then◌else◌, list_eq, nat_eq,
  List, length,
}
use zhost.Prelude.Int.{pos, int_eq}
use zhost.Prelude.Text.{codes}
use zhost.Prelude.Format.{lowercase}
use zhost.Config.{Config}
use zhost.Db.{Db, Digest, authorized, ok, err}
use zhost.Store.Files.{
  PendingUpload, state_beq, pending_upload, claim_pending_upload, reset_pending_upload,
  discard_pending_upload, mark_pending_upload_uploaded,
}
use zhost.Store.Authority.{upload_authorized}
use zhost.Http.Body.{Frame, Read, complete, failed, buffered_body}
use zhost.Http.Middleware.{max_body}
use zhost.Http.Headers.{Response, status_only, message, server_error, s3_error}
use zhost.Handlers.Files.Storage.{Bucket}
use zhost.Handlers.Files.Storage
use zhost.Handlers.Files.Cleanup.{Rounds, cleanup_pending_uploads}

-- What a request of this handler finds besides the database: the times of its look-up, its claim,
-- its last statement and of the rounds of a cleanup, and what other requests do.
pub record Circumstances (S : Type 0) : Type 0 where
  pub looked_up : ℕ
  pub claimed_at : ℕ
  pub stored_at : ℕ
  pub rounds : Rounds
  pub meanwhile : Db × S → Db × S
  pub during : Db × S → Db × S

pub record UploadRequest : Type 0 where
  pub token : String
  pub content_encoding : Option String
  pub frames : List Frame

abbrev pub content_type : PendingUpload → String
content_type upload = if upload.compressed then "application/zip" else "application/octet-stream"

-- `to_lowercase` is Unicode's and `lowercase` only ASCII's: of the characters that Unicode lowers
-- besides, none gives a hexadecimal digit, so that no digest is affected.
abbrev pub matches_authorization : (List ℕ → String) → PendingUpload → List ℕ → Bool
matches_authorization md5 upload body =
    pos (length body) == upload.filesize && codes (md5 body) == lowercase upload.upload_md5

module _ {S : Type 0} (storage : Bucket S) (md5 : List ℕ → String) (c : Circumstances S) where
  -- The last statement, and what is done if the row is no longer the request's.
  unfoldable pub complete_upload : Digest → Db × S → (Db × S) × Response
  complete_upload token_hash (db, bucket) =
      let (db', marked) = mark_pending_upload_uploaded db c.stored_at token_hash in
      if marked then ((db', bucket), status_only 201) else (
        cleanup_pending_uploads storage c.rounds (discard_pending_upload db' token_hash, bucket),
        message 409 "upload token already used",
      )

  -- The row is claimed: the bytes are stored.
  unfoldable pub store_bytes : Digest → PendingUpload → List ℕ → Db × S → (Db × S) × Response
  unfolding complete_upload
  store_bytes token_hash upload body (db, bucket) =
      let (bucket', stored) =
        Storage.put storage bucket upload.blob_key body (content_type upload) in
      let (db', after) = c.during (db, bucket') in
      if stored then complete_upload token_hash (db', after) else (
        cleanup_pending_uploads storage c.rounds
            (reset_pending_upload db' c.stored_at token_hash, after),
        s3_error,
      )

  -- The body is there.
  unfoldable pub receive_bytes : Digest → PendingUpload → List ℕ → Db × S → (Db × S) × Response
  unfolding store_bytes
  receive_bytes token_hash upload body (db, bucket) =
      if not (matches_authorization md5 upload body)
      then ((db, bucket), message 400 "uploaded bytes do not match md5/filesize")
      else (let (db', claimed) = claim_pending_upload db c.claimed_at token_hash in
          if claimed
          then store_bytes token_hash upload body (db', bucket)
          else ((db', bucket), message 409 "upload token already used"))

  -- The upload is found; `body` is what reading the body gives.
  unfoldable pub put_found : Config → Digest → Read → PendingUpload → Db × S → (Db × S) × Response
  unfolding receive_bytes
  put_found config token_hash body upload (db, bucket) =
      if not (state_beq upload.state authorized)
      then ((db, bucket), message 409 "upload token already used")
      else elim (upload_authorized db config upload) [
        | err error ↦ ((db, bucket), server_error error)
        | ok false ↦ ((db, bucket), message 403 "upload access revoked")
        | ok true ↦ elim body [
          | failed status ↦ (c.meanwhile (db, bucket), status_only status)
          | complete bytes ↦ receive_bytes token_hash upload bytes (c.meanwhile (db, bucket))
        ]
      ]

  -- `gunzip` is the decoder of flate2.
  unfoldable pub upload_put :
      (String → Digest)
      → (List ℕ → ℕ → Option (List ℕ))
      → Config
      → UploadRequest
      → Db × S
      → (Db × S) × Response
  unfolding put_found
  upload_put sha256 gunzip config r (db, bucket) =
      elim (pending_upload db c.looked_up (sha256 r.token)) [
        | none ↦ ((db, bucket), message 400 "unknown upload token")
        | some upload ↦
            put_found config (sha256 r.token)
              (buffered_body gunzip r.content_encoding max_body r.frames) upload (db, bucket)
      ]
