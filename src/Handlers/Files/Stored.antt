-- ===== src/Handlers/Files/Stored.antt =====
-- What is stored when an upload is answered 201.
use zhost.Prelude.{
  ℕ, ◌≡◌, ◌≤◌, ◌⊎◌, Bool, false, ◌||◌, inl, inr, refl, ◌∙◌, sym, ap, String, true, false, Option,
  some, arith, list_eq, list_beq_iff, nat_eq, List, length, Bool-cases, Option-cases, ltb,
}
use zhost.Prelude.Int.{pos, int_eq, beq_ℤ_iff}
use zhost.Prelude.Table.{lookup}
use zhost.Prelude.Text.{codes}
use zhost.Prelude.Format.{lowercase}
use zhost.Config.{Config}
use zhost.Db.{
  Db, Digest, PendingRow, PendingUploadState, authorized, uploading, uploaded, ok, Result-cases,
}
use zhost.Store.Files.{
  PendingUpload, pending_upload_from_row, with_state, pending_upload, state_beq,
  claim_pending_upload, mark_pending_upload_uploaded,
}
use zhost.Store.Tokens.{claim_pending_upload-exclusive, mark_pending_upload_uploaded-eq}
use zhost.Store.Authority.{upload_authorized}
use zhost.Http.Body.{Read, complete, failed, Read-cases, buffered_body}
use zhost.Http.Limits.{buffered_body-failed}
use zhost.Http.Middleware.{max_body}
use zhost.Handlers.Files.Storage.{Bucket, BucketLaws}
use zhost.Handlers.Files.Storage
use zhost.Handlers.Files.Put.{
  Circumstances, content_type, matches_authorization, complete_upload, store_bytes, receive_bytes,
  put_found, UploadRequest, upload_put,
}

-- All that the row of an upload says but for its state and times.
abbrev pub names : PendingRow → PendingUpload
names row = record (pending_upload_from_row row) { state = authorized }

-- The object under the name of the row is in use.
abbrev pub is_kept : PendingUploadState → Bool
is_kept state = state_beq state uploading || state_beq state uploaded

-- Other requests do not change what the row of a token says, and do not make one for it. As long as
-- the row is uploading or uploaded they leave the object under its name alone.
abbrev pub Respects : {S : Type 0} → Bucket S → Digest → (Db × S → Db × S) → Type 0
Respects {S} storage h others =
    (w : Db × S) (row' : PendingRow)
    → lookup h (others w).0.pending_uploads ≡ some row'
    → (row : PendingRow) × (lookup h w.0.pending_uploads ≡ some row)
      × (names row' ≡ names row)
      × ((is_kept row'.state ≡ false)
          ⊎ (storage.holds (others w).1 row.blob_key ≡ storage.holds w.1 row.blob_key))

module _ {S : Type 0} (storage : Bucket S) (laws : BucketLaws storage) (md5 : List ℕ → String)
    (c : Circumstances S) (h : Digest) where
  complete_upload-Marked :
      (db : Db) (bucket : S)
      → (complete_upload storage md5 c h (db, bucket)).1.status ≡ 201
      → (row : PendingRow) × (lookup h db.pending_uploads ≡ some row)
        × (row.state ≡ uploading)
        × (lookup h (complete_upload storage md5 c h (db, bucket)).0.0.pending_uploads
            ≡ some (with_state row uploaded))
        × ((complete_upload storage md5 c h (db, bucket)).0.1 ≡ bucket)
  unfolding complete_upload
  complete_upload-Marked db bucket e =
      elim (Bool-cases (mark_pending_upload_uploaded db c.stored_at h).1) [
        | inl marked ↦
            let (row, there, was, live, after) =
              mark_pending_upload_uploaded-eq db c.stored_at h marked in
            (row, there, was, rw (complete_upload, marked) after, rw (complete_upload, marked) refl)
        | inr lost ↦ absurd (ground arith)
      ]

  -- The bytes are stored, and the row is marked that the other requests left.
  store_bytes-Marked :
      (upload : PendingUpload) (bytes : List ℕ) (db : Db) (bucket : S)
      → Respects storage h c.during
      → (store_bytes storage md5 c h upload bytes (db, bucket)).1.status ≡ 201
      → (row found : PendingRow) × (lookup h db.pending_uploads ≡ some found)
        × (names row ≡ names found)
        × (lookup h (store_bytes storage md5 c h upload bytes (db, bucket)).0.0.pending_uploads
            ≡ some (with_state row uploaded))
        × (found.blob_key ≡ upload.blob_key
            → storage.holds (store_bytes storage md5 c h upload bytes (db, bucket)).0.1 row.blob_key
              ≡ some bytes)
  unfolding store_bytes Storage.put
  store_bytes-Marked upload bytes db bucket respects e =
      let r = Storage.put storage bucket upload.blob_key bytes (content_type upload) in
      elim (Bool-cases r.1) [
        | inl stored ↦
            let w = c.during (db, r.0) in
            let q : store_bytes storage md5 c h upload bytes (db, bucket)
                ≡ complete_upload storage md5 c h w =
              rw (store_bytes, stored) refl in
            let (row, there, was, after, kept) = complete_upload-Marked w.0 w.1 (rw (← q) e) in
            let (found, before, same, held) = respects (db, r.0) row there in
            let alive : is_kept row.state ≡ true = rw was refl in
            let left : storage.holds w.1 found.blob_key ≡ storage.holds r.0 found.blob_key =
              elim held [ inl dead ↦ absurd (ground arith) | inr left ↦ left ] in
            let named : row.blob_key ≡ found.blob_key = ap (λ u. u.blob_key) same in
            (
              row,
              found,
              before,
              same,
              rw q after,
              λ own.
                  rw (q, kept, named)
                    (left
                      ∙ rw own (
                          laws.put_same bucket upload.blob_key bytes (content_type upload) stored)),
            )
        | inr broken ↦ absurd (ground arith)
      ]

  -- The claim found the row as it was before, but for its state.
  receive_bytes-Marked :
      (upload : PendingUpload) (bytes : List ℕ) (db : Db) (bucket : S)
      → Respects storage h c.during
      → (receive_bytes storage md5 c h upload bytes (db, bucket)).1.status ≡ 201
      → (before : PendingRow) × (row : PendingRow) × (lookup h db.pending_uploads ≡ some before)
        × (lookup h (receive_bytes storage md5 c h upload bytes (db, bucket)).0.0.pending_uploads
            ≡ some row)
        × (row.state ≡ uploaded)
        × (names row ≡ names before)
        × (pos (length bytes) ≡ upload.filesize)
        × (codes (md5 bytes) ≡ lowercase upload.upload_md5)
        × (before.blob_key ≡ upload.blob_key
            → storage.holds
                (receive_bytes storage md5 c h upload bytes (db, bucket)).0.1
                row.blob_key
              ≡ some bytes)
  unfolding receive_bytes
  receive_bytes-Marked upload bytes db bucket respects e =
      elim (Bool-cases (matches_authorization md5 upload bytes)) [
        | inr other ↦ absurd (ground arith)
        | inl matches ↦
            let r = claim_pending_upload db c.claimed_at h in
            elim (Bool-cases r.1) [
              | inr lost ↦ absurd (ground arith)
              | inl claimed ↦
                  let q : receive_bytes storage md5 c h upload bytes (db, bucket)
                      ≡ store_bytes storage md5 c h upload bytes (r.0, bucket) =
                    rw (receive_bytes, matches, claimed) refl in
                  let pair : claim_pending_upload db c.claimed_at h ≡ (r.0, true) =
                    rw (← claimed) refl in
                  let (_, (before, there, was, live, taken)) =
                    claim_pending_upload-exclusive db r.0 c.claimed_at 0 h pair in
                  let (marked, claimed_row, at, same, after, held) =
                    store_bytes-Marked upload bytes r.0 bucket respects (rw (← q) e) in
                  let one : with_state before uploading ≡ claimed_row = cc in
                  let kept : names marked ≡ names before = same ∙ ap names (sym one) in
                  (
                    before,
                    with_state marked uploaded,
                    there,
                    rw q after,
                    refl,
                    kept,
                    ground (arith, beq_ℤ_iff (pos (length bytes)) upload.filesize),
                    ground (arith, list_beq_iff (codes (md5 bytes)) (lowercase upload.upload_md5)),
                    λ own. rw q (held (sym (ap (λ u. u.blob_key) one) ∙ own)),
                  )
            ]
      ]

-- The upload that was found and the row that is left: the row is uploaded, has the bytes of the
-- body under its name, and their length and digest are those that were authorized.
abbrev pub StoredBytes :
    {S : Type 0}
    → Bucket S
    → (List ℕ → String)
    → Circumstances S
    → Config
    → Digest
    → Read
    → Db
    → Db × S
    → Type 0
StoredBytes storage md5 c config h body db (db', bucket) =
    (upload : PendingUpload) × (row : PendingRow) × (bytes : List ℕ) × (pending_upload db
        c.looked_up h
      ≡ some upload)
    × (state_beq upload.state authorized ≡ true)
    × (upload_authorized db config upload ≡ ok true)
    × (body ≡ complete bytes)
    × (lookup h db'.pending_uploads ≡ some row)
    × (row.state ≡ uploaded)
    × (pos (length bytes) ≡ row.filesize)
    × (codes (md5 bytes) ≡ lowercase row.upload_md5)
    × (storage.holds bucket row.blob_key ≡ some bytes)

pending_upload-eq :
    (db : Db) (now : ℕ) (h : Digest) (upload : PendingUpload)
    → pending_upload db now h ≡ some upload
    → (row : PendingRow) × (lookup h db.pending_uploads ≡ some row)
      × (pending_upload_from_row row ≡ upload)
unfolding pending_upload
pending_upload-eq db now h upload e = elim (Option-cases (lookup h db.pending_uploads)) [
  | inl gone ↦ absurd (ground arith)
  | inr (row, there) ↦ elim (Bool-cases (ltb now row.expires_at)) [
    | inl live ↦
        let same : pending_upload_from_row row ≡ upload = ground arith in (row, there, same)
    | inr late ↦ absurd (ground arith)
  ]
]

module _ {S : Type 0} (storage : Bucket S) (md5 : List ℕ → String) (c : Circumstances S)
    (config : Config) (h : Digest) (body : Read) (upload : PendingUpload) (db : Db)
    (bucket : S) where
  -- The stages before the bytes are read.
  put_found-Received :
      ((status : ℕ) → body ≡ failed status → 400 ≤ status)
      → (put_found storage md5 c config h body upload (db, bucket)).1.status ≡ 201
      → (bytes : List ℕ) × (state_beq upload.state authorized ≡ true)
        × (upload_authorized db config upload ≡ ok true)
        × (body ≡ complete bytes)
        × (put_found storage md5 c config h body upload (db, bucket)
            ≡ receive_bytes storage md5 c h upload bytes (c.meanwhile (db, bucket)))
  unfolding put_found
  put_found-Received errors e = elim (Bool-cases (state_beq upload.state authorized)) [
    | inr used ↦ absurd (ground arith)
    | inl fresh ↦ elim (Result-cases (upload_authorized db config upload)) [
      | inl (problem, broken) ↦ absurd (ground arith)
      | inr (false, revoked) ↦ absurd (ground arith)
      | inr (true, granted) ↦ elim (Read-cases body) [
        | inl (status, refused) ↦ absurd (ground (arith, errors status refused))
        | inr (bytes, there) ↦
            (bytes, fresh, granted, there, rw (put_found, fresh, granted, there) refl)
      ]
    ]
  ]

-- An upload that is answered 201 was found authorized and live, with rights that still hold, and
-- leaves its row uploaded. Under the name in the row the bucket has the bytes of the request's body,
-- whose length and digest are the row's. Other requests may change the database and the bucket in
-- between, if they leave alone what the row of the token says and, as long as it is uploading or
-- uploaded, the object under its name.
pub upload_put-StoredBytes :
    {S : Type 0} (storage : Bucket S) (md5 : List ℕ → String) (c : Circumstances S)
    (sha256 : String → Digest) (gunzip : List ℕ → ℕ → Option (List ℕ)) (config : Config)
    (r : UploadRequest) (db : Db) (bucket : S)
    → BucketLaws storage
    → Respects storage (sha256 r.token) c.meanwhile
    → Respects storage (sha256 r.token) c.during
    → (upload_put storage md5 c sha256 gunzip config r (db, bucket)).1.status ≡ 201
    → StoredBytes storage md5 c config
        (sha256 r.token)
        (buffered_body gunzip r.content_encoding max_body r.frames)
        db
        (upload_put storage md5 c sha256 gunzip config r (db, bucket)).0
unfolding upload_put
upload_put-StoredBytes storage md5 c sha256 gunzip config r db bucket laws meanwhile during e =
    let h = sha256 r.token in
    let body = buffered_body gunzip r.content_encoding max_body r.frames in
    elim (Option-cases (pending_upload db c.looked_up h)) [
      | inl unknown ↦ absurd (ground arith)
      | inr (upload, found) ↦
          let run : upload_put storage md5 c sha256 gunzip config r (db, bucket)
              ≡ put_found storage md5 c config h body upload (db, bucket) =
            rw (upload_put, found) refl in
          let (bytes, fresh, granted, there, received) =
            put_found-Received storage md5 c config h body upload db bucket
              (buffered_body-failed gunzip r.content_encoding max_body r.frames) (rw (← run) e) in
          let (before, row, at, after, done, same, size, digest, held) =
            receive_bytes-Marked storage laws md5 c h upload bytes (c.meanwhile (db, bucket)).0
              (c.meanwhile (db, bucket)).1 during (rw (← received, ← run) e) in
          let (first, seen, kept, _) = meanwhile (db, bucket) before at in
          let (looked, at_first, says) = pending_upload-eq db c.looked_up h upload found in
          let one : first ≡ looked = cc in
          let agree : names row ≡ names looked = same ∙ kept ∙ ap names one in
          let own : before.blob_key ≡ upload.blob_key =
            ap (λ u. u.blob_key) (kept ∙ ap names one) ∙ ap (λ u. u.blob_key) says in
          let filesize : upload.filesize ≡ row.filesize =
            sym (ap (λ u. u.filesize) agree ∙ ap (λ u. u.filesize) says) in
          let sum : upload.upload_md5 ≡ row.upload_md5 =
            sym (ap (λ u. u.upload_md5) agree ∙ ap (λ u. u.upload_md5) says) in
          (
            upload,
            row,
            bytes,
            found,
            fresh,
            granted,
            there,
            rw (run, received) after,
            done,
            size ∙ filesize,
            digest ∙ ap lowercase sum,
            rw (run, received) (held own),
          )
    ]
