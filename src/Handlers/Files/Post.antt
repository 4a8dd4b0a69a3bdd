-- ===== src/Handlers/Files/Post.antt =====
-- xotero/src/handlers/files.rs: `file_post`, which authorizes an upload and registers it, and
-- `file_get`.
use zhost.Prelude.{
  ℕ, String, Bool, not, ◌&&◌, ◌||◌, Option, none, some, ◌==◌, if◌then◌else◌, string_eq, option_eq,
  [], ◌∷◌, is_some, is_some_and, unwrap_or, and_then, keep_if,
}
use zhost.Prelude.Int.{ℤ, pos}
use zhost.Prelude.Table.{Table, lookup}
use zhost.Prelude.Text.{parse_i64, eq_ignore_ascii_case, is_nonempty}
use zhost.Prelude.Format.{concat, int_to_string}
use zhost.Json.{Value, obj, str, end, field, from_int}
use zhost.Domain.{LibraryId, library_id_eq, group_id_eq, LibraryAccess, RequestContext}
use zhost.Config.{Config}
use zhost.Db.{Db, Digest, File, authorized, uploaded, Result, ok, err}
use zhost.Store.{current_version}
use zhost.Store.Files.{
  PendingUpload, state_beq, pending_upload, stored_file_attachment_exists, file_meta,
  create_pending_upload,
}
use zhost.Store.Registration.{
  FileRegistrationOutcome, done, conflict, invalid_item, invalid_upload, denied, md5_of,
  register_file,
}
use zhost.Http.Headers
use zhost.Http.Headers.{
  HeaderMap, Form, Response, status_only, message, with_headers, json_response, server_error,
  s3_error, request_library, header_text, header_value, version_headers, current_headers,
}
use zhost.Http.Validation.{valid_key}
use zhost.Handlers.Files.Storage.{Bucket}
use zhost.Handlers.Files.Cleanup.{Rounds, cleanup_pending_uploads}

unfoldable pub upload_storage_key : LibraryId → String → String
upload_storage_key library_id upload_token =
    concat ("libraries/" ∷ int_to_string library_id.get ∷ "/uploads/" ∷ upload_token ∷ [])

abbrev form_or_empty : String → Form → String
form_or_empty name form = unwrap_or "" (lookup name form)

abbrev number_or_zero : String → Form → ℤ
number_or_zero name form = unwrap_or (pos 0) (and_then (lookup name form) parse_i64)

-- What the form of an authorization says of the archive that will be sent.
abbrev pub zip_md5 : Form → Option String
zip_md5 form = keep_if is_nonempty (lookup "zipMD5" form)

abbrev pub zip_filename : Form → Option String
zip_filename form = keep_if is_nonempty (lookup "zipFilename" form)

abbrev pub is_compressed : Form → Bool
is_compressed form =
    is_some (zip_md5 form)
    || is_some_and (λ value. is_nonempty value && not (value == "0")) (lookup "zip" form)

abbrev pub differ : Bool → Bool → Bool
differ a b = (a && not b) || (not a && b)

-- One request: its access and key, the item of its path, its headers and form, and its time. The
-- tokens are those that the random device gives.
pub record FileRequest : Type 0 where
  pub access : LibraryAccess
  pub context : RequestContext
  pub key : String
  pub headers : HeaderMap
  pub form : Form
  pub now : ℕ
  pub rounds : Rounds
  pub token : Option String
  pub candidate_id : Option String

module _ {S : Type 0} (storage : Bucket S) (sha256 : String → Digest) (config : Config)
    (r : FileRequest) where
  -- The answer of a registration.
  unfoldable pub answer_registration :
      Db × S → Result (Db × FileRegistrationOutcome) → (Db × S) × Response
  answer_registration (db, bucket) (ok (db', done version)) =
      ((db', bucket), with_headers 204 (version_headers version))
  answer_registration (db, bucket) (ok (db', conflict current)) =
      (cleanup_pending_uploads storage r.rounds (db', bucket), Headers.conflict current)
  answer_registration (db, bucket) (ok (db', invalid_item)) = (
    cleanup_pending_uploads storage r.rounds (db', bucket),
    message 409 "attachment item changed",
  )
  answer_registration (db, bucket) (ok (db', invalid_upload)) =
      ((db', bucket), message 400 "no pending upload")
  answer_registration (db, bucket) (ok (db', denied)) =
      ((db', bucket), message 403 "upload access revoked")
  answer_registration (db, bucket) (err error) = ((db, bucket), server_error error)

  -- The checks on the upload that was found, before the registration.
  abbrev pub registration_refusal : PendingUpload → Option Response
  registration_refusal upload =
      if not (upload.item_key == r.key)
      then some (message 400 "upload token does not match item")
      else if not (upload.library_id == request_library r.access)
      then some (message 403 "upload token library mismatch")
      else if not (upload.group_id == r.access.group_id)
      then some (message 403 "upload token group mismatch")
      else if not (state_beq upload.state uploaded)
      then some (message 400 "no uploaded bytes")
      else none

  -- `seen` is the database before the registration takes its locks, `db` the one under them.
  unfoldable pub post_registration : Db → String → Db × S → (Db × S) × Response
  unfolding answer_registration
  post_registration seen token (db, bucket) = elim (pending_upload seen r.now (sha256 token)) [
    | none ↦ ((db, bucket), message 400 "no pending upload")
    | some upload ↦ elim (registration_refusal upload) [
      | some response ↦ ((db, bucket), response)
      | none ↦
          answer_registration (db, bucket)
            (register_file sha256 config r.context seen db r.now (sha256 token) r.key r.access)
    ]
  ]

  abbrev pub if_none_match : Bool
  if_none_match = is_some (lookup "if-none-match" r.headers)

  abbrev pub if_match : Option String
  if_match = header_text "if-match" r.headers

  abbrev pub form_md5 : String
  form_md5 = form_or_empty "md5" r.form

  abbrev pub new_upload : Option String → String → PendingUpload
  new_upload stored_md5 candidate_id = record {
    library_id = request_library r.access;
    group_id = r.access.group_id;
    authorizer_key_hash = sha256 r.context.presented_key;
    bootstrap_user_id =
        if is_some r.context.api_key_id then none else some r.context.principal.user_id;
    item_key = r.key;
    expected_md5 = if if_none_match then none else stored_md5;
    blob_key = upload_storage_key (request_library r.access) candidate_id;
    md5 = form_md5;
    upload_md5 = unwrap_or form_md5 (zip_md5 r.form);
    filename = form_or_empty "filename" r.form;
    filesize = number_or_zero "filesize" r.form;
    mtime = number_or_zero "mtime" r.form;
    compressed = is_compressed r.form;
    state = authorized;
  }

  abbrev pub authorization_json : String → Value
  authorization_json token = obj (
      field "url" (str (concat (config.public_url ∷ "/uploads/" ∷ token ∷ []))) (
        field "uploadKey" (str token) (
          field "contentType"
            (str (if is_compressed r.form then "application/zip" else "application/octet-stream"))
            (field "prefix" (str "") (field "suffix" (str "") end)))))

  -- The tokens are there: the row is inserted.
  unfoldable pub create_upload : Option String → String → String → Db × S → (Db × S) × Response
  create_upload stored_md5 token candidate_id (db, bucket) =
      elim (create_pending_upload db r.now (sha256 token) (new_upload stored_md5 candidate_id)) [
        | err error ↦ ((db, bucket), server_error error)
        | ok db' ↦ ((db', bucket), json_response [] (authorization_json token))
      ]

  -- The preconditions hold.
  unfoldable pub authorize : Option String → Db × S → (Db × S) × Response
  unfolding create_upload
  authorize stored_md5 w =
      let cleaned = cleanup_pending_uploads storage r.rounds w in
      elim r.token [
        | none ↦ (cleaned, status_only 500)
        | some token ↦ elim r.candidate_id [
          | none ↦ (cleaned, status_only 500)
          | some candidate_id ↦ create_upload stored_md5 token candidate_id cleaned
        ]
      ]

  abbrev pub conflict_at_current : Db → Response
  conflict_at_current db = elim (current_version db (request_library r.access)) [
    | ok current ↦ Headers.conflict current
    | err error ↦ server_error error
  ]

  abbrev pub exists_json : Value
  exists_json = obj (field "exists" (from_int (pos 1)) end)

  abbrev pub already_there : Db → Response
  already_there db = elim (current_headers db r.access) [
    | ok headers ↦ json_response headers exists_json
    | err error ↦ server_error error
  ]

  -- `If-None-Match`, or else `If-Match`, against the file that is stored; `none` goes on.
  unfoldable pub precondition_refusal : Db → Option String → Option Response
  precondition_refusal db stored_md5 =
      if if_none_match
      then elim stored_md5 [
        | none ↦ none
        | some existing ↦
            if eq_ignore_ascii_case existing form_md5
            then some (already_there db)
            else some (conflict_at_current db)
      ]
      else elim if_match [
        | none ↦ none
        | some want ↦
            if is_some_and (λ m. eq_ignore_ascii_case m want) stored_md5
            then none
            else some (conflict_at_current db)
      ]

  unfoldable pub post_authorization : Db × S → (Db × S) × Response
  unfolding authorize precondition_refusal
  post_authorization (db, bucket) =
      let stored_md5 = md5_of (file_meta db (request_library r.access) r.key) in
      if not if_none_match && not (is_some if_match)
      then ((db, bucket), message 428 "If-Match or If-None-Match required")
      else if not (stored_file_attachment_exists db (request_library r.access) r.key)
      then ((db, bucket), status_only 404)
      else if differ (is_some (zip_md5 r.form)) (is_some (zip_filename r.form))
      then ((db, bucket), message 400 "zipMD5 and zipFilename must be provided together")
      else elim (precondition_refusal db stored_md5) [
        | some response ↦ ((db, bucket), response)
        | none ↦ authorize stored_md5 (db, bucket)
      ]

  unfoldable pub file_post : Db → Db × S → (Db × S) × Response
  unfolding post_registration post_authorization
  file_post seen w =
      if not (valid_key r.key)
      then (w, message 400 "invalid item key")
      else elim (lookup "upload" r.form) [
        | some token ↦ post_registration seen token w
        | none ↦ post_authorization w
      ]

-- The headers of a download. `parse` is the http crate's test of a header's value.
abbrev pub download_headers : (String → Option String) → String → File → Table String String
download_headers parse url meta =
    ("location", header_value parse url)
    ∷ ("zotero-file-modification-time", header_value parse (int_to_string meta.mtime))
    ∷ ("zotero-file-md5", header_value parse meta.blob_md5)
    ∷ ("zotero-file-size", header_value parse (int_to_string meta.filesize))
    ∷ ("zotero-file-compressed", header_value parse (if meta.compressed then "Yes" else "No"))
    ∷ []

unfoldable pub file_get :
    {S : Type 0} → Bucket S → (String → Option String) → LibraryAccess → String → Db × S → Response
file_get storage parse access key (db, bucket) =
    if not (valid_key key)
    then status_only 404
    else elim (file_meta db (request_library access) key) [
      | none ↦ status_only 404
      | some meta ↦ elim (storage.presign_get bucket meta.blob_key) [
        | none ↦ s3_error
        | some url ↦ with_headers 302 (download_headers parse url meta)
      ]
    ]
