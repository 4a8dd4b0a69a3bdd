-- ===== src/Tests/Uploads.antt =====
-- Uploads on the example.
use zhost.Prelude.{
  ◌≡◌, inr, refl, some, [], ◌∷◌, true, false, list_eq, nat_eq, ltb, pair_eq, string_eq,
}
use zhost.Prelude.Int.{pos, int_eq, add_i64}
use zhost.Prelude.Table.{lookup, upsert, delete}
use zhost.Json.{insert, str_of, get_field}
use zhost.Db.{Db, Result, ok, err, authorized, uploading, uploaded, PendingRow}
use zhost.Domain.{library_id_new, user_id_new, api_key_id_new}
use zhost.Store.{is_stored_file_attachment}
use zhost.Store.Files.{claim_pending_upload, move, with_state}
use zhost.Store.Garbage.{claim_pending_upload_garbage}
use zhost.Store.Identity.{
  authenticate_api_key, active_key, find_key, active_principal, principal_from_row,
}
use zhost.Store.Authority.{
  lock_upload_authorities, lock_and_recheck, with_libraries, resolve, allows, still_allows,
  lock_libraries, sort, dedup, insert_sorted,
}
use zhost.Store.Registration.{
  FileRegistrationOutcome, done, invalid_upload, register_file, register_row, register_locked,
  register_item, install,
}
use zhost.Store.Registered.{register_file-refusal}
use zhost.Store.Committed.{Checked, register_file-Checked, register_file-once}
use zhost.Store.Tokens.{claim_pending_upload-exclusive}
use zhost.Store.Collected.{claim_pending_upload_garbage-spares}
use zhost.Tests.{hash, config, context, access, db, db_with, pending}

abbrev answer_db : Result (Db × FileRegistrationOutcome) → Db
answer_db (ok r) = r.0
answer_db (err e) = db

-- The database after the upload is registered.
abbrev registered : Db
registered = answer_db (register_file hash config context db db 10 (1 ∷ []) "ABCD2345" access)

registered_run :
    register_file hash config context db db 10 (1 ∷ []) "ABCD2345" access
    ≡ ok (registered, done (pos 6))
unfolding register_file register_row lock_upload_authorities lock_and_recheck with_libraries resolve
    allows still_allows lock_libraries sort dedup insert_sorted register_locked register_item
    install is_stored_file_attachment str_of insert lookup upsert delete authenticate_api_key
    active_key find_key active_principal principal_from_row library_id_new user_id_new
    api_key_id_new get_field add_i64
registered_run = refl

register_file-Checked_example :
    Checked hash config context db registered 10 (1 ∷ []) "ABCD2345" access (pos 6)
register_file-Checked_example =
    register_file-Checked hash config context db db registered 10 (1 ∷ []) "ABCD2345" access (pos 6)
      registered_run

register_file-once_example :
    register_file hash config context db registered 11 (1 ∷ []) "ABCD2345" access
    ≡ ok (registered, invalid_upload)
register_file-once_example =
    register_file-once hash config context db db registered 10 (1 ∷ []) "ABCD2345" access (pos 6)
      registered_run context db 11 "ABCD2345" access

refused_run :
    register_file hash config context db db 10 (2 ∷ []) "ABCD2345" access ≡ ok (db, invalid_upload)
unfolding register_file register_row lookup
refused_run = refl

register_file-refusal_example :
    (db.library ≡ db.library)
    × (db.object ≡ db.object)
    × (db.file ≡ db.file)
    × (db.deletion ≡ db.deletion)
    × (db.accounts ≡ db.accounts)
register_file-refusal_example =
    register_file-refusal hash config context db db db 10 (2 ∷ []) "ABCD2345" access invalid_upload
      refused_run _

claim_run : claim_pending_upload (db_with authorized) 10 (1 ∷ []) ≡ (db_with uploading, true)
unfolding claim_pending_upload move lookup upsert
claim_run = refl

claim_pending_upload-exclusive_example :
    (claim_pending_upload (db_with uploading) 11 (1 ∷ []) ≡ (db_with uploading, false))
    × ((row : PendingRow) × (lookup (1 ∷ []) (db_with authorized).pending_uploads ≡ some row)
        × (row.state ≡ authorized)
        × (ltb 10 row.expires_at ≡ true)
        × (lookup (1 ∷ []) (db_with uploading).pending_uploads ≡ some (with_state row uploading)))
claim_pending_upload-exclusive_example =
    claim_pending_upload-exclusive (db_with authorized) (db_with uploading) 10 11 (1 ∷ []) claim_run

pending_there : lookup (1 ∷ []) db.pending_uploads ≡ some (pending uploaded)
unfolding lookup
pending_there = refl

claim_pending_upload_garbage-spares_example :
    lookup (1 ∷ []) (claim_pending_upload_garbage db 10 5).0.pending_uploads
    ≡ some (pending uploaded)
unfolding lookup
claim_pending_upload_garbage-spares_example =
    claim_pending_upload_garbage-spares db 10 5 (1 ∷ []) (pending uploaded) (refl, _) pending_there
      (inr (refl, refl, refl))
