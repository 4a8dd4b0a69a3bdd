-- ===== src/Store/Garbage.antt =====
-- xotero/src/store/files.rs: claiming and deleting the uploads that nobody can register any more.
use zhost.Prelude.{
  ℕ, ◌+◌, Bool, true, not, ◌&&◌, ◌||◌, Option, none, some, if◌then◌else◌, list_eq, nat_eq, List, [],
  ◌∷◌, map, any, leb, ltb, take, String, ◌==◌,
}
use zhost.Prelude.Table.{Table, lookup, delete, update_rows}
use zhost.Db.{Db, Digest, PendingRow, uploading, discarded, deleting}
use zhost.Store.Files.{state_beq, set_pending, minute}

abbrev pub attempted_before : ℕ → Option ℕ → Bool
attempted_before now none = true
attempted_before now (some t) = ltb (t + minute) now

unfoldable pub is_garbage : ℕ → PendingRow → Bool
is_garbage now row =
    state_beq row.state discarded
    || (leb row.expires_at now
        && not (state_beq row.state uploading || state_beq row.state deleting))
    || (state_beq row.state deleting && attempted_before now row.gc_attempted_at)

unfoldable pub garbage_rows : ℕ → Table Digest PendingRow → Table Digest PendingRow
unfolding is_garbage
garbage_rows now [] = []
garbage_rows now ((h, row) ∷ rows) =
    let rest = garbage_rows now rows in if is_garbage now row then (h, row) ∷ rest else rest

unfoldable pub insert_by_expiry :
    Digest × PendingRow → Table Digest PendingRow → Table Digest PendingRow
insert_by_expiry r [] = r ∷ []
insert_by_expiry r (s ∷ rows) =
    let later = insert_by_expiry r rows in
    if leb r.1.expires_at s.1.expires_at then r ∷ s ∷ rows else s ∷ later

-- `order by expires_at`.
unfoldable pub by_expiry : Table Digest PendingRow → Table Digest PendingRow
unfolding insert_by_expiry
by_expiry [] = []
by_expiry (r ∷ rows) = insert_by_expiry r (by_expiry rows)

-- `limit $1`.
unfoldable pub candidates : Db → ℕ → ℕ → Table Digest PendingRow
unfolding garbage_rows by_expiry
candidates db now limit = take limit (by_expiry (garbage_rows now db.pending_uploads))

abbrev pub is_candidate : Table Digest PendingRow → Digest → Bool
is_candidate rows token_hash = any (λ r. r.0 == token_hash) rows

abbrev pub claimed : ℕ → Table Digest PendingRow → Digest → PendingRow → PendingRow
claimed now rows token_hash row =
    if is_candidate rows token_hash
    then record row { state = deleting; gc_attempted_at = some now }
    else row

pub record PendingUploadGarbage : Type 0 where
  pub token_hash : Digest
  pub blob_key : String

abbrev pub garbage_of : Digest × PendingRow → PendingUploadGarbage
garbage_of r = record { token_hash = r.0; blob_key = r.1.blob_key }

unfoldable pub claim_pending_upload_garbage : Db → ℕ → ℕ → Db × List PendingUploadGarbage
unfolding candidates
claim_pending_upload_garbage db now limit =
    let rows = candidates db now limit in
    (set_pending db (update_rows (claimed now rows) db.pending_uploads), map garbage_of rows)

unfoldable pub delete_pending_upload_garbage : Db → Digest → Db
delete_pending_upload_garbage db token_hash = elim (lookup token_hash db.pending_uploads) [
  | none ↦ db
  | some row ↦
      if state_beq row.state deleting
      then set_pending db (delete token_hash db.pending_uploads)
      else db
]
