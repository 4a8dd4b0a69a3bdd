-- ===== src/Sync/Others.antt =====
-- What a transaction on one library leaves alone.
use zhost.Prelude.{
  ◌≡◌, ◌≢◌, ◌∙◌, inl, inr, refl, ap, Option, none, some, String, pair_eq, string_eq, sym,
}
use zhost.Prelude.Int.{ℤ, int_eq}
use zhost.Prelude.Table.{lookup, lookup-upsert_ne}
use zhost.Json.{Value, Fields}
use zhost.Domain.{LibraryId}
use zhost.Config.{Config}
use zhost.Db.{Db, Digest, ObjectKey, ok}
use zhost.Store.{Outcome}
use zhost.Store.Guard.{no_change-same, at_next_version-eq}
use zhost.Store.Settings.{write_settings, write_entries, nonempty_object}
use zhost.Store.Versions.{deleted}
use zhost.Sync.{IsObjectKey, Unchanged, Effect}
use zhost.Sync.Replica.{Step, Step-Effect}
use zhost.Sync.Metadata.{put_settings-Quiet}

others :
    (l : LibraryId) (db db' : Db) (id : ℤ) (k : ObjectKey)
    → id ≢ l.get
    → k.0 ≡ id
    → IsObjectKey k
    → Effect l db db'
    → (lookup id db'.library ≡ lookup id db.library) × Unchanged k db db'
others l db db' id k other own kind (inl (library, objects, deletions)) =
    (ap (lookup id) library, (ap (lookup k) objects, ap (lookup k) deletions))
others l db db' id k other own kind (inr (row, found, library, touched)) = (
  ap (lookup id) library ∙ lookup-upsert_ne l.get id _ db.library (λ e. other (sym e)),
  elim (touched k kind) [ inl same ↦ same | inr (theirs, _) ↦ absurd (other (sym own ∙ theirs)) ],
)

module _ (sha256 : String → Digest) (json_text : Value → Option String) (config : Config) where
  -- A call on one library changes neither the version nor any object of another library, nor the
  -- log of that library's deleted objects.
  pub Step-others :
      (l : LibraryId) (db db' : Db) (id : ℤ) (kind key : String)
      → Step sha256 json_text config l db db'
      → id ≢ l.get
      → kind ≢ "setting"
      → kind ≢ "tag"
      → (lookup id db'.library ≡ lookup id db.library) × Unchanged (id, (kind, key)) db db'
  Step-others l db db' id kind key step other s t =
      others l db db' id (id, (kind, key)) other refl (s, t)
        (Step-Effect sha256 json_text config l db db' step)

write_entries-log :
    (db db' : Db) (l : LibraryId) (expected : Option ℤ) (entries : Option Fields) (out : Outcome ℤ)
    → write_entries db l expected entries ≡ ok (db', out)
    → db'.deletion ≡ db.deletion
unfolding write_entries
write_entries-log db db' l expected none out h =
    ap (λ (x : Db). x.deletion) (no_change-same db db' l expected (λ x. x) out h)
write_entries-log db db' l expected (some entries) out h =
    let (row, found, result) = at_next_version-eq db db' l expected _ out h in
    elim result [
      | inl (stale, same, _) ↦ ap (λ (x : Db). x.deletion) same
      | inr (fresh, same, _) ↦
          ap (λ (x : Db). x.deletion) same ∙ (put_settings-Quiet l _ entries _).2
    ]

-- A write of settings takes nothing off what is reported as deleted: a setting that was deleted
-- and is written again is still listed among the deleted ones, for every cursor.
pub write_settings-deleted :
    (db db' : Db) (l : LibraryId) (body : Value) (expected : Option ℤ) (out : Outcome ℤ) (since : ℤ)
    → write_settings db l body expected ≡ ok (db', out)
    → deleted db' l since ≡ deleted db l since
unfolding write_settings deleted
write_settings-deleted db db' l body expected out since h =
    rw (write_entries-log db db' l expected (nonempty_object body) out h) refl
