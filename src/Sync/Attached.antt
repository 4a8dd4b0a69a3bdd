-- ===== src/Sync/Attached.antt =====
-- Stored files and their attachments under every transaction.
use zhost.Prelude.{
  ℕ, ◌+◌, ◌≡◌, inl, inr, Option, none, some, arith, Bool, List, [], ◌∷◌, String, pair_eq, string_eq,
}
use zhost.Prelude.Int.{ℤ, int_eq}
use zhost.Json.{Value, Fields, end, field}
use zhost.Domain.{LibraryId, LibraryAccess, RequestContext}
use zhost.Config.{Config}
use zhost.Db.{Db, ItemKey, ok, Digest, bind-eq-ok}
use zhost.Store.{Outcome, set_version, next_version, at_next_version, guarded_version}
use zhost.Store.Guard.{at_next_version-eq, no_change-same, guarded_version-Guarded}
use zhost.Store.Objects.{Supplies, ObjectMutation, write, delete_keys}
use zhost.Store.Settings.{
  write_settings, write_entries, delete_settings, put_settings, remove_settings, remove_setting,
  nonempty_object,
}
use zhost.Store.Tags.{delete_tags}
use zhost.Store.Fulltext.{write_fulltext, put_fulltext}
use zhost.Store.Registration.{FileRegistrationOutcome, register_file}
use zhost.Store.Files.{pending_upload_from_row}
use zhost.Store.Registered.{register_file-cases}
use zhost.Store.Written.{write-cases, delete_keys-cases}
use zhost.Store.Attachments.{Owned, write_objects-Owned, delete_objects-Owned}
use zhost.Store.Ownership.{install-Owned, delete_each_tag-Owned}
use zhost.Sync.Replica.{
  Step, write_step, delete_step, write_settings_step, delete_settings_step, delete_tags_step,
  write_fulltext_step, register_file_step,
}

module _ (k : ItemKey) where
  put_settings-Owned :
      (l : LibraryId) (version : ℤ) (entries : Fields) (db : Db)
      → Owned k db
      → Owned k (put_settings l version entries db)
  unfolding put_settings
  put_settings-Owned l version end db h = h
  put_settings-Owned l version (field key entry entries) db h =
      put_settings-Owned l version entries _ h

  remove_settings-Owned :
      (l : LibraryId) (version : ℤ) (keys : List String) (db : Db)
      → Owned k db
      → Owned k (remove_settings l version keys db)
  unfolding remove_settings remove_setting
  remove_settings-Owned l version [] db h = h
  remove_settings-Owned l version (key ∷ keys) db h =
      remove_settings-Owned l version keys (remove_setting l version key db) h

  put_fulltext-Owned :
      (l : LibraryId) (v : ℤ) (index : ℕ) (batch : List Value) (s : Db × Fields)
      → Owned k s.0
      → Owned k (put_fulltext l v index batch s).0
  unfolding put_fulltext
  put_fulltext-Owned l v index [] s h = h
  put_fulltext-Owned l v index (item ∷ batch) (db, s) h =
      put_fulltext-Owned l v (index + 1) batch _ h

  at_next_version-Owned :
      (db db' : Db) (l : LibraryId) (expected : Option ℤ) (change : ℤ → Db → Db) (out : Outcome ℤ)
      → ((v : ℤ) (tx : Db) → Owned k tx → Owned k (change v tx))
      → at_next_version db l expected change ≡ ok (db', out)
      → Owned k db
      → Owned k db'
  at_next_version-Owned db db' l expected change out step e h =
      let (row, found, result) = at_next_version-eq db db' l expected change out e in
      elim result [ inl (stale, same, _) ↦ rw same h | inr (fresh, same, _) ↦ rw same (step _ _ h) ]

  write_entries-Owned :
      (db db' : Db) (l : LibraryId) (expected : Option ℤ) (entries : Option Fields)
      (out : Outcome ℤ)
      → write_entries db l expected entries ≡ ok (db', out)
      → Owned k db
      → Owned k db'
  unfolding write_entries
  write_entries-Owned db db' l expected none out e h =
      rw (no_change-same db db' l expected (λ x. x) out e) h
  write_entries-Owned db db' l expected (some entries) out e h =
      at_next_version-Owned db db' l expected _ out (λ v tx. put_settings-Owned l v entries tx) e h

  write_settings-Owned :
      (db db' : Db) (l : LibraryId) (body : Value) (expected : Option ℤ) (out : Outcome ℤ)
      → write_settings db l body expected ≡ ok (db', out)
      → Owned k db
      → Owned k db'
  unfolding write_settings
  write_settings-Owned db db' l body expected out e h =
      write_entries-Owned db db' l expected (nonempty_object body) out e h

  delete_settings-Owned :
      (db db' : Db) (l : LibraryId) (keys : List String) (expected : Option ℤ) (out : Outcome ℤ)
      → delete_settings db l keys expected ≡ ok (db', out)
      → Owned k db
      → Owned k db'
  unfolding delete_settings
  delete_settings-Owned db db' l [] expected out e h =
      rw (no_change-same db db' l expected (λ x. x) out e) h
  delete_settings-Owned db db' l (key ∷ keys) expected out e h =
      at_next_version-Owned db db' l expected _ out
        (λ v tx. remove_settings-Owned l v (key ∷ keys) tx) e h

  delete_tags-Owned :
      (json_text : Value → Option String) (db db' : Db) (l : LibraryId) (tags : List String)
      (expected : Option ℤ) (out : Outcome ℤ)
      → delete_tags json_text db l tags expected ≡ ok (db', out)
      → Owned k db
      → Owned k db'
  unfolding delete_tags
  delete_tags-Owned json_text db db' l [] expected out e h =
      rw (no_change-same db db' l expected (λ x. x) out e) h
  delete_tags-Owned json_text db db' l (tag ∷ tags) expected out e h =
      at_next_version-Owned db db' l expected _ out
        (λ v tx. delete_each_tag-Owned json_text l v (tag ∷ tags) tx k) e h

  write_fulltext-Owned :
      (db db' : Db) (l : LibraryId) (batch : List Value) (expected : Option ℤ)
      (out : Outcome (ℤ × Fields))
      → write_fulltext db l batch expected ≡ ok (db', out)
      → Owned k db
      → Owned k db'
  unfolding write_fulltext
  write_fulltext-Owned db db' l [] expected out e h =
      rw (no_change-same db db' l expected _ out e) h
  write_fulltext-Owned db db' l (item ∷ batch) expected out e h =
      let (g, guarded, body) = bind-eq-ok (guarded_version db l expected) _ e in
      let (row, found, result) = guarded_version-Guarded db l expected g guarded in
      elim result [
        | inl (stale, e') ↦ let q : db' ≡ db = ground arith in rw q h
        | inr (fresh, e') ↦
            let v = next_version row.version in
            let tx = set_version db l row v in
            let q : db' ≡ (put_fulltext l v 0 (item ∷ batch) (tx, end)).0 = ground arith in
            rw q (put_fulltext-Owned l v 0 (item ∷ batch) (tx, end) h)
      ]

  write-Owned :
      (l : LibraryId) (kind : String) (allow : Bool) (supplies : Supplies) (db db' : Db)
      (batch : List Value) (expected : Option ℤ) (out : ObjectMutation (ℤ × Fields))
      → write l kind allow supplies db batch expected ≡ ok (db', out)
      → Owned k db
      → Owned k db'
  write-Owned l kind allow supplies db db' batch expected out e h =
      elim (write-cases l kind allow supplies db db' batch expected out e) [
        | inl same ↦ rw same h
        | inr (row, s, loop) ↦ write_objects-Owned _ 0 batch _ db' end s k loop h
      ]

  delete_keys-Owned :
      (l : LibraryId) (kind : String) (allow : Bool) (db db' : Db) (keys : List String)
      (expected : Option ℤ) (out : ObjectMutation ℤ)
      → delete_keys l kind allow db keys expected ≡ ok (db', out)
      → Owned k db
      → Owned k db'
  delete_keys-Owned l kind allow db db' keys expected out e h =
      elim (delete_keys-cases l kind allow db db' keys expected out e) [
        | inl same ↦ rw same h
        | inr (row, loop) ↦ delete_objects-Owned l kind allow _ keys _ db' k loop h
      ]

  register_file-Owned :
      (sha256 : String → Digest) (config : Config) (context : RequestContext) (seen db db' : Db)
      (now : ℕ) (token_hash : Digest) (key : String) (access : LibraryAccess)
      (out : FileRegistrationOutcome)
      → register_file sha256 config context seen db now token_hash key access ≡ ok (db', out)
      → Owned k db
      → Owned k db'
  register_file-Owned sha256 config context seen db db' now token_hash key access out e h =
      elim (register_file-cases sha256 config context seen db db' now token_hash key access out e) [
        | inl (_, inl same) ↦ rw same h
        | inl (_, inr (row, _, same)) ↦ rw same h
        | inr g ↦
            let c = g.commits in
            rw c.committed (
              install-Owned _ token_hash access.library_id key (pending_upload_from_row g.row)
                c.item _ k c.attachment h)
      ]

  module _ (sha256 : String → Digest) (json_text : Value → Option String) (config : Config) where
    -- If the stored file at a key belongs to a stored-file attachment of its library, or there is
    -- no file there, the same holds after any write or deletion of objects, settings, tags or full
    -- text and after any registration of a file that returns, whatever its outcome.
    pub Step-Owned :
        (l : LibraryId) (db db' : Db)
        → Step sha256 json_text config l db db'
        → Owned k db
        → Owned k db'
    Step-Owned l db db' (write_step kind allow supplies batch expected out e) h =
        write-Owned l kind allow supplies db db' batch expected out e h
    Step-Owned l db db' (delete_step kind allow keys expected out e) h =
        delete_keys-Owned l kind allow db db' keys expected out e h
    Step-Owned l db db' (write_settings_step body expected out e) h =
        write_settings-Owned db db' l body expected out e h
    Step-Owned l db db' (delete_settings_step keys expected out e) h =
        delete_settings-Owned db db' l keys expected out e h
    Step-Owned l db db' (delete_tags_step tags expected out e) h =
        delete_tags-Owned json_text db db' l tags expected out e h
    Step-Owned l db db' (write_fulltext_step batch expected out e) h =
        write_fulltext-Owned db db' l batch expected out e h
    Step-Owned l db db' (register_file_step context seen now token_hash key access out e) h =
        register_file-Owned sha256 config context seen db db' now token_hash key access out e h
