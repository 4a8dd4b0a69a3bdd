-- ===== src/Store/Stale.antt =====
-- The `If-Unmodified-Since-Version` guard of every versioned write.
use zhost.Prelude.{◌≡◌, ◌≢◌, refl, Option, none, some, arith, Bool, true, List, [], ◌∷◌, String}
use zhost.Prelude.Int.{ℤ, int_eq, beq_ℤ_iff}
use zhost.Prelude.Table.{lookup}
use zhost.Json.{Value, Fields}
use zhost.Domain.{LibraryId}
use zhost.Db.{Db, Library, ok}
use zhost.Store.{Outcome, is_stale, guarded_version, no_change, current_version, at_next_version}
use zhost.Store.Objects.{Supplies, ObjectMutation, write, delete_keys}
use zhost.Store.Settings.{write_settings, write_entries, delete_settings, nonempty_object}
use zhost.Store.Tags.{delete_tags}
use zhost.Store.Fulltext.{write_fulltext}

module _ (db : Db) (l : LibraryId) (e : ℤ) (row : Library)
    (found : lookup l.get db.library ≡ some row) (old : e ≢ row.version) where
  stale : is_stale (some e) row.version ≡ true
  stale = ground (arith, beq_ℤ_iff e row.version)

  guarded : guarded_version db l (some e) ≡ ok (db, Outcome.conflict row.version)
  unfolding guarded_version
  guarded = ground (arith, stale)

  unchanged : no_change db l (some e) ≡ ok (Outcome.conflict row.version)
  unfolding no_change current_version
  unchanged = ground (arith, stale)

  changing :
      (change : ℤ → Db → Db)
      → at_next_version db l (some e) change ≡ ok (db, Outcome.conflict row.version)
  unfolding at_next_version
  changing change = rw guarded refl

  write-stale :
      (kind : String) (allow : Bool) (supplies : Supplies) (batch : List Value)
      → write l kind allow supplies db batch (some e) ≡ ok (db, ObjectMutation.conflict row.version)
  unfolding write
  write-stale kind allow supplies [] = rw unchanged refl
  write-stale kind allow supplies (provided ∷ batch) = rw guarded refl

  delete_keys-stale :
      (kind : String) (allow : Bool) (keys : List String)
      → delete_keys l kind allow db keys (some e) ≡ ok (db, ObjectMutation.conflict row.version)
  unfolding delete_keys
  delete_keys-stale kind allow [] = rw unchanged refl
  delete_keys-stale kind allow (key ∷ keys) = rw guarded refl

  entries-stale :
      (entries : Option Fields)
      → write_entries db l (some e) entries ≡ ok (db, Outcome.conflict row.version)
  unfolding write_entries
  entries-stale none = rw unchanged refl
  entries-stale (some entries) = changing _

  write_settings-stale :
      (body : Value) → write_settings db l body (some e) ≡ ok (db, Outcome.conflict row.version)
  unfolding write_settings
  write_settings-stale body = entries-stale (nonempty_object body)

  delete_settings-stale :
      (keys : List String)
      → delete_settings db l keys (some e) ≡ ok (db, Outcome.conflict row.version)
  unfolding delete_settings
  delete_settings-stale [] = rw unchanged refl
  delete_settings-stale (key ∷ keys) = changing _

  delete_tags-stale :
      (json_text : Value → Option String) (tags : List String)
      → delete_tags json_text db l tags (some e) ≡ ok (db, Outcome.conflict row.version)
  unfolding delete_tags
  delete_tags-stale json_text [] = rw unchanged refl
  delete_tags-stale json_text (tag ∷ tags) = changing _

  write_fulltext-stale :
      (batch : List Value)
      → write_fulltext db l batch (some e) ≡ ok (db, Outcome.conflict row.version)
  unfolding write_fulltext
  write_fulltext-stale [] = rw unchanged refl
  write_fulltext-stale (item ∷ batch) = rw guarded refl

  -- A write that expects another version of a stored library than the current one is a conflict
  -- that gives the current version and changes nothing: for objects (written or deleted), settings
  -- (written or deleted), tags and full text, whatever is written, empty batches included.
  pub stale-conflict :
      (kind : String) (allow : Bool) (supplies : Supplies) (json_text : Value → Option String)
      (batch : List Value) (keys : List String) (body : Value)
      → (write l kind allow supplies db batch (some e)
          ≡ ok (db, ObjectMutation.conflict row.version))
        × (delete_keys l kind allow db keys (some e) ≡ ok (db, ObjectMutation.conflict row.version))
        × (write_settings db l body (some e) ≡ ok (db, Outcome.conflict row.version))
        × (delete_settings db l keys (some e) ≡ ok (db, Outcome.conflict row.version))
        × (delete_tags json_text db l keys (some e) ≡ ok (db, Outcome.conflict row.version))
        × (write_fulltext db l batch (some e) ≡ ok (db, Outcome.conflict row.version))
  stale-conflict kind allow supplies json_text batch keys body = (
    write-stale kind allow supplies batch,
    delete_keys-stale kind allow keys,
    write_settings-stale body,
    delete_settings-stale keys,
    delete_tags-stale json_text keys,
    write_fulltext-stale batch,
  )
