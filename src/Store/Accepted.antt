-- ===== src/Store/Accepted.antt =====
-- Writes that expect the current version.
use zhost.Prelude.{
  ℕ, ◌+◌, ◌≡◌, ◌∙◌, refl, Option, some, arith, true, false, List, [], ◌∷◌, String, ap,
}
use zhost.Prelude.Int.{ℤ, int_eq}
use zhost.Prelude.Table.{lookup, lookup-upsert_self}
use zhost.Json.{Value, Fields, end, insert}
use zhost.Prelude.Text.{to_string}
use zhost.Domain.{LibraryId}
use zhost.Db.{Db, Library, ok}
use zhost.Store.{Outcome, is_stale, guarded_version, next_version, set_version}
use zhost.Store.Objects.{
  Supplies, wrote, WriteCall, write, write_call, write_objects, write_object, is_denied, put_object,
  stored_json, provided_key, new_object, done, result_entry,
}

module _ (c : WriteCall) (allowed : c.allow_stored_file_write ≡ true)
    (stores : (index : ℕ) (object : Value) → c.supplies.stores index object ≡ true) where
  granted : (existing : Option Value) (object : Value) → is_denied c existing object ≡ false
  unfolding is_denied
  granted existing object = ground arith

  -- One object is written, and the versions are as they were.
  write_object_total :
      (index : ℕ) (provided : Value) (db : Db) (s : Fields)
      → (db' : Db) × (s' : Fields) × (write_object c index provided (db, s) ≡ wrote (db', s'))
        × (db'.library ≡ db.library)
  unfolding write_object put_object
  write_object_total index provided db s =
      let key = provided_key c index provided in
      let existing = stored_json c db key in
      let object = new_object c db index provided in
      (
        put_object c db key existing object,
        insert (to_string index) (result_entry key c.version object) s,
        rw (granted existing object, stores index object) refl,
        refl,
      )

  write_objects-cons :
      (index : ℕ) (provided : Value) (batch : List Value) (s t u : Db × Fields)
      → write_object c index provided s ≡ wrote t
      → write_objects c (index + 1) batch t ≡ wrote u
      → write_objects c index (provided ∷ batch) s ≡ wrote u
  unfolding write_objects
  write_objects-cons index provided batch s t u one rest = ground arith

  write_objects_total :
      (index : ℕ) (batch : List Value) (db : Db) (s : Fields)
      → (db' : Db) × (s' : Fields) × (write_objects c index batch (db, s) ≡ wrote (db', s'))
        × (db'.library ≡ db.library)
  unfolding write_objects
  write_objects_total index [] db s = (db, s, refl, refl)
  write_objects_total index (provided ∷ batch) db s =
      let (db1, s1, one, same) = write_object_total index provided db s in
      let (db2, s2, rest, same') = write_objects_total (index + 1) batch db1 s1 in
      (
        db2,
        s2,
        write_objects-cons index provided batch (db, s) (db1, s1) (db2, s2) one rest,
        same' ∙ same,
      )

guarded :
    (db : Db) (l : LibraryId) (expected : Option ℤ) (row : Library)
    → lookup l.get db.library ≡ some row
    → is_stale expected row.version ≡ false
    → guarded_version db l expected
      ≡ ok
          (set_version db l row (next_version row.version), Outcome.done (next_version row.version))
unfolding guarded_version
guarded db l expected row found fresh = ground (arith, found, fresh)

-- The write is done at the next version.
abbrev pub Accepted : LibraryId → String → Supplies → Db → List Value → Option ℤ → Library → Type 0
Accepted l kind supplies db batch expected row =
    (db' : Db) × (successful : Fields) × (write l kind true supplies db batch expected
      ≡ ok (db', done (next_version row.version, successful)))
    × (lookup l.get db'.library ≡ some (record row { version = next_version row.version }))

-- A write of at least one object to a stored library that expects its current version, or none, by
-- a caller who may write files, returns if the statements that store an object succeed: it is done at
-- the next version, which the library then has.
pub write-Accepted :
    (l : LibraryId) (kind : String) (supplies : Supplies) (db : Db) (provided : Value)
    (batch : List Value) (expected : Option ℤ) (row : Library)
    → lookup l.get db.library ≡ some row
    → is_stale expected row.version ≡ false
    → ((index : ℕ) (object : Value) → supplies.stores index object ≡ true)
    → Accepted l kind supplies db (provided ∷ batch) expected row
unfolding write
write-Accepted l kind supplies db provided batch expected row found fresh stores =
    let v = next_version row.version in
    let tx = set_version db l row v in
    let (db', s, loop, same) =
      write_objects_total (write_call l kind true v supplies) refl stores 0 (provided ∷ batch) tx
        end in
    let guard : guarded_version db l expected ≡ ok (tx, Outcome.done v) =
      guarded db l expected row found fresh in
    (db', s, rw (guard, loop) refl, ap (lookup l.get) same ∙ lookup-upsert_self l.get _ db.library)
