-- ===== src/Store/Objects.antt =====
-- xotero/src/store/objects.rs: the write paths of objects, and the order of their fields.
use Prim.Native.Char.{Char}
use zhost.Prelude.{
  ℕ, ◌+◌, ◌%◌, ◌≡◌, ◌⊎◌, inl, inr, refl, String, Bool, not, ◌&&◌, ◌||◌, Option, none, some, ◌==◌,
  if◌then◌else◌, string_eq, option_eq, pair_eq, List, [], ◌∷◌, map, any, unwrap_or, is_some_and,
}
use zhost.Prelude.Int.{ℤ, int_eq}
use zhost.Prelude.Table.{lookup, upsert, delete}
use zhost.Prelude.Text.{chars, from_chars, char_at_or, to_string}
use zhost.Json.{
  Value, obj, str, Fields, end, field, get_field, insert, contains_key, str_of, from_int,
}
use zhost.Domain.{LibraryId}
use zhost.Db.{Db, Object, ObjectKey, ItemKey, Result, ok, ◌>>=◌, err, protocol}
use zhost.Store.{Outcome, is_stored_file_attachment, guarded_version, no_change}

abbrev pub first : List String
first = "annotationType" ∷ "linkMode" ∷ []

abbrev pub is_first : String → Bool
is_first key = any (λ k. k == key) first

-- `for key in FIRST { if let Some(value) = map.get(key) { … } }`
unfoldable pub insert_firsts : List String → Fields → Fields → Fields
insert_firsts [] map ordered = ordered
insert_firsts (key ∷ keys) map ordered =
    insert_firsts keys map
      (elim (get_field key map) [ none ↦ ordered | some value ↦ insert key value ordered ])

-- `for (key, value) in map { if !FIRST.contains(key) { … } }`
unfoldable pub insert_others : Fields → Fields → Fields
insert_others end ordered = ordered
insert_others (field key value map) ordered =
    insert_others map (if is_first key then ordered else insert key value ordered)

unfoldable pub order_fields : Value → Value
unfolding insert_firsts insert_others
order_fields (obj map) =
    if any (λ k. contains_key k map) first
    then obj (insert_others map (insert_firsts first map end))
    else obj map
order_fields value = value

abbrev pub alphabet : List Char
alphabet = chars "23456789ABCDEFGHIJKLMNPQRSTUVWXYZ"

abbrev pub key_char : ℕ → Char
key_char b = char_at_or "2" (b % 33) alphabet

-- The eight bytes read from the random device; the buffer stays zero when the read fails.
unfoldable pub generate_key : Option (List ℕ) → String
generate_key random =
    from_chars (map key_char (unwrap_or (0 ∷ 0 ∷ 0 ∷ 0 ∷ 0 ∷ 0 ∷ 0 ∷ 0 ∷ []) random))

pub data ObjectMutation {ℓ} (A : Type ℓ) : Type ℓ where
  done : A → ObjectMutation A
  conflict : ℤ → ObjectMutation A
  file_write_denied : ObjectMutation A

-- `for (k, v) in fields { base.insert(k, v) }`
unfoldable pub overlay : Fields → Fields → Fields
overlay base end = base
overlay base (field k v fields) = overlay (insert k v base) fields

unfoldable pub merge : Option Value → Value → Value
unfolding overlay
merge (some (obj base)) (obj fields) = obj (overlay base fields)
merge existing provided = provided

unfoldable pub stamp : String → ℤ → Value → Value
stamp key version (obj fields) =
    obj (insert "version" (from_int version) (insert "key" (str key) fields))
stamp key version value = value

abbrev pub object_key : LibraryId → String → String → ObjectKey
object_key library_id kind key = (library_id.get, (kind, key))

abbrev pub item_key : LibraryId → String → ItemKey
item_key library_id key = (library_id.get, key)

abbrev pub json_of : Option Object → Option Value
json_of none = none
json_of (some o) = some o.json

abbrev pub result_entry : String → ℤ → Value → Value
result_entry key version object = obj (
    field "key" (str key)
      (field "version" (from_int version) (field "data" (order_fields object) end)))

-- The parameters of one `write` call that its loop does not change. `random` gives the bytes that
-- the random device returns for the object at an index.
-- What a write finds besides the database: the bytes of the random device for each object, and
-- whether the statements that store an object succeed. `jsonb` refuses some values that serde_json
-- accepts, such as a string with the character U+0000.
pub record Supplies : Type 0 where
  pub random : ℕ → Option (List ℕ)
  pub stores : ℕ → Value → Bool

-- How the loop over a batch ends: with the database and the report, or with the return of
-- `FileWriteDenied`, or with the error of a statement.
pub data BatchResult : Type 0 where
  wrote : Db × Fields → BatchResult
  not_allowed broke : BatchResult

pub BatchResult-cases :
    (r : BatchResult) → ((r ≡ not_allowed) ⊎ (r ≡ broke)) ⊎ ((s : Db × Fields) × (r ≡ wrote s))
BatchResult-cases (wrote s) = inr (s, refl)
BatchResult-cases not_allowed = inl (inl refl)
BatchResult-cases broke = inl (inr refl)

pub record WriteCall : Type 0 where
  pub library_id : LibraryId
  pub kind : String
  pub version : ℤ
  pub allow_stored_file_write : Bool
  pub supplies : Supplies

module _ (c : WriteCall) where
  abbrev pub provided_key : ℕ → Value → String
  provided_key index provided =
      unwrap_or (generate_key (c.supplies.random index)) (str_of "key" provided)

  abbrev pub stored_json : Db → String → Option Value
  stored_json db key = json_of (lookup (object_key c.library_id c.kind key) db.object)

  unfoldable pub new_object : Db → ℕ → Value → Value
  unfolding stamp merge
  new_object db index provided =
      stamp (provided_key index provided) c.version
        (merge (stored_json db (provided_key index provided)) provided)

  unfoldable pub is_denied : Option Value → Value → Bool
  is_denied existing object =
      c.kind == "item"
      && not c.allow_stored_file_write
      && (is_some_and is_stored_file_attachment existing || is_stored_file_attachment object)

  unfoldable pub put_object : Db → String → Option Value → Value → Db
  put_object db key existing object = record db {
    object =
        upsert (object_key c.library_id c.kind key) (record { version = c.version; json = object })
          db.object;
    file =
        if c.kind == "item"
          && not
              (is_some_and is_stored_file_attachment existing && is_stored_file_attachment object)
        then delete (item_key c.library_id key) db.file
        else db.file;
    deletion = delete (object_key c.library_id c.kind key) db.deletion;
  }

  -- The body of the loop.
  unfoldable pub write_object : ℕ → Value → Db × Fields → BatchResult
  write_object index provided (db, successful) =
      let key = provided_key index provided in
      let existing = stored_json db key in
      let object = new_object db index provided in
      if is_denied existing object
      then not_allowed
      else if not (c.supplies.stores index object)
      then broke
      else wrote (
        put_object db key existing object,
        insert (to_string index) (result_entry key c.version object) successful,
      )

  unfoldable pub write_objects : ℕ → List Value → Db × Fields → BatchResult
  write_objects index [] s = wrote s
  write_objects index (provided ∷ batch) s = elim (write_object index provided s) [
    | not_allowed ↦ not_allowed
    | broke ↦ broke
    | wrote s' ↦ write_objects (index + 1) batch s'
  ]

module _ (library_id : LibraryId) (kind : String) (allow_stored_file_write : Bool) where
  abbrev pub write_call : ℤ → Supplies → WriteCall
  write_call version supplies = record {
    library_id = library_id;
    kind = kind;
    version = version;
    allow_stored_file_write = allow_stored_file_write;
    supplies = supplies;
  }

  abbrev committed : Db → ℤ → BatchResult → Result (Db × ObjectMutation (ℤ × Fields))
  committed db version not_allowed = ok (db, file_write_denied)
  committed db version broke = err (protocol "write object")
  committed db version (wrote (tx, successful)) = ok (tx, done (version, successful))

  abbrev empty_write : Outcome ℤ → ObjectMutation (ℤ × Fields)
  empty_write (Outcome.done version) = done (version, end)
  empty_write (Outcome.conflict current) = conflict current

  unfoldable pub write :
      Supplies → Db → List Value → Option ℤ → Result (Db × ObjectMutation (ℤ × Fields))
  write supplies db [] expected = do
    outcome ← no_change db library_id expected
    ok (db, empty_write outcome)
  write supplies db (provided ∷ batch) expected = do
    guarded ← guarded_version db library_id expected
    elim guarded.1 [
      | Outcome.conflict current ↦ ok (db, conflict current)
      | Outcome.done version ↦
          committed db version
            (write_objects (write_call version supplies) 0 (provided ∷ batch) (guarded.0, end))
    ]

  -- `delete`, one key of the loop.
  unfoldable pub delete_object : ℤ → String → Db → Option Db
  delete_object version key db =
      if kind == "item"
        && not allow_stored_file_write
        && is_some_and is_stored_file_attachment
            (json_of (lookup (object_key library_id kind key) db.object))
      then none
      else some (record db {
        object = delete (object_key library_id kind key) db.object;
        file = if kind == "item" then delete (item_key library_id key) db.file else db.file;
        deletion = upsert (object_key library_id kind key) version db.deletion;
      })

  unfoldable pub delete_objects : ℤ → List String → Db → Option Db
  delete_objects version [] db = some db
  delete_objects version (key ∷ keys) db = elim (delete_object version key db) [
    | none ↦ none
    | some db' ↦ delete_objects version keys db'
  ]

  abbrev deleted_or_denied : Db → ℤ → Option Db → Db × ObjectMutation ℤ
  deleted_or_denied db version none = (db, file_write_denied)
  deleted_or_denied db version (some tx) = (tx, done version)

  abbrev empty_delete : Outcome ℤ → ObjectMutation ℤ
  empty_delete (Outcome.done version) = done version
  empty_delete (Outcome.conflict current) = conflict current

  unfoldable pub delete_keys : Db → List String → Option ℤ → Result (Db × ObjectMutation ℤ)
  delete_keys db [] expected = do
    outcome ← no_change db library_id expected
    ok (db, empty_delete outcome)
  delete_keys db (key ∷ keys) expected = do
    guarded ← guarded_version db library_id expected
    ok (elim guarded.1 [
      | Outcome.conflict current ↦ (db, conflict current)
      | Outcome.done version ↦
          deleted_or_denied db version (delete_objects version (key ∷ keys) guarded.0)
    ])
