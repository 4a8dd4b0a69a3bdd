-- ===== src/Handlers/Objects.antt =====
-- xotero/src/handlers/objects.rs: writing and deleting objects, and their sync reads. `from_slice`
-- is serde_json's parser of an array, with an error as `none`.
use zhost.Prelude.{
  ℕ, String, Bool, true, not, ◌||◌, Option, none, some, ◌==◌, if◌then◌else◌, string_eq, option_eq,
  List, [], ◌∷◌, is_some,
}
use zhost.Prelude.Int.{ℤ}
use zhost.Prelude.Table.{lookup}
use zhost.Prelude.Format.{concat}
use zhost.Json.{Value, obj, arr, Items, nil, cons, Fields, end, field, str_of}
use zhost.Domain.{LibraryAccess}
use zhost.Db.{Db, Result, ok, err}
use zhost.Store.{current_version}
use zhost.Store.Objects.{Supplies, ObjectMutation, done, conflict, file_write_denied, delete_keys}
use zhost.Store.Objects
use zhost.Store.Versions.{versions, objects}
use zhost.Http.Headers
use zhost.Http.Headers.{
  HeaderMap, Form, Response, status_only, message, with_headers, json_response, server_error,
  request_library, version_headers, current_headers, precondition, reject, expect, since_of, csv_of,
}
use zhost.Http.Validation.{valid_object_key}

unfoldable pub array_items : List Value → Items
array_items [] = nil
array_items (v ∷ vs) = cons v (array_items vs)

-- `Value::Array`.
abbrev pub array : List Value → Value
array vs = arr (array_items vs)

-- `format!("{kind}Key")`.
abbrev pub key_param : String → String
key_param kind = concat (kind ∷ "Key" ∷ [])

-- The answer of a read whose version is read after its value.
abbrev pub with_current : Db → LibraryAccess → Value → Response
with_current db access value = elim (current_headers db access) [
  | ok headers ↦ json_response headers value
  | err error ↦ server_error error
]

unfoldable pub read : Db → LibraryAccess → String → Form → Response
unfolding current_headers version_headers
read db access kind params =
    if lookup "format" params == some "versions"
    then elim (current_version db (request_library access)) [
      | err error ↦ server_error error
      | ok current ↦
          json_response (version_headers current)
            (obj (versions db (request_library access) kind (since_of params) true))
    ]
    else with_current db access
        (array (objects db (request_library access) kind (csv_of params (key_param kind)) true))

-- The first key that is a string and not valid.
unfoldable pub find_bad_key : List Value → Option String
find_bad_key [] = none
find_bad_key (object ∷ batch) =
    let rest = find_bad_key batch in
    elim (str_of "key" object) [
      | none ↦ rest
      | some key ↦ if valid_object_key key then rest else some key
    ]

abbrev pub allows_stored_file_write : LibraryAccess → Bool
allows_stored_file_write access = not (is_some access.group_id) || access.file_write

-- The body that the sync client reads the outcome of a batch from.
abbrev pub write_report : Fields → Value
write_report successful = obj (
    field "successful" (obj successful)
      (field "success" (obj end) (field "unchanged" (obj end) (field "failed" (obj end) end))))

unfoldable pub answer_write : Db → Result (Db × ObjectMutation (ℤ × Fields)) → Db × Response
unfolding version_headers
answer_write db (ok (db', done (version, successful))) =
    (db', json_response (version_headers version) (write_report successful))
answer_write db (ok (db', conflict current)) = (db', Headers.conflict current)
answer_write db (ok (db', file_write_denied)) = (db', message 403 "group file editing denied")
answer_write db (err error) = (db, server_error error)

-- Behind the parsing of the body.
unfoldable pub write_batch :
    Supplies → Db → LibraryAccess → String → HeaderMap → List Value → Db × Response
unfolding answer_write find_bad_key
write_batch supplies db access kind headers batch = elim (find_bad_key batch) [
  | some bad ↦ (db, message 400 (concat ("invalid object key: " ∷ bad ∷ [])))
  | none ↦ elim (precondition headers) [
    | reject response ↦ (db, response)
    | expect expected ↦ answer_write db (
        Objects.write access.library_id kind (allows_stored_file_write access) supplies db batch
          (some expected))
  ]
]

unfoldable pub write :
    (List ℕ → Option (List Value))
    → Supplies
    → Db
    → LibraryAccess
    → String
    → HeaderMap
    → List ℕ
    → Db × Response
unfolding write_batch
write from_slice supplies db access kind headers body = elim (from_slice body) [
  | none ↦ (db, status_only 400)
  | some batch ↦ write_batch supplies db access kind headers batch
]

unfoldable pub answer_delete : Db → Result (Db × ObjectMutation ℤ) → Db × Response
unfolding version_headers
answer_delete db (ok (db', done version)) = (db', with_headers 204 (version_headers version))
answer_delete db (ok (db', conflict current)) = (db', Headers.conflict current)
answer_delete db (ok (db', file_write_denied)) = (db', message 403 "group file editing denied")
answer_delete db (err error) = (db, server_error error)

unfoldable pub delete : Db → LibraryAccess → String → HeaderMap → Form → Db × Response
unfolding answer_delete
delete db access kind headers params = elim (precondition headers) [
  | reject response ↦ (db, response)
  | expect expected ↦ answer_delete db (
      delete_keys access.library_id kind (allows_stored_file_write access) db
        (csv_of params (key_param kind)) (some expected))
]
