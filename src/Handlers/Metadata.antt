-- ===== src/Handlers/Metadata.antt =====
-- xotero/src/handlers/settings.rs, tags.rs and fulltext.rs. `from_slice` and `array_from_slice` are
-- serde_json's parsers of a value and of an array, with an error as `none`.
use zhost.Prelude.{
  ℕ, String, Bool, true, false, not, ◌&&◌, Option, none, some, ◌==◌, if◌then◌else◌, string_eq, List,
  [], ◌∷◌, map, any, is_some, unwrap_or, retain,
}
use zhost.Prelude.Int.{ℤ, ltb_ℤ}
use zhost.Prelude.Table.{lookup}
use zhost.Prelude.Text.{is_nonempty, split_bars, trim}
use zhost.Json.{Value, obj, Fields, end, field}
use zhost.Domain.{LibraryAccess}
use zhost.Db.{Db, Result, ok, err}
use zhost.Store.{Outcome, done, conflict, current_version}
use zhost.Store.Settings.{settings, write_settings, delete_settings}
use zhost.Store.Tags.{delete_tags}
use zhost.Store.Fulltext.{fulltext_versions, fulltext_item, write_fulltext}
use zhost.Store.Versions.{Deleted, deleted}
use zhost.Http.Headers
use zhost.Http.Headers.{
  HeaderMap, Form, Response, status_only, message, with_headers, json_response, server_error,
  request_library, version_headers, since_check, if_modified_since, precondition, reject, expect,
  since_of, csv_of,
}
use zhost.Handlers.Objects.{array, with_current, write_report}

abbrev pub max_ℤ : ℤ → ℤ → ℤ
max_ℤ a b = if ltb_ℤ a b then b else a

unfoldable pub settings_read : Db → LibraryAccess → HeaderMap → Form → Response
unfolding version_headers
settings_read db access headers params =
    elim (since_check db access (max_ℤ (since_of params) (if_modified_since headers))) [
      | err error ↦ server_error error
      | ok (current, true) ↦ with_headers 304 (version_headers current)
      | ok (current, false) ↦
          json_response (version_headers current) (obj (settings db (request_library access)))
    ]

abbrev pub admin_only : List String
admin_only = "attachmentRenameTemplate" ∷ "autoRenameFiles" ∷ "autoRenameFilesFileTypes" ∷ []

abbrev pub is_admin_only : String → Bool
is_admin_only key = any (λ k. k == key) admin_only

unfoldable pub group_admin_setting_denied : LibraryAccess → List String → Bool
group_admin_setting_denied access keys =
    is_some access.group_id && not access.is_admin && any is_admin_only keys

unfoldable pub field_names : Fields → List String
field_names end = []
field_names (field k v fs) = k ∷ field_names fs

-- `value.as_object()` and its keys.
abbrev pub object_keys : Value → List String
object_keys (obj fields) = field_names fields
object_keys value = []

-- The answer of a write of settings or tags.
unfoldable pub answer_outcome : Db → Result (Db × Outcome ℤ) → Db × Response
unfolding version_headers
answer_outcome db (ok (db', done version)) = (db', with_headers 204 (version_headers version))
answer_outcome db (ok (db', conflict current)) = (db', Headers.conflict current)
answer_outcome db (err error) = (db, server_error error)

unfoldable pub settings_write :
    (List ℕ → Option Value) → Db → LibraryAccess → HeaderMap → List ℕ → Db × Response
unfolding answer_outcome
settings_write from_slice db access headers body = elim (precondition headers) [
  | reject response ↦ (db, response)
  | expect expected ↦
      let value = unwrap_or (obj end) (from_slice body) in
      if group_admin_setting_denied access (object_keys value)
      then (db, message 403 "group admin setting denied")
      else answer_outcome db (write_settings db (request_library access) value (some expected))
]

unfoldable pub settings_delete : Db → LibraryAccess → HeaderMap → Form → Db × Response
unfolding answer_outcome
settings_delete db access headers params = elim (precondition headers) [
  | reject response ↦ (db, response)
  | expect expected ↦
      let keys = csv_of params "settingKey" in
      if group_admin_setting_denied access keys
      then (db, message 403 "group admin setting denied")
      else answer_outcome db (delete_settings db (request_library access) keys (some expected))
]

abbrev pub deleted_json : Deleted → Value
deleted_json d = obj (
    field "collections" (array d.collections) (
      field "searches" (array d.searches) (
        field "items" (array d.items)
          (field "settings" (array d.settings) (field "tags" (array d.tags) end)))))

unfoldable pub deleted_read : Db → LibraryAccess → Form → Response
deleted_read db access params =
    with_current db access (deleted_json (deleted db (request_library access) (since_of params)))

-- The tags that a deletion names: `tags`, or else `tag`, split at `||`.
unfoldable pub tags_of_params : Form → List String
tags_of_params params = elim (lookup "tags" params) [
  | some raw ↦ retain is_nonempty (map trim (split_bars raw))
  | none ↦ elim (lookup "tag" params) [
    | some raw ↦ retain is_nonempty (map trim (split_bars raw))
    | none ↦ []
  ]
]

-- `json_text` is PostgreSQL's `->>`.
unfoldable pub tags_delete :
    (Value → Option String) → Db → LibraryAccess → HeaderMap → Form → Db × Response
unfolding answer_outcome
tags_delete json_text db access headers params = elim (precondition headers) [
  | reject response ↦ (db, response)
  | expect expected ↦
      answer_outcome db
        (delete_tags json_text db (request_library access) (tags_of_params params) (some expected))
]

unfoldable pub fulltext_versions_read : Db → LibraryAccess → Form → Response
unfolding version_headers
fulltext_versions_read db access params = elim (current_version db (request_library access)) [
  | err error ↦ server_error error
  | ok current ↦
      json_response (version_headers current)
        (obj (fulltext_versions db (request_library access) (since_of params)))
]

unfoldable pub fulltext_item_read : Db → LibraryAccess → String → Response
unfolding version_headers
fulltext_item_read db access key = elim (fulltext_item db (request_library access) key) [
  | some (version, content) ↦ json_response (version_headers version) content
  | none ↦ status_only 404
]

unfoldable pub answer_fulltext : Db → Result (Db × Outcome (ℤ × Fields)) → Db × Response
unfolding version_headers
answer_fulltext db (ok (db', done (version, successful))) =
    (db', json_response (version_headers version) (write_report successful))
answer_fulltext db (ok (db', conflict current)) = (db', Headers.conflict current)
answer_fulltext db (err error) = (db, server_error error)

unfoldable pub fulltext_write :
    (List ℕ → Option (List Value)) → Db → LibraryAccess → HeaderMap → List ℕ → Db × Response
unfolding answer_fulltext
fulltext_write array_from_slice db access headers body = elim (array_from_slice body) [
  | none ↦ (db, status_only 400)
  | some batch ↦ elim (precondition headers) [
    | reject response ↦ (db, response)
    | expect expected ↦
        answer_fulltext db (write_fulltext db (request_library access) batch (some expected))
  ]
]
