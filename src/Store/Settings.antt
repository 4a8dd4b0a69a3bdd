-- ===== src/Store/Settings.antt =====
-- xotero/src/store/settings.rs.
use zhost.Prelude.{
  String, Option, none, some, ◌==◌, if◌then◌else◌, string_eq, pair_eq, List, [], ◌∷◌, unwrap_or,
}
use zhost.Prelude.Int.{ℤ, int_eq}
use zhost.Prelude.Table.{Table, upsert, delete}
use zhost.Json.{Value, obj, Fields, end, field, get, insert, from_int}
use zhost.Domain.{LibraryId}
use zhost.Db.{Db, Setting, ItemKey, Result, ok, ◌>>=◌}
use zhost.Store.{Outcome, no_change, at_next_version}

unfoldable pub settings_rows : LibraryId → Table ItemKey Setting → Fields → Fields
settings_rows library_id [] map = map
settings_rows library_id (((l, key), row) ∷ rows) map = settings_rows library_id rows (
    if l == library_id.get
    then insert key (obj (field "value" row.value (field "version" (from_int row.version) end))) map
    else map)

unfoldable pub settings : Db → LibraryId → Fields
unfolding settings_rows
settings db library_id = settings_rows library_id db.setting end

abbrev pub entry_value : Value → Value
entry_value entry = unwrap_or entry (get "value" entry)

unfoldable pub put_settings : LibraryId → ℤ → Fields → Db → Db
put_settings library_id version end db = db
put_settings library_id version (field key entry entries) db =
    put_settings library_id version entries (record db {
      setting =
          upsert (library_id.get, key) (record { version = version; value = entry_value entry })
            db.setting;
    })

-- `body.as_object()`, an object without fields as `none`.
abbrev pub nonempty_object : Value → Option Fields
nonempty_object (obj end) = none
nonempty_object (obj (field k v fs)) = some (field k v fs)
nonempty_object value = none

unfoldable pub write_entries : Db → LibraryId → Option ℤ → Option Fields → Result (Db × Outcome ℤ)
write_entries db library_id expected none = do
  outcome ← no_change db library_id expected
  ok (db, outcome)
write_entries db library_id expected (some entries) =
    at_next_version db library_id expected
      (λ version tx. put_settings library_id version entries tx)

unfoldable pub write_settings : Db → LibraryId → Value → Option ℤ → Result (Db × Outcome ℤ)
unfolding write_entries
write_settings db library_id body expected =
    write_entries db library_id expected (nonempty_object body)

unfoldable pub remove_setting : LibraryId → ℤ → String → Db → Db
remove_setting library_id version key db = record db {
  setting = delete (library_id.get, key) db.setting;
  deletion = upsert (library_id.get, ("setting", key)) version db.deletion;
}

unfoldable pub remove_settings : LibraryId → ℤ → List String → Db → Db
remove_settings library_id version [] db = db
remove_settings library_id version (key ∷ keys) db =
    remove_settings library_id version keys (remove_setting library_id version key db)

unfoldable pub delete_settings : Db → LibraryId → List String → Option ℤ → Result (Db × Outcome ℤ)
delete_settings db library_id [] expected = do
  outcome ← no_change db library_id expected
  ok (db, outcome)
delete_settings db library_id (key ∷ keys) expected =
    at_next_version db library_id expected
      (λ version tx. remove_settings library_id version (key ∷ keys) tx)
