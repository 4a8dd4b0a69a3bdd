-- ===== src/Tests/Objects.antt =====
-- Writes of objects, tags and settings on the example.
use zhost.Prelude.{
  ◌≡◌, refl, none, some, [], ◌∷◌, arith, true, false, list_eq, nat_eq, pair_eq, string_eq,
}
use zhost.Prelude.Int.{ℤ, pos, int_eq, add_i64}
use zhost.Prelude.Table.{lookup, upsert, delete, update_rows}
use zhost.Prelude.Text.{to_string}
use zhost.Json.{obj, str, Fields, field, end, insert, str_of, get_field, get, arr, nil}
use zhost.Db.{Db, Object, Result, ok, err}
use zhost.Store.{Outcome, guarded_version, at_next_version, is_stored_file_attachment}
use zhost.Store.Objects.{
  ObjectMutation, write, delete_keys, write_objects, write_object, put_object, new_object,
  is_denied, stamp, merge, write_call, WriteCall, order_fields,
}
use zhost.Store.Settings.{write_settings, delete_settings, write_entries, put_settings}
use zhost.Store.Tags.{
  delete_tags, delete_each_tag, delete_tag, strip, carries, without_tag, tags_of,
}
use zhost.Store.Fulltext.{write_fulltext}
use zhost.Store.Versions.{deleted}
use zhost.Store.Stale.{stale-conflict}
use zhost.Store.Protection.{Protected, write-Protected}
use zhost.Store.Merge.{new_object-get}
use zhost.Store.Untagged.{delete_tags-Untagged}
use zhost.Store.Ordering.{order_fields-get}
use zhost.Sync.Others.{write_settings-deleted}
use zhost.Store.Accepted.{Accepted, write-Accepted}
use zhost.Tests.{supplies, no_text, db, library_one}

pub db_library : lookup (pos 1) db.library ≡ some (record { version = pos 5; kind = "personal" })
unfolding lookup
db_library = refl

stale-conflict_example :
    (write library_one "item" true supplies db [] (some (pos 4))
      ≡ ok (db, ObjectMutation.conflict (pos 5)))
    × (delete_keys library_one "item" true db ("ABCD2345" ∷ []) (some (pos 4))
        ≡ ok (db, ObjectMutation.conflict (pos 5)))
    × (write_settings db library_one (obj end) (some (pos 4)) ≡ ok (db, Outcome.conflict (pos 5)))
    × (delete_settings db library_one ("ABCD2345" ∷ []) (some (pos 4))
        ≡ ok (db, Outcome.conflict (pos 5)))
    × (delete_tags no_text db library_one ("ABCD2345" ∷ []) (some (pos 4))
        ≡ ok (db, Outcome.conflict (pos 5)))
    × (write_fulltext db library_one [] (some (pos 4)) ≡ ok (db, Outcome.conflict (pos 5)))
stale-conflict_example =
    stale-conflict db library_one (pos 4) (record { version = pos 5; kind = "personal" }) db_library
      (λ e. ground arith) "item" true supplies no_text [] ("ABCD2345" ∷ []) (obj end)

-- A new book is written without the right to write files.
abbrev pub book : Fields
book = field "key" (str "BBBB2345") (field "itemType" (str "book") end)

abbrev pub written : Result (Db × ObjectMutation (ℤ × Fields)) → Db
written (ok r) = r.0
written (err e) = db

abbrev pub outcome : Result (Db × ObjectMutation (ℤ × Fields)) → ObjectMutation (ℤ × Fields)
outcome (ok r) = r.1
outcome (err e) = ObjectMutation.file_write_denied

abbrev pub book_run : Result (Db × ObjectMutation (ℤ × Fields))
book_run = write library_one "item" false supplies db (obj book ∷ []) (some (pos 5))

pub book_done : book_run ≡ ok (written book_run, outcome book_run)
unfolding write guarded_version write_objects write_object put_object new_object is_denied stamp
    merge lookup upsert delete str_of insert get_field is_stored_file_attachment to_string add_i64
book_done = refl

write-Protected_example : Protected (pos 1, "ABCD2345") db (written book_run)
write-Protected_example =
    write-Protected library_one "item" supplies db (written book_run) (obj book ∷ []) (some (pos 5))
      (outcome book_run) (pos 1, "ABCD2345") book_done

abbrev call : WriteCall
call = write_call library_one "item" true (pos 6) supplies

new_object-get_example :
    get "itemType"
      (new_object call db 0 (obj (field "key" (str "ABCD2345") (field "title" (str "T") end))))
    ≡ some (str "attachment")
unfolding get_field str_of lookup
new_object-get_example =
    new_object-get call db 0 (field "key" (str "ABCD2345") (field "title" (str "T") end)) "itemType"
      (refl, (refl, _))

abbrev untag_run : Result (Db × Outcome ℤ)
untag_run = delete_tags no_text db library_one ("old" ∷ []) none

abbrev untagged : Db
untagged = record db {
  library = upsert (pos 1) (record { version = pos 6; kind = "personal" }) db.library;
  object =
      (
        (pos 1, ("item", "ABCD2345")),
        record {
          version = pos 6;
          json = obj (
              field "itemType" (str "attachment")
                (field "linkMode" (str "imported_file") (field "tags" (arr nil) end)));
        },
      )
      ∷ [];
  deletion = upsert (pos 1, ("tag", "old")) (pos 6) db.deletion;
}

untag_done : untag_run ≡ ok (untagged, Outcome.done (pos 6))
unfolding delete_tags at_next_version guarded_version delete_each_tag delete_tag strip carries
    without_tag lookup upsert update_rows get_field insert add_i64
untag_done = refl

abbrev bare : Object
bare = record {
  version = pos 6;
  json = obj (
      field "itemType" (str "attachment")
        (field "linkMode" (str "imported_file") (field "tags" (arr nil) end)));
}

bare_there : lookup (pos 1, ("item", "ABCD2345")) untagged.object ≡ some bare
unfolding lookup
bare_there = refl

delete_tags-Untagged_example : carries no_text "old" (tags_of no_text bare.json) ≡ false
delete_tags-Untagged_example =
    delete_tags-Untagged no_text db untagged library_one ("old" ∷ []) none (pos 6) "old" "ABCD2345"
      bare untag_done refl bare_there

order_fields-get_example :
    get "title"
      (order_fields (obj (field "title" (str "T") (field "linkMode" (str "linked_url") end))))
    ≡ some (str "T")
unfolding get_field
order_fields-get_example =
    order_fields-get "title" (field "title" (str "T") (field "linkMode" (str "linked_url") end))
      (refl, (refl, _))

-- The setting "colors" was deleted at version 4 and is written again.
abbrev recolored : Db
recolored = record db {
  library = upsert (pos 1) (record { version = pos 6; kind = "personal" }) db.library;
  setting = ((pos 1, "colors"), record { version = pos 6; value = str "red" }) ∷ [];
}

recolor_done :
    write_settings db library_one (obj (field "colors" (str "red") end)) none
    ≡ ok (recolored, Outcome.done (pos 6))
unfolding write_settings write_entries at_next_version guarded_version put_settings lookup upsert
    get_field add_i64
recolor_done = refl

write_settings-deleted_example :
    deleted recolored library_one (pos 3) ≡ deleted db library_one (pos 3)
write_settings-deleted_example =
    write_settings-deleted db recolored library_one (obj (field "colors" (str "red") end)) none
      (Outcome.done (pos 6)) (pos 3) recolor_done

write-Accepted_example :
    Accepted library_one "item" supplies db
      (obj book ∷ [])
      (some (pos 5))
      (record { version = pos 5; kind = "personal" })
write-Accepted_example =
    write-Accepted library_one "item" supplies db (obj book) [] (some (pos 5))
      (record { version = pos 5; kind = "personal" }) db_library refl (λ index object. refl)
