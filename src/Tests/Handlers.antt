-- ===== src/Tests/Handlers.antt =====
-- Requests to the handlers on the example.
use zhost.Prelude.{
  ℕ, ◌≡◌, ◌⊎◌, refl, String, Option, none, some, List, [], ◌∷◌, true, false, pair_eq, string_eq,
  list_eq, nat_eq, arith, length, ◌==◌, if◌then◌else◌, ◌↔◌, ◌+◌,
}
use zhost.Prelude.Int.{ℤ, pos, int_eq, add_i64, ◌<ℤ◌}
use zhost.Prelude.Table.{lookup, upsert}
use zhost.Prelude.Text.{chars, split, trim}
use zhost.Prelude.Format.{int_to_string}
use zhost.Json.{Value, obj, str, field, end, str_of, get_field}
use zhost.Domain.{LibraryAccess, recovery}
use zhost.Db.{Digest, Library}
use zhost.Query.{ItemQuery, from_params}
use zhost.Config.{key_permissions}
use zhost.Config.Load.{load_keys_from, loaded, insert_entry}
use zhost.Config.Roles.{Gives, load_keys_from-Gives}
use zhost.Store.Keys.{generate_key-IsValid}
use zhost.Store.Objects.{generate_key}
use zhost.Store.Queries.{Postgres, query_items, escape_like}
use zhost.Store.Escaped.{Matches, escape_like-Matches}
use zhost.Http.Validation.{valid_object_key}
use zhost.Http.Headers.{HeaderMap, Form, header_text, version_headers, precondition, expect}
use zhost.Http.Echo.{Echoes, precondition-echo}
use zhost.Handlers.Objects.{write, delete, find_bad_key}
use zhost.Handlers.Preconditions.{Written, Advanced, Refused, write-Written, delete-Advanced}
use zhost.Handlers.Echoed.{Succeeds, write-echoed}
use zhost.Handlers.Metadata.{settings_write, settings_delete}
use zhost.Handlers.Admin.{setting_at, settings-Reserved}
use zhost.Handlers.Items.{has_next}
use zhost.Handlers.Paging.{has_next-remaining, has_next-wraps}
use zhost.Tests.{supplies, config, access, db, library_one, no_text}

-- A client that is at version 5 writes a collection.
abbrev at_five : HeaderMap
at_five = ("if-unmodified-since-version", some (int_to_string (pos 5))) ∷ []

abbrev provided : Value
provided = obj (field "name" (str "Papers") end)

abbrev one_object : List ℕ → Option (List Value)
one_object body = some (provided ∷ [])

abbrev collection_keys : Form
collection_keys = ("collectionKey", "ABCD2345") ∷ []

write-Written_example :
    Written one_object db access at_five []
      (write one_object supplies db access "collection" at_five [])
    ⊎ Refused 200 db (write one_object supplies db access "collection" at_five [])
write-Written_example = write-Written one_object supplies db access "collection" at_five []

delete-Advanced_example :
    (((delete db access "collection" at_five collection_keys).1.status ≡ 204)
      × Advanced db access at_five (delete db access "collection" at_five collection_keys))
    ⊎ Refused 204 db (delete db access "collection" at_five collection_keys)
delete-Advanced_example = delete-Advanced db access "collection" at_five collection_keys

at_five-Echoes : Echoes at_five (pos 5)
unfolding header_text version_headers lookup
at_five-Echoes = refl

precondition-echo_example : precondition at_five ≡ expect (pos 5)
precondition-echo_example =
    precondition-echo (pos 5) at_five (omega arith) (omega arith) at_five-Echoes

abbrev library_row : Library
library_row = record { version = pos 5; kind = "personal" }

found_five : lookup (pos 1) db.library ≡ some library_row
unfolding lookup
found_five = refl

keyless : find_bad_key (provided ∷ []) ≡ none
unfolding find_bad_key str_of get_field
keyless = refl

write-echoed_example : Succeeds one_object supplies db access "collection" at_five [] library_row
write-echoed_example =
    write-echoed one_object supplies db access "collection" at_five [] library_row provided []
      found_five (omega arith) (omega arith) at_five-Echoes refl refl keyless (λ index object. refl)

abbrev member : LibraryAccess
member = record access { group_id = some (record { get = pos 4 }); is_admin = false }

abbrev rename : List ℕ → Option Value
rename body = some (obj (field "autoRenameFiles" (str "yes") end))

settings-Reserved_example :
    (setting_at library_one "autoRenameFiles" (settings_write rename db member at_five []).0
      ≡ setting_at library_one "autoRenameFiles" db)
    × (setting_at library_one "autoRenameFiles"
          (settings_delete db member at_five (("settingKey", "autoRenameFiles") ∷ [])).0
        ≡ setting_at library_one "autoRenameFiles" db)
settings-Reserved_example =
    settings-Reserved rename db member at_five [] (("settingKey", "autoRenameFiles") ∷ [])
      "autoRenameFiles" refl refl refl

abbrev postgres : Postgres
postgres = record {
  json_text = no_text;
  search_text = λ json. none;
  ilike = λ t pattern. false;
  order_by = λ sort direction rows. rows;
  order_keys = λ keys. keys;
}

abbrev no_pairs : String → Option (List (String × String))
no_pairs raw = none

abbrev no_string : List (String × String) → Option String
no_string pairs = none

abbrev query_at : ℤ → ItemQuery
query_at start = record (from_params (record { pairs = [] })) { start = start; limit = pos 25 }

has_next-remaining_example :
    (has_next postgres no_pairs no_string config db access
        (query_at (pos 0))
        (query_items postgres db library_one (query_at (pos 0)) true).1
      ≡ true)
    ↔ (pos (0 + length (query_items postgres db library_one (query_at (pos 0)) true).0)
        <ℤ (query_items postgres db library_one (query_at (pos 0)) true).1)
has_next-remaining_example =
    has_next-remaining postgres no_pairs no_string config db access (query_at (pos 0)) 0 25 refl
      refl (omega arith) (λ rows. refl)

abbrev last_start : ℕ
last_start = 9_223_372_036_854_775_807

has_next-wraps_example :
    (has_next postgres no_pairs no_string config db access (query_at (pos last_start)) (pos 1)
      ≡ true)
    × (add_i64 (pos last_start) (pos 25) <ℤ pos 0)
has_next-wraps_example =
    has_next-wraps postgres no_pairs no_string config db access (query_at (pos last_start))
      last_start 25 1 refl refl (omega arith) (omega arith) (omega arith)

generate_key-IsValid_example :
    valid_object_key (generate_key (some (7 ∷ 250 ∷ 33 ∷ 0 ∷ 99 ∷ 12 ∷ 255 ∷ 64 ∷ []))) ≡ true
generate_key-IsValid_example =
    generate_key-IsValid (7 ∷ 250 ∷ 33 ∷ 0 ∷ 99 ∷ 12 ∷ 255 ∷ 64 ∷ []) refl

escape_like-Matches_example : Matches (chars (escape_like "50%_of\\")) (chars "50%_of\\")
escape_like-Matches_example = escape_like-Matches "50%_of\\"

-- A manifest that names one token twice with one role.
abbrev digest_of : String → Digest
digest_of s =
    0 ∷ 0 ∷ 0 ∷ 0 ∷ 0 ∷ 0 ∷ 0 ∷ 0 ∷ 0 ∷ 0 ∷ 0 ∷ 0 ∷ 0 ∷ 0 ∷ 0 ∷ 0 ∷ 0 ∷ 0 ∷ 0 ∷ 0 ∷ 0 ∷ 0 ∷ 0 ∷ 0
    ∷ 0 ∷ 0 ∷ 0 ∷ 0 ∷ 0 ∷ 0 ∷ 0 ∷ 0 ∷ []

abbrev secret_file : String → Option String
secret_file path = some "secret"

abbrev environment : String → Option (Option String)
environment name = if name == "XOTERO_KEYS" then some (some "ro:a,ro:b") else none

manifest_run :
    load_keys_from digest_of secret_file environment
    ≡ loaded ((digest_of "secret", recovery false) ∷ [])
unfolding load_keys_from split insert_entry trim key_permissions lookup upsert
manifest_run = refl

load_keys_from-Gives_example :
    Gives digest_of secret_file "ro:b" ((digest_of "secret", recovery false) ∷ [])
unfolding split
load_keys_from-Gives_example =
    load_keys_from-Gives digest_of secret_file environment "ro:a,ro:b" "ro:b"
      ((digest_of "secret", recovery false) ∷ []) (λ s. refl) refl manifest_run refl
