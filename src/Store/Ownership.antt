-- ===== src/Store/Ownership.antt =====
-- Stored files and the attachments that they belong to.
use zhost.Prelude.{
  ◌≡◌, ◌≢◌, ◌∙◌, inl, inr, refl, ap, Option, none, some, arith, pair_eq, string_eq, eq_cases,
  option_eq, ◌==◌, true, false, List, [], ◌∷◌, String, Option-cases, is_some_and,
}
use text.Mathlib.TextEquality.{eq_iff}
use zhost.Prelude.Int.{ℤ, int_eq}
use zhost.Prelude.Table.{lookup, upsert, lookup-upsert_self, lookup-upsert_ne, lookup-update_rows}
use zhost.Json.{
  Value, Fields, obj, arr, null, bool, num, str, insert, str_of, from_int, Items, as_str,
}
use zhost.Json.Laws.{get_field-insert_ne}
use zhost.Domain.{LibraryId}
use zhost.Db.{Db, Object, ItemKey, Digest, ObjectKey}
use zhost.Store.{is_stored_file_attachment}
use zhost.Store.Objects.{json_of, object_key, item_key}
use zhost.Store.Files.{PendingUpload}
use zhost.Store.Tags.{strip, delete_tag, delete_each_tag, set_tags, without_tag, tags_of}
use zhost.Store.Registration.{install, file_fields}
use zhost.Store.Attachments.{Owned}

pub different : (a b : String) → (a == b) ≡ false → a ≢ b
different a b h = ground (arith, eq_iff a b)

str_of-insert :
    (name other : String) (v : Value) (fields : Fields)
    → name ≢ other
    → str_of other (obj (insert name v fields)) ≡ str_of other (obj fields)
unfolding str_of
str_of-insert name other v fields h =
    ap (λ (x : Option Value). elim x [ none ↦ none | some w ↦ as_str w ])
      (get_field-insert_ne name other v fields h)

-- Only the type and the link mode of an item make it a stored-file attachment.
insert-stored :
    (name : String) (v : Value) (fields : Fields)
    → name ≢ "itemType"
    → name ≢ "linkMode"
    → is_stored_file_attachment (obj (insert name v fields))
      ≡ is_stored_file_attachment (obj fields)
unfolding is_stored_file_attachment
insert-stored name v fields t m =
    ground
      (arith, str_of-insert name "itemType" v fields t, str_of-insert name "linkMode" v fields m)

file_fields-stored :
    (u : PendingUpload) (version : ℤ) (v : Value)
    → is_stored_file_attachment (file_fields u version v) ≡ is_stored_file_attachment v
file_fields-stored u version (obj fields) =
    insert-stored "version" (from_int version) _ (different _ "itemType" refl)
      (different _ "linkMode" refl)
    ∙ (insert-stored "filename" (str u.filename) _ (different _ "itemType" refl)
          (different _ "linkMode" refl)
        ∙ (insert-stored "mtime" (from_int u.mtime) _ (different _ "itemType" refl)
              (different _ "linkMode" refl)
            ∙ insert-stored "md5" (str u.md5) fields (different _ "itemType" refl)
                (different _ "linkMode" refl)))
file_fields-stored u version null = refl
file_fields-stored u version (bool b) = refl
file_fields-stored u version (num n) = refl
file_fields-stored u version (str s) = refl
file_fields-stored u version (arr a) = refl

module _ (json_text : Value → Option String) where
  set_tags-stored :
      (items : Items) (v : Value)
      → is_stored_file_attachment (set_tags json_text items v) ≡ is_stored_file_attachment v
  set_tags-stored items (obj fields) =
      insert-stored "tags" (arr items) fields (different _ "itemType" refl)
        (different _ "linkMode" refl)
  set_tags-stored items null = refl
  set_tags-stored items (bool b) = refl
  set_tags-stored items (num n) = refl
  set_tags-stored items (str s) = refl
  set_tags-stored items (arr a) = refl

  strip-stored :
      (l : LibraryId) (v : ℤ) (tag : String) (k : ObjectKey) (o : Object)
      → is_stored_file_attachment (strip json_text l v tag k o).json
        ≡ is_stored_file_attachment o.json
  unfolding strip
  strip-stored l v tag k o =
      ground (arith, set_tags-stored (without_tag json_text tag (tags_of json_text o.json)) o.json)

  delete_tag-Owned :
      (l : LibraryId) (v : ℤ) (tag : String) (db : Db) (k : ItemKey)
      → Owned k db
      → Owned k (delete_tag json_text l v tag db)
  unfolding delete_tag
  delete_tag-Owned l v tag db k (inl gone) = inl gone
  delete_tag-Owned l v tag db k (inr stored) =
      let key : ObjectKey = (k.0, ("item", k.1)) in
      let rows = lookup-update_rows (strip json_text l v tag) key db.object in
      elim (Option-cases (lookup key db.object)) [
        | inl none_there ↦ absurd (ground (arith, none_there))
        | inr (o, there) ↦ inr (ground (arith, rows, there, strip-stored l v tag key o))
      ]

  pub delete_each_tag-Owned :
      (l : LibraryId) (v : ℤ) (tags : List String) (db : Db) (k : ItemKey)
      → Owned k db
      → Owned k (delete_each_tag json_text l v tags db)
  unfolding delete_each_tag
  delete_each_tag-Owned l v [] db k h = h
  delete_each_tag-Owned l v (tag ∷ tags) db k h =
      delete_each_tag-Owned l v tags (delete_tag json_text l v tag db) k
        (delete_tag-Owned l v tag db k h)

pub install-Owned :
    (db : Db) (token_hash : Digest) (l : LibraryId) (key : String) (u : PendingUpload)
    (item : Object) (v : ℤ) (k : ItemKey)
    → is_stored_file_attachment item.json ≡ true
    → Owned k db
    → Owned k (install db token_hash l key u item v)
unfolding install
install-Owned db token_hash l key u item v k attachment h = elim (eq_cases (item_key l key) k) [
  | inl same ↦
      let key_same : object_key l "item" key ≡ (k.0, ("item", k.1)) =
        ap (λ (x : ItemKey). (x.0, ("item", x.1))) same in
      inr (installed _ (file_fields-stored u v item.json ∙ attachment) key_same)
  | inr other ↦
      let other_object : object_key l "item" key ≢ (k.0, ("item", k.1)) =
        (λ e. other (ap (λ (x : ObjectKey). (x.0, x.1.1)) e)) in
      let same_object =
        lookup-upsert_ne (object_key l "item" key) (k.0, ("item", k.1)) _ db.object other_object in
      elim h [
        | inl gone ↦ inl (lookup-upsert_ne _ k _ db.file other ∙ gone)
        | inr stored ↦ inr (
            ap (λ (x : Option Object). is_some_and is_stored_file_attachment (json_of x))
              same_object
            ∙ stored)
      ]
]
  where
    installed :
        {j i : ObjectKey} (o : Object)
        → is_stored_file_attachment o.json ≡ true
        → j ≡ i
        → is_some_and is_stored_file_attachment (json_of (lookup i (upsert j o db.object))) ≡ true
    installed {j} {i} o ok_object e = rw (← e, lookup-upsert_self j o db.object) ok_object
