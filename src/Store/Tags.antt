-- ===== src/Store/Tags.antt =====
-- xotero/src/store/tags.rs: deleting tags. `json_text` is PostgreSQL's rendering of a JSON value as
-- text by `->>`, with `none` for null.
use zhost.Prelude.{
  String, Bool, false, ◌&&◌, ◌||◌, Option, none, some, ◌==◌, if◌then◌else◌, string_eq, pair_eq,
  option_eq, List, [], ◌∷◌,
}
use zhost.Prelude.Int.{ℤ, int_eq}
use zhost.Prelude.Table.{upsert, update_rows}
use zhost.Json.{Value, obj, arr, Items, nil, cons, get, insert}
use zhost.Domain.{LibraryId}
use zhost.Db.{Db, Object, ObjectKey, Result, ok, ◌>>=◌}
use zhost.Store.{Outcome, no_change, at_next_version}

module _ (json_text : Value → Option String) where
  -- `t->>'tag'`.
  abbrev pub tag_text : Value → Option String
  tag_text t = elim (get "tag" t) [ none ↦ none | some v ↦ json_text v ]

  -- `tag_names @> array[tag]`: some object of `data.tags` carries the tag.
  unfoldable pub carries : String → Items → Bool
  carries tag nil = false
  carries tag (cons t ts) = tag_text t == some tag || carries tag ts

  abbrev pub items_of : Option Value → Items
  items_of (some (arr items)) = items
  items_of v = nil

  abbrev pub tags_of : Value → Items
  tags_of json = items_of (get "tags" json)

  -- `jsonb_agg(t) … where t->>'tag' is distinct from $2`, empty if no element is left.
  unfoldable pub without_tag : String → Items → Items
  without_tag tag nil = nil
  without_tag tag (cons t ts) =
      if tag_text t == some tag then without_tag tag ts else cons t (without_tag tag ts)

  -- `jsonb_set(data, '{tags}', …)`.
  abbrev pub set_tags : Items → Value → Value
  set_tags items (obj fields) = obj (insert "tags" (arr items) fields)
  set_tags items value = value

  abbrev pub is_tagged_item : LibraryId → String → ObjectKey → Object → Bool
  is_tagged_item library_id tag k o =
      k.0 == library_id.get && k.1.0 == "item" && carries tag (tags_of o.json)

  unfoldable pub strip : LibraryId → ℤ → String → ObjectKey → Object → Object
  strip library_id version tag k o =
      if is_tagged_item library_id tag k o
      then record { version = version; json = set_tags (without_tag tag (tags_of o.json)) o.json }
      else o

  unfoldable pub delete_tag : LibraryId → ℤ → String → Db → Db
  delete_tag library_id version tag db = record db {
    object = update_rows (strip library_id version tag) db.object;
    deletion = upsert (library_id.get, ("tag", tag)) version db.deletion;
  }

  unfoldable pub delete_each_tag : LibraryId → ℤ → List String → Db → Db
  delete_each_tag library_id version [] db = db
  delete_each_tag library_id version (tag ∷ tags) db =
      delete_each_tag library_id version tags (delete_tag library_id version tag db)

  unfoldable pub delete_tags : Db → LibraryId → List String → Option ℤ → Result (Db × Outcome ℤ)
  delete_tags db library_id [] expected = do
    outcome ← no_change db library_id expected
    ok (db, outcome)
  delete_tags db library_id (tag ∷ tags) expected =
      at_next_version db library_id expected
        (λ version tx. delete_each_tag library_id version (tag ∷ tags) tx)
