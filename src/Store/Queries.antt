-- ===== src/Store/Queries.antt =====
-- xotero/src/store/objects.rs and versions.rs: the filtered and paged reads of items, over the
-- columns that xotero/migrations/0006 generates.
use Prim.Native.Char.{Char}
use zhost.Prelude.{
  ℕ, String, Bool, true, false, not, ◌&&◌, ◌||◌, Option, none, some, ◌==◌, if◌then◌else◌, string_eq,
  option_eq, List, [], ◌∷◌, ◌++◌, map, any, all, is_some_and, unwrap_or, and_then, is_empty, take,
  drop, length, pair_eq,
}
use zhost.Prelude.Int.{ℤ, pos, int_eq, ltb_ℤ, pos_part}
use zhost.Prelude.Table.{Table, lookup}
use zhost.Prelude.Text.{chars, from_chars, is_char}
use zhost.Prelude.Format.{concat}
use zhost.Json.{Value, arr, Items, nil, cons, Fields, end, get}
use zhost.Domain.{LibraryId}
use zhost.Db.{Db, Object, ObjectKey}
use zhost.Query.{ItemQuery, QMode, everything, title_creator_year, Sort, Direction}
use zhost.Store.Tags.{carries, tags_of}
use zhost.Store.Objects.{item_key}
use zhost.Store.Versions.{version_map, object_json}

-- `replace` of one character.
unfoldable pub replace_char : ℕ → List Char → List Char → List Char
replace_char n by [] = []
replace_char n by (c ∷ cs) =
    let rest = replace_char n by cs in if is_char n c then by ++ rest else c ∷ rest

unfoldable pub escape_like : String → String
unfolding replace_char
escape_like term = from_chars (
    replace_char b'_' ("\\" ∷ "_" ∷ [])
      (replace_char b'%' ("\\" ∷ "%" ∷ []) (replace_char b'\\' ("\\" ∷ "\\" ∷ []) (chars term))))

-- PostgreSQL's part: `->>` of a value, the text and year that the migration's functions extract, the
-- test `ilike` with the escape character `\`, and `order by`.
pub record Postgres : Type 0 where
  pub json_text : Value → Option String
  pub search_text : Value → Option String
  pub ilike : String → String → Bool
  pub order_by : Sort → Direction → List (String × Object) → List (String × Object)
  pub order_keys : List String → List String

module _ (sql : Postgres) where
  abbrev pub text_of : String → Value → Option String
  text_of name json = and_then (get name json) sql.json_text

  -- The generated columns.
  abbrev pub item_type_of : Value → Option String
  item_type_of = text_of "itemType"

  abbrev pub is_top : Value → Bool
  is_top json =
      let parent = unwrap_or "" (text_of "parentItem" json) in parent == "" || parent == "false"

  abbrev pub is_trashed : Value → Bool
  is_trashed json =
      let deleted = unwrap_or "0" (text_of "deleted" json) in deleted == "1" || deleted == "true"

  unfoldable pub has_text : String → Items → Bool
  has_text key nil = false
  has_text key (cons v vs) = sql.json_text v == some key || has_text key vs

  abbrev pub is_in_collection : String → Value → Bool
  is_in_collection key json = elim (get "collections" json) [
    | some (arr keys) ↦ has_text key keys
    | other ↦ false
  ]

  abbrev pub like_pattern : String → String
  like_pattern term = concat ("%" ∷ escape_like term ∷ "%" ∷ [])

  abbrev pub content_matches : Db → LibraryId → String → String → Bool
  content_matches db library_id key term =
      is_some_and (λ f. sql.ilike f.content (like_pattern term))
        (lookup (item_key library_id key) db.fulltext)

  abbrev pub is_everything : QMode → Bool
  is_everything everything = true
  is_everything title_creator_year = false

  abbrev pub term_matches : Db → LibraryId → QMode → String → Value → String → Bool
  term_matches db library_id qmode key json term =
      is_some_and (λ t. sql.ilike t (like_pattern term)) (sql.search_text json)
      || (is_everything qmode && content_matches db library_id key term)

  abbrev pub all_true : Option Bool → Bool
  all_true none = true
  all_true (some b) = b

  -- `push_item_filters`, on one row.
  unfoldable pub item_filters : Db → LibraryId → ItemQuery → Bool → ObjectKey → Object → Bool
  item_filters db library_id q include_notes k o =
      k.0 == library_id.get
      && k.1.0 == "item"
      && (include_notes || not (item_type_of o.json == some "note"))
      && (if q.only_trashed
          then is_trashed o.json
          else q.include_trashed || not (is_trashed o.json))
      && all_true
          (and_then q.q (λ term. some (term_matches db library_id q.qmode k.1.1 o.json term)))
      && (is_empty q.item_type.include
          || is_some_and (λ t. any (λ i. i == t) q.item_type.include) (item_type_of o.json))
      && (is_empty q.item_type.exclude
          || is_some_and (λ t. not (any (λ i. i == t) q.item_type.exclude)) (item_type_of o.json))
      && all (λ group. any (λ tag. carries sql.json_text tag (tags_of sql.json_text o.json)) group)
          q.tags
      && (not q.top || is_top o.json)
      && all_true (and_then q.collection (λ key. some (is_in_collection key o.json)))

  unfoldable pub matching_rows :
      (ObjectKey → Object → Bool) → Table ObjectKey Object → List (String × Object)
  matching_rows p [] = []
  matching_rows p ((k, o) ∷ rows) =
      if p k o then (k.1.1, o) ∷ matching_rows p rows else matching_rows p rows

  unfoldable pub matching_items : Db → LibraryId → ItemQuery → Bool → List (String × Object)
  unfolding matching_rows item_filters
  matching_items db library_id q include_notes =
      matching_rows (item_filters db library_id q include_notes) db.object

  unfoldable pub query_items : Db → LibraryId → ItemQuery → Bool → List Value × ℤ
  unfolding matching_items
  query_items db library_id q include_notes =
      let rows = matching_items db library_id q include_notes in
      (
        map (λ r. object_json r.0 r.1)
            (take (pos_part q.limit)
              (drop (pos_part q.start) (sql.order_by q.sort q.direction rows))),
        pos (length rows),
      )

  unfoldable pub item_keys : Db → LibraryId → ItemQuery → Bool → List String
  unfolding matching_items
  item_keys db library_id q include_notes =
      sql.order_keys (map (λ r. r.0) (matching_items db library_id q include_notes))

  abbrev pub is_changed_top : LibraryId → ℤ → Bool → ObjectKey → Object → Bool
  is_changed_top library_id since include_notes k o =
      k.0 == library_id.get
      && k.1.0 == "item"
      && is_top o.json
      && ltb_ℤ since o.version
      && (include_notes || not (item_type_of o.json == some "note"))

  unfoldable pub top_versions : Db → LibraryId → ℤ → Bool → Fields
  unfolding version_map
  top_versions db library_id since include_notes =
      version_map (is_changed_top library_id since include_notes) db.object end
