-- ===== src/Store/Versions.antt =====
-- xotero/src/store/versions.rs and the batch read of xotero/src/store/objects.rs. The rows of a
-- `select` without `order by` come in the order of the table.
use zhost.Prelude.{
  String, Bool, not, ◌&&◌, ◌||◌, some, ◌==◌, if◌then◌else◌, string_eq, option_eq, List, [], ◌∷◌,
  any,
}
use zhost.Prelude.Int.{ℤ, int_eq, ltb_ℤ, pos}
use zhost.Prelude.Table.{Table}
use zhost.Json.{Value, obj, str, Fields, end, field, insert, str_of, from_int}
use zhost.Domain.{LibraryId}
use zhost.Db.{Db, Object, ObjectKey}
use zhost.Store.Objects.{order_fields}

-- `item_type is distinct from 'note'`.
abbrev pub is_note : Value → Bool
is_note json = str_of "itemType" json == some "note"

abbrev pub is_changed : LibraryId → String → ℤ → Bool → ObjectKey → Object → Bool
is_changed library_id kind since include_notes k o =
    k.0 == library_id.get
    && k.1.0 == kind
    && ltb_ℤ since o.version
    && (include_notes || not (kind == "item") || not (is_note o.json))

unfoldable pub version_map : (ObjectKey → Object → Bool) → Table ObjectKey Object → Fields → Fields
version_map p [] map = map
version_map p ((k, o) ∷ rows) map =
    version_map p rows (if p k o then insert k.1.1 (from_int o.version) map else map)

unfoldable pub versions : Db → LibraryId → String → ℤ → Bool → Fields
unfolding version_map
versions db library_id kind since include_notes =
    version_map (is_changed library_id kind since include_notes) db.object end

pub record Deleted : Type 0 where
  pub collections : List Value
  pub searches : List Value
  pub items : List Value
  pub settings : List Value
  pub tags : List Value

abbrev pub none_deleted : Deleted
none_deleted = record { collections = []; searches = []; items = []; settings = []; tags = [] }

unfoldable pub push_deleted : String → String → Deleted → Deleted
push_deleted kind key d =
    if kind == "collection"
    then record d { collections = str key ∷ d.collections }
    else if kind == "search"
    then record d { searches = str key ∷ d.searches }
    else if kind == "setting"
    then record d { settings = str key ∷ d.settings }
    else if kind == "tag"
    then record d {
      tags = obj (field "tag" (str key) (field "type" (from_int (pos 0)) end)) ∷ d.tags;
    }
    else record d { items = str key ∷ d.items }

unfoldable pub deleted_rows : LibraryId → ℤ → Table ObjectKey ℤ → Deleted
unfolding push_deleted
deleted_rows library_id since [] = none_deleted
deleted_rows library_id since (((l, (kind, key)), v) ∷ rows) =
    let rest = deleted_rows library_id since rows in
    if l == library_id.get && ltb_ℤ since v then push_deleted kind key rest else rest

unfoldable pub deleted : Db → LibraryId → ℤ → Deleted
unfolding deleted_rows
deleted db library_id since = deleted_rows library_id since db.deletion

abbrev pub object_json : String → Object → Value
object_json key o = obj (
    field "key" (str key)
      (field "version" (from_int o.version) (field "data" (order_fields o.json) end)))

-- `objects` of xotero/src/store/objects.rs.
unfoldable pub object_rows :
    LibraryId → String → List String → Bool → Table ObjectKey Object → List Value
object_rows library_id kind keys include_notes [] = []
object_rows library_id kind keys include_notes (((l, (k, key)), o) ∷ rows) =
    let rest = object_rows library_id kind keys include_notes rows in
    if l == library_id.get
      && k == kind
      && any (λ wanted. key == wanted) keys
      && (include_notes || not (kind == "item") || not (is_note o.json))
    then object_json key o ∷ rest
    else rest

unfoldable pub objects : Db → LibraryId → String → List String → Bool → List Value
unfolding object_rows
objects db library_id kind keys include_notes =
    object_rows library_id kind keys include_notes db.object
