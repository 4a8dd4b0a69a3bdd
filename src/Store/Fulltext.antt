-- ===== src/Store/Fulltext.antt =====
-- xotero/src/store/fulltext.rs: full-text content of items.
use zhost.Prelude.{
  ℕ, ◌+◌, String, Option, none, some, ◌==◌, ◌&&◌, if◌then◌else◌, string_eq, pair_eq, List, [], ◌∷◌,
  unwrap_or,
}
use zhost.Prelude.Int.{ℤ, pos, int_eq, ltb_ℤ, leb_ℤ, i64_max, negsuc}
use zhost.Prelude.Text.{to_string}
use zhost.Prelude.Table.{Table, lookup, upsert}
use zhost.Json.{Value, obj, str, num, int, Fields, end, field, get, insert, str_of, from_int}
use zhost.Domain.{LibraryId}
use zhost.Db.{Db, Fulltext, ItemKey, Result, ok, ◌>>=◌}
use zhost.Store.{Outcome, done, conflict, guarded_version, no_change}

unfoldable pub fulltext_rows : LibraryId → ℤ → Table ItemKey Fulltext → Fields → Fields
fulltext_rows library_id since [] map = map
fulltext_rows library_id since (((l, key), row) ∷ rows) map = fulltext_rows library_id since rows (
    if l == library_id.get && ltb_ℤ since row.version
    then insert key (from_int row.version) map
    else map)

unfoldable pub fulltext_versions : Db → LibraryId → ℤ → Fields
unfolding fulltext_rows
fulltext_versions db library_id since = fulltext_rows library_id since db.fulltext end

abbrev pub fulltext_json : Fulltext → Value
fulltext_json r = obj (
    field "content" (str r.content) (
      field "indexedChars" (from_int r.indexed_chars) (
        field "totalChars" (from_int r.total_chars) (
          field "indexedPages" (from_int r.indexed_pages)
            (field "totalPages" (from_int r.total_pages) end)))))

unfoldable pub fulltext_item : Db → LibraryId → String → Option (ℤ × Value)
fulltext_item db library_id item_key = elim (lookup (library_id.get, item_key) db.fulltext) [
  | none ↦ none
  | some r ↦ some (r.version, fulltext_json r)
]

-- `Value::as_i64`.
abbrev pub as_i64 : Value → Option ℤ
as_i64 (num (int n)) =
    if leb_ℤ n i64_max && leb_ℤ (negsuc 0x7fff_ffff_ffff_ffff) n then some n else none
as_i64 v = none

abbrev pub count : String → Value → ℤ
count name item = unwrap_or (pos 0) (elim (get name item) [ none ↦ none | some v ↦ as_i64 v ])

unfoldable pub fulltext_row : ℤ → Value → Fulltext
fulltext_row version item = record {
  content = unwrap_or "" (str_of "content" item);
  indexed_chars = count "indexedChars" item;
  total_chars = count "totalChars" item;
  indexed_pages = count "indexedPages" item;
  total_pages = count "totalPages" item;
  version = version;
}

unfoldable pub put_fulltext : LibraryId → ℤ → ℕ → List Value → Db × Fields → Db × Fields
unfolding fulltext_row
put_fulltext library_id version index [] s = s
put_fulltext library_id version index (item ∷ batch) (db, successful) =
    let key : String = unwrap_or "" (str_of "key" item) in
    put_fulltext library_id version (index + 1) batch (
      record db { fulltext = upsert (library_id.get, key) (fulltext_row version item) db.fulltext },
      insert (to_string index) (obj (field "key" (str key) end)) successful,
    )

abbrev written : Db × Fields → ℤ → Db × Outcome (ℤ × Fields)
written s version = (s.0, done (version, s.1))

abbrev empty_write : Outcome ℤ → Outcome (ℤ × Fields)
empty_write (done version) = done (version, end)
empty_write (conflict current) = conflict current

unfoldable pub write_fulltext :
    Db → LibraryId → List Value → Option ℤ → Result (Db × Outcome (ℤ × Fields))
write_fulltext db library_id [] expected = do
  outcome ← no_change db library_id expected
  ok (db, empty_write outcome)
write_fulltext db library_id (item ∷ batch) expected = do
  guarded ← guarded_version db library_id expected
  ok (elim guarded.1 [
    | conflict current ↦ (db, conflict current)
    | done version ↦
        written (put_fulltext library_id version 0 (item ∷ batch) (guarded.0, end)) version
  ])
