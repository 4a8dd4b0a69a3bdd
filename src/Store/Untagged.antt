-- ===== src/Store/Untagged.antt =====
-- What deleting tags leaves of them.
use zhost.Prelude.{
  ◌≡◌, inl, inr, refl, Option, some, arith, true, false, List, [], ◌∷◌, String, any, ◌==◌, eq_cases,
  pair_eq, string_eq, Option-cases,
}
use text.Mathlib.TextEquality.{eq_iff}
use zhost.Prelude.Int.{ℤ, int_eq, beq_ℤ_iff}
use zhost.Prelude.Table.{lookup, lookup-update_rows}
use zhost.Json.{Value, obj, arr, null, bool, num, str, Items, nil, cons, get_field}
use zhost.Json.Laws.{get_field-insert_self}
use zhost.Domain.{LibraryId}
use zhost.Db.{Db, Object, ObjectKey, ok}
use zhost.Store.{Outcome}
use zhost.Store.Guard.{at_next_version-eq}
use zhost.Store.Tags.{
  carries, without_tag, tags_of, set_tags, strip, delete_tag, delete_each_tag, delete_tags,
  items_of,
}

module _ (json_text : Value → Option String) where
  without_tag-carries :
      (tag : String) (items : Items)
      → carries json_text tag (without_tag json_text tag items) ≡ false
  unfolding carries without_tag
  without_tag-carries tag nil = refl
  without_tag-carries tag (cons t ts) = ground (arith, without_tag-carries tag ts)

  without_tag-adds :
      (tag other : String) (items : Items)
      → carries json_text tag items ≡ false
      → carries json_text tag (without_tag json_text other items) ≡ false
  unfolding carries without_tag
  without_tag-adds tag other nil h = refl
  without_tag-adds tag other (cons t ts) h = ground (arith, without_tag-adds tag other ts)

  stripped_value :
      (tag : String) (v : Value)
      → carries json_text tag (
          tags_of json_text
            (set_tags json_text (without_tag json_text tag (tags_of json_text v)) v))
        ≡ false
  unfolding carries
  stripped_value tag (obj x) =
      let items = without_tag json_text tag (items_of json_text (get_field "tags" x)) in
      rw (get_field-insert_self "tags" (arr items) x)
        (without_tag-carries tag (items_of json_text (get_field "tags" x)))
  stripped_value tag null = refl
  stripped_value tag (bool b) = refl
  stripped_value tag (num n) = refl
  stripped_value tag (str s) = refl
  stripped_value tag (arr a) = refl

  kept_value :
      (tag other : String) (v : Value)
      → carries json_text tag (tags_of json_text v) ≡ false
      → carries json_text tag (
          tags_of json_text
            (set_tags json_text (without_tag json_text other (tags_of json_text v)) v))
        ≡ false
  unfolding carries
  kept_value tag other (obj x) h =
      let items = without_tag json_text other (items_of json_text (get_field "tags" x)) in
      rw (get_field-insert_self "tags" (arr items) x)
        (without_tag-adds tag other (items_of json_text (get_field "tags" x)) h)
  kept_value tag other null h = refl
  kept_value tag other (bool b) h = refl
  kept_value tag other (num n) h = refl
  kept_value tag other (str s) h = refl
  kept_value tag other (arr a) h = refl

  abbrev pub Untagged : String → Option Object → Type 0
  Untagged tag row =
      (o : Object) → row ≡ some o → carries json_text tag (tags_of json_text o.json) ≡ false

  strip-carries :
      (l : LibraryId) (v : ℤ) (tag key : String) (o : Object)
      → carries json_text tag
          (tags_of json_text (strip json_text l v tag (l.get, ("item", key)) o).json)
        ≡ false
  unfolding strip
  strip-carries l v tag key o = ground (arith, beq_ℤ_iff l.get l.get, stripped_value tag o.json)

  strip-keeps :
      (l : LibraryId) (v : ℤ) (tag other : String) (k : ObjectKey) (o : Object)
      → carries json_text tag (tags_of json_text o.json) ≡ false
      → carries json_text tag (tags_of json_text (strip json_text l v other k o).json) ≡ false
  unfolding strip
  strip-keeps l v tag other k o h = ground (arith, kept_value tag other o.json)

  delete_tag-Untagged :
      (l : LibraryId) (v : ℤ) (tag key : String) (db : Db)
      → Untagged tag (lookup (l.get, ("item", key)) (delete_tag json_text l v tag db).object)
  unfolding delete_tag
  delete_tag-Untagged l v tag key db o h =
      let rows = lookup-update_rows (strip json_text l v tag) (l.get, ("item", key)) db.object in
      elim (Option-cases (lookup (l.get, ("item", key)) db.object)) [
        | inl gone ↦ absurd (ground (arith, rows))
        | inr (x, there) ↦
            let e : strip json_text l v tag (l.get, ("item", key)) x ≡ o = ground (arith, rows) in
            rw (← e) (strip-carries l v tag key x)
      ]

  delete_tag-keeps :
      (l : LibraryId) (v : ℤ) (tag other : String) (k : ObjectKey) (db : Db)
      → Untagged tag (lookup k db.object)
      → Untagged tag (lookup k (delete_tag json_text l v other db).object)
  unfolding delete_tag
  delete_tag-keeps l v tag other k db before o h =
      let rows = lookup-update_rows (strip json_text l v other) k db.object in
      elim (Option-cases (lookup k db.object)) [
        | inl gone ↦ absurd (ground (arith, rows))
        | inr (x, there) ↦
            let e : strip json_text l v other k x ≡ o = ground (arith, rows) in
            rw (← e) (strip-keeps l v tag other k x (before x there))
      ]

  each-keeps :
      (l : LibraryId) (v : ℤ) (tag : String) (tags : List String) (k : ObjectKey) (db : Db)
      → Untagged tag (lookup k db.object)
      → Untagged tag (lookup k (delete_each_tag json_text l v tags db).object)
  unfolding delete_each_tag
  each-keeps l v tag [] k db h = h
  each-keeps l v tag (other ∷ tags) k db h =
      each-keeps l v tag tags k (delete_tag json_text l v other db)
        (delete_tag-keeps l v tag other k db h)

  each-Untagged :
      (l : LibraryId) (v : ℤ) (tag key : String) (tags : List String) (db : Db)
      → any (λ t. t == tag) tags ≡ true
      → Untagged tag (lookup (l.get, ("item", key)) (delete_each_tag json_text l v tags db).object)
  unfolding delete_each_tag
  each-Untagged l v tag key [] db h = absurd (ground arith)
  each-Untagged l v tag key (other ∷ tags) db h = elim (eq_cases other tag) [
    | inl same ↦
        each-keeps l v tag tags (l.get, ("item", key)) (delete_tag json_text l v other db)
          (rw same (delete_tag-Untagged l v tag key db))
    | inr different ↦
        each-Untagged l v tag key tags (delete_tag json_text l v other db)
          (ground (arith, eq_iff other tag))
  ]

  untagged :
      (k : ObjectKey) (tag : String) (db db' : Db) (o : Object)
      → db ≡ db'
      → lookup k db.object ≡ some o
      → Untagged tag (lookup k db'.object)
      → carries json_text tag (tags_of json_text o.json) ≡ false
  untagged k tag db db' o same there h = h o (rw (← same) there)

  -- After a call that deletes tags is done, no item of the library carries a tag that the call
  -- names.
  pub delete_tags-Untagged :
      (db db' : Db) (l : LibraryId) (tags : List String) (expected : Option ℤ) (v : ℤ)
      (tag key : String) (o : Object)
      → delete_tags json_text db l tags expected ≡ ok (db', Outcome.done v)
      → any (λ t. t == tag) tags ≡ true
      → lookup (l.get, ("item", key)) db'.object ≡ some o
      → carries json_text tag (tags_of json_text o.json) ≡ false
  unfolding delete_tags
  delete_tags-Untagged db db' l [] expected v tag key o h named there = absurd (ground arith)
  delete_tags-Untagged db db' l (t ∷ tags) expected v tag key o h named there =
      let (row, found, result) = at_next_version-eq db db' l expected _ (Outcome.done v) h in
      elim result [
        | inl (stale, _, e) ↦ absurd (ground arith)
        | inr (fresh, e, _) ↦
            untagged _ tag db' _ o e there (each-Untagged l _ tag key (t ∷ tags) _ named)
      ]
