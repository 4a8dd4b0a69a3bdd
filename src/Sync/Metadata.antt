-- ===== src/Sync/Metadata.antt =====
-- Settings, tags and full text: what they log, and that a tag's items are stamped.
use zhost.Prelude.{
  ◌⊎◌, ◌≡◌, ◌≢◌, ◌∙◌, inl, inr, refl, ap, sym, Option, none, some, arith, List, [], ◌∷◌, String,
  Option-cases, pair_eq, string_eq,
}
use mathlib.Core.Option
use zhost.Prelude.Int.{ℤ, int_eq, beq_ℤ_iff}
use zhost.Prelude.Table.{lookup, lookup-upsert_ne, lookup-update_rows}
use zhost.Json.{Value, Fields, end, field}
use zhost.Domain.{LibraryId}
use zhost.Db.{Db, Object, ObjectKey, ok, bind-eq-ok, ◌>>=◌}
use zhost.Store.{Outcome, no_change, at_next_version}
use zhost.Store.Guard.{at_next_version-eq}
use zhost.Store.Settings.{
  put_settings, write_settings, write_entries, remove_setting, remove_settings, delete_settings,
  nonempty_object,
}
use zhost.Store.Tags.{strip, delete_tag, delete_each_tag, delete_tags}
use zhost.Sync.{IsObjectKey, Quiet, Touched, Touched-trans, Effect}

pub put_settings-Quiet :
    (l : LibraryId) (version : ℤ) (entries : Fields) (db : Db)
    → Quiet db (put_settings l version entries db)
unfolding put_settings
put_settings-Quiet l version end db = (refl, refl, refl)
put_settings-Quiet l version (field key entry entries) db = put_settings-Quiet l version entries _

-- A change behind the guard has an effect if it touches only what it stamps.
at_next_version-Effect :
    (db db' : Db) (l : LibraryId) (expected : Option ℤ) (change : ℤ → Db → Db) (out : Outcome ℤ)
    → ((v : ℤ) (tx : Db) → (change v tx).library ≡ tx.library)
    → ((v : ℤ) (tx : Db) (k : ObjectKey) → IsObjectKey k → Touched l.get v k tx (change v tx))
    → at_next_version db l expected change ≡ ok (db', out)
    → Effect l db db'
at_next_version-Effect db db' l expected change out library touched h =
    let (row, found, result) = at_next_version-eq db db' l expected change out h in
    elim result [
      | inl (stale, same, _) ↦ rw same (inl (refl, refl, refl))
      | inr (fresh, e, _) ↦ rw e (inr (row, found, library _ _, λ k own. touched _ _ k own))
    ]

quiet_no_change :
    (db db' : Db) (l : LibraryId) (expected : Option ℤ) (out : Outcome ℤ)
    → ◌>>=◌ {U = Db × Outcome ℤ} (no_change db l expected) (λ outcome. ok (db, outcome))
      ≡ ok (db', out)
    → Effect l db db'
quiet_no_change db db' l expected out h =
    let (outcome, _, body) = bind-eq-ok (no_change db l expected) _ h in
    let q : db ≡ db' = cc in inl (rw (← q) (refl, refl, refl))

write_entries-Effect :
    (db db' : Db) (l : LibraryId) (expected : Option ℤ) (entries : Option Fields) (out : Outcome ℤ)
    → write_entries db l expected entries ≡ ok (db', out)
    → Effect l db db'
unfolding write_entries
write_entries-Effect db db' l expected none out h = quiet_no_change db db' l expected out h
write_entries-Effect db db' l expected (some entries) out h =
    at_next_version-Effect db db' l expected _ out (λ v tx. (put_settings-Quiet l v entries tx).0)
      (λ v tx k _.
        let (_, objects, deletions) = put_settings-Quiet l v entries tx in
        inl (rw objects refl, rw deletions refl))
      h

pub write_settings-Effect :
    (db db' : Db) (l : LibraryId) (body : Value) (expected : Option ℤ) (out : Outcome ℤ)
    → write_settings db l body expected ≡ ok (db', out)
    → Effect l db db'
unfolding write_settings
write_settings-Effect db db' l body expected out h =
    write_entries-Effect db db' l expected (nonempty_object body) out h

-- Only the log's rows of settings change, which are no objects.
remove_setting-Touched :
    (l : LibraryId) (v : ℤ) (key : String) (db : Db) (k : ObjectKey)
    → IsObjectKey k
    → Touched l.get v k db (remove_setting l v key db)
unfolding remove_setting
remove_setting-Touched l v key db k own =
    inl (
      refl,
      lookup-upsert_ne _ k _ db.deletion (λ e. own.0 (ap (λ (x : ObjectKey). x.1.0) (sym e))),
    )

remove_setting-library :
    (l : LibraryId) (v : ℤ) (key : String) (db : Db)
    → (remove_setting l v key db).library ≡ db.library
unfolding remove_setting
remove_setting-library l v key db = refl

remove_settings-library :
    (l : LibraryId) (v : ℤ) (keys : List String) (db : Db)
    → (remove_settings l v keys db).library ≡ db.library
unfolding remove_settings
remove_settings-library l v [] db = refl
remove_settings-library l v (key ∷ keys) db =
    remove_settings-library l v keys (remove_setting l v key db) ∙ remove_setting-library l v key db

remove_settings-Touched :
    (l : LibraryId) (v : ℤ) (keys : List String) (db : Db) (k : ObjectKey)
    → IsObjectKey k
    → Touched l.get v k db (remove_settings l v keys db)
unfolding remove_settings
remove_settings-Touched l v [] db k own = inl (refl, refl)
remove_settings-Touched l v (key ∷ keys) db k own =
    Touched-trans l.get v k db (remove_setting l v key db)
      (remove_settings l v keys (remove_setting l v key db))
      (remove_setting-Touched l v key db k own)
      (remove_settings-Touched l v keys (remove_setting l v key db) k own)

pub delete_settings-Effect :
    (db db' : Db) (l : LibraryId) (keys : List String) (expected : Option ℤ) (out : Outcome ℤ)
    → delete_settings db l keys expected ≡ ok (db', out)
    → Effect l db db'
unfolding delete_settings
delete_settings-Effect db db' l [] expected out h = quiet_no_change db db' l expected out h
delete_settings-Effect db db' l (key ∷ keys) expected out h =
    at_next_version-Effect db db' l expected _ out
      (λ v tx. remove_settings-library l v (key ∷ keys) tx)
      (λ v tx k own. remove_settings-Touched l v (key ∷ keys) tx k own) h

module _ (json_text : Value → Option String) where
  strip-stamps :
      (l : LibraryId) (v : ℤ) (tag : String) (k : ObjectKey) (o : Object)
      → (strip json_text l v tag k o ≡ o)
        ⊎ ((k.0 ≡ l.get) × ((strip json_text l v tag k o).version ≡ v))
  unfolding strip
  strip-stamps l v tag k o = ground (arith, beq_ℤ_iff k.0 l.get)

  stripped-Touched :
      (l : LibraryId) (v : ℤ) (tag : String) (db : Db) (k : ObjectKey)
      → k ≢ (l.get, ("tag", tag))
      → Touched l.get v k db (delete_tag json_text l v tag db)
  unfolding delete_tag
  stripped-Touched l v tag db k other =
      let logged = lookup-upsert_ne (l.get, ("tag", tag)) k v db.deletion (λ e. other (sym e)) in
      let f = strip json_text l v tag k in
      let rows = lookup-update_rows (strip json_text l v tag) k db.object in
      elim (Option-cases (lookup k db.object)) [
        | inl gone ↦ inl (rows ∙ ap (Option.map f) gone ∙ sym gone, logged)
        | inr (o, there) ↦ elim (strip-stamps l v tag k o) [
          | inl same ↦ inl (rows ∙ (ap (Option.map f) there ∙ ap some same ∙ sym there), logged)
          | inr (own, stamped) ↦
              inr (own, inl (strip json_text l v tag k o, rows ∙ ap (Option.map f) there, stamped))
        ]
      ]

  delete_tag-library :
      (l : LibraryId) (v : ℤ) (tag : String) (db : Db)
      → (delete_tag json_text l v tag db).library ≡ db.library
  unfolding delete_tag
  delete_tag-library l v tag db = refl

  delete_each_tag-library :
      (l : LibraryId) (v : ℤ) (tags : List String) (db : Db)
      → (delete_each_tag json_text l v tags db).library ≡ db.library
  unfolding delete_each_tag
  delete_each_tag-library l v [] db = refl
  delete_each_tag-library l v (tag ∷ tags) db =
      delete_each_tag-library l v tags (delete_tag json_text l v tag db)
      ∙ delete_tag-library l v tag db

  delete_each_tag-Touched :
      (l : LibraryId) (v : ℤ) (tags : List String) (db : Db) (k : ObjectKey)
      → IsObjectKey k
      → Touched l.get v k db (delete_each_tag json_text l v tags db)
  unfolding delete_each_tag
  delete_each_tag-Touched l v [] db k own = inl (refl, refl)
  delete_each_tag-Touched l v (tag ∷ tags) db k own =
      Touched-trans l.get v k db (delete_tag json_text l v tag db)
        (delete_each_tag json_text l v tags (delete_tag json_text l v tag db))
        (stripped-Touched l v tag db k (λ e. own.1 (ap (λ (x : ObjectKey). x.1.0) e)))
        (delete_each_tag-Touched l v tags (delete_tag json_text l v tag db) k own)

  pub delete_tags-Effect :
      (db db' : Db) (l : LibraryId) (tags : List String) (expected : Option ℤ) (out : Outcome ℤ)
      → delete_tags json_text db l tags expected ≡ ok (db', out)
      → Effect l db db'
  unfolding delete_tags
  delete_tags-Effect db db' l [] expected out h = quiet_no_change db db' l expected out h
  delete_tags-Effect db db' l (tag ∷ tags) expected out h =
      at_next_version-Effect db db' l expected _ out
        (λ v tx. delete_each_tag-library l v (tag ∷ tags) tx)
        (λ v tx k own. delete_each_tag-Touched l v (tag ∷ tags) tx k own) h
