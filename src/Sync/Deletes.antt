-- ===== src/Sync/Deletes.antt =====
-- What deleting objects touches and logs.
use zhost.Prelude.{
  ◌≡◌, ◌∙◌, inl, inr, refl, Option, some, arith, eq_cases, Bool, List, [], ◌∷◌, String,
  Option-cases, pair_eq, string_eq,
}
use zhost.Prelude.Int.{ℤ, int_eq}
use zhost.Prelude.Table.{
  lookup-upsert_self, lookup-delete_self, lookup-upsert_ne, lookup-delete_ne, delete, upsert,
}
use zhost.Domain.{LibraryId}
use zhost.Db.{Db, ObjectKey, ok, bind-eq-ok}
use zhost.Store.{next_version, set_version, guarded_version, no_change}
use zhost.Store.Guard.{guarded_version-Guarded}
use zhost.Store.Objects.{object_key, delete_object, delete_objects, delete_keys, ObjectMutation}
use zhost.Sync.{Touched, Touched-trans, Effect}

module _ (l : LibraryId) (kind : String) (allow : Bool) where
  delete_object-eq :
      (version : ℤ) (key : String) (db db' : Db)
      → delete_object l kind allow version key db ≡ some db'
      → (db'.library ≡ db.library)
        × (db'.object ≡ delete (object_key l kind key) db.object)
        × (db'.deletion ≡ upsert (object_key l kind key) version db.deletion)
  unfolding delete_object
  delete_object-eq version key db db' e = ground arith

  delete_object-Touched :
      (version : ℤ) (key : String) (db db' : Db) (k : ObjectKey)
      → delete_object l kind allow version key db ≡ some db'
      → Touched l.get version k db db'
  delete_object-Touched version key db db' k e =
      let (_, objects, deletions) = delete_object-eq version key db db' e in
      elim (eq_cases (object_key l kind key) k) [
        | inl same ↦
            rw (objects, deletions, ← same)
              (inr (refl, inr (lookup-delete_self _ db.object, lookup-upsert_self _ _ db.deletion)))
        | inr other ↦
            rw (objects, deletions)
              (inl (lookup-delete_ne _ k db.object other, lookup-upsert_ne _ k _ db.deletion other))
      ]

  pub delete_objects-Touched :
      (version : ℤ) (keys : List String) (db db' : Db) (k : ObjectKey)
      → delete_objects l kind allow version keys db ≡ some db'
      → (db'.library ≡ db.library) × Touched l.get version k db db'
  unfolding delete_objects
  delete_objects-Touched version [] db db' k e =
      let q : db ≡ db' = cc in rw (← q) (refl, inl (refl, refl))
  delete_objects-Touched version (key ∷ keys) db db' k e =
      elim (Option-cases (delete_object l kind allow version key db)) [
        | inl h ↦ absurd (ground arith)
        | inr (db1, h) ↦
            let e' : delete_objects l kind allow version keys db1 ≡ some db' = ground arith in
            let (library, touched) = delete_objects-Touched version keys db1 db' k e' in
            (
              library ∙ (delete_object-eq version key db db1 h).0,
              Touched-trans l.get version k db db1 db'
                  (delete_object-Touched version key db db1 k h) touched,
            )
      ]

  pub delete_keys-Effect :
      (db db' : Db) (keys : List String) (expected : Option ℤ) (out : ObjectMutation ℤ)
      → delete_keys l kind allow db keys expected ≡ ok (db', out)
      → Effect l db db'
  unfolding delete_keys
  delete_keys-Effect db db' [] expected out h =
      let (outcome, _, body) = bind-eq-ok (no_change db l expected) _ h in
      let q : db ≡ db' = cc in inl (rw (← q) (refl, refl, refl))
  delete_keys-Effect db db' (key ∷ keys) expected out h =
      let (g, guarded, body) = bind-eq-ok (guarded_version db l expected) _ h in
      let (row, found, result) = guarded_version-Guarded db l expected g guarded in
      elim result [
        | inl (stale, e) ↦ let q : db ≡ db' = ground arith in inl (rw (← q) (refl, refl, refl))
        | inr (fresh, e) ↦
            elim (Option-cases (
              delete_objects l kind allow (next_version row.version) (key ∷ keys)
                (set_version db l row (next_version row.version)))) [
                  | inl denied ↦
                      let q : db ≡ db' = ground arith in inl (rw (← q) (refl, refl, refl))
                  | inr (tx, loop) ↦
                      let q : tx ≡ db' = ground arith in
                      inr (
                        row,
                        found,
                        rw (← q) (delete_objects-Touched _ _ _ tx (l.get, (kind, key)) loop).0,
                        λ k _. rw (← q) (delete_objects-Touched _ _ _ tx k loop).1,
                      )
                ]
      ]
