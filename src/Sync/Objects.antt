-- ===== src/Sync/Objects.antt =====
-- What writing objects touches and stamps.
use zhost.Prelude.{
  ℕ, ◌+◌, ◌≡◌, inl, inr, refl, ◌∙◌, Option, arith, pair_eq, string_eq, eq_cases, Bool, List, [],
  ◌∷◌, String,
}
use zhost.Prelude.Int.{ℤ, int_eq}
use zhost.Prelude.Table.{lookup-upsert_self, lookup-upsert_ne, lookup-delete_ne}
use zhost.Json.{Value, Fields, end}
use zhost.Domain.{LibraryId}
use zhost.Db.{Db, ObjectKey, ok, bind-eq-ok}
use zhost.Store.{next_version, set_version, guarded_version, no_change}
use zhost.Store.Guard.{guarded_version-Guarded}
use zhost.Store.Objects.{
  Supplies, wrote, BatchResult-cases, WriteCall, put_object, write_object, write_objects,
  object_key, stored_json, provided_key, new_object, write, write_call, ObjectMutation,
}
use zhost.Sync.{Touched, Touched-trans, Effect}

put_object-Touched :
    (c : WriteCall) (db : Db) (key : String) (existing : Option Value) (object : Value)
    (k : ObjectKey)
    → Touched c.library_id.get c.version k db (put_object c db key existing object)
unfolding put_object
put_object-Touched c db key existing object k =
    elim (eq_cases (object_key c.library_id c.kind key) k) [
      | inl e ↦ rw (← e) (inr (refl, inl (_, lookup-upsert_self _ _ db.object, refl)))
      | inr n ↦ inl (lookup-upsert_ne _ k _ db.object n, lookup-delete_ne _ k db.deletion n)
    ]

write_object-eq :
    (c : WriteCall) (index : ℕ) (provided : Value) (db db' : Db) (s s' : Fields)
    → write_object c index provided (db, s) ≡ wrote (db', s')
    → db'
      ≡ put_object c db
          (provided_key c index provided)
          (stored_json c db (provided_key c index provided))
          (new_object c db index provided)
unfolding write_object
write_object-eq c index provided db db' s s' e = ground arith

pub write_objects-Touched :
    (c : WriteCall) (index : ℕ) (batch : List Value) (db db' : Db) (s s' : Fields) (k : ObjectKey)
    → write_objects c index batch (db, s) ≡ wrote (db', s')
    → Touched c.library_id.get c.version k db db'
unfolding write_objects
write_objects-Touched c index [] db db' s s' k e =
    let q : db ≡ db' = cc in rw (← q) (inl (refl, refl))
write_objects-Touched c index (provided ∷ batch) db db' s s' k e =
    elim (BatchResult-cases (write_object c index provided (db, s))) [
      | inl h ↦ absurd (ground arith)
      | inr ((db1, s1), h) ↦
          let e' : write_objects c (index + 1) batch (db1, s1) ≡ wrote (db', s') = ground arith in
          Touched-trans c.library_id.get c.version k db db1 db'
            (rw (write_object-eq c index provided db db1 s s1 h) (put_object-Touched c db _ _ _ k))
            (write_objects-Touched c (index + 1) batch db1 db' s1 s' k e')
    ]

-- The library's table is the guard's, whatever the loop writes.
put_object-library :
    (c : WriteCall) (db : Db) (key : String) (existing : Option Value) (object : Value)
    → (put_object c db key existing object).library ≡ db.library
unfolding put_object
put_object-library c db key existing object = refl

pub write_objects-library :
    (c : WriteCall) (index : ℕ) (batch : List Value) (db db' : Db) (s s' : Fields)
    → write_objects c index batch (db, s) ≡ wrote (db', s')
    → db'.library ≡ db.library
unfolding write_objects
write_objects-library c index [] db db' s s' e = let q : db ≡ db' = cc in rw (← q)
write_objects-library c index (provided ∷ batch) db db' s s' e =
    elim (BatchResult-cases (write_object c index provided (db, s))) [
      | inl h ↦ absurd (ground arith)
      | inr ((db1, s1), h) ↦
          let e' : write_objects c (index + 1) batch (db1, s1) ≡ wrote (db', s') = ground arith in
          write_objects-library c (index + 1) batch db1 db' s1 s' e'
          ∙ rw (write_object-eq c index provided db db1 s s1 h) (put_object-library c db _ _ _)
    ]

module _ (l : LibraryId) (kind : String) (allow : Bool) where
  pub write-Effect :
      (supplies : Supplies) (db db' : Db) (batch : List Value) (expected : Option ℤ)
      (out : ObjectMutation (ℤ × Fields))
      → write l kind allow supplies db batch expected ≡ ok (db', out)
      → Effect l db db'
  unfolding write
  write-Effect supplies db db' [] expected out h =
      let (outcome, _, body) = bind-eq-ok (no_change db l expected) _ h in
      let q : db ≡ db' = cc in inl (rw (← q) (refl, refl, refl))
  write-Effect supplies db db' (provided ∷ batch) expected out h =
      let (g, guarded, body) = bind-eq-ok (guarded_version db l expected) _ h in
      let (row, found, result) = guarded_version-Guarded db l expected g guarded in
      elim result [
        | inl (stale, e) ↦ let q : db ≡ db' = ground arith in inl (rw (← q) (refl, refl, refl))
        | inr (fresh, e) ↦
            elim (BatchResult-cases (
              write_objects (write_call l kind allow (next_version row.version) supplies) 0
                (provided ∷ batch) (set_version db l row (next_version row.version), end))) [
                  | inl none_left ↦
                      let q : db ≡ db' = ground arith in inl (rw (← q) (refl, refl, refl))
                  | inr ((tx, s), loop) ↦
                      let q : tx ≡ db' = ground arith in
                      inr (
                        row,
                        found,
                        rw (← q) (write_objects-library _ 0 _ _ tx _ s loop),
                        λ k _. rw (← q) (write_objects-Touched _ 0 _ _ tx _ s k loop),
                      )
                ]
      ]
