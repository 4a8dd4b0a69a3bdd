-- ===== src/Store/Written.antt =====
-- Inversion of `write` and `delete`: nothing is committed, or every object of the call is.
use zhost.Prelude.{
  ◌≡◌, ◌⊎◌, inl, inr, Option, some, arith, Bool, List, [], ◌∷◌, String, Option-cases,
}
use zhost.Prelude.Int.{ℤ, int_eq}
use zhost.Json.{Value, Fields, end}
use zhost.Domain.{LibraryId}
use zhost.Db.{Db, Library, ok, bind-eq-ok}
use zhost.Store.{next_version, set_version, guarded_version, no_change}
use zhost.Store.Guard.{guarded_version-Guarded}
use zhost.Store.Objects.{
  Supplies, wrote, BatchResult-cases, write_objects, delete_objects, delete_keys, write, write_call,
  ObjectMutation,
}

module _ (l : LibraryId) (kind : String) (allow : Bool) where
  pub write-cases :
      (supplies : Supplies) (db db' : Db) (batch : List Value) (expected : Option ℤ)
      (out : ObjectMutation (ℤ × Fields))
      → write l kind allow supplies db batch expected ≡ ok (db', out)
      → (db' ≡ db)
        ⊎ ((row : Library) × (s : Fields) × (write_objects
                (write_call l kind allow (next_version row.version) supplies)
                0
                batch
                (set_version db l row (next_version row.version), end)
              ≡ wrote (db', s)))
  unfolding write
  write-cases supplies db db' [] expected out h =
      let (outcome, _, body) = bind-eq-ok (no_change db l expected) _ h in
      let q : db' ≡ db = cc in inl q
  write-cases supplies db db' (provided ∷ batch) expected out h =
      let (g, guarded, body) = bind-eq-ok (guarded_version db l expected) _ h in
      let (row, found, result) = guarded_version-Guarded db l expected g guarded in
      elim result [
        | inl (stale, e) ↦ inl (ground arith)
        | inr (fresh, e) ↦
            elim (BatchResult-cases (
              write_objects (write_call l kind allow (next_version row.version) supplies) 0
                (provided ∷ batch) (set_version db l row (next_version row.version), end))) [
                  | inl none_left ↦ inl (ground arith)
                  | inr ((tx, s), loop) ↦
                      let q : tx ≡ db' = ground arith in inr (row, s, rw (← q) loop)
                ]
      ]

  pub delete_keys-cases :
      (db db' : Db) (keys : List String) (expected : Option ℤ) (out : ObjectMutation ℤ)
      → delete_keys l kind allow db keys expected ≡ ok (db', out)
      → (db' ≡ db)
        ⊎ ((row : Library) × (delete_objects l kind allow
                (next_version row.version)
                keys
                (set_version db l row (next_version row.version))
              ≡ some db'))
  unfolding delete_keys
  delete_keys-cases db db' [] expected out h =
      let (outcome, _, body) = bind-eq-ok (no_change db l expected) _ h in
      let q : db' ≡ db = cc in inl q
  delete_keys-cases db db' (key ∷ keys) expected out h =
      let (g, guarded, body) = bind-eq-ok (guarded_version db l expected) _ h in
      let (row, found, result) = guarded_version-Guarded db l expected g guarded in
      elim result [
        | inl (stale, e) ↦ inl (ground arith)
        | inr (fresh, e) ↦
            elim (Option-cases (
              delete_objects l kind allow (next_version row.version) (key ∷ keys)
                (set_version db l row (next_version row.version)))) [
                  | inl none_left ↦ inl (ground arith)
                  | inr (tx, loop) ↦ let q : tx ≡ db' = ground arith in inr (row, rw (← q) loop)
                ]
      ]
