-- ===== src/Store/Guard.antt =====
-- What the version guard answers, and that a refused write changes nothing.
use zhost.Prelude.{◌≡◌, ◌⊎◌, inl, inr, arith, Option, some, true, false, Bool-cases}
use zhost.Prelude.Int.{ℤ, int_eq}
use zhost.Prelude.Table.{lookup}
use zhost.Domain.{LibraryId}
use zhost.Db.{Db, Library, Result, ok, bind-eq-ok, fetch_one-eq-ok, fetch_one, ◌>>=◌}
use zhost.Store.{
  Outcome, done, conflict, is_stale, next_version, set_version, guarded_version, at_next_version,
  no_change,
}

abbrev pub Guarded : Db → LibraryId → Option ℤ → Db × Outcome ℤ → Type 0
Guarded db library_id expected g =
    (row : Library) × (lookup library_id.get db.library ≡ some row)
    × (((is_stale expected row.version ≡ true) × (g ≡ (db, conflict row.version)))
        ⊎ ((is_stale expected row.version ≡ false)
            × (g ≡ (
              set_version db library_id row (next_version row.version),
              done (next_version row.version),
            ))))

pub guarded_version-Guarded :
    (db : Db) (library_id : LibraryId) (expected : Option ℤ) (g : Db × Outcome ℤ)
    → guarded_version db library_id expected ≡ ok g
    → Guarded db library_id expected g
unfolding guarded_version
guarded_version-Guarded db library_id expected g h =
    let (row, found, body) = bind-eq-ok (fetch_one (lookup library_id.get db.library)) _ h in
    (
      row,
      fetch_one-eq-ok _ found,
      elim (Bool-cases (is_stale expected row.version)) [
        | inl stale ↦ inl (stale, ground arith)
        | inr fresh ↦ inr (fresh, ground arith)
      ],
    )

-- Either nothing is committed, or the change runs once on the database with the next version.
pub at_next_version-eq :
    (db db' : Db) (library_id : LibraryId) (expected : Option ℤ) (change : ℤ → Db → Db)
    (out : Outcome ℤ)
    → at_next_version db library_id expected change ≡ ok (db', out)
    → (row : Library) × (lookup library_id.get db.library ≡ some row)
      × (((is_stale expected row.version ≡ true) × (db' ≡ db) × (out ≡ conflict row.version))
          ⊎ ((is_stale expected row.version ≡ false)
              × (db'
                  ≡ change
                      (next_version row.version)
                      (set_version db library_id row (next_version row.version)))
              × (out ≡ done (next_version row.version))))
unfolding at_next_version
at_next_version-eq db db' library_id expected change out h =
    let (g, guarded, body) = bind-eq-ok (guarded_version db library_id expected) _ h in
    let (row, found, result) = guarded_version-Guarded db library_id expected g guarded in
    (
      row,
      found,
      elim result [
        | inl (stale, e) ↦ inl (stale, ground arith, ground arith)
        | inr (fresh, e) ↦ inr (fresh, ground arith, ground arith)
      ],
    )

-- A call without anything to write.
pub no_change-same {ℓ} :
    {A : Type ℓ} (db db' : Db) (library_id : LibraryId) (expected : Option ℤ) (f : Outcome ℤ → A)
    (out : A)
    → ◌>>=◌ {U = Db × A} (no_change db library_id expected) (λ outcome. ok (db, f outcome))
      ≡ ok (db', out)
    → db' ≡ db
no_change-same {A = A} db db' library_id expected f out h =
    let (outcome, _, body) =
      bind-eq-ok {U = Db × A} (no_change db library_id expected) (λ outcome. ok (db, f outcome))
        h in
    same body
  where
    same : {a b : A} → ◌≡◌ {A = Result (Db × A)} (ok (db, a)) (ok (db', b)) → db' ≡ db
    same e = cc
