-- ===== src/Store/Answers.antt =====
-- What the answers of `write` and `delete` say of the versions before and after the call.
use zhost.Prelude.{
  ◌≡◌, ◌≢◌, inl, inr, refl, ◌∙◌, ap, sym, ◌⊎◌, some, arith, Bool, true, false, List, [], ◌∷◌,
  String, Option-cases, Bool-cases,
}
use zhost.Prelude.Int.{ℤ, int_eq, beq_ℤ_iff}
use zhost.Prelude.Table.{lookup, lookup-upsert_self}
use zhost.Json.{Value, Fields, end}
use zhost.Domain.{LibraryId}
use zhost.Db.{Db, Library, ok, bind-eq-ok}
use zhost.Store.{
  Outcome, is_stale, current_version, next_version, set_version, guarded_version, no_change,
}
use zhost.Store.Guard.{guarded_version-Guarded}
use zhost.Store.Objects.{
  Supplies, BatchResult-cases, write_objects, delete_objects, delete_keys, write, write_call,
  ObjectMutation, done, conflict, file_write_denied,
}
use zhost.Sync.Objects.{write_objects-library}
use zhost.Sync.Deletes.{delete_objects-Touched}

is_stale-fresh : (e current : ℤ) → is_stale (some e) current ≡ false → current ≡ e
is_stale-fresh e current h = ground (arith, beq_ℤ_iff e current)

is_stale-old : (e current : ℤ) → is_stale (some e) current ≡ true → current ≢ e
is_stale-old e current h = ground (arith, beq_ℤ_iff e current)

current_version-row :
    (db : Db) (l : LibraryId) (row : Library)
    → lookup l.get db.library ≡ some row
    → current_version db l ≡ ok row.version
unfolding current_version
current_version-row db l row found = rw found refl

-- What a mutation answered, against the version that was expected.
abbrev pub Answered {ℓ} :
    {A : Type ℓ} → (A → ℤ) → Db → LibraryId → ℤ → Db → ObjectMutation A → Type 0
Answered version db l e db' (done a) =
    (current_version db l ≡ ok e) × (current_version db' l ≡ ok (version a))
Answered version db l e db' (conflict c) = (db' ≡ db) × (current_version db l ≡ ok c) × (c ≢ e)
Answered version db l e db' file_write_denied = db' ≡ db

no_change-cases :
    (db : Db) (l : LibraryId) (e : ℤ) (outcome : Outcome ℤ)
    → no_change db l (some e) ≡ ok outcome
    → (current : ℤ) × (current_version db l ≡ ok current)
      × (((outcome ≡ Outcome.conflict current) × (current ≢ e))
          ⊎ ((outcome ≡ Outcome.done current) × (current ≡ e)))
unfolding no_change
no_change-cases db l e outcome h =
    let (current, found, body) = bind-eq-ok (current_version db l) _ h in
    (
      current,
      found,
      elim (Bool-cases (is_stale (some e) current)) [
        | inl stale ↦ inl (ground arith, is_stale-old e current stale)
        | inr fresh ↦ inr (ground arith, is_stale-fresh e current fresh)
      ],
    )

module _ (l : LibraryId) (kind : String) (allow : Bool) where
  committed_version :
      (db db' : Db) (row : Library) (v : ℤ)
      → db'.library ≡ (set_version db l row v).library
      → current_version db' l ≡ ok v
  committed_version db db' row v same =
      current_version-row db' l (record row { version = v })
        (ap (lookup l.get) same ∙ lookup-upsert_self l.get _ db.library)

  pub write-Answered :
      (supplies : Supplies) (db db' : Db) (batch : List Value) (e : ℤ)
      (out : ObjectMutation (ℤ × Fields))
      → write l kind allow supplies db batch (some e) ≡ ok (db', out)
      → Answered (λ a. a.0) db l e db' out
  unfolding write
  write-Answered supplies db db' [] e out h =
      let (outcome, checked, body) = bind-eq-ok (no_change db l (some e)) _ h in
      let same : db ≡ db' = cc in
      let (current, found, result) = no_change-cases db l e outcome checked in
      elim result [
        | inl (q, old) ↦
            let a : conflict current ≡ out = ground arith in rw (← a) (sym same, found, old)
        | inr (q, now) ↦
            let a : done (current, end) ≡ out = ground arith in
            rw (← a, ← same, ← now) (found, found)
      ]
  write-Answered supplies db db' (provided ∷ batch) e out h =
      let (g, guarded, body) = bind-eq-ok (guarded_version db l (some e)) _ h in
      let (row, found, result) = guarded_version-Guarded db l (some e) g guarded in
      elim result [
        | inl (stale, q) ↦
            let same : db ≡ db' = ground arith in
            let a : conflict row.version ≡ out = ground arith in
            rw (← a)
              (sym same, current_version-row db l row found, is_stale-old e row.version stale)
        | inr (fresh, q) ↦
            elim (BatchResult-cases (
              write_objects (write_call l kind allow (next_version row.version) supplies) 0
                (provided ∷ batch) (set_version db l row (next_version row.version), end))) [
                  | inl none_left ↦
                      let a : file_write_denied ≡ out = ground arith in
                      let same : db ≡ db' = ground arith in rw (← a) (sym same)
                  | inr ((tx, s), loop) ↦
                      let a : done (next_version row.version, s) ≡ out = ground arith in
                      let same : tx ≡ db' = ground arith in
                      let current : current_version db l ≡ ok e =
                        rw (← is_stale-fresh e row.version fresh)
                          (current_version-row db l row found) in
                      rw (← a, ← same)
                        (
                          current,
                          committed_version db tx row (next_version row.version)
                              (write_objects-library _ 0 (provided ∷ batch) _ tx end s loop),
                        )
                ]
      ]

  pub delete_keys-Answered :
      (db db' : Db) (keys : List String) (e : ℤ) (out : ObjectMutation ℤ)
      → delete_keys l kind allow db keys (some e) ≡ ok (db', out)
      → Answered (λ v. v) db l e db' out
  unfolding delete_keys
  delete_keys-Answered db db' [] e out h =
      let (outcome, checked, body) = bind-eq-ok (no_change db l (some e)) _ h in
      let same : db ≡ db' = cc in
      let (current, found, result) = no_change-cases db l e outcome checked in
      elim result [
        | inl (q, old) ↦
            let a : conflict current ≡ out = ground arith in rw (← a) (sym same, found, old)
        | inr (q, now) ↦
            let a : done current ≡ out = ground arith in rw (← a, ← same, ← now) (found, found)
      ]
  delete_keys-Answered db db' (key ∷ keys) e out h =
      let (g, guarded, body) = bind-eq-ok (guarded_version db l (some e)) _ h in
      let (row, found, result) = guarded_version-Guarded db l (some e) g guarded in
      elim result [
        | inl (stale, q) ↦
            let same : db ≡ db' = ground arith in
            let a : conflict row.version ≡ out = ground arith in
            rw (← a)
              (sym same, current_version-row db l row found, is_stale-old e row.version stale)
        | inr (fresh, q) ↦
            let v = next_version row.version in
            elim (Option-cases
              (delete_objects l kind allow v (key ∷ keys) (set_version db l row v))) [
                | inl none_left ↦
                    let a : file_write_denied ≡ out = ground arith in
                    let same : db ≡ db' = ground arith in rw (← a) (sym same)
                | inr (tx, loop) ↦
                    let a : done v ≡ out = ground arith in
                    let same : tx ≡ db' = ground arith in
                    let current : current_version db l ≡ ok e =
                      rw (← is_stale-fresh e row.version fresh)
                        (current_version-row db l row found) in
                    let (library, _) =
                      delete_objects-Touched l kind allow v (key ∷ keys) _ tx (l.get, ("", ""))
                        loop in
                    rw (← a, ← same) (current, committed_version db tx row v library)
              ]
      ]
