-- ===== src/Store/Ordering.antt =====
-- What looking a field up finds after the fields of an item are reordered.
use zhost.Prelude.{
  ◌≡◌, ◌≢◌, ◌∙◌, refl, ap, Option, none, some, arith, true, false, String, any, if◌then◌else◌,
  string_eq, eq_cases, Bool-cases, Option-cases, inl, inr,
}
use text.Mathlib.TextEquality.{eq_iff}
use zhost.Json.{Value, obj, Fields, end, field, get, get_field, insert, contains_key}
use zhost.Json.Laws.{get_field-insert_ne, get_field-insert_self}
use zhost.Json.Distinct.{Distinct, or_else}
use zhost.Store.Objects.{order_fields, insert_firsts, insert_others, first, is_first}

skip :
    (j : String) (v : Value) (map ordered : Fields)
    → is_first j ≡ true
    → insert_others (field j v map) ordered ≡ insert_others map ordered
unfolding insert_others
skip j v map ordered leads = rw leads refl

place :
    (j : String) (v : Value) (map ordered : Fields)
    → is_first j ≡ false
    → insert_others (field j v map) ordered ≡ insert_others map (insert j v ordered)
unfolding insert_others
place j v map ordered follows = rw follows refl

-- The leading fields are not touched again.
first-get :
    (k : String) (map ordered : Fields)
    → is_first k ≡ true
    → get_field k (insert_others map ordered) ≡ get_field k ordered
unfolding insert_others
first-get k end ordered h = refl
first-get k (field j v map) ordered h = elim (Bool-cases (is_first j)) [
  | inl leads ↦ ap (get_field k) (skip j v map ordered leads) ∙ first-get k map ordered h
  | inr follows ↦
      ap (get_field k) (place j v map ordered follows)
      ∙ (first-get k map (insert j v ordered) h
          ∙ get_field-insert_ne j k v ordered (λ e. unlike j k e follows h))
]
  where
    unlike : (j k : String) → j ≡ k → is_first j ≡ false → is_first k ≡ true → ⊥
    unlike j k e f g = cc (ap is_first e)

cons-get :
    (k j : String) (v : Value) (map : Fields)
    → j ≢ k
    → get_field k (field j v map) ≡ get_field k map
unfolding get_field
cons-get k j v map h = ground (arith, eq_iff j k)

cons-get_self :
    (k j : String) (v : Value) (map : Fields) → j ≡ k → get_field k (field j v map) ≡ some v
unfolding get_field
cons-get_self k j v map h = ground (arith, eq_iff j k)

end-get :
    (k : String) (ordered : Fields)
    → get_field k ordered ≡ or_else (get_field k end) (get_field k ordered)
unfolding get_field
end-get k ordered = refl

other-get :
    (k : String) (map ordered : Fields)
    → Distinct map
    → is_first k ≡ false
    → get_field k (insert_others map ordered) ≡ or_else (get_field k map) (get_field k ordered)
unfolding insert_others
other-get k end ordered d h = end-get k ordered
other-get k (field j v map) ordered d h = elim (eq_cases j k) [
  | inl same ↦
      let absent : get_field k map ≡ none = rw (← same) d.0 in
      let follows : is_first j ≡ false = rw same h in
      let later = other-get k map (insert j v ordered) d.1 h in
      let here : get_field k (insert j v ordered) ≡ some v =
        rw same (get_field-insert_self k v ordered) in
      ap (get_field k) (place j v map ordered follows)
      ∙ rw (later, absent, here, cons-get_self k j v map same) refl
  | inr other ↦ elim (Bool-cases (is_first j)) [
    | inl leads ↦
        ap (get_field k) (skip j v map ordered leads)
        ∙ rw (other-get k map ordered d.1 h, cons-get k j v map other) refl
    | inr follows ↦
        ap (get_field k) (place j v map ordered follows)
        ∙ rw
            (
              other-get k map (insert j v ordered) d.1 h,
              cons-get k j v map other,
              get_field-insert_ne j k v ordered other,
            )
            refl
  ]
]

firsts-get :
    (k : String) (map : Fields)
    → get_field k (insert_firsts first map end) ≡ (if is_first k then get_field k map else none)
unfolding insert_firsts get_field insert
firsts-get k map = elim (Option-cases (get_field "annotationType" map)) [
  | inl no_type ↦ elim (Option-cases (get_field "linkMode" map)) [
    | inl no_mode ↦ ground (arith, eq_iff "annotationType" k, eq_iff "linkMode" k)
    | inr (m, e) ↦ ground (arith, eq_iff "annotationType" k, eq_iff "linkMode" k)
  ]
  | inr (t, e) ↦ elim (Option-cases (get_field "linkMode" map)) [
    | inl no_mode ↦ ground (arith, eq_iff "annotationType" k, eq_iff "linkMode" k)
    | inr (m, e') ↦ ground (arith, eq_iff "annotationType" k, eq_iff "linkMode" k)
  ]
]

or_none : (o : Option Value) → or_else o none ≡ o
or_none none = refl
or_none (some v) = refl

-- Reordering the fields of an object whose names differ keeps each field and adds none.
pub order_fields-get :
    (k : String) (map : Fields) → Distinct map → get k (order_fields (obj map)) ≡ get_field k map
unfolding order_fields
order_fields-get k map h = elim (Bool-cases (any (λ j. contains_key j map) first)) [
  | inr plain ↦ ground arith
  | inl leading ↦
      let some_first = insert_firsts first map end in
      let ordered : order_fields (obj map) ≡ obj (insert_others map some_first) = rw leading refl in
      ap (get k) ordered ∙ elim (Bool-cases (is_first k)) [
        | inl leads ↦ first-get k map some_first leads ∙ (firsts-get k map ∙ rw leads refl)
        | inr follows ↦
            let nothing : get_field k some_first ≡ none = firsts-get k map ∙ rw follows refl in
            other-get k map some_first h follows ∙ rw nothing (or_none (get_field k map))
      ]
]
