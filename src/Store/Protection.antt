-- ===== src/Store/Protection.antt =====
-- Stored-file attachments under writes by a caller who may not write files.
use zhost.Prelude.{
  ℕ, ◌+◌, ◌≡◌, ◌⊎◌, ◌∙◌, inl, inr, refl, ap, sym, Option, arith, pair_eq, string_eq, eq_cases,
  false, List, [], ◌∷◌, String, is_some_and,
}
use text.Mathlib.TextEquality.{eq_iff}
use zhost.Prelude.Int.{ℤ, int_eq}
use zhost.Prelude.Table.{lookup, lookup-upsert_self, lookup-upsert_ne}
use zhost.Json.{Value, Fields, end}
use zhost.Domain.{LibraryId}
use zhost.Db.{Db, Object, ObjectKey, ItemKey, ok}
use zhost.Store.{is_stored_file_attachment}
use zhost.Store.Objects.{
  Supplies, wrote, BatchResult-cases, WriteCall, put_object, write_object, write_objects,
  object_key, stored_json, provided_key, new_object, write, ObjectMutation, is_denied, json_of,
}
use zhost.Store.Written.{write-cases}
use zhost.Store.Attachments.{stored_at, write_object-put}

-- The item is as it was, or it is no stored-file attachment before and after.
abbrev pub Protected : ItemKey → Db → Db → Type 0
Protected k db db' =
    (lookup (k.0, ("item", k.1)) db'.object ≡ lookup (k.0, ("item", k.1)) db.object)
    ⊎ ((stored_at db k ≡ false) × (stored_at db' k ≡ false))

same_stored :
    (k : ItemKey) (db db' : Db)
    → lookup (k.0, ("item", k.1)) db'.object ≡ lookup (k.0, ("item", k.1)) db.object
    → stored_at db' k ≡ stored_at db k
same_stored k db db' e =
    ap (λ (x : Option Object). is_some_and is_stored_file_attachment (json_of x)) e

Protected-trans : (k : ItemKey) (a b c : Db) → Protected k a b → Protected k b c → Protected k a c
Protected-trans k a b c (inl h) (inl g) = inl (g ∙ h)
Protected-trans k a b c (inl h) (inr (f, g)) = inr (sym (same_stored k a b h) ∙ f, g)
Protected-trans k a b c (inr (f, g)) (inl h) = inr (f, same_stored k b c h ∙ g)
Protected-trans k a b c (inr (f, _)) (inr (_, g)) = inr (f, g)

put_object-Protected :
    (c : WriteCall) (db : Db) (key : String) (object : Value) (k : ItemKey)
    → c.allow_stored_file_write ≡ false
    → is_denied c (stored_json c db key) object ≡ false
    → Protected k db (put_object c db key (stored_json c db key) object)
unfolding put_object is_denied
put_object-Protected c db key object k unable granted =
    elim (eq_cases (object_key c.library_id c.kind key) (k.0, ("item", k.1))) [
      | inr other ↦ inl (lookup-upsert_ne _ _ _ db.object other)
      | inl same ↦
          let kind : c.kind ≡ "item" = ap (λ (x : ObjectKey). x.1.0) same in
          let before : is_some_and is_stored_file_attachment (stored_json c db key) ≡ false =
            ground (arith, eq_iff c.kind "item") in
          let after : is_stored_file_attachment object ≡ false =
            ground (arith, eq_iff c.kind "item") in
          inr (
            rw (← same) before,
            rw (← same, lookup-upsert_self (object_key c.library_id c.kind key) _ db.object) after,
          )
    ]

write_objects-Protected :
    (c : WriteCall) (index : ℕ) (batch : List Value) (db db' : Db) (s s' : Fields) (k : ItemKey)
    → c.allow_stored_file_write ≡ false
    → write_objects c index batch (db, s) ≡ wrote (db', s')
    → Protected k db db'
unfolding write_objects
write_objects-Protected c index [] db db' s s' k unable e =
    let q : db ≡ db' = cc in rw (← q) (inl refl)
write_objects-Protected c index (provided ∷ batch) db db' s s' k unable e =
    elim (BatchResult-cases (write_object c index provided (db, s))) [
      | inl denied ↦ absurd (ground arith)
      | inr ((db1, s1), w) ↦
          let e' : write_objects c (index + 1) batch (db1, s1) ≡ wrote (db', s') = ground arith in
          let (granted, put) = write_object-put c index provided db db1 s s1 w in
          Protected-trans k db db1 db'
            (rw put (
              put_object-Protected c db (provided_key c index provided)
                (new_object c db index provided) k unable granted))
            (write_objects-Protected c (index + 1) batch db1 db' s1 s' k unable e')
    ]

-- A write by a caller who may not write files keeps every stored-file attachment of every library
-- as it is and makes no item one: an item that the write changes is none before and after it.
pub write-Protected :
    (l : LibraryId) (kind : String) (supplies : Supplies) (db db' : Db) (batch : List Value)
    (expected : Option ℤ) (out : ObjectMutation (ℤ × Fields)) (k : ItemKey)
    → write l kind false supplies db batch expected ≡ ok (db', out)
    → Protected k db db'
write-Protected l kind supplies db db' batch expected out k e =
    elim (write-cases l kind false supplies db db' batch expected out e) [
      | inl same ↦ rw same (inl refl)
      | inr (row, s, loop) ↦ write_objects-Protected _ 0 batch _ db' end s k refl loop
    ]
