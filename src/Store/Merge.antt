-- ===== src/Store/Merge.antt =====
-- What a written object holds, field by field.
use zhost.Prelude.{
  ℕ, ◌≡◌, refl, ◌∙◌, ap, Option, none, some, arith, ◌==◌, if◌then◌else◌, String, string_eq,
}
use text.Mathlib.TextEquality.{eq_iff}
use zhost.Json.{
  Value, obj, null, bool, num, arr, str, Fields, end, field, get, get_field, insert, from_int,
}
use zhost.Json.Laws.{get_field-insert}
use zhost.Json.Distinct.{Distinct, or_else}
use zhost.Prelude.Int.{ℤ}
use zhost.Db.{Db}
use zhost.Store.Objects.{WriteCall, new_object, stamp, merge, overlay, stored_json, provided_key}

overlay-get_field :
    (f : String) (base fields : Fields)
    → Distinct fields
    → get_field f (overlay base fields) ≡ or_else (get_field f fields) (get_field f base)
unfolding overlay get_field
overlay-get_field f base end h = refl
overlay-get_field f base (field k v fields) h = ground (
  arith,
  overlay-get_field f (insert k v base) fields h.1,
  get_field-insert k f v base,
  eq_iff k f,
  h.0,
)

-- The field of the previous object.
abbrev pub previous : String → Option Value → Option Value
previous f none = none
previous f (some v) = get f v

merge-get :
    (f : String) (existing : Option Value) (fields : Fields)
    → Distinct fields
    → get f (merge existing (obj fields)) ≡ or_else (get_field f fields) (previous f existing)
unfolding merge
merge-get f none fields h = ground arith
merge-get f (some (obj base)) fields h = overlay-get_field f base fields h
merge-get f (some null) fields h = ground arith
merge-get f (some (bool b)) fields h = ground arith
merge-get f (some (num n)) fields h = ground arith
merge-get f (some (str s)) fields h = ground arith
merge-get f (some (arr a)) fields h = ground arith

stamp-get :
    (key f : String) (version : ℤ) (v : Value) (fields : Fields)
    → v ≡ obj fields
    → get f (stamp key version v) ≡ (
        if "version" == f
        then some (from_int version)
        else if "key" == f
        then some (str key)
        else get f v)
unfolding stamp
stamp-get key f version v fields e = rw e (
    ground (
      arith,
      get_field-insert "version" f (from_int version) (insert "key" (str key) fields),
      get_field-insert "key" f (str key) fields,
    ))

merge-is_object :
    (existing : Option Value) (fields : Fields)
    → (out : Fields) × (merge existing (obj fields) ≡ obj out)
unfolding merge
merge-is_object none fields = (fields, refl)
merge-is_object (some (obj base)) fields = (overlay base fields, refl)
merge-is_object (some null) fields = (fields, refl)
merge-is_object (some (bool b)) fields = (fields, refl)
merge-is_object (some (num n)) fields = (fields, refl)
merge-is_object (some (str s)) fields = (fields, refl)
merge-is_object (some (arr a)) fields = (fields, refl)

-- A write of an object with different field names merges it into the stored one: the version is
-- the one of the write, the key is the provided or generated one, and any other field is the
-- provided one, or the stored one where none is provided.
pub new_object-get :
    (c : WriteCall) (db : Db) (index : ℕ) (fields : Fields) (f : String)
    → Distinct fields
    → get f (new_object c db index (obj fields)) ≡ (
        if "version" == f
        then some (from_int c.version)
        else if "key" == f
        then some (str (provided_key c index (obj fields)))
        else or_else
            (get_field f fields)
            (previous f (stored_json c db (provided_key c index (obj fields)))))
unfolding new_object
new_object-get c db index fields f distinct =
    let key = provided_key c index (obj fields) in
    let existing = stored_json c db key in
    let (out, e) = merge-is_object existing fields in
    stamp-get key f c.version (merge existing (obj fields)) out e
    ∙ ap
        (λ (x : Option Value).
          if "version" == f
          then some (from_int c.version)
          else if "key" == f
          then some (str key)
          else x)
        (merge-get f existing fields distinct)
