-- ===== src/Json/Laws.antt =====
-- The map laws of the fields of a JSON object.
use text.Mathlib.TextEquality.{eq_iff}
use zhost.Prelude.{String, some, ◌==◌, if◌then◌else◌, ◌≡◌, ◌≢◌, refl, arith, is_some, string_eq}
use zhost.Json.{Value, Fields, end, field, get_field, insert, contains_key}

pub get_field-insert :
    (k j : String) (v : Value) (fs : Fields)
    → get_field j (insert k v fs) ≡ (if k == j then some v else get_field j fs)
unfolding get_field insert
get_field-insert k j v end = refl
get_field-insert k j v (field i w fs) =
    ground (arith, eq_iff k j, eq_iff i k, eq_iff i j, get_field-insert k j v fs)

pub get_field-insert_self :
    (k : String) (v : Value) (fs : Fields) → get_field k (insert k v fs) ≡ some v
get_field-insert_self k v fs = ground (arith, eq_iff k k, get_field-insert k k v fs)

pub get_field-insert_ne :
    (k j : String) (v : Value) (fs : Fields) → k ≢ j → get_field j (insert k v fs) ≡ get_field j fs
get_field-insert_ne k j v fs h = ground (arith, eq_iff k j, get_field-insert k j v fs)

pub contains_key-get_field :
    (k : String) (fs : Fields) → contains_key k fs ≡ is_some (get_field k fs)
unfolding get_field contains_key
contains_key-get_field k end = refl
contains_key-get_field k (field j v fs) = ground (arith, contains_key-get_field k fs)
