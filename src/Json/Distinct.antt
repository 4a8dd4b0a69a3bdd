-- ===== src/Json/Distinct.antt =====
-- A map's fields have different names.
use zhost.Prelude.{◌≡◌, Option, none, some, string_eq}
use zhost.Json.{Fields, end, field, get_field}

abbrev pub Distinct : Fields → Type 0
Distinct end = Unit {0}
Distinct (field k v fs) = (get_field k fs ≡ none) × Distinct fs

-- `a.or(b)`.
abbrev pub or_else {ℓ} : {A : Type ℓ} → Option A → Option A → Option A
or_else none b = b
or_else (some a) b = some a
