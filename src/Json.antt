-- ===== src/Json.antt =====
-- JSON values as the server keeps them: `serde_json::Value`, whose `Map` keeps the order of its
-- fields (`preserve_order`). `insert` overwrites in place and appends a new field at the end.
pub mod Laws
pub mod Distinct
use zhost.Prelude.{
  ℕ, String, Bool, true, false, Option, none, some, ◌==◌, ◌||◌, if◌then◌else◌, string_eq,
}
use zhost.Prelude.Int.{ℤ}

-- `float` holds the bits of the IEEE number.
pub data Number : Type 0 where
  int : ℤ → Number
  float : ℕ → Number

mutual
  pub data Value : Type 0 where
    null : Value
    bool : Bool → Value
    num : Number → Value
    str : String → Value
    obj : Fields → Value
    arr : Items → Value

  pub data Fields : Type 0 where
    end : Fields
    field : String → Value → Fields → Fields

  pub data Items : Type 0 where
    nil : Items
    cons : Value → Items → Items

unfoldable pub get_field : String → Fields → Option Value
get_field k end = none
get_field k (field j v fs) = if j == k then some v else get_field k fs

unfoldable pub insert : String → Value → Fields → Fields
insert k v end = field k v end
insert k v (field j w fs) = if j == k then field j v fs else field j w (insert k v fs)

unfoldable pub contains_key : String → Fields → Bool
contains_key k end = false
contains_key k (field j v fs) = (j == k) || contains_key k fs

-- `Value::get`.
abbrev pub get : String → Value → Option Value
get k (obj fs) = get_field k fs
get k v = none

abbrev pub as_str : Value → Option String
as_str (str s) = some s
as_str v = none

-- `value.get(k).and_then(Value::as_str)`.
unfoldable pub str_of : String → Value → Option String
str_of k v = elim (get k v) [ none ↦ none | some w ↦ as_str w ]

abbrev pub as_bool : Value → Option Bool
as_bool (bool b) = some b
as_bool v = none

abbrev pub from_int : ℤ → Value
from_int n = num (int n)
