-- ===== src/Query.antt =====
-- xotero/src/query.rs: parsing of the item query. The urlencoded decoding of the query string is
-- serde_urlencoded's: parameters are the pairs that it gives, none for a string that it refuses.
pub mod Bounds
use zhost.Prelude.{
  ℕ, String, Bool, true, false, ◌&&◌, ◌||◌, Option, none, some, ◌==◌, if◌then◌else◌, string_eq,
  option_eq, List, [], ◌∷◌, map, and_then, unwrap_or, keep_if, retain, is_empty, not, Eq,
}
use Prim.Native.Char.{Char}
use zhost.Prelude.Int.{ℤ, pos, leb_ℤ}
use zhost.Prelude.Text.{chars, from_chars, is_char, is_nonempty, trim, split_bars, parse_i64}

pub record Params : Type 0 where
  pub pairs : List (String × String)

-- `Params::parse`.
unfoldable pub parse : (String → Option (List (String × String))) → Option String → Params
parse from_str raw = record { pairs = unwrap_or [] (and_then raw from_str) }

unfoldable pub find_param : String → List (String × String) → Option String
find_param key [] = none
find_param key ((k, v) ∷ pairs) = if k == key then some v else find_param key pairs

-- `Params::get` and `Params::all`.
unfoldable pub get : Params → String → Option String
unfolding find_param
get params key = find_param key params.pairs

unfoldable pub all_params : String → List (String × String) → List String
all_params key [] = []
all_params key ((k, v) ∷ pairs) =
    if k == key then v ∷ all_params key pairs else all_params key pairs

unfoldable pub all_values : Params → String → List String
unfolding all_params
all_values params key = all_params key params.pairs

pub record TypeFilter : Type 0 where
  pub include : List String
  pub exclude : List String

-- `split("||").map(str::trim).filter(|t| !t.is_empty())`.
unfoldable pub alternatives : String → List String
alternatives value = retain is_nonempty (map trim (split_bars value))

unfoldable pub strip_minus : List Char → Option (List Char)
strip_minus [] = none
strip_minus (c ∷ cs) = if is_char b'-' c then some cs else none

unfoldable pub push_types : List String → TypeFilter
unfolding strip_minus
push_types [] = record { include = []; exclude = [] }
push_types (token ∷ tokens) =
    let rest = push_types tokens in
    elim (strip_minus (chars token)) [
      | none ↦ record rest { include = token ∷ rest.include }
      | some neg ↦ record rest { exclude = trim (from_chars neg) ∷ rest.exclude }
    ]

unfoldable pub parse_types : Option String → TypeFilter
unfolding push_types alternatives
parse_types none = push_types []
parse_types (some value) = push_types (alternatives value)

pub data QMode : Type 0 where
  title_creator_year everything : QMode

unfoldable pub parse_qmode : Option String → QMode
parse_qmode value = if value == some "everything" then everything else title_creator_year

pub data Sort : Type 0 where
  date_modified date_added title creator date item_type : Sort

unfoldable pub parse_sort : Option String → Sort
parse_sort value =
    if value == some "dateAdded"
    then date_added
    else if value == some "title"
    then title
    else if value == some "creator"
    then creator
    else if value == some "date"
    then date
    else if value == some "itemType"
    then item_type
    else date_modified

unfoldable pub order_expr : Sort → String
order_expr date_modified = "data->>'dateModified'"
order_expr date_added = "data->>'dateAdded'"
order_expr title = "data->>'title'"
order_expr creator = "data->'creators'->0->>'lastName'"
order_expr date = "date_year"
order_expr item_type = "item_type"

pub data Direction : Type 0 where
  asc desc : Direction

unfoldable pub parse_direction : Option String → Direction
parse_direction value = if value == some "asc" then asc else desc

unfoldable pub sql : Direction → String
sql asc = "asc"
sql desc = "desc"

abbrev pub default_limit : ℤ
default_limit = pos 25

abbrev pub max_limit : ℤ
max_limit = pos 100

pub record ItemQuery : Type 0 where
  pub q : Option String
  pub qmode : QMode
  pub item_type : TypeFilter
  pub tags : List (List String)
  pub sort : Sort
  pub direction : Direction
  pub limit : ℤ
  pub start : ℤ
  pub include_trashed : Bool
  pub top : Bool
  pub only_trashed : Bool
  pub collection : Option String

abbrev at_most : ℤ → ℤ
at_most n = if leb_ℤ n max_limit then n else max_limit

unfoldable pub parse_limit : Option String → ℤ
parse_limit value =
    unwrap_or default_limit
      (and_then (keep_if (λ n. leb_ℤ (pos 1) n) (and_then value parse_i64)) (λ n. some (at_most n)))

unfoldable pub parse_start : Option String → ℤ
parse_start value = unwrap_or (pos 0) (keep_if (λ n. leb_ℤ (pos 0) n) (and_then value parse_i64))

unfoldable pub from_params : Params → ItemQuery
unfolding parse_limit parse_start parse_types parse_qmode parse_sort parse_direction alternatives
from_params params = record {
  q = keep_if is_nonempty (and_then (get params "q") (λ s. some (trim s)));
  qmode = parse_qmode (get params "qmode");
  item_type = parse_types (get params "itemType");
  tags = retain (λ group. not (is_empty group)) (map alternatives (all_values params "tag"));
  sort = parse_sort (get params "sort");
  direction = parse_direction (get params "direction");
  limit = parse_limit (get params "limit");
  start = parse_start (get params "start");
  include_trashed =
      get params "includeTrashed" == some "1" || get params "includeTrashed" == some "true";
  top = false;
  only_trashed = false;
  collection = none;
}
