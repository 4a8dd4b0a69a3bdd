-- ===== src/Query/Bounds.antt =====
-- The window that an item query asks for.
use zhost.Prelude.{inl, inr, Option, arith, String, Option-cases, and_then}
use zhost.Prelude.Int.{pos, ◌≤ℤ◌}
use zhost.Prelude.Text.{parse_i64}
use zhost.Query.{Params, from_params, parse_limit, parse_start, get}

parse_limit-bounds :
    (value : Option String) → (pos 1 ≤ℤ parse_limit value) × (parse_limit value ≤ℤ pos 100)
unfolding parse_limit
parse_limit-bounds value = elim (Option-cases (and_then value parse_i64)) [
  | inl absent ↦ (ground arith, ground arith)
  | inr (n, e) ↦ (ground arith, ground arith)
]

parse_start-bounds : (value : Option String) → pos 0 ≤ℤ parse_start value
unfolding parse_start
parse_start-bounds value = elim (Option-cases (and_then value parse_i64)) [
  | inl absent ↦ ground arith
  | inr (n, e) ↦ ground arith
]

-- Whatever the parameters are, the query asks for 1 to 100 items from a position that is not
-- negative.
pub from_params-bounds :
    (params : Params)
    → (pos 1 ≤ℤ (from_params params).limit)
      × ((from_params params).limit ≤ℤ pos 100)
      × (pos 0 ≤ℤ (from_params params).start)
unfolding from_params
from_params-bounds params = (
  (parse_limit-bounds (get params "limit")).0,
  (parse_limit-bounds (get params "limit")).1,
  parse_start-bounds (get params "start"),
)
