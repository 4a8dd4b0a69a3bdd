-- ===== src/Handlers/Paging.antt =====
-- The pages of a listing.
use mathlib.Core.List.{map}
use zhost.Prelude.{
  ℕ, zero, suc, ◌+◌, ◌-◌, ◌^◌, ◌≤◌, ◌<◌, ◌≡◌, ◌↔◌, refl, ◌∙◌, String, true, Option, arith, List, [],
  ◌∷◌, length, take, drop, ltb, if◌then◌else◌,
}
use zhost.Prelude.Int.{pos, ◌<ℤ◌, add_i64, add_i64_pos, add_i64_wraps, pos_part}
use zhost.Domain.{LibraryAccess}
use zhost.Config.{Config}
use zhost.Db.{Db, Object}
use zhost.Query.{ItemQuery}
use zhost.Store.Versions.{object_json}
use zhost.Store.Queries.{Postgres, query_items, matching_items}
use zhost.Handlers.Items.{has_next}

length-take {ℓ} :
    {A : Type ℓ} (n : ℕ) (xs : List A)
    → length (take n xs) ≡ (if ltb n (length xs) then n else length xs)
length-take zero [] = refl
length-take zero (x ∷ xs) = ground arith
length-take (suc n) [] = ground arith
length-take (suc n) (x ∷ xs) = ground (arith, length-take n xs)

length-drop {ℓ} : {A : Type ℓ} (n : ℕ) (xs : List A) → length (drop n xs) ≡ length xs - n
length-drop zero xs = omega arith
length-drop (suc n) [] = omega arith
length-drop (suc n) (x ∷ xs) = omega (arith, length-drop n xs)

length-map {ℓ κ} :
    {A : Type ℓ} {B : Type κ} (f : A → B) (xs : List A) → length (map f xs) ≡ length xs
length-map f [] = refl
length-map f (x ∷ xs) = omega (arith, length-map f xs)

module _ (sql : Postgres) (from_str : String → Option (List (String × String)))
    (to_string : List (String × String) → Option String) (config : Config) (db : Db)
    (access : LibraryAccess) (q : ItemQuery) (s l : ℕ) (start : q.start ≡ pos s)
    (limit : q.limit ≡ pos l) where
  page-length :
      ((rows : List (String × Object))
        → length (sql.order_by q.sort q.direction rows) ≡ length rows)
      → length (query_items sql db access.library_id q access.permissions.notes).0 ≡ (
          if ltb l (length (matching_items sql db access.library_id q access.permissions.notes) - s)
          then l
          else length (matching_items sql db access.library_id q access.permissions.notes) - s)
  unfolding query_items
  page-length keeps =
      let rows = matching_items sql db access.library_id q access.permissions.notes in
      let ordered = sql.order_by q.sort q.direction rows in
      length-map (λ r. object_json r.0 r.1)
        (take (pos_part q.limit) (drop (pos_part q.start) ordered))
      ∙ rw (limit, start)
          (length-take l (drop s ordered) ∙ rw (length-drop s ordered, keeps rows) refl)

  total-length :
      (query_items sql db access.library_id q access.permissions.notes).1
      ≡ pos (length (matching_items sql db access.library_id q access.permissions.notes))
  unfolding query_items
  total-length = refl

-- While a page ends in the range of `i64`, its response links to a next page just if items remain
-- behind the page. Sorting must keep the number of rows.
pub has_next-remaining :
    (sql : Postgres) (from_str : String → Option (List (String × String)))
    (to_string : List (String × String) → Option String) (config : Config) (db : Db)
    (access : LibraryAccess) (q : ItemQuery) (s l : ℕ)
    → q.start ≡ pos s
    → q.limit ≡ pos l
    → s + l < 2 ^ 63
    → ((rows : List (String × Object))
        → length (sql.order_by q.sort q.direction rows) ≡ length rows)
    → (has_next sql from_str to_string config db access q
          (query_items sql db access.library_id q access.permissions.notes).1
        ≡ true)
      ↔ (pos (s + length (query_items sql db access.library_id q access.permissions.notes).0)
          <ℤ (query_items sql db access.library_id q access.permissions.notes).1)
has_next-remaining sql from_str to_string config db access q s l start limit range keeps =
    rw
      (
        page-length sql from_str to_string config db access q s l start limit keeps,
        total-length sql from_str to_string config db access q s l start limit,
        start,
        limit,
        add_i64_pos s l range,
      )
      (ground arith)

-- If the start and the limit of a query leave the range of `i64` together, the response links to a
-- next page with a negative start, however few items there are.
pub has_next-wraps :
    (sql : Postgres) (from_str : String → Option (List (String × String)))
    (to_string : List (String × String) → Option String) (config : Config) (db : Db)
    (access : LibraryAccess) (q : ItemQuery) (s l total : ℕ)
    → q.start ≡ pos s
    → q.limit ≡ pos l
    → s < 2 ^ 63
    → l < 2 ^ 63
    → 2 ^ 63 ≤ s + l
    → (has_next sql from_str to_string config db access q (pos total) ≡ true)
      × (add_i64 q.start q.limit <ℤ pos 0)
has_next-wraps sql from_str to_string config db access q s l total start limit small size wraps =
    rw (start, limit, add_i64_wraps s l small size wraps) (ground arith, ground arith)
