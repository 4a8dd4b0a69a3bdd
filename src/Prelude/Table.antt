-- ===== src/Prelude/Table.antt =====
-- A table of the database with a primary key, as an association list.
use mathlib.Core.Path.{◌≡◌, refl}
use mathlib.Core.Logic.{◌≢◌}
use mathlib.Core.Option
use mathlib.Core.Option.{Option, none, some}
use mathlib.Core.List.{List, [], ◌∷◌}
use native.Mathlib.Omega.{arith}
use package.zhost.Prelude.Tests.{if◌then◌else◌}
use package.zhost.Prelude.Equality.{Eq}

abbrev pub Table {ℓ κ} : Type ℓ → Type κ → Type (ℓ ⊔ κ)
Table K V = List (K × V)

module _ {ℓ κ} {K : Type ℓ} {V : Type κ} ⦃e : Eq K⦄ where
  -- `select … where <primary key> = k`, `fetch_optional`.
  unfoldable pub lookup : K → Table K V → Option V
  lookup k [] = none
  lookup k ((j, v) ∷ t) = if e.beq j k then some v else lookup k t

  -- `insert … on conflict (<primary key>) do update set …`.
  unfoldable pub upsert : K → V → Table K V → Table K V
  upsert k v [] = (k, v) ∷ []
  upsert k v ((j, w) ∷ t) = if e.beq j k then (k, v) ∷ t else (j, w) ∷ upsert k v t

  -- `delete … where <primary key> = k`.
  unfoldable pub delete : K → Table K V → Table K V
  delete k [] = []
  delete k ((j, w) ∷ t) = if e.beq j k then delete k t else (j, w) ∷ delete k t

  pub lookup-upsert :
      (k j : K) (v : V) (t : Table K V)
      → lookup j (upsert k v t) ≡ (if e.beq k j then some v else lookup j t)
  unfolding lookup upsert
  lookup-upsert k j v [] = refl
  lookup-upsert k j v ((i, w) ∷ t) =
      ground (arith, e.beq_iff k j, e.beq_iff i k, e.beq_iff i j, lookup-upsert k j v t)

  pub lookup-delete :
      (k j : K) (t : Table K V) → lookup j (delete k t) ≡ (if e.beq k j then none else lookup j t)
  unfolding lookup delete
  lookup-delete k j [] = ground arith
  lookup-delete k j ((i, w) ∷ t) =
      ground (arith, e.beq_iff k j, e.beq_iff i k, e.beq_iff i j, lookup-delete k j t)

  pub lookup-upsert_self : (k : K) (v : V) (t : Table K V) → lookup k (upsert k v t) ≡ some v
  lookup-upsert_self k v t = ground (arith, lookup-upsert k k v t, e.beq_iff k k)

  pub lookup-delete_self : (k : K) (t : Table K V) → lookup k (delete k t) ≡ none
  lookup-delete_self k t = ground (arith, lookup-delete k k t, e.beq_iff k k)

  pub lookup-upsert_ne :
      (k j : K) (v : V) (t : Table K V) → k ≢ j → lookup j (upsert k v t) ≡ lookup j t
  lookup-upsert_ne k j v t h = ground (arith, lookup-upsert k j v t, e.beq_iff k j)

  pub lookup-delete_ne : (k j : K) (t : Table K V) → k ≢ j → lookup j (delete k t) ≡ lookup j t
  lookup-delete_ne k j t h = ground (arith, lookup-delete k j t, e.beq_iff k j)

module _ {ℓ κ} {K : Type ℓ} {V : Type κ} ⦃e : Eq K⦄ (f : K → V → V) where
  -- `update … set …` of every row, `f` telling the new row.
  unfoldable pub update_rows : Table K V → Table K V
  update_rows [] = []
  update_rows ((j, w) ∷ t) = (j, f j w) ∷ update_rows t

  pub lookup-update_rows :
      (k : K) (t : Table K V) → lookup k (update_rows t) ≡ Option.map (f k) (lookup k t)
  unfolding lookup update_rows
  lookup-update_rows k [] = refl
  lookup-update_rows k ((j, w) ∷ t) = ground (arith, e.beq_iff j k, lookup-update_rows k t)
