-- ===== src/Common/Table.antt =====
-- A SQL table with a primary key: the rows in insertion order, each behind its key.
use mathlib.Core.Path.{◌≡◌, refl}
use mathlib.Core.Bool.{Bool, true, false, ◌&&◌}
use mathlib.Core.Option
use mathlib.Core.Option.{Option, none, some}
use mathlib.Core.List.{List, [], ◌∷◌}
use native.Mathlib.Omega.{arith}
use bondsman.Common.Tests.{Comparable, ◌==◌, if◌then◌else◌, Bool-cases}
use mathlib.Core.Logic.{inl, inr}
use bondsman.Common.Lists.{any, filter}

abbrev pub Table {ℓ κ} : Type ℓ → Type κ → Type (ℓ ⊔ κ)
Table K V = List (K × V)

module _ {ℓ κ} {K : Type ℓ} {V : Type κ} ⦃e : Comparable K⦄ where
  -- `SELECT * ... WHERE key = ?`
  unfoldable pub lookup : K → Table K V → Option V
  lookup k [] = none
  lookup k ((j, v) ∷ t) = let rest = lookup k t in if k == j then some v else rest

  -- `INSERT ... ON CONFLICT(key) DO UPDATE`: `f` gives the row from the one that is there
  unfoldable pub upsert : K → (Option V → V) → Table K V → Table K V
  upsert k f [] = (k, f none) ∷ []
  upsert k f ((j, v) ∷ t) =
      let rest = upsert k f t in if k == j then (j, f (some v)) ∷ t else (j, v) ∷ rest

  -- `UPDATE ... SET ... WHERE key = ?`
  unfoldable pub update : K → (V → V) → Table K V → Table K V
  update k f [] = []
  update k f ((j, v) ∷ t) =
      let rest = update k f t in if k == j then (j, f v) ∷ t else (j, v) ∷ rest

  pub lookup-upsert :
      (k j : K) (f : Option V → V) (t : Table K V)
      → lookup j (upsert k f t) ≡ (if k == j then some (f (lookup j t)) else lookup j t)
  unfolding lookup upsert
  lookup-upsert k j f [] = ground (arith, e.same_iff k j, e.same_iff j k)
  lookup-upsert k j f ((i, v) ∷ t) =
      ground (arith, e.same_iff k j, e.same_iff k i, e.same_iff j i, lookup-upsert k j f t)

  pub lookup-update :
      (k j : K) (f : V → V) (t : Table K V)
      → lookup j (update k f t) ≡ (if k == j then Option.map f (lookup j t) else lookup j t)
  unfolding lookup update
  lookup-update k j f [] = ground arith
  lookup-update k j f ((i, v) ∷ t) =
      ground (arith, e.same_iff k j, e.same_iff k i, e.same_iff j i, lookup-update k j f t)

module _ {ℓ κ} {K : Type ℓ} {V : Type κ} ⦃e : Comparable K⦄ where
  pub lookup-filter :
      (k : K) (v : V) (p : K × V → Bool) (t : Table K V)
      → lookup k t ≡ some v
      → p (k, v) ≡ true
      → lookup k (filter p t) ≡ some v
  unfolding lookup
  lookup-filter k v p [] h kept = ground arith
  lookup-filter k v p ((j, w) ∷ t) h kept = elim (Bool-cases (k == j)) [
    | inl same ↦ ground (arith, e.same_iff k j)
    | inr other ↦ ground (arith, lookup-filter k v p t)
  ]

pub ruleset table_laws = (lookup-upsert, lookup-update)

-- No key stands twice: the primary key constraint.
abbrev pub IsKeyed {ℓ κ} : {K : Type ℓ} {V : Type κ} ⦃e : Comparable K⦄ → Table K V → Type κ
IsKeyed [] = Unit
IsKeyed ((k, v) ∷ t) = (lookup k t ≡ none) × IsKeyed t

module _ {ℓ κ} {K : Type ℓ} {V : Type κ} ⦃e : Comparable K⦄ where
  pub upsert-IsKeyed :
      (k : K) (f : Option V → V) (t : Table K V) → IsKeyed t → IsKeyed (upsert k f t)
  unfolding upsert
  upsert-IsKeyed k f [] h = (unfold lookup in refl, tt)
  upsert-IsKeyed k f ((j, v) ∷ t) h =
      ground (arith, e.same_iff k j, lookup-upsert k j f t, upsert-IsKeyed k f t h.1)

  pub update-IsKeyed : (k : K) (f : V → V) (t : Table K V) → IsKeyed t → IsKeyed (update k f t)
  unfolding update
  update-IsKeyed k f [] h = tt
  update-IsKeyed k f ((j, v) ∷ t) h =
      ground (arith, e.same_iff k j, lookup-update k j f t, update-IsKeyed k f t h.1)

-- A key is listed with a row that passes a test exactly when the row found for the key passes it.
abbrev pub found {ℓ κ} : {K : Type ℓ} {V : Type κ} → (K × V → Bool) → K → Option V → Bool
found p k none = false
found p k (some v) = p (k, v)

module _ {ℓ κ} {K : Type ℓ} {V : Type κ} ⦃e : Comparable K⦄ where
  pub any-lookup :
      (p : K × V → Bool) (k : K) (t : Table K V)
      → IsKeyed t
      → any (λ r. r.0 == k && p r) t ≡ found p k (lookup k t)
  unfolding lookup
  any-lookup p k [] h = refl
  any-lookup p k ((j, v) ∷ t) h =
      ground (arith, e.same_iff k j, e.same_iff j k, any-lookup p k t h.1)

-- A row that is found passes the test, or is not found.
abbrev pub sift {ℓ κ} : {K : Type ℓ} {V : Type κ} → (K × V → Bool) → K → Option V → Option V
sift p k none = none
sift p k (some v) = if p (k, v) then some v else none

module _ {ℓ κ} {K : Type ℓ} {V : Type κ} ⦃e : Comparable K⦄ where
  pub lookup-filter-sift :
      (p : K × V → Bool) (k : K) (t : Table K V)
      → IsKeyed t
      → lookup k (filter p t) ≡ sift p k (lookup k t)
  unfolding lookup
  lookup-filter-sift p k [] h = refl
  lookup-filter-sift p k ((j, v) ∷ t) h =
      ground (arith, e.same_iff k j, lookup-filter-sift p k t h.1)

  pub filter-IsKeyed : (p : K × V → Bool) (t : Table K V) → IsKeyed t → IsKeyed (filter p t)
  filter-IsKeyed p [] h = tt
  filter-IsKeyed p ((j, v) ∷ t) h =
      ground (arith, lookup-filter-sift p j t h.1, filter-IsKeyed p t h.1)
