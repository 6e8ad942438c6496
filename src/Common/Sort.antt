-- ===== src/Common/Sort.antt =====
-- `ORDER BY`, and `sort` of an array: a stable sort by insertion.
use mathlib.Core.Path.{◌≡◌, refl}
use mathlib.Core.Bool.{Bool, ◌||◌}
use mathlib.Core.List.{List, [], ◌∷◌}
use native.Mathlib.Omega.{arith}
use bondsman.Common.Tests.{if◌then◌else◌}
use bondsman.Common.Lists.{All, any}

module _ {ℓ} {A : Type ℓ} where
  -- `before x y`: `x` need not go behind `y`
  abbrev pub insert_by : (A → A → Bool) → A → List A → List A
  insert_by before x [] = x ∷ []
  insert_by before x (y ∷ ys) =
      let rest = insert_by before x ys in if before x y then x ∷ y ∷ ys else y ∷ rest

  abbrev pub sort_by : (A → A → Bool) → List A → List A
  sort_by before [] = []
  sort_by before (x ∷ xs) = insert_by before x (sort_by before xs)

  any-insert_by :
      (before : A → A → Bool) (p : A → Bool) (x : A) (ys : List A)
      → any p (insert_by before x ys) ≡ (p x || any p ys)
  any-insert_by before p x [] = refl
  any-insert_by before p x (y ∷ ys) = ground (arith, any-insert_by before p x ys)

  -- Sorting keeps what is in the list.
  pub any-sort_by :
      (before : A → A → Bool) (p : A → Bool) (xs : List A) → any p (sort_by before xs) ≡ any p xs
  any-sort_by before p [] = refl
  any-sort_by before p (x ∷ xs) =
      ground (arith, any-insert_by before p x (sort_by before xs), any-sort_by before p xs)

  pub All-insert_by {κ} :
      (before : A → A → Bool) (P : A → Type κ) (x : A) (ys : List A)
      → P x
      → All P ys
      → All P (insert_by before x ys)
  All-insert_by before P x [] h hs = (h, tt)
  All-insert_by before P x (y ∷ ys) h hs = ground (arith, All-insert_by before P x ys h hs.1)

  pub All-sort_by {κ} :
      (before : A → A → Bool) (P : A → Type κ) (xs : List A) → All P xs → All P (sort_by before xs)
  All-sort_by before P [] hs = tt
  All-sort_by before P (x ∷ xs) hs =
      All-insert_by before P x (sort_by before xs) hs.0 (All-sort_by before P xs hs.1)
