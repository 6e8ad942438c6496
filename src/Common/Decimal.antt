-- ===== src/Common/Decimal.antt =====
-- Amounts travel as decimal text: `BigInt(text)`, `value.toString()` and the patterns of the guards.
use Prim.Native.Nat.{ℕ, zero, suc, ◌+◌, ◌-◌, ◌*◌, ◌/◌, ◌%◌, ◌≤◌, ◌<◌}
use Prim.Native.Char.{Char, code}
use Prim.Native.String.{String}
use mathlib.Core.Path.{◌≡◌, refl, ap, ◌∙◌}
use mathlib.Core.Logic.{inl, inr}
use mathlib.Core.Bool.{Bool, ◌&&◌}
use mathlib.Core.Option.{Option, none, some}
use native.Mathlib.Omega.{arith}
use bondsman.Common.Tests.{ltb, leb, if◌then◌else◌, Bool-cases}

-- `[0-9]`
is_digit : Char → Bool
is_digit c = leb 48 (code c) && leb (code c) 57

digits_from : ℕ → String → Option ℕ
unfolding is_digit
digits_from n String.[] = some n
digits_from n (String.◌∷◌ c s) =
    let rest = digits_from (n * 10 + (code c - 48)) s in if is_digit c then rest else none

-- `/^\d+$/` and then `BigInt(text)`
unfoldable pub big_int : String → Option ℕ
unfolding digits_from
big_int String.[] = none
big_int (String.◌∷◌ c s) = digits_from 0 (String.◌∷◌ c s)

-- `/^[1-9]\d*$/` and then `BigInt(text)`
unfoldable pub positive_big_int : String → Option ℕ
unfolding digits_from
positive_big_int String.[] = none
positive_big_int (String.◌∷◌ c s) =
    if leb 49 (code c) && leb (code c) 57 then digits_from 0 (String.◌∷◌ c s) else none

digit : ℕ → Char
digit zero = "0"
digit (suc zero) = "1"
digit (suc (suc zero)) = "2"
digit (suc (suc (suc zero))) = "3"
digit (suc (suc (suc (suc zero)))) = "4"
digit (suc (suc (suc (suc (suc zero))))) = "5"
digit (suc (suc (suc (suc (suc (suc zero)))))) = "6"
digit (suc (suc (suc (suc (suc (suc (suc zero))))))) = "7"
digit (suc (suc (suc (suc (suc (suc (suc (suc zero)))))))) = "8"
digit _ = "9"

code-digit : (n : ℕ) → n < 10 → code (digit n) ≡ n + 48
unfolding digit
code-digit zero h = refl
code-digit (suc zero) h = refl
code-digit (suc (suc zero)) h = refl
code-digit (suc (suc (suc zero))) h = refl
code-digit (suc (suc (suc (suc zero)))) h = refl
code-digit (suc (suc (suc (suc (suc zero))))) h = refl
code-digit (suc (suc (suc (suc (suc (suc zero)))))) h = refl
code-digit (suc (suc (suc (suc (suc (suc (suc zero))))))) h = refl
code-digit (suc (suc (suc (suc (suc (suc (suc (suc zero)))))))) h = refl
code-digit (suc (suc (suc (suc (suc (suc (suc (suc (suc zero))))))))) h = refl
code-digit (suc (suc (suc (suc (suc (suc (suc (suc (suc (suc n)))))))))) h = absurd (omega arith)

print_from : ℕ → ℕ → String → String
unfolding digit
print_from zero n s = s
print_from (suc f) n s =
    let s' = String.◌∷◌ (digit (n % 10)) s in
    let rest = print_from f (n / 10) s' in if ltb n 10 then s' else rest

-- `value.toString()`: the fuel is above the number, and so above the number of its digits
unfoldable pub to_text : ℕ → String
unfolding print_from
to_text n = print_from (suc n) n ""

digits_from-digit :
    (m n : ℕ) (s : String)
    → n < 10
    → digits_from m (String.◌∷◌ (digit n) s) ≡ digits_from (m * 10 + n) s
unfolding digits_from
digits_from-digit m n s h = ground (arith, code-digit n h)

digits_from-print_from :
    (f n : ℕ) (s : String) → n < f → digits_from 0 (print_from f n s) ≡ digits_from n s
unfolding print_from
digits_from-print_from zero n s h = absurd (omega arith)
digits_from-print_from (suc f) n s h = elim (Bool-cases (ltb n 10)) [
  | inl one ↦ rw one (
      rw (digits_from-digit 0 (n % 10) s (omega arith))
        (ap (λ (k : ℕ). digits_from k s) (ground arith)))
  | inr more ↦ rw more (
      digits_from-print_from f (n / 10) (String.◌∷◌ (digit (n % 10)) s) (ground arith)
      ∙ (rw (digits_from-digit (n / 10) (n % 10) s (omega arith))
          (ap (λ (k : ℕ). digits_from k s) (omega arith))))
]

-- A text that is not empty is read by its digits.
big_int-of_digits :
    {n : ℕ} (c : Char) (s t : String)
    → t ≡ String.◌∷◌ c s
    → digits_from 0 t ≡ some n
    → big_int t ≡ some n
unfolding big_int
big_int-of_digits c s t e h = rw e (rw e at h)

print_from-nonempty :
    (f n : ℕ) (c : Char) (s : String)
    → (d : Char) × (t : String) × (print_from f n (String.◌∷◌ c s) ≡ String.◌∷◌ d t)
unfolding print_from
print_from-nonempty zero n c s = (c, s, refl)
print_from-nonempty (suc f) n c s = elim (Bool-cases (ltb n 10)) [
  | inl one ↦ (digit (n % 10), String.◌∷◌ c s, rw one)
  | inr more ↦ rw more (print_from-nonempty f (n / 10) (digit (n % 10)) (String.◌∷◌ c s))
]

to_text-nonempty : (n : ℕ) → (d : Char) × (t : String) × (to_text n ≡ String.◌∷◌ d t)
unfolding to_text
to_text-nonempty n = elim (Bool-cases (ltb n 10)) [
  | inl one ↦ (digit (n % 10), "", rw one)
  | inr more ↦ rw more (print_from-nonempty n (n / 10) (digit (n % 10)) "")
]

-- Every amount that is printed is read back.
pub big_int-to_text : (n : ℕ) → big_int (to_text n) ≡ some n
unfolding to_text digits_from
big_int-to_text n =
    let (d, t, e) = to_text-nonempty n in
    big_int-of_digits d t (to_text n) e (digits_from-print_from (suc n) n "" (omega arith))

digits_from-le : (m n : ℕ) (s : String) → digits_from m s ≡ some n → m ≤ n
unfolding digits_from
digits_from-le m n String.[] h = ground arith
digits_from-le m n (String.◌∷◌ c s) h = ground (arith, digits_from-le (m * 10 + (code c - 48)) n s)

-- The guard `/^[1-9]\d*$/` lets only positive numbers pass.
pub positive_big_int-pos : (n : ℕ) (s : String) → positive_big_int s ≡ some n → 0 < n
unfolding positive_big_int
positive_big_int-pos n String.[] h = ground arith
positive_big_int-pos n (String.◌∷◌ c s) h = ground (arith, digits_from-le (code c - 48) n s)

-- What that guard accepts, the plain reading accepts with the same value.
pub big_int-eq_positive : (n : ℕ) (s : String) → positive_big_int s ≡ some n → big_int s ≡ some n
unfolding positive_big_int big_int
big_int-eq_positive n String.[] h = ground arith
big_int-eq_positive n (String.◌∷◌ c s) h = ground arith
