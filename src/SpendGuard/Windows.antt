-- ===== src/SpendGuard/Windows.antt =====
-- What is counted in a window of time, whether or not the old records were dropped.
pub mod Under
use bondsman.Common.{
  ℕ, ◌+◌, ◌≤◌, String, List, [], ◌∷◌, ◌++◌, ◌≡◌, refl, arith, string_eq, filter, length,
  if◌then◌else◌,
}
use bondsman.SpendGuard.{SpendRecord, prune, is_within, sum_by, day_ms}

pub length-sum_by : (rs : List SpendRecord) → length rs ≡ sum_by (λ _. 1) rs
length-sum_by [] = refl
length-sum_by (r ∷ rs) = omega (arith, length-sum_by rs)

-- The total of the window that ends at `now`.
abbrev pub window : (SpendRecord → ℕ) → String → ℕ → ℕ → List SpendRecord → ℕ
window weight account period_ms now rs = sum_by weight (filter (is_within account period_ms now) rs)

module _ (weight : SpendRecord → ℕ) (account : String) where
  -- Dropping what is older than a day takes nothing from a window of at most a day.
  pub window-prune :
      (period_ms now later : ℕ) (rs : List SpendRecord)
      → period_ms ≤ day_ms
      → now ≤ later
      → window weight account period_ms later (prune now rs)
        ≡ window weight account period_ms later rs
  unfolding prune
  window-prune period_ms now later [] p l = refl
  window-prune period_ms now later (r ∷ rs) p l =
      ground (arith, window-prune period_ms now later rs p l)

  -- A window moves on and only loses.
  pub window-later :
      (period_ms now later : ℕ) (rs : List SpendRecord)
      → now ≤ later
      → window weight account period_ms later rs ≤ window weight account period_ms now rs
  window-later period_ms now later [] l = omega arith
  window-later period_ms now later (r ∷ rs) l =
      ground (arith, window-later period_ms now later rs l)

  pub window-snoc :
      (period_ms now : ℕ) (rs : List SpendRecord) (r : SpendRecord)
      → window weight account period_ms now (rs ++ r ∷ [])
        ≡ window weight account period_ms now rs
          + (if is_within account period_ms now r then weight r else 0)
  window-snoc period_ms now [] r = ground arith
  window-snoc period_ms now (s ∷ rs) r = ground (arith, window-snoc period_ms now rs r)
