-- ===== src/SpendGuard/Windows/Under.antt =====
-- A limit on what a window counts, and what one more record does to it.
use bondsman.Common.{
  ℕ, ◌+◌, ◌≤◌, String, inl, inr, List, [], ◌∷◌, ◌++◌, ◌≡◌, arith, ◌==◌, string_eq, eq_iff, filter,
  if◌then◌else◌, Bool-cases,
}
use bondsman.SpendGuard.{SpendRecord, prune, is_within, usage, transaction_count, day_ms}
use bondsman.SpendGuard.Windows.{length-sum_by, window, window-prune, window-later, window-snoc}

pub usage-window :
    (account : String) (period_ms now : ℕ) (rs : List SpendRecord)
    → period_ms ≤ day_ms
    → usage account period_ms now rs ≡ window (λ r. r.estimated_motes) account period_ms now rs
unfolding usage
usage-window account period_ms now rs p =
    window-prune (λ r. r.estimated_motes) account period_ms now now rs p (omega arith)

pub count-window :
    (account : String) (period_ms now : ℕ) (rs : List SpendRecord)
    → period_ms ≤ day_ms
    → transaction_count account period_ms now rs ≡ window (λ _. 1) account period_ms now rs
unfolding transaction_count
count-window account period_ms now rs p =
    rw (length-sum_by (filter (is_within account period_ms now) (prune now rs)))
      (window-prune (λ _. 1) account period_ms now now rs p (omega arith))

-- The history after a transaction that was let through.
unfoldable pub history_after : ℕ → SpendRecord → List SpendRecord → List SpendRecord
history_after now r rs = prune now (prune now (prune now rs ++ r ∷ []))

-- A window over it, at any later time: what the old history has there, and the new record at most.
window-after :
    (weight : SpendRecord → ℕ) (account : String) (period_ms now later : ℕ) (r : SpendRecord)
    (rs : List SpendRecord)
    → period_ms ≤ day_ms
    → now ≤ later
    → window weight account period_ms later (history_after now r rs)
      ≡ window weight account period_ms later rs
        + (if is_within account period_ms later r then weight r else 0)
unfolding history_after
window-after weight account period_ms now later r rs p l = omega (
  arith,
  window-prune weight account period_ms now later (prune now (prune now rs ++ r ∷ [])) p l,
  window-prune weight account period_ms now later (prune now rs ++ r ∷ []) p l,
  window-snoc weight account period_ms later (prune now rs) r,
  window-prune weight account period_ms now later rs p l,
)

-- One limit on one weight over one period, from `now` on.
abbrev pub IsUnder : (SpendRecord → ℕ) → ℕ → (String → ℕ) → ℕ → List SpendRecord → Type 0
IsUnder weight period_ms limit now rs =
    (account : String) (later : ℕ)
    → now ≤ later
    → window weight account period_ms later rs ≤ limit account

module _ (weight : SpendRecord → ℕ) (period_ms : ℕ) (limit : String → ℕ)
    (p : period_ms ≤ day_ms) where
  pub IsUnder-prune :
      (old now : ℕ) (rs : List SpendRecord)
      → old ≤ now
      → IsUnder weight period_ms limit old rs
      → IsUnder weight period_ms limit now (prune now rs)
  IsUnder-prune old now rs o h account later l =
      omega (
        arith,
        window-prune weight account period_ms now later rs p l,
        h account later (omega arith),
      )

  pub IsUnder-after :
      (old now : ℕ) (spender : String) (r : SpendRecord) (rs : List SpendRecord)
      → r.account ≡ spender
      → old ≤ now
      → window weight spender period_ms now rs + weight r ≤ limit spender
      → IsUnder weight period_ms limit old rs
      → IsUnder weight period_ms limit now (history_after now r rs)
  IsUnder-after old now spender r rs is o fits h account later l =
      elim (Bool-cases (spender == account)) [
        | inl same ↦
            (let e : spender ≡ account = (eq_iff spender account).0 same in
              let fits' : window weight account period_ms now rs + weight r ≤ limit account =
                rw e at fits in
              ground (
                arith,
                window-after weight account period_ms now later r rs p l,
                window-later weight account period_ms now later rs l,
              ))
        | inr other ↦ ground (
          arith,
          is,
          window-after weight account period_ms now later r rs p l,
          h account later (omega arith),
        )
      ]
