-- ===== src/SpendGuard/Budget.antt =====
-- Transactions that are guarded and recorded one after the other stay within the limits.
use bondsman.Common.{
  ℕ, ◌+◌, ◌≤◌, String, false, ◌||◌, ◌⊎◌, inl, inr, List, [], ◌∷◌, ◌≡◌, refl, arith, string_eq,
  Bool-cases, Option-cases, some,
}
use bondsman.SpendGuard.Settings.{
  Environment, estimate_motes, hourly_limit, daily_limit, hourly_transaction_limit,
  daily_transaction_limit,
}
use bondsman.SpendGuard.{
  SpendRecord, SpendGuard, prune, usage, transaction_count, hour_ms, day_ms, with_one_more,
  hourly_violation, daily_violation, assert_spend_allowed, recover, spend_record, record_spend,
  reset_spend_guard, Spend, spend, spend_all,
}
use bondsman.SpendGuard.Windows.{window}
use bondsman.SpendGuard.Windows.Under.{
  usage-window, count-window, history_after, IsUnder, IsUnder-prune, IsUnder-after,
}

abbrev motes_of : SpendRecord → ℕ
motes_of r = r.estimated_motes

abbrev one_each : SpendRecord → ℕ
one_each _ = 1

-- All four limits of the environment.
pub record IsWithinBudget (env : Environment) (now : ℕ) (g : SpendGuard) : Type 0 where
  pub hour_total : IsUnder motes_of hour_ms (hourly_limit env) now g.history
  pub day_total : IsUnder motes_of day_ms (daily_limit env) now g.history
  pub hour_transactions : IsUnder one_each hour_ms (hourly_transaction_limit env) now g.history
  pub day_transactions : IsUnder one_each day_ms (daily_transaction_limit env) now g.history

-- A transaction that is refused or fails only drops old records; one that succeeds was let through.
spend-cases :
    (env : Environment) (now : ℕ) (s : Spend) (g : SpendGuard)
    → ((spend env now s g).history ≡ prune now g.history)
      ⊎ ((hash : String) × ((spend env now s g).history
            ≡ history_after now (spend_record s.account s.gas (some hash) now) g.history)
          × (hourly_violation env s.account
                (with_one_more s.account (estimate_motes s.gas) now g.history)
              ≡ false)
          × (daily_violation env s.account
                (with_one_more s.account (estimate_motes s.gas) now g.history)
              ≡ false))
unfolding spend assert_spend_allowed record_spend recover history_after
spend-cases env now s g = elim (Option-cases s.transaction_hash) [
  | inl failed ↦ inl (ground (arith, failed))
  | inr (hash, sent) ↦
      elim (Bool-cases (
        hourly_violation env s.account
          (with_one_more s.account (estimate_motes s.gas) now g.history)
        || daily_violation env s.account
            (with_one_more s.account (estimate_motes s.gas) now g.history))) [
              | inl over ↦ inl (ground arith)
              | inr under ↦ inr (hash, ground (arith, sent), ground arith, ground arith)
            ]
]

-- What the tests let through, in windows.
hour-clear :
    (env : Environment) (account : String) (estimate now : ℕ) (rs : List SpendRecord)
    → hourly_violation env account (with_one_more account estimate now rs) ≡ false
    → (window motes_of account hour_ms now rs + estimate ≤ hourly_limit env account)
      × (window one_each account hour_ms now rs + 1 ≤ hourly_transaction_limit env account)
unfolding hourly_violation with_one_more
hour-clear env account estimate now rs h = ground (
  arith,
  usage-window account hour_ms now rs (omega arith),
  count-window account hour_ms now rs (omega arith),
)

day-clear :
    (env : Environment) (account : String) (estimate now : ℕ) (rs : List SpendRecord)
    → daily_violation env account (with_one_more account estimate now rs) ≡ false
    → (window motes_of account day_ms now rs + estimate ≤ daily_limit env account)
      × (window one_each account day_ms now rs + 1 ≤ daily_transaction_limit env account)
unfolding daily_violation with_one_more
day-clear env account estimate now rs h = ground (
  arith,
  usage-window account day_ms now rs (omega arith),
  count-window account day_ms now rs (omega arith),
)

module _ (env : Environment) where
  spend-IsWithinBudget :
      (old now : ℕ) (s : Spend) (g : SpendGuard)
      → old ≤ now
      → IsWithinBudget env old g
      → IsWithinBudget env now (spend env now s g)
  spend-IsWithinBudget old now s g o h = elim (spend-cases env now s g) [
    | inl e ↦ record {
      hour_total = rw e (
          IsUnder-prune motes_of hour_ms (hourly_limit env) (omega arith) old now g.history o
            h.hour_total);
      day_total = rw e (
          IsUnder-prune motes_of day_ms (daily_limit env) (omega arith) old now g.history o
            h.day_total);
      hour_transactions = rw e (
          IsUnder-prune one_each hour_ms (hourly_transaction_limit env) (omega arith) old now
            g.history o h.hour_transactions);
      day_transactions = rw e (
          IsUnder-prune one_each day_ms (daily_transaction_limit env) (omega arith) old now
            g.history o h.day_transactions);
    }
    | inr (hash, e, hour_ok, day_ok) ↦
        let r = spend_record s.account s.gas (some hash) now in
        let hour = hour-clear env s.account (estimate_motes s.gas) now g.history hour_ok in
        let day = day-clear env s.account (estimate_motes s.gas) now g.history day_ok in
        record {
          hour_total = rw e (
              IsUnder-after motes_of hour_ms (hourly_limit env) (omega arith) old now s.account r
                g.history (unfold spend_record in refl) o (unfold spend_record in hour.0)
                h.hour_total);
          day_total = rw e (
              IsUnder-after motes_of day_ms (daily_limit env) (omega arith) old now s.account r
                g.history (unfold spend_record in refl) o (unfold spend_record in day.0)
                h.day_total);
          hour_transactions = rw e (
              IsUnder-after one_each hour_ms (hourly_transaction_limit env) (omega arith) old now
                s.account r g.history (unfold spend_record in refl) o hour.1 h.hour_transactions);
          day_transactions = rw e (
              IsUnder-after one_each day_ms (daily_transaction_limit env) (omega arith) old now
                s.account r g.history (unfold spend_record in refl) o day.1 h.day_transactions);
        }
  ]

  spend_all-IsWithinBudget :
      (now : ℕ) (spends : List Spend) (g : SpendGuard)
      → IsWithinBudget env now g
      → IsWithinBudget env (spend_all env now spends g).0 (spend_all env now spends g).1
  unfolding spend_all
  spend_all-IsWithinBudget now [] g h = h
  spend_all-IsWithinBudget now (s ∷ rest) g h =
      spend_all-IsWithinBudget (now + s.delay) rest (spend env (now + s.delay) s g)
        (spend-IsWithinBudget now (now + s.delay) s g (omega arith) h)

  unused : (now : ℕ) → IsWithinBudget env now (record { history = []; tripped_accounts = [] })
  unused now = record {
    hour_total = λ account later l. omega arith;
    day_total = λ account later l. omega arith;
    hour_transactions = λ account later l. omega arith;
    day_transactions = λ account later l. omega arith;
  }

-- Whatever transactions are asked for one after the other from a cleared guard, with whatever times
-- between them: at every time from the last one on, no account has more motes or more transactions
-- recorded within the last hour or within the last day than its limits allow.
pub spend_all-bounds :
    (env : Environment) (now : ℕ) (spends : List Spend) (g : SpendGuard) (account : String)
    (later : ℕ)
    → (spend_all env now spends (reset_spend_guard g)).0 ≤ later
    → let history = (spend_all env now spends (reset_spend_guard g)).1.history in
      (usage account hour_ms later history ≤ hourly_limit env account)
      × (usage account day_ms later history ≤ daily_limit env account)
      × (transaction_count account hour_ms later history ≤ hourly_transaction_limit env account)
      × (transaction_count account day_ms later history ≤ daily_transaction_limit env account)
unfolding reset_spend_guard
spend_all-bounds env now spends g account later l =
    let h = spend_all-IsWithinBudget env now spends (reset_spend_guard g) (unused env now) in
    let history = (spend_all env now spends (reset_spend_guard g)).1.history in
    omega (
      arith,
      usage-window account hour_ms later history (omega arith),
      usage-window account day_ms later history (omega arith),
      count-window account hour_ms later history (omega arith),
      count-window account day_ms later history (omega arith),
      h.hour_total account later l,
      h.day_total account later l,
      h.hour_transactions account later l,
      h.day_transactions account later l,
    )
