-- ===== src/SpendGuard/Examples.antt =====
-- Runs of the spending circuit.
use bondsman.Common.{ℕ, ◌≤◌, none, some, List, [], ◌∷◌, ◌≡◌, refl, arith, string_eq}
use bondsman.SpendGuard.Settings.{
  Environment, unset, motes, text, estimate_motes, hourly_limit, daily_limit,
  hourly_transaction_limit, daily_transaction_limit,
}
use bondsman.SpendGuard.{
  SpendGuard, usage, transaction_count, hour_ms, day_ms, reset_spend_guard, Spend, spend_all,
}
use bondsman.SpendGuard.Budget.{spend_all-bounds}
use bondsman.SpendGuard.Refusal.{Call, asked, recorded, snapshot}

-- Two transactions in an hour, and the default amounts.
abbrev two_per_hour : Environment
two_per_hour = record {
  account_hour_motes = λ _. none;
  account_day_motes = λ _. none;
  account_hour = λ _. some " 2 ";
  account_day = λ _. none;
  hour_motes = none;
  day_motes = none;
  hour = some "7";
  day = none;
}

abbrev cleared : SpendGuard
cleared = record { history = []; tripped_accounts = [] }

abbrev spends : List Spend
spends =
    record { delay = 0; account = "agent"; gas = text "50 cspr"; transaction_hash = some "k" }
    ∷ record { delay = 10; account = "agent"; gas = motes 7; transaction_hash = some "h" }
    ∷ record { delay = 10; account = "agent"; gas = unset; transaction_hash = none }
    ∷ record { delay = 5; account = "watchdog"; gas = text "3 CSPR"; transaction_hash = none }
    ∷ []

abbrev spent : SpendGuard
spent = (spend_all two_per_hour 100 spends cleared).1

-- The third transaction of the agent is refused.
spent_usage : usage "agent" hour_ms 130 spent.history ≡ 50_000_000_007
unfolding usage spend_all
spent_usage = refl

estimate_text : estimate_motes (text " 12 cspr ") ≡ 12_000_000_000
unfolding estimate_motes
estimate_text = refl

spend_all-bounds_example :
    let history = (spend_all two_per_hour 100 spends (reset_spend_guard cleared)).1.history in
    (usage "agent" hour_ms 130 history ≤ hourly_limit two_per_hour "agent")
    × (usage "agent" day_ms 130 history ≤ daily_limit two_per_hour "agent")
    × (transaction_count "agent" hour_ms 130 history
        ≤ hourly_transaction_limit two_per_hour "agent")
    × (transaction_count "agent" day_ms 130 history ≤ daily_transaction_limit two_per_hour "agent")
unfolding spend_all
spend_all-bounds_example =
    spend_all-bounds two_per_hour 100 spends cleared "agent" 130 (omega arith)

-- A snapshot, a transaction of another account and a further one of this account come after it.
abbrev later_calls : List (ℕ × Call)
later_calls =
    (1_000, snapshot)
    ∷ (1_000, asked "other" unset)
    ∷ (0, recorded "other" unset (some "tx"))
    ∷ (1_000_000, asked "agent" unset)
    ∷ (2_000, snapshot)
    ∷ []
