-- ===== src/SpendGuard/Refusal.antt =====
-- When a transaction is refused, and for how long its account stays tripped.
use bondsman.Common.{
  Option, [], ◌∷◌, ℕ, ◌+◌, ◌≤◌, ◌<◌, String, true, some, List, ◌≡◌, ◌↔◌, arith, string_eq,
  if◌then◌else◌,
}
use bondsman.Common.Table.{lookup}
use bondsman.SpendGuard.Settings.{
  Environment, Gas, estimate_motes, hourly_limit, daily_limit, hourly_transaction_limit,
  daily_transaction_limit,
}
use bondsman.SpendGuard.{
  SpendRecord, SpendGuard, Trip, usage, transaction_count, hour_ms, day_ms, with_one_more,
  hourly_violation, daily_violation, assert_spend_allowed, recover, record_spend,
}

-- A transaction is let through exactly where, with its estimate and itself added, the account's motes
-- and transactions of the last hour and of the last day are at most the limits.
pub assert_spend_allowed_exact :
    (env : Environment) (account : String) (gas : Gas) (now : ℕ) (g : SpendGuard)
    → ((assert_spend_allowed env account gas now g).0 ≡ true) ↔ (
        (usage account hour_ms now g.history + estimate_motes gas ≤ hourly_limit env account)
        × (usage account day_ms now g.history + estimate_motes gas ≤ daily_limit env account)
        × (transaction_count account hour_ms now g.history < hourly_transaction_limit env account)
        × (transaction_count account day_ms now g.history < daily_transaction_limit env account))
unfolding assert_spend_allowed hourly_violation daily_violation with_one_more
assert_spend_allowed_exact env account gas now g = ground arith

trip_of : Environment → String → ℕ → ℕ → List SpendRecord → Trip
trip_of env account estimate now history = record {
  reason = with_one_more account estimate now history;
  recover_after_ms =
      now
      + (if daily_violation env account (with_one_more account estimate now history)
          then day_ms
          else hour_ms);
}

-- A call of one of the module's functions, and the clock's way to it.
pub data Call : Type 0 where
  asked : String → Gas → Call
  recorded : String → Gas → Option String → Call
  snapshot : Call

unfoldable called : Environment → ℕ → Call → SpendGuard → SpendGuard
called env now (asked account gas) g = (assert_spend_allowed env account gas now g).1
called env now (recorded account gas hash) g = record_spend env account gas hash now g
called env now snapshot g = recover env now g

unfoldable pub calls : Environment → ℕ → List (ℕ × Call) → SpendGuard → ℕ × SpendGuard
unfolding called
calls env now [] g = (now, g)
calls env now ((delay, c) ∷ rest) g = calls env (now + delay) rest (called env (now + delay) c g)

-- The account is tripped, and no snapshot before then clears it.
abbrev pub IsTripped : ℕ → String → SpendGuard → Type 0
IsTripped until account g =
    (trip : Trip) × ((lookup account g.tripped_accounts ≡ some trip)
      × (until ≤ trip.recover_after_ms))
