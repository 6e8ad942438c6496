-- ===== src/SpendGuard.antt =====
-- The spending circuit of `backend/src/ops/spend-guard.ts`: what each account spent in the last hour
-- and day against its limits. A signer is given by its account, the environment by the settings
-- that are read, and an amount of motes by its number. The percentages of the snapshot are left out.
pub mod Settings
pub mod Windows
pub mod Budget
pub mod Refusal
mod Examples
use bondsman.Common.{
  ℕ, ◌+◌, ◌-◌, String, Bool, true, false, not, ◌&&◌, ◌||◌, Option, none, some, List, [], ◌∷◌, ◌++◌,
  ◌==◌, string_eq, ltb, leb, length, filter, if◌then◌else◌,
}
use bondsman.Common.Table.{Table, lookup, upsert}
use bondsman.SpendGuard.Settings.{
  Environment, Gas, estimate_motes, hourly_limit, daily_limit, hourly_transaction_limit,
  daily_transaction_limit,
}

pub record SpendRecord : Type 0 where
  pub account : String
  pub estimated_motes : ℕ
  pub transaction_hash : Option String
  pub timestamp : ℕ

-- The numbers of the reason's text, each against its limit.
pub record SpendReason : Type 0 where
  pub hour_transactions : ℕ
  pub day_transactions : ℕ
  pub hour_total : ℕ
  pub day_total : ℕ

pub record Trip : Type 0 where
  pub reason : SpendReason
  pub recover_after_ms : ℕ

-- The two variables of the module.
pub record SpendGuard : Type 0 where
  pub history : List SpendRecord
  pub tripped_accounts : Table String Trip

abbrev pub hour_ms : ℕ
hour_ms = 3_600_000

abbrev pub day_ms : ℕ
day_ms = 86_400_000

-- The loop that shifts the oldest records.
unfoldable pub prune : ℕ → List SpendRecord → List SpendRecord
prune now [] = []
prune now (r ∷ rs) =
    let rest = prune now rs in if ltb day_ms (now - r.timestamp) then rest else r ∷ rs

-- A difference below 0 passes the test too, and so does one that stops at 0.
abbrev pub is_within : String → ℕ → ℕ → SpendRecord → Bool
is_within account period_ms now r = r.account == account && leb (now - r.timestamp) period_ms

abbrev pub sum_by : (SpendRecord → ℕ) → List SpendRecord → ℕ
sum_by weight [] = 0
sum_by weight (r ∷ rs) = weight r + sum_by weight rs

unfoldable pub usage : String → ℕ → ℕ → List SpendRecord → ℕ
unfolding prune
usage account period_ms now history =
    sum_by (λ r. r.estimated_motes) (filter (is_within account period_ms now) (prune now history))

unfoldable pub transaction_count : String → ℕ → ℕ → List SpendRecord → ℕ
unfolding prune
transaction_count account period_ms now history =
    length (filter (is_within account period_ms now) (prune now history))

-- What the account would have used with one more transaction.
unfoldable pub with_one_more : String → ℕ → ℕ → List SpendRecord → SpendReason
unfolding usage transaction_count
with_one_more account estimate now history = record {
  hour_transactions = transaction_count account hour_ms now history + 1;
  day_transactions = transaction_count account day_ms now history + 1;
  hour_total = usage account hour_ms now history + estimate;
  day_total = usage account day_ms now history + estimate;
}

unfoldable pub hourly_violation : Environment → String → SpendReason → Bool
unfolding hourly_limit hourly_transaction_limit
hourly_violation env account r =
    ltb (hourly_transaction_limit env account) r.hour_transactions
    || ltb (hourly_limit env account) r.hour_total

unfoldable pub daily_violation : Environment → String → SpendReason → Bool
unfolding daily_limit daily_transaction_limit
daily_violation env account r =
    ltb (daily_transaction_limit env account) r.day_transactions
    || ltb (daily_limit env account) r.day_total

-- `false` where the code throws.
unfoldable pub assert_spend_allowed :
    Environment → String → Gas → ℕ → SpendGuard → Bool × SpendGuard
unfolding with_one_more hourly_violation daily_violation estimate_motes prune
assert_spend_allowed env account gas now g =
    let reason = with_one_more account (estimate_motes gas) now g.history in
    let history = prune now g.history in
    let daily = daily_violation env account reason in
    if hourly_violation env account reason || daily
    then (
      false,
      record {
        history = history;
        tripped_accounts =
            upsert account
              (λ _. record {
                reason = reason;
                recover_after_ms = now + (if daily then day_ms else hour_ms);
              })
              g.tripped_accounts;
      },
    )
    else (true, record g { history = history })

-- The test of the loop of `spendSnapshot` over the tripped accounts.
unfoldable pub has_recovered : Environment → ℕ → List SpendRecord → String × Trip → Bool
unfolding usage transaction_count hourly_limit daily_limit hourly_transaction_limit
    daily_transaction_limit
has_recovered env now history (account, trip) =
    leb trip.recover_after_ms now
    && ltb (usage account hour_ms now history) (hourly_limit env account)
    && ltb (usage account day_ms now history) (daily_limit env account)
    && ltb (transaction_count account hour_ms now history) (hourly_transaction_limit env account)
    && ltb (transaction_count account day_ms now history) (daily_transaction_limit env account)

-- What `spendSnapshot` changes.
unfoldable pub recover : Environment → ℕ → SpendGuard → SpendGuard
unfolding has_recovered prune
recover env now g = record {
  history = prune now g.history;
  tripped_accounts =
      filter (λ e. not (has_recovered env now (prune now g.history) e)) g.tripped_accounts;
}

unfoldable pub spend_record : String → Gas → Option String → ℕ → SpendRecord
unfolding estimate_motes
spend_record account gas transaction_hash now = record {
  account = account;
  estimated_motes = estimate_motes gas;
  transaction_hash = transaction_hash;
  timestamp = now;
}

unfoldable pub record_spend :
    Environment → String → Gas → Option String → ℕ → SpendGuard → SpendGuard
unfolding recover prune spend_record
record_spend env account gas transaction_hash now g = recover env now (record g {
  history = prune now (g.history ++ spend_record account gas transaction_hash now ∷ []);
})

unfoldable pub reset_spend_guard : SpendGuard → SpendGuard
reset_spend_guard g = record { history = []; tripped_accounts = [] }

-- One transaction: `none` in place of its hash where the command threw, and then nothing is recorded.
pub record Spend : Type 0 where
  pub delay : ℕ
  pub account : String
  pub gas : Gas
  pub transaction_hash : Option String

-- `callContract` of `backend/src/casper/odra-cli.ts`, one call at a time.
unfoldable pub spend : Environment → ℕ → Spend → SpendGuard → SpendGuard
unfolding assert_spend_allowed record_spend
spend env now s g =
    let (allowed, g') = assert_spend_allowed env s.account s.gas now g in
    if allowed
    then elim s.transaction_hash [
      | none ↦ g'
      | some hash ↦ record_spend env s.account s.gas (some hash) now g'
    ]
    else g'

-- Transactions in a row: each comes its delay after the one before.
unfoldable pub spend_all : Environment → ℕ → List Spend → SpendGuard → ℕ × SpendGuard
unfolding spend
spend_all env now [] g = (now, g)
spend_all env now (s ∷ rest) g = spend_all env (now + s.delay) rest (spend env (now + s.delay) s g)
