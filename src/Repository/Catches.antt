-- ===== src/Repository/Catches.antt =====
-- The watchdog's own tables: `recordWatchdogCatch`, `hasWatchdogCatch`, `watchdogCatch`,
-- `setWatchdogHeartbeat` and `watchdogSummary`.

use mathlib.Core.Option
use bondsman.Common.{
  ℕ, ◌+◌, ◌-◌, String, Bool, false, not, Option, none, some, List, [], ◌∷◌, map, nat_eq, leb,
  is_none,
}
use bondsman.Common.Decimal.{big_int, to_text}
use bondsman.Common.Sort.{sort_by}
use bondsman.Common.Table.{Table, lookup, upsert}
use bondsman.Repository.Records.{WatchdogCatchRecord}
use bondsman.Repository.Tables.{CatchRow, StatusRow, Database}

abbrev pub catch_row : WatchdogCatchRecord → CatchRow
catch_row r = record {
  reward = r.reward;
  reasoning = r.reasoning;
  challenge_tx = r.challenge_tx;
  resolve_tx = r.resolve_tx;
  timestamp = r.timestamp;
}

abbrev pub catch_from_row : ℕ × CatchRow → WatchdogCatchRecord
catch_from_row (action_id, row) = record {
  action_id = action_id;
  reward = row.reward;
  reasoning = row.reasoning;
  challenge_tx = row.challenge_tx;
  resolve_tx = row.resolve_tx;
  timestamp = row.timestamp;
}

unfoldable pub record_watchdog_catch : WatchdogCatchRecord → Database → Database
record_watchdog_catch r db = record db {
  watchdog_catches = upsert r.action_id (λ _. catch_row r) db.watchdog_catches;
}

unfoldable pub has_watchdog_catch : ℕ → Database → Bool
has_watchdog_catch action_id db = not (is_none (lookup action_id db.watchdog_catches))

unfoldable pub watchdog_catch : ℕ → Database → Option WatchdogCatchRecord
watchdog_catch action_id db =
    Option.map (λ row. catch_from_row (action_id, row)) (lookup action_id db.watchdog_catches)

unfoldable pub set_watchdog_heartbeat : String → ℕ → Database → Database
set_watchdog_heartbeat account now db = record db {
  watchdog_status = some (record { account = account; heartbeat_at = now });
}

abbrev latest_catch_first : ℕ × CatchRow → ℕ × CatchRow → Bool
latest_catch_first p q = leb q.1.timestamp p.1.timestamp

abbrev take {ℓ} : {A : Type ℓ} → ℕ → List A → List A
take ℕ.zero xs = []
take (ℕ.suc n) [] = []
take (ℕ.suc n) (x ∷ xs) = x ∷ take n xs

pub record WatchdogSummary : Type 0 where
  pub running : Bool
  pub account : Option String
  pub recent_catches : List WatchdogCatchRecord
  pub total_reward_earned : String

-- `reduce((total, row) => total + BigInt(row.reward), 0n)`: `none` where a reward is no number, and
-- the code throws.
total_from : ℕ → Table ℕ CatchRow → Option ℕ
total_from total [] = some total
total_from total ((_, row) ∷ t) = elim (big_int row.reward) [
  | none ↦ none
  | some reward ↦ total_from (total + reward) t
]

-- `nowMs - heartbeat <= maxAge`, also for a heartbeat that lies ahead
is_running : ℕ → ℕ → Option StatusRow → Bool
is_running now max_age none = false
is_running now max_age (some status) = leb (now - status.heartbeat_at) max_age

unfoldable pub watchdog_summary : ℕ → ℕ → Database → Option WatchdogSummary
unfolding total_from is_running
watchdog_summary now max_age db = elim (total_from 0 db.watchdog_catches) [
  | none ↦ none
  | some total ↦ some (record {
    running = is_running now max_age db.watchdog_status;
    account = Option.map (λ s. s.account) db.watchdog_status;
    recent_catches = map catch_from_row (take 20 (sort_by latest_catch_first db.watchdog_catches));
    total_reward_earned = to_text total;
  })
]
