-- ===== src/Demo/Pool.antt =====
-- `createDemoReadyPool` of `backend/src/api/ready-pool.ts`. A tick waits for the arming of a case,
-- so it is two parts, its start and its end. The random factor of the delay is an argument.
pub mod Arming
use bondsman.Common.{
  ℕ, suc, ◌+◌, ◌-◌, ◌*◌, ◌^◌, ◌≤◌, ◌<◌, min, String, Bool, true, false, List, [], ◌∷◌, ◌≡◌, refl,
  arith, ltb, leb, if◌then◌else◌, Bool-cases, inl, inr,
}
use bondsman.Repository.Tables.{Database}
use bondsman.Demo.{ready_demo_case_count}

pub record DemoReadyPoolConfig : Type 0 where
  pub enabled : Bool
  pub target : ℕ
  pub min_window_ms : ℕ
  pub interval_ms : ℕ

-- The variables that the ticks share.
pub record Pool : Type 0 where
  pub running : Bool
  pub consecutive_failures : ℕ
  pub retry_not_before_ms : ℕ

abbrev pub max_backoff_ms : ℕ
max_backoff_ms = 1_800_000

pub data Started : Type 0 where
  skipped arming : Started

-- Up to the call that arms a case. Where there is no need for one, `finally` is reached at once.
unfoldable pub start_tick : DemoReadyPoolConfig → String → ℕ → Database → Pool → Started × Pool
start_tick config controller_hash now db pool =
    if config.enabled
    then if ltb now pool.retry_not_before_ms
      then (skipped, pool)
      else if pool.running
      then (skipped, pool)
      else if leb config.target (ready_demo_case_count db controller_hash now config.min_window_ms)
      then (skipped, pool)
      else (arming, record pool { running = true })
    else (skipped, pool)

-- `Math.min(intervalMs * 2 ** (consecutiveFailures - 1), MAX_BACKOFF_MS)`
unfoldable pub backoff_delay : DemoReadyPoolConfig → ℕ → ℕ
backoff_delay config failures = min (config.interval_ms * 2 ^ (failures - 1)) max_backoff_ms

unfoldable pub armed : Pool → Pool
armed pool = record { running = false; consecutive_failures = 0; retry_not_before_ms = 0 }

-- `spread` is the multiplication by the random factor, and the rounding.
unfoldable pub failed : DemoReadyPoolConfig → (ℕ → ℕ) → ℕ → Pool → Pool
unfolding backoff_delay
failed config spread now pool = record {
  running = false;
  consecutive_failures = suc pool.consecutive_failures;
  retry_not_before_ms = now + spread (backoff_delay config (suc pool.consecutive_failures));
}

-- What happens to the pool, with the armings that have not ended.
pub record World : Type 0 where
  pub pool : Pool
  pub pending : ℕ

pub data Event : Type 0 where
  tick : String → ℕ → Database → Event
  arm_succeeds : Event
  arm_fails : (ℕ → ℕ) → ℕ → Event

unfoldable pub step : DemoReadyPoolConfig → Event → World → World
unfolding start_tick armed failed
step config (tick controller_hash now db) w =
    let (started, pool) = start_tick config controller_hash now db w.pool in
    elim started [
      | skipped ↦ record w { pool = pool }
      | arming ↦ record { pool = pool; pending = suc w.pending }
    ]
step config arm_succeeds w =
    if ltb 0 w.pending then record { pool = armed w.pool; pending = w.pending - 1 } else w
step config (arm_fails spread now) w =
    if ltb 0 w.pending
    then record { pool = failed config spread now w.pool; pending = w.pending - 1 }
    else w

unfoldable pub steps : DemoReadyPoolConfig → List Event → World → World
unfolding step
steps config [] w = w
steps config (e ∷ es) w = steps config es (step config e w)

abbrev pub created : World
created = record {
  pool = record { running = false; consecutive_failures = 0; retry_not_before_ms = 0 };
  pending = 0;
}
