-- ===== src/Demo/Pool/Arming.antt =====
-- The armings of the pool: one at a time, and not before the delay after a failure.
use bondsman.Common.{
  ℕ, ◌+◌, ◌*◌, ◌^◌, ◌≤◌, ◌<◌, min, String, List, [], ◌∷◌, ◌≡◌, refl, arith, if◌then◌else◌,
}
use bondsman.Repository.Tables.{Database}
use bondsman.Demo.Pool.{
  DemoReadyPoolConfig, Pool, World, Event, tick, arm_succeeds, arm_fails, step, steps, created,
  start_tick, armed, failed, backoff_delay, skipped, max_backoff_ms,
}

-- The flag tells whether an arming is pending.
abbrev IsGuarded : World → Type 0
IsGuarded w = w.pending ≡ (if w.pool.running then 1 else 0)

step-IsGuarded :
    (config : DemoReadyPoolConfig) (e : Event) (w : World)
    → IsGuarded w
    → IsGuarded (step config e w)
unfolding step start_tick armed failed
step-IsGuarded config (tick controller_hash now db) w h = ground arith
step-IsGuarded config arm_succeeds w h = ground arith
step-IsGuarded config (arm_fails spread now) w h = ground arith

steps-IsGuarded :
    (config : DemoReadyPoolConfig) (es : List Event) (w : World)
    → IsGuarded w
    → IsGuarded (steps config es w)
unfolding steps
steps-IsGuarded config [] w h = h
steps-IsGuarded config (e ∷ es) w h =
    steps-IsGuarded config es (step config e w) (step-IsGuarded config e w h)

-- However ticks and the ends of armings follow each other from the creation of the pool, at most one
-- arming is pending.
pub steps-pending :
    (config : DemoReadyPoolConfig) (es : List Event) → (steps config es created).pending ≤ 1
steps-pending config es = ground (arith, steps-IsGuarded config es created refl)

-- After an arming failed, with the `k`-th failure in a row, no tick arms again before the delay has
-- passed: interval * 2 ^ (k - 1), at most half an hour, where the random factor is at least 1.
pub failed-start_tick :
    (config : DemoReadyPoolConfig) (spread : ℕ → ℕ) (controller_hash : String) (now later : ℕ)
    (db : Database) (pool : Pool)
    → ((delay : ℕ) → delay ≤ spread delay)
    → later < now + min (config.interval_ms * 2 ^ pool.consecutive_failures) max_backoff_ms
    → (start_tick config controller_hash later db (failed config spread now pool)).0 ≡ skipped
unfolding start_tick failed backoff_delay
failed-start_tick config spread controller_hash now later db pool h l =
    ground (arith, h (min (config.interval_ms * 2 ^ pool.consecutive_failures) max_backoff_ms))
