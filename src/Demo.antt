-- ===== src/Demo.antt =====
-- The demo cases that a visitor may challenge by hand: `backend/src/api/eligibility.ts`,
-- `backend/src/api/demo-ready.ts` and, in Pool, `backend/src/api/ready-pool.ts`.
pub mod Pool
pub mod Cases
mod Examples
use bondsman.Common.{
  ℕ, ◌+◌, String, Bool, true, false, not, ◌&&◌, ◌||◌, Option, none, some, ◌==◌, string_eq, ltb, leb,
  is_none, filter, length, if◌then◌else◌,
}
use bondsman.Repository.Records.{ActionRecord}
use bondsman.Repository.Tables.{Database}
use bondsman.Repository.Actions.{list_actions}
use bondsman.Watchdog.Detection.{is_true}

-- `action.controllerHash === controllerHash`, where the action may have none
abbrev pub same_controller : Option String → String → Bool
same_controller none hash = false
same_controller (some h) hash = h == hash

unfoldable pub is_challenge_eligible : ActionRecord → String → ℕ → Bool
is_challenge_eligible action controller_hash now =
    same_controller action.controller_hash controller_hash
    && action.status == "Executed"
    && is_none action.challenger
    && ltb now action.window_end
    && is_true action.duplicate_proven

pub data IneligibilityCode : Type 0 where
  no_eligible_action stale_contract_version already_challenged : IneligibilityCode
  challenge_window_closed not_executable : IneligibilityCode

unfoldable pub challenge_ineligibility_code : Option ActionRecord → String → ℕ → IneligibilityCode
challenge_ineligibility_code none controller_hash now = no_eligible_action
challenge_ineligibility_code (some action) controller_hash now =
    if not (same_controller action.controller_hash controller_hash)
    then stale_contract_version
    else if not (is_none action.challenger)
    then already_challenged
    else if leb action.window_end now
    then challenge_window_closed
    else if not (action.status == "Executed") || not (is_true action.duplicate_proven)
    then not_executable
    else no_eligible_action

-- `windowEnd - now >= minRemainingMs`, without the difference
unfoldable pub is_ready_demo_case : ActionRecord → String → ℕ → ℕ → Bool
is_ready_demo_case action controller_hash now min_remaining_ms =
    same_controller action.controller_hash controller_hash
    && action.status == "Executed"
    && is_none action.challenger
    && is_true action.duplicate_proven
    && action.reserved_for_manual
    && leb (now + min_remaining_ms) action.window_end

unfoldable pub ready_demo_case_count : Database → String → ℕ → ℕ → ℕ
ready_demo_case_count db controller_hash now min_remaining_ms =
    length
      (filter (λ a. is_ready_demo_case a controller_hash now min_remaining_ms) (list_actions db))
