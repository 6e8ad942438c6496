-- ===== src/Demo/Examples.antt =====
-- A case that is set aside for a visitor, and a pool whose arming fails.
use bondsman.Common.{◌+◌, ◌≤◌, true, false, none, some, List, [], ◌∷◌, ◌≡◌, All}
use bondsman.Policy.{duplicate_claim}
use bondsman.Repository.Records.{ActionRecord}
use bondsman.Repository.Tables.{empty_database}
use bondsman.Watchdog.Detection.{detect_duplicate_actions, detect_delivery_contradictions}
use bondsman.Demo.{is_ready_demo_case}
use bondsman.Demo.Cases.{detectors-leave_ready}
use bondsman.Demo.Pool.{DemoReadyPoolConfig, Pool, Event, tick, arm_fails, steps, created}
use bondsman.Demo.Pool.Arming.{steps-pending}

abbrev set_aside : ActionRecord
set_aside = record {
  action_id = 4;
  invoice_id = 2;
  agent = "account-hash-a";
  amount = "10000";
  claim_hash = "c";
  reasoning = "";
  reasoning_hash = "";
  bond_required = "200";
  bond_posted = "220";
  window_end = 900_000;
  status = "Executed";
  challenger = none;
  challenger_type = none;
  challenge_signing = none;
  controller_hash = some "hash-1";
  duplicate_proven = some true;
  fault_class = some duplicate_claim;
  evidence_root = none;
  reserved_for_manual = true;
  transactions = [];
}

detectors-leave_ready_example :
    All
      (λ a. is_ready_demo_case a "hash-1" 0 600_000 ≡ false)
      (detect_duplicate_actions (set_aside ∷ record set_aside { action_id = 3 } ∷ []) 5)
    × All
        (λ c. is_ready_demo_case c.action "hash-1" 0 600_000 ≡ false)
        (detect_delivery_contradictions
          (set_aside ∷ record set_aside { action_id = 3 } ∷ [])
          (λ _. none)
          5)
detectors-leave_ready_example =
    detectors-leave_ready (set_aside ∷ record set_aside { action_id = 3 } ∷ []) (λ _. none) "hash-1"
      0 600_000 5

abbrev one_case : DemoReadyPoolConfig
one_case = record { enabled = true; target = 1; min_window_ms = 900_000; interval_ms = 300_000 }

abbrev events : List Event
events =
    tick "hash-1" 10 empty_database
    ∷ tick "hash-1" 20 empty_database
    ∷ arm_fails (λ delay. delay + 7) 30
    ∷ tick "hash-1" 300_037 empty_database
    ∷ []

steps-pending_example : (steps one_case events created).pending ≤ 1
steps-pending_example = steps-pending one_case events

abbrev failed_once : Pool
failed_once = record { running = true; consecutive_failures = 1; retry_not_before_ms = 0 }
