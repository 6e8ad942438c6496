-- ===== src/Demo/Cases.antt =====
-- What the tests of an action promise each other, and the watchdog.
use bondsman.Common.{
  ℕ, ◌+◌, ◌<◌, All, All-weaken, String, true, false, Option, some, List, ◌≡◌, ◌↔◌, arith,
}
use bondsman.Repository.Records.{ActionRecord, DeliveryAttestationRecord}
use bondsman.Watchdog.Detection.{
  detect_duplicate_actions, detect_delivery_contradictions, challengeable_duplicate,
}
use bondsman.Watchdog.Detection.Duplicates.{detect_duplicate_actions-challengeable}
use bondsman.Watchdog.Detection.Contradictions.{detect_delivery_contradictions-IsFounded}
use bondsman.Demo.{
  is_challenge_eligible, challenge_ineligibility_code, no_eligible_action, is_ready_demo_case,
}

-- The code given for an action names a reason exactly where the action cannot be challenged.
pub challenge_ineligibility_code_exact :
    (action : ActionRecord) (controller_hash : String) (now : ℕ)
    → (challenge_ineligibility_code (some action) controller_hash now ≡ no_eligible_action)
      ↔ (is_challenge_eligible action controller_hash now ≡ true)
unfolding challenge_ineligibility_code is_challenge_eligible
challenge_ineligibility_code_exact action controller_hash now = ground arith

not_ready_of_duplicate :
    (action : ActionRecord) (controller_hash : String) (now min_remaining_ms later : ℕ)
    → challengeable_duplicate later action ≡ true
    → is_ready_demo_case action controller_hash now min_remaining_ms ≡ false
unfolding is_ready_demo_case challengeable_duplicate
not_ready_of_duplicate action controller_hash now min_remaining_ms later h = ground arith

not_ready_of_open :
    (action : ActionRecord) (controller_hash : String) (now min_remaining_ms : ℕ)
    → action.reserved_for_manual ≡ false
    → is_ready_demo_case action controller_hash now min_remaining_ms ≡ false
unfolding is_ready_demo_case
not_ready_of_open action controller_hash now min_remaining_ms h = ground arith

-- Neither detector of the watchdog ever reports a case that counts as ready, at any time and for
-- whatever attestations are stored: ready cases are left to the visitors.
pub detectors-leave_ready :
    (actions : List ActionRecord) (attestation_for : ℕ → Option DeliveryAttestationRecord)
    (controller_hash : String) (now min_remaining_ms later : ℕ)
    → All
        (λ a. is_ready_demo_case a controller_hash now min_remaining_ms ≡ false)
        (detect_duplicate_actions actions later)
      × All
          (λ c. is_ready_demo_case c.action controller_hash now min_remaining_ms ≡ false)
          (detect_delivery_contradictions actions attestation_for later)
detectors-leave_ready actions attestation_for controller_hash now min_remaining_ms later = (
  All-weaken _ _ (λ a h. not_ready_of_duplicate a controller_hash now min_remaining_ms later h)
      (detect_duplicate_actions actions later)
      (detect_duplicate_actions-challengeable actions later),
  All-weaken _ _ (λ c h. not_ready_of_open c.action controller_hash now min_remaining_ms h.2)
      (detect_delivery_contradictions actions attestation_for later)
      (detect_delivery_contradictions-IsFounded later attestation_for actions),
)

-- A case that counts as ready, with some time left required, can be challenged at any time until
-- that much time is gone.
ready-eligible :
    (action : ActionRecord) (controller_hash : String) (now later min_remaining_ms : ℕ)
    → is_ready_demo_case action controller_hash now min_remaining_ms ≡ true
    → later < now + min_remaining_ms
    → is_challenge_eligible action controller_hash later ≡ true
unfolding is_ready_demo_case is_challenge_eligible
ready-eligible action controller_hash now later min_remaining_ms h l = ground arith
