-- ===== src/Arm/Served.antt =====
-- What a request to the service of arming costs, and the identifiers of its invoices.
use bondsman.Common.{
  ℕ, ◌+◌, ◌*◌, ◌≤◌, ◌<◌, max, String, List, [], ◌∷◌, string_eq, nat_eq, ◌≡◌, arith, ◌↔◌,
}
use bondsman.Arm.{Outside, World}
use bondsman.Arm.Logic.{
  started, cost, StartsAtMost, StartsAtMost-attempt, StartsAtMost-if, StartsAtMost-le,
  StartsAtMost-after,
}
use bondsman.Arm.Loops.{next_invoice_id}
use bondsman.Arm.Request.{Deployed, ArmRequest}
use bondsman.Arm.Sent.{Quiet, thrown, given, called}
use bondsman.Arm.Bounded.{arm_once-starts}
use bondsman.Arm.Service.{
  ensure_demo_funding, fund_to_target, balance_error, run_funded_demo_action, serve, Asked, enqueue,
  transferable_top_up, funding_shortfall, minimum_transfer_motes,
}

module _ {S : Type 0} (outside : Outside S) (name : String) where
  balance_error-Quiet : (e : _) → Quiet outside name (balance_error outside e)
  unfolding balance_error
  balance_error-Quiet e = thrown outside name _ _

  fund_to_target-Quiet : (target : ℕ) → Quiet outside name (fund_to_target outside target)
  unfolding fund_to_target
  fund_to_target-Quiet target =
      StartsAtMost-after
        (StartsAtMost-attempt (called outside name _)
          λ e. StartsAtMost-if _ (given outside name 0) (thrown outside name _ e))
        λ balance. StartsAtMost-if _ (given outside name tt) (called outside name _)

  ensure_demo_funding-Quiet : Quiet outside name (ensure_demo_funding outside)
  unfolding ensure_demo_funding
  ensure_demo_funding-Quiet =
      StartsAtMost-after (StartsAtMost-attempt (called outside name _) balance_error-Quiet) λ agent.
        StartsAtMost-after (StartsAtMost-attempt (called outside name _) balance_error-Quiet)
          λ deployer. StartsAtMost-if _ (thrown outside name _ _) (
            StartsAtMost-if _
              (StartsAtMost-after (fund_to_target-Quiet _) λ _.
                StartsAtMost-after (called outside name _)
                  λ after. StartsAtMost-if _ (thrown outside name _ _) (given outside name tt))
              (given outside name tt))

  -- Twice what an arming starts.
  serve-starts :
      (deployed : Deployed) (request : ArmRequest)
      → StartsAtMost name
          (2
            * (cost name "submit_invoice"
                + 2 * cost name "initiate_action"
                + cost name "approve"
                + cost name "post_bond"
                + cost name "execute_action"))
          (serve outside deployed request)
  unfolding serve run_funded_demo_action
  serve-starts deployed request =
      let once =
        StartsAtMost-after ensure_demo_funding-Quiet
          λ _. arm_once-starts outside name deployed request in
      StartsAtMost-le (omega arith) (
        StartsAtMost-attempt once λ e.
          StartsAtMost-if _
            (StartsAtMost-attempt once
              λ again. StartsAtMost-if _ (thrown outside name _ _) (thrown outside name _ again))
            (StartsAtMost-le (omega arith) (thrown outside name _ e)))

-- Whatever the chain answers, and also where the request fails, serving it starts at most four
-- transactions that initiate an action, and at most two that submit an invoice, approve, post a
-- bond or execute an action.
pub serve-bounds :
    {S : Type 0} (outside : Outside S) (deployed : Deployed) (request : ArmRequest) (w : World S)
    → let after = (serve outside deployed request w).1 in
      (started "initiate_action" after.log ≤ started "initiate_action" w.log + 4)
      × (started "submit_invoice" after.log ≤ started "submit_invoice" w.log + 2)
      × (started "approve" after.log ≤ started "approve" w.log + 2)
      × (started "post_bond" after.log ≤ started "post_bond" w.log + 2)
      × (started "execute_action" after.log ≤ started "execute_action" w.log + 2)
serve-bounds outside deployed request w = (
  (serve-starts outside "initiate_action" deployed request).at_most w,
  (serve-starts outside "submit_invoice" deployed request).at_most w,
  (serve-starts outside "approve" deployed request).at_most w,
  (serve-starts outside "post_bond" deployed request).at_most w,
  (serve-starts outside "execute_action" deployed request).at_most w,
)

-- Identifiers that rise, all above a bound.
abbrev pub IsRising : ℕ → List ArmRequest → Type 0
IsRising bound [] = Unit
IsRising bound (request ∷ requests) =
    (bound < request.requested_invoice_id) × IsRising request.requested_invoice_id requests

-- The invoices of the requests have rising identifiers, above those drawn before, also where the
-- clock stands still or is set back.
pub enqueue-IsRising :
    (previous : ℕ) (calls : List Asked) → IsRising previous (enqueue previous calls)
unfolding enqueue next_invoice_id
enqueue-IsRising previous [] = tt
enqueue-IsRising previous (a ∷ calls) =
    (omega arith, enqueue-IsRising (max a.now (previous + 1)) calls)

-- A top-up brings a balance to its target, or above it where less than the smallest transfer is
-- missing; there is none exactly where the balance is at the target.
pub transferable_top_up_exact :
    (current target : ℕ)
    → (target ≤ current + transferable_top_up current target)
      × ((transferable_top_up current target ≡ 0) ↔ (target ≤ current))
      × ((current < target) → (minimum_transfer_motes ≤ transferable_top_up current target))
unfolding transferable_top_up funding_shortfall
transferable_top_up_exact current target = (ground arith, ground arith, λ h. ground arith)
