-- ===== src/Arm/Service.antt =====
-- The service of `backend/src/api/arm.ts`: `runFundedDemoAction`, the funding of the agent with
-- `backend/src/casper/funding.ts`, and the queue of requests.
use Prim.Native.String
use bondsman.Common.{ℕ, ◌+◌, ◌-◌, String, true, List, [], ◌∷◌, ltb, ◌==◌, nat_eq, if◌then◌else◌}
use bondsman.Arm.{
  Failure, plain, Outcome, Outside, World, M, ◌>>=◌, ◌>>◌, pure, throw, attempt, outward,
}
use bondsman.Arm.Failures.{is_insufficient_funds_error, is_missing_purse}
use bondsman.Arm.Loops.{next_invoice_id}
use bondsman.Arm.Request.{Deployed, ArmRequest, Armed}
use bondsman.Arm.Once.{arm_once}

abbrev pub demo_gas_target_motes : ℕ
demo_gas_target_motes = 300_000_000_000

abbrev pub demo_transfer_gas_reserve_motes : ℕ
demo_transfer_gas_reserve_motes = 50_000_000_000

abbrev pub demo_owner_gas_reserve_motes : ℕ
demo_owner_gas_reserve_motes = 50_000_000_000

abbrev pub minimum_transfer_motes : ℕ
minimum_transfer_motes = 2_500_000_000

unfoldable pub funding_shortfall : ℕ → ℕ → ℕ
funding_shortfall current target = if ltb current target then target - current else 0

unfoldable pub transferable_top_up : ℕ → ℕ → ℕ
unfolding funding_shortfall
transferable_top_up current target =
    if funding_shortfall current target == 0
    then 0
    else if ltb (funding_shortfall current target) minimum_transfer_motes
    then minimum_transfer_motes
    else funding_shortfall current target

-- `DemoFundingUnavailableError`
abbrev pub unavailable : String → Failure
unavailable message = record (plain message) { funding_unavailable = true }

module _ {S : Type 0} (outside : Outside S) where
  -- The balance is read again; a purse that does not exist counts as empty.
  unfoldable pub fund_to_target : ℕ → M S (Unit {0})
  unfolding transferable_top_up
  fund_to_target target = do
    balance ←
        attempt (outward outside.agent_motes)
          (λ error. if is_missing_purse error then pure 0 else throw error)
    if transferable_top_up balance target == 0
        then pure tt
        else outward (outside.transfer (transferable_top_up balance target))

  -- The texts of the errors are cut to their beginnings.
  unfoldable pub balance_error : Failure → M S ℕ
  balance_error error = throw (plain (String.◌++◌ "demo CSPR balance check failed: " error.message))

  unfoldable pub ensure_demo_funding : M S (Unit {0})
  unfolding fund_to_target balance_error transferable_top_up
  ensure_demo_funding = do
    agent ← attempt (outward outside.agent_motes) balance_error
    deployer ← attempt (outward outside.deployer_motes) balance_error
    (let top_up = transferable_top_up agent demo_gas_target_motes in
        if ltb deployer (top_up + demo_transfer_gas_reserve_motes + demo_owner_gas_reserve_motes)
        then throw (unavailable "demo CSPR funding unavailable")
        else if ltb 0 top_up
        then (do
          fund_to_target demo_gas_target_motes
          after ← outward outside.agent_motes
          if ltb after demo_gas_target_motes
              then throw (unavailable "demo CSPR funding unavailable")
              else pure tt)
        else pure tt)

  -- One retry, for want of funds only.
  unfoldable pub run_funded_demo_action : {A : Type 0} → M S (Unit {0}) → M S A → M S A
  run_funded_demo_action top_up operation = attempt (top_up >> operation) (λ error.
      if is_insufficient_funds_error error
      then attempt (top_up >> operation) (λ again.
        if is_insufficient_funds_error again
        then throw
            (unavailable "demo CSPR funding is temporarily unavailable after one top-up retry")
        else throw again)
      else throw error)

  unfoldable pub serve : Deployed → ArmRequest → M S Armed
  unfolding run_funded_demo_action ensure_demo_funding arm_once
  serve deployed request =
      run_funded_demo_action ensure_demo_funding (arm_once outside deployed request)

  -- The queue: each request is served after the one before it has ended, well or not.
  unfoldable pub serve_all : Deployed → List ArmRequest → World S → List (Outcome Armed) × World S
  unfolding serve
  serve_all deployed [] w = ([], w)
  serve_all deployed (request ∷ requests) w =
      let (result, w') = serve deployed request w in
      let (results, last) = serve_all deployed requests w' in (result ∷ results, last)

-- A call of the service: the clock then, and what it asks for.
pub record Asked : Type 0 where
  pub now : ℕ
  pub request : ArmRequest

-- The identifier is drawn when the service is called.
unfoldable pub enqueue : ℕ → List Asked → List ArmRequest
unfolding next_invoice_id
enqueue previous [] = []
enqueue previous (a ∷ calls) =
    let id = next_invoice_id a.now previous in
    record a.request { requested_invoice_id = id } ∷ enqueue id calls
