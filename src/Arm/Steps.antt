-- ===== src/Arm/Steps.antt =====
-- `runArmStep` of `backend/src/api/arm.ts`, and the steps of `armOnce` that it makes, each with what follows
-- when the transaction is refused and may have reached the chain all the same.
use Prim.Native.String
use bondsman.Common.{
  ℕ, ◌-◌, String, Bool, true, false, ◌||◌, Option, none, some, ◌==◌, string_eq, leb, ltb,
  if◌then◌else◌,
}
use bondsman.Arm.Failures.{is_transient_rpc_error}
use bondsman.Arm.{
  Failure, plain, ArmSigner, Call, mint, submit_invoice, initiate_action, approve, post_bond,
  execute_action, step_start, step_end, step_failed, RawAction, Outside, M, ◌>>=◌, ◌>>◌, pure,
  throw, attempt, ask, outward, write, number,
}

abbrev pub entrypoint : Call → String
entrypoint (mint _ _) = "mint"
entrypoint (submit_invoice _ _ _ _ _) = "submit_invoice"
entrypoint (initiate_action _ _ _ _) = "initiate_action"
entrypoint (approve _) = "approve"
entrypoint (post_bond _) = "post_bond"
entrypoint (execute_action _) = "execute_action"

-- The message of a step that failed.
failed_message : Call → ArmSigner → String → String
failed_message call signer reason = String.◌++◌ (entrypoint call) (
    String.◌++◌ " failed; signer=" (
      String.◌++◌ signer.role
        (String.◌++◌ " (" (String.◌++◌ signer.account (String.◌++◌ "); reason=" reason)))))

module _ {S : Type 0} (outside : Outside S) where
  unfoldable pub step_ended : Call → ArmSigner → ℕ → String → M S String
  step_ended call signer started hash = do
    now ← ask outside.now
    write (step_end call signer (now - started) hash)
    pure hash

  unfoldable pub step_refused : Call → ArmSigner → ℕ → Failure → M S String
  unfolding failed_message
  step_refused call signer started error = do
    now ← ask outside.now
    write (step_failed call signer (now - started) error.message)
    throw (plain (failed_message call signer error.message))

  -- `runArmStep` around `callContract`.
  unfoldable pub transact : ArmSigner → Call → M S String
  unfolding step_ended step_refused
  transact signer call = do
    started ← ask outside.now
    write (step_start call signer)
    attempt (outward (outside.call_contract call) >>= step_ended call signer started)
        (step_refused call signer started)

  -- `ensureTokenTarget`, whose transaction is not a step.
  unfoldable pub ensure_token_target : String → ℕ → M S (Unit {0})
  unfolding number
  ensure_token_target address target = do
    text ← outward (outside.read_balance address)
    balance ← number text
    if leb target balance
        then pure tt
        else (outward (outside.call_contract (mint address (target - balance))) >> pure tt)

  -- The error goes on unless it is transient.
  unfoldable pub unless_transient : {A : Type 0} → Failure → M S A → M S A
  unless_transient error m = if is_transient_rpc_error error then m else throw error

  unfoldable pub invoice_exists : ℕ → M S Bool
  invoice_exists id =
      attempt (outward (outside.read_invoice_paid id) >> pure true)
        (λ error. if is_transient_rpc_error error then throw error else pure false)

  -- The invoice of a new action.
  unfoldable pub ensure_invoice : ArmSigner → ℕ → M S String → (String → Call) → M S (Unit {0})
  unfolding transact invoice_exists unless_transient
  ensure_invoice deployer id order_hash call = do
    exists ← invoice_exists id
    if exists
        then pure tt
        else attempt ((order_hash >>= λ hash. transact deployer (call hash)) >> pure tt)
            (λ error. unless_transient error (outward (outside.read_invoice_paid id) >> pure tt))

  -- The hash of the transaction, where there is one.
  unfoldable pub initiate : ArmSigner → ℕ → Call → M S (Option String)
  unfolding transact unless_transient
  initiate agent action_id call =
      attempt (transact agent call >>= λ hash. pure (some hash)) (λ error. unless_transient error (
        attempt (outward (outside.read_action action_id) >> pure none) (λ state_error.
          if is_transient_rpc_error state_error
          then throw error
          else (transact agent call >>= λ hash. pure (some hash)))))

  unfoldable pub ensure_allowance : ArmSigner → String → M S (Option String)
  unfolding transact unless_transient number
  ensure_allowance agent bond_required = do
    text ← outward outside.read_allowance
    allowance ← number text
    required ← number bond_required
    if ltb allowance required
        then attempt (transact agent (approve bond_required) >>= λ hash. pure (some hash)) (λ error.
          unless_transient error (do
            again ← outward outside.read_allowance
            confirmed ← number again
            if ltb confirmed required then throw error else pure none))
        else pure none

  -- A transaction that counts as done where the action is in a state of the list afterwards.
  unfoldable pub confirm_step : ArmSigner → ℕ → Call → (String → Bool) → M S (Option String)
  unfolding transact unless_transient
  confirm_step agent action_id call reached =
      attempt (transact agent call >>= λ hash. pure (some hash)) (λ error.
        unless_transient error (do
          confirmed ← outward (outside.read_action action_id)
          if reached confirmed.status then pure none else throw error))

  -- The bond of an action that is only initiated, and the action afterwards.
  unfoldable pub ensure_bond :
      ArmSigner → ℕ → RawAction → M S (RawAction × Option String × Option String)
  unfolding ensure_allowance confirm_step
  ensure_bond agent action_id raw =
      if raw.status == "Initiated"
      then (do
        approved ← ensure_allowance agent raw.bond_required
        posted ←
            confirm_step agent action_id (post_bond action_id)
              (λ status. status == "Bonded" || status == "Executed")
        after ← outward (outside.read_action action_id)
        pure (after, approved, posted))
      else pure (raw, none, none)

  unfoldable pub ensure_executed : ArmSigner → ℕ → RawAction → M S (Option String)
  unfolding confirm_step
  ensure_executed agent action_id raw =
      if raw.status == "Bonded"
      then confirm_step agent action_id (execute_action action_id) (λ status. status == "Executed")
      else pure none
