-- ===== src/Arm/Once.antt =====
-- `armOnce` of `backend/src/api/arm.ts`.
use mathlib.Core.Option
use bondsman.Common.{
  ℕ, ◌-◌, String, Option, none, some, or_default, List, ◌++◌, ◌==◌, nat_eq, string_eq,
  if◌then◌else◌,
}
use bondsman.Repository.Records.{goods_not_received}
use bondsman.Repository.Actions.{upsert_invoice, upsert_action, action}
use bondsman.Arm.{
  plain, initiate_action, RawAction, Outside, M, ◌>>=◌, ◌>>◌, pure, throw, ask, outward, modify,
  query,
}
use bondsman.Arm.Loops.{projected_action_views, resolve_action_cursor, assert_challenge_window}
use bondsman.Arm.Request.{
  Deployed, ArmRequest, Armed, SeedInvoice, agent_token_target, pool_token_target,
  is_duplicate_claim, is_some, named, check_key, check_version, find_pending, invoice_for,
  reasoning_for, ready, paid_invoice, armed_action, purchase_order_hash, invoice_call,
}
use bondsman.Arm.Steps.{ensure_token_target, ensure_invoice, initiate, ensure_bond, ensure_executed}

module _ {S : Type 0} (outside : Outside S) (deployed : Deployed) where
  -- What is recorded, once the action is ready.
  unfoldable pub store_armed :
      ArmRequest → ℕ → String → SeedInvoice → RawAction → List (String × String) → M S (Unit {0})
  unfolding armed_action paid_invoice
  store_armed request action_id reasoning invoice raw transactions = do
    modify (upsert_invoice (paid_invoice outside deployed invoice))
    modify
        (upsert_action (armed_action outside deployed request action_id reasoning raw transactions))
    outward (outside.persist_run action_id)

  unfoldable pub answer : ArmRequest → ℕ → SeedInvoice → M S Armed
  answer request action_id invoice = do
    detail ← query (action action_id)
    if is_duplicate_claim request.fault_class
        then pure (record { detail = detail; attestation = none })
        else (do
          now ← ask outside.now
          nonce ← ask outside.random_hex
          pure (record {
            detail = detail;
            attestation = some (record {
              action_id = action_id;
              invoice_id = invoice.id;
              event_type = or_default request.event_type goods_not_received;
              occurred_at = now - 5_000;
              nonce = nonce;
              buyer_public_key = or_default request.buyer_public_key "";
            });
          }))

  -- From the action on the chain, with its bond and its execution outstanding, to the answer.
  unfoldable pub complete : ArmRequest → ℕ → String → SeedInvoice → ℕ → Option String → M S Armed
  unfolding ready store_armed answer
  complete request action_id reasoning invoice started_at initiated = do
    first ← outward (outside.read_action action_id)
    bonded ← ensure_bond outside deployed.agent action_id first
    executed ← ensure_executed outside deployed.agent action_id (bonded.0)
    raw ← ready outside deployed request 15 action_id
    assert_challenge_window outside started_at raw.window_end
    (if raw.status == "Executed" then pure tt else throw (plain "armed action is not executed"))
    store_armed request action_id reasoning invoice raw (
        named "initiate" initiated
        ++ named "approve" (bonded.1)
        ++ named "postBond" (bonded.2)
        ++ named "execute" executed)
    ready outside deployed request 1 action_id
    answer request action_id invoice

  -- The invoice and the action of an arming.
  unfoldable pub begin_new : ArmRequest → SeedInvoice → ℕ → String → M S (Option String)
  begin_new request invoice action_id reasoning =
      initiate outside deployed.agent action_id (
        initiate_action invoice.id invoice.claim_hash invoice.amount
          (deployed.blake2b256 reasoning))

  unfoldable pub arm_once : ArmRequest → M S Armed
  unfolding check_version check_key find_pending invoice_for reasoning_for purchase_order_hash
      invoice_call begin_new complete
  arm_once request = do
    check_version outside deployed request
    ensure_token_target outside deployed.agent.account agent_token_target
    ensure_token_target outside deployed.pool_address pool_token_target
    views ← query projected_action_views
    cursor ← resolve_action_cursor outside views
    pending ← find_pending outside deployed request (cursor.0)
    check_key outside deployed request
    invoice ←
        invoice_for outside deployed request
          (or_default (Option.map (λ p. p.invoice_id) pending) request.requested_invoice_id)
    (if is_some pending
        then pure tt
        else ensure_invoice outside deployed.deployer invoice.id
            (purchase_order_hash outside deployed request)
            (invoice_call outside deployed request invoice))
    reasoning ← reasoning_for outside deployed request
    started_at ← ask outside.now
    (let action_id = or_default (Option.map (λ p. p.action_id) pending) (cursor.1) in
        do
          initiated ←
              (if is_some pending then pure none else begin_new request invoice action_id reasoning)
          complete request action_id reasoning invoice started_at initiated)
