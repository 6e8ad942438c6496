-- ===== src/Quoting.antt =====
-- Quotes: `quoteResponse` of `backend/src/verify/x402.ts`, what `POST /v1/actions/quote` of
-- `backend/src/api/routes.ts` does once a payment is settled, and `projectedBondPolicyReader`. The
-- digest of a quote and the text of a time are parameters; the amount and the fault class are what
-- the guards of the route let through.
pub mod Compared
pub mod Issued
pub mod Route
pub mod Paid
mod Examples
use mathlib.Core.Option
use bondsman.Common.{
  ℕ, ◌+◌, ◌*◌, String, Bool, true, false, Option, none, some, or_default, string_eq, if◌then◌else◌,
}
use bondsman.Common.Int.{ℤ, pos, negsuc}
use bondsman.Common.Decimal.{big_int, to_text}
use bondsman.Common.Json.{Json, Fields, field, end, str, num, obj}
use bondsman.Policy.{
  FaultClass, duplicate_claim, delivery_contradiction, RiskTier, standard, elevated, high, Verifier,
  duplicate_claim_v2, delivery_contradiction_v2, BondPolicyResult, token_unit, policy_for,
}
use bondsman.Repository.Records.{PaidQuoteRecord, paid}
use bondsman.Repository.Tables.{Database, Sql, done, constraint_failed}
use bondsman.Repository.Projection.{reputation}
use bondsman.Repository.Quotes.{upsert_paid_quote}
use bondsman.Policy.{fault_class_text}

-- The receipt of the settled payment.
pub record Receipt : Type 0 where
  pub amount : String
  pub transaction : String
  pub payer : Option String
  pub facilitator : String

-- What is digested for the hash of the quote: amount, agent, bond, transaction and fault class.
pub record Outside : Type 0 where
  pub quote_hash : String → String → String → String → FaultClass → String
  pub iso_text : ℕ → String

pub data Quoted : Type 0 where
  quoted : PaidQuoteRecord → Database → Quoted
  rejected : Quoted

pub risk_tier_text : RiskTier → String
risk_tier_text standard = "standard"
risk_tier_text elevated = "elevated"
risk_tier_text high = "high"

pub verifier_text : Verifier → String
verifier_text duplicate_claim_v2 = "duplicate-claim-v2"
verifier_text delivery_contradiction_v2 = "delivery-contradiction-v2"

-- `typeof row?.score === 'number' ? row.score : null`
unfoldable pub reputation_score : String → Database → Option ℤ
reputation_score agent db = Option.map (λ row. row.score) (reputation agent db)

-- The policy reader of the submission, from the projection; `none` is a throw.
unfoldable pub projected_bond_policy : String → Database → String → FaultClass → Option String
unfolding reputation_score
projected_bond_policy agent db amount fault_class =
    Option.map (λ (p : BondPolicyResult). p.estimated_minimum_bond)
      (policy_for amount fault_class (reputation_score agent db))

abbrev pub default_amount : String
default_amount = to_text (50_000 * token_unit)

-- The quote is stored; a throw of the statement is a throw of the handler.
unfoldable pub store_quote : PaidQuoteRecord → Database → Quoted
store_quote quote db = elim (upsert_paid_quote quote db) [
  | done db' ↦ quoted quote db'
  | constraint_failed ↦ rejected
]

module _ (outside : Outside) (agent : String) where
  unfoldable pub policy_snapshot : String → FaultClass → ℤ → BondPolicyResult → ℕ → Fields
  unfolding fault_class_text risk_tier_text verifier_text
  policy_snapshot amount fault_class score policy now =
      field "schemaId" (str "bondsman.quote-policy-snapshot.v1") (
        field "formulaVersion" (str "bond-policy-v1") (
          field "amount" (str amount) (
            field "faultClass" (str (fault_class_text fault_class)) (
              field "reputationInput"
                (obj (
                  field "source" (str "repository_projection")
                    (field "agent" (str agent) (field "score" (num score) end))))
                (field "bondBasisPoints" (num (pos policy.bond_basis_points)) (
                  field "riskTier" (str (risk_tier_text policy.risk_tier)) (
                    field "quotedMinimumBond" (str policy.estimated_minimum_bond) (
                      field "verifier" (str (verifier_text policy.verifier)) (
                        field "challengeWindow" (num (pos policy.challenge_window_seconds))
                          (field "policyTimestamp" (str (outside.iso_text now)) end))))))))))

  -- The quote, with its bond as a number.
  unfoldable pub quote_record :
      String → FaultClass → ℤ → BondPolicyResult → ℕ → Receipt → ℕ → PaidQuoteRecord
  unfolding policy_snapshot verifier_text
  quote_record amount fault_class score policy required_bond receipt now = record {
    quote_hash =
        outside.quote_hash amount agent (to_text required_bond) receipt.transaction fault_class;
    fault_class = fault_class;
    verifier = verifier_text policy.verifier;
    amount = amount;
    required_bond = to_text required_bond;
    challenge_window = policy.challenge_window_seconds;
    quote_expiry = now + 15 * 60_000;
    payer = receipt.payer;
    settlement_tx = receipt.transaction;
    payment_amount = receipt.amount;
    facilitator = receipt.facilitator;
    status = paid;
    submit_payload_hash = none;
    consumed_action_id = none;
    created_at = now;
    consumed_at = none;
    policy_snapshot = some (policy_snapshot amount fault_class score policy now);
  }

  -- `BigInt(text)` throws where the text is no number.
  unfoldable pub quote_response :
      Option String → Option FaultClass → Receipt → ℕ → Database → Quoted
  unfolding store_quote quote_record reputation_score
  quote_response amount fault_class receipt now db =
      let fault = or_default fault_class delivery_contradiction in
      let score = or_default (reputation_score agent db) (negsuc 19) in
      elim (big_int (or_default amount default_amount)) [
        | none ↦ rejected
        | some value ↦ elim (policy_for (to_text value) fault (some score)) [
          | none ↦ rejected
          | some policy ↦ elim (big_int policy.estimated_bond) [
            | none ↦ rejected
            | some bond ↦
                store_quote (quote_record (to_text value) fault score policy bond receipt now) db
          ]
        ]
      ]
