-- ===== src/Submit.antt =====
-- `POST /v1/actions/submit` of `backend/src/api/routes.ts`. The handler waits twice, for the current
-- bond policy and for the submission on chain, so it is three parts, between which other requests
-- run: `admit`, `authorize` and `settle`. What the waits return is an argument.
pub mod Handler
pub mod Interleaving
mod Examples
use bondsman.Common.{
  ℕ, ◌≤◌, String, Bool, true, false, not, ◌&&◌, Option, none, some, ◌==◌, string_eq, leb, is_none,
  if◌then◌else◌,
}
use bondsman.Common.Json
use bondsman.Common.Json.{Json, Fields, str}
use bondsman.Policy.{fault_class_text, FaultClass, duplicate_claim, delivery_contradiction}
use bondsman.Economics.{bond_economic_relation}
use bondsman.Repository.Records.{PaidQuoteRecord, DeliveryEventType, QuoteStatus, paid}
use bondsman.Repository.Tables.{Database, Sql, done, constraint_failed}
use bondsman.Repository.Quotes.{
  paid_quote, reserve_paid_quote, release_paid_quote, consume_paid_quote,
  use_submit_authorization_nonce, is_paid,
}
use bondsman.Authorization.{
  SubmitAuthorization, SubmitAuthorizationFields, Crypto, verify_submit_authorization,
}

-- The body, as `paidActionSubmitSchema` lets it pass.
pub record SubmitInput : Type 0 where
  pub quote_hash : String
  pub fault_class : FaultClass
  pub buyer_public_key : Option String
  pub event_type : DeliveryEventType
  pub submit_authorization : SubmitAuthorization

pub data SubmitError : Type 0 where
  quote_not_found quote_already_consumed quote_expired quote_fault_class_mismatch : SubmitError
  buyer_public_key_required quote_payer_missing quote_policy_stale : SubmitError
  submit_authorization_invalid submit_authorization_replay submission_failed : SubmitError

pub data Reply (A : Type 0) : Type 0 where
  ok : A → Reply A
  err : SubmitError → Reply A

abbrev pub same_fault_class : FaultClass → FaultClass → Bool
same_fault_class duplicate_claim duplicate_claim = true
same_fault_class delivery_contradiction delivery_contradiction = true
same_fault_class _ _ = false

is_delivery : FaultClass → Bool
is_delivery delivery_contradiction = true
is_delivery duplicate_claim = false

-- `!text`: absent or empty
abbrev pub is_blank : Option String → Bool
is_blank none = true
is_blank (some text) = text == ""

-- The guards on a quote that was found.
admit_quote : SubmitInput → ℕ → PaidQuoteRecord → Reply PaidQuoteRecord
unfolding is_delivery
admit_quote input now quote =
    if not (is_paid quote.status)
    then err quote_already_consumed
    else if leb quote.quote_expiry now
    then err quote_expired
    else if not (same_fault_class quote.fault_class input.fault_class)
    then err quote_fault_class_mismatch
    else if is_delivery input.fault_class && is_blank input.buyer_public_key
    then err buyer_public_key_required
    else if is_blank quote.payer
    then err quote_payer_missing
    else ok quote

-- Up to the first wait.
unfoldable pub admit : SubmitInput → ℕ → Database → Reply PaidQuoteRecord
unfolding admit_quote
admit input now db = elim (paid_quote input.quote_hash db) [
  | none ↦ err quote_not_found
  | some quote ↦ admit_quote input now quote
]

-- `snapshotValue(snapshot, key) === text`
unfoldable pub snapshot_is : String → String → Fields → Bool
snapshot_is key text snapshot = elim (Json.get key snapshot) [
  | none ↦ false
  | some value ↦ elim value [ str t ↦ t == text | _ ↦ false ]
]

unfoldable pub snapshot_consistent : PaidQuoteRecord → Option Fields → Bool
unfolding snapshot_is fault_class_text
snapshot_consistent quote none = true
snapshot_consistent quote (some snapshot) =
    snapshot_is "amount" quote.amount snapshot
    && snapshot_is "faultClass" (fault_class_text quote.fault_class) snapshot
    && snapshot_is "quotedMinimumBond" quote.required_bond snapshot

-- `assertQuotePolicyFresh`, with the bond that the current policy would post
unfoldable pub quote_policy_fresh : PaidQuoteRecord → String → Bool
unfolding snapshot_consistent
quote_policy_fresh quote expected_actual_bond =
    snapshot_consistent quote quote.policy_snapshot
    && (bond_economic_relation (some quote.required_bond)
        (some expected_actual_bond)).minimum_satisfied

abbrev pub text_or_empty : Option String → String
text_or_empty none = ""
text_or_empty (some text) = text

abbrev pub signed_by_request : SubmitInput → SubmitAuthorizationFields
signed_by_request input = record {
  quote_hash = input.quote_hash;
  fault_class = input.fault_class;
  buyer_public_key = input.buyer_public_key;
  event_type = input.event_type;
  timestamp = input.submit_authorization.timestamp;
  nonce = input.submit_authorization.nonce;
}

module _ (crypto : Crypto) (payload_hash : SubmitInput → String) where
  -- The nonce is spent before the reservation is tried.
  reserve : SubmitInput → ℕ → String × String → Database → Reply Unit × Database
  reserve input now (payer, nonce_hash) db =
      let (fresh, db') = use_submit_authorization_nonce nonce_hash payer input.quote_hash now db in
      if fresh
      then (let (reserved, db'') = reserve_paid_quote input.quote_hash (payload_hash input) db' in
          if reserved then (ok tt, db'') else (err quote_already_consumed, db''))
      else (err submit_authorization_replay, db')

  -- Between the waits.
  unfoldable pub authorize :
      SubmitInput → PaidQuoteRecord → String → ℕ → Database → Reply Unit × Database
  unfolding reserve
  authorize input quote expected_actual_bond now db =
      if quote_policy_fresh quote expected_actual_bond
      then elim (verify_submit_authorization crypto input.submit_authorization
          (signed_by_request input) (text_or_empty quote.payer) now) [
            | none ↦ (err submit_authorization_invalid, db)
            | some auth ↦ reserve input now auth db
          ]
      else (err quote_policy_stale, db)

-- After the submission: `none` where `submitPaidAction` threw. A throw of the statement that
-- consumes the quote is caught in the same place.
unfoldable pub settle : String → Option ℕ → ℕ → Database → Reply ℕ × Database
settle quote_hash none now db = (err submission_failed, release_paid_quote quote_hash db)
settle quote_hash (some action_id) now db = elim (consume_paid_quote quote_hash action_id now db) [
  | done db' ↦ (ok action_id, db')
  | constraint_failed ↦ (err submission_failed, release_paid_quote quote_hash db)
]
