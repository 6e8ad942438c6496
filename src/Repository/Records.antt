-- ===== src/Repository/Records.antt =====
-- The records of `backend/src/db/repositories.ts`. A field that may be absent or null is an option.
use bondsman.Common.{ℕ, String, Bool, Option, List}
use bondsman.Common.Json.{Fields}
use bondsman.Policy.{FaultClass}

pub record InvoiceRecord : Type 0 where
  pub id : ℕ
  pub invoice_number : String
  pub debtor : String
  pub amount : String
  pub vendor : String
  pub due_date : String
  pub delivered : Bool
  pub claim_hash : String
  pub paid : Bool

pub data ChallengerType : Type 0 where
  watchdog manual external_wallet : ChallengerType

pub data ChallengeSigning : Type 0 where
  backend_key watchdog_key wallet_key : ChallengeSigning

pub record ActionRecord : Type 0 where
  pub action_id : ℕ
  pub invoice_id : ℕ
  pub agent : String
  pub amount : String
  pub claim_hash : String
  pub reasoning : String
  pub reasoning_hash : String
  pub bond_required : String
  pub bond_posted : String
  pub window_end : ℕ
  pub status : String
  pub challenger : Option String
  pub challenger_type : Option ChallengerType
  pub challenge_signing : Option ChallengeSigning
  pub controller_hash : Option String
  pub duplicate_proven : Option Bool
  pub fault_class : Option FaultClass
  pub evidence_root : Option String
  pub reserved_for_manual : Bool
  pub transactions : List (String × String)

pub record WatchdogCatchRecord : Type 0 where
  pub action_id : ℕ
  pub reward : String
  pub reasoning : String
  pub challenge_tx : String
  pub resolve_tx : String
  pub timestamp : ℕ

pub data DemoJobKind : Type 0 where
  challenge_job arm_job watchdog_job : DemoJobKind

pub record DemoJobRecord : Type 0 where
  pub id : String
  pub kind : DemoJobKind
  pub action_id : Option ℕ
  pub status : String
  pub challenge_tx : Option String
  pub resolve_tx : Option String
  pub error : Option String
  pub created_at : ℕ
  pub updated_at : ℕ

pub record EventRecord : Type 0 where
  pub contract : String
  pub event_index : ℕ
  pub event_type : String
  pub action_id : Option ℕ
  pub fields : List (String × String)
  pub transaction_hash : Option String

pub data DeliveryEventType : Type 0 where
  delivery_rejected goods_not_received : DeliveryEventType

-- The text that stands for the event in a document.
unfoldable pub event_text : DeliveryEventType → String
event_text delivery_rejected = "delivery_rejected"
event_text goods_not_received = "goods_not_received"

pub record DeliveryAttestationRecord : Type 0 where
  pub evidence_root : String
  pub invoice_id : ℕ
  pub action_id : Option ℕ
  pub event_type : DeliveryEventType
  pub occurred_at : ℕ
  pub buyer_public_key : String
  pub signature : String
  pub payload : Fields
  pub received_at : ℕ
  pub used_action_id : Option ℕ

pub data QuoteStatus : Type 0 where
  paid consuming consumed failed : QuoteStatus

pub record PaidQuoteRecord : Type 0 where
  pub quote_hash : String
  pub fault_class : FaultClass
  pub verifier : String
  pub amount : String
  pub required_bond : String
  pub challenge_window : ℕ
  pub quote_expiry : ℕ
  pub payer : Option String
  pub settlement_tx : String
  pub payment_amount : String
  pub facilitator : String
  pub status : QuoteStatus
  pub submit_payload_hash : Option String
  pub consumed_action_id : Option ℕ
  pub created_at : ℕ
  pub consumed_at : Option ℕ
  pub policy_snapshot : Option Fields
