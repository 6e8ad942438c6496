-- ===== src/Repository/Tables.antt =====
-- The tables of `backend/src/db/schema.ts`. A row stands behind its primary key; an INTEGER column
-- that holds a Boolean is a number.
use bondsman.Common.{ℕ, String, Option, List}
use bondsman.Common.Int.{ℤ}
use bondsman.Common.Json.{Json, Fields}
use bondsman.Common.Table.{Table}
use bondsman.Policy.{FaultClass}
use bondsman.Repository.Records.{
  ChallengerType, ChallengeSigning, DemoJobKind, DeliveryEventType, QuoteStatus,
}

pub record InvoiceRow : Type 0 where
  pub invoice_number : String
  pub debtor : String
  pub amount : String
  pub vendor : String
  pub due_date : String
  pub delivered : ℕ
  pub claim_hash : String
  pub paid : ℕ

pub record ActionRow : Type 0 where
  pub invoice_id : ℕ
  pub agent : String
  pub amount : String
  pub claim_hash : String
  pub reasoning : String
  pub reasoning_hash : String
  pub bond_required : String
  pub bond_posted : String
  pub window_end : ℕ
  pub status : String
  pub challenger : Option String
  pub challenger_type : Option ChallengerType
  pub challenge_signing : Option ChallengeSigning
  pub controller_hash : String
  pub duplicate_proven : ℕ
  pub fault_class : FaultClass
  pub evidence_root : Option String
  pub reserved_for_manual : ℕ
  pub transactions_json : List (String × String)

pub record EventRow : Type 0 where
  pub event_type : String
  pub action_id : Option ℕ
  pub fields : List (String × String)
  pub transaction_hash : Option String

pub record ReputationRow : Type 0 where
  pub clean : ℕ
  pub slashed : ℕ
  pub score : ℤ

pub record CatchRow : Type 0 where
  pub reward : String
  pub reasoning : String
  pub challenge_tx : String
  pub resolve_tx : String
  pub timestamp : ℕ

pub record StatusRow : Type 0 where
  pub account : String
  pub heartbeat_at : ℕ

pub record JobRow : Type 0 where
  pub kind : DemoJobKind
  pub action_id : Option ℕ
  pub status : String
  pub challenge_tx : Option String
  pub resolve_tx : Option String
  pub error : Option String
  pub created_at : ℕ
  pub updated_at : ℕ

pub record CursorRow : Type 0 where
  pub last_event_index : ℕ
  pub updated_at : ℕ

pub record StateRow : Type 0 where
  pub value_json : Json
  pub updated_at : ℕ

pub record AttestationRow : Type 0 where
  pub invoice_id : ℕ
  pub action_id : Option ℕ
  pub event_type : DeliveryEventType
  pub occurred_at : ℕ
  pub buyer_public_key : String
  pub signature : String
  pub payload_json : Fields
  pub received_at : ℕ
  pub used_action_id : Option ℕ

pub record QuoteRow : Type 0 where
  pub fault_class : FaultClass
  pub verifier : String
  pub amount : String
  pub required_bond : String
  pub challenge_window : ℕ
  pub quote_expiry : ℕ
  pub payer : Option String
  pub settlement_tx : String
  pub payment_amount : String
  pub facilitator : String
  pub status : QuoteStatus
  pub submit_payload_hash : Option String
  pub consumed_action_id : Option ℕ
  pub created_at : ℕ
  pub consumed_at : Option ℕ
  pub policy_snapshot_json : Option Fields

pub record NonceRow : Type 0 where
  pub payer : String
  pub quote_hash : String
  pub created_at : ℕ

pub record DocumentRow : Type 0 where
  pub document : Json
  pub written_at : ℕ

pub record Database : Type 0 where
  pub invoices : Table ℕ InvoiceRow
  pub actions : Table ℕ ActionRow
  pub events : Table (String × ℕ) EventRow
  pub agent_reputation : Table String ReputationRow
  pub reserve : Option String
  pub watchdog_catches : Table ℕ CatchRow
  pub watchdog_status : Option StatusRow
  pub demo_jobs : Table String JobRow
  pub event_cursors : Table String CursorRow
  pub system_state : Table String StateRow
  pub delivery_attestations : Table String AttestationRow
  pub paid_quotes : Table String QuoteRow
  pub submit_authorization_nonces : Table String NonceRow
  pub proof_cache : Table (String × ℕ) DocumentRow
  pub signed_receipts : Table (String × ℕ) DocumentRow

-- What a statement does: its result, or a UNIQUE constraint that fails and throws.
pub data Sql (A : Type 0) : Type 0 where
  done : A → Sql A
  constraint_failed : Sql A

abbrev pub empty_database : Database
empty_database = record {
  invoices = List.[];
  actions = List.[];
  events = List.[];
  agent_reputation = List.[];
  reserve = Option.none;
  watchdog_catches = List.[];
  watchdog_status = Option.none;
  demo_jobs = List.[];
  event_cursors = List.[];
  system_state = List.[];
  delivery_attestations = List.[];
  paid_quotes = List.[];
  submit_authorization_nonces = List.[];
  proof_cache = List.[];
  signed_receipts = List.[];
}
