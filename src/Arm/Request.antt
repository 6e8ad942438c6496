-- ===== src/Arm/Request.antt =====
-- What `armOnce` of `backend/src/api/arm.ts` asks for, and the parts of it that send nothing.
use Prim.Native.String
use mathlib.Core.Option
use bondsman.Common.{
  ℕ, zero, suc, ◌+◌, ◌-◌, ◌*◌, ◌%◌, leb, map, String, Bool, true, false, ◌&&◌, not, Option, none,
  some, or_default, List, [], ◌∷◌, length, ◌==◌, nat_eq, string_eq, if◌then◌else◌,
}
use bondsman.Common.Decimal.{to_text}
use bondsman.Authorization.{codes}
use bondsman.Attestation.Hex.{hex_text}
use bondsman.Policy.{FaultClass, duplicate_claim, delivery_contradiction}
use bondsman.Repository.Records.{ActionRecord, InvoiceRecord, DeliveryEventType}
use bondsman.Arm.{
  plain, ArmSigner, Call, submit_invoice, RawAction, Outside, M, ◌>>=◌, pure, throw, ask, outward,
}
use bondsman.Arm.Loops.{
  ChainActionView, select_resumable_pending, poll_arm_readiness, poll_executed_readiness,
}

-- An invoice as it is submitted.
pub record SeedInvoice : Type 0 where
  pub id : ℕ
  pub invoice_number : String
  pub debtor : String
  pub amount : String
  pub vendor : String
  pub due_date : String
  pub delivered : Bool
  pub claim_hash : String

-- The deployment, the cached decision on the demo invoices, and the codings of texts.
pub record Deployed : Type 0 where
  pub v2_enabled : Bool
  pub deployer : ArmSigner
  pub agent : ArmSigner
  pub pool_address : String
  pub vendor : String
  pub controller_hash : String
  pub collision : SeedInvoice
  pub cached_decision : String
  pub cached_reasoning : String
  pub base64 : String → List ℕ
  pub blake2b256 : String → String

pub record ArmRequest : Type 0 where
  pub reserved_for_manual : Bool
  pub requested_invoice_id : ℕ
  pub fault_class : FaultClass
  pub amount : Option String
  pub buyer_public_key : Option String
  pub event_type : Option DeliveryEventType

-- What the buyer is to sign.
pub record AttestationRequest : Type 0 where
  pub action_id : ℕ
  pub invoice_id : ℕ
  pub event_type : DeliveryEventType
  pub occurred_at : ℕ
  pub nonce : String
  pub buyer_public_key : String

pub record Armed : Type 0 where
  pub detail : Option ActionRecord
  pub attestation : Option AttestationRequest

abbrev pub agent_token_target : ℕ
agent_token_target = 100_000_000_000_000

abbrev pub pool_token_target : ℕ
pool_token_target = 500_000_000_000_000

abbrev pub is_duplicate_claim : FaultClass → Bool
is_duplicate_claim duplicate_claim = true
is_duplicate_claim delivery_contradiction = false

abbrev delivery_reasoning : String
delivery_reasoning =
    "Delivery attested by the agent; buyer delivery evidence remains challengeable during the watchdog window."

-- The numbers in a text; the first argument is the number that is being read.
unfoldable pub digit_runs : Option ℕ → List ℕ → List ℕ
digit_runs none [] = []
digit_runs (some n) [] = n ∷ []
digit_runs run (c ∷ cs) =
    let longer = digit_runs (some (or_default run 0 * 10 + (c - 48))) cs in
    let after = digit_runs none cs in
    if leb 48 c && leb c 57 then longer else elim run [ none ↦ after | some n ↦ n ∷ after ]

-- `Buffer.from` keeps the lowest byte of a number.
unfoldable pub bytes_hex : String → String
unfolding digit_runs
bytes_hex value = hex_text (map (λ n. n % 256) (digit_runs none (codes value)))

abbrev pub zero_hash : String
zero_hash = "0000000000000000000000000000000000000000000000000000000000000000"

abbrev replicate : ℕ → ℕ → List ℕ
replicate zero n = []
replicate (suc k) n = n ∷ replicate k n

-- `Buffer.alloc(32)`
abbrev pub zero_bytes : List ℕ
zero_bytes = replicate 32 0

abbrev pub is_some {ℓ} : {A : Type ℓ} → Option A → Bool
is_some none = false
is_some (some _) = true

abbrev pub named : String → Option String → List (String × String)
named key none = []
named key (some hash) = (key, hash) ∷ []

module _ {S : Type 0} (outside : Outside S) (deployed : Deployed) where
  abbrev pub key_bytes : ArmRequest → Option (List ℕ)
  key_bytes request = Option.map deployed.base64 request.buyer_public_key

  unfoldable pub has_key : FaultClass → Option (List ℕ) → M S (Unit {0})
  has_key duplicate_claim key = pure tt
  has_key delivery_contradiction none =
      throw (plain "delivery contradiction requires a 32-byte buyer public key")
  has_key delivery_contradiction (some key) =
      if length key == 32
      then pure tt
      else throw (plain "delivery contradiction requires a 32-byte buyer public key")

  unfoldable pub check_key : ArmRequest → M S (Unit {0})
  unfolding has_key
  check_key request = has_key request.fault_class (key_bytes request)

  unfoldable pub check_version : ArmRequest → M S (Unit {0})
  check_version request =
      if not (is_duplicate_claim request.fault_class) && not deployed.v2_enabled
      then throw (plain "delivery contradiction actions require controller V2")
      else pure tt

  -- An action of the same claim that is not finished.
  unfoldable pub find_pending : ArmRequest → List ChainActionView → M S (Option ChainActionView)
  find_pending request actions =
      if is_duplicate_claim request.fault_class
      then select_resumable_pending outside actions
          (λ invoice_id. outward (outside.read_invoice_paid invoice_id))
          (λ action_id. do
            candidate ← outward (outside.read_action action_id)
            pure (bytes_hex candidate.claim_hash == deployed.collision.claim_hash))
      else pure none

  unfoldable pub invoice_for : ArmRequest → ℕ → M S SeedInvoice
  invoice_for request id =
      if is_duplicate_claim request.fault_class
      then pure (record deployed.collision { id = id; vendor = deployed.vendor })
      else (do
        claim_hash ← ask outside.random_hex
        pure (record {
          id = id;
          invoice_number = String.◌++◌ "DLV-" (to_text id);
          debtor = "Globex Manufacturing";
          amount = or_default request.amount deployed.collision.amount;
          vendor = deployed.vendor;
          due_date = "2020-01-01";
          delivered = true;
          claim_hash = claim_hash;
        }))

  unfoldable pub reasoning_for : ArmRequest → M S String
  reasoning_for request =
      if is_duplicate_claim request.fault_class
      then (if deployed.cached_decision == "approve"
          then pure deployed.cached_reasoning
          else throw (plain "cached demo decision is not approval"))
      else pure delivery_reasoning

  unfoldable pub ready : ArmRequest → ℕ → ℕ → M S RawAction
  ready request attempts action_id =
      if is_duplicate_claim request.fault_class
      then poll_arm_readiness outside attempts action_id
      else poll_executed_readiness outside attempts action_id

  unfoldable pub paid_invoice : SeedInvoice → InvoiceRecord
  paid_invoice invoice = record {
    id = invoice.id;
    invoice_number = invoice.invoice_number;
    debtor = invoice.debtor;
    amount = invoice.amount;
    vendor = invoice.vendor;
    due_date = invoice.due_date;
    delivered = invoice.delivered;
    claim_hash = invoice.claim_hash;
    paid = true;
  }

  unfoldable pub armed_action :
      ArmRequest → ℕ → String → RawAction → List (String × String) → ActionRecord
  armed_action request action_id reasoning raw transactions = record {
    action_id = action_id;
    invoice_id = raw.invoice_id;
    agent = deployed.agent.account;
    amount = raw.amount;
    claim_hash = bytes_hex raw.claim_hash;
    reasoning = reasoning;
    reasoning_hash = bytes_hex raw.reasoning_hash;
    bond_required = raw.bond_required;
    bond_posted = raw.bond_posted;
    window_end = raw.window_end;
    status = raw.status;
    challenger = none;
    challenger_type = none;
    challenge_signing = none;
    controller_hash = some deployed.controller_hash;
    duplicate_proven = some (is_duplicate_claim request.fault_class);
    fault_class = some request.fault_class;
    evidence_root = none;
    reserved_for_manual = request.reserved_for_manual;
    transactions = transactions;
  }

  unfoldable pub purchase_order_hash : ArmRequest → M S String
  purchase_order_hash request =
      if is_duplicate_claim request.fault_class then pure zero_hash else ask outside.random_hex

  unfoldable pub invoice_call : ArmRequest → SeedInvoice → String → Call
  invoice_call request invoice order_hash =
      submit_invoice invoice.id invoice.amount invoice.vendor invoice.claim_hash (
        if deployed.v2_enabled
        then some (order_hash, or_default (key_bytes request) zero_bytes)
        else none)
