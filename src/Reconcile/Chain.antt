-- ===== src/Reconcile/Chain.antt =====
-- What `backend/src/listener/reconcile.ts` reads of an action: the chain's words, the addresses and bytes
-- in them, the file of the agent's run, and the transaction that an event belongs to.
use Prim.Native.Char.{code}
use Prim.Native.String.{◌++◌}
use bondsman.Common.{
  ℕ, zero, suc, String, Bool, not, ◌&&◌, ◌||◌, Option, none, some, List, [], ◌∷◌, ◌==◌, string_eq,
  nat_eq, leb, or_else, filter, take, if◌then◌else◌,
}
use bondsman.Common.Table.{Table, lookup, upsert}
use bondsman.Policy.{FaultClass, duplicate_claim, delivery_contradiction}
use bondsman.Authorization.{codes}
use bondsman.Attestation.Hex.{hex_text}
use bondsman.Arm.Request.{bytes_hex}
use bondsman.Watchdog.Detection.{hex_bytes}
use bondsman.Repository.Records.{
  WatchdogCatchRecord, ChallengerType, watchdog, manual, external_wallet, ChallengeSigning,
  backend_key, watchdog_key, wallet_key,
}

-- The chain's action, with its numbers read.
pub record ChainAction : Type 0 where
  pub agent : String
  pub invoice_id : ℕ
  pub claim_hash : String
  pub amount : String
  pub reasoning_hash : String
  pub bond_required : String
  pub bond_posted : String
  pub window_end : ℕ
  pub status : String
  pub challenger : String
  pub fault_class : Option String
  pub evidence_root : Option String

-- The parts of the agent's run that are read.
pub record AgentRun : Type 0 where
  pub reasoning : String
  pub transactions : Table String String

-- The accounts of the deployment that challenge.
pub record Accounts : Type 0 where
  pub watchdog_hash : String
  pub challenger_hash : String

-- What follows `part` at the head of a text.
after_part : String → String → Option String
after_part String.[] text = some text
after_part (String.◌∷◌ c part) String.[] = none
after_part (String.◌∷◌ c part) (String.◌∷◌ d text) =
    let rest = after_part part text in if code c == code d then rest else none

-- `[0-9a-f]`
is_lower_hex : ℕ → Bool
is_lower_hex c = leb b'0' c && leb c b'9' || leb b'a' c && leb c b'f'

-- `([0-9a-f]{n})\)` at the head of a text
digits_closed : ℕ → String → Option String
unfolding is_lower_hex
digits_closed n String.[] = none
digits_closed zero (String.◌∷◌ c text) = if code c == b')' then some "" else none
digits_closed (suc n) (String.◌∷◌ c text) = elim (digits_closed n text) [
  | none ↦ none
  | some digits ↦ if is_lower_hex (code c) then some (String.◌∷◌ c digits) else none
]

key_here : String → String → Option String
unfolding after_part digits_closed
key_here part text = elim (after_part part text) [ none ↦ none | some rest ↦ digits_closed 64 rest ]

-- `value.match(/Key::...\(([0-9a-f]{64})\)/)?.[1]`
unfoldable pub key_in : String → String → Option String
unfolding key_here
key_in part String.[] = none
key_in part (String.◌∷◌ c text) = or_else (key_here part (String.◌∷◌ c text)) (key_in part text)

unfoldable pub normalize_address : String → String
unfolding key_in
normalize_address value = elim (key_in "Key::Account(" value) [
  | some account ↦ "account-hash-" ++ account
  | none ↦ elim (key_in "Key::Hash(" value) [ some contract ↦ "hash-" ++ contract | none ↦ value ]
]

-- `action.challenger === 'None' ? null : ...`
unfoldable pub challenger_of : String → Option String
unfolding normalize_address
challenger_of raw = if raw == "None" then none else some (normalize_address raw)

-- A class that is not the contradiction is taken for a duplicate.
unfoldable pub fault_class_of : Option String → FaultClass
fault_class_of none = duplicate_claim
fault_class_of (some name) =
    if name == "delivery_contradiction" then delivery_contradiction else duplicate_claim

unfoldable pub evidence_hex : Option String → String
unfolding bytes_hex
evidence_hex none = ""
evidence_hex (some bytes) = bytes_hex bytes

-- The digest is that of BLAKE2b with 512 bits, of which 32 bytes are shown.
unfoldable pub evidence_commitment : (List ℕ → List ℕ) → FaultClass → String → Option String
unfolding hex_text hex_bytes
evidence_commitment blake2b512 duplicate_claim hex = if hex == "" then none else some ("0x" ++ hex)
evidence_commitment blake2b512 delivery_contradiction hex =
    if hex == ""
    then none
    else some ("0x" ++ hex_text (take 32 (blake2b512 (hex_bytes (codes hex)))))

unfoldable pub challenger_type : Accounts → String → ChallengerType
challenger_type accounts challenger =
    if challenger == "account-hash-" ++ accounts.watchdog_hash
    then watchdog
    else if challenger == "account-hash-" ++ accounts.challenger_hash
    then manual
    else external_wallet

unfoldable pub challenge_signing : Accounts → String → ChallengeSigning
challenge_signing accounts challenger =
    if challenger == "account-hash-" ++ accounts.watchdog_hash
    then watchdog_key
    else if challenger == "account-hash-" ++ accounts.challenger_hash
    then backend_key
    else wallet_key

-- The names of transactions by the type of their event.
abbrev pub event_transactions : Table String String
event_transactions =
    ("ActionInitiated", "initiate")
    ∷ ("BondPosted", "postBond")
    ∷ ("ActionExecuted", "execute")
    ∷ ("ActionChallenged", "challenge")
    ∷ ("ResolvedSlash", "resolve")
    ∷ ("ResolvedRefund", "resolve")
    ∷ ("BondLocked", "postBond")
    ∷ ("BondReleased", "resolve")
    ∷ ("BondSlashed", "resolve")
    ∷ ("PayoutApproved", "execute")
    ∷ ("DuplicateDetected", "execute")
    ∷ ("ActionInitiatedV2", "initiate")
    ∷ ("ActionChallengedV2", "challenge")
    ∷ ("ResolvedSlashV2", "resolve")
    ∷ ("PayoutApprovedV2", "execute")
    ∷ ("DuplicateDetectedV2", "execute")
    ∷ ("ResolvedRefundV2", "resolve")
    ∷ []

-- The table that is asked for the type without its version.
abbrev pub unversioned_transactions : Table String String
unversioned_transactions =
    ("ActionInitiated", "initiate")
    ∷ ("ActionChallenged", "challenge")
    ∷ ("ResolvedSlash", "resolve")
    ∷ ("PayoutApproved", "execute")
    ∷ ("DuplicateDetected", "execute")
    ∷ []

-- `type.replace(/V2$/, '')`
unfoldable pub unversioned : String → String
unversioned String.[] = ""
unversioned (String.◌∷◌ c text) =
    let rest = unversioned text in if String.◌∷◌ c text == "V2" then "" else String.◌∷◌ c rest

unfoldable pub transaction_for_event : Option AgentRun → String → Option String
unfolding unversioned lookup
transaction_for_event run event_type =
    elim (or_else (lookup event_type event_transactions)
      (lookup (unversioned event_type) unversioned_transactions)) [
        | none ↦ none
        | some name ↦ elim run [ none ↦ none | some r ↦ lookup name r.transactions ]
      ]

abbrev local_transactions : Option AgentRun → Table String String
local_transactions none = []
local_transactions (some run) = filter (λ (t : String × String). not (t.1 == "")) run.transactions

-- The run's transactions that are not empty, under those of the watchdog's catch.
unfoldable pub merged_transactions :
    Option AgentRun → Option WatchdogCatchRecord → Table String String
unfolding upsert
merged_transactions run none = local_transactions run
merged_transactions run (some c) =
    upsert "resolve" (λ _. c.resolve_tx)
      (upsert "challenge" (λ _. c.challenge_tx) (local_transactions run))
