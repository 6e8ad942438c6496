-- ===== src/Watchdog/Detection.antt =====
-- `backend/src/watchdog/detection.ts`. A set of hashes is the list of those added.
pub mod Duplicates
pub mod Contradictions
use bondsman.Common.{
  ℕ, ◌+◌, ◌-◌, ◌*◌, String, Bool, true, false, not, ◌&&◌, ◌||◌, Option, none, some, List, [], ◌∷◌,
  ◌==◌, nat_eq, string_eq, leb, ltb, is_none, length, if◌then◌else◌, any,
}
use bondsman.Common.Json
use bondsman.Common.Json.{Json, Fields, str}
use bondsman.Common.Sort.{sort_by}
use bondsman.Repository.Records.{ActionRecord, DeliveryAttestationRecord}
use bondsman.Authorization.{codes, all_hex}

abbrev pub is_paid_status : String → Bool
is_paid_status status =
    status == "Executed"
    || status == "Challenged"
    || status == "ResolvedRefund"
    || status == "ResolvedSlash"

-- `flag === true`
abbrev pub is_true : Option Bool → Bool
is_true none = false
is_true (some b) = b

-- `left.actionId - right.actionId`
abbrev pub by_action_id : ActionRecord → ActionRecord → Bool
by_action_id left right = leb left.action_id right.action_id

unfoldable pub challengeable_duplicate : ℕ → ActionRecord → Bool
challengeable_duplicate now a =
    is_true a.duplicate_proven
    && a.status == "Executed"
    && leb now a.window_end
    && not a.reserved_for_manual
    && is_none a.challenger

-- The loop, from the hashes that were seen.
duplicates_from : ℕ → List String → List ActionRecord → List ActionRecord
duplicates_from now seen [] = []
duplicates_from now seen (a ∷ rest) =
    let paid = is_paid_status a.status in
    let found = duplicates_from now (if paid then a.claim_hash ∷ seen else seen) rest in
    if paid && any (λ h. h == a.claim_hash) seen && challengeable_duplicate now a
    then a ∷ found
    else found

unfoldable pub detect_duplicate_actions : List ActionRecord → ℕ → List ActionRecord
unfolding duplicates_from
detect_duplicate_actions actions now = duplicates_from now [] (sort_by by_action_id actions)

pub record DeliveryContradictionCandidate : Type 0 where
  pub action : ActionRecord
  pub attestation : DeliveryAttestationRecord
  pub evidence : List ℕ

-- The value of one digit, and the bytes of `Buffer.from(text, 'hex')`.
unfoldable pub hex_value : ℕ → ℕ
hex_value c = if leb c b'9' then c - b'0' else if leb c b'F' then c - b'A' + 10 else c - b'a' + 10

unfoldable pub hex_bytes : List ℕ → List ℕ
unfolding hex_value
hex_bytes (high ∷ low ∷ rest) = (hex_value high * 16 + hex_value low) ∷ hex_bytes rest
hex_bytes _ = []

-- `/^[0-9a-f]{240}$/i`
unfoldable pub is_evidence_hex : String → Bool
is_evidence_hex text = length (codes text) == 240 && all_hex (codes text)

unfoldable pub open_to_contradiction : ℕ → ActionRecord → Bool
open_to_contradiction now a =
    a.status == "Executed"
    && leb now a.window_end
    && not a.reserved_for_manual
    && is_none a.challenger

-- `payload.evidenceHex`, where it is a text
unfoldable pub evidence_hex : Fields → Option String
evidence_hex payload = elim (Json.get "evidenceHex" payload) [
  | none ↦ none
  | some value ↦ elim value [ str text ↦ some text | _ ↦ none ]
]

unfoldable pub unused_by_others : ActionRecord → DeliveryAttestationRecord → Bool
unused_by_others a attestation = elim attestation.used_action_id [
  | none ↦ true
  | some used ↦ used == a.action_id
]

unfoldable pub candidate_of_hex :
    ActionRecord → DeliveryAttestationRecord → Option String → Option DeliveryContradictionCandidate
candidate_of_hex a attestation none = none
candidate_of_hex a attestation (some hex) =
    if unused_by_others a attestation && is_evidence_hex hex
    then some (record { action = a; attestation = attestation; evidence = hex_bytes (codes hex) })
    else none

unfoldable pub candidate_of :
    ℕ
    → (ℕ → Option DeliveryAttestationRecord)
    → ActionRecord
    → Option DeliveryContradictionCandidate
unfolding candidate_of_hex
candidate_of now attestation_for a =
    if open_to_contradiction now a
    then elim (attestation_for a.action_id) [
      | none ↦ none
      | some attestation ↦ candidate_of_hex a attestation (evidence_hex attestation.payload)
    ]
    else none

contradictions_from :
    ℕ
    → (ℕ → Option DeliveryAttestationRecord)
    → List ActionRecord
    → List DeliveryContradictionCandidate
unfolding candidate_of
contradictions_from now attestation_for [] = []
contradictions_from now attestation_for (a ∷ rest) =
    let found = contradictions_from now attestation_for rest in
    elim (candidate_of now attestation_for a) [ none ↦ found | some c ↦ c ∷ found ]

unfoldable pub detect_delivery_contradictions :
    List ActionRecord
    → (ℕ → Option DeliveryAttestationRecord)
    → ℕ
    → List DeliveryContradictionCandidate
unfolding contradictions_from
detect_delivery_contradictions actions attestation_for now =
    contradictions_from now attestation_for (sort_by by_action_id actions)
