-- ===== src/Attestation.antt =====
-- Delivery attestations, `backend/src/verifiers/delivery-attestation.ts`. A `Buffer` is the list of its
-- bytes. What the code takes from `node:crypto` and `Buffer` is a parameter.
pub mod Bytes
pub mod Hex
pub mod Evidence
pub mod Detected
mod Examples
use Prim.Native.String
use bondsman.Common.{
  ℕ, ◌<◌, String, Bool, true, false, Option, none, some, List, [], ◌∷◌, ◌++◌, ◌==◌, nat_eq, ◌≡◌,
  ◌&&◌, length, take, All, if◌then◌else◌,
}
use bondsman.Common.Int.{pos}
use bondsman.Common.Json.{Fields, field, end, str, num}
use bondsman.Authorization.{codes, all_hex}
use bondsman.Watchdog.Detection.{hex_bytes}
use bondsman.Repository.Records.{DeliveryAttestationRecord, DeliveryEventType, event_text}
use bondsman.Attestation.Bytes.{u64le}
use bondsman.Attestation.Hex.{hex_text}

pub record DeliveryAttestationInput : Type 0 where
  pub invoice_id : ℕ
  pub action_id : ℕ
  pub event_type : DeliveryEventType
  pub occurred_at : ℕ
  pub nonce : String
  pub buyer_public_key : String
  pub signature : String

-- `verify` is given the payload, the text of the key and the bytes of the signature, and
-- `export_key` the bytes of a key in DER form; `none` is a throw.
pub record Crypto : Type 0 where
  pub blake2b512 : List ℕ → List ℕ
  pub utf8 : String → List ℕ
  pub base64 : String → List ℕ
  pub verify : List ℕ → String → List ℕ → Option Bool
  pub export_key : String → Option (List ℕ)

abbrev pub IsByte : ℕ → Type 0
IsByte b = b < 256

-- What is documented of them: a buffer holds bytes, and the digest has 64.
pub record IsSound (crypto : Crypto) : Type 0 where
  pub digest_bytes : (bytes : List ℕ) → All IsByte (crypto.blake2b512 bytes)
  pub digest_length : (bytes : List ℕ) → length (crypto.blake2b512 bytes) ≡ 64
  pub base64_bytes : (text : String) → All IsByte (crypto.base64 text)

pub data Verified : Type 0 where
  attested : DeliveryAttestationRecord → Verified
  out_of_range signature_invalid evidence_invalid key_invalid : Verified

-- `/^[0-9a-f]{64}$/i`
pub is_hex_nonce : List ℕ → Bool
is_hex_nonce cs = length cs == 64 && all_hex cs

module _ (crypto : Crypto) where
  unfoldable pub nonce_bytes : String → List ℕ
  unfolding is_hex_nonce
  nonce_bytes value =
      if is_hex_nonce (codes value)
      then hex_bytes (codes value)
      else take 32 (crypto.blake2b512 (crypto.utf8 value))

  -- `none` where a number does not fit in 64 bits.
  unfoldable pub canonical_delivery_payload : DeliveryAttestationInput → Option (List ℕ)
  unfolding u64le nonce_bytes
  canonical_delivery_payload input = elim (u64le input.action_id) [
    | none ↦ none
    | some action ↦ elim (u64le input.invoice_id) [
      | none ↦ none
      | some invoice ↦ elim (u64le input.occurred_at) [
        | none ↦ none
        | some occurred ↦ some (action ++ (invoice ++ (occurred ++ nonce_bytes input.nonce)))
      ]
    ]
  ]

  -- A throw of the check counts as a failed check.
  pub signature_valid : List ℕ → DeliveryAttestationInput → Bool
  signature_valid payload input =
      elim (crypto.verify payload input.buyer_public_key (crypto.base64 input.signature)) [
        | none ↦ false
        | some valid ↦ valid
      ]

  pub raw_public_key : String → Option (List ℕ)
  raw_public_key value =
      if length (crypto.base64 value) == 32
      then some (crypto.base64 value)
      else crypto.export_key value

  unfoldable pub evidence_root : List ℕ → String
  evidence_root evidence = String.◌++◌ "0x" (hex_text (take 32 (crypto.blake2b512 evidence)))

  unfoldable pub attestation_payload : DeliveryAttestationInput → List ℕ → List ℕ → Fields
  unfolding event_text
  attestation_payload input key evidence = field "actionId" (num (pos input.action_id)) (
      field "eventType" (str (event_text input.event_type)) (
        field "invoiceId" (num (pos input.invoice_id)) (
          field "nonce" (str input.nonce) (
            field "occurredAt" (num (pos input.occurred_at)) (
              field "buyerPublicKeyRawHex" (str (hex_text key))
                (field "evidenceHex" (str (hex_text evidence)) end))))))

  unfoldable pub attestation_record :
      DeliveryAttestationInput → List ℕ → List ℕ → ℕ → DeliveryAttestationRecord
  unfolding evidence_root attestation_payload
  attestation_record input key evidence now = record {
    evidence_root = evidence_root evidence;
    invoice_id = input.invoice_id;
    action_id = some input.action_id;
    event_type = input.event_type;
    occurred_at = input.occurred_at;
    buyer_public_key = input.buyer_public_key;
    signature = input.signature;
    payload = attestation_payload input key evidence;
    received_at = now;
    used_action_id = none;
  }

  -- The bytes that are signed, and then the signature.
  unfoldable pub attested_evidence : DeliveryAttestationInput → List ℕ → ℕ → Verified
  unfolding attestation_record raw_public_key
  attested_evidence input payload now =
      let evidence = payload ++ crypto.base64 input.signature in
      if length evidence == 120
      then elim (raw_public_key input.buyer_public_key) [
        | none ↦ key_invalid
        | some key ↦ attested (attestation_record input key evidence now)
      ]
      else evidence_invalid

  unfoldable pub verify_delivery_attestation : DeliveryAttestationInput → ℕ → Verified
  unfolding canonical_delivery_payload signature_valid attested_evidence
  verify_delivery_attestation input now = elim (canonical_delivery_payload input) [
    | none ↦ out_of_range
    | some payload ↦
        if signature_valid payload input
        then attested_evidence input payload now
        else signature_invalid
  ]
