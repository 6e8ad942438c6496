-- ===== src/Attestation/Examples.antt =====
-- An attestation of goods that were not received, and the action that it contradicts.
use bondsman.Common.{
  ℕ, zero, suc, String, Bool, true, false, none, some, List, [], ◌∷◌, ◌++◌, ◌≡◌, refl, any, length,
  All, arith, ◌==◌, nat_eq,
}
use bondsman.Policy.{delivery_contradiction}
use bondsman.Authorization.{codes, all_hex}
use bondsman.Attestation.Hex.{hex_text}
use bondsman.Repository.Records.{ActionRecord, DeliveryAttestationRecord, goods_not_received}
use bondsman.Watchdog.Detection.{
  DeliveryContradictionCandidate, open_to_contradiction, evidence_hex, unused_by_others,
  is_evidence_hex, hex_bytes, detect_delivery_contradictions,
}
use bondsman.Watchdog.Detection.Contradictions.{IsFounded, detect_delivery_contradictions-IsFounded}
use bondsman.Attestation.Bytes.{le_value}
use bondsman.Attestation.{
  DeliveryAttestationInput, Crypto, IsByte, IsSound, attested, nonce_bytes,
  canonical_delivery_payload, attestation_record, verify_delivery_attestation,
}
use bondsman.Attestation.Evidence.{verify_delivery_attestation_sound}
use bondsman.Attestation.Detected.{accepted-detected}

abbrev sevens : ℕ → List ℕ
sevens zero = []
sevens (suc n) = 7 ∷ sevens n

length-sevens : (n : ℕ) → length (sevens n) ≡ n
length-sevens zero = refl
length-sevens (suc n) = omega (arith, length-sevens n)

All-sevens : (n : ℕ) → All IsByte (sevens n)
All-sevens zero = tt
All-sevens (suc n) = (omega arith, All-sevens n)

-- Every digest and every signature is 64 sevens, and every signature holds.
abbrev trusting : Crypto
trusting = record {
  blake2b512 = λ _. sevens 64;
  utf8 = λ _. [];
  base64 = λ _. sevens 64;
  verify = λ _ _ _. some true;
  export_key = λ _. some (sevens 32);
}

trusting-IsSound : IsSound trusting
trusting-IsSound = record {
  digest_bytes = λ _. All-sevens 64;
  digest_length = λ _. length-sevens 64;
  base64_bytes = λ _. All-sevens 64;
}

abbrev not_received : DeliveryAttestationInput
not_received = record {
  invoice_id = 300;
  action_id = 5;
  event_type = goods_not_received;
  occurred_at = 70_000;
  nonce = "a nonce";
  buyer_public_key = "key";
  signature = "signature";
}

abbrev stored : DeliveryAttestationRecord
stored =
    attestation_record trusting not_received (sevens 32)
      ((5
          ∷ 0
          ∷ 0
          ∷ 0
          ∷ 0
          ∷ 0
          ∷ 0
          ∷ 0
          ∷ 44
          ∷ 1
          ∷ 0
          ∷ 0
          ∷ 0
          ∷ 0
          ∷ 0
          ∷ 0
          ∷ 112
          ∷ 17
          ∷ 1
          ∷ 0
          ∷ 0
          ∷ 0
          ∷ 0
          ∷ 0
          ∷ sevens 32)
        ++ sevens 64)
      80_000

accepted : verify_delivery_attestation trusting not_received 80_000 ≡ attested stored
unfolding verify_delivery_attestation nonce_bytes
accepted = refl

verify_delivery_attestation_sound_example :
    (action : List ℕ) × (invoice : List ℕ) × (occurred : List ℕ) × (payload : List ℕ)
    × (hex : String) × (le_value action ≡ 5)
    × (le_value invoice ≡ 300)
    × (le_value occurred ≡ 70_000)
    × (canonical_delivery_payload trusting not_received ≡ some payload)
    × (payload ≡ action ++ (invoice ++ (occurred ++ nonce_bytes trusting "a nonce")))
    × (trusting.verify payload "key" (trusting.base64 "signature") ≡ some true)
    × (stored.action_id ≡ some 5)
    × (stored.used_action_id ≡ none)
    × (evidence_hex stored.payload ≡ some hex)
    × (is_evidence_hex hex ≡ true)
    × (hex_bytes (codes hex) ≡ payload ++ trusting.base64 "signature")
verify_delivery_attestation_sound_example =
    verify_delivery_attestation_sound trusting trusting-IsSound not_received 80_000 stored accepted

abbrev payout : ActionRecord
payout = record {
  action_id = 5;
  invoice_id = 300;
  agent = "account-hash-a";
  amount = "1000";
  claim_hash = "c";
  reasoning = "";
  reasoning_hash = "";
  bond_required = "20";
  bond_posted = "22";
  window_end = 90_000;
  status = "Executed";
  challenger = none;
  challenger_type = none;
  challenge_signing = none;
  controller_hash = some "hash-1";
  duplicate_proven = none;
  fault_class = some delivery_contradiction;
  evidence_root = none;
  reserved_for_manual = false;
  transactions = [];
}

accepted-detected_example :
    (payload : List ℕ) × (canonical_delivery_payload trusting not_received ≡ some payload)
    × ((p : DeliveryContradictionCandidate → Bool)
        → p (record {
          action = payout;
          attestation = stored;
          evidence = payload ++ trusting.base64 "signature";
        })
          ≡ true
        → any p (detect_delivery_contradictions ([] ++ payout ∷ []) (λ _. some stored) 85_000)
          ≡ true)
unfolding open_to_contradiction
accepted-detected_example =
    accepted-detected trusting trusting-IsSound not_received 80_000 85_000 stored (λ _. some stored)
      payout [] [] accepted refl refl

-- The payout is found.
contradiction_found :
    any
      (λ (c : DeliveryContradictionCandidate). c.action.action_id == 5)
      (detect_delivery_contradictions (payout ∷ []) (λ _. some stored) 85_000)
    ≡ true
unfolding detect_delivery_contradictions open_to_contradiction is_evidence_hex unused_by_others
    evidence_hex attestation_record hex_text all_hex
contradiction_found = refl

detect_delivery_contradictions-IsFounded_example :
    All
      (IsFounded 85_000 (λ _. some stored))
      (detect_delivery_contradictions (payout ∷ []) (λ _. some stored) 85_000)
detect_delivery_contradictions-IsFounded_example =
    detect_delivery_contradictions-IsFounded 85_000 (λ _. some stored) (payout ∷ [])
