-- ===== src/Attestation/Detected.antt =====
-- An accepted attestation reaches the watchdog.
use bondsman.Common.{
  ℕ, String, Bool, true, Option, none, some, List, ◌∷◌, ◌++◌, ◌≡◌, nat_eq, any, arith,
}
use bondsman.Authorization.{codes}
use bondsman.Watchdog.Detection.{
  DeliveryContradictionCandidate, open_to_contradiction, candidate_of, candidate_of_hex,
  evidence_hex, unused_by_others, is_evidence_hex, hex_bytes, detect_delivery_contradictions,
}
use bondsman.Watchdog.Detection.Contradictions.{detect_delivery_contradictions_complete}
use bondsman.Repository.Records.{ActionRecord, DeliveryAttestationRecord}
use bondsman.Attestation.{
  DeliveryAttestationInput, Crypto, IsSound, attested, canonical_delivery_payload,
  verify_delivery_attestation,
}
use bondsman.Attestation.Evidence.{verify_delivery_attestation_sound}

candidate_of_hex_lem :
    (now : ℕ) (attestation_for : ℕ → Option DeliveryAttestationRecord) (a : ActionRecord)
    (t : DeliveryAttestationRecord) (hex : String)
    → open_to_contradiction now a ≡ true
    → attestation_for a.action_id ≡ some t
    → t.used_action_id ≡ none
    → evidence_hex t.payload ≡ some hex
    → is_evidence_hex hex ≡ true
    → candidate_of now attestation_for a
      ≡ some (record { action = a; attestation = t; evidence = hex_bytes (codes hex) })
unfolding candidate_of candidate_of_hex unused_by_others
candidate_of_hex_lem now attestation_for a t hex is_open e unused h k = ground arith

module _ (crypto : Crypto) (sound : IsSound crypto) where
  -- Where the attestation that is stored for an action was accepted, and the action can be challenged
  -- at this time, the contradiction detector reports the action with this attestation and with the
  -- payload and the signature as evidence, wherever it stands among the actions: every test that this
  -- candidate passes finds one.
  pub accepted-detected :
      (input : DeliveryAttestationInput) (received now : ℕ) (t : DeliveryAttestationRecord)
      (attestation_for : ℕ → Option DeliveryAttestationRecord) (a : ActionRecord)
      (xs ys : List ActionRecord)
      → verify_delivery_attestation crypto input received ≡ attested t
      → attestation_for a.action_id ≡ some t
      → open_to_contradiction now a ≡ true
      → (payload : List ℕ) × (canonical_delivery_payload crypto input ≡ some payload)
        × ((p : DeliveryContradictionCandidate → Bool)
            → p (record {
              action = a;
              attestation = t;
              evidence = payload ++ crypto.base64 input.signature;
            })
              ≡ true
            → any p (detect_delivery_contradictions (xs ++ a ∷ ys) attestation_for now) ≡ true)
  accepted-detected input received now t attestation_for a xs ys h e is_open =
      let (_, _, _, payload, hex, _, _, _, p, _, _, _, unused, at_hex, is_hex, bytes) =
        verify_delivery_attestation_sound crypto sound input received t h in
      let c = candidate_of_hex_lem now attestation_for a t hex is_open e unused at_hex is_hex in
      (
        payload,
        p,
        λ q passes.
            detect_delivery_contradictions_complete now attestation_for q a
              (record { action = a; attestation = t; evidence = hex_bytes (codes hex) }) xs ys c
              (rw bytes passes),
      )
