-- ===== src/Attestation/Evidence.antt =====
-- What an attestation that was accepted holds.
use bondsman.Common.{
  ℕ, ◌<◌, String, true, none, some, List, [], ◌∷◌, ◌++◌, nat_eq, ◌≡◌, refl, length, length-append,
  length-take, All, All-append, All-take, arith, Bool-cases, Option-cases, inl, inr,
}
use bondsman.Authorization.{codes, is_hex, all_hex}
use bondsman.Watchdog.Detection.{hex_value, hex_bytes, is_evidence_hex, evidence_hex}
use bondsman.Watchdog.Detection.Contradictions.{length-hex_bytes}
use bondsman.Repository.Records.{DeliveryAttestationRecord}
use bondsman.Attestation.Bytes.{u64le, u64le_lem, le_value}
use bondsman.Attestation.Hex.{hex_text, hex_bytes-hex_text, length-hex_text, all_hex-hex_text}
use bondsman.Attestation.{
  DeliveryAttestationInput, Crypto, IsByte, IsSound, attested, nonce_bytes, is_hex_nonce,
  canonical_delivery_payload, signature_valid, raw_public_key, attested_evidence,
  attestation_record, attestation_payload, verify_delivery_attestation,
}

hex_value-lt : (c : ℕ) → is_hex c ≡ true → hex_value c < 16
unfolding hex_value is_hex
hex_value-lt c h = ground arith

All-hex_bytes : (cs : List ℕ) → all_hex cs ≡ true → All IsByte (hex_bytes cs)
unfolding hex_bytes all_hex
All-hex_bytes [] h = tt
All-hex_bytes (c ∷ []) h = tt
All-hex_bytes (c ∷ d ∷ cs) h =
    (ground (arith, hex_value-lt c, hex_value-lt d), All-hex_bytes cs (ground arith))

module _ (crypto : Crypto) (sound : IsSound crypto) where
  nonce_bytes_lem :
      (value : String)
      → (length (nonce_bytes crypto value) ≡ 32) × All IsByte (nonce_bytes crypto value)
  unfolding nonce_bytes is_hex_nonce
  nonce_bytes_lem value = elim (Bool-cases (is_hex_nonce (codes value))) [
    | inl hex ↦ rw hex (
      length-hex_bytes 32 (codes value) (ground arith),
      All-hex_bytes (codes value) (ground arith),
    )
    | inr other ↦ rw other (
      length-take 32 (crypto.blake2b512 (crypto.utf8 value))
          (omega (arith, sound.digest_length (crypto.utf8 value))),
      All-take IsByte 32 (crypto.blake2b512 (crypto.utf8 value))
          (sound.digest_bytes (crypto.utf8 value)),
    )
  ]

  -- The four parts of a payload.
  abbrev IsMadeOf : DeliveryAttestationInput → List ℕ → List ℕ → List ℕ → List ℕ → Type 0
  IsMadeOf input payload action invoice occurred =
      (u64le input.action_id ≡ some action)
      × (u64le input.invoice_id ≡ some invoice)
      × (u64le input.occurred_at ≡ some occurred)
      × (payload ≡ action ++ (invoice ++ (occurred ++ nonce_bytes crypto input.nonce)))

  pub payload_parts :
      (input : DeliveryAttestationInput) (payload : List ℕ)
      → canonical_delivery_payload crypto input ≡ some payload
      → (action : List ℕ) × (invoice : List ℕ) × (occurred : List ℕ) × IsMadeOf input payload action
          invoice occurred
  unfolding canonical_delivery_payload
  payload_parts input payload h = elim (Option-cases (u64le input.action_id)) [
    | inl a ↦ absurd (ground arith)
    | inr (action, a) ↦ elim (Option-cases (u64le input.invoice_id)) [
      | inl i ↦ absurd (ground arith)
      | inr (invoice, i) ↦ elim (Option-cases (u64le input.occurred_at)) [
        | inl o ↦ absurd (ground arith)
        | inr (occurred, o) ↦ (action, invoice, occurred, (a, i, o, ground arith))
      ]
    ]
  ]

  payload_lem :
      (input : DeliveryAttestationInput) (payload : List ℕ)
      → canonical_delivery_payload crypto input ≡ some payload
      → (length payload ≡ 56) × All IsByte payload
  payload_lem input payload h =
      let (action, invoice, occurred, (a, i, o, same)) = payload_parts input payload h in
      let ea = u64le_lem input.action_id action a in
      let ei = u64le_lem input.invoice_id invoice i in
      let eo = u64le_lem input.occurred_at occurred o in
      let nonce = nonce_bytes crypto input.nonce in
      let en = nonce_bytes_lem input.nonce in
      rw same (
        omega (
          arith,
          length-append action (invoice ++ (occurred ++ nonce)),
          length-append invoice (occurred ++ nonce),
          length-append occurred nonce,
        ),
        All-append IsByte action (invoice ++ (occurred ++ nonce)) ea.2 (
            All-append IsByte invoice (occurred ++ nonce) ei.2
              (All-append IsByte occurred nonce eo.2 en.1)),
      )

  verified_of_valid :
      (payload : List ℕ) (input : DeliveryAttestationInput)
      → signature_valid crypto payload input ≡ true
      → crypto.verify payload input.buyer_public_key (crypto.base64 input.signature) ≡ some true
  unfolding signature_valid
  verified_of_valid payload input h =
      elim (Option-cases
        (crypto.verify payload input.buyer_public_key (crypto.base64 input.signature))) [
          | inl threw ↦ absurd (ground arith)
          | inr (valid, e) ↦ ground arith
        ]

  -- What the record of an accepted attestation is made of.
  accepted_parts :
      (input : DeliveryAttestationInput) (now : ℕ) (t : DeliveryAttestationRecord)
      → verify_delivery_attestation crypto input now ≡ attested t
      → (payload : List ℕ) × (key : List ℕ) × (canonical_delivery_payload crypto input
          ≡ some payload)
        × (signature_valid crypto payload input ≡ true)
        × (length (payload ++ crypto.base64 input.signature) ≡ 120)
        × (t ≡ attestation_record crypto input key (payload ++ crypto.base64 input.signature) now)
  unfolding verify_delivery_attestation attested_evidence
  accepted_parts input now t h = elim (Option-cases (canonical_delivery_payload crypto input)) [
    | inl p ↦ absurd (ground arith)
    | inr (payload, p) ↦ elim (Option-cases (raw_public_key crypto input.buyer_public_key)) [
      | inl k ↦ absurd (ground arith)
      | inr (key, k) ↦ (payload, key, p, ground arith, ground arith, ground arith)
    ]
  ]

  -- An attestation is accepted only if the buyer's key verifies the signature over the payload, in
  -- which the numbers of the action, the invoice and the time can be read back, in this order. Its
  -- record is not used, and holds under `evidenceHex` a text that the watchdog takes for evidence and
  -- decodes to the payload followed by the signature.
  pub verify_delivery_attestation_sound :
      (input : DeliveryAttestationInput) (now : ℕ) (t : DeliveryAttestationRecord)
      → verify_delivery_attestation crypto input now ≡ attested t
      → (action : List ℕ) × (invoice : List ℕ) × (occurred : List ℕ) × (payload : List ℕ)
        × (hex : String) × (le_value action ≡ input.action_id)
        × (le_value invoice ≡ input.invoice_id)
        × (le_value occurred ≡ input.occurred_at)
        × (canonical_delivery_payload crypto input ≡ some payload)
        × (payload ≡ action ++ (invoice ++ (occurred ++ nonce_bytes crypto input.nonce)))
        × (crypto.verify payload input.buyer_public_key (crypto.base64 input.signature) ≡ some true)
        × (t.action_id ≡ some input.action_id)
        × (t.used_action_id ≡ none)
        × (evidence_hex t.payload ≡ some hex)
        × (is_evidence_hex hex ≡ true)
        × (hex_bytes (codes hex) ≡ payload ++ crypto.base64 input.signature)
  unfolding evidence_hex is_evidence_hex attestation_record attestation_payload signature_valid
  verify_delivery_attestation_sound input now t h =
      let (payload, key, p, valid, long, same) = accepted_parts input now t h in
      let (action, invoice, occurred, (a, i, o, made)) = payload_parts input payload p in
      let evidence = payload ++ crypto.base64 input.signature in
      let bytes =
        All-append IsByte payload (crypto.base64 input.signature) (payload_lem input payload p).1
          (sound.base64_bytes input.signature) in
      (
        action,
        invoice,
        occurred,
        payload,
        hex_text evidence,
        (u64le_lem input.action_id action a).0,
        (u64le_lem input.invoice_id invoice i).0,
        (u64le_lem input.occurred_at occurred o).0,
        p,
        made,
        verified_of_valid payload input valid,
        rw same refl,
        rw same refl,
        rw same refl,
        ground (arith, length-hex_text evidence, all_hex-hex_text evidence bytes),
        hex_bytes-hex_text evidence bytes,
      )
