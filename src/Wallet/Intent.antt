-- ===== src/Wallet/Intent.antt =====
-- What a transaction that passes the checks of the intent says.
use bondsman.Common.{
  nat_eq, String, true, Option, none, some, string_eq, ◌≡◌, refl, sym, arith, Option-cases,
  Bool-cases, ◌⊎◌, inl, inr,
}
use bondsman.Common.Int.{ℤ}
use bondsman.Common.Json.{Json, Items, Fields, str, arr, get}
use bondsman.Wallet.{
  Execution, unknown, succeeded, failed, fields_of, member, transaction_v1, execution_error,
  has_signer,
}
use bondsman.Wallet.Transaction.{
  ChallengeExpectation, intent, is_text, names_action, names_controller, signer_of, check_fields,
  check_payload, check_transaction, verify_challenge_intent,
}
use bondsman.Wallet.Named.{
  is_text_sound, IsActionArgument, IsTarget, names_action_sound, names_controller_sound,
}

pub Execution-cases :
    (e : Execution) → (e ≡ succeeded) ⊎ ((e ≡ unknown) ⊎ ((v : Option Json) × (e ≡ failed v)))
Execution-cases succeeded = inl refl
Execution-cases unknown = inr (inl refl)
Execution-cases (failed v) = inr (inr (v, refl))

module _ (to_number : Json → Option ℤ) where
  abbrev SignedBy : String → Option Json → Option Json → Type 0
  SignedBy key signer approvals =
      (items : Items) × ((signer ≡ some (str key))
        × (approvals ≡ some (arr items))
        × (has_signer key items ≡ true))

  signer_of_sound :
      (key : String) (signer approvals : Option Json)
      → signer_of to_number signer approvals ≡ intent key
      → SignedBy key signer approvals
  unfolding signer_of
  signer_of_sound key (some (str k)) (some (arr items)) h = elim (Bool-cases (has_signer k items)) [
    | inr bad ↦ absurd (ground (arith, h, bad))
    | inl good ↦
        let same : k ≡ key = ground (arith, h, good) in
        (items, (rw same refl, refl, rw (sym same) good))
  ]
  signer_of_sound key _ _ h = absurd (ground arith)

  -- The checks on the fields.
  abbrev IsChallenge : Fields → Fields → Fields → ChallengeExpectation → String → Type 0
  IsChallenge transaction payload fields expected key =
      (member "Custom" (fields_of (get "entry_point" fields)) ≡ some (str "challenge_action"))
      × IsActionArgument to_number fields expected.action_id
      × IsTarget to_number fields expected
      × SignedBy key (member "PublicKey" (fields_of (get "initiator_addr" payload)))
          (get "approvals" transaction)

  check_fields_sound :
      (transaction payload fields : Fields) (expected : ChallengeExpectation) (key : String)
      → check_fields to_number transaction payload fields expected ≡ intent key
      → IsChallenge transaction payload fields expected key
  unfolding check_fields
  check_fields_sound transaction payload fields expected key h =
      let entry =
        is_text "challenge_action" (member "Custom" (fields_of (get "entry_point" fields))) in
      elim (Bool-cases entry) [
        | inr bad ↦ absurd (ground (arith, h, bad))
        | inl point ↦ elim (Bool-cases (names_action to_number fields expected.action_id)) [
          | inr bad ↦ absurd (ground (arith, h, point, bad))
          | inl names ↦ elim (Bool-cases (names_controller to_number fields expected)) [
            | inr bad ↦ absurd (ground (arith, h, point, names, bad))
            | inl target ↦ (
              is_text_sound "challenge_action" _ point,
              names_action_sound to_number fields expected.action_id names,
              names_controller_sound to_number fields expected target,
              signer_of_sound key _ _ (rw (point, names, target) at h),
            )
          ]
        ]
      ]

  check_payload_sound :
      (transaction : Fields) (payload : Option Fields) (expected : ChallengeExpectation)
      (key : String)
      → check_payload to_number transaction payload expected ≡ intent key
      → (found fields : Fields) × ((payload ≡ some found)
          × (get "chain_name" found ≡ some (str expected.chain_name))
          × (fields_of (get "fields" found) ≡ some fields)
          × IsChallenge transaction found fields expected key)
  unfolding check_payload
  check_payload_sound transaction none expected key h = absurd (ground arith)
  check_payload_sound transaction (some found) expected key h =
      elim (Bool-cases (is_text expected.chain_name (get "chain_name" found))) [
        | inr bad ↦ absurd (ground (arith, h, bad))
        | inl chain ↦ elim (Option-cases (fields_of (get "fields" found))) [
          | inl bad ↦ absurd (ground (arith, h, chain, bad))
          | inr (fields, e) ↦ (
            found,
            fields,
            (
              refl,
              is_text_sound expected.chain_name _ chain,
              e,
              check_fields_sound transaction found fields expected key (rw (chain, e) at h),
            ),
          )
        ]
      ]

  -- What is known of an accepted transaction.
  abbrev pub IsIntended : Json → ChallengeExpectation → String → Type 0
  IsIntended raw expected key =
      (transaction payload fields : Fields) × ((transaction_v1 raw ≡ some transaction)
        × (get "hash" transaction ≡ some (str expected.hash))
        × (fields_of (get "payload" transaction) ≡ some payload)
        × (get "chain_name" payload ≡ some (str expected.chain_name))
        × (fields_of (get "fields" payload) ≡ some fields)
        × IsChallenge transaction payload fields expected key)

  check_transaction_sound :
      (raw : Json) (o : Option Fields) (expected : ChallengeExpectation) (key : String)
      → transaction_v1 raw ≡ o
      → check_transaction to_number o expected ≡ intent key
      → IsIntended raw expected key
  unfolding check_transaction
  check_transaction_sound raw none expected key is h = absurd (ground arith)
  check_transaction_sound raw (some transaction) expected key is h =
      elim (Bool-cases (is_text expected.hash (get "hash" transaction))) [
        | inr bad ↦ absurd (ground (arith, h, bad))
        | inl same ↦
            let (payload, fields, (found, chain, has, all)) =
              check_payload_sound transaction _ expected key (rw same at h) in
            (
              transaction,
              payload,
              fields,
              (is, is_text_sound expected.hash _ same, found, chain, has, all),
            )
      ]

  -- A transaction is taken for a challenge only where it was executed without an error and carries
  -- the hash, the chain and the entry point `challenge_action` that are expected, has an argument
  -- `action_id` of the type U64 whose value converts to the expected action, and has a target whose
  -- hash is that of the expected package or contract of the controller; its initiator is the signer,
  -- and is among those that approved it.
  pub verify_challenge_intent_sound :
      (raw : Json) (expected : ChallengeExpectation) (key : String)
      → verify_challenge_intent to_number raw expected ≡ intent key
      → (execution_error raw ≡ succeeded) × IsIntended raw expected key
  unfolding verify_challenge_intent
  verify_challenge_intent_sound raw expected key h = elim (Execution-cases (execution_error raw)) [
    | inr (inl bad) ↦ absurd (ground (arith, h, bad))
    | inr (inr (v, bad)) ↦ absurd (ground (arith, h, bad))
    | inl good ↦ (
      good,
      check_transaction_sound raw (transaction_v1 raw) expected key refl
          (rw (verify_challenge_intent, good) at h),
    )
  ]
