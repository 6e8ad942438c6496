-- ===== src/Wallet/Transaction.antt =====
-- `verifyChallengeIntent` of `backend/src/casper/transactions.ts`.
use bondsman.Common.{
  ℕ, String, Bool, false, ◌&&◌, ◌||◌, Option, none, some, ◌==◌, string_eq, nat_eq, if◌then◌else◌,
}
use bondsman.Common.Int.{ℤ, pos}
use bondsman.Common.Json.{Json, Fields, str, arr, get}
use bondsman.Authorization.{codes, same_codes}
use bondsman.Wallet.{
  unknown, succeeded, failed, fields_of, member, transaction_v1, execution_error, named_argument,
  target_hash, has_signer,
}

pub record ChallengeExpectation : Type 0 where
  pub hash : String
  pub action_id : ℕ
  pub chain_name : String
  pub controller_package_hash : String
  pub controller_contract_hash : String

pub data Intent : Type 0 where
  intent : String → Intent
  not_final transaction_failed hash_mismatch wrong_chain fields_missing : Intent
  wrong_entry_point wrong_action_id wrong_target signer_missing : Intent

abbrev pub is_text : String → Option Json → Bool
is_text text (some (str other)) = other == text
is_text text _ = false

-- `to_number` is the conversion `Number` of JavaScript; `none` is no number.
module _ (to_number : Json → Option ℤ) where
  abbrev pub is_number : ℕ → Option Json → Bool
  is_number n none = false
  is_number n (some value) = elim (to_number value) [ some (pos m) ↦ m == n | _ ↦ false ]

  unfoldable pub names_action : Fields → ℕ → Bool
  names_action fields action_id = elim (named_argument fields "action_id") [
    | none ↦ false
    | some argument ↦
        is_text "U64" (get "cl_type" argument) && is_number action_id (get "parsed" argument)
  ]

  unfoldable pub names_controller : Fields → ChallengeExpectation → Bool
  names_controller fields expected = elim (target_hash fields) [
    | none ↦ false
    | some target ↦
        same_codes target (codes expected.controller_package_hash)
        || same_codes target (codes expected.controller_contract_hash)
  ]

  -- The signer, who is among those that approved.
  unfoldable pub signer_of : Option Json → Option Json → Intent
  unfolding has_signer
  signer_of (some (str public_key)) (some (arr approvals)) =
      if has_signer public_key approvals then intent public_key else signer_missing
  signer_of _ _ = signer_missing

  -- The checks on the fields of the payload, in their order.
  unfoldable pub check_fields : Fields → Fields → Fields → ChallengeExpectation → Intent
  unfolding names_action names_controller signer_of
  check_fields transaction payload fields expected =
      if is_text "challenge_action" (member "Custom" (fields_of (get "entry_point" fields)))
      then if names_action fields expected.action_id
        then if names_controller fields expected
          then signer_of (member "PublicKey" (fields_of (get "initiator_addr" payload)))
              (get "approvals" transaction)
          else wrong_target
        else wrong_action_id
      else wrong_entry_point

  unfoldable pub check_payload : Fields → Option Fields → ChallengeExpectation → Intent
  unfolding check_fields
  check_payload transaction payload expected =
      if is_text expected.chain_name (member "chain_name" payload)
      then elim payload [
        | none ↦ fields_missing
        | some found ↦ elim (fields_of (get "fields" found)) [
          | none ↦ fields_missing
          | some fields ↦ check_fields transaction found fields expected
        ]
      ]
      else wrong_chain

  unfoldable pub check_transaction : Option Fields → ChallengeExpectation → Intent
  unfolding check_payload
  check_transaction none expected = hash_mismatch
  check_transaction (some transaction) expected =
      if is_text expected.hash (get "hash" transaction)
      then check_payload transaction (fields_of (get "payload" transaction)) expected
      else hash_mismatch

  unfoldable pub verify_challenge_intent : Json → ChallengeExpectation → Intent
  unfolding check_transaction
  verify_challenge_intent raw expected = elim (execution_error raw) [
    | unknown ↦ not_final
    | failed _ ↦ transaction_failed
    | succeeded ↦ check_transaction (transaction_v1 raw) expected
  ]
