-- ===== src/Wallet/Examples.antt =====
-- A challenge of action 7 that a wallet signed, and its resolution.
use Prim.Native.String
use bondsman.Common.{String, true, false, none, some, [], ◌∷◌, string_eq, ◌≡◌, refl}
use bondsman.Common.Int.{pos}
use bondsman.Common.Decimal.{big_int, to_text}
use bondsman.Common.Table.{lookup, upsert}
use bondsman.Common.Json.{Json, field, end, str, num, arr, obj, nil, cons, null}
use bondsman.Authorization.{same_codes, starts_with}
use bondsman.Policy.{duplicate_claim}
use bondsman.Repository.Records.{ActionRecord, external_wallet, wallet_key}
use bondsman.Repository.Tables.{Database, empty_database, EventRow}
use bondsman.Repository.Actions.{action, upsert_action}
use bondsman.Repository.Events.{events_for_action}
use bondsman.Wallet.{
  succeeded, execution_error, transaction_v1, named_argument, target_hash, has_signer,
}
use bondsman.Wallet.Transaction.{
  intent, names_action, names_controller, signer_of, check_fields, check_payload, check_transaction,
  verify_challenge_intent,
}
use bondsman.Wallet.Resolve.{
  Outside, ChainAction, WalletChallengeResult, resolved, normalize_account, split_of, numeric_split,
  split_from_events, is_external, pay_out, conclude, settle_challenge, check_challenger,
  check_signer, expectation, resolve_wallet_challenge,
}
use bondsman.Wallet.Intent.{IsIntended, verify_challenge_intent_sound}
use bondsman.Wallet.Payout.{IsPaidOut}
use bondsman.Wallet.Accepted.{IsChallenger, resolve_wallet_challenge_sound}

abbrev account : String
account = "00112233445566778899aabbccddeeff00112233445566778899aabbccddeeff"

abbrev full_account : String
full_account = "account-hash-00112233445566778899aabbccddeeff00112233445566778899aabbccddeeff"

abbrev one : String → Json → Json
one name value = obj (field name value end)

abbrev raw : Json
raw = one "result" (
    obj (
      field "transaction"
        (one "Version1" (
          obj (
            field "hash" (str "t") (
              field "payload"
                (obj (
                  field "chain_name" (str "casper-test") (
                    field "initiator_addr" (one "PublicKey" (str "01ab")) (
                      field "fields"
                        (obj (
                          field "args"
                            (one "Named" (
                              arr (
                                cons
                                  (arr (
                                    cons (str "action_id") (
                                      cons
                                        (obj (
                                          field "cl_type" (str "U64")
                                            (field "parsed" (num (pos 7)) end)))
                                        nil)))
                                  nil)))
                            (field "entry_point" (one "Custom" (str "challenge_action")) (
                              field "target"
                                (one "Stored"
                                  (one "id" (one "ByPackageHash" (one "addr" (str "aa")))))
                                end))))
                        end))))
                (field "approvals" (arr (cons (one "signer" (str "01ab")) nil)) end)))))
        (field "execution_info" (one "execution_result" (one "Version2" (one "error_message" null)))
          end)))

abbrev chain_action : ChainAction
chain_action = record { status = "Challenged"; challenger = full_account; bond_posted = "10" }

abbrev slashed : ActionRecord
slashed = record {
  action_id = 7;
  invoice_id = 1;
  agent = "agent";
  amount = "100";
  claim_hash = "c";
  reasoning = "";
  reasoning_hash = "";
  bond_required = "10";
  bond_posted = "10";
  window_end = 9;
  status = "ResolvedSlash";
  challenger = some full_account;
  challenger_type = some external_wallet;
  challenge_signing = some wallet_key;
  controller_hash = some "h";
  duplicate_proven = some true;
  fault_class = some duplicate_claim;
  evidence_root = none;
  reserved_for_manual = false;
  transactions = [];
}

abbrev slash_event : EventRow
slash_event = record {
  event_type = "BondSlashed";
  action_id = some 7;
  fields = ("challenger_amount", "4") ∷ ("pool_amount", "6") ∷ [];
  transaction_hash = none;
}

abbrev after : Database
after = record (upsert_action slashed empty_database) { events = (("h", 1), slash_event) ∷ [] }

abbrev outside : Outside
outside = record {
  to_number = λ value. some (pos 7);
  account_hash = λ _. some account;
  get_transaction = λ _. some raw;
  read_action = λ _. some chain_action;
  resolve = λ _ _ _. (some "r", after);
  chain_name = "casper-test";
  controller_package_hash = "hash-aa";
  controller_contract_hash = "hash-bb";
  configured_accounts = "account-hash-ff" ∷ [];
}

abbrev reply : WalletChallengeResult
reply = record {
  action_id = 7;
  challenger = full_account;
  total = "10";
  challenger_share = "4";
  reserve_share = "6";
  challenge = "t";
  resolve = "r";
}

run : resolve_wallet_challenge outside 7 "t" empty_database ≡ (resolved reply, after)
unfolding resolve_wallet_challenge execution_error transaction_v1 named_argument target_hash
    has_signer names_action names_controller signer_of check_fields check_payload check_transaction
    verify_challenge_intent normalize_account split_of numeric_split split_from_events is_external
    pay_out conclude settle_challenge check_challenger check_signer same_codes starts_with action
    upsert_action events_for_action lookup upsert big_int to_text
run = refl

resolve_wallet_challenge_sound_example :
    (r : Json) × (key a : String) × (c : ChainAction) × ((some raw ≡ some r)
      × (execution_error r ≡ succeeded)
      × (verify_challenge_intent outside.to_number r (expectation outside 7 "t") ≡ intent key)
      × (some account ≡ some a)
      × IsChallenger outside 7 (String.◌++◌ "account-hash-" a) reply c
      × IsPaidOut outside 7 c reply after)
resolve_wallet_challenge_sound_example =
    resolve_wallet_challenge_sound outside 7 "t" empty_database after reply run

intended : verify_challenge_intent outside.to_number raw (expectation outside 7 "t") ≡ intent "01ab"
unfolding execution_error transaction_v1 named_argument target_hash has_signer names_action
    names_controller signer_of check_fields check_payload check_transaction verify_challenge_intent
    same_codes starts_with
intended = refl

verify_challenge_intent_sound_example :
    (execution_error raw ≡ succeeded)
    × IsIntended outside.to_number raw (expectation outside 7 "t") "01ab"
verify_challenge_intent_sound_example =
    verify_challenge_intent_sound outside.to_number raw (expectation outside 7 "t") "01ab" intended
