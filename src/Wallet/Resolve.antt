-- ===== src/Wallet/Resolve.antt =====
-- `resolveWalletChallenge` of `backend/src/api/wallet-challenge.ts`. What the node and the chain answer, and the
-- resolution, are arguments.
use Prim.Native.String
use bondsman.Common.{
  ℕ, ◌+◌, String, Bool, true, false, ◌&&◌, ◌||◌, Option, none, some, or_default, List, [], ◌∷◌,
  ◌++◌, length, take, drop, any, ◌==◌, string_eq, nat_eq, leb, if◌then◌else◌,
}
use bondsman.Common.Int.{ℤ}
use bondsman.Common.Decimal.{big_int, to_text}
use bondsman.Common.Table.{lookup}
use bondsman.Common.Json.{Json}
use bondsman.Authorization.{codes, starts_with, same_codes}
use bondsman.Repository.Records.{
  ActionRecord, EventRecord, ChallengerType, ChallengeSigning, external_wallet, wallet_key,
}
use bondsman.Repository.Tables.{Database}
use bondsman.Repository.Actions.{action}
use bondsman.Repository.Events.{events_for_action}
use bondsman.Wallet.{unknown, succeeded, failed, execution_error}
use bondsman.Wallet.Transaction.{ChallengeExpectation, Intent, intent, verify_challenge_intent}

pub record ChainAction : Type 0 where
  pub status : String
  pub challenger : String
  pub bond_posted : String

pub data Refusal : Type 0 where
  challenge_not_final challenge_failed not_external_wallet challenger_mismatch : Refusal
  resolve_evidence_unavailable action_not_challenged reconciliation_mismatch : Refusal
  slash_evidence_unavailable reward_split_mismatch : Refusal
  invalid_challenge_transaction : Intent → Refusal
  -- A throw of a call of the node, of the chain or of the resolution.
  unavailable : Refusal

pub record WalletChallengeResult : Type 0 where
  pub action_id : ℕ
  pub challenger : String
  pub total : String
  pub challenger_share : String
  pub reserve_share : String
  pub challenge : String
  pub resolve : String

pub data WalletReply : Type 0 where
  resolved : WalletChallengeResult → WalletReply
  refused : Refusal → WalletReply

abbrev is_lower_hex : List ℕ → Bool
is_lower_hex [] = true
is_lower_hex (c ∷ cs) = (leb 48 c && leb c 57 || leb 97 c && leb c 102) && is_lower_hex cs

-- `[0-9a-f]{64}` at the beginning.
abbrev starts_with_hash : List ℕ → Bool
starts_with_hash text = leb 64 (length text) && is_lower_hex (take 64 text)

account_after : String → List ℕ → Option (List ℕ)
unfolding starts_with
account_after prefix text =
    let rest = drop (length (codes prefix)) text in
    if starts_with (codes prefix) text && starts_with_hash rest
    then some (codes "account-hash-" ++ take 64 rest)
    else none

-- The first match of the expression in `normalizeAccount`.
find_account : List ℕ → Option (List ℕ)
unfolding account_after
find_account [] = none
find_account (c ∷ cs) =
    let later = find_account cs in
    elim (account_after "Key::Account(" (c ∷ cs)) [
      | some account ↦ some account
      | none ↦ elim (account_after "account-hash-" (c ∷ cs)) [
        | some account ↦ some account
        | none ↦ later
      ]
    ]

unfoldable pub normalize_account : String → List ℕ
unfolding find_account
normalize_account value = or_default (find_account (codes value)) (codes value)

abbrev is_slash_event : EventRecord → Bool
is_slash_event event = event.event_type == "BondSlashed" || event.event_type == "ResolvedSlashV2"

first_slash : List EventRecord → Option EventRecord
first_slash [] = none
first_slash (event ∷ events) =
    let later = first_slash events in if is_slash_event event then some event else later

-- The shares, where both are written in digits.
unfoldable pub numeric_split : String → String → Option (String × String)
numeric_split challenger_share reserve_share = elim (big_int challenger_share) [
  | none ↦ none
  | some _ ↦ elim (big_int reserve_share) [
    | none ↦ none
    | some _ ↦ some (challenger_share, reserve_share)
  ]
]

unfoldable pub split_of : Option EventRecord → Option (String × String)
unfolding numeric_split
split_of none = none
split_of (some event) = numeric_split (or_default (lookup "challenger_amount" event.fields) "") (
    or_default (lookup "pool_amount" event.fields)
      (or_default (lookup "reserve_amount" event.fields) ""))

unfoldable pub split_from_events : List EventRecord → Option (String × String)
unfolding first_slash
split_from_events events = split_of (first_slash events)

abbrev pub is_account : Option String → String → Bool
is_account none account = false
is_account (some challenger) account = challenger == account

abbrev pub is_wallet_type : Option ChallengerType → Bool
is_wallet_type (some external_wallet) = true
is_wallet_type _ = false

abbrev pub is_wallet_key : Option ChallengeSigning → Bool
is_wallet_key (some wallet_key) = true
is_wallet_key _ = false

-- The projection keeps the wallet as the challenger.
unfoldable pub is_external : Option ActionRecord → String → Bool
is_external none wallet_account = false
is_external (some projected) wallet_account =
    projected.status == "ResolvedSlash"
    && is_account projected.challenger wallet_account
    && is_wallet_type projected.challenger_type
    && is_wallet_key projected.challenge_signing

pub record Outside : Type 0 where
  pub to_number : Json → Option ℤ
  pub account_hash : String → Option String
  pub get_transaction : String → Option Json
  pub read_action : ℕ → Option ChainAction
  -- The resolution of an action, which brings the database up to date.
  pub resolve : ℕ → String → Database → Option String × Database
  pub chain_name : String
  pub controller_package_hash : String
  pub controller_contract_hash : String
  pub configured_accounts : List String

module _ (outside : Outside) where
  abbrev pub expectation : ℕ → String → ChallengeExpectation
  expectation action_id hash = record {
    hash = hash;
    action_id = action_id;
    chain_name = outside.chain_name;
    controller_package_hash = outside.controller_package_hash;
    controller_contract_hash = outside.controller_contract_hash;
  }

  unfoldable pub pay_out :
      ℕ → String → ChainAction → String → String → Option (String × String) → WalletReply
  pay_out action_id hash chain_action account resolve_hash none = refused slash_evidence_unavailable
  pay_out action_id hash chain_action account resolve_hash
        (some (challenger_share, reserve_share)) =
      let total =
        to_text (or_default (big_int challenger_share) 0 + or_default (big_int reserve_share) 0) in
      if total == chain_action.bond_posted
      then resolved (record {
        action_id = action_id;
        challenger = account;
        total = total;
        challenger_share = challenger_share;
        reserve_share = reserve_share;
        challenge = hash;
        resolve = resolve_hash;
      })
      else refused reward_split_mismatch

  -- The checks after the resolution, on the projection.
  unfoldable pub conclude : ℕ → String → ChainAction → String → String → Database → WalletReply
  unfolding pay_out
  conclude action_id hash chain_action account resolve_hash db =
      if is_external (action action_id db) account
      then pay_out action_id hash chain_action account resolve_hash
          (split_from_events (events_for_action action_id db))
      else refused reconciliation_mismatch

  abbrev pub resolve_transaction : Option ActionRecord → String
  resolve_transaction none = ""
  resolve_transaction (some existing) = or_default (lookup "resolve" existing.transactions) ""

  abbrev pub is_transaction_hash : String → Bool
  is_transaction_hash hash = length (codes hash) == 64 && is_lower_hex (codes hash)

  -- From the status of the action on the chain on.
  unfoldable pub settle_challenge :
      ℕ → String → ChainAction → String → Database → WalletReply × Database
  unfolding conclude
  settle_challenge action_id hash chain_action account db =
      if chain_action.status == "Challenged"
      then (let (resolution, db') = outside.resolve action_id hash db in
          elim resolution [
            | none ↦ (refused unavailable, db')
            | some resolve_hash ↦
                (conclude action_id hash chain_action account resolve_hash db', db')
          ])
      else if chain_action.status == "ResolvedSlash"
      then (let resolve_hash = resolve_transaction (action action_id db) in
          if is_transaction_hash resolve_hash
          then (conclude action_id hash chain_action account resolve_hash db, db)
          else (refused resolve_evidence_unavailable, db))
      else (refused action_not_challenged, db)

  -- The signer is no account of the backend, and the chain holds it as the challenger.
  unfoldable pub check_challenger : ℕ → String → String → Database → WalletReply × Database
  unfolding settle_challenge normalize_account
  check_challenger action_id hash account db =
      if any (λ configured. configured == account) outside.configured_accounts
      then (refused not_external_wallet, db)
      else elim (outside.read_action action_id) [
        | none ↦ (refused unavailable, db)
        | some chain_action ↦
            if same_codes (normalize_account chain_action.challenger) (codes account)
            then settle_challenge action_id hash chain_action account db
            else (refused challenger_mismatch, db)
      ]

  unfoldable pub check_signer : ℕ → String → Intent → Database → WalletReply × Database
  unfolding check_challenger
  check_signer action_id hash (intent public_key) db = elim (outside.account_hash public_key) [
    | none ↦ (refused unavailable, db)
    | some account ↦ check_challenger action_id hash (String.◌++◌ "account-hash-" account) db
  ]
  check_signer action_id hash other db = (refused (invalid_challenge_transaction other), db)

  unfoldable pub resolve_wallet_challenge : ℕ → String → Database → WalletReply × Database
  unfolding check_signer
  resolve_wallet_challenge action_id hash db = elim (outside.get_transaction hash) [
    | none ↦ (refused unavailable, db)
    | some raw ↦ elim (execution_error raw) [
      | unknown ↦ (refused challenge_not_final, db)
      | failed _ ↦ (refused challenge_failed, db)
      | succeeded ↦
          check_signer action_id hash
            (verify_challenge_intent outside.to_number raw (expectation action_id hash)) db
    ]
  ]
