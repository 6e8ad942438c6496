-- ===== src/Wallet/Accepted.antt =====
-- What holds where a challenge of a wallet is accepted.
use Prim.Native.String
use bondsman.Common.{
  ℕ, String, true, false, some, any, ◌==◌, string_eq, ◌≡◌, refl, arith, Option-cases, Bool-cases,
  inl, inr,
}
use bondsman.Common.Json.{Json}
use bondsman.Authorization.{codes, same_codes}
use bondsman.Repository.Tables.{Database}
use bondsman.Wallet.{succeeded, execution_error}
use bondsman.Wallet.Transaction.{Intent, intent, verify_challenge_intent}
use bondsman.Wallet.Intent.{Execution-cases}
use bondsman.Wallet.Resolve.{
  Outside, ChainAction, WalletChallengeResult, resolved, normalize_account, expectation,
  check_challenger, check_signer, resolve_wallet_challenge,
}
use bondsman.Wallet.Payout.{IsPaidOut, settle_challenge_sound}

module _ (outside : Outside) where
  -- What was checked of the wallet and of the chain.
  abbrev pub IsChallenger : ℕ → String → WalletChallengeResult → ChainAction → Type 0
  IsChallenger action_id account r chain_action =
      (r.challenger ≡ account)
      × (any (λ configured. configured == account) outside.configured_accounts ≡ false)
      × (outside.read_action action_id ≡ some chain_action)
      × (same_codes (normalize_account chain_action.challenger) (codes account) ≡ true)

  check_challenger_sound :
      (action_id : ℕ) (hash account : String) (db after : Database) (r : WalletChallengeResult)
      → check_challenger outside action_id hash account db ≡ (resolved r, after)
      → (chain_action : ChainAction) × (IsChallenger action_id account r chain_action
          × IsPaidOut outside action_id chain_action r after)
  unfolding check_challenger
  check_challenger_sound action_id hash account db after r h =
      elim (Bool-cases (any (λ configured. configured == account) outside.configured_accounts)) [
        | inl bad ↦ absurd (ground (arith, h, bad))
        | inr external ↦ elim (Option-cases (outside.read_action action_id)) [
          | inl bad ↦ absurd (ground (arith, h, external, bad))
          | inr (chain_action, read) ↦
              elim (Bool-cases
                (same_codes (normalize_account chain_action.challenger) (codes account))) [
                  | inr bad ↦ absurd (ground (arith, h, external, read, bad))
                  | inl same ↦
                      let (is, paid) =
                        settle_challenge_sound outside action_id hash chain_action account db after
                          r (rw (external, read, same) at h) in
                      (chain_action, ((is, external, read, same), paid))
                ]
        ]
      ]

  check_signer_sound :
      (action_id : ℕ) (hash : String) (i : Intent) (db after : Database) (r : WalletChallengeResult)
      → check_signer outside action_id hash i db ≡ (resolved r, after)
      → (key account : String) × (chain_action : ChainAction) × ((i ≡ intent key)
          × (outside.account_hash key ≡ some account)
          × IsChallenger action_id (String.◌++◌ "account-hash-" account) r chain_action
          × IsPaidOut outside action_id chain_action r after)
  unfolding check_signer
  check_signer_sound action_id hash (intent key) db after r h =
      elim (Option-cases (outside.account_hash key)) [
        | inl bad ↦ absurd (ground (arith, h, bad))
        | inr (account, e) ↦
            let (chain_action, (is, paid)) =
              check_challenger_sound action_id hash (String.◌++◌ "account-hash-" account) db after r
                (rw (check_signer, e) at h) in
            (key, account, chain_action, (refl, e, is, paid))
      ]
  check_signer_sound action_id hash _ db after r h = absurd (ground arith)

  -- A challenge of a wallet is answered with success only where the node has its transaction as
  -- final and without an error, the transaction passes the checks of the intent for this action,
  -- its signer is no configured account and is the challenger that the chain holds, and, in the
  -- database that is left, the action is resolved with a slash for that wallet and the two shares of
  -- the reward add up to the bond that the chain holds.
  pub resolve_wallet_challenge_sound :
      (action_id : ℕ) (hash : String) (db after : Database) (r : WalletChallengeResult)
      → resolve_wallet_challenge outside action_id hash db ≡ (resolved r, after)
      → (raw : Json) × (key account : String) × (chain_action : ChainAction)
        × ((outside.get_transaction hash ≡ some raw)
            × (execution_error raw ≡ succeeded)
            × (verify_challenge_intent outside.to_number raw (expectation outside action_id hash)
                ≡ intent key)
            × (outside.account_hash key ≡ some account)
            × IsChallenger action_id (String.◌++◌ "account-hash-" account) r chain_action
            × IsPaidOut outside action_id chain_action r after)
  unfolding resolve_wallet_challenge
  resolve_wallet_challenge_sound action_id hash db after r h =
      elim (Option-cases (outside.get_transaction hash)) [
        | inl bad ↦ absurd (ground (arith, h, bad))
        | inr (raw, found) ↦ elim (Execution-cases (execution_error raw)) [
          | inr (inl bad) ↦ absurd (ground (arith, h, found, bad))
          | inr (inr (v, bad)) ↦ absurd (ground (arith, h, found, bad))
          | inl good ↦
              let (key, account, chain_action, (is, e, challenger, paid)) =
                check_signer_sound action_id hash _ db after r
                  (rw (resolve_wallet_challenge, found, good) at h) in
              (raw, key, account, chain_action, (found, good, is, e, challenger, paid))
        ]
      ]
