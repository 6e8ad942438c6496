-- ===== src/Wallet/Payout.antt =====
-- What holds where the reward of a challenge is paid out.
use bondsman.Common.{
  ℕ, ◌+◌, String, true, Option, none, some, or_default, ◌==◌, string_eq, ◌≡◌, refl, sym, ap, ◌∙◌,
  arith, eq_iff, Option-cases, Bool-cases, inl, inr,
}
use bondsman.Common.Decimal.{big_int, to_text}
use bondsman.Repository.Records.{
  ActionRecord, EventRecord, ChallengerType, ChallengeSigning, external_wallet, watchdog, manual,
  wallet_key, backend_key, watchdog_key,
}
use bondsman.Repository.Tables.{Database}
use bondsman.Repository.Actions.{action}
use bondsman.Repository.Events.{events_for_action}
use bondsman.Wallet.Resolve.{
  Outside, ChainAction, WalletChallengeResult, WalletReply, resolved, is_account, is_wallet_type,
  is_wallet_key, is_external, split_from_events, split_of, numeric_split, pay_out,
  resolve_transaction, is_transaction_hash, conclude, settle_challenge,
}

is_account_sound :
    (o : Option String) (account : String) → is_account o account ≡ true → o ≡ some account
is_account_sound none account h = absurd (ground arith)
is_account_sound (some c) account h = rw ((eq_iff c account).0 h) refl

is_wallet_type_sound :
    (o : Option ChallengerType) → is_wallet_type o ≡ true → o ≡ some external_wallet
is_wallet_type_sound none h = absurd (ground arith)
is_wallet_type_sound (some external_wallet) h = refl
is_wallet_type_sound (some watchdog) h = absurd (ground arith)
is_wallet_type_sound (some manual) h = absurd (ground arith)

is_wallet_key_sound : (o : Option ChallengeSigning) → is_wallet_key o ≡ true → o ≡ some wallet_key
is_wallet_key_sound none h = absurd (ground arith)
is_wallet_key_sound (some wallet_key) h = refl
is_wallet_key_sound (some backend_key) h = absurd (ground arith)
is_wallet_key_sound (some watchdog_key) h = absurd (ground arith)

is_external_sound :
    (o : Option ActionRecord) (account : String)
    → is_external o account ≡ true
    → (projected : ActionRecord) × ((o ≡ some projected)
        × (projected.status ≡ "ResolvedSlash")
        × (projected.challenger ≡ some account)
        × (projected.challenger_type ≡ some external_wallet)
        × (projected.challenge_signing ≡ some wallet_key))
unfolding is_external
is_external_sound none account h = absurd (ground arith)
is_external_sound (some p) account h = (
  p,
  (
    refl,
    (eq_iff p.status "ResolvedSlash").0 (ground arith),
    is_account_sound p.challenger account (ground arith),
    is_wallet_type_sound p.challenger_type (ground arith),
    is_wallet_key_sound p.challenge_signing (ground arith),
  ),
)

numeric_split_sound :
    (x y c p : String)
    → numeric_split x y ≡ some (c, p)
    → (a b : ℕ) × ((big_int c ≡ some a) × (big_int p ≡ some b))
unfolding numeric_split
numeric_split_sound x y c p h = elim (Option-cases (big_int x)) [
  | inl bad ↦ absurd (ground (arith, h, bad))
  | inr (a, first) ↦ elim (Option-cases (big_int y)) [
    | inl bad ↦ absurd (ground (arith, h, bad, first))
    | inr (b, second) ↦
        let same : (x ≡ c) × (y ≡ p) = ground (arith, h, first, second) in
        (a, b, (rw (sym same.0) first, rw (sym same.1) second))
  ]
]

split_of_sound :
    (event : Option EventRecord) (c p : String)
    → split_of event ≡ some (c, p)
    → (a b : ℕ) × ((big_int c ≡ some a) × (big_int p ≡ some b))
unfolding split_of
split_of_sound none c p h = absurd (ground arith)
split_of_sound (some event) c p h = numeric_split_sound _ _ c p h

module _ (outside : Outside) where
  -- The projection has the wallet as the challenger, and the shares add up to the posted bond.
  abbrev pub IsPaidOut : ℕ → ChainAction → WalletChallengeResult → Database → Type 0
  IsPaidOut action_id chain_action r db =
      (a b : ℕ) × (projected : ActionRecord) × ((action action_id db ≡ some projected)
        × (projected.status ≡ "ResolvedSlash")
        × (projected.challenger ≡ some r.challenger)
        × (projected.challenger_type ≡ some external_wallet)
        × (projected.challenge_signing ≡ some wallet_key)
        × (big_int r.challenger_share ≡ some a)
        × (big_int r.reserve_share ≡ some b)
        × (chain_action.bond_posted ≡ to_text (a + b)))

  abbrev Shares : ChainAction → WalletChallengeResult → Type 0
  Shares chain_action r =
      (a b : ℕ) × ((big_int r.challenger_share ≡ some a)
        × (big_int r.reserve_share ≡ some b)
        × (chain_action.bond_posted ≡ to_text (a + b)))

  pay_out_sound :
      (action_id : ℕ) (hash : String) (chain_action : ChainAction) (account resolve_hash : String)
      (split : Option (String × String)) (r : WalletChallengeResult)
      → ((c p : String)
          → split ≡ some (c, p)
          → (a b : ℕ) × ((big_int c ≡ some a) × (big_int p ≡ some b)))
      → pay_out outside action_id hash chain_action account resolve_hash split ≡ resolved r
      → (r.challenger ≡ account) × Shares chain_action r
  unfolding pay_out
  pay_out_sound action_id hash chain_action account resolve_hash none r numbers h =
      absurd (ground arith)
  pay_out_sound action_id hash chain_action account resolve_hash (some (c, p)) r numbers h =
      let (a, b, (first, second)) = numbers c p refl in
      let total = to_text (or_default (big_int c) 0 + or_default (big_int p) 0) in
      let sum : total ≡ to_text (a + b) = rw (first, second) refl in
      let paid : WalletChallengeResult = record {
        action_id = action_id;
        challenger = account;
        total = total;
        challenger_share = c;
        reserve_share = p;
        challenge = hash;
        resolve = resolve_hash;
      } in
      elim (Bool-cases (total == chain_action.bond_posted)) [
        | inr other ↦ absurd (ground (arith, h, other))
        | inl same ↦
            let is : paid ≡ r = ground (arith, h, same) in
            (
              rw (sym is) refl,
              (
                a,
                b,
                (
                  rw (sym is) first,
                  rw (sym is) second,
                  sym ((eq_iff total chain_action.bond_posted).0 same) ∙ sum,
                ),
              ),
            )
      ]

  conclude_sound :
      (action_id : ℕ) (hash : String) (chain_action : ChainAction) (account resolve_hash : String)
      (db : Database) (r : WalletChallengeResult)
      → conclude outside action_id hash chain_action account resolve_hash db ≡ resolved r
      → (r.challenger ≡ account) × IsPaidOut action_id chain_action r db
  unfolding conclude split_from_events
  conclude_sound action_id hash chain_action account resolve_hash db r h =
      elim (Bool-cases (is_external (action action_id db) account)) [
        | inr other ↦ absurd (ground (arith, h, other))
        | inl is ↦
            let (projected, (found, status, challenger, kind, signing)) =
              is_external_sound (action action_id db) account is in
            let (same, (a, b, (first, second, posted))) =
              pay_out_sound action_id hash chain_action account resolve_hash
                (split_from_events (events_for_action action_id db)) r (λ c p. split_of_sound _ c p)
                (rw is at h) in
            (
              same,
              (
                a,
                b,
                projected,
                (found, status, challenger ∙ rw same refl, kind, signing, first, second, posted),
              ),
            )
      ]

  concluded :
      (action_id : ℕ) (hash : String) (chain_action : ChainAction) (account resolve_hash : String)
      (db after : Database) (r : WalletChallengeResult)
      → ◌≡◌ {A = WalletReply × Database}
          (conclude outside action_id hash chain_action account resolve_hash db, db)
          (resolved r, after)
      → (r.challenger ≡ account) × IsPaidOut action_id chain_action r after
  concluded action_id hash chain_action account resolve_hash db after r h =
      let paid =
        conclude_sound action_id hash chain_action account resolve_hash db r
          (ap (λ (answer : WalletReply × Database). answer.0) h) in
      let last : db ≡ after = ap (λ (answer : WalletReply × Database). answer.1) h in
      rw last at paid

  pub settle_challenge_sound :
      (action_id : ℕ) (hash : String) (chain_action : ChainAction) (account : String)
      (db after : Database) (r : WalletChallengeResult)
      → settle_challenge outside action_id hash chain_action account db ≡ (resolved r, after)
      → (r.challenger ≡ account) × IsPaidOut action_id chain_action r after
  unfolding settle_challenge
  settle_challenge_sound action_id hash chain_action account db after r h =
      elim (Bool-cases (chain_action.status == "Challenged")) [
        | inl raised ↦ elim (Option-cases (outside.resolve action_id hash db).0) [
          | inl bad ↦ absurd (ground (arith, h, raised, bad))
          | inr (resolve_hash, e) ↦
              concluded action_id hash chain_action account resolve_hash
                (outside.resolve action_id hash db).1 after r (rw (raised, e) at h)
        ]
        | inr other ↦ elim (Bool-cases (chain_action.status == "ResolvedSlash")) [
          | inr bad ↦ absurd (ground (arith, h, other, bad))
          | inl done ↦
              elim (Bool-cases
                (is_transaction_hash outside (resolve_transaction outside (action action_id db)))) [
                  | inr bad ↦ absurd (ground (arith, h, other, done, bad))
                  | inl good ↦
                      concluded action_id hash chain_action account
                        (resolve_transaction outside (action action_id db)) db after r
                        (rw (other, done, good) at h)
                ]
        ]
      ]
