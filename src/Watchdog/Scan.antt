-- ===== src/Watchdog/Scan.antt =====
-- `scanOnce` of `backend/src/watchdog/service.ts`. What happens outside while the scan waits is an
-- argument, one `Encounter` for each candidate.
pub mod Isolation
pub mod Records
pub mod Kept
pub mod Returned
mod Examples
use bondsman.Common.{
  ℕ, ◌/◌, String, Bool, true, false, not, ◌&&◌, Option, none, some, List, [], ◌∷◌, ◌++◌, map, ◌==◌,
  nat_eq, if◌then◌else◌, any, filter,
}
use bondsman.Common.Decimal.{big_int, to_text}
use bondsman.Policy.{FaultClass, duplicate_claim, delivery_contradiction}
use bondsman.Repository.Records.{
  ActionRecord, WatchdogCatchRecord, ChallengerType, watchdog, ChallengeSigning, watchdog_key,
}
use bondsman.Repository.Tables.{Database, Sql, done, constraint_failed}
use bondsman.Repository.Actions.{action, list_actions, upsert_action}
use bondsman.Repository.Evidence.{
  delivery_attestation_for_action, use_delivery_evidence, release_delivery_evidence,
}
use bondsman.Repository.Catches.{has_watchdog_catch, record_watchdog_catch}
use bondsman.Watchdog.Detection.{
  detect_duplicate_actions, detect_delivery_contradictions, DeliveryContradictionCandidate,
}

pub record WatchdogChallengeCandidate : Type 0 where
  pub action : ActionRecord
  pub fault_class : FaultClass
  pub evidence : List ℕ
  pub evidence_root : Option String

-- How `reconcile` ends: it returns, or throws. Both may have changed the tables; where the service has
-- no such option it returns at once.
pub data Reconciled : Type 0 where
  returned threw : Database → Reconciled

-- What the outside does while one candidate is handled: other writers during the sleep and during
-- the waits for the model and the transactions, the clock at the re-check, the answer of the model, the hashes of
-- the two transactions, reconciliation, and the clock at the end. `none` is a throw.
pub record Encounter : Type 0 where
  pub while_asleep : Database → Database
  pub while_waiting : Database → Database
  pub now : ℕ
  pub reasoning : Option String
  pub transact : Option (String × String)
  pub reconcile : Database → Reconciled
  pub finished_at : ℕ

-- A scan that goes on, and one that ended in a throw that nothing catches.
pub data Outcome : Type 0 where
  goes_on : Database → List WatchdogCatchRecord → Outcome
  aborted : Database → Outcome

duplicate_candidate : ActionRecord → WatchdogChallengeCandidate
duplicate_candidate a = record {
  action = a;
  fault_class = duplicate_claim;
  evidence = 0 ∷ [];
  evidence_root = none;
}

contradiction_candidate : DeliveryContradictionCandidate → WatchdogChallengeCandidate
contradiction_candidate c = record {
  action = c.action;
  fault_class = delivery_contradiction;
  evidence = c.evidence;
  evidence_root = some c.attestation.evidence_root;
}

unfoldable pub candidates : ℕ → Database → List WatchdogChallengeCandidate
unfolding duplicate_candidate contradiction_candidate
candidates now db =
    map duplicate_candidate (
      filter (λ (a : ActionRecord). not (has_watchdog_catch a.action_id db))
        (detect_duplicate_actions (list_actions db) now))
    ++ map contradiction_candidate (
        filter
          (λ (c : DeliveryContradictionCandidate). not (has_watchdog_catch c.action.action_id db))
          (detect_delivery_contradictions (list_actions db)
            (λ id. delivery_attestation_for_action id db) now))

unfoldable pub still_eligible : FaultClass → ℕ → ℕ → Database → Bool
still_eligible duplicate_claim id now db =
    any (λ a. a.action_id == id) (detect_duplicate_actions (list_actions db) now)
still_eligible delivery_contradiction id now db =
    any (λ (c : DeliveryContradictionCandidate). c.action.action_id == id)
      (detect_delivery_contradictions (list_actions db) (λ a. delivery_attestation_for_action a db)
        now)

pub release_evidence : Option String → ℕ → Database → Database
release_evidence none id db = db
release_evidence (some root) id db = release_delivery_evidence root id db

-- `candidate.evidenceRoot && !useDeliveryEvidence(...)`
unfoldable pub bind_evidence : Option String → ℕ → Database → Sql (Bool × Database)
bind_evidence none id db = done (true, db)
bind_evidence (some root) id db = use_delivery_evidence root id db

-- `{ ...current.transactions, challenge, resolve }`: a later entry of a name counts
with_transactions : String × String → List (String × String) → List (String × String)
with_transactions (challenge, resolve) transactions =
    ("challenge", challenge) ∷ ("resolve", resolve) ∷ transactions

unfoldable pub caught_action :
    WatchdogChallengeCandidate → ActionRecord → String → String × String → ActionRecord
unfolding with_transactions
caught_action candidate current address txs = record current {
  status = "ResolvedSlash";
  challenger = some address;
  challenger_type = some watchdog;
  challenge_signing = some watchdog_key;
  fault_class = some candidate.fault_class;
  evidence_root = candidate.evidence_root;
  transactions = with_transactions txs current.transactions;
}

unfoldable pub catch_record : ActionRecord → ℕ → String → String × String → ℕ → WatchdogCatchRecord
catch_record current bond reasoning (challenge, resolve) finished_at = record {
  action_id = current.action_id;
  reward = to_text (bond / 2);
  reasoning = reasoning;
  challenge_tx = challenge;
  resolve_tx = resolve;
  timestamp = finished_at;
}

-- After the transactions: `BigInt(current.bondPosted)` may throw.
unfoldable pub record_catch :
    String
    → Encounter
    → WatchdogChallengeCandidate
    → ActionRecord
    → String
    → String × String
    → Database
    → List WatchdogCatchRecord
    → Outcome
unfolding caught_action catch_record
record_catch address e candidate current reasoning txs db caught =
    elim (big_int current.bond_posted) [
      | none ↦ aborted db
      | some bond ↦
          let r = catch_record current bond reasoning txs e.finished_at in
          goes_on
            (record_watchdog_catch r
              (upsert_action (caught_action candidate current address txs) db))
            (caught ++ r ∷ [])
    ]

-- `if (options.reconcile) await options.reconcile()`, which stands in no `try`.
unfoldable pub after_reconcile : Reconciled → (Database → Outcome) → Outcome
after_reconcile (returned db) next = next db
after_reconcile (threw db) next = aborted db

-- The wait for the model and the transactions, with the evidence bound.
pub challenge :
    String
    → Encounter
    → WatchdogChallengeCandidate
    → ActionRecord
    → Database
    → List WatchdogCatchRecord
    → Outcome
unfolding record_catch release_evidence after_reconcile
challenge address e candidate current bound caught =
    let db = e.while_waiting bound in
    elim e.reasoning [
      | none ↦ aborted db
      | some reasoning ↦ elim e.transact [
        | none ↦
            after_reconcile
              (e.reconcile (release_evidence candidate.evidence_root current.action_id db))
              (λ db'. goes_on db' caught)
        | some txs ↦
            after_reconcile (e.reconcile db)
              (λ db'. record_catch address e candidate current reasoning txs db' caught)
      ]
    ]

-- One turn of the loop over the candidates.
unfoldable pub visit :
    String → Encounter → WatchdogChallengeCandidate → Database → List WatchdogCatchRecord → Outcome
unfolding challenge bind_evidence
visit address e candidate before caught =
    let db = e.while_asleep before in
    elim (action candidate.action.action_id db) [
      | none ↦ goes_on db caught
      | some current ↦
          if still_eligible candidate.fault_class current.action_id e.now db
          then elim (bind_evidence candidate.evidence_root current.action_id db) [
            | constraint_failed ↦ aborted db
            | done (bound, db') ↦
                if bound
                then challenge address e candidate current db' caught
                else goes_on db' caught
          ]
          else goes_on db caught
    ]

scan_from :
    String
    → List (Encounter × WatchdogChallengeCandidate)
    → Database
    → List WatchdogCatchRecord
    → Outcome
unfolding visit
scan_from address [] db caught = goes_on db caught
scan_from address ((e, candidate) ∷ rest) db caught = elim (visit address e candidate db caught) [
  | goes_on db' caught' ↦ scan_from address rest db' caught'
  | aborted db' ↦ aborted db'
]

abbrev pairs_with :
    (ℕ → Encounter)
    → ℕ
    → List WatchdogChallengeCandidate
    → List (Encounter × WatchdogChallengeCandidate)
pairs_with outside i [] = []
pairs_with outside i (c ∷ cs) = (outside i, c) ∷ pairs_with outside (ℕ.suc i) cs

unfoldable pub scan_once : String → (ℕ → Encounter) → ℕ → Database → Outcome
unfolding scan_from
scan_once address outside now db =
    scan_from address (pairs_with outside 0 (candidates now db)) db []
