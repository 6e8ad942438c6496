-- ===== src/Watchdog/Scan/Examples.antt =====
-- Two payouts of one claim, and a scan that catches the second.
use bondsman.Common.{
  ℕ, ◌/◌, true, false, ◌&&◌, none, some, [], ◌∷◌, ◌++◌, ◌≡◌, ◌⊎◌, refl, ◌==◌, nat_eq, string_eq,
  arith, any,
}
use bondsman.Common.Decimal.{big_int, to_text}
use bondsman.Common.Table.{lookup, upsert}
use bondsman.Policy.{duplicate_claim}
use bondsman.Repository.Records.{ActionRecord, WatchdogCatchRecord, watchdog, watchdog_key}
use bondsman.Repository.Tables.{Database, empty_database, done, constraint_failed}
use bondsman.Repository.Actions.{action, upsert_action, list_actions}
use bondsman.Repository.Actions.Stored.{stored}
use bondsman.Repository.Catches.{has_watchdog_catch, watchdog_catch, record_watchdog_catch}
use bondsman.Repository.Evidence.{delivery_attestation_for_action}
use bondsman.Watchdog.Detection.{
  detect_duplicate_actions, detect_delivery_contradictions, challengeable_duplicate, is_paid_status,
  open_to_contradiction,
}
use bondsman.Watchdog.Detection.Duplicates.{repeats, detect_duplicate_actions_exact}
use bondsman.Watchdog.Scan.{
  WatchdogChallengeCandidate, Encounter, returned, threw, goes_on, aborted, visit, record_catch,
  caught_action, candidates, scan_once, still_eligible, bind_evidence,
}
use bondsman.Watchdog.Scan.Isolation.{Thrown, visit-aborted}
use bondsman.Watchdog.Scan.Records.{record_catch-stored}
use bondsman.Watchdog.Scan.Kept.{IsGentle}
use bondsman.Watchdog.Scan.Returned.{AreStored, scan_once-AreStored}

abbrev payout : ℕ → ActionRecord
payout id = record {
  action_id = id;
  invoice_id = id;
  agent = "account-hash-a";
  amount = "50000000000000";
  claim_hash = "c1";
  reasoning = "";
  reasoning_hash = "";
  bond_required = "2600";
  bond_posted = "2601";
  window_end = 10_000;
  status = "Executed";
  challenger = none;
  challenger_type = none;
  challenge_signing = none;
  controller_hash = some "hash-1";
  duplicate_proven = some true;
  fault_class = some duplicate_claim;
  evidence_root = none;
  reserved_for_manual = false;
  transactions = [];
}

abbrev two : Database
two = upsert_action (payout 2) (upsert_action (payout 1) empty_database)

abbrev quiet : Encounter
quiet = record {
  while_asleep = λ db. db;
  while_waiting = λ db. db;
  now = 500;
  reasoning = some "the claim was paid before";
  transact = some ("ch", "re");
  reconcile = λ db. returned db;
  finished_at = 600;
}

detects_second :
    any (λ a. a.action_id == 2) (detect_duplicate_actions (payout 2 ∷ payout 1 ∷ []) 500) ≡ true
unfolding detect_duplicate_actions challengeable_duplicate
detects_second = refl

detect_duplicate_actions_exact_example :
    any (λ a. a.action_id == 2) (detect_duplicate_actions (payout 2 ∷ payout 1 ∷ []) 500)
    ≡ any
        (λ (a : ActionRecord).
          a.action_id == 2
          && is_paid_status a.status
          && challengeable_duplicate 500 a
          && any (repeats a) (payout 2 ∷ payout 1 ∷ []))
        (payout 2 ∷ payout 1 ∷ [])
detect_duplicate_actions_exact_example =
    detect_duplicate_actions_exact (payout 2 ∷ payout 1 ∷ []) 500 2 (omega arith)

abbrev second : WatchdogChallengeCandidate
second = record {
  action = payout 2;
  fault_class = duplicate_claim;
  evidence = 0 ∷ [];
  evidence_root = none;
}

abbrev silent : Encounter
silent = record quiet { reasoning = none }

visit-silent : visit "w" silent second two [] ≡ aborted two
unfolding visit action upsert_action lookup upsert still_eligible list_actions
    detect_duplicate_actions challengeable_duplicate
visit-silent = refl

abbrev caught_second : WatchdogCatchRecord
caught_second = record {
  action_id = 2;
  reward = "1300";
  reasoning = "the claim was paid before";
  challenge_tx = "ch";
  resolve_tx = "re";
  timestamp = 600;
}

abbrev after_catch : Database
after_catch =
    record_watchdog_catch caught_second
      (upsert_action (caught_action second (stored (payout 2)) "w" ("ch", "re")) two)

visit_catches : visit "w" quiet second two [] ≡ goes_on after_catch (caught_second ∷ [])
unfolding visit action upsert_action lookup upsert still_eligible list_actions
    detect_duplicate_actions challengeable_duplicate big_int to_text record_watchdog_catch
    caught_action
visit_catches = refl

visit-aborted_example :
    (current : ActionRecord) × (action 2 two ≡ some current)
    × (still_eligible duplicate_claim current.action_id 500 two ≡ true)
    × ((bind_evidence none current.action_id two ≡ constraint_failed)
        ⊎ ((bound : Database) × (bind_evidence none current.action_id two ≡ done (true, bound))
            × Thrown "w" silent second current bound two))
visit-aborted_example = visit-aborted "w" silent second two two [] visit-silent

-- The reconciliation throws after the transactions went through: the scan ends, and the catch is not
-- stored.
visit-threw : visit "w" (record quiet { reconcile = threw }) second two [] ≡ aborted two
unfolding visit action upsert_action lookup upsert still_eligible list_actions
    detect_duplicate_actions challengeable_duplicate
visit-threw = refl

record_catch-second :
    record_catch "w" quiet second
      (stored (payout 2))
      "the claim was paid before"
      ("ch", "re")
      two
      []
    ≡ goes_on after_catch (caught_second ∷ [])
unfolding record_catch big_int to_text
record_catch-second = refl

record_catch-stored_example :
    (r : WatchdogCatchRecord) × (a : ActionRecord) × ((watchdog_catch 2 after_catch ≡ some r)
      × (caught_second ∷ [] ≡ [] ++ r ∷ [])
      × (r.action_id ≡ 2)
      × (big_int r.reward ≡ some (2601 / 2))
      × (r.reasoning ≡ "the claim was paid before")
      × (r.challenge_tx ≡ "ch")
      × (r.resolve_tx ≡ "re")
      × (r.timestamp ≡ 600)
      × (action 2 after_catch ≡ some a)
      × (a.status ≡ "ResolvedSlash")
      × (a.challenger ≡ some "w")
      × (a.challenger_type ≡ some watchdog)
      × (a.challenge_signing ≡ some watchdog_key)
      × (a.fault_class ≡ some duplicate_claim)
      × (a.evidence_root ≡ none)
      × (lookup "challenge" a.transactions ≡ some "ch")
      × (lookup "resolve" a.transactions ≡ some "re")
      × (a.bond_posted ≡ "2601")
      × (a.window_end ≡ 10_000)
      × (a.agent ≡ "account-hash-a")
      × (a.claim_hash ≡ "c1")
      × ((j : ℕ) → (j == 2) ≡ false → action j after_catch ≡ action j two))
unfolding big_int
record_catch-stored_example =
    record_catch-stored "w" quiet second (stored (payout 2)) "the claim was paid before" "ch" "re"
      2601 two after_catch [] (caught_second ∷ []) refl record_catch-second

quiet-IsGentle : IsGentle quiet
quiet-IsGentle = record {
  asleep = λ db j r h. h;
  waiting = λ db j r h. h;
  reconciling = λ db db' is j r h. let same : db ≡ db' = cc is in rw same at h;
}

scan_catches : scan_once "w" (λ _. quiet) 500 two ≡ goes_on after_catch (caught_second ∷ [])
unfolding scan_once candidates visit action upsert_action lookup upsert still_eligible list_actions
    detect_duplicate_actions detect_delivery_contradictions challengeable_duplicate
    open_to_contradiction delivery_attestation_for_action has_watchdog_catch big_int to_text
scan_catches = refl

scan_once-AreStored_example : AreStored after_catch (caught_second ∷ [])
scan_once-AreStored_example =
    scan_once-AreStored "w" (λ _. quiet) (λ _. quiet-IsGentle) 500 two after_catch
      (caught_second ∷ []) scan_catches
