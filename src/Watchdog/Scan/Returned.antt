-- ===== src/Watchdog/Scan/Returned.antt =====
-- Every catch that a scan returns is in the table when the scan ends.
use bondsman.Common.{
  ℕ, String, Bool, true, false, Option, none, some, List, [], ◌∷◌, inl, inr, refl, nat_eq, arith,
  ◌∙◌, ◌≡◌, ◌==◌, if◌then◌else◌, sym, Bool-cases, Option-cases,
}
use bondsman.Common.Decimal.{big_int}
use bondsman.Repository.Records.{ActionRecord, WatchdogCatchRecord}
use bondsman.Repository.Tables.{Database, Sql, done, constraint_failed}
use bondsman.Repository.Actions.{action, upsert_action}
use bondsman.Repository.Catches.{watchdog_catch}
use bondsman.Watchdog.Scan.Records.{watchdog_catch-record}
use bondsman.Watchdog.Scan.{
  WatchdogChallengeCandidate, Encounter, Outcome, goes_on, aborted, visit, challenge, record_catch,
  bind_evidence, release_evidence, still_eligible, catch_record, caught_action, scan_from,
  scan_once, pairs_with, candidates, Reconciled, returned, threw, after_reconcile,
}
use bondsman.Watchdog.Scan.Kept.{
  IsGentle, catch-upsert_action, catch-release, catch-bind, Extends, Extends-after, last_for,
  last_for-snoc,
}

goes_on-same :
    {db db' : Database} {rs rs' : List WatchdogCatchRecord}
    → goes_on db rs ≡ goes_on db' rs'
    → (db ≡ db') × (rs ≡ rs')
goes_on-same h = (cc, cc)

module _ (address : String) (e : Encounter) (c : WatchdogChallengeCandidate)
    (gentle : IsGentle e) where
  record_catch-Extends :
      (current : ActionRecord) (reasoning : String) (txs : String × String) (db after : Database)
      (caught caught' : List WatchdogCatchRecord)
      → record_catch address e c current reasoning txs db caught ≡ goes_on after caught'
      → Extends db after caught caught'
  unfolding record_catch
  record_catch-Extends current reasoning txs db after caught caught' h =
      elim (Option-cases (big_int current.bond_posted)) [
        | inl bad ↦ absurd (ground arith)
        | inr (bond, b) ↦
            let r = catch_record current bond reasoning txs e.finished_at in
            let a = caught_action c current address txs in
            let db' = upsert_action a db in
            inr (
              r,
              (
                ground arith,
                ground (arith, watchdog_catch-record r r.action_id db'),
                λ j x other here.
                    ground (arith, watchdog_catch-record r j db', catch-upsert_action a j db),
              ),
            )
      ]

  -- The part after the evidence is bound.
  reconciled-Extends :
      (current : ActionRecord) (reasoning : String) (txs : String × String) (o : Reconciled)
      (db after : Database) (caught caught' : List WatchdogCatchRecord)
      → e.reconcile db ≡ o
      → after_reconcile o (λ db'. record_catch address e c current reasoning txs db' caught)
        ≡ goes_on after caught'
      → Extends db after caught caught'
  unfolding after_reconcile
  reconciled-Extends current reasoning txs (threw db') db after caught caught' is h =
      absurd (ground arith)
  reconciled-Extends current reasoning txs (returned db') db after caught caught' is h =
      Extends-after db db' after caught caught' (gentle.reconciling db db' is)
        (record_catch-Extends current reasoning txs db' after caught caught' h)

  failed-Extends :
      (o : Reconciled) (db after : Database) (caught caught' : List WatchdogCatchRecord)
      → e.reconcile db ≡ o
      → after_reconcile o (λ db'. goes_on db' caught) ≡ goes_on after caught'
      → Extends db after caught caught'
  unfolding after_reconcile
  failed-Extends (threw db') db after caught caught' is h = absurd (ground arith)
  failed-Extends (returned db') db after caught caught' is h =
      inl
        (ground arith, λ j r here. rw (goes_on-same h).0 at (gentle.reconciling db db' is j r here))

  challenge-Extends :
      (current : ActionRecord) (db after : Database) (caught caught' : List WatchdogCatchRecord)
      → challenge address e c current db caught ≡ goes_on after caught'
      → Extends db after caught caught'
  unfolding challenge
  challenge-Extends current db after caught caught' h =
      let waited = e.while_waiting db in
      let freed = release_evidence c.evidence_root current.action_id waited in
      elim (Option-cases e.reasoning) [
        | inl silent ↦ absurd (ground arith)
        | inr (reasoning, said) ↦ elim (Option-cases e.transact) [
          | inl failed ↦
              Extends-after db freed after caught caught'
                (λ j r here.
                  catch-release c.evidence_root current.action_id j waited
                  ∙ gentle.waiting db j r here)
                (failed-Extends (e.reconcile freed) freed after caught caught' refl
                  (rw (said, failed) at h))
          | inr (txs, sent) ↦ Extends-after db waited after caught caught' (gentle.waiting db) (
              reconciled-Extends current reasoning txs (e.reconcile waited) waited after caught
                caught' refl (rw (said, sent) at h))
        ]
      ]

  visit-Extends :
      (before after : Database) (caught caught' : List WatchdogCatchRecord)
      → visit address e c before caught ≡ goes_on after caught'
      → Extends before after caught caught'
  unfolding visit
  visit-Extends before after caught caught' h =
      Extends-after before slept after caught caught' (gentle.asleep before)
        (at_action (action c.action.action_id slept) refl)
    where
      slept : Database
      slept = e.while_asleep before

      unchanged : goes_on slept caught ≡ goes_on after caught' → Extends slept after caught caught'
      unchanged same = inl (ground arith, λ j r here. rw (goes_on-same same).0 at here)

      at_bind :
          (current : ActionRecord) (o : Sql (Bool × Database))
          → action c.action.action_id slept ≡ some current
          → still_eligible c.fault_class current.action_id e.now slept ≡ true
          → bind_evidence c.evidence_root current.action_id slept ≡ o
          → Extends slept after caught caught'
      at_bind current constraint_failed ea el eb = absurd (ground arith)
      at_bind current (done (false, db)) ea el eb =
          let ended : goes_on db caught ≡ goes_on after caught' = ground arith in
          inl (
            ground arith,
            λ j r here.
                rw (goes_on-same ended).0 at
                  (catch-bind c.evidence_root current.action_id j slept db false eb ∙ here),
          )
      at_bind current (done (true, db)) ea el eb =
          let ended : challenge address e c current db caught ≡ goes_on after caught' =
            ground arith in
          Extends-after slept db after caught caught'
            (λ j r here. catch-bind c.evidence_root current.action_id j slept db true eb ∙ here)
            (challenge-Extends current db after caught caught' ended)

      at_eligible :
          (current : ActionRecord) (b : Bool)
          → action c.action.action_id slept ≡ some current
          → still_eligible c.fault_class current.action_id e.now slept ≡ b
          → Extends slept after caught caught'
      at_eligible current false ea el = unchanged (ground arith)
      at_eligible current true ea el =
          at_bind current (bind_evidence c.evidence_root current.action_id slept) ea el refl

      at_action :
          (o : Option ActionRecord)
          → action c.action.action_id slept ≡ o
          → Extends slept after caught caught'
      at_action none ea = unchanged (ground arith)
      at_action (some current) ea =
          at_eligible current (still_eligible c.fault_class current.action_id e.now slept) ea refl

-- The last catch of each action that was returned is the row that the table has.
abbrev pub AreStored : Database → List WatchdogCatchRecord → Type 0
AreStored db rs =
    (j : ℕ) (r : WatchdogCatchRecord) → last_for j rs ≡ some r → watchdog_catch j db ≡ some r

AreStored-Extends :
    (db db' : Database) (rs rs' : List WatchdogCatchRecord)
    → Extends db db' rs rs'
    → AreStored db rs
    → AreStored db' rs'
AreStored-Extends db db' rs rs' (inl (same, kept)) h j r last = kept j r (h j r (rw same at last))
AreStored-Extends db db' rs rs' (inr (x, (eq, here, others))) h j r last =
    let is : (if x.action_id == j then some x else last_for j rs) ≡ some r =
      sym (last_for-snoc j rs x) ∙ rw eq at last in
    elim (Bool-cases (x.action_id == j)) [
      | inl same ↦ ground (arith, nat_eq.same_iff x.action_id j)
      | inr other ↦ others j r other (h j r (rw other at is))
    ]

module _ (address : String) (outside : ℕ → Encounter)
    (gentle : (i : ℕ) → IsGentle (outside i)) where
  scan_step :
      (i : ℕ) (c : WatchdogChallengeCandidate) (cs : List WatchdogChallengeCandidate)
      (db after : Database) (caught caught' : List WatchdogCatchRecord)
      → ((db after : Database) (caught caught' : List WatchdogCatchRecord)
          → scan_from address (pairs_with outside (ℕ.suc i) cs) db caught ≡ goes_on after caught'
          → AreStored db caught
          → AreStored after caught')
      → (o : Outcome) → visit address (outside i) c db caught ≡ o
      → scan_from address (pairs_with outside i (c ∷ cs)) db caught ≡ goes_on after caught'
      → AreStored db caught
      → AreStored after caught'
  unfolding scan_from
  scan_step i c cs db after caught caught' rest (aborted db') e h s = absurd (ground arith)
  scan_step i c cs db after caught caught' rest (goes_on db' rs) e h s =
      rest db' after rs caught' (ground arith) (
        AreStored-Extends db db' caught rs
          (visit-Extends address (outside i) c (gentle i) db db' caught rs e) s)

  scan_from-AreStored :
      (i : ℕ) (cs : List WatchdogChallengeCandidate) (db after : Database)
      (caught caught' : List WatchdogCatchRecord)
      → scan_from address (pairs_with outside i cs) db caught ≡ goes_on after caught'
      → AreStored db caught
      → AreStored after caught'
  unfolding scan_from
  scan_from-AreStored i [] db after caught caught' h s =
      rw (goes_on-same h).0 at (rw (goes_on-same h).1 at s)
  scan_from-AreStored i (c ∷ cs) db after caught caught' h s =
      scan_step i c cs db after caught caught' (scan_from-AreStored (ℕ.suc i) cs)
        (visit address (outside i) c db caught) refl h s

  -- If no other writer deletes or changes catches, the last catch of each action that a finished scan
  -- returns is, with all its contents, the row that the table holds for that action when the scan
  -- ends.
  pub scan_once-AreStored :
      (now : ℕ) (db after : Database) (caught : List WatchdogCatchRecord)
      → scan_once address outside now db ≡ goes_on after caught
      → AreStored after caught
  unfolding scan_once
  scan_once-AreStored now db after caught h =
      scan_from-AreStored 0 (candidates now db) db after [] caught h (λ j r none_yet. cc none_yet)
