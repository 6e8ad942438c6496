-- ===== src/Watchdog/Scan/Isolation.antt =====
-- When a candidate ends the whole scan, and when it does not.
use bondsman.Common.{
  ◌<◌, String, Bool, refl, false, if◌then◌else◌, true, none, some, List, ◌≡◌, ◌≢◌, ◌⊎◌, inl, inr,
  arith, length, Option-cases,
}
use bondsman.Common.Decimal.{big_int}
use bondsman.Repository.Records.{ActionRecord, WatchdogCatchRecord}
use bondsman.Repository.Tables.{Database, Sql, done, constraint_failed}
use bondsman.Repository.Actions.{action}
use bondsman.Watchdog.Scan.{
  WatchdogChallengeCandidate, Encounter, goes_on, aborted, visit, bind_evidence, still_eligible,
  Outcome, Reconciled, returned, threw, after_reconcile, challenge, record_catch, release_evidence,
}

after_reconcile-aborted :
    (o : Reconciled) (next : Database → Outcome) (after : Database)
    → after_reconcile o next ≡ aborted after
    → (o ≡ threw after) ⊎ ((db : Database) × (o ≡ returned db) × (next db ≡ aborted after))
unfolding after_reconcile
after_reconcile-aborted (returned db) next after h = inr (db, refl, h)
after_reconcile-aborted (threw db) next after h = inl (cc h)

module _ (address : String) (e : Encounter) (c : WatchdogChallengeCandidate) where
  -- What ends the scan after the evidence is bound.
  abbrev pub Thrown : ActionRecord → Database → Database → Type 0
  Thrown current bound after =
      let waited = e.while_waiting bound in
      (e.reasoning ≡ none)
      ⊎ ((e.transact ≡ none)
          × (e.reconcile (release_evidence c.evidence_root current.action_id waited) ≡ threw after))
      ⊎ ((e.transact ≢ none)
          × ((e.reconcile waited ≡ threw after) ⊎ (big_int current.bond_posted ≡ none)))

  challenge-aborted :
      (current : ActionRecord) (bound after : Database) (caught : List WatchdogCatchRecord)
      → challenge address e c current bound caught ≡ aborted after
      → Thrown current bound after
  unfolding challenge
  challenge-aborted current bound after caught h = elim (Option-cases e.reasoning) [
    | inl silent ↦ inl silent
    | inr (reasoning, said) ↦ elim (Option-cases e.transact) [
      | inl failed ↦
          elim (after_reconcile-aborted
            (e.reconcile
              (release_evidence c.evidence_root current.action_id (e.while_waiting bound)))
            (λ db. goes_on db caught) after (rw (said, failed) at h)) [
              | inl thrown ↦ inr (inl (failed, thrown))
              | inr (db, here, on) ↦ absurd (ground arith)
            ]
      | inr (txs, sent) ↦
          elim (after_reconcile-aborted (e.reconcile (e.while_waiting bound))
            (λ db. record_catch address e c current reasoning txs db caught) after
            (rw (said, sent) at h)) [
              | inl thrown ↦ inr (inr (ground arith, inl thrown))
              | inr (db, here, on) ↦
                  inr (inr (ground arith, inr (unfold record_catch in ground arith)))
            ]
    ]
  ]

  -- A candidate ends the scan only where the projection still shows it as eligible after the sleep,
  -- and only if its evidence breaks the unique index, or, with the evidence bound, the model throws,
  -- the reconciliation throws (after the transactions, or after they failed and the evidence was
  -- freed), or the stored bond is no number after the transactions. Where the reconciliation
  -- returns, transactions that fail do not end it.
  pub visit-aborted :
      (before after : Database) (caught : List WatchdogCatchRecord)
      → visit address e c before caught ≡ aborted after
      → (current : ActionRecord) × (action c.action.action_id (e.while_asleep before)
          ≡ some current)
        × (still_eligible c.fault_class current.action_id e.now (e.while_asleep before) ≡ true)
        × ((bind_evidence c.evidence_root current.action_id (e.while_asleep before)
              ≡ constraint_failed)
            ⊎ ((bound : Database) × (bind_evidence c.evidence_root current.action_id
                    (e.while_asleep before)
                  ≡ done (true, bound))
                × Thrown current bound after))
  unfolding visit
  visit-aborted before after caught h = elim (Option-cases (action c.action.action_id slept)) [
    | inl absent ↦ absurd (ground arith)
    | inr (current, here) ↦ (
      current,
      here,
      ground arith,
      at_bind current (bind_evidence c.evidence_root current.action_id slept) refl (ground arith),
    )
  ]
    where
      slept : Database
      slept = e.while_asleep before

      after_bind : ActionRecord → Sql (Bool × Database) → Outcome
      after_bind current constraint_failed = aborted slept
      after_bind current (done (bound, db)) =
          if bound then challenge address e c current db caught else goes_on db caught

      at_bind :
          (current : ActionRecord) (o : Sql (Bool × Database))
          → bind_evidence c.evidence_root current.action_id slept ≡ o
          → after_bind current o ≡ aborted after
          → (bind_evidence c.evidence_root current.action_id slept ≡ constraint_failed)
            ⊎ ((bound : Database) × (bind_evidence c.evidence_root current.action_id slept
                  ≡ done (true, bound))
                × Thrown current bound after)
      at_bind current constraint_failed is ends = inl is
      at_bind current (done (false, db)) is ends = absurd (ground arith)
      at_bind current (done (true, db)) is ends =
          inr (db, is, challenge-aborted current db after caught ends)

  -- A scan sends its transactions only for an action that the projection still shows, and shows as
  -- eligible, after the wait; and a catch is only recorded where the transactions went through.
  pub visit-caught :
      (before after : Database) (caught caught' : List WatchdogCatchRecord)
      → visit address e c before caught ≡ goes_on after caught'
      → length caught < length caught'
      → (current : ActionRecord) × (action c.action.action_id (e.while_asleep before)
          ≡ some current)
        × (still_eligible c.fault_class current.action_id e.now (e.while_asleep before) ≡ true)
        × (e.transact ≢ none)
  unfolding visit
  visit-caught before after caught caught' h more =
      elim (Option-cases (action c.action.action_id (e.while_asleep before))) [
        | inl absent ↦ absurd (ground arith)
        | inr (current, here) ↦ (current, here, ground arith, ground arith)
      ]
