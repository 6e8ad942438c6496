-- ===== src/Reconcile/Row.antt =====
-- The row of an action after its refresh in `backend/src/listener/reconcile.ts`.
use mathlib.Core.Option
use bondsman.Common.{
  ℕ, String, Bool, true, false, Option, none, some, ◌==◌, string_eq, nat_eq, if◌then◌else◌, ◌≡◌,
  refl, sym, ◌∙◌, ap, ◌&&◌, find, same_refl,
}
use bondsman.Common.Table.{lookup}
use bondsman.Arm.{
  Outcome, ok, err, Failure, World, ◌>>◌, pure, throw, handled, outward, modify, either_end,
}
use bondsman.Arm.Logic.{Gives, Gives->>=, Gives-map}
use bondsman.Repository.Records.{ActionRecord, InvoiceRecord}
use bondsman.Repository.Tables.{Database}
use bondsman.Repository.Actions.{
  action, action_from_row, upsert_action, list_invoices, upsert_invoice,
}
use bondsman.Repository.Actions.Stored.{stored, action-upsert_action}
use bondsman.Repository.Projection.{set_reputation}
use bondsman.Reconcile.Chain.{ChainAction, AgentRun, challenger_of}
use bondsman.Reconcile.Refresh.{
  Reads, Reputation, Deployment, action_record, refresh_action, refresh_reputation, settle_invoice,
  is_missing_reputation, is_paid,
}

-- Whether an action was kept for a manual challenge before.
abbrev pub was_reserved : Option ActionRecord → Bool
was_reserved none = false
was_reserved (some row) = row.reserved_for_manual

-- A row has the chain's status, amounts, window and challenger, and what the chain does not know of
-- is as it was before.
pub Mirrors : ChainAction → Option ActionRecord → Option ActionRecord → Type 0
Mirrors chain before none = ⊥
Mirrors chain before (some row) =
    (row.status ≡ chain.status)
    × (row.amount ≡ chain.amount)
    × (row.bond_required ≡ chain.bond_required)
    × (row.bond_posted ≡ chain.bond_posted)
    × (row.window_end ≡ chain.window_end)
    × (row.challenger ≡ challenger_of chain.challenger)
    × (row.reserved_for_manual ≡ was_reserved before)

ap_Mirrors :
    (chain : ChainAction) {before before' : Option ActionRecord} (after : Option ActionRecord)
    → before ≡ before'
    → Mirrors chain before after
    → Mirrors chain before' after
ap_Mirrors chain after same h = rw (sym same) h

module _ {S : Type 0} (reads : Reads S) (deployment : Deployment)
    (run_of : ℕ → Option AgentRun) where
  -- The rows of actions in a database.
  refresh_reputation-actions :
      (agent : String) (w : World S)
      → Gives
          (λ _ w'. w'.db.actions ≡ w.db.actions)
          (refresh_reputation reads deployment run_of agent w)
  unfolding refresh_reputation handled outward modify set_reputation pure throw
  refresh_reputation-actions agent w = read (reads.read_reputation agent w.outer)
    where
      tolerated :
          (e : Failure) (b : Bool) (w' : World S)
          → w'.db.actions ≡ w.db.actions
          → Gives (λ _ w''. w''.db.actions ≡ w.db.actions) ((if b then pure tt else throw e) w')
      tolerated e true w' h = h
      tolerated e false w' h = tt

      read :
          (x : Outcome Reputation × S)
          → Gives
              (λ _ w'. w'.db.actions ≡ w.db.actions)
              (either_end {B = Unit {0}}
                (x.0, record w { outer = x.1 })
                (λ r. modify (set_reputation agent r.clean r.slashed r.score))
                (λ e. if deployment.is_v2 && is_missing_reputation e then pure tt else throw e))
      read (ok r, s) = refl
      read (err e, s) =
          tolerated e (deployment.is_v2 && is_missing_reputation e) (record w { outer = s }) refl

  settle_invoice-actions :
      (row : ActionRecord) (db : Database)
      → (settle_invoice reads deployment run_of row db).actions ≡ db.actions
  unfolding settle_invoice upsert_invoice
  settle_invoice-actions row db =
      found (find (λ (i : InvoiceRecord). i.id == row.invoice_id) (list_invoices db))
    where
      found :
          (o : Option InvoiceRecord)
          → (elim o as (λ _. Database) [
            | none ↦ db
            | some invoice ↦ upsert_invoice (record invoice { paid = is_paid row.status }) db
          ]).actions
            ≡ db.actions
      found none = refl
      found (some invoice) = refl

  -- The row of an action that is written over the rows of a database.
  written-Mirrors :
      (id : ℕ) (chain : ChainAction) (duplicate : Bool) (db : Database)
      → Mirrors chain (action id db) (
          action id
            (upsert_action (action_record reads deployment run_of id chain duplicate db) db))
  unfolding action_record Mirrors
  written-Mirrors id chain duplicate db =
      let row = action_record reads deployment run_of id chain duplicate db in
      let back : action id (upsert_action row db) ≡ some (stored row) =
        action-upsert_action row id db ∙ rw (same_refl id) in
      mirrored row chain (action id db) back
        (refl, refl, refl, refl, refl, refl, kept (action id db))
    where
      kept :
          (before : Option ActionRecord)
          → (elim before as (λ _. Bool) [ none ↦ false | some r ↦ r.reserved_for_manual ])
            ≡ was_reserved before
      kept none = refl
      kept (some r) = refl

      mirrored :
          (row : ActionRecord) (chain : ChainAction) (before : Option ActionRecord)
          {after : Option ActionRecord}
          → after ≡ some (stored row)
          → Mirrors chain before (some (stored row))
          → Mirrors chain before after
      mirrored row chain before is h = rw is h

  -- What a refresh of `id` leaves of the actions, against the database before it.
  abbrev pub Refreshed : ℕ → World S → World S → Type 0
  Refreshed id w w' =
      ((chain : ChainAction) × ((reads.read_action id w.outer).0 ≡ ok chain)
        × Mirrors chain (action id w.db) (action id w'.db))
      × ((j : ℕ) → (id == j) ≡ false → action j w'.db ≡ action j w.db)

  asked_action :
      (id : ℕ) (w : World S)
      → Gives
          (λ chain w'. ((reads.read_action id w.outer).0 ≡ ok chain) × (w'.db ≡ w.db))
          (outward (reads.read_action id) w)
  unfolding outward
  asked_action id w = of_answer (reads.read_action id w.outer) refl
    where
      of_answer :
          (x : Outcome ChainAction × S)
          → reads.read_action id w.outer ≡ x
          → Gives
              (λ chain w'. ((reads.read_action id w.outer).0 ≡ ok chain) × (w'.db ≡ w.db))
              (x.0, record w { outer = x.1 })
      of_answer (ok chain, s) e = (ap (λ x. x.0) e, refl)
      of_answer (err f, s) e = tt

  asked_duplicate :
      (id : ℕ) (w : World S) → Gives (λ _ w'. w'.db ≡ w.db) (outward (reads.read_duplicate id) w)
  unfolding outward
  asked_duplicate id w = of_answer (reads.read_duplicate id w.outer)
    where
      of_answer :
          (x : Outcome String × S) → Gives (λ _ w'. w'.db ≡ w.db) (x.0, record w { outer = x.1 })
      of_answer (ok text, s) = refl
      of_answer (err f, s) = tt

  -- The rest of a refresh, after the row is written, touches no action.
  settled_actions :
      (row : ActionRecord) (w : World S)
      → Gives
          (λ _ w'. w'.db.actions ≡ w.db.actions)
          ((refresh_reputation reads deployment run_of row.agent
              >> modify (settle_invoice reads deployment run_of row))
            w)
  unfolding modify
  settled_actions row w =
      Gives->>= (λ _ w'. w'.db.actions ≡ w.db.actions) _
        (refresh_reputation reads deployment run_of row.agent)
        (λ _. modify (settle_invoice reads deployment run_of row)) w
        (refresh_reputation-actions row.agent w)
        (λ _ w' same. settle_invoice-actions row w'.db ∙ same)

  same_rows : (j : ℕ) (db db' : Database) → db'.actions ≡ db.actions → action j db' ≡ action j db
  unfolding action
  same_rows j db db' same = ap (λ t. Option.map (λ row. action_from_row (j, row)) (lookup j t)) same

  -- What the rest leaves is a refresh, once the row is written over the database of the start.
  written-Refreshed :
      (id : ℕ) (chain : ChainAction) (duplicate : Bool) (w w' : World S) (db : Database)
      → (reads.read_action id w.outer).0 ≡ ok chain
      → db ≡ w.db
      → w'.db.actions
        ≡ (upsert_action (action_record reads deployment run_of id chain duplicate db) db).actions
      → Refreshed id w w'
  unfolding action_record
  written-Refreshed id chain duplicate w w' db said start same =
      let row = action_record reads deployment run_of id chain duplicate db in
      (
        (
          chain,
          said,
          rw (same_rows id (upsert_action row db) w'.db same)
              (ap_Mirrors chain _ (ap (action id) start) (written-Mirrors id chain duplicate db)),
        ),
        λ j other.
            same_rows j (upsert_action row db) w'.db same
            ∙ action-upsert_action row j db
            ∙ rw other (ap (action j) start),
      )

-- A refresh that ends has read the action on the chain, and its row then has the status, the amounts,
-- the window and the challenger that the chain gave, and is kept for a manual challenge only if it
-- was before. The row of every other action is as it was.
pub refresh_action-Refreshed :
    {S : Type 0} (reads : Reads S) (deployment : Deployment) (run_of : ℕ → Option AgentRun) (id : ℕ)
    (w : World S)
    → Gives
        (λ _ w'. Refreshed reads deployment run_of id w w')
        (refresh_action reads deployment run_of id w)
unfolding refresh_action
refresh_action-Refreshed reads deployment run_of id w =
    Gives->>= _ (λ _ w'. Refreshed reads deployment run_of id w w') (outward (reads.read_action id))
      _ w (asked_action reads deployment run_of id w)
      (λ chain w1 h1.
        Gives->>= _ (λ _ w'. Refreshed reads deployment run_of id w w')
          (outward (reads.read_duplicate id)) _ w1 (asked_duplicate reads deployment run_of id w1)
          (λ duplicate w2 h2.
            let row = action_record reads deployment run_of id chain (duplicate == "true") w2.db in
            Gives-map _ _ _
              (settled_actions reads deployment run_of row
                (record w2 { db = upsert_action row w2.db }))
              (λ _ w' same.
                written-Refreshed reads deployment run_of id chain (duplicate == "true") w w' w2.db
                  h1.0 (h2 ∙ h1.1) same)))
