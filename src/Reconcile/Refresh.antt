-- ===== src/Reconcile/Refresh.antt =====
-- `importPendingInvoice` and `reconcileChain` of `backend/src/listener/reconcile.ts`, on the state of what is
-- outside and the database. The files are arguments: those of the agent's runs by action, and the
-- invoices that are pending or seeded.
use bondsman.Common.{
  ℕ, String, Bool, true, false, not, ◌&&◌, ◌||◌, Option, none, some, List, [], ◌∷◌, ◌++◌, ◌==◌,
  string_eq, nat_eq, any, find, length, map, or_else, if◌then◌else◌,
}
use bondsman.Common.Int.{ℤ, pos}
use bondsman.Common.Json.{Json, bool, num, str, obj, field, end}
use bondsman.Authorization.{codes, to_lower}
use bondsman.Arm.{
  Failure, Outcome, M, ◌>>=◌, ◌>>◌, pure, throw, handled, ask, outward, modify, query, plain,
}
use bondsman.Arm.Failures.{includes}
use bondsman.Arm.Request.{bytes_hex}
use bondsman.Repository.Records.{ActionRecord, InvoiceRecord}
use bondsman.Repository.Tables.{Database}
use bondsman.Repository.Actions.{action, upsert_action, list_invoices, upsert_invoice}
use bondsman.Repository.Catches.{watchdog_catch}
use bondsman.Repository.Events.{event_cursor}
use bondsman.Repository.Projection.{set_system_state, set_reputation, reserve, set_reserve}
use bondsman.Reconcile.{ChainEvent, Projection, projected, threw, is_behind, project_events}
use bondsman.Reconcile.Chain.{
  ChainAction, AgentRun, Accounts, normalize_address, challenger_of, fault_class_of, evidence_hex,
  evidence_commitment, challenger_type, challenge_signing, transaction_for_event,
  merged_transactions,
}

pub record Reputation : Type 0 where
  pub clean : ℕ
  pub slashed : ℕ
  pub score : ℤ

-- The names of the contracts.
pub record Contracts : Type 0 where
  pub token : String
  pub vault : String
  pub controller : String
  pub pool : String

pub record Deployment : Type 0 where
  pub is_v2 : Bool
  pub controller_hash : String
  pub contracts : Contracts
  pub accounts : Accounts

-- The chain and the clock, and what the code takes of the dates' texts and of BLAKE2b.
pub record Reads (S : Type 0) : Type 0 where
  pub now : S → ℕ × S
  pub read_events : String → S → Outcome (List ChainEvent) × S
  pub read_action : ℕ → S → Outcome ChainAction × S
  pub read_duplicate : ℕ → S → Outcome String × S
  pub read_reputation : String → S → Outcome Reputation × S
  pub read_reserve : S → Outcome String × S
  pub to_iso_string : ℕ → String
  pub blake2b512 : List ℕ → List ℕ
  pub claim_hash : String → String → String

-- A set of numbers in the order of insertion, from the list of the insertions, the last one first.
unfoldable pub action_set : List ℕ → List ℕ
action_set [] = []
action_set (id ∷ ids) =
    let rest = action_set ids in if any (λ i. i == id) rest then rest else rest ++ id ∷ []

-- `/get_reputation|unrecognized subcommand|No such entry/i`
unfoldable pub is_missing_reputation : Failure → Bool
unfolding includes to_lower
is_missing_reputation e =
    let text = map to_lower (codes e.message) in
    includes text "get_reputation"
    || includes text "unrecognized subcommand"
    || includes text "no such entry"

-- `!['Initiated', 'Bonded'].includes(status)`
unfoldable pub is_paid : String → Bool
is_paid status = not (status == "Initiated" || status == "Bonded")

module _ {S : Type 0} (reads : Reads S) (deployment : Deployment)
    (run_of : ℕ → Option AgentRun) where
  unfoldable pub import_invoice : InvoiceRecord → Database → Database
  unfolding upsert_invoice
  import_invoice invoice db =
      upsert_invoice
        (record invoice {
          claim_hash = reads.claim_hash invoice.debtor invoice.invoice_number;
          paid = false;
        })
        db

  -- The pending invoice first.
  unfoldable pub import_invoices : List InvoiceRecord → Database → Database
  unfolding import_invoice
  import_invoices [] db = db
  import_invoices (invoice ∷ rest) db = import_invoices rest (import_invoice invoice db)

  -- The row of an action, from the chain, the agent's run, the row before and the watchdog's catch.
  unfoldable pub action_record : ℕ → ChainAction → Bool → Database → ActionRecord
  unfolding challenger_of fault_class_of evidence_commitment challenger_type challenge_signing
      merged_transactions normalize_address bytes_hex evidence_hex action watchdog_catch
  action_record action_id chain duplicate_proven db =
      let before = action action_id db in
      let run = run_of action_id in
      let challenger = challenger_of chain.challenger in
      let fault_class = fault_class_of chain.fault_class in
      record {
        action_id = action_id;
        invoice_id = chain.invoice_id;
        agent = normalize_address chain.agent;
        amount = chain.amount;
        claim_hash = bytes_hex chain.claim_hash;
        reasoning = elim run [
          | some r ↦ r.reasoning
          | none ↦ elim before [ some row ↦ row.reasoning | none ↦ "" ]
        ];
        reasoning_hash = bytes_hex chain.reasoning_hash;
        bond_required = chain.bond_required;
        bond_posted = chain.bond_posted;
        window_end = chain.window_end;
        status = chain.status;
        challenger = challenger;
        challenger_type = elim challenger [
          | none ↦ none
          | some c ↦ some (challenger_type deployment.accounts c)
        ];
        challenge_signing = elim challenger [
          | none ↦ none
          | some c ↦ some (challenge_signing deployment.accounts c)
        ];
        controller_hash = some deployment.controller_hash;
        duplicate_proven = some duplicate_proven;
        fault_class = some fault_class;
        evidence_root =
            or_else
              (evidence_commitment reads.blake2b512 fault_class (evidence_hex chain.evidence_root))
              (elim before [ none ↦ none | some row ↦ row.evidence_root ]);
        reserved_for_manual = elim before [ none ↦ false | some row ↦ row.reserved_for_manual ];
        transactions = merged_transactions run (watchdog_catch action_id db);
      }

  unfoldable pub refresh_reputation : String → M S (Unit {0})
  unfolding ◌>>=◌ pure throw handled outward modify set_reputation is_missing_reputation
  refresh_reputation agent =
      handled (outward (reads.read_reputation agent))
        (λ r. modify (set_reputation agent r.clean r.slashed r.score))
        (λ e. if deployment.is_v2 && is_missing_reputation e then pure tt else throw e)

  -- The invoice of the row is paid once the action is executed.
  unfoldable pub settle_invoice : ActionRecord → Database → Database
  unfolding list_invoices upsert_invoice is_paid
  settle_invoice row db =
      elim (find (λ (i : InvoiceRecord). i.id == row.invoice_id) (list_invoices db)) [
        | none ↦ db
        | some invoice ↦ upsert_invoice (record invoice { paid = is_paid row.status }) db
      ]

  unfoldable pub refresh_action : ℕ → M S (Unit {0})
  unfolding ◌>>=◌ outward query modify action_record upsert_action refresh_reputation settle_invoice
  refresh_action action_id = outward (reads.read_action action_id) >>= λ chain.
      outward (reads.read_duplicate action_id) >>= λ duplicate.
      query (action_record action_id chain (duplicate == "true")) >>= λ row.
      modify (upsert_action row) >> refresh_reputation row.agent >> modify (settle_invoice row)

  unfoldable pub refresh_actions : List ℕ → M S (Unit {0})
  unfolding ◌>>=◌ pure refresh_action
  refresh_actions [] = pure tt
  refresh_actions (id ∷ ids) = refresh_action id >> refresh_actions ids

  abbrev pub transaction_for : Option ℕ → String → Option String
  unfolding transaction_for_event
  transaction_for none event_type = transaction_for_event none event_type
  transaction_for (some id) event_type = transaction_for_event (run_of id) event_type

  -- What a projection leaves, in a world.
  abbrev pub kept_projection : Projection → List ℕ → M S (List ℕ)
  kept_projection (projected db ids) before = λ w. pure (ids ++ before) (record w { db = db })
  kept_projection (threw db) before = λ w. throw (plain "event") (record w { db = db })

  -- The events of one contract; the list holds the actions named so far, the last one first.
  unfoldable pub project_contract : String → List ℕ → M S (List ℕ)
  unfolding ◌>>=◌ outward ask project_events pure throw
  project_contract contract ids = outward (reads.read_events contract) >>= λ events.
      ask reads.now >>= λ now.
      λ w. kept_projection (project_events transaction_for now contract events w.db) ids w

  -- Whether an event of the pool's is new.
  unfoldable pub pool_moved : List ChainEvent → Database → Bool
  unfolding event_cursor is_behind
  pool_moved events db =
      any (λ (e : ChainEvent). not (is_behind (event_cursor deployment.contracts.pool db) e.index))
        events

  -- The projection of the pool's events, which is the last, and whether the reserve may have changed.
  unfoldable pub project_pool : List ℕ → M S (List ℕ × Bool)
  unfolding ◌>>=◌ pure outward ask query project_events pool_moved throw
  project_pool ids = outward (reads.read_events deployment.contracts.pool) >>= λ events.
      ask reads.now >>= λ now. query (pool_moved events) >>= λ moved.
      (λ w.
        kept_projection (project_events transaction_for now deployment.contracts.pool events w.db)
          ids w)
      >>= λ all. pure (all, moved)

  unfoldable pub refresh_reserve : Bool → M S (Unit {0})
  unfolding ◌>>=◌ pure outward query modify reserve set_reserve
  refresh_reserve changed = query (λ db. changed || reserve db == "0") >>= λ stale.
      (if stale
        then (outward reads.read_reserve >>= λ balance. modify (set_reserve balance))
        else pure tt)

  abbrev pub listener_state : String → ℕ → Json
  listener_state time count = obj (
      field "running" (bool true)
        (field "lastReconciledAt" (str time) (field "newActionCount" (num (pos count)) end)))

  unfoldable pub reconcile_chain : List InvoiceRecord → M S (Unit {0})
  unfolding ◌>>=◌ ask modify import_invoices project_contract project_pool action_set
      refresh_actions refresh_reserve set_system_state
  reconcile_chain invoices =
      modify (import_invoices invoices)
      >> project_contract deployment.contracts.token []
      >>= λ ids_1. project_contract deployment.contracts.vault ids_1 >>= λ ids_2.
          project_contract deployment.contracts.controller ids_2 >>= λ ids_3.
          project_pool ids_3 >>= λ (ids, moved).
          refresh_actions (action_set ids) >> refresh_reserve moved >> ask reads.now >>= λ now.
          modify (
            set_system_state "listener"
              (listener_state (reads.to_iso_string now) (length (action_set ids))) now)
