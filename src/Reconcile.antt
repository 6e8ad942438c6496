-- ===== src/Reconcile.antt =====
-- The projection of events in `reconcileChain` of `backend/src/listener/reconcile.ts`, for one
-- contract. The events come from the chain and the hashes of transactions from evidence files:
-- both are arguments, the text of an event as what the parser makes of it.
pub mod Chain
pub mod Refresh
pub mod Row
pub mod Expiry
pub mod Cooldown
pub mod Justified
pub mod Cursor
pub mod Stored
mod Examples
mod ExpiryExamples
use bondsman.Common.{
  ℕ, String, Bool, true, false, Option, none, some, List, [], ◌∷◌, ◌++◌, leb, if◌then◌else◌,
}
use bondsman.Repository.Records.{EventRecord}
use bondsman.Repository.Tables.{Database}
use bondsman.Repository.Events.{upsert_event, event_cursor, advance_event_cursor}

pub record ParsedOdraEvent : Type 0 where
  pub event_type : String
  pub action_id : Option ℕ
  pub fields : List (String × String)

-- `none` where the parser throws.
pub record ChainEvent : Type 0 where
  pub index : ℕ
  pub parsed : Option ParsedOdraEvent

-- A projection that ended, with the actions that it named, and one that threw.
pub data Projection : Type 0 where
  projected : Database → List ℕ → Projection
  threw : Database → Projection

-- `cursor !== undefined && event.index <= cursor`
unfoldable pub is_behind : Option ℕ → ℕ → Bool
is_behind none index = false
is_behind (some cursor) index = leb index cursor

pub with_action : Option ℕ → List ℕ → List ℕ
with_action none ids = ids
with_action (some id) ids = id ∷ ids

module _ (transaction_for : Option ℕ → String → Option String) (now : ℕ) (contract : String) where
  unfoldable pub event_record : ℕ → ParsedOdraEvent → EventRecord
  event_record index parsed = record {
    contract = contract;
    event_index = index;
    event_type = parsed.event_type;
    action_id = parsed.action_id;
    fields = parsed.fields;
    transaction_hash = transaction_for parsed.action_id parsed.event_type;
  }

  unfoldable pub project_event : ℕ → ParsedOdraEvent → Database → Database
  unfolding event_record
  project_event index parsed db =
      advance_event_cursor contract index now (upsert_event (event_record index parsed) db)

  -- The loop, with the cursor that was read before it.
  pub project_from : Option ℕ → List ChainEvent → Database → List ℕ → Projection
  unfolding project_event is_behind with_action
  project_from cursor [] db ids = projected db ids
  project_from cursor (e ∷ rest) db ids =
      if is_behind cursor e.index then project_from cursor rest db ids else elim e.parsed [
        | none ↦ threw db
        | some parsed ↦
            project_from cursor rest (project_event e.index parsed db)
              (with_action parsed.action_id ids)
      ]

  unfoldable pub project_events : List ChainEvent → Database → Projection
  unfolding project_from
  project_events events db = project_from (event_cursor contract db) events db []
