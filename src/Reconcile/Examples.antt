-- ===== src/Reconcile/Examples.antt =====
-- Three events of one contract, the last of which is read again.
use bondsman.Common.{false, none, some, List, [], ◌∷◌, ◌≡◌, refl, All}
use bondsman.Common.Table.{lookup, upsert}
use bondsman.Repository.Tables.{Database, empty_database}
use bondsman.Repository.Events.{event_cursor, advance_event_cursor}
use bondsman.Reconcile.{
  ParsedOdraEvent, ChainEvent, projected, is_behind, project_event, project_events,
}
use bondsman.Reconcile.Cursor.{project_events-quiet}
use bondsman.Reconcile.Stored.{IsRecorded, project_events-records}

abbrev parsed : ParsedOdraEvent
parsed = record {
  event_type = "ActionExecuted";
  action_id = some 4;
  fields = ("action_id", "4") ∷ [];
}

abbrev events : List ChainEvent
events =
    record { index = 6; parsed = none }
    ∷ record { index = 7; parsed = some parsed }
    ∷ record { index = 8; parsed = some (record parsed { action_id = none }) }
    ∷ []

abbrev seen_six : Database
seen_six = advance_event_cursor "hash-c" 6 1 empty_database

abbrev after : Database
after =
    project_event (λ _ _. none) 2 "hash-c" 8 (record parsed { action_id = none })
      (project_event (λ _ _. none) 2 "hash-c" 7 parsed seen_six)

run : project_events (λ _ _. none) 2 "hash-c" events seen_six ≡ projected after (4 ∷ [])
unfolding project_events event_cursor advance_event_cursor lookup upsert is_behind project_event
run = refl

project_events-quiet_example :
    project_events (λ _ _. none) 2 "hash-c" events after ≡ projected after []
project_events-quiet_example =
    project_events-quiet (λ _ _. none) 2 "hash-c" events seen_six after (4 ∷ []) run

project_events-records_example :
    All
      (λ e.
        is_behind (event_cursor "hash-c" seen_six) e.index ≡ false
        → IsRecorded (λ _ _. none) "hash-c" after (4 ∷ []) e)
      events
project_events-records_example =
    project_events-records (λ _ _. none) 2 "hash-c" events seen_six after (4 ∷ [])
      ((refl, (refl, tt)), ((refl, tt), (tt, tt))) run
