-- ===== src/Repository/Events.antt =====
-- Events and cursors: `upsertEvent`, `eventCursor`, `advanceEventCursor`, `eventsForAction` and
-- `slashEvents`.
pub mod Cursor
use mathlib.Core.Option
use bondsman.Common.{
  ℕ, String, Bool, true, false, ◌||◌, Option, none, some, List, [], ◌∷◌, map, max, ◌==◌, nat_eq,
  string_eq, pair_eq, leb, or_else, if◌then◌else◌, filter,
}
use bondsman.Common.Sort.{sort_by}
use bondsman.Common.Table.{Table, lookup, upsert}
use bondsman.Repository.Records.{EventRecord}
use bondsman.Repository.Tables.{EventRow, CursorRow, Database}

-- `transaction_hash=COALESCE(excluded.transaction_hash, transaction_hash)`
abbrev pub merge_event : EventRecord → Option EventRow → EventRow
merge_event event none = record {
  event_type = event.event_type;
  action_id = event.action_id;
  fields = event.fields;
  transaction_hash = event.transaction_hash;
}
merge_event event (some old) = record {
  event_type = event.event_type;
  action_id = event.action_id;
  fields = event.fields;
  transaction_hash = or_else event.transaction_hash old.transaction_hash;
}

unfoldable pub upsert_event : EventRecord → Database → Database
upsert_event event db = record db {
  events = upsert (event.contract, event.event_index) (merge_event event) db.events;
}

unfoldable pub event_cursor : String → Database → Option ℕ
event_cursor contract db =
    Option.map (λ row. row.last_event_index) (lookup contract db.event_cursors)

-- `MAX(last_event_index, excluded.last_event_index)`
abbrev pub merge_cursor : ℕ → ℕ → Option CursorRow → CursorRow
merge_cursor event_index now none = record { last_event_index = event_index; updated_at = now }
merge_cursor event_index now (some old) = record {
  last_event_index = max old.last_event_index event_index;
  updated_at = now;
}

unfoldable pub advance_event_cursor : String → ℕ → ℕ → Database → Database
advance_event_cursor contract event_index now db = record db {
  event_cursors = upsert contract (merge_cursor event_index now) db.event_cursors;
}

abbrev pub event_from_row : (String × ℕ) × EventRow → EventRecord
event_from_row ((contract, event_index), row) = record {
  contract = contract;
  event_index = event_index;
  event_type = row.event_type;
  action_id = row.action_id;
  fields = row.fields;
  transaction_hash = row.transaction_hash;
}

abbrev by_event_index : (String × ℕ) × EventRow → (String × ℕ) × EventRow → Bool
by_event_index ((_, i), _) ((_, j), _) = leb i j

abbrev is_for_action : ℕ → (String × ℕ) × EventRow → Bool
is_for_action action_id (_, row) = elim row.action_id [ none ↦ false | some a ↦ a == action_id ]

unfoldable pub events_for_action : ℕ → Database → List EventRecord
events_for_action action_id db =
    map event_from_row (sort_by by_event_index (filter (is_for_action action_id) db.events))

abbrev is_slash : (String × ℕ) × EventRow → Bool
is_slash (_, row) = row.event_type == "ResolvedSlash" || row.event_type == "ResolvedSlashV2"

unfoldable pub slash_events : Database → List EventRecord
slash_events db = map event_from_row (sort_by by_event_index (filter is_slash db.events))
