-- ===== src/Repository/Events/Cursor.antt =====
-- The cursor of a contract only moves forward.
use bondsman.Common.{
  ℕ, String, Option, none, some, ◌≡◌, arith, ◌==◌, string_eq, nat_eq, pair_eq, max, if◌then◌else◌,
}
use bondsman.Common.Table.{lookup-upsert}
use bondsman.Repository.Tables.{Database}
use bondsman.Repository.Events.{event_cursor, advance_event_cursor, merge_cursor}

abbrev pub raised : ℕ → Option ℕ → ℕ
raised i none = i
raised i (some c) = max c i

-- Advancing the cursor of a contract sets it to the larger of the old index and the new one, and
-- leaves the cursors of all other contracts.
pub event_cursor-advance :
    (contract other : String) (i now : ℕ) (db : Database)
    → event_cursor other (advance_event_cursor contract i now db) ≡ (
        if contract == other
        then some (raised i (event_cursor other db))
        else event_cursor other db)
unfolding event_cursor advance_event_cursor
event_cursor-advance contract other i now db =
    ground (arith, lookup-upsert contract other (merge_cursor i now) db.event_cursors)
