-- ===== src/Repository/Jobs.antt =====
-- Demo jobs: `createDemoJob`, `demoJob`, `activeChallengeJob` and `updateDemoJob`.
use mathlib.Core.Option
use bondsman.Common.{
  ℕ, String, Bool, true, false, not, ◌&&◌, ◌||◌, Option, none, some, List, [], ◌∷◌, ◌==◌, nat_eq,
  string_eq, leb, or_default, filter,
}
use bondsman.Common.Sort.{sort_by}
use bondsman.Common.Table.{lookup, upsert, update}
use bondsman.Repository.Records.{DemoJobRecord, DemoJobKind, challenge_job}
use bondsman.Repository.Tables.{JobRow, Database, Sql, done, constraint_failed}

abbrev pub job_from_row : String × JobRow → DemoJobRecord
job_from_row (id, row) = record {
  id = id;
  kind = row.kind;
  action_id = row.action_id;
  status = row.status;
  challenge_tx = row.challenge_tx;
  resolve_tx = row.resolve_tx;
  error = row.error;
  created_at = row.created_at;
  updated_at = row.updated_at;
}

abbrev pub new_job_row : DemoJobKind → Option ℕ → String → ℕ → JobRow
new_job_row kind action_id status now = record {
  kind = kind;
  action_id = action_id;
  status = status;
  challenge_tx = none;
  resolve_tx = none;
  error = none;
  created_at = now;
  updated_at = now;
}

unfoldable pub demo_job : String → Database → Option DemoJobRecord
demo_job id db = Option.map (λ row. job_from_row (id, row)) (lookup id db.demo_jobs)

-- A plain INSERT: a taken primary key throws.
unfoldable pub create_demo_job :
    String → DemoJobKind → Option ℕ → String → ℕ → Database → Sql (DemoJobRecord × Database)
create_demo_job id kind action_id status now db = elim (lookup id db.demo_jobs) [
  | some _ ↦ constraint_failed
  | none ↦
      let row = new_job_row kind action_id status now in
      done (job_from_row (id, row), record db { demo_jobs = upsert id (λ _. row) db.demo_jobs })
]

abbrev pub is_challenge : DemoJobKind → Bool
is_challenge challenge_job = true
is_challenge _ = false

-- `status IN ('resolved', 'failed')`
abbrev pub is_over : String → Bool
is_over status = status == "resolved" || status == "failed"

abbrev pub is_active_for : ℕ → String × JobRow → Bool
is_active_for action_id (_, row) =
    is_challenge row.kind
    && elim row.action_id [ none ↦ false | some a ↦ a == action_id ]
    && not (is_over row.status)

-- `ORDER BY created_at DESC`
abbrev pub newest_first : String × JobRow → String × JobRow → Bool
newest_first p q = leb q.1.created_at p.1.created_at

abbrev pub from_newest : List (String × JobRow) → Option DemoJobRecord
from_newest [] = none
from_newest (e ∷ es) = some (job_from_row e)

unfoldable pub active_challenge_job : ℕ → Database → Option DemoJobRecord
active_challenge_job action_id db =
    from_newest (sort_by newest_first (filter (is_active_for action_id) db.demo_jobs))

-- A field of the update: `none` where it is `undefined`, and then the column stays.
pub record JobUpdate : Type 0 where
  pub action_id : Option (Option ℕ)
  pub status : Option String
  pub challenge_tx : Option (Option String)
  pub resolve_tx : Option (Option String)
  pub error : Option (Option String)

abbrev pub no_update : JobUpdate
no_update = record {
  action_id = none;
  status = none;
  challenge_tx = none;
  resolve_tx = none;
  error = none;
}

abbrev pub updated_row : JobUpdate → ℕ → JobRow → JobRow
updated_row u now row = record row {
  action_id = or_default u.action_id row.action_id;
  status = or_default u.status row.status;
  challenge_tx = or_default u.challenge_tx row.challenge_tx;
  resolve_tx = or_default u.resolve_tx row.resolve_tx;
  error = or_default u.error row.error;
  updated_at = now;
}

unfoldable pub update_demo_job : String → JobUpdate → ℕ → Database → Option DemoJobRecord × Database
unfolding demo_job
update_demo_job id u now db =
    let db' = record db { demo_jobs = update id (updated_row u now) db.demo_jobs } in
    elim (demo_job id db) [ none ↦ (none, db) | some _ ↦ (demo_job id db', db') ]
