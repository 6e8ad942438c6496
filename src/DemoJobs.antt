-- ===== src/DemoJobs.antt =====
-- The jobs behind the demo's buttons, `backend/src/api/demo-jobs.ts`. A job's work waits twice at most, for
-- transactions or for arming; what it does between two waits is one function of the database. The
-- hashes, the armed action and the errors are what those waits end with.
pub mod Rows
pub mod World
pub mod Runs
pub mod Begun
pub mod Settled
pub mod Single
mod Examples
use bondsman.Common.{
  ℕ, String, Bool, true, false, Option, none, some, List, ◌==◌, string_eq, or_else, if◌then◌else◌,
}
use bondsman.Common.Table.{lookup}
use bondsman.ApiErrors.{Thrown, normalize_api_error}
use bondsman.Repository.Records.{
  DemoJobKind, challenge_job, arm_job, watchdog_job, DemoJobRecord, ActionRecord,
}
use bondsman.Repository.Tables.{Database, Sql, done, constraint_failed}
use bondsman.Repository.Actions.{action}
use bondsman.Repository.Jobs.{
  JobUpdate, no_update, demo_job, create_demo_job, update_demo_job, active_challenge_job,
}

-- The text of an error as a job shows it.
unfoldable pub failure : Thrown → String
unfolding normalize_api_error
failure e = (normalize_api_error e).message

-- What a start gives: the job that runs already, or a new one; a throw where the identifier is taken.
pub data Start : Type 0 where
  running : DemoJobRecord → Start
  begun : DemoJobRecord → Start
  threw : Start

abbrev pub with_status : String → JobUpdate
with_status status = record no_update { status = some status }

unfoldable pub set_job : String → JobUpdate → ℕ → Database → Database
unfolding update_demo_job
set_job id u now db = (update_demo_job id u now db).1

-- A new job's work up to its first wait.
unfoldable pub begin :
    String → ℕ → Sql (DemoJobRecord × Database) → String → Database → Start × Database
unfolding set_job
begin id now (done (job, db')) status db = (begun job, set_job id (with_status status) now db')
begin id now constraint_failed status db = (threw, db)

unfoldable pub start_challenge : String → ℕ → ℕ → Database → Start × Database
unfolding active_challenge_job create_demo_job begin
start_challenge id now action_id db = elim (active_challenge_job action_id db) [
  | some existing ↦ (running existing, db)
  | none ↦
      begin id now (create_demo_job id challenge_job (some action_id) "queued" now db)
        "submitting_challenge" db
]

unfoldable pub on_challenge : String → String → ℕ → Database → Database
unfolding set_job
on_challenge id challenge now db = set_job id (with_status "resolving") now (
    set_job id (record (with_status "challenge_finalized") { challenge_tx = some (some challenge) })
      now db)

unfoldable pub on_resolve : String → String → ℕ → Database → Database
unfolding set_job
on_resolve id resolve now db =
    set_job id (record (with_status "resolved") { resolve_tx = some (some resolve) }) now db

-- The handler of `run`.
unfoldable pub on_failure : String → Thrown → ℕ → Database → Database
unfolding set_job failure
on_failure id e now db =
    set_job id (record (with_status "failed") { error = some (some (failure e)) }) now db

unfoldable pub start_arm : Bool → String → ℕ → Database → Start × Database
unfolding create_demo_job begin
start_arm reserved_for_manual id now db =
    begin id now
      (create_demo_job id (if reserved_for_manual then arm_job else watchdog_job) none "queued" now
        db)
      "arming" db

unfoldable pub on_armed : String → ℕ → ℕ → Database → Database
unfolding set_job
on_armed id action_id now db =
    set_job id (record (with_status "action_ready") { action_id = some (some action_id) }) now db

-- `action?.status === 'ResolvedSlash'`
unfoldable pub is_slashed : ℕ → Database → Bool
unfolding action
is_slashed action_id db = elim (action action_id db) [
  | none ↦ false
  | some a ↦ a.status == "ResolvedSlash"
]

-- `action.transactions.name`
unfoldable pub transaction : String → ℕ → Database → Option String
unfolding action lookup
transaction name action_id db = elim (action action_id db) [
  | none ↦ none
  | some a ↦ lookup name a.transactions
]

unfoldable pub as_resolved : DemoJobRecord → ℕ → Database → JobUpdate
unfolding transaction
as_resolved job action_id db = record (with_status "resolved") {
  challenge_tx = some (or_else job.challenge_tx (transaction "challenge" action_id db));
  resolve_tx = some (or_else job.resolve_tx (transaction "resolve" action_id db));
}

unfoldable pub read_challenge_job :
    DemoJobRecord → Option ℕ → ℕ → Database → Option DemoJobRecord × Database
unfolding is_slashed update_demo_job as_resolved
read_challenge_job job none now db = (some job, db)
read_challenge_job job (some action_id) now db =
    if is_slashed action_id db
    then update_demo_job job.id (as_resolved job action_id db) now db
    else (some job, db)

unfoldable pub read_job :
    DemoJobRecord → DemoJobKind → ℕ → Database → Option DemoJobRecord × Database
unfolding read_challenge_job
read_job job challenge_job now db = read_challenge_job job job.action_id now db
read_job job _ now db = (some job, db)

-- `job`, which settles a challenge of an action that was slashed meanwhile.
unfoldable pub job : String → ℕ → Database → Option DemoJobRecord × Database
unfolding demo_job read_job
job id now db = elim (demo_job id db) [
  | none ↦ (none, db)
  | some found ↦ read_job found found.kind now db
]
