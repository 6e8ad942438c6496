-- ===== src/DemoJobs/World.antt =====
-- The runs of `backend/src/api/demo-jobs.ts`, wait by wait: requests, the ends of what the runs wait for,
-- reads of jobs, and changes that other parts of the program make to the database.
use bondsman.Common.{ℕ, String, Bool, true, some, [], ◌∷◌, string_eq, nat_eq, ◌≡◌}
use bondsman.Common.Table.{Table, lookup, update}
use bondsman.ApiErrors.{Thrown}
use bondsman.Repository.Tables.{Database}
use bondsman.Idempotency.{delete}
use bondsman.DemoJobs.{
  Start, begun, start_challenge, on_challenge, on_resolve, on_failure, start_arm, on_armed, job,
  is_slashed,
}

-- What a run waits for, with its action.
pub data Run : Type 0 where
  challenging : ℕ → Run
  resolving : ℕ → Run
  arming : Run

-- The database and the identifiers that are in `running`.
pub record World : Type 0 where
  pub db : Database
  pub live : Table String Run

abbrev pub with_run : String → Run → Start × Database → Table String Run → World
with_run id r (begun _, db) live = record { db = db; live = (id, r) ∷ live }
with_run id r (_, db) live = record { db = db; live = live }

pub data Step : World → World → Type 0 where
  challenge_asked :
      {w : World} (id : String) (now action_id : ℕ)
      → Step w (with_run id (challenging action_id) (start_challenge id now action_id w.db) w.live)
  arm_asked :
      {w : World} (reserved : Bool) (id : String) (now : ℕ)
      → Step w (with_run id arming (start_arm reserved id now w.db) w.live)
  challenged :
      {w : World} (id : String) (action_id : ℕ) (challenge : String) (now : ℕ)
      → lookup id w.live ≡ some (challenging action_id)
      → Step w (record {
        db = on_challenge id challenge now w.db;
        live = update id (λ _. resolving action_id) w.live;
      })
  resolved :
      {w : World} (id : String) (action_id : ℕ) (resolve : String) (now : ℕ)
      → lookup id w.live ≡ some (resolving action_id)
      → Step w (record { db = on_resolve id resolve now w.db; live = delete id w.live })
  armed :
      {w : World} (id : String) (action_id now : ℕ)
      → lookup id w.live ≡ some arming
      → Step w (record { db = on_armed id action_id now w.db; live = delete id w.live })
  failed :
      {w : World} (id : String) (r : Run) (e : Thrown) (now : ℕ)
      → lookup id w.live ≡ some r
      → Step w (record { db = on_failure id e now w.db; live = delete id w.live })
  read : {w : World} (id : String) (now : ℕ) → Step w (record w { db = (job id now w.db).1 })
  -- No other part writes jobs, and the chain does not take a slash back.
  elsewhere :
      {w : World} (db : Database)
      → db.demo_jobs ≡ w.db.demo_jobs
      → ((a : ℕ) → is_slashed a w.db ≡ true → is_slashed a db ≡ true)
      → Step w (record w { db = db })

pub data Reached : World → Type 0 where
  fresh : (db : Database) → db.demo_jobs ≡ [] → Reached (record { db = db; live = [] })
  after : {w w' : World} → Reached w → Step w w' → Reached w'
