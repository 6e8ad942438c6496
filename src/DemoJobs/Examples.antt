-- ===== src/DemoJobs/Examples.antt =====
-- Runs of the demo jobs of `backend/src/api/demo-jobs.ts`.
use bondsman.Common.{◌≤◌, false, [], ◌≡◌, refl, filter, length, string_eq, nat_eq}
use bondsman.Common.Table.{lookup, upsert, update}
use bondsman.Repository.Tables.{empty_database}
use bondsman.Repository.Actions.{action}
use bondsman.Repository.Jobs.{
  is_active_for, demo_job, create_demo_job, update_demo_job, active_challenge_job,
}
use bondsman.DemoJobs.{start_challenge, begin, set_job, is_slashed}
use bondsman.DemoJobs.World.{World, challenging, with_run, fresh, after, challenge_asked}
use bondsman.DemoJobs.Single.{reached-IsSingle}

abbrev empty_world : World
empty_world = record { db = empty_database; live = [] }

abbrev once_asked : World
once_asked =
    with_run "job-1" (challenging 5) (start_challenge "job-1" 10 5 empty_world.db) empty_world.live

abbrev twice_asked : World
twice_asked =
    with_run "job-2" (challenging 5) (start_challenge "job-2" 20 5 once_asked.db) once_asked.live

-- The second request is given the first job.
one_job : length twice_asked.db.demo_jobs ≡ 1
unfolding start_challenge begin set_job demo_job create_demo_job update_demo_job
    active_challenge_job lookup upsert update
one_job = refl

reached-IsSingle_example : length (filter (is_active_for 5) twice_asked.db.demo_jobs) ≤ 1
reached-IsSingle_example =
    reached-IsSingle
      (after (after (fresh empty_database refl) (challenge_asked "job-1" 10 5))
        (challenge_asked "job-2" 20 5))
      5 unslashed
  where
    unslashed : is_slashed 5 twice_asked.db ≡ false
    unslashed =
        unfold is_slashed action start_challenge begin set_job demo_job create_demo_job
          update_demo_job active_challenge_job lookup upsert update in
        refl
