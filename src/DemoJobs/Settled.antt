-- ===== src/DemoJobs/Settled.antt =====
-- What a read of a job changes, in `backend/src/api/demo-jobs.ts`.
use mathlib.Core.Option
use bondsman.Common.{
  ℕ, String, Bool, true, false, not, ◌&&◌, Option, none, some, ◌==◌, string_eq, nat_eq,
  if◌then◌else◌, ◌≡◌, ◌⊎◌, refl, arith, Option-cases, Bool-cases, inl, inr, sym, ◌∙◌, ap,
  or_default,
}
use bondsman.Common.Table.{lookup}
use bondsman.Repository.Records.{DemoJobKind, challenge_job, arm_job, watchdog_job, DemoJobRecord}
use bondsman.Repository.Tables.{Database, JobRow}
use bondsman.Repository.Actions.{action}
use bondsman.Repository.Jobs.{
  JobUpdate, updated_row, is_active_for, is_over, is_challenge, job_from_row, demo_job,
  update_demo_job,
}
use bondsman.DemoJobs.{job, is_slashed, set_job, as_resolved, read_challenge_job, read_job}
use bondsman.DemoJobs.Rows.{count-update, set_job-record}
use bondsman.DemoJobs.World.{Run, challenging, resolving, arming, World}
use bondsman.DemoJobs.Runs.{update-Fits, Holds, fits, slashes}

-- A read changes nothing, or settles a challenge of a slashed action.
abbrev Settles : DemoJobRecord → Option ℕ → ℕ → Database → Database → Type 0
Settles found o now db db' =
    (db' ≡ db)
    ⊎ ((a : ℕ) × (o ≡ some a)
        × (is_slashed a db ≡ true)
        × (db' ≡ set_job found.id (as_resolved found a db) now db))

read_challenge_job-Settles :
    (found : DemoJobRecord) (o : Option ℕ) (now : ℕ) (db : Database)
    → Settles found o now db (read_challenge_job found o now db).1
unfolding read_challenge_job set_job
read_challenge_job-Settles found none now db = inl refl
read_challenge_job-Settles found (some a) now db = elim (Bool-cases (is_slashed a db)) [
  | inl slashed ↦ inr (
    a,
    refl,
    slashed,
    ap
        (λ b.
          (if b
            then update_demo_job found.id (as_resolved found a db) now db
            else (some found, db)).1)
        slashed,
  )
  | inr unslashed ↦ inl (
      ap
        (λ b.
          (if b
            then update_demo_job found.id (as_resolved found a db) now db
            else (some found, db)).1)
        unslashed)
]

read_job-Settles :
    (found : DemoJobRecord) (kind : DemoJobKind) (now : ℕ) (db : Database)
    → Settles found found.action_id now db (read_job found kind now db).1
unfolding read_job
read_job-Settles found challenge_job now db =
    read_challenge_job-Settles found found.action_id now db
read_job-Settles found arm_job now db = inl refl
read_job-Settles found watchdog_job now db = inl refl

and_not_over : (a b c : Bool) → (a && b && not c) ≡ true → c ≡ true → ⊥
and_not_over a b c h over = ground arith

resolved_idle :
    (b : ℕ) (id : String) (u : JobUpdate) (now : ℕ) (row : JobRow)
    → u.status ≡ some "resolved"
    → is_active_for b (id, updated_row u now row) ≡ true
    → ⊥
resolved_idle b id u now row is active =
    let over : is_over (updated_row u now row).status ≡ true =
      ap (λ o. is_over (or_default o row.status)) is in
    and_not_over (is_challenge row.kind)
      (elim (or_default u.action_id row.action_id) [ none ↦ false | some a ↦ a == b ])
      (is_over (updated_row u now row).status) active over

settled_fits :
    (slashed : ℕ → Bool) (a : ℕ) (u : JobUpdate) (now : ℕ) (r : Run) (row : JobRow)
    → u.action_id ≡ none
    → row.action_id ≡ some a
    → slashed a ≡ true
    → fits slashed r (some row) ≡ true
    → fits slashed r (some (updated_row u now row)) ≡ true
settled_fits slashed a u now (challenging b) row kept of s h = ground (arith, nat_eq.same_iff a b)
settled_fits slashed a u now (resolving b) row kept of s h = ground (arith, nat_eq.same_iff a b)
settled_fits slashed a u now arming row kept of s h = h

settled-Holds :
    (id : String) (row : JobRow) (now : ℕ) (w : World)
    → lookup id w.db.demo_jobs ≡ some row
    → (db : Database) → Settles (job_from_row (id, row)) row.action_id now w.db db
    → Holds w
    → Holds (record w { db = db })
unfolding is_slashed action as_resolved
settled-Holds id row now w found db (inl same) h = rw same h
settled-Holds id row now w found db (inr (a, of, slashed, same)) h =
    let u = as_resolved (job_from_row (id, row)) a w.db in
    rw same (
      rw (set_job-record id u now w.db) (
        h.0,
        update-Fits (slashes w.db) w.db.demo_jobs w.live w.live id (updated_row u now) h.1
            (λ r runs.
              ap (λ o. fits (slashes w.db) r (Option.map (updated_row u now) o)) found
              ∙ settled_fits (slashes w.db) a u now r row refl of slashed
                  (ap (fits (slashes w.db) r) (sym found) ∙ h.1 id r runs))
            (λ j s other left. left),
        λ b free.
            let fewer =
              count-update (is_active_for b) id (updated_row u now) w.db.demo_jobs
                (λ v stored active. absurd (resolved_idle b id u now v refl active)) in
            let one = h.2 b free in omega arith,
      ))

pub job-Holds :
    (id : String) (now : ℕ) (w : World) → Holds w → Holds (record w { db = (job id now w.db).1 })
unfolding job demo_job
job-Holds id now w h = elim (Option-cases (lookup id w.db.demo_jobs)) [
  | inl gone ↦ rw (gone, job, demo_job) h
  | inr (row, found) ↦
      rw (found, job, demo_job)
        (settled-Holds id row now w found (read_job (job_from_row (id, row)) row.kind now w.db).1
          (read_job-Settles (job_from_row (id, row)) row.kind now w.db) h)
]
