-- ===== src/DemoJobs/Single.antt =====
-- One active challenge per action, over the runs of `backend/src/api/demo-jobs.ts`.
use mathlib.Core.Option
use bondsman.Common.{
  ℕ, ◌≤◌, String, Bool, true, false, Option, none, some, string_eq, nat_eq, filter, length, ◌≡◌,
  refl, arith, Option-cases, Bool-cases, inl, inr, sym, ◌∙◌, ap, same_refl, some-eq,
}
use bondsman.Common.Table.{lookup, update, lookup-update, update-IsKeyed}
use bondsman.ApiErrors.{Thrown}
use bondsman.Repository.Records.{challenge_job, arm_job, watchdog_job}
use bondsman.Repository.Tables.{Database, JobRow}
use bondsman.Repository.Jobs.{updated_row, is_active_for, active_challenge_job}
use bondsman.DemoJobs.{
  start_challenge, on_challenge, on_resolve, on_failure, start_arm, on_armed, is_slashed, set_job,
  with_status, failure,
}
use bondsman.DemoJobs.Rows.{none-is_active_for}
use bondsman.DemoJobs.World.{
  Run, challenging, resolving, arming, World, with_run, Step, challenge_asked, arm_asked,
  challenged, resolved, armed, failed, read, elsewhere, Reached, fresh, after,
}
use bondsman.DemoJobs.Begun.{begin-Holds}
use bondsman.DemoJobs.Settled.{job-Holds}
use bondsman.DemoJobs.Runs.{
  Holds, fits, slashes, moved-fits, last-Holds, set_job-Holds, keeps_action,
}

resolving_fits :
    (slashed : ℕ → Bool) (a : ℕ) (row : Option JobRow)
    → fits slashed (resolving a) row ≡ fits slashed (challenging a) row
resolving_fits slashed a none = refl
resolving_fits slashed a (some row) = refl

on_challenge-Holds :
    (id : String) (a : ℕ) (challenge : String) (now : ℕ) (w : World)
    → lookup id w.live ≡ some (challenging a)
    → Holds w
    → Holds (record {
      db = on_challenge id challenge now w.db;
      live = update id (λ _. resolving a) w.live;
    })
unfolding on_challenge
on_challenge-Holds id a challenge now w runs h =
    let finalized = record (with_status "challenge_finalized") {
      challenge_tx = some (some challenge);
    } in
    let first : Holds (record { db = set_job id finalized now w.db; live = w.live }) =
      set_job-Holds id (challenging a) finalized now w w.live runs refl h.0
        (λ s left.
          ap
            (λ t.
              fits (slashes w.db) t
                (Option.map (updated_row finalized now) (lookup id w.db.demo_jobs)))
            (some-eq (sym left ∙ runs))
          ∙ moved-fits (slashes w.db) a finalized "challenge_finalized" now
              (lookup id w.db.demo_jobs) refl refl refl (h.1 id (challenging a) runs))
        (λ j s other left. left) h in
    let db = set_job id finalized now w.db in
    let now_resolving : lookup id (update id (λ _. resolving a) w.live) ≡ some (resolving a) =
      lookup-update id id (λ _. resolving a) w.live ∙ rw (same_refl id, runs) in
    set_job-Holds id (challenging a) (with_status "resolving") now (record w { db = db })
      (update id (λ _. resolving a) w.live) runs refl
      (update-IsKeyed id (λ _. resolving a) w.live h.0)
      (λ s left.
        ap
          (λ t.
            fits (slashes db) t
              (Option.map (updated_row (with_status "resolving") now) (lookup id db.demo_jobs)))
          (some-eq (sym left ∙ now_resolving))
        ∙ resolving_fits (slashes db) a
            (Option.map (updated_row (with_status "resolving") now) (lookup id db.demo_jobs))
        ∙ moved-fits (slashes db) a (with_status "resolving") "resolving" now
            (lookup id db.demo_jobs) refl refl refl (first.1 id (challenging a) runs))
      (λ j s other left. sym (lookup-update id j (λ _. resolving a) w.live ∙ rw other) ∙ left) first

start_challenge-Holds :
    (id : String) (now a : ℕ) (w : World)
    → Holds w
    → Holds (with_run id (challenging a) (start_challenge id now a w.db) w.live)
unfolding start_challenge
start_challenge-Holds id now a w h = elim (Option-cases (active_challenge_job a w.db)) [
  | inr (existing, found) ↦ rw (found, start_challenge) h
  | inl none_active ↦
      rw (none_active, start_challenge)
        (begin-Holds id (challenging a) challenge_job (some a) "submitting_challenge" now w
          (λ b active.
            let is : a ≡ b = ground (arith, nat_eq.same_iff a b) in
            ap (λ c. filter (is_active_for c) w.db.demo_jobs) (sym is)
            ∙ none-is_active_for a w.db none_active)
          (ground (arith, same_refl a)) h)
]

start_arm-Holds :
    (reserved : Bool) (id : String) (now : ℕ) (w : World)
    → Holds w
    → Holds (with_run id arming (start_arm reserved id now w.db) w.live)
unfolding start_arm
start_arm-Holds true id now w h =
    begin-Holds id arming arm_job none "arming" now w (λ b active. absurd (ground arith)) refl h
start_arm-Holds false id now w h =
    begin-Holds id arming watchdog_job none "arming" now w (λ b active. absurd (ground arith)) refl
      h

fits-slashes :
    (db db' : Database)
    → ((a : ℕ) → is_slashed a db ≡ true → is_slashed a db' ≡ true)
    → (r : Run) (row : Option JobRow) → fits (slashes db) r row ≡ true
    → fits (slashes db') r row ≡ true
fits-slashes db db' stays r none h = h
fits-slashes db db' stays (challenging a) (some row) h = let kept = stays a in ground arith
fits-slashes db db' stays (resolving a) (some row) h = let kept = stays a in ground arith
fits-slashes db db' stays arming (some row) h = h

elsewhere-Holds :
    (w : World) (db : Database)
    → db.demo_jobs ≡ w.db.demo_jobs
    → ((a : ℕ) → is_slashed a w.db ≡ true → is_slashed a db ≡ true)
    → Holds w
    → Holds (record w { db = db })
elsewhere-Holds w db same stays h = (
  h.0,
  λ id r runs.
      fits-slashes w.db db stays r (lookup id db.demo_jobs)
        (ap (λ t. fits (slashes w.db) r (lookup id t)) same ∙ h.1 id r runs),
  λ a free.
      let before : is_slashed a w.db ≡ false = elim (Bool-cases (is_slashed a w.db)) [
        | inl slashed ↦ let kept = stays a slashed in absurd (ground arith)
        | inr unslashed ↦ unslashed
      ] in
      rw same (h.2 a before),
)

failure_keeps :
    (r : Run) (e : Thrown)
    → keeps_action r (record (with_status "failed") { error = some (some (failure e)) }) ≡ true
failure_keeps (challenging a) e = refl
failure_keeps (resolving a) e = refl
failure_keeps arming e = refl

step-Holds : {w w' : World} → Step w w' → Holds w → Holds w'
unfolding on_resolve on_armed on_failure
step-Holds (challenge_asked {w = w} id now a) h = start_challenge-Holds id now a w h
step-Holds (arm_asked {w = w} reserved id now) h = start_arm-Holds reserved id now w h
step-Holds (challenged {w = w} id a challenge now runs) h =
    on_challenge-Holds id a challenge now w runs h
step-Holds (resolved {w = w} id a resolve now runs) h =
    last-Holds id (resolving a)
      (record (with_status "resolved") { resolve_tx = some (some resolve) }) now w runs refl h
step-Holds (armed {w = w} id a now runs) h =
    last-Holds id arming (record (with_status "action_ready") { action_id = some (some a) }) now w
      runs refl h
step-Holds (failed {w = w} id r e now runs) h =
    last-Holds id r (record (with_status "failed") { error = some (some (failure e)) }) now w runs
      (failure_keeps r e) h
step-Holds (read {w = w} id now) h = job-Holds id now w h
step-Holds (elsewhere {w = w} db same stays) h = elsewhere-Holds w db same stays h

reached-Holds : {w : World} → Reached w → Holds w
reached-Holds (fresh db empty) =
    (tt, λ id r runs. absurd (unfold lookup in ground arith), λ a free. rw empty (omega arith))
reached-Holds (after r s) = step-Holds s (reached-Holds r)

-- In every world that requests for challenges and for arming, the ends of their waits, reads of jobs
-- and changes by other parts can lead to, in any order, an action that is not slashed has at most
-- one challenge job that is active.
pub reached-IsSingle :
    {w : World}
    → Reached w
    → (a : ℕ) → is_slashed a w.db ≡ false
    → length (filter (is_active_for a) w.db.demo_jobs) ≤ 1
reached-IsSingle r a free = (reached-Holds r).2 a free
