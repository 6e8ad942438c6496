-- ===== src/DemoJobs/Runs.antt =====
-- What holds of the jobs and the runs that write them, in `backend/src/api/demo-jobs.ts`.
use mathlib.Core.Option
use bondsman.Common.{
  ℕ, ◌≤◌, String, Bool, true, false, not, ◌&&◌, ◌||◌, Option, none, some, ◌==◌, string_eq, nat_eq,
  filter, length, ◌≡◌, arith, Bool-cases, inl, inr, sym, ◌∙◌, ap, same_refl, is_none,
}
use bondsman.Common.Table.{Table, lookup, update, IsKeyed, lookup-update}
use bondsman.Repository.Tables.{Database, JobRow}
use bondsman.Repository.Actions.{action}
use bondsman.Repository.Jobs.{JobUpdate, updated_row, is_active_for, is_over, is_challenge}
use bondsman.Idempotency.{delete}
use bondsman.Idempotency.Keyed.{lookup-delete, delete-IsKeyed}
use bondsman.DemoJobs.{is_slashed, set_job}
use bondsman.DemoJobs.Rows.{count-update, set_job-record}
use bondsman.DemoJobs.World.{Run, challenging, resolving, arming, World}

-- A run's row: of its action and active unless the action is slashed, or of no challenge.
abbrev pub challenges : ℕ → (ℕ → Bool) → JobRow → Bool
challenges a slashed row =
    elim row.action_id [ none ↦ false | some b ↦ b == a ] && (slashed a || not (is_over row.status))

abbrev pub fits : (ℕ → Bool) → Run → Option JobRow → Bool
fits slashed r none = false
fits slashed (challenging a) (some row) = challenges a slashed row
fits slashed (resolving a) (some row) = challenges a slashed row
fits slashed arming (some row) = not (is_challenge row.kind)

abbrev pub Fits : (ℕ → Bool) → Table String JobRow → Table String Run → Type 0
Fits slashed jobs live =
    (id : String) (r : Run) → lookup id live ≡ some r → fits slashed r (lookup id jobs) ≡ true

abbrev pub IsSingle : (ℕ → Bool) → Table String JobRow → Type 0
IsSingle slashed jobs = (a : ℕ) → slashed a ≡ false → length (filter (is_active_for a) jobs) ≤ 1

-- An update of a run's row touches the action of no challenge.
abbrev pub keeps_action : Run → JobUpdate → Bool
keeps_action arming u = true
keeps_action _ u = is_none u.action_id

pub active_before :
    (slashed : ℕ → Bool) (id : String) (r : Run) (u : JobUpdate) (now a : ℕ) (row : JobRow)
    → fits slashed r (some row) ≡ true
    → keeps_action r u ≡ true
    → slashed a ≡ false
    → is_active_for a (id, updated_row u now row) ≡ true
    → is_active_for a (id, row) ≡ true
active_before slashed id (challenging b) u now a row h keeps free active =
    ground (arith, nat_eq.same_iff b a)
active_before slashed id (resolving b) u now a row h keeps free active =
    ground (arith, nat_eq.same_iff b a)
active_before slashed id arming u now a row h keeps free active = ground arith

pub update-IsSingle :
    (slashed : ℕ → Bool) (jobs : Table String JobRow) (live : Table String Run) (id : String)
    (r : Run) (u : JobUpdate) (now : ℕ)
    → lookup id live ≡ some r
    → keeps_action r u ≡ true
    → Fits slashed jobs live
    → IsSingle slashed jobs
    → IsSingle slashed (update id (updated_row u now) jobs)
update-IsSingle slashed jobs live id r u now runs keeps h single a free =
    let fewer = count-update (is_active_for a) id (updated_row u now) jobs (λ row found active.
      let fit = h id r runs in
      active_before slashed id r u now a row (ap (fits slashed r) (sym found) ∙ fit) keeps free
        active) in
    let one = single a free in omega arith

-- The rows after a change of one job, and the runs after it.
pub update-Fits :
    (slashed : ℕ → Bool) (jobs : Table String JobRow) (live live' : Table String Run) (id : String)
    (f : JobRow → JobRow)
    → Fits slashed jobs live
    → ((r : Run) → lookup id live' ≡ some r → fits slashed r (Option.map f (lookup id jobs)) ≡ true)
    → ((j : String) (r : Run)
        → (id == j) ≡ false
        → lookup j live' ≡ some r
        → lookup j live ≡ some r)
    → Fits slashed (update id f jobs) live'
update-Fits slashed jobs live live' id f h own others j r runs = elim (Bool-cases (id == j)) [
  | inl same ↦
      let is : id ≡ j = (string_eq.same_iff id j).0 same in
      ap (λ k. fits slashed r (lookup k (update id f jobs))) (sym is)
      ∙ ap (fits slashed r) (lookup-update id id f jobs ∙ rw (same_refl id))
      ∙ own r (ap (λ k. lookup k live') is ∙ runs)
  | inr other ↦
      let fit = h j r (others j r other runs) in
      ap (fits slashed r) (lookup-update id j f jobs ∙ rw other) ∙ fit
]

abbrev pub slashes : Database → ℕ → Bool
slashes db a = is_slashed a db

abbrev pub Holds : World → Type 0
Holds w =
    IsKeyed w.live
    × Fits (slashes w.db) w.db.demo_jobs w.live
    × IsSingle (slashes w.db) w.db.demo_jobs

-- One update in a run.
pub set_job-Holds :
    (id : String) (r : Run) (u : JobUpdate) (now : ℕ) (w : World) (live' : Table String Run)
    → lookup id w.live ≡ some r
    → keeps_action r u ≡ true
    → IsKeyed live'
    → ((s : Run)
        → lookup id live' ≡ some s
        → fits (slashes w.db) s (Option.map (updated_row u now) (lookup id w.db.demo_jobs)) ≡ true)
    → ((j : String) (s : Run)
        → (id == j) ≡ false
        → lookup j live' ≡ some s
        → lookup j w.live ≡ some s)
    → Holds w
    → Holds (record { db = set_job id u now w.db; live = live' })
unfolding is_slashed action
set_job-Holds id r u now w live' runs keeps keyed own others h = rw (set_job-record id u now w.db) (
  keyed,
  update-Fits (slashes w.db) w.db.demo_jobs w.live live' id (updated_row u now) h.1 own others,
  update-IsSingle (slashes w.db) w.db.demo_jobs w.live id r u now runs keeps h.1 h.2,
)

-- The last update of a run.
pub last-Holds :
    (id : String) (r : Run) (u : JobUpdate) (now : ℕ) (w : World)
    → lookup id w.live ≡ some r
    → keeps_action r u ≡ true
    → Holds w
    → Holds (record { db = set_job id u now w.db; live = delete id w.live })
last-Holds id r u now w runs keeps h =
    set_job-Holds id r u now w (delete id w.live) runs keeps (delete-IsKeyed id w.live h.0)
      (λ s left. let gone = lookup-delete id id w.live h.0 in absurd (ground (arith, same_refl id)))
      (λ j s other left.
        let same = lookup-delete id j w.live h.0 in
        ground (arith, string_eq.same_iff id j, string_eq.same_iff j id))
      h

pub moved-fits :
    (slashed : ℕ → Bool) (a : ℕ) (u : JobUpdate) (status : String) (now : ℕ) (row : Option JobRow)
    → u.action_id ≡ none
    → u.status ≡ some status
    → is_over status ≡ false
    → fits slashed (challenging a) row ≡ true
    → fits slashed (challenging a) (Option.map (updated_row u now) row) ≡ true
moved-fits slashed a u status now none action moves active h = h
moved-fits slashed a u status now (some row) action moves active h = ground arith
