-- ===== src/DemoJobs/Begun.antt =====
-- What a new job changes, in `backend/src/api/demo-jobs.ts`.
use mathlib.Core.Option
use bondsman.Common.{
  ℕ, ◌≤◌, ◌+◌, String, Bool, true, Option, none, some, [], ◌∷◌, ◌==◌, string_eq, nat_eq, filter,
  length, if◌then◌else◌, ◌≡◌, arith, Option-cases, Bool-cases, inl, inr, length-append,
  length-filter, filter-append, sym, ◌∙◌, ap, same_refl, some-eq,
}
use bondsman.Common.Table.{Table, lookup, upsert, update, lookup-upsert}
use bondsman.Repository.Records.{DemoJobKind}
use bondsman.Repository.Tables.{Database, JobRow}
use bondsman.Repository.Actions.{action}
use bondsman.Repository.Jobs.{
  updated_row, is_active_for, create_demo_job, new_job_row, job_from_row,
}
use bondsman.DemoJobs.{begun, threw, is_slashed, set_job, begin, with_status}
use bondsman.DemoJobs.Rows.{upsert-absent, count-update, set_job-record}
use bondsman.DemoJobs.World.{Run, World, with_run}
use bondsman.DemoJobs.Runs.{Holds, fits, slashes, update-Fits, Fits, IsSingle}

abbrev pub queued_row : DemoJobKind → Option ℕ → ℕ → JobRow
queued_row kind action_id now = new_job_row kind action_id "queued" now

module _ (id : String) (kind : DemoJobKind) (action_id : Option ℕ) (status : String) (now : ℕ)
    (db : Database) where
  pub begin-taken :
      (row : JobRow)
      → lookup id db.demo_jobs ≡ some row
      → begin id now (create_demo_job id kind action_id "queued" now db) status db ≡ (threw, db)
  unfolding begin create_demo_job
  begin-taken row taken = ground arith

  pub begin-new :
      lookup id db.demo_jobs ≡ none
      → begin id now (create_demo_job id kind action_id "queued" now db) status db ≡ (
        begun (job_from_row (id, queued_row kind action_id now)),
        set_job id
            (with_status status)
            now
            (record db { demo_jobs = upsert id (λ _. queued_row kind action_id now) db.demo_jobs }),
      )
  unfolding begin create_demo_job
  begin-new new = ground arith

module _ (id : String) (kind : DemoJobKind) (action_id : Option ℕ) (status : String) (now : ℕ)
    (slashed : ℕ → Bool) (jobs : Table String JobRow) where
  abbrev pub row : JobRow
  row = queued_row kind action_id now

  abbrev pub with_row : Table String JobRow
  with_row = upsert id (λ _. row) jobs

  abbrev pub with_begun : Table String JobRow
  with_begun = update id (updated_row (with_status status) now) with_row

  -- A run has a row, so a new identifier has no run.
  pub not_live :
      (live : Table String Run)
      → lookup id jobs ≡ none
      → Fits slashed jobs live
      → lookup id live ≡ none
  not_live live new h = elim (Option-cases (lookup id live)) [
    | inl gone ↦ gone
    | inr (r, runs) ↦
        let fit : fits slashed r none ≡ true = sym (ap (fits slashed r) new) ∙ h id r runs in
        absurd (ground arith)
  ]

  queued-is_active_for :
      (a : ℕ)
      → is_active_for a (id, updated_row (with_status status) now row) ≡ true
      → is_active_for a (id, row) ≡ true
  queued-is_active_for a h = ground arith

  with_row-IsSingle :
      lookup id jobs ≡ none
      → ((a : ℕ) → is_active_for a (id, row) ≡ true → filter (is_active_for a) jobs ≡ [])
      → IsSingle slashed jobs
      → IsSingle slashed with_row
  with_row-IsSingle new alone single a free =
      let last : length (filter (is_active_for a) ((id, row) ∷ [])) ≤ 1 =
        length-filter (is_active_for a) ((id, row) ∷ []) in
      let both : length (filter (is_active_for a) with_row)
          ≡ length (filter (is_active_for a) jobs)
            + length (filter (is_active_for a) ((id, row) ∷ [])) =
        ap (λ t. length (filter (is_active_for a) t)) (upsert-absent id (λ _. row) jobs new)
        ∙ ap length (filter-append (is_active_for a) jobs ((id, row) ∷ []))
        ∙ length-append (filter (is_active_for a) jobs)
            (filter (is_active_for a) ((id, row) ∷ [])) in
      elim (Bool-cases (is_active_for a (id, row))) [
        | inl active ↦
            let empty : length (filter (is_active_for a) jobs) ≡ 0 = ap length (alone a active) in
            omega arith
        | inr idle ↦
            let empty : length (filter (is_active_for a) ((id, row) ∷ [])) ≡ 0 =
              ap (λ b. length {A = String × JobRow} (if b then (id, row) ∷ [] else [])) idle in
            let one = single a free in omega arith
      ]

  pub begun-IsSingle :
      lookup id jobs ≡ none
      → ((a : ℕ) → is_active_for a (id, row) ≡ true → filter (is_active_for a) jobs ≡ [])
      → IsSingle slashed jobs
      → IsSingle slashed with_begun
  begun-IsSingle new alone single a free =
      let fewer =
        count-update (is_active_for a) id (updated_row (with_status status) now) with_row
          (λ v found active.
            let is : row ≡ v =
              some-eq (sym (lookup-upsert id id (λ _. row) jobs ∙ rw (same_refl id)) ∙ found) in
            let was : is_active_for a (id, row) ≡ true = queued-is_active_for a (
              ap (λ w. is_active_for a (id, updated_row (with_status status) now w)) is ∙ active) in
            ap (λ w. is_active_for a (id, w)) (sym is) ∙ was) in
      let one = with_row-IsSingle new alone single a free in omega arith

  pub begun-Fits :
      (r : Run) (live : Table String Run)
      → lookup id jobs ≡ none
      → fits slashed r (some (updated_row (with_status status) now row)) ≡ true
      → Fits slashed jobs live
      → Fits slashed with_begun ((id, r) ∷ live)
  begun-Fits r live new fit h =
      update-Fits slashed with_row live ((id, r) ∷ live) id (updated_row (with_status status) now)
        (λ j s runs. elim (Bool-cases (id == j)) [
          | inl same ↦
              let gone = not_live live new h in absurd (ground (arith, string_eq.same_iff id j))
          | inr other ↦
              ap (fits slashed s) (lookup-upsert id j (λ _. row) jobs ∙ rw other) ∙ h j s runs
        ])
        (λ s runs.
          let stored : lookup id with_row ≡ some row =
            lookup-upsert id id (λ _. row) jobs ∙ rw (same_refl id) in
          let is : s ≡ r = unfold lookup in ground (arith, same_refl id) in
          ap
            (λ t.
              fits slashed t
                (Option.map (updated_row (with_status status) now) (lookup id with_row)))
            is
          ∙ ap (λ o. fits slashed r (Option.map (updated_row (with_status status) now) o)) stored
          ∙ fit)
        (λ j s other runs.
          unfold lookup in ground (arith, string_eq.same_iff id j, string_eq.same_iff j id))

-- A job whose identifier is free, and its first update; a run that has none changes nothing.
pub begin-Holds :
    (id : String) (r : Run) (kind : DemoJobKind) (action_id : Option ℕ) (status : String) (now : ℕ)
    (w : World)
    → ((a : ℕ)
        → is_active_for a (id, queued_row kind action_id now) ≡ true
        → filter (is_active_for a) w.db.demo_jobs ≡ [])
    → fits
        (slashes w.db)
        r
        (some (updated_row (with_status status) now (queued_row kind action_id now)))
      ≡ true
    → Holds w
    → Holds (
        with_run id r
          (begin id now (create_demo_job id kind action_id "queued" now w.db) status w.db)
          w.live)
unfolding is_slashed action
begin-Holds id r kind action_id status now w alone fit h =
    elim (Option-cases (lookup id w.db.demo_jobs)) [
      | inr (taken, found) ↦ rw (begin-taken id kind action_id status now w.db taken found) h
      | inl new ↦ rw (begin-new id kind action_id status now w.db new) (
          rw
            (set_job-record id (with_status status) now (record w.db {
              demo_jobs = upsert id (λ _. queued_row kind action_id now) w.db.demo_jobs;
            }))
            (
              (
                not_live id kind action_id status now (slashes w.db) w.db.demo_jobs w.live new h.1,
                h.0,
              ),
              begun-Fits id kind action_id status now (slashes w.db) w.db.demo_jobs r w.live new fit
                  h.1,
              begun-IsSingle id kind action_id status now (slashes w.db) w.db.demo_jobs new alone
                  h.2,
            ))
    ]
