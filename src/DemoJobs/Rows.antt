-- ===== src/DemoJobs/Rows.antt =====
-- The rows that the updates of `backend/src/api/demo-jobs.ts` leave, and the ones that are still active.
use bondsman.Common.{
  ℕ, ◌≤◌, String, Bool, true, false, Option, none, some, List, [], ◌∷◌, ◌++◌, ◌==◌, string_eq,
  nat_eq, filter, length, any, ◌≡◌, refl, arith, Option-cases, Bool-cases, sym, ◌∙◌, inl, inr,
  Comparable,
}
use bondsman.Common.Sort.{sort_by, any-sort_by}
use bondsman.Common.Table.{Table, lookup, upsert, update}
use bondsman.Repository.Tables.{Database, JobRow}
use bondsman.Repository.Jobs.{
  JobUpdate, updated_row, update_demo_job, demo_job, active_challenge_job, is_active_for,
  newest_first, from_newest,
}
use bondsman.DemoJobs.{set_job}

module _ {ℓ κ} {K : Type ℓ} {V : Type κ} ⦃e : Comparable K⦄ where
  update-absent : (k : K) (f : V → V) (t : Table K V) → lookup k t ≡ none → update k f t ≡ t
  unfolding lookup update
  update-absent k f [] h = refl
  update-absent k f ((j, v) ∷ t) h = ground (arith, update-absent k f t)

  pub upsert-absent :
      (k : K) (f : Option V → V) (t : Table K V)
      → lookup k t ≡ none
      → upsert k f t ≡ t ++ (k, f none) ∷ []
  unfolding lookup upsert
  upsert-absent k f [] h = refl
  upsert-absent k f ((j, v) ∷ t) h = ground (arith, upsert-absent k f t)

  -- A changed row passes a test only if it did before: then no more rows pass it.
  pub count-update :
      (p : K × V → Bool) (k : K) (f : V → V) (t : Table K V)
      → ((v : V) → lookup k t ≡ some v → p (k, f v) ≡ true → p (k, v) ≡ true)
      → length (filter p (update k f t)) ≤ length (filter p t)
  unfolding lookup update
  count-update p k f [] h = omega arith
  count-update p k f ((j, v) ∷ t) h = elim (Bool-cases (k == j)) [
    | inl same ↦ let kept = h v (ground arith) in ground (arith, e.same_iff k j)
    | inr other ↦
        let rest = count-update p k f t (λ w found kept. h w (ground arith) kept) in ground arith
  ]

-- The update of a job that is not there changes nothing.
pub set_job-record :
    (id : String) (u : JobUpdate) (now : ℕ) (db : Database)
    → set_job id u now db ≡ record db { demo_jobs = update id (updated_row u now) db.demo_jobs }
unfolding set_job update_demo_job demo_job
set_job-record id u now db = elim (Option-cases (lookup id db.demo_jobs)) [
  | inl gone ↦ rw (update-absent id (updated_row u now) db.demo_jobs gone, gone, set_job)
  | inr (row, found) ↦ ground arith
]

from_newest-none : (es : List (String × JobRow)) → from_newest es ≡ none → es ≡ []
from_newest-none [] h = refl
from_newest-none (e ∷ es) h = absurd (ground arith)

not_any-empty {ℓ} : {A : Type ℓ} (xs : List A) → any (λ _. true) xs ≡ false → xs ≡ []
not_any-empty [] h = refl
not_any-empty (x ∷ xs) h = absurd (ground arith)

-- No job is active only where no row is.
pub none-is_active_for :
    (action_id : ℕ) (db : Database)
    → active_challenge_job action_id db ≡ none
    → filter (is_active_for action_id) db.demo_jobs ≡ []
unfolding active_challenge_job
none-is_active_for action_id db h =
    let active = filter (is_active_for action_id) db.demo_jobs in
    let sorted_empty = from_newest-none (sort_by newest_first active) h in
    not_any-empty active (sym (any-sort_by newest_first (λ _. true) active) ∙ rw sorted_empty)
