-- ===== src/Repository/Evidence/Binding.antt =====
-- One piece of evidence is bound to one action.
use bondsman.Common.{
  ℕ, String, true, false, Option, none, some, ◌≡◌, ◌≢◌, arith, eq_iff, nat_eq, string_eq,
}
use bondsman.Common.Table.{lookup, update, lookup-update}
use bondsman.Repository.Tables.{Database, done}
use bondsman.Repository.Evidence.{
  use_delivery_evidence, release_delivery_evidence, use_row, release_use, row_usable,
}

-- The action that the evidence is bound to.
abbrev pub used_by : String → Database → Option ℕ
used_by root db = elim (lookup root db.delivery_attestations) [
  | none ↦ none
  | some row ↦ row.used_action_id
]

-- Evidence that was accepted for an action is bound to it, no other evidence changes, and no other
-- action is accepted on it afterwards.
pub use_delivery_evidence_binds :
    (root : String) (a b : ℕ) (db db' : Database)
    → use_delivery_evidence root a db ≡ done (true, db')
    → a ≢ b
    → (used_by root db' ≡ some a)
      × (row_usable b (lookup root db'.delivery_attestations) ≡ false)
      × ((other : String) → other ≢ root → used_by other db' ≡ used_by other db)
unfolding use_delivery_evidence
use_delivery_evidence_binds root a b db db' e ne = (
  ground (arith, lookup-update root root (use_row a) db.delivery_attestations, eq_iff root root),
  ground (arith, lookup-update root root (use_row a) db.delivery_attestations, eq_iff root root),
  λ other apart.
      ground
        (arith, lookup-update root other (use_row a) db.delivery_attestations, eq_iff root other),
)

-- Releasing fresh evidence after it was accepted leaves every binding as it was before.
pub release-use_delivery_evidence :
    (root other : String) (a : ℕ) (db db' : Database)
    → used_by root db ≡ none
    → use_delivery_evidence root a db ≡ done (true, db')
    → used_by other (release_delivery_evidence root a db') ≡ used_by other db
unfolding use_delivery_evidence release_delivery_evidence
release-use_delivery_evidence root other a db db' free e = ground (
  arith,
  lookup-update root other (use_row a) db.delivery_attestations,
  lookup-update root other (release_use a) (update root (use_row a) db.delivery_attestations),
  eq_iff root other,
  eq_iff root root,
)
