-- ===== src/Economics.antt =====
-- The comparison of a quoted with a posted bond, `backend/src/evidence/bond-economics.ts`.
mod Examples
use bondsman.Common.{
  ℕ, String, Bool, true, false, Option, none, some, ltb, leb, ◌==◌, nat_eq, if◌then◌else◌, ◌≡◌,
  arith, ◌↔◌, ◌≤◌, ◌<◌,
}
use bondsman.Common.Int.{ℤ, pos, sub_ℕ}
use bondsman.Common.Decimal.{big_int, to_text}

pub data BondRelation : Type 0 where
  exact_match overcollateralized undercollateralized unavailable : BondRelation

pub record BondEconomicRelation : Type 0 where
  pub quoted_minimum_bond : Option String
  pub actual_posted_bond : Option String
  pub bond_relation : BondRelation
  pub bond_difference : Option ℤ
  pub minimum_satisfied : Bool
  pub exact_match : Bool

-- `!value` is true of the empty text too, which `big_int` refuses.
unfoldable pub parse_amount : Option String → Option ℕ
parse_amount none = none
parse_amount (some value) = big_int value

unavailable_relation : Option String → Option String → BondEconomicRelation
unavailable_relation quoted actual = record {
  quoted_minimum_bond = quoted;
  actual_posted_bond = actual;
  bond_relation = unavailable;
  bond_difference = none;
  minimum_satisfied = false;
  exact_match = false;
}

-- `difference === 0n ? ... : difference > 0n ? ... : ...`
relation_of : ℤ → BondRelation
relation_of (pos n) = if n == 0 then exact_match else overcollateralized
relation_of (ℤ.negsuc n) = undercollateralized

available_relation : ℕ → ℕ → BondEconomicRelation
unfolding relation_of
available_relation quoted actual = record {
  quoted_minimum_bond = some (to_text quoted);
  actual_posted_bond = some (to_text actual);
  bond_relation = relation_of (sub_ℕ actual quoted);
  bond_difference = some (sub_ℕ actual quoted);
  minimum_satisfied = leb quoted actual;
  exact_match = actual == quoted;
}

unfoldable pub bond_economic_relation : Option String → Option String → BondEconomicRelation
unfolding parse_amount available_relation unavailable_relation
bond_economic_relation quoted_text actual_text = elim (parse_amount quoted_text) [
  | none ↦ unavailable_relation quoted_text actual_text
  | some quoted ↦ elim (parse_amount actual_text) [
    | none ↦ unavailable_relation quoted_text actual_text
    | some actual ↦ available_relation quoted actual
  ]
]

-- The relation, the two flags and the difference tell one story: the minimum is satisfied exactly
-- when both amounts are readable and the posted bond is at least the quoted one, the match is exact
-- exactly when they are equal, and nothing is claimed when one of them is unreadable.
pub bond_economic_relation_sound :
    (quoted actual : Option String)
    → let r = bond_economic_relation quoted actual in
      ((r.minimum_satisfied ≡ true) ↔ (
        (q : ℕ) × (a : ℕ) × (parse_amount quoted ≡ some q)
        × (parse_amount actual ≡ some a)
        × (q ≤ a)))
      × ((r.exact_match ≡ true) ↔ (r.bond_relation ≡ exact_match))
      × ((r.bond_relation ≡ undercollateralized) ↔ (
          (q : ℕ) × (a : ℕ) × (parse_amount quoted ≡ some q)
          × (parse_amount actual ≡ some a)
          × (a < q)))
      × ((r.bond_difference ≡ none) ↔ (r.bond_relation ≡ unavailable))
unfolding bond_economic_relation available_relation unavailable_relation relation_of
bond_economic_relation_sound quoted actual = (
  (ground arith, ground arith),
  (ground arith, ground arith),
  (ground arith, ground arith),
  (ground arith, ground arith),
)
