-- ===== src/Policy.antt =====
-- The bond policy, `backend/src/policy/engine.ts`. Where the guard of the amount throws, the result
-- is `none`. Amounts are decimal text, as in the code.
pub mod Pricing
mod Examples
use bondsman.Common.{
  ℕ, ◌+◌, ◌*◌, ◌/◌, String, Bool, true, ◌||◌, Option, none, some, leb, min, or_default,
  if◌then◌else◌,
}
use bondsman.Common.Int.{ℤ, pos, negsuc}
use bondsman.Common.Decimal.{positive_big_int, to_text}

abbrev pub token_unit : ℕ
token_unit = 1_000_000_000

pub data FaultClass : Type 0 where
  duplicate_claim delivery_contradiction : FaultClass

-- The text that stands for a class of fault in a document.
unfoldable pub fault_class_text : FaultClass → String
fault_class_text duplicate_claim = "duplicate_claim"
fault_class_text delivery_contradiction = "delivery_contradiction"

pub data RiskTier : Type 0 where
  standard elevated high : RiskTier

pub data Verifier : Type 0 where
  duplicate_claim_v2 delivery_contradiction_v2 : Verifier

pub record BondPriceResult : Type 0 where
  pub risk_tier : RiskTier
  pub estimated_minimum_bond : String
  pub bond_basis_points : ℕ

pub record BondPolicyResult : Type 0 where
  pub price : BondPriceResult
  pub open price use *
  pub fault_class : FaultClass
  pub verifier : Verifier
  pub estimated_bond : String
  pub challenge_window_seconds : ℕ
  pub executable_now : Bool

unfoldable pub positive_amount : String → Option ℕ
positive_amount = positive_big_int

pub base_basis_points : ℕ → ℕ
base_basis_points amount =
    if leb (50_000 * token_unit) amount
    then 500
    else if leb (10_000 * token_unit) amount
    then 300
    else 200

-- `reputation < 0 ? Math.min(Math.abs(reputation), 300) : 0`
pub penalty : ℤ → ℕ
penalty (pos n) = 0
penalty (negsuc n) = min (n + 1) 300

-- `input.reputationScore ?? -20`
abbrev pub reputation_or_default : Option ℤ → ℤ
reputation_or_default score = or_default score (negsuc 19)

pub basis_points : ℕ → Option ℤ → ℕ
unfolding base_basis_points penalty
basis_points amount score = base_basis_points amount + penalty (reputation_or_default score)

unfoldable pub bond_basis_points : String → Option ℤ → Option ℕ
unfolding positive_amount basis_points
bond_basis_points amount score = elim (positive_amount amount) [
  | none ↦ none
  | some value ↦ some (basis_points value score)
]

pub tier : ℕ → ℕ → RiskTier
tier value bps =
    if leb (50_000 * token_unit) value || leb 500 bps
    then high
    else if leb (10_000 * token_unit) value || leb 300 bps
    then elevated
    else standard

unfoldable pub risk_tier : String → ℕ → Option RiskTier
unfolding positive_amount tier
risk_tier amount bps = elim (positive_amount amount) [
  | none ↦ none
  | some value ↦ some (tier value bps)
]

pub bond_of : ℕ → ℕ → ℕ
bond_of amount bps = amount * bps / 10_000

unfoldable pub price_bond : String → Option ℤ → Option BondPriceResult
unfolding positive_amount bond_basis_points risk_tier bond_of
price_bond amount score = elim (positive_amount amount) [
  | none ↦ none
  | some value ↦ elim (bond_basis_points amount score) [
    | none ↦ none
    | some bps ↦ elim (risk_tier amount bps) [
      | none ↦ none
      | some t ↦ some (record {
        risk_tier = t;
        estimated_minimum_bond = to_text (bond_of value bps);
        bond_basis_points = bps;
      })
    ]
  ]
]

abbrev pub verifier_of : FaultClass → Verifier
verifier_of delivery_contradiction = delivery_contradiction_v2
verifier_of duplicate_claim = duplicate_claim_v2

unfoldable pub policy_for : String → FaultClass → Option ℤ → Option BondPolicyResult
policy_for amount fault_class score = elim (price_bond amount score) [
  | none ↦ none
  | some price ↦ some (record {
    price = price;
    fault_class = fault_class;
    verifier = verifier_of fault_class;
    estimated_bond = price.estimated_minimum_bond;
    challenge_window_seconds = 1800;
    executable_now = true;
  })
]
