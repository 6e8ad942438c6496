-- ===== src/Policy/Pricing.antt =====
-- What the bond policy promises of its prices.
use bondsman.Common.{
  ℕ, ◌+◌, ◌*◌, ◌/◌, ◌≤◌, ◌<◌, String, ◌≡◌, ◌↔◌, ◌⊎◌, Option, none, some, arith, sym, refl, inl, inr,
  Option-cases, ◌∙◌,
}
use bondsman.Common.Int.{ℤ, pos, negsuc, ◌≤ℤ◌}
use bondsman.Common.Decimal.{big_int, to_text, big_int-to_text, positive_big_int-pos}
use bondsman.Policy.{
  FaultClass, standard, high, BondPriceResult, BondPolicyResult, base_basis_points, penalty,
  basis_points, reputation_or_default, tier, bond_of, positive_amount, price_bond, policy_for,
  token_unit,
}

base_basis_points_bounds :
    (value : ℕ) → (200 ≤ base_basis_points value) × (base_basis_points value ≤ 500)
unfolding base_basis_points
base_basis_points_bounds value = ground arith

base_basis_points_mono : (m n : ℕ) → m ≤ n → base_basis_points m ≤ base_basis_points n
unfolding base_basis_points
base_basis_points_mono m n h = ground arith

penalty-le : (score : ℤ) → penalty score ≤ 300
unfolding penalty
penalty-le (pos n) = omega arith
penalty-le (negsuc n) = omega arith

penalty_antitone : (s t : ℤ) → s ≤ℤ t → penalty t ≤ penalty s
unfolding penalty
penalty_antitone (pos m) (pos n) h = omega arith
penalty_antitone (pos m) (negsuc n) h = omega arith
penalty_antitone (negsuc m) (pos n) h = omega arith
penalty_antitone (negsuc m) (negsuc n) h = omega arith

mul_mono : (m n b c : ℕ) → m ≤ n → b ≤ c → m * b ≤ n * c
mul_mono m n b c h k =
    let first : m * b ≤ n * b = grind arith in
    let second : n * b ≤ n * c = grind arith in omega arith

bond_of_mono : (m n b c : ℕ) → m ≤ n → b ≤ c → bond_of m b ≤ bond_of n c
unfolding bond_of
bond_of_mono m n b c h k = omega (arith, mul_mono m n b c h k)

abbrev price_of : ℕ → Option ℤ → BondPriceResult
price_of value score = record {
  risk_tier = tier value (basis_points value score);
  estimated_minimum_bond = to_text (bond_of value (basis_points value score));
  bond_basis_points = basis_points value score;
}

-- A priced bond comes from an amount that passed the guard.
price_bond-inv :
    (amount : String) (score : Option ℤ) (p : BondPriceResult)
    → price_bond amount score ≡ some p
    → (value : ℕ) × (positive_amount amount ≡ some value) × (p ≡ price_of value score)
unfolding price_bond positive_amount
price_bond-inv amount score p h = ground arith

price_bond-of :
    (amount : String) (score : Option ℤ) (value : ℕ)
    → positive_amount amount ≡ some value
    → price_bond amount score ≡ some (price_of value score)
unfolding price_bond positive_amount
price_bond-of amount score value e = ground arith

rate_of :
    (value : ℕ) (score : ℤ)
    → let bps = base_basis_points value + penalty score in
      (200 ≤ bps)
      × (bps ≤ 800)
      × (base_basis_points value ≤ bps)
      × (pos 0 ≤ℤ score → bps ≡ base_basis_points value)
unfolding penalty
rate_of value (pos n) = omega (arith, base_basis_points_bounds value)
rate_of value (negsuc n) = omega (arith, base_basis_points_bounds value)

-- A price comes from a positive amount. Its rate lies between 200 and 800 basis points, is never
-- below the rate of the amount's tier, and is that rate for an agent whose score is not negative.
-- The bond is the printed form of amount * rate / 10000, rounded down.
pub price_bond-rate :
    (amount : String) (score : Option ℤ) (p : BondPriceResult)
    → price_bond amount score ≡ some p
    → (value : ℕ) × (positive_amount amount ≡ some value)
      × (0 < value)
      × (200 ≤ p.bond_basis_points)
      × (p.bond_basis_points ≤ 800)
      × (base_basis_points value ≤ p.bond_basis_points)
      × (pos 0 ≤ℤ reputation_or_default score → p.bond_basis_points ≡ base_basis_points value)
      × (big_int p.estimated_minimum_bond ≡ some (value * p.bond_basis_points / 10_000))
unfolding basis_points positive_amount bond_of
price_bond-rate amount score p h =
    let (value, e, same) = price_bond-inv amount score p h in
    let (low, high_enough, floor, clean) = rate_of value (reputation_or_default score) in
    (
      value,
      e,
      positive_big_int-pos value amount e,
      rw same low,
      rw same high_enough,
      rw same floor,
      rw same clean,
      rw same (big_int-to_text _),
    )

-- The order on prices: an amount that is not smaller, or a reputation that is not better, never
-- lowers the bond.
pub price_bond_mono :
    (small large : String) (worse better : Option ℤ) (p q : BondPriceResult) (m n x y : ℕ)
    → price_bond small better ≡ some p
    → price_bond large worse ≡ some q
    → positive_amount small ≡ some m
    → positive_amount large ≡ some n
    → m ≤ n
    → reputation_or_default worse ≤ℤ reputation_or_default better
    → big_int p.estimated_minimum_bond ≡ some x
    → big_int q.estimated_minimum_bond ≡ some y
    → x ≤ y
unfolding basis_points
price_bond_mono small large worse better p q m n x y hp hq hm hn le rep hx hy =
    let p_is : p ≡ price_of m better = cc (price_bond-of small better m hm) in
    let q_is : q ≡ price_of n worse = cc (price_bond-of large worse n hn) in
    let bx : some x ≡ some (bond_of m (basis_points m better)) =
      sym hx ∙ rw p_is (big_int-to_text _) in
    let by : some y ≡ some (bond_of n (basis_points n worse)) =
      sym hy ∙ rw q_is (big_int-to_text _) in
    let x_is : x ≡ bond_of m (basis_points m better) = cc in
    let y_is : y ≡ bond_of n (basis_points n worse) = cc in
    omega (
      arith,
      bond_of_mono m n (basis_points m better) (basis_points n worse) le (
          omega (
            arith,
            base_basis_points_mono m n le,
            penalty_antitone (reputation_or_default worse) (reputation_or_default better) rep,
          )),
    )

-- A bond is priced, and a policy made, exactly for the amounts that are positive integers.
policy_for-none :
    (amount : String) (fault : FaultClass) (score : Option ℤ)
    → (policy_for amount fault score ≡ none) ↔ (positive_amount amount ≡ none)
unfolding policy_for price_bond positive_amount
policy_for-none amount fault score = (ground arith, ground arith)

-- The tier of a priced bond is `high` exactly when the amount is at least 50,000 units or the rate
-- is at least 500, and `standard` exactly when the amount is below 10,000 units and the rate below
-- 300: an agent with a bad score is never filed as a standard risk.
price_bond-tier :
    (amount : String) (score : Option ℤ) (p : BondPriceResult) (value : ℕ)
    → price_bond amount score ≡ some p
    → positive_amount amount ≡ some value
    → ((p.risk_tier ≡ high) ↔ ((50_000 * token_unit ≤ value) ⊎ (500 ≤ p.bond_basis_points)))
      × ((p.risk_tier ≡ standard) ↔ ((value < 10_000 * token_unit) × (p.bond_basis_points < 300)))
unfolding tier
price_bond-tier amount score p value h e =
    let p_is : p ≡ price_of value score = cc (price_bond-of amount score value e) in
    (
      (rw p_is (ground arith), rw p_is (ground arith)),
      (rw p_is (ground arith), rw p_is (ground arith)),
    )

-- The bond of a price is a number in decimal text.
pub price_bond-text :
    (amount : String) (score : Option ℤ) (p : BondPriceResult)
    → price_bond amount score ≡ some p
    → (n : ℕ) × (p.estimated_minimum_bond ≡ to_text n)
unfolding price_bond positive_amount
price_bond-text amount score p h =
    let (value, _, same) = price_bond-inv amount score p h in
    (bond_of value (basis_points value score), rw same refl)

-- A policy is made of its price.
pub policy_for-price :
    (amount : String) (fault : FaultClass) (score : Option ℤ) (p : BondPolicyResult)
    → policy_for amount fault score ≡ some p
    → (price_bond amount score ≡ some p.price) × (p.estimated_bond ≡ p.price.estimated_minimum_bond)
unfolding policy_for
policy_for-price amount fault score p h = elim (Option-cases (price_bond amount score)) [
  | inl none_priced ↦ absurd (ground arith)
  | inr (price, e) ↦ (ground arith, ground arith)
]
