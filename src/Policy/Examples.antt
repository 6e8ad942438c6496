-- ===== src/Policy/Examples.antt =====
-- The policy at concrete amounts.
use bondsman.Common.{ℕ, String, ◌≡◌, refl, ◌≤◌, ◌<◌, ◌*◌, ◌/◌, some, none, arith}
use bondsman.Common.Int.{pos, ◌≤ℤ◌}
use bondsman.Common.Decimal.{big_int, to_text, positive_big_int}
use bondsman.Policy.{
  BondPriceResult, high, standard, price_bond, positive_amount, base_basis_points,
  reputation_or_default, basis_points, bond_basis_points, tier,
}
use bondsman.Policy.Pricing.{price_bond-rate, price_bond_mono}

abbrev invoice_amount : String
invoice_amount = "50000000000000"

abbrev invoice_price : BondPriceResult
invoice_price = record {
  risk_tier = high;
  estimated_minimum_bond = "2600000000000";
  bond_basis_points = 520;
}

abbrev small_price : BondPriceResult
small_price = record {
  risk_tier = standard;
  estimated_minimum_bond = "100000000000";
  bond_basis_points = 200;
}

-- No score is read as -20.
price_bond_unscored : price_bond invoice_amount none ≡ some invoice_price
unfolding price_bond positive_amount positive_big_int bond_basis_points tier basis_points to_text
price_bond_unscored = refl

price_bond_clean : price_bond "5000000000000" (some (pos 3)) ≡ some small_price
unfolding price_bond positive_amount positive_big_int bond_basis_points tier basis_points to_text
price_bond_clean = refl

price_bond_refused : price_bond "0" none ≡ none
unfolding price_bond positive_amount positive_big_int
price_bond_refused = refl

price_bond-rate_example :
    (value : ℕ) × (positive_amount invoice_amount ≡ some value)
    × (0 < value)
    × (200 ≤ 520)
    × (520 ≤ 800)
    × (base_basis_points value ≤ 520)
    × (pos 0 ≤ℤ reputation_or_default none → 520 ≡ base_basis_points value)
    × (big_int "2600000000000" ≡ some (value * 520 / 10_000))
price_bond-rate_example = price_bond-rate invoice_amount none invoice_price price_bond_unscored

price_bond_mono_example : 100_000_000_000 ≤ 2_600_000_000_000
unfolding positive_amount positive_big_int big_int
price_bond_mono_example =
    price_bond_mono "5000000000000" invoice_amount none (some (pos 3)) small_price invoice_price
      5_000_000_000_000 50_000_000_000_000 100_000_000_000 2_600_000_000_000 price_bond_clean
      price_bond_unscored refl refl (omega arith) (omega arith) refl refl
