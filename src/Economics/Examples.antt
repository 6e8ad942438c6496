-- ===== src/Economics/Examples.antt =====
-- Quoted against posted bonds.
use bondsman.Common.{some, ◌≡◌, refl}
use bondsman.Common.Int.{negsuc}
use bondsman.Common.Decimal.{big_int}
use bondsman.Economics.{parse_amount, bond_economic_relation}

bond_economic_relation_below :
    (bond_economic_relation (some "500") (some "480")).bond_difference ≡ some (negsuc 19)
unfolding bond_economic_relation parse_amount big_int
bond_economic_relation_below = refl
