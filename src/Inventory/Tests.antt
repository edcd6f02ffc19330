-- ===== src/Inventory/Tests.antt =====
-- Runs of packages/business-logic/src/inventory.
use dukaano.Base.{[], ok, refl, ◌∷◌, ◌≡◌}
use dukaano.Base.Int.{negsuc, pos, ◌*ℤ◌, ◌+ℤ◌, ◌/ℤ◌}
use dukaano.Inventory.{CostingState, apply_inbound_cost, stock_value, total_stock_value}
use dukaano.Inventory.Average.{receipt, stock}
use dukaano.Money.Arithmetic.{total_from}
use dukaano.Money.Brand.{as_paise}
use dukaano.Money.Round.{div_round_half_away_from_zero}

averaged : apply_inbound_cost (stock 10_000 (pos 4000)) (receipt 5000 (pos 4600)) ≡ ok (pos 4200)
unfolding apply_inbound_cost div_round_half_away_from_zero ◌+ℤ◌ as_paise ◌*ℤ◌ ◌/ℤ◌
averaged = refl

abbrev sold_short : CostingState
sold_short = record { qty_milli = negsuc 2; avg_cost_paise = pos 4000 }

two_positions : total_stock_value (stock 333 (pos 1050) ∷ stock 2000 (pos 99) ∷ []) ≡ ok (pos 548)
unfolding total_stock_value stock_value div_round_half_away_from_zero as_paise ◌*ℤ◌ ◌/ℤ◌ ◌+ℤ◌
    total_from
two_positions = refl
