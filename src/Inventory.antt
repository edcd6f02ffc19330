-- ===== src/Inventory.antt =====
-- packages/business-logic/src/inventory/costing.ts: the weighted-average cost, and stock levels.
pub mod Average
pub mod Valuation
pub mod Threshold
mod Tests
use dukaano.Base.{Bool, List, [], err, false, if◌then◌else◌, map_result, ok, ◌&&◌, ◌>>=◌, ◌>>◌, ◌∷◌}
use dukaano.Base.Int.{leb_ℤ, ltb_ℤ, pos, ◌*ℤ◌, ◌+ℤ◌}
use dukaano.Money.Arithmetic.{add_milli, total_from}
use dukaano.Money.Brand.{Milli, Paise, as_paise, milli_per_unit, zero_paise}
use dukaano.Money.Errors.{Number, Throws, inbound_quantity, range_error}
use dukaano.Money.Round.{div_round_half_away_from_zero}

pub record CostingState : Type 0 where
  pub qty_milli : Milli
  pub avg_cost_paise : Paise

pub record InboundMovement : Type 0 where
  pub qty_milli : Milli
  pub unit_cost_paise : Paise

unfoldable pub apply_inbound_cost : CostingState → InboundMovement → Throws Paise
apply_inbound_cost state movement =
    if leb_ℤ movement.qty_milli (pos 0)
    then err (range_error (inbound_quantity movement.qty_milli))
    else if leb_ℤ state.qty_milli (pos 0)
    then ok movement.unit_cost_paise
    else (do
      let existing_value = state.qty_milli *ℤ state.avg_cost_paise
      let incoming_value = movement.qty_milli *ℤ movement.unit_cost_paise
      let total_qty = state.qty_milli +ℤ movement.qty_milli
      averaged ← div_round_half_away_from_zero (existing_value +ℤ incoming_value) total_qty
      as_paise (Number.whole averaged))

unfoldable pub stock_value : CostingState → Throws Paise
stock_value state = do
  let exact = state.qty_milli *ℤ state.avg_cost_paise
  value ← div_round_half_away_from_zero exact (pos milli_per_unit)
  as_paise (Number.whole value)

unfoldable pub total_stock_value : List CostingState → Throws Paise
total_stock_value states = do
  values ← map_result stock_value states
  as_paise (Number.whole (total_from (pos 0) values))

unfoldable pub apply_movement : Milli → Milli → Throws Milli
apply_movement current delta = add_milli (current ∷ delta ∷ [])

unfoldable pub is_low_stock : Milli → Milli → Bool
is_low_stock qty threshold = if leb_ℤ threshold (pos 0) then false else leb_ℤ qty threshold

unfoldable pub crossed_below_threshold : Milli → Milli → Milli → Bool
crossed_below_threshold before after threshold =
    if leb_ℤ threshold (pos 0) then false else ltb_ℤ threshold before && leb_ℤ after threshold

abbrev pub empty_costing_state : CostingState
empty_costing_state = record { qty_milli = pos 0; avg_cost_paise = zero_paise }
