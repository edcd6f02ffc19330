-- ===== src/Inventory/Valuation.antt =====
-- Stock values of packages/business-logic/src/inventory/costing.ts.
use dukaano.Base.{>>=-eq-ok, List, ap, arith, map_result, ok, sym, ◌↔◌, ◌∙◌, ◌≡◌}
use dukaano.Base.Int.{int_laws, pos, ℤ, ◌*ℤ◌}
use dukaano.Base.Mul.{*ℤ_comm}
use dukaano.Inventory.{CostingState, stock_value, total_stock_value}
use dukaano.Money.Arithmetic.{total_from}
use dukaano.Money.Arithmetic.Sums.{sum, total_from-sum}
use dukaano.Money.Brand.{
  IsSafe, Paise, as_paise, from_bigint-eq-ok, from_bigint_safe, milli_per_unit,
}
use dukaano.Money.Errors.{Number}
use dukaano.Money.Line.{line_total}
use dukaano.Money.Round.{div_round_half_away_from_zero}

as_paise_safe : (a : ℤ) → IsSafe a → as_paise (Number.whole a) ≡ ok a
unfolding as_paise
as_paise_safe a h = ground arith

as_paise-eq-ok : (a : ℤ) {r : ℤ} → as_paise (Number.whole a) ≡ ok r → (r ≡ a) × IsSafe a
unfolding as_paise
as_paise-eq-ok a {r} e = ground arith

-- A position is valued as a bill prices the same quantity at the average cost: both are the exact
-- product, rounded once to the nearest paisa, and both are refused out of the safe range.
pub stock_value-line_total :
    (s : CostingState) (v : Paise)
    → (stock_value s ≡ ok v) ↔ (line_total s.avg_cost_paise s.qty_milli ≡ ok v)
unfolding stock_value line_total
stock_value-line_total s v =
    let swap = *ℤ_comm s.avg_cost_paise s.qty_milli in
    (
      (λ e.
          let (x, divided, narrowed) =
            >>=-eq-ok
              (div_round_half_away_from_zero (s.qty_milli *ℤ s.avg_cost_paise) (pos milli_per_unit))
              _ e in
          let (v_is, safe) = as_paise-eq-ok x narrowed in
          rw (swap, divided) (from_bigint_safe x safe ∙ ap ok (sym v_is))),
      (λ e.
          let (x, divided, narrowed) =
            >>=-eq-ok
              (div_round_half_away_from_zero (s.avg_cost_paise *ℤ s.qty_milli) (pos milli_per_unit))
              _ e in
          let (v_is, safe) = from_bigint-eq-ok x v narrowed in
          rw (← swap, divided) (as_paise_safe x safe ∙ ap ok (sym v_is))),
    )

-- The valuation of many positions is the sum of their values.
pub total_stock_value-sum :
    (states : List CostingState) {t : Paise}
    → total_stock_value states ≡ ok t
    → (values : List Paise) × (map_result stock_value states ≡ ok values) × (t ≡ sum values)
unfolding total_stock_value
total_stock_value-sum states {t} e =
    let (values, e0, r0) = >>=-eq-ok (map_result stock_value states) _ e in
    (
      values,
      e0,
      (as_paise-eq-ok (total_from (pos 0) values) r0).0
          ∙ total_from-sum (pos 0) values
          ∙ omega int_laws,
    )
