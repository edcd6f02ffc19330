-- ===== src/Money/Line.antt =====
-- packages/money/src/line.ts: how a bill adds up.
pub mod Bill
pub mod Reverse
pub mod Discount
use dukaano.Base.{
  List, Option, [], if◌then◌else◌, map, map_result, ok, or_else, ℕ, ◌*◌, ◌==◌, ◌>>=◌, ◌>>◌, ◌∷◌,
}
use dukaano.Base.Int.{eqb_ℤ, pos, pos_part, ◌*ℤ◌}
use dukaano.Money.Allocate.{allocate, as_weight, sum_ℕ}
use dukaano.Money.Arithmetic.{add_paise, percent_of, sub_paise}
use dukaano.Money.Brand.{
  BasisPoints, Milli, Paise, from_bigint, milli_per_unit, paise_per_rupee, zero_paise,
}
use dukaano.Money.Errors.{Throws}
use dukaano.Money.Round.{div_round_half_away_from_zero, round_to_nearest_step}

pub record LineInput : Type 0 where
  pub unit_price_paise : Paise
  pub qty_milli : Milli
  pub discount_paise : Option Paise

pub record LineTotals : Type 0 where
  pub gross_paise : Paise
  pub discount_paise : Paise
  pub net_paise : Paise

pub record BillTotals : Type 0 where
  pub subtotal_paise : Paise
  pub line_discount_paise : Paise
  pub bill_discount_paise : Paise
  pub rounding_adjustment_paise : Paise
  pub total_paise : Paise

pub data RoundingPolicy : Type 0 where
  none_policy nearest_rupee nearest_5_rupees : RoundingPolicy

-- `ROUNDING_POLICIES[policy]`
abbrev pub rounding_step : RoundingPolicy → ℕ
rounding_step none_policy = 0
rounding_step nearest_rupee = paise_per_rupee
rounding_step nearest_5_rupees = 5 * paise_per_rupee

unfoldable pub line_total : Paise → Milli → Throws Paise
line_total unit_price_paise qty_milli = do
  let exact = unit_price_paise *ℤ qty_milli
  from_bigint (← div_round_half_away_from_zero exact (pos milli_per_unit))

unfoldable pub compute_line : LineInput → Throws LineTotals
compute_line line = do
  gross ← line_total line.unit_price_paise line.qty_milli
  let discount = or_else line.discount_paise zero_paise
  net ← sub_paise gross discount
  ok (record { gross_paise = gross; discount_paise = discount; net_paise = net })

unfoldable pub line_discount_from_rate : Paise → BasisPoints → Throws Paise
line_discount_from_rate gross_paise rate = percent_of gross_paise rate

-- `step === 0 ? afterDiscount : fromBigInt(roundToNearestStep(…))`
unfoldable pub round_off : ℕ → Paise → Throws Paise
round_off size after_discount =
    if size == 0
    then ok after_discount
    else (do from_bigint (← round_to_nearest_step after_discount (pos size)))

unfoldable pub compute_bill_totals : List LineInput → Paise → RoundingPolicy → Throws BillTotals
compute_bill_totals lines bill_discount policy = do
  resolved ← map_result compute_line lines
  subtotal ← add_paise (map (λ l. l.net_paise) resolved)
  line_discount ← add_paise (map (λ l. l.discount_paise) resolved)
  after_discount ← sub_paise subtotal bill_discount
  total ← round_off (rounding_step policy) after_discount
  adjustment ← sub_paise total after_discount
  ok (record {
    subtotal_paise = subtotal;
    line_discount_paise = line_discount;
    bill_discount_paise = bill_discount;
    rounding_adjustment_paise = adjustment;
    total_paise = total;
  })

-- `net > 0 ? net : 0`, the part of the amount that is above zero
abbrev pub positive_weight : Paise → ℕ
positive_weight = pos_part

unfoldable pub distribute_bill_discount : Paise → List Paise → Throws (List Paise)
distribute_bill_discount bill_discount [] = ok []
distribute_bill_discount bill_discount (net ∷ nets) =
    let weights = map positive_weight (net ∷ nets) in
    if eqb_ℤ bill_discount (pos 0)
    then ok (map (λ _. zero_paise) (net ∷ nets))
    else if sum_ℕ weights == 0
    then ok (map (λ _. zero_paise) (net ∷ nets))
    else allocate bill_discount (map as_weight weights)

unfoldable pub credit_portion : Paise → Paise → Throws Paise
credit_portion total_paise paid_paise = sub_paise total_paise paid_paise
