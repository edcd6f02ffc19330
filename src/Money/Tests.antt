-- ===== src/Money/Tests.antt =====
-- Runs of packages/money on the figures of its own tests.
use dukaano.Base.{
  All, List, [], arith, err, length, map, map_result, none, ok, refl, some, ℕ, ◌*◌, ◌∷◌, ◌≡◌, ◌≤◌,
  ◌⊎◌,
}
use dukaano.Base.Int.{ltb_ℤ, magnitude, neg, negsuc, pos, ℤ, ◌*ℤ◌, ◌+ℤ◌, ◌-ℤ◌, ◌/ℤ◌}
use dukaano.Money.Allocate.{allocate, as_weight, check_weight, share_out, sum_ℕ}
use dukaano.Money.Allocate.Exact.{IsWeight, allocate_exact, allocate-IsQuota}
use dukaano.Money.Allocate.Quota.{IsQuota}
use dukaano.Money.Arithmetic.{add_paise, sub_paise}
use dukaano.Money.Arithmetic.Sums.{sum}
use dukaano.Money.Brand.{IsSafe, Paise, from_bigint}
use dukaano.Money.Errors.{Exception, Number, bad_weight, invalid_allocation}
use dukaano.Money.Line.{
  BillTotals, LineInput, LineTotals, compute_bill_totals, compute_line, credit_portion,
  distribute_bill_discount, line_total, nearest_rupee, round_off, rounding_step,
}
use dukaano.Money.Line.Bill.{compute_bill_totals_identity}
use dukaano.Money.Line.Reverse.{compute_bill_totals-neg, negate_bill, negate_line}
use dukaano.Money.Round.{div_round_half_away_from_zero, round_to_nearest_step, with_sign}

thirds :
    allocate (pos 1000) (map as_weight (1 ∷ 1 ∷ 1 ∷ [])) ≡ ok (pos 334 ∷ pos 333 ∷ pos 333 ∷ [])
unfolding allocate check_weight share_out ◌-ℤ◌ from_bigint neg
thirds = refl

refund :
    allocate (negsuc 99) (map as_weight (1 ∷ 0 ∷ 2 ∷ [])) ≡ ok (negsuc 32 ∷ pos 0 ∷ negsuc 66 ∷ [])
unfolding allocate check_weight share_out from_bigint neg
refund = refl

rice : line_total (pos 1050) (pos 333) ≡ ok (pos 350)
unfolding line_total div_round_half_away_from_zero from_bigint ◌*ℤ◌ ◌/ℤ◌ ◌+ℤ◌ neg
rice = refl

half_away : div_round_half_away_from_zero (negsuc 4) (pos 2) ≡ ok (negsuc 2)
unfolding div_round_half_away_from_zero neg ◌/ℤ◌ ◌+ℤ◌ ◌*ℤ◌
half_away = refl

abbrev basket : List LineInput
basket =
    record { unit_price_paise = pos 1050; qty_milli = pos 1500; discount_paise = none }
    ∷ record { unit_price_paise = pos 999; qty_milli = pos 2000; discount_paise = some (pos 98) }
    ∷ []

abbrev basket_totals : BillTotals
basket_totals = record {
  subtotal_paise = pos 3475;
  line_discount_paise = pos 98;
  bill_discount_paise = pos 100;
  rounding_adjustment_paise = pos 25;
  total_paise = pos 3400;
}

basket_bill : compute_bill_totals basket (pos 100) nearest_rupee ≡ ok basket_totals
unfolding compute_bill_totals compute_line line_total div_round_half_away_from_zero from_bigint ◌*ℤ◌
    ◌/ℤ◌ ◌+ℤ◌ neg sub_paise ◌-ℤ◌ add_paise round_off round_to_nearest_step
basket_bill = refl

few : add_paise (pos 5 ∷ negsuc 2 ∷ []) ≡ ok (pos 2)
unfolding add_paise from_bigint ◌+ℤ◌ neg
few = refl

fewer : add_paise (pos 40 ∷ []) ≡ ok (pos 40)
unfolding add_paise from_bigint ◌+ℤ◌ neg
fewer = refl

less : sub_paise (pos 5) (pos 8) ≡ ok (negsuc 2)
unfolding sub_paise from_bigint ◌-ℤ◌ neg
less = refl

abbrev three : List ℕ
three = 1 ∷ 1 ∷ 1 ∷ []

three-IsWeight : All IsWeight three
three-IsWeight = (ground arith, (ground arith, (ground arith, tt)))

allocate_exact_example :
    (shares : List Paise) × (allocate (pos 1000) (map as_weight three) ≡ ok shares)
    × (sum shares ≡ pos 1000)
    × (length shares ≡ length three)
allocate_exact_example =
    allocate_exact (pos 1000) three (ground arith) three-IsWeight (ground arith)

allocate-IsQuota_example :
    IsQuota (magnitude (pos 1000)) (sum_ℕ three) 1 (magnitude (pos 334))
    × (pos 334 ≡ with_sign (ltb_ℤ (pos 1000) (pos 0)) (pos (magnitude (pos 334))))
allocate-IsQuota_example =
    allocate-IsQuota (pos 1000) three 0 (ground arith) three-IsWeight (ground arith) thirds refl
      refl

abbrev fraction_refused : Exception
fraction_refused = invalid_allocation (bad_weight Number.other)

bad : check_weight Number.other ≡ err fraction_refused
unfolding check_weight
bad = refl

compute_bill_totals_identity_example :
    (basket_totals.subtotal_paise -ℤ basket_totals.bill_discount_paise
        +ℤ basket_totals.rounding_adjustment_paise
      ≡ basket_totals.total_paise)
    × (basket_totals.bill_discount_paise ≡ pos 100)
    × ((resolved : List LineTotals) × (map_result compute_line basket ≡ ok resolved)
        × (basket_totals.subtotal_paise ≡ sum (map (λ l. l.net_paise) resolved))
        × (basket_totals.line_discount_paise ≡ sum (map (λ l. l.discount_paise) resolved)))
    × (magnitude basket_totals.rounding_adjustment_paise * 2 ≤ rounding_step nearest_rupee)
    × ((rounding_step nearest_rupee ≡ 0)
        ⊎ ((q : ℤ) × (basket_totals.total_paise ≡ q *ℤ pos (rounding_step nearest_rupee))))
compute_bill_totals_identity_example =
    compute_bill_totals_identity basket (pos 100) nearest_rupee basket_bill

compute_bill_totals-neg_example :
    compute_bill_totals (map negate_line basket) (neg (pos 100)) nearest_rupee
    ≡ ok (negate_bill basket_totals)
compute_bill_totals-neg_example = compute_bill_totals-neg basket (pos 100) nearest_rupee basket_bill

abbrev nets : List Paise
nets = pos 300 ∷ negsuc 49 ∷ pos 100 ∷ []

nets-IsSafe : All IsSafe nets
nets-IsSafe = (ground arith, (ground arith, (ground arith, tt)))

nets_discount : distribute_bill_discount (pos 30) nets ≡ ok (pos 23 ∷ pos 0 ∷ pos 7 ∷ [])
unfolding distribute_bill_discount allocate check_weight share_out ◌-ℤ◌ from_bigint neg
nets_discount = refl

credit_left : credit_portion (pos 3400) (pos 2000) ≡ ok (pos 1400)
unfolding credit_portion sub_paise from_bigint ◌-ℤ◌ neg
credit_left = refl
