-- ===== src/Money/Line/Reverse.antt =====
-- A cancelled bill, packages/money/src/line.ts: the quantities and discounts with their signs changed.
use mathlib.Core.Option
use dukaano.Base.{
  >>=-eq-ok, List, Option, [], ap, map, map_result, none, ok, ok-injective, or_else, refl, some,
  suc, sym, zero, ℕ, ◌∙◌, ◌∷◌, ◌≡◌,
}
use dukaano.Base.Int.{magnitude-neg, neg, neg_sub, pos, ℤ, ◌*ℤ◌, ◌-ℤ◌}
use dukaano.Base.Mul.{*ℤ-neg}
use dukaano.Money.Arithmetic.{add_paise, sub_paise}
use dukaano.Money.Arithmetic.Sums.{add_paise-sum, sum, sum-neg}
use dukaano.Money.Brand.{
  Paise, from_bigint, from_bigint-eq-ok, from_bigint_safe, milli_per_unit, zero_paise,
}
use dukaano.Money.Line.{
  BillTotals, LineInput, LineTotals, RoundingPolicy, compute_bill_totals, compute_line, line_total,
  round_off, rounding_step,
}
use dukaano.Money.Line.Bill.{compute_bill_totals-IsBill, round_off-suc}
use dukaano.Money.Round.{div_round_half_away_from_zero, round_to_nearest_step}
use dukaano.Money.Round.Nearest.{div_round-neg}
use dukaano.Money.Round.Step.{round_to_nearest_step-neg}

abbrev pub negate_line : LineInput → LineInput
negate_line line = record line {
  qty_milli = neg line.qty_milli;
  discount_paise = Option.map neg line.discount_paise;
}

abbrev negate_totals : LineTotals → LineTotals
negate_totals t = record {
  gross_paise = neg t.gross_paise;
  discount_paise = neg t.discount_paise;
  net_paise = neg t.net_paise;
}

abbrev pub negate_bill : BillTotals → BillTotals
negate_bill b = record {
  subtotal_paise = neg b.subtotal_paise;
  line_discount_paise = neg b.line_discount_paise;
  bill_discount_paise = neg b.bill_discount_paise;
  rounding_adjustment_paise = neg b.rounding_adjustment_paise;
  total_paise = neg b.total_paise;
}

-- Each operation takes the negated arguments to the negated result.
from_bigint-neg : (a : ℤ) {r : ℤ} → from_bigint a ≡ ok r → from_bigint (neg a) ≡ ok (neg r)
from_bigint-neg a {r} e =
    let (same, safe) = from_bigint-eq-ok a r e in
    from_bigint_safe (neg a) (rw (magnitude-neg a) safe) ∙ ap ok (ap neg (sym same))

sub_paise-neg :
    (a b : Paise) {r : Paise} → sub_paise a b ≡ ok r → sub_paise (neg a) (neg b) ≡ ok (neg r)
unfolding sub_paise
sub_paise-neg a b e = rw (← neg_sub a b) (from_bigint-neg (a -ℤ b) e)

add_paise-neg :
    (values : List Paise) {r : Paise}
    → add_paise values ≡ ok r
    → add_paise (map neg values) ≡ ok (neg r)
add_paise-neg values e =
    add_paise-sum (map neg values)
    ∙ ap from_bigint (sum-neg values)
    ∙ from_bigint-neg (sum values) (sym (add_paise-sum values) ∙ e)

line_total-neg :
    (unit_price qty : ℤ) {r : Paise}
    → line_total unit_price qty ≡ ok r
    → line_total unit_price (neg qty) ≡ ok (neg r)
unfolding line_total
line_total-neg unit_price qty {r} e =
    let (q, divided, narrowed) =
      >>=-eq-ok (div_round_half_away_from_zero (unit_price *ℤ qty) (pos milli_per_unit)) from_bigint
        e in
    rw (*ℤ-neg unit_price qty, div_round-neg (unit_price *ℤ qty) (pos milli_per_unit), divided)
      (from_bigint-neg q narrowed)

or_else-neg :
    (o : Option Paise) → or_else (Option.map neg o) zero_paise ≡ neg (or_else o zero_paise)
unfolding neg
or_else-neg none = refl
or_else-neg (some d) = refl

compute_line-neg :
    (line : LineInput) {t : LineTotals}
    → compute_line line ≡ ok t
    → compute_line (negate_line line) ≡ ok (negate_totals t)
unfolding compute_line
compute_line-neg line {t} e =
    let d = or_else line.discount_paise zero_paise in
    let (gross, e0, r0) = >>=-eq-ok (line_total line.unit_price_paise line.qty_milli) _ e in
    let (net, e1, r1) = >>=-eq-ok (sub_paise gross d) _ r0 in
    rw
      (
        line_total-neg line.unit_price_paise line.qty_milli e0,
        or_else-neg line.discount_paise,
        sub_paise-neg gross d e1,
      )
      (ap (λ t. ok (negate_totals t)) (ok-injective r1))

round_off-neg :
    (size : ℕ) (a : Paise) {t : Paise}
    → round_off size a ≡ ok t
    → round_off size (neg a) ≡ ok (neg t)
unfolding round_off
round_off-neg zero a {t} e = ap (λ x. ok (neg x)) (ok-injective e)
round_off-neg (suc n) a {t} e =
    let (r, stepped, narrowed) =
      >>=-eq-ok (round_to_nearest_step a (pos (suc n))) from_bigint (sym (round_off-suc n a) ∙ e) in
    round_off-suc n (neg a)
    ∙ rw (round_to_nearest_step-neg a (pos (suc n)), stepped) (from_bigint-neg r narrowed)

lines-neg :
    (lines : List LineInput) {ts : List LineTotals}
    → map_result compute_line lines ≡ ok ts
    → map_result compute_line (map negate_line lines) ≡ ok (map negate_totals ts)
lines-neg [] e = ap (λ ts. ok (map negate_totals ts)) (ok-injective e)
lines-neg (l ∷ ls) e =
    let (x, e0, r0) = >>=-eq-ok (compute_line l) _ e in
    let (xs, e1, r1) = >>=-eq-ok (map_result compute_line ls) _ r0 in
    rw (compute_line-neg l e0, lines-neg ls e1)
      (ap (λ ts. ok (map negate_totals ts)) (ok-injective r1))

nets-neg :
    (ts : List LineTotals)
    → map (λ l. l.net_paise) (map negate_totals ts) ≡ map neg (map (λ l. l.net_paise) ts)
nets-neg [] = refl
nets-neg (t ∷ ts) = ap (◌∷◌ (neg t.net_paise)) (nets-neg ts)

discounts-neg :
    (ts : List LineTotals)
    → map (λ l. l.discount_paise) (map negate_totals ts) ≡ map neg (map (λ l. l.discount_paise) ts)
discounts-neg [] = refl
discounts-neg (t ∷ ts) = ap (◌∷◌ (neg t.discount_paise)) (discounts-neg ts)

-- Cancelling a bill reverses it to exactly zero: if the bill was computed, then the bill of the same
-- lines with negated quantities and discounts, and the negated bill discount, is computed too, and each of its amounts is the negated one.
pub compute_bill_totals-neg :
    (lines : List LineInput) (discount : Paise) (policy : RoundingPolicy) {b : BillTotals}
    → compute_bill_totals lines discount policy ≡ ok b
    → compute_bill_totals (map negate_line lines) (neg discount) policy ≡ ok (negate_bill b)
unfolding compute_bill_totals
compute_bill_totals-neg lines discount policy {b} e =
    let bill = compute_bill_totals-IsBill lines discount policy e in
    let ts = bill.resolved in
    rw (
      lines-neg lines bill.lines_ok,
      nets-neg ts,
      add_paise-neg (map (λ l. l.net_paise) ts) bill.subtotal_ok,
      discounts-neg ts,
      add_paise-neg (map (λ l. l.discount_paise) ts) bill.line_discount_ok,
      sub_paise-neg b.subtotal_paise discount bill.after_ok,
      round_off-neg (rounding_step policy) bill.after_discount bill.total_ok,
      sub_paise-neg b.total_paise bill.after_discount bill.adjustment_ok,
      bill.bill_discount_is,
    )
