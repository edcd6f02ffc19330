-- ===== src/Money/Line/Bill.antt =====
-- The identity of a bill, packages/money/src/line.ts.
use dukaano.Base.{
  >>=-eq-ok, List, arith, false, inl, inr, map, map_result, ok, ok-injective, refl, suc, sym, zero,
  ℕ, ◌*◌, ◌==◌, ◌>>=◌, ◌↔◌, ◌∙◌, ◌≡◌, ◌≤◌, ◌⊎◌,
}
use dukaano.Base.Int.{int_laws, magnitude, pos, ℤ, ◌*ℤ◌, ◌+ℤ◌, ◌-ℤ◌}
use dukaano.Money.Arithmetic.{add_paise, sub_paise}
use dukaano.Money.Arithmetic.Sums.{add_paise-sum, sum}
use dukaano.Money.Brand.{
  IsSafe, Paise, from_bigint, from_bigint-eq-ok, from_bigint_safe, milli_per_unit,
}
use dukaano.Money.Line.{
  BillTotals, LineInput, LineTotals, RoundingPolicy, compute_bill_totals, compute_line, line_total,
  round_off, rounding_step,
}
use dukaano.Money.Round.{div_round_half_away_from_zero, round_to_nearest_step}
use dukaano.Money.Round.Nearest.{IsNearest, div_round-eq-ok_iff}
use dukaano.Money.Round.Step.{round_to_nearest_step-IsStepNear}
use mathlib.Core.Path.{subst}

-- A line's price is the exact product of price and quantity, rounded once to the nearest paisa with
-- halves away from zero; it is returned exactly when it is in the safe range.
pub line_total-eq-ok_iff :
    (unit_price qty r : ℤ)
    → (line_total unit_price qty ≡ ok r)
      ↔ (IsNearest (unit_price *ℤ qty) milli_per_unit r × IsSafe r)
unfolding line_total
line_total-eq-ok_iff unit_price qty r = (
  (λ e.
      let (q, divided, narrowed) =
        >>=-eq-ok (div_round_half_away_from_zero (unit_price *ℤ qty) (pos milli_per_unit))
          from_bigint e in
      let (same, safe) = from_bigint-eq-ok q r narrowed in
      (
        rw same
            ((div_round-eq-ok_iff (unit_price *ℤ qty) milli_per_unit q (omega arith)).0 divided),
        rw same safe,
      )),
  (λ (near, safe).
      rw ((div_round-eq-ok_iff (unit_price *ℤ qty) milli_per_unit r (omega arith)).1 near)
        (from_bigint_safe r safe)),
)

-- What a bill that was computed has gone through.
pub record IsBill (lines : List LineInput) (discount : Paise) (policy : RoundingPolicy)
    (b : BillTotals) : Type 0 where
  pub resolved : List LineTotals
  pub after_discount : Paise
  pub lines_ok : map_result compute_line lines ≡ ok resolved
  pub subtotal_ok : add_paise (map (λ l. l.net_paise) resolved) ≡ ok b.subtotal_paise
  pub line_discount_ok : add_paise (map (λ l. l.discount_paise) resolved) ≡ ok b.line_discount_paise
  pub bill_discount_is : b.bill_discount_paise ≡ discount
  pub after_ok : sub_paise b.subtotal_paise discount ≡ ok after_discount
  pub total_ok : round_off (rounding_step policy) after_discount ≡ ok b.total_paise
  pub adjustment_ok : sub_paise b.total_paise after_discount ≡ ok b.rounding_adjustment_paise

pub add_paise-ok : (values : List Paise) {t : Paise} → add_paise values ≡ ok t → t ≡ sum values
add_paise-ok values {t} e = (from_bigint-eq-ok (sum values) t (sym (add_paise-sum values) ∙ e)).0

pub sub_paise-ok : (a b : Paise) {t : Paise} → sub_paise a b ≡ ok t → t ≡ a -ℤ b
unfolding sub_paise
sub_paise-ok a b {t} e = (from_bigint-eq-ok (a -ℤ b) t e).0

pub compute_bill_totals-IsBill :
    (lines : List LineInput) (discount : Paise) (policy : RoundingPolicy) {b : BillTotals}
    → compute_bill_totals lines discount policy ≡ ok b
    → IsBill lines discount policy b
unfolding compute_bill_totals
compute_bill_totals-IsBill lines discount policy {b} e =
    let (resolved, e0, r0) = >>=-eq-ok (map_result compute_line lines) _ e in
    let (subtotal, e1, r1) = >>=-eq-ok (add_paise (map (λ l. l.net_paise) resolved)) _ r0 in
    let (line_discount, e2, r2) =
      >>=-eq-ok (add_paise (map (λ l. l.discount_paise) resolved)) _ r1 in
    let (after, e3, r3) = >>=-eq-ok (sub_paise subtotal discount) _ r2 in
    let (total, e4, r4) = >>=-eq-ok (round_off (rounding_step policy) after) _ r3 in
    let (adjustment, e5, r5) = >>=-eq-ok (sub_paise total after) _ r4 in
    subst (IsBill lines discount policy) (ok-injective r5) (record {
      resolved = resolved;
      after_discount = after;
      lines_ok = e0;
      subtotal_ok = e1;
      line_discount_ok = e2;
      bill_discount_is = refl;
      after_ok = e3;
      total_ok = e4;
      adjustment_ok = e5;
    })

pub round_off-suc :
    (n : ℕ) (a : Paise)
    → round_off (suc n) a ≡ (round_to_nearest_step a (pos (suc n)) >>= from_bigint)
unfolding round_off
round_off-suc n a = let some_step : (suc n == 0) ≡ false = ground arith in rw some_step

-- The round-off of a policy moves the amount by half a step at most, to a multiple of the step, and
-- not at all without a step.
pub round_off_near :
    (size : ℕ) (a t : Paise)
    → round_off size a ≡ ok t
    → (magnitude (t -ℤ a) * 2 ≤ size) × ((size ≡ 0) ⊎ ((q : ℤ) × (t ≡ q *ℤ pos size)))
unfolding round_off
round_off_near zero a t e = (rw (← ok-injective e) (omega int_laws), inl refl)
round_off_near (suc n) a t e =
    let (r, stepped, narrowed) =
      >>=-eq-ok (round_to_nearest_step a (pos (suc n))) from_bigint (sym (round_off-suc n a) ∙ e) in
    let near = round_to_nearest_step-IsStepNear a (suc n) (omega arith) stepped in
    let same = (from_bigint-eq-ok r t narrowed).0 in
    (rw same near.near, inr (near.quotient, same ∙ near.multiple))

-- In every bill that is computed the subtotal less the bill's discount plus the rounding adjustment
-- is the total. The subtotal is the sum of the lines' net amounts and the line discount is the sum
-- of theirs. The adjustment is half a rounding step at most, and the total is a multiple of the step,
-- unless the policy does not round.
pub compute_bill_totals_identity :
    (lines : List LineInput) (discount : Paise) (policy : RoundingPolicy) {b : BillTotals}
    → compute_bill_totals lines discount policy ≡ ok b
    → (b.subtotal_paise -ℤ b.bill_discount_paise +ℤ b.rounding_adjustment_paise ≡ b.total_paise)
      × (b.bill_discount_paise ≡ discount)
      × ((resolved : List LineTotals) × (map_result compute_line lines ≡ ok resolved)
          × (b.subtotal_paise ≡ sum (map (λ l. l.net_paise) resolved))
          × (b.line_discount_paise ≡ sum (map (λ l. l.discount_paise) resolved)))
      × (magnitude b.rounding_adjustment_paise * 2 ≤ rounding_step policy)
      × ((rounding_step policy ≡ 0) ⊎ ((q : ℤ) × (b.total_paise ≡ q *ℤ pos (rounding_step policy))))
compute_bill_totals_identity lines discount policy {b} e =
    let bill = compute_bill_totals-IsBill lines discount policy e in
    let near =
      round_off_near (rounding_step policy) bill.after_discount b.total_paise bill.total_ok in
    let after_is = sub_paise-ok b.subtotal_paise discount bill.after_ok in
    let adjustment_is = sub_paise-ok b.total_paise bill.after_discount bill.adjustment_ok in
    (
      rw (adjustment_is, bill.bill_discount_is, after_is) (omega int_laws),
      bill.bill_discount_is,
      (
        bill.resolved,
        bill.lines_ok,
        add_paise-ok (map (λ l. l.net_paise) bill.resolved) bill.subtotal_ok,
        add_paise-ok (map (λ l. l.discount_paise) bill.resolved) bill.line_discount_ok,
      ),
      rw adjustment_is near.0,
      near.1,
    )
