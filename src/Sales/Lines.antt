-- ===== src/Sales/Lines.antt =====
-- The lines of a bill as they are stored, `create` of apps/api/src/modules/sales/sales.service.ts.
use dukaano.Base.{
  >>=-eq-ok, All, List, [], ap, arith, map, map_result, map_result-cons, ok, ok-injective, or_else,
  refl, sym, ℕ, ◌*◌, ◌+◌, ◌/◌, ◌>>=◌, ◌∙◌, ◌∷◌, ◌≡◌,
}
use dukaano.Base.Int.{int_laws, negsuc, pos, ℤ, ◌*ℤ◌, ◌+ℤ◌, ◌-ℤ◌, ◌/ℤ◌, ◌≤ℤ◌}
use dukaano.Base.Mul.{pos-*ℤ}
use dukaano.Base.Sort.{total_by}
use dukaano.Money.Arithmetic.Sums.{sum}
use dukaano.Money.Brand.{Paise, as_milli-ok, as_paise, as_paise-ok}
use dukaano.Money.Errors.{Number, Throws}
use dukaano.Money.Line.{
  BillTotals, LineInput, LineTotals, compute_bill_totals, compute_line, line_total,
}
use dukaano.Money.Line.Bill.{
  add_paise-ok, compute_bill_totals-IsBill, line_total-eq-ok_iff, sub_paise-ok,
}
use dukaano.Money.Round.Nearest.{IsNearest, IsNearest-pos, half_up}
use dukaano.Sales.{Draws, SaleItemRow, Till}
use dukaano.Sales.Create.{
  CreateSaleInput, SaleItemInput, bill_of, gross_of, item_rows, line_input, policy_of,
}
use dukaano.Sales.Keeps.{item_rows-cons}
use mathlib.Core.Path.{ap₂, subst}

half_up_thousandth : (n : ℕ) → half_up n 1000 ≡ (n + 500) / 1000
half_up_thousandth n = omega arith

-- On amounts that are not negative the price that is worked out in place is the money package's.
gross-line_total :
    (price qty r : ℤ)
    → pos 0 ≤ℤ price
    → pos 0 ≤ℤ qty
    → line_total price qty ≡ ok r
    → (price *ℤ qty +ℤ pos 500) /ℤ pos 1000 ≡ r
unfolding ◌/ℤ◌
gross-line_total (pos p) (pos q) r hp hq e =
    let (near, _) = (line_total-eq-ok_iff (pos p) (pos q) r).0 e in
    let product = pos-*ℤ p q in
    let sum : pos (p * q) +ℤ pos 500 ≡ pos (p * q + 500) = omega int_laws in
    let whole_part : (pos p *ℤ pos q +ℤ pos 500) /ℤ pos 1000 ≡ pos ((p * q + 500) / 1000) =
      rw (product, sum) (ap (λ x. pos (x / 1000)) (omega arith)) in
    let nearest : r ≡ pos (half_up (p * q) 1000) =
      IsNearest-pos (p * q) 1000 r (omega arith) (subst (λ n. IsNearest n 1000 r) product near) in
    whole_part ∙ ap pos (sym (half_up_thousandth (p * q))) ∙ sym nearest
gross-line_total (negsuc p) qty r hp hq e = absurd (omega arith)
gross-line_total (pos p) (negsuc q) r hp hq e = absurd (omega arith)

abbrev pub IsPriced : SaleItemInput → Type 0
IsPriced i = (pos 0 ≤ℤ i.unit_price_paise) × (pos 0 ≤ℤ i.qty_milli)

-- One line, from the input through the money package and through the stored row.
line_of_item :
    (i : SaleItemInput) {line : LineInput} {l : LineTotals}
    → IsPriced i
    → line_input i ≡ ok line
    → compute_line line ≡ ok l
    → (gross_of i -ℤ or_else i.discount_paise (pos 0) ≡ l.net_paise)
      × (or_else i.discount_paise (pos 0) ≡ l.discount_paise)
unfolding gross_of compute_line
line_of_item i {line} {l} (hp, hq) e c =
    let d = or_else i.discount_paise (pos 0) in
    let (price, price_ok, e1) = >>=-eq-ok _ _ e in
    let (qty, qty_ok, e2) = >>=-eq-ok _ _ e1 in
    let (discount, discount_ok, e3) = >>=-eq-ok _ _ e2 in
    let price_is = as_paise-ok i.unit_price_paise price_ok in
    let qty_is = as_milli-ok i.qty_milli qty_ok in
    let discount_is = as_paise-ok d discount_ok in
    let computed = subst (λ x. compute_line x ≡ ok l) (sym (ok-injective e3)) c in
    let (gross, gross_ok, e4) = >>=-eq-ok (line_total price qty) _ computed in
    let (net, net_ok, e5) = >>=-eq-ok _ _ e4 in
    let net_is = sub_paise-ok gross discount net_ok in
    let l_is = ok-injective e5 in
    let own_gross =
      gross-line_total i.unit_price_paise i.qty_milli gross hp hq
        (ap₂ (λ a b. line_total a b) (sym price_is) (sym qty_is) ∙ gross_ok) in
    (
      ap₂ (λ a b. a -ℤ b) own_gross (sym discount_is)
          ∙ sym net_is
          ∙ ap (λ (x : LineTotals). x.net_paise) l_is,
      sym discount_is ∙ ap (λ (x : LineTotals). x.discount_paise) l_is,
    )

lines_of_items :
    (draws : Draws) (id k : ℕ) (items : List SaleItemInput) (t : Till) {lines : List LineInput}
    {resolved : List LineTotals} {rows : List SaleItemRow}
    → All IsPriced items
    → map_result line_input items ≡ ok lines
    → map_result compute_line lines ≡ ok resolved
    → item_rows draws id k items t ≡ ok rows
    → (total_by (λ (r : SaleItemRow). r.line_total_paise) rows
        ≡ sum (map (λ (l : LineTotals). l.net_paise) resolved))
      × (total_by (λ (r : SaleItemRow). r.discount_paise) rows
          ≡ sum (map (λ (l : LineTotals). l.discount_paise) resolved))
unfolding item_rows
lines_of_items draws id k [] t {lines} {resolved} {rows} h e1 e2 e3 =
    let none_resolved : [] ≡ resolved =
      ok-injective (ap (map_result compute_line) (ok-injective e1) ∙ e2) in
    rw (sym (ok-injective e3), sym none_resolved) (refl, refl)
lines_of_items draws id k (i ∷ items) t {lines} {resolved} {rows} h e1 e2 e3 =
    let (line, lines', line_ok, lines_ok, lines_are) = map_result-cons line_input i items e1 in
    let (l, resolved', l_ok, resolved_ok, resolved_are) =
      map_result-cons compute_line line lines' (ap (map_result compute_line) lines_are ∙ e2) in
    let (product, rest, rest_ok, rows_are) = item_rows-cons draws id k i items t e3 in
    let (net, discount) = line_of_item i h.0 line_ok l_ok in
    let (nets, discounts) =
      lines_of_items draws id (k + 1) items t h.1 lines_ok resolved_ok rest_ok in
    rw (sym rows_are, sym resolved_are)
      (ap₂ (λ a b. a +ℤ b) net nets, ap₂ (λ a b. a +ℤ b) discount discounts)

-- The stored lines add up to the bill: their totals to the subtotal, their discounts to the line discount,
-- for prices and quantities that are not negative.
pub item_rows-subtotal :
    (draws : Draws) (id : ℕ) (input : CreateSaleInput) (t : Till) {totals : BillTotals}
    {rows : List SaleItemRow}
    → All IsPriced input.items
    → bill_of t.settings input ≡ ok totals
    → item_rows draws id 0 input.items t ≡ ok rows
    → (total_by (λ (r : SaleItemRow). r.line_total_paise) rows ≡ totals.subtotal_paise)
      × (total_by (λ (r : SaleItemRow). r.discount_paise) rows ≡ totals.line_discount_paise)
unfolding bill_of
item_rows-subtotal draws id input t {totals} {rows} h e e_rows =
    let Out = Throws BillTotals in
    let finish = λ (lines : List LineInput) (discount : Paise).
      let r : Out = compute_bill_totals lines discount (policy_of t.settings) in r in
    let rest = λ (lines : List LineInput).
      let r : Out =
        as_paise (Number.whole (or_else input.bill_discount_paise (pos 0))) >>= finish lines in
      r in
    let (lines, lines_ok, e1) = >>=-eq-ok (map_result line_input input.items) rest e in
    let (discount, _, e2) =
      >>=-eq-ok (as_paise (Number.whole (or_else input.bill_discount_paise (pos 0)))) (finish lines)
        e1 in
    let bill = compute_bill_totals-IsBill lines discount (policy_of t.settings) e2 in
    let (nets, discounts) =
      lines_of_items draws id 0 input.items t h lines_ok bill.lines_ok e_rows in
    (
      nets
          ∙ sym
              (add_paise-ok (map (λ (l : LineTotals). l.net_paise) bill.resolved) bill.subtotal_ok),
      discounts
          ∙ sym (
              add_paise-ok (map (λ (l : LineTotals). l.discount_paise) bill.resolved)
                bill.line_discount_ok),
    )
