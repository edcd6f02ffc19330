-- ===== src/Sales/Returns/Returned.antt =====
-- What `create` of apps/api/src/modules/sales/returns.service.ts leaves behind.
use dukaano.Base.{
  >>=-eq-ok, List, ap, inl, inr, none, ok, or_else, refl, some, sym, throw_if-ok, ℕ, ◌&&◌, ◌∙◌, ◌≡◌,
  ◌⊎◌,
}
use dukaano.Base.Int.{ltb_ℤ, ltb_ℤ-ge, pos, ℤ, ◌-ℤ◌, ◌≤ℤ◌}
use dukaano.Khata.{Context, is_none}
use dukaano.Sales.{
  Draws, SaleRow, SaleStatus, Till, cancelled, completed, customer_required, find_sale, items_of,
  no_user, refund_exceeds_paid,
}
use dukaano.Sales.Keeps.{find_sale_id}
use dukaano.Sales.Returns.{
  CreateReturnInput, ResolvedLine, ReturnView, find_return, max_cash_refund, returned_qty,
  total_lines,
}
use dukaano.Sales.Returns.Give.{
  create_return, for_sale, resolve_lines, return_number_for, return_of_sale, split_refund,
  unless_cancelled, unless_returned, write_return,
}
use dukaano.Sales.Returns.Rows.{Refund}
use dukaano.Sales.Returns.Tables.{IsReturned, write_return-IsReturned}
use mathlib.Core.Path.{subst}

SaleStatus-cases : (status : SaleStatus) → (status ≡ completed) ⊎ (status ≡ cancelled)
SaleStatus-cases completed = inl refl
SaleStatus-cases cancelled = inr refl

module _ (net_value : ℤ → ℤ → ℤ → ℤ) (business_date_for : ℤ → ℤ) (locale_compare : ℕ → ℕ → ℤ) where
  -- What a return has resolved and decided before its rows are written.
  abbrev pub Given :
      Context → Draws → ℕ → SaleRow → CreateReturnInput → Till → ReturnView × Till → Type 0
  Given ctx draws id s input t done =
      (refund : Refund) × (refund.id ≡ id)
      × (resolve_lines net_value (items_of s.id t.items)
            (λ item. returned_qty s.id item t.returns t.return_items) input
          ≡ ok refund.lines)
      × (refund.cash ≤ℤ max_cash_refund s refund.lines)
      × (write_return net_value business_date_for locale_compare ctx draws s input refund t
          ≡ ok done)

  split_refund-Given :
      (ctx : Context) (draws : Draws) (id : ℕ) (s : SaleRow) (input : CreateReturnInput)
      (lines : List ResolvedLine) (t : Till) {done : ReturnView × Till}
      → split_refund net_value business_date_for locale_compare ctx draws id s input lines t
        ≡ ok done
      → (refund : Refund) × (refund.id ≡ id)
        × (refund.lines ≡ lines)
        × (refund.cash ≤ℤ max_cash_refund s refund.lines)
        × (write_return net_value business_date_for locale_compare ctx draws s input refund t
            ≡ ok done)
  unfolding split_refund
  split_refund-Given ctx draws id s input lines t e =
      let most = max_cash_refund s lines in
      let cash = or_else input.refund_cash_paise most in
      let (bounded, e1) = throw_if-ok (ltb_ℤ most cash) (refund_exceeds_paid most cash) _ e in
      let (_, e2) =
        throw_if-ok (ltb_ℤ (pos 0) (total_lines lines -ℤ cash) && is_none s.customer_id)
          customer_required _ e1 in
      let (number, _, e3) = >>=-eq-ok (return_number_for t) _ e2 in
      (_, refl, refl, ltb_ℤ-ge most cash bounded, e3)

  pub return_of_sale-Given :
      (ctx : Context) (draws : Draws) (id : ℕ) (s : SaleRow) (input : CreateReturnInput) (t : Till)
      {done : ReturnView × Till}
      → return_of_sale net_value business_date_for locale_compare ctx draws id s input t ≡ ok done
      → Given ctx draws id s input t done
  unfolding return_of_sale
  return_of_sale-Given ctx draws id s input t e =
      let (lines, lines_ok, e1) = >>=-eq-ok _ _ e in
      let (refund, own, same, bounded, written) =
        split_refund-Given ctx draws id s input lines t e1 in
      (refund, own, lines_ok ∙ ap ok (sym same), bounded, written)

  -- A return that goes through is one of a bill that was not cancelled.
  pub create_return-open :
      (ctx : Context) (draws : Draws) (sale_id : ℕ) (input : CreateReturnInput) (t : Till)
      (s : SaleRow) {done : ReturnView × Till}
      → find_return (or_else input.id draws.document_id) t.returns ≡ none
      → find_sale sale_id t.sales ≡ some s
      → create_return net_value business_date_for locale_compare ctx draws sale_id input t ≡ ok done
      → (s.status ≡ completed)
        × (return_of_sale net_value business_date_for locale_compare ctx draws
              (or_else input.id draws.document_id)
              s
              input
              t
            ≡ ok done)
  unfolding create_return
  create_return-open ctx draws sale_id input t s {done} absent found e =
      let id = or_else input.id draws.document_id in
      let unless =
        unless_returned net_value business_date_for locale_compare ctx draws id sale_id input t in
      let for_found =
        for_sale net_value business_date_for locale_compare ctx draws id sale_id input t in
      let by = unless_cancelled net_value business_date_for locale_compare ctx draws id input t s in
      let (_, e1) =
        throw_if-ok (is_none ctx.user_id) no_user (unless (find_return id t.returns)) e in
      let e2 = sym (ap unless absent) ∙ e1 in
      let e3 : by s.status ≡ ok done = sym (ap for_found found) ∙ e2 in
      elim (SaleStatus-cases s.status) [
        | inl live ↦ (live, sym (ap by live) ∙ e3)
        | inr dead ↦ cc (sym (ap by dead) ∙ e3)
      ]

  pub create_return-IsReturned :
      (ctx : Context) (draws : Draws) (sale_id : ℕ) (input : CreateReturnInput) (t : Till)
      (s : SaleRow) {done : ReturnView × Till}
      → find_return (or_else input.id draws.document_id) t.returns ≡ none
      → find_sale sale_id t.sales ≡ some s
      → create_return net_value business_date_for locale_compare ctx draws sale_id input t ≡ ok done
      → IsReturned s (or_else input.id draws.document_id) t done.0 done.1
  create_return-IsReturned ctx draws sale_id input t s {done} absent found e =
      let id = or_else input.id draws.document_id in
      let (_, run) = create_return-open ctx draws sale_id input t s absent found e in
      let (refund, same, _, bounded, written) = return_of_sale-Given ctx draws id s input t run in
      let present = ap (λ i. find_sale i t.sales) (find_sale_id sale_id t.sales found) ∙ found in
      subst (λ i. IsReturned s i t done.0 done.1) same
        (write_return-IsReturned net_value business_date_for locale_compare ctx draws s input refund
          t (ap (λ i. find_return i t.returns) same ∙ absent) present bounded written)
