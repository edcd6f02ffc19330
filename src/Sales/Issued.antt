-- ===== src/Sales/Issued.antt =====
-- The bill that `create` of apps/api/src/modules/sales/sales.service.ts leaves behind.
use dukaano.Base.{
  >>=-eq-ok, Option, Option-cases, Result, ap, arith, false, inl, inr, map_err, map_err-ok, none,
  ok, ok-injective, or_else, refl, some, sym, throw_if-ok, ℕ, ◌&&◌, ◌>>=◌, ◌∙◌, ◌≡◌, ◌⊎◌,
}
use dukaano.Base.Int.{int_laws, ltb_ℤ, pos, ℤ, ◌+ℤ◌, ◌≤ℤ◌}
use dukaano.Base.Sort.{sort_by}
use dukaano.Khata.{Context, is_none}
use dukaano.Money.Brand.{as_paise, as_paise-ok}
use dukaano.Money.Errors.{Number}
use dukaano.Money.Line.{BillTotals, credit_portion}
use dukaano.Money.Line.Bill.{sub_paise-ok}
use dukaano.Sales.{
  Draws, SaleFault, SaleRow, SaleView, Till, find_sale, in_money, in_order, items_of, payments_of,
  view_sale,
}
use dukaano.Sales.Create.{
  CreateSaleInput, CreditWarning, bill_of, credit_of, credit_warning, load_products, paid_of,
  tendered,
}
use dukaano.Sales.Issue.{create_new, create_sale, issue, sale_number_for, unless_sold}
use dukaano.Sales.Keeps.{view_sale-find_sale}
use dukaano.Sales.Rows.{Bill}
use dukaano.Sales.Tables.{IsIssued, IsReady, issue-IsIssued}
use dukaano.Sales.Written.{issue-Written}
use mathlib.Core.Path.{subst}

credit_of_lem :
    (totals : BillTotals) (input : CreateSaleInput) {credit : ℤ}
    → credit_of totals input ≡ ok credit
    → totals.total_paise ≡ paid_of (tendered input) +ℤ credit
unfolding credit_portion
credit_of_lem totals input {credit} e =
    let (paid, paid_ok, e1) =
      >>=-eq-ok (as_paise (Number.whole (paid_of (tendered input))))
        (credit_portion totals.total_paise) e in
    let paid_is = as_paise-ok (paid_of (tendered input)) paid_ok in
    let credit_is = sub_paise-ok totals.total_paise paid e1 in
    rw (credit_is, paid_is) (omega int_laws)

guard_customer :
    (credit : ℤ) (customer : Option ℕ)
    → (ltb_ℤ (pos 0) credit && is_none customer) ≡ false
    → ltb_ℤ credit (pos 0) ≡ false
    → (pos 0 ≤ℤ credit) × ((credit ≡ pos 0) ⊎ ((c : ℕ) × (customer ≡ some c)))
guard_customer credit (some c) h k = (ground (arith, k), inr (c, refl))
guard_customer credit none h k = (ground (arith, k), inl (ground (arith, h, k)))

module _ (business_date_for : ℤ → ℤ) (locale_compare : ℕ → ℕ → ℤ) where
  -- A new sale that goes through was issued as a bill that was ready.
  create_new-issue :
      (ctx : Context) (draws : Draws) (id : ℕ) (input : CreateSaleInput) (t : Till)
      {done : (SaleView × Option CreditWarning) × Till}
      → create_new business_date_for locale_compare ctx draws id input t ≡ ok done
      → (bill : Bill) × (bill.id ≡ id)
        × (find_sale id t.sales ≡ none → IsReady locale_compare ctx draws bill input t)
        × (issue locale_compare ctx draws bill input t ≡ ok done)
  unfolding create_new
  create_new-issue ctx draws id input t {done} e =
      let (_, _, e0) = >>=-eq-ok (load_products input.items t.catalogue) _ e in
      let (totals, totals_ok, e1) = >>=-eq-ok (map_err in_money (bill_of t.settings input)) _ e0 in
      let (credit, credit_ok, e2) = >>=-eq-ok (map_err in_money (credit_of totals input)) _ e1 in
      let (not_over, e3) = throw_if-ok _ _ _ e2 in
      let (owner, e4) = throw_if-ok _ _ _ e3 in
      let (_, _, e5) =
        >>=-eq-ok (credit_warning input.customer_id credit input.override_credit_limit t) _ e4 in
      let (_, _, run) = >>=-eq-ok (sale_number_for input t) _ e5 in
      let (nonneg, someone) = guard_customer credit input.customer_id owner not_over in
      (
        _,
        refl,
        (λ absent. (
          map_err-ok in_money _ totals_ok,
          credit_of_lem totals input (map_err-ok in_money _ credit_ok),
          nonneg,
          someone,
          absent,
        )),
        run,
      )

  create_new-IsIssued :
      (ctx : Context) (draws : Draws) (id : ℕ) (input : CreateSaleInput) (t : Till)
      {done : (SaleView × Option CreditWarning) × Till}
      → find_sale id t.sales ≡ none
      → create_new business_date_for locale_compare ctx draws id input t ≡ ok done
      → IsIssued id input t done.0.0 done.1
  create_new-IsIssued ctx draws id input t {done} absent e =
      let (bill, same, ready, run) = create_new-issue ctx draws id input t e in
      subst (λ i. IsIssued i input t done.0.0 done.1) same
        (issue-IsIssued locale_compare ctx draws bill input t (ready absent) run)

  pub create_sale-IsIssued :
      (ctx : Context) (draws : Draws) (input : CreateSaleInput) (t : Till)
      {done : (SaleView × Option CreditWarning) × Till}
      → find_sale (or_else input.id draws.document_id) t.sales ≡ none
      → create_sale business_date_for locale_compare ctx draws input t ≡ ok done
      → IsIssued (or_else input.id draws.document_id) input t done.0.0 done.1
  unfolding create_sale
  create_sale-IsIssued ctx draws input t absent e =
      let id = or_else input.id draws.document_id in
      let (_, e1) =
        throw_if-ok _ _
          (unless_sold business_date_for locale_compare ctx draws id input t (find_sale id t.sales))
          e in
      create_new-IsIssued ctx draws id input t absent (rw absent at e1)

  pub create_sale_known :
      (ctx : Context) (draws : Draws) (input : CreateSaleInput) (t : Till) {s : SaleRow} (u : ℕ)
      → ctx.user_id ≡ some u
      → find_sale (or_else input.id draws.document_id) t.sales ≡ some s
      → (view : SaleView) × (view.sale ≡ s)
        × (create_sale business_date_for locale_compare ctx draws input t ≡ ok ((view, none), t))
  unfolding create_sale view_sale
  create_sale_known ctx draws input t {s} u user found =
      let id = or_else input.id draws.document_id in
      let view : SaleView = record {
        sale = s;
        items = sort_by in_order (items_of id t.items);
        payments = payments_of id t.payments;
      } in
      let viewed_ok : view_sale id t ≡ ok view = rw found refl in
      let again : Result SaleFault SaleView
          → Result SaleFault ((SaleView × Option CreditWarning) × Till) =
        λ m. m >>= λ v. ok ((v, none), t) in
      (view, refl, rw user (rw found (ap again viewed_ok)))

  -- What a call answers is what is stored under the identifier.
  create_new-view_sale :
      (ctx : Context) (draws : Draws) (id : ℕ) (input : CreateSaleInput) (t : Till)
      {done : (SaleView × Option CreditWarning) × Till}
      → create_new business_date_for locale_compare ctx draws id input t ≡ ok done
      → view_sale id done.1 ≡ ok done.0.0
  create_new-view_sale ctx draws id input t {done} e =
      let (bill, same, _, run) = create_new-issue ctx draws id input t e in
      let (_, _, _, _, _, _, _, _, shown) =
        issue-Written locale_compare ctx draws bill input t run in
      subst (λ i. view_sale i done.1 ≡ ok done.0.0) same shown

  create_sale-view_sale :
      (ctx : Context) (draws : Draws) (input : CreateSaleInput) (t : Till)
      {done : (SaleView × Option CreditWarning) × Till}
      → create_sale business_date_for locale_compare ctx draws input t ≡ ok done
      → view_sale (or_else input.id draws.document_id) done.1 ≡ ok done.0.0
  unfolding create_sale
  create_sale-view_sale ctx draws input t {done} e =
      let id = or_else input.id draws.document_id in
      let unless = unless_sold business_date_for locale_compare ctx draws id input t in
      let (_, e1) = throw_if-ok _ _ (unless (find_sale id t.sales)) e in
      elim (Option-cases (find_sale id t.sales)) [
        | inl absent ↦ create_new-view_sale ctx draws id input t (sym (ap unless absent) ∙ e1)
        | inr (s, found) ↦
            let (view, shown, e2) = >>=-eq-ok (view_sale id t) _ (sym (ap unless found) ∙ e1) in
            subst (λ (w : (SaleView × Option CreditWarning) × Till). view_sale id w.1 ≡ ok w.0.0)
              (ok-injective e2) shown
      ]

  -- A bill is issued once: where a call with an identifier has gone through, calling again with the
  -- identifier, by whatever known user, at whatever time and with whatever input, as after an answer that
  -- was lost, gives back the same bill with the same lines and payments, and changes nothing: nothing is
  -- billed, taken from the stock or owed a second time.
  pub create_sale_retry :
      (ctx ctx' : Context) (draws draws' : Draws) (id u : ℕ) (input input' : CreateSaleInput)
      (t : Till) {done : (SaleView × Option CreditWarning) × Till}
      → input.id ≡ some id
      → input'.id ≡ some id
      → ctx'.user_id ≡ some u
      → create_sale business_date_for locale_compare ctx draws input t ≡ ok done
      → create_sale business_date_for locale_compare ctx' draws' input' done.1
        ≡ ok ((done.0.0, none), done.1)
  unfolding create_sale
  create_sale_retry ctx ctx' draws draws' id u input input' t {done} named named' user e =
      let shown : view_sale id done.1 ≡ ok done.0.0 =
        ap (λ o. view_sale (or_else o draws.document_id) done.1) (sym named)
        ∙ create_sale-view_sale ctx draws input t e in
      let found = view_sale-find_sale id done.1 shown in
      let again : Result SaleFault SaleView
          → Result SaleFault ((SaleView × Option CreditWarning) × Till) =
        λ m. m >>= λ v. ok ((v, none), done.1) in
      rw user (rw named' (rw found (ap again shown)))
