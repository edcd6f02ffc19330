-- ===== src/Sales/RoundTrip.antt =====
-- A bill of apps/api/src/modules/sales/sales.service.ts that is issued and then cancelled.
use dukaano.Base.{
  Bool-cases, List, Option, [], ap, arith, inl, inr, none, ok, or_else, refl, some, sym, ℕ, ◌==◌,
  ◌∙◌, ◌∷◌, ◌≡◌,
}
use dukaano.Base.Int.{int_laws, neg, pos, ℤ, ◌+ℤ◌}
use dukaano.Base.Sort.{total_by}
use dukaano.Base.Text.{Text}
use dukaano.Khata.{Context, sum_entries}
use dukaano.Khata.Payments.{Payment}
use dukaano.Sales.{Draws, SaleView, Till, find_sale, is_for, items_of, payments_of}
use dukaano.Sales.Cancel.{cancel_sale}
use dukaano.Sales.Cancelled.{IsCancelled, cancel_sale-IsCancelled}
use dukaano.Sales.Charged.{owed_by}
use dukaano.Sales.Create.{CreateSaleInput, CreditWarning}
use dukaano.Sales.Issue.{create_sale}
use dukaano.Sales.Issued.{create_sale-IsIssued}
use dukaano.Sales.Keeps.{
  find_sale_id, in_amount, out_amount, put_back_by, refundable_amount, sold_by,
}
use dukaano.Sales.Tables.{IsIssued}
use dukaano.Stock.Rows.{sum_movements}
use mathlib.Core.Path.{ap₂}

-- A sale without payments has no money in, out or to refund.
no_payments :
    (id : ℕ) (ps : List Payment)
    → payments_of id ps ≡ []
    → (total_by (in_amount id) ps ≡ pos 0)
      × (total_by (out_amount id) ps ≡ pos 0)
      × (total_by (refundable_amount id) ps ≡ pos 0)
unfolding payments_of
no_payments id [] h = (refl, refl, refl)
no_payments id (p ∷ ps) h = elim (Bool-cases (is_for id p.sale_id)) [
  | inl e ↦ absurd (ground (arith, e, h))
  | inr e ↦
      let (i, o, r) = no_payments id ps (rw e at h) in
      rw (e, i, o, r) (omega int_laws, omega int_laws, omega int_laws)
]

owed_and_back :
    (c : ℕ) (customer : Option ℕ) (amount total : ℤ)
    → (total +ℤ owed_by c customer amount) +ℤ owed_by c customer (neg amount) ≡ total
owed_and_back c none amount total = omega int_laws
owed_and_back c (some k) amount total = elim (Bool-cases (k == c)) [
  | inl e ↦ rw e (omega int_laws)
  | inr e ↦ rw e (omega int_laws)
]

-- A bill that was issued, and its cancellation.
module _ {id : ℕ} {input : CreateSaleInput} {t mid after : Till}
    {issued_bill cancelled_bill : SaleView} (first : IsIssued id input t issued_bill mid)
    (second : IsCancelled issued_bill.sale mid cancelled_bill after) where
  own : issued_bill.sale.id ≡ id
  own = find_sale_id id mid.sales first.found

  debts_back : (c : ℕ) → sum_entries c after.books.entries ≡ sum_entries c t.books.entries
  debts_back c =
      let s = issued_bill.sale in
      second.owed c
      ∙ ap (λ x. x +ℤ owed_by c s.customer_id (neg s.credit_paise)) (first.owed c)
      ∙ owed_and_back c s.customer_id s.credit_paise (sum_entries c t.books.entries)

  goods_put_back :
      (c : ℕ)
      → items_of id t.items ≡ []
      → sum_movements c after.store.transactions ≡ sum_movements c t.store.transactions
  goods_put_back c no_lines =
      let goods = total_by (sold_by c) input.items in
      let lines : total_by (put_back_by c) (items_of issued_bill.sale.id mid.items) ≡ neg goods =
        ap (λ i. total_by (put_back_by c) (items_of i mid.items)) own
        ∙ first.lines c
        ∙ ap (λ xs. total_by (put_back_by c) xs +ℤ neg goods) no_lines
        ∙ omega int_laws in
      second.restocked c ∙ ap₂ (λ a b. a +ℤ b) (first.sold c) lines ∙ omega int_laws

  money_out :
      payments_of id t.payments ≡ []
      → total_by (out_amount id) after.payments ≡ issued_bill.sale.paid_paise
  money_out no_money =
      let (_, none_out, none_refundable) = no_payments id t.payments no_money in
      ap (λ i. total_by (out_amount i) after.payments) (sym own)
      ∙ second.refunded
      ∙ ap
          (λ i. total_by (out_amount i) mid.payments +ℤ total_by (refundable_amount i) mid.payments)
          own
      ∙ ap₂ (λ a b. a +ℤ b) (first.no_refund ∙ none_out)
          (first.refundable ∙ ap (λ x. x +ℤ issued_bill.sale.paid_paise) none_refundable)
      ∙ omega int_laws

  money_in :
      payments_of id t.payments ≡ []
      → total_by (in_amount id) after.payments ≡ issued_bill.sale.paid_paise
  money_in no_money =
      ap (λ i. total_by (in_amount i) after.payments) (sym own)
      ∙ second.received
      ∙ ap (λ i. total_by (in_amount i) mid.payments) own
      ∙ first.tendered_is
      ∙ ap (λ x. x +ℤ issued_bill.sale.paid_paise) (no_payments id t.payments no_money).0
      ∙ omega int_laws

-- A bill that is issued under a new identifier and then cancelled leaves nothing behind but its history:
-- every customer owes what they owed before, every product has the stock that it had, and the money that
-- was handed over for the bill has been handed back.
pub cancel_sale-create_sale :
    (business_date_for : ℤ → ℤ) (locale_compare : ℕ → ℕ → ℤ) (ctx ctx' : Context)
    (draws draws' : Draws) (input : CreateSaleInput) (reason : Text) (t : Till)
    {issued_bill : (SaleView × Option CreditWarning) × Till} {done : SaleView × Till}
    → let id = or_else input.id draws.document_id in
      find_sale id t.sales ≡ none
      → items_of id t.items ≡ []
      → payments_of id t.payments ≡ []
      → create_sale business_date_for locale_compare ctx draws input t ≡ ok issued_bill
      → cancel_sale locale_compare ctx' draws' id reason issued_bill.1 ≡ ok done
      → ((c : ℕ) → sum_entries c done.1.books.entries ≡ sum_entries c t.books.entries)
        × ((c : ℕ)
            → sum_movements c done.1.store.transactions ≡ sum_movements c t.store.transactions)
        × (total_by (in_amount id) done.1.payments ≡ total_by (out_amount id) done.1.payments)
cancel_sale-create_sale business_date_for locale_compare ctx ctx' draws draws' input reason t
      {issued_bill} {done} absent no_lines no_money e e' =
    let id = or_else input.id draws.document_id in
    let first = create_sale-IsIssued business_date_for locale_compare ctx draws input t absent e in
    let second =
      cancel_sale-IsCancelled locale_compare ctx' draws' id reason issued_bill.1
        issued_bill.0.0.sale first.found first.open_sale first.credit_owed.0 e' in
    (
      debts_back first second,
      (λ c. goods_put_back first second c no_lines),
      money_in first second no_money ∙ sym (money_out first second no_money),
    )
