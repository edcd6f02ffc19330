-- ===== src/Sales/Issue.antt =====
-- `create` of apps/api/src/modules/sales/sales.service.ts.
use dukaano.Base.{
  Option, Result, map, map_err, none, ok, or_else, some, throw_if, ℕ, ◌&&◌, ◌>>=◌, ◌>>◌,
}
use dukaano.Base.Int.{ltb_ℤ, pos, ℤ}
use dukaano.Base.Text.{Text, codes}
use dukaano.Khata.{Context, append, is_none}
use dukaano.Sales.{
  Draws, SaleFault, SaleRow, SaleView, Till, customer_required, find_sale, in_money, in_stock,
  no_user, overpayment, update_sale, view_sale,
}
use dukaano.Sales.Create.{
  CreateSaleInput, CreditWarning, bill_of, check_credit_limit, credit_of, credit_warning, item_rows,
  load_products, paid_of, tendered,
}
use dukaano.Sales.Number.{next_number, number_or_next}
use dukaano.Sales.Rows.{Bill, append_for, charge, issued, taken, tender_rows}
use dukaano.Stock.Batch.{apply_stock_movements}

module _ (locale_compare : ℕ → ℕ → ℤ) where
  unfoldable pub issue :
      Context
      → Draws
      → Bill
      → CreateSaleInput
      → Till
      → Result SaleFault ((SaleView × Option CreditWarning) × Till)
  unfolding item_rows tender_rows append apply_stock_movements update_sale view_sale
  issue context draws bill input t = do
    rows ← item_rows draws bill.id 0 input.items t
    books ←
        append_for context draws.entry_id draws.now bill.credit (charge bill) input.customer_id
          t.books
    (movements, store) ← map_err in_stock (
        apply_stock_movements locale_compare context draws.movement_id draws.clock
          (map (taken bill) input.items) t.store)
    let after = issued context draws bill input rows books movements store t
    view ← view_sale bill.id after
    ok ((view, bill.warning), after)

-- `input.saleNumber ?? (await this.nextSaleNumber(shopId))`
abbrev pub sale_number_for : CreateSaleInput → Till → Result SaleFault Text
sale_number_for input t =
    number_or_next input.sale_number
      (next_number (codes "INV-") (map (λ (s : SaleRow). s.sale_number) t.sales))

module _ (business_date_for : ℤ → ℤ) (locale_compare : ℕ → ℕ → ℤ) where
  -- A bill that was not there before. (The date is the business logic's, for the time zone of the shop
  -- and the first hour of its day.)
  unfoldable pub create_new :
      Context
      → Draws
      → ℕ
      → CreateSaleInput
      → Till
      → Result SaleFault ((SaleView × Option CreditWarning) × Till)
  unfolding load_products bill_of check_credit_limit next_number issue
  create_new context draws id input t = do
    load_products input.items t.catalogue
    totals ← map_err in_money (bill_of t.settings input)
    credit ← map_err in_money (credit_of totals input)
    throw_if (ltb_ℤ credit (pos 0)) (overpayment totals.total_paise (paid_of (tendered input)))
    throw_if (ltb_ℤ (pos 0) credit && is_none input.customer_id) customer_required
    warning ← credit_warning input.customer_id credit input.override_credit_limit t
    number ← sale_number_for input t
    let occurred_at = or_else input.occurred_at draws.now
    issue locale_compare context draws
        (record {
          id = id;
          number = number;
          totals = totals;
          credit = credit;
          warning = warning;
          occurred_at = occurred_at;
          business_date = business_date_for occurred_at;
        })
        input t

  abbrev pub unless_sold :
      Context
      → Draws
      → ℕ
      → CreateSaleInput
      → Till
      → Option SaleRow
      → Result SaleFault ((SaleView × Option CreditWarning) × Till)
  unless_sold context draws id input t (some existing) = do
    view ← view_sale id t
    ok ((view, none), t)
  unless_sold context draws id input t none = create_new context draws id input t

  -- `create` of the sales service
  unfoldable pub create_sale :
      Context
      → Draws
      → CreateSaleInput
      → Till
      → Result SaleFault ((SaleView × Option CreditWarning) × Till)
  unfolding find_sale create_new
  create_sale context draws input t = do
    throw_if (is_none context.user_id) no_user
    let id = or_else input.id draws.document_id
    unless_sold context draws id input t (find_sale id t.sales)
