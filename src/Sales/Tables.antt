-- ===== src/Sales/Tables.antt =====
-- The sale, its rows, its entry in the ledger and its movements, as `create` of
-- apps/api/src/modules/sales/sales.service.ts writes them together.
use dukaano.Base.{List, Option, ap, map, none, ok, or_else, refl, some, sym, ℕ, ◌∙◌, ◌≡◌, ◌⊎◌}
use dukaano.Base.Int.{int_laws, neg, pos, ℤ, ◌+ℤ◌, ◌≤ℤ◌}
use dukaano.Base.Sort.{total_by, total_by-append, total_by-map}
use dukaano.Khata.{Books, Context, sum_entries}
use dukaano.Khata.Payments.{Payment}
use dukaano.Ledger.{sale_credit}
use dukaano.Money.Line.{BillTotals}
use dukaano.Sales.{Draws, SaleItemRow, SaleView, Till, completed, find_sale, items_of, view_sale}
use dukaano.Sales.Charged.{AreKept, append_for-Charged, owed_by}
use dukaano.Sales.Create.{CreateSaleInput, CreditWarning, bill_of, item_rows, paid_of, tendered}
use dukaano.Sales.Issue.{issue}
use dukaano.Sales.Keeps.{
  in_amount, items_sum, out_amount, put_back_by, refundable_amount, sold_by, tender_rows_no_refund,
  tender_rows_refundable, tender_rows_sum, view_sale-find_sale,
}
use dukaano.Sales.Rows.{Bill, any_negative, append_for, charge, issued, taken, tender_rows}
use dukaano.Sales.Written.{find_sale-issued, issue-Written, sold_row, sold_row_amounts}
use dukaano.Stock.{MovementResult, Store}
use dukaano.Stock.Batch.{apply_stock_movements, apply_stock_movements-MovedAll}
use dukaano.Stock.Moved.{IsStocked, moved_by}
use dukaano.Stock.Rows.{sum_movements}
use mathlib.Core.Path.{ap₂, subst}

-- Books and stock in order.
abbrev pub IsKept : Till → Type 0
IsKept t = AreKept t.books × IsStocked t.store

-- A bill that was issued: it is there with what was tendered and what is owed, in one piece with the rows
-- of money, of the ledger and of the stock that belong to it.
pub record IsIssued (id : ℕ) (input : CreateSaleInput) (t : Till) (view : SaleView) (after : Till)
    : Type 0 where
  pub totals : BillTotals
  pub computed : bill_of t.settings input ≡ ok totals
  pub found : find_sale id after.sales ≡ some view.sale
  pub open_sale : view.sale.status ≡ completed
  pub total_is : view.sale.total_paise ≡ totals.total_paise
  pub identity : view.sale.total_paise ≡ view.sale.paid_paise +ℤ view.sale.credit_paise
  pub credit_owed :
      (pos 0 ≤ℤ view.sale.credit_paise)
      × ((view.sale.credit_paise ≡ pos 0) ⊎ ((c : ℕ) × (view.sale.customer_id ≡ some c)))
  pub tendered_is :
      total_by (in_amount id) after.payments
      ≡ total_by (in_amount id) t.payments +ℤ view.sale.paid_paise
  pub refundable :
      total_by (refundable_amount id) after.payments
      ≡ total_by (refundable_amount id) t.payments +ℤ view.sale.paid_paise
  pub no_refund : total_by (out_amount id) after.payments ≡ total_by (out_amount id) t.payments
  pub owed :
      (c : ℕ)
      → sum_entries c after.books.entries
        ≡ sum_entries c t.books.entries +ℤ owed_by c view.sale.customer_id view.sale.credit_paise
  pub sold :
      (c : ℕ)
      → sum_movements c after.store.transactions
        ≡ sum_movements c t.store.transactions +ℤ total_by (sold_by c) input.items
  pub lines :
      (c : ℕ)
      → total_by (put_back_by c) (items_of id after.items)
        ≡ total_by (put_back_by c) (items_of id t.items) +ℤ neg (total_by (sold_by c) input.items)
  pub kept : IsKept t → IsKept after

module _ (locale_compare : ℕ → ℕ → ℤ) where
  -- What is known of a bill when its rows are written.
  abbrev pub IsReady : Context → Draws → Bill → CreateSaleInput → Till → Type 0
  IsReady ctx draws bill input t =
      (bill_of t.settings input ≡ ok bill.totals)
      × (bill.totals.total_paise ≡ paid_of (tendered input) +ℤ bill.credit)
      × (pos 0 ≤ℤ bill.credit)
      × ((bill.credit ≡ pos 0) ⊎ ((c : ℕ) × (input.customer_id ≡ some c)))
      × (find_sale bill.id t.sales ≡ none)

  -- The tables after a bill's rows, its entry in the ledger and its movements.
  module _ (ctx : Context) (draws : Draws) (bill : Bill) (input : CreateSaleInput) (t : Till)
      (rows : List SaleItemRow) (books : Books) (movements : List MovementResult) (store : Store)
      {view : SaleView} (absent : find_sale bill.id t.sales ≡ none)
      (shown : view_sale bill.id (issued ctx draws bill input rows books movements store t)
        ≡ ok view) where
    abbrev tables : Till
    tables = issued ctx draws bill input rows books movements store t

    row_is : view.sale ≡ sold_row (any_negative movements) ctx bill input
    row_is =
        ap (λ o. or_else o view.sale)
          (sym (view_sale-find_sale bill.id tables shown)
            ∙ find_sale-issued ctx bill input (any_negative movements) t.sales absent)

    -- A sum over the rows of money grows by what the tendered rows hold of it.
    tendered_sum :
        (amount : Payment → ℤ) {sum : ℤ}
        → total_by amount (tender_rows ctx draws 0 bill input (tendered input)) ≡ sum
        → total_by amount tables.payments ≡ total_by amount t.payments +ℤ sum
    tendered_sum amount h =
        total_by-append amount t.payments (tender_rows ctx draws 0 bill input (tendered input))
        ∙ ap (λ x. total_by amount t.payments +ℤ x) h

    issued_lem :
        IsReady ctx draws bill input t
        → item_rows draws bill.id 0 input.items t ≡ ok rows
        → append_for ctx draws.entry_id draws.now bill.credit
            (charge bill)
            input.customer_id
            t.books
          ≡ ok books
        → apply_stock_movements locale_compare ctx draws.movement_id draws.clock
            (map (taken bill) input.items)
            t.store
          ≡ ok (movements, store)
        → IsIssued bill.id input t view tables
    issued_lem (computed, adds_up, nonneg, owner, _) rows_ok charged moved =
        let (total_is, paid_is, credit_is, customer_is, open_sale) =
          sold_row_amounts (any_negative movements) ctx bill input view.sale row_is in
        let (books_kept, owed) =
          append_for-Charged ctx draws.entry_id draws.now bill.credit sale_credit (charge bill)
            input.customer_id t.books (λ c. (refl, refl, refl)) nonneg charged in
        let (stock_kept, sums) =
          apply_stock_movements-MovedAll locale_compare ctx _ _ _ t.store moved in
        record {
          totals = bill.totals;
          computed = computed;
          found = view_sale-find_sale bill.id tables shown;
          open_sale = open_sale;
          total_is = total_is;
          identity = total_is ∙ adds_up ∙ ap₂ (λ a b. a +ℤ b) (sym paid_is) (sym credit_is);
          credit_owed = rw (credit_is, customer_is) (nonneg, owner);
          tendered_is =
              tendered_sum (in_amount bill.id)
                (tender_rows_sum ctx draws 0 bill input (tendered input) ∙ sym paid_is);
          refundable =
              tendered_sum (refundable_amount bill.id)
                (tender_rows_refundable ctx draws 0 bill input (tendered input) ∙ sym paid_is);
          no_refund =
              tendered_sum (out_amount bill.id)
                (tender_rows_no_refund ctx draws 0 bill input (tendered input))
              ∙ omega int_laws;
          lines = (λ c. items_sum draws bill.id c input.items t t.items rows_ok);
          owed = (λ c.
              owed c
              ∙ ap₂ (λ k a. sum_entries c t.books.entries +ℤ owed_by c k a) (sym customer_is)
                  (sym credit_is));
          sold = (λ c.
              sums c
              ∙ ap (λ x. sum_movements c t.store.transactions +ℤ x)
                  (total_by-map (moved_by c) (taken bill) input.items));
          kept = (λ (b, k). (books_kept b, stock_kept k));
        }

  pub issue-IsIssued :
      (ctx : Context) (draws : Draws) (bill : Bill) (input : CreateSaleInput) (t : Till)
      {done : (SaleView × Option CreditWarning) × Till}
      → IsReady ctx draws bill input t
      → issue locale_compare ctx draws bill input t ≡ ok done
      → IsIssued bill.id input t done.0.0 done.1
  issue-IsIssued ctx draws bill input t {done} ready e =
      let (rows, books, movements, store, rows_ok, charged, moved, after_is, shown) =
        issue-Written locale_compare ctx draws bill input t e in
      let shown_tables = subst (λ w. view_sale bill.id w ≡ ok done.0.0) after_is shown in
      subst (λ w. IsIssued bill.id input t done.0.0 w) (sym after_is)
        (issued_lem ctx draws bill input t rows books movements store ready.4 shown_tables ready
          rows_ok charged moved)
