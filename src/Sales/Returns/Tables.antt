-- ===== src/Sales/Returns/Tables.antt =====
-- The return, its rows, its entry in the ledger and its movements, as `create` of
-- apps/api/src/modules/sales/returns.service.ts writes them together.
use dukaano.Base.{
  List, ap, false, map, none, not, ok, or_else, refl, some, sym, ℕ, ◌++◌, ◌+◌, ◌∙◌, ◌≡◌,
}
use dukaano.Base.Int.{neg, pos, ℤ, ◌+ℤ◌, ◌≤ℤ◌}
use dukaano.Base.Sort.{total_by, total_by-append}
use dukaano.Khata.{Books, Context, sum_entries}
use dukaano.Ledger.{return_credit, with_ledger_sign}
use dukaano.Sales.{Draws, ReturnItemRow, ReturnRow, SaleRow, Till, find_sale}
use dukaano.Sales.Charged.{append_for-Charged, owed_by}
use dukaano.Sales.Keeps.{find_sale-update_sale, out_amount}
use dukaano.Sales.Returns.{
  CreateReturnInput, ReturnView, find_return, goods_back, max_cash_refund, min_ℤ, view_return,
}
use dukaano.Sales.Returns.Give.{write_return}
use dukaano.Sales.Returns.Rows.{
  Refund, cash_rows, passes_checks, return_item_rows, return_row, returned_tables, touched,
  uncharge,
}
use dukaano.Sales.Returns.Written.{
  back_by, cash_rows_out, checks_split, find_return-append, left_on_credit, return_item_rows_sums,
  value_of, view_return-find_return, write_return-Written,
}
use dukaano.Sales.Rows.{append_for}
use dukaano.Sales.Tables.{IsKept}
use dukaano.Stock.{MovementResult, Store}
use dukaano.Stock.Batch.{apply_stock_movements, apply_stock_movements-MovedAll}
use dukaano.Stock.Rows.{sum_movements}
use mathlib.Core.Path.{ap₂, subst}

-- A return that was written: its total is what its lines are worth and what was given back, credit before
-- cash; the cash is in a row of money, the credit leaves the customer's ledger, the goods are back, and the
-- bill keeps its amounts.
pub record IsReturned (s : SaleRow) (id : ℕ) (t : Till) (view : ReturnView) (after : Till)
    : Type 0 where
  pub found : find_return id after.returns ≡ some view.sale_return
  pub of_sale : view.sale_return.sale_id ≡ s.id
  pub rows : List ReturnItemRow
  pub written : after.return_items ≡ t.return_items ++ rows
  pub worth : view.sale_return.total_paise ≡ total_by value_of rows
  pub split :
      view.sale_return.total_paise
      ≡ view.sale_return.refund_cash_paise +ℤ view.sale_return.refund_credit_paise
  pub not_negative :
      (pos 0 ≤ℤ view.sale_return.refund_cash_paise)
      × (pos 0 ≤ℤ view.sale_return.refund_credit_paise)
  pub credit_first :
      min_ℤ view.sale_return.total_paise s.credit_paise ≤ℤ view.sale_return.refund_credit_paise
  pub paid_out :
      total_by (out_amount s.id) after.payments
      ≡ total_by (out_amount s.id) t.payments +ℤ view.sale_return.refund_cash_paise
  pub owed :
      (c : ℕ)
      → sum_entries c after.books.entries
        ≡ sum_entries c t.books.entries
          +ℤ owed_by c s.customer_id (neg view.sale_return.refund_credit_paise)
  pub restocked :
      (c : ℕ)
      → sum_movements c after.store.transactions
        ≡ sum_movements c t.store.transactions +ℤ total_by (back_by c) rows
  pub bill :
      (row : SaleRow) × (find_sale s.id after.sales ≡ some row)
      × (row.status ≡ s.status)
      × (row.subtotal_paise ≡ s.subtotal_paise)
      × (row.total_paise ≡ s.total_paise)
      × (row.paid_paise ≡ s.paid_paise)
      × (row.credit_paise ≡ s.credit_paise)
      × (row.row_version ≡ s.row_version + 1)
  pub kept : IsKept t → IsKept after

module _ (net_value : ℤ → ℤ → ℤ → ℤ) (business_date_for : ℤ → ℤ) (locale_compare : ℕ → ℕ → ℤ) where
  -- The tables after a return's rows, its movements and its entry in the ledger.
  module _ (ctx : Context) (draws : Draws) (s : SaleRow) (input : CreateReturnInput)
      (refund : Refund) (t : Till) (books : Books) (store : Store) {view : ReturnView}
      (absent : find_return refund.id t.returns ≡ none)
      (shown : view_return refund.id (returned_tables ctx draws s input refund books store t)
        ≡ ok view) where
    abbrev tables : Till
    tables = returned_tables ctx draws s input refund books store t

    row_is : view.sale_return ≡ return_row ctx s input refund
    row_is =
        ap (λ o. or_else o view.sale_return)
          (sym (view_return-find_return refund.id tables shown)
            ∙ find_return-append refund.id (return_row ctx s input refund) t.returns refl absent)

    paid_out :
        pos 0 ≤ℤ refund.cash
        → total_by (out_amount s.id) tables.payments
          ≡ total_by (out_amount s.id) t.payments +ℤ view.sale_return.refund_cash_paise
    paid_out nonneg =
        total_by-append (out_amount s.id) t.payments (cash_rows ctx draws s input refund t)
        ∙ ap (λ x. total_by (out_amount s.id) t.payments +ℤ x)
            (cash_rows_out ctx draws s input refund t nonneg
              ∙ sym (ap (λ (r : ReturnRow). r.refund_cash_paise) row_is))

    -- Of a return that passes the checks, with the movements and the entry that it makes.
    returned_tables_lem :
        (movements : List MovementResult)
        → find_sale s.id t.sales ≡ some s
        → refund.cash ≤ℤ max_cash_refund s refund.lines
        → not (passes_checks s refund) ≡ false
        → apply_stock_movements locale_compare ctx draws.movement_id draws.clock
            (map (goods_back refund.id refund.occurred_at) refund.lines)
            t.store
          ≡ ok (movements, store)
        → append_for ctx draws.entry_id draws.now refund.credit
            (uncharge input refund)
            s.customer_id
            t.books
          ≡ ok books
        → IsReturned s refund.id t view tables
    unfolding with_ledger_sign
    returned_tables_lem movements present bounded passed moved charged =
        let (identity, cash_nonneg, credit_nonneg, _) = checks_split s refund passed in
        let total_is = ap (λ (r : ReturnRow). r.total_paise) row_is in
        let cash_is = ap (λ (r : ReturnRow). r.refund_cash_paise) row_is in
        let credit_is = ap (λ (r : ReturnRow). r.refund_credit_paise) row_is in
        let (books_kept, owed) =
          append_for-Charged ctx draws.entry_id draws.now refund.credit return_credit
            (uncharge input refund) s.customer_id t.books (λ c. (refl, refl, refl)) credit_nonneg
            charged in
        let (stock_kept, sums) =
          apply_stock_movements-MovedAll locale_compare ctx _ _ _ t.store moved in
        let rows_sums =
          λ (c : ℕ). return_item_rows_sums draws 0 refund.id c refund.occurred_at refund.lines in
        record {
          found = view_return-find_return refund.id tables shown;
          of_sale = ap (λ (r : ReturnRow). r.sale_id) row_is;
          rows = return_item_rows draws 0 refund.id refund.lines;
          written = refl;
          worth = total_is ∙ sym (rows_sums 0).0;
          split = total_is ∙ identity ∙ ap₂ (λ a b. a +ℤ b) (sym cash_is) (sym credit_is);
          not_negative = rw (cash_is, credit_is) (cash_nonneg, credit_nonneg);
          credit_first =
              rw (total_is, credit_is)
                (left_on_credit _ _ refund.cash refund.credit identity bounded);
          paid_out = paid_out cash_nonneg;
          owed = (λ c.
              owed c
              ∙ ap (λ x. sum_entries c t.books.entries +ℤ owed_by c s.customer_id (neg x))
                  (sym credit_is));
          restocked =
              (λ c. sums c ∙ ap (λ x. sum_movements c t.store.transactions +ℤ x) (rows_sums c).1);
          bill = (
            touched s,
            find_sale-update_sale s.id touched t.sales (λ r. refl) present,
            refl,
            refl,
            refl,
            refl,
            refl,
            refl,
          );
          kept = (λ (b, k). (books_kept b, stock_kept k));
        }

  pub write_return-IsReturned :
      (ctx : Context) (draws : Draws) (s : SaleRow) (input : CreateReturnInput) (refund : Refund)
      (t : Till) {done : ReturnView × Till}
      → find_return refund.id t.returns ≡ none
      → find_sale s.id t.sales ≡ some s
      → refund.cash ≤ℤ max_cash_refund s refund.lines
      → write_return net_value business_date_for locale_compare ctx draws s input refund t ≡ ok done
      → IsReturned s refund.id t done.0 done.1
  write_return-IsReturned ctx draws s input refund t {done} absent present bounded e =
      let (movements, store, books, passed, moved, charged, after_is, shown) =
        write_return-Written net_value business_date_for locale_compare ctx draws s input refund t
          e in
      let shown_tables = subst (λ w. view_return refund.id w ≡ ok done.0) after_is shown in
      subst (λ w. IsReturned s refund.id t done.0 w) (sym after_is)
        (returned_tables_lem ctx draws s input refund t books store absent shown_tables movements
          present bounded passed moved charged)
