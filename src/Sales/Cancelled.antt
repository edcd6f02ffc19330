-- ===== src/Sales/Cancelled.antt =====
-- What `cancel` of apps/api/src/modules/sales/sales.service.ts leaves behind.
use dukaano.Base.{
  >>=-eq-ok, List, Result, ap, ltb, map, map_err-ok, ok, ok-injective, or_else, refl, some, sym,
  throw_if-ok, ℕ, ◌>>=◌, ◌∙◌, ◌≡◌,
}
use dukaano.Base.Int.{neg, pos, ℤ, ◌+ℤ◌, ◌≤ℤ◌}
use dukaano.Base.Sort.{total_by, total_by-map}
use dukaano.Base.Text.{Text}
use dukaano.Khata.{Books, Context, sum_entries}
use dukaano.Ledger.{sale_cancelled}
use dukaano.Sales.{
  Draws, SaleFault, SaleRow, SaleView, Till, cancelled, completed, find_sale, in_stock, items_of,
  sale_has_returns, view_sale,
}
use dukaano.Sales.Cancel.{
  by_status, cancel_found, cancel_sale, cancelled_row, cancelled_tables, compensate, count_returns,
  discharge, put_back, refundable_of,
}
use dukaano.Sales.Charged.{append_for-Charged, owed_by}
use dukaano.Sales.Keeps.{
  find_sale-update_sale, find_sale_id, in_amount, out_amount, put_back_by, refundable_amount,
  view_sale-find_sale,
}
use dukaano.Sales.Refunded.{refund_all_in, refund_all_out, refundable_of_sum}
use dukaano.Sales.Rows.{append_for}
use dukaano.Sales.Tables.{IsKept}
use dukaano.Stock.{MovementResult, Store}
use dukaano.Stock.Batch.{apply_stock_movements, apply_stock_movements-MovedAll}
use dukaano.Stock.Moved.{moved_by}
use dukaano.Stock.Rows.{sum_movements}
use mathlib.Core.Path.{subst}

-- A bill that was cancelled: the row keeps its amounts, the money that came in goes out, the credit is
-- taken back from the customer, and the goods are back.
pub record IsCancelled (s : SaleRow) (t : Till) (view : SaleView) (after : Till) : Type 0 where
  pub found : find_sale s.id after.sales ≡ some view.sale
  pub status_is : view.sale.status ≡ cancelled
  pub amounts :
      (view.sale.total_paise ≡ s.total_paise)
      × (view.sale.paid_paise ≡ s.paid_paise)
      × (view.sale.credit_paise ≡ s.credit_paise)
  pub refunded :
      total_by (out_amount s.id) after.payments
      ≡ total_by (out_amount s.id) t.payments +ℤ total_by (refundable_amount s.id) t.payments
  pub received : total_by (in_amount s.id) after.payments ≡ total_by (in_amount s.id) t.payments
  pub owed :
      (c : ℕ)
      → sum_entries c after.books.entries
        ≡ sum_entries c t.books.entries +ℤ owed_by c s.customer_id (neg s.credit_paise)
  pub restocked :
      (c : ℕ)
      → sum_movements c after.store.transactions
        ≡ sum_movements c t.store.transactions +ℤ total_by (put_back_by c) (items_of s.id t.items)
  pub kept : IsKept t → IsKept after

module _ (locale_compare : ℕ → ℕ → ℤ) where
  -- The movements, the stock and the books of a bill that was compensated.
  abbrev Compensated : Context → Draws → Text → Till → SaleRow → SaleView × Till → Type 0
  Compensated ctx draws reason t s done =
      (movements : List MovementResult) × (store : Store) × (books : Books) × (apply_stock_movements
          locale_compare ctx draws.movement_id draws.clock
          (map (put_back s.id reason) (items_of s.id t.items)) t.store
        ≡ ok (movements, store))
      × (append_for ctx draws.entry_id draws.now s.credit_paise (discharge s reason) s.customer_id
            t.books
          ≡ ok books)
      × (done.1 ≡ cancelled_tables ctx draws s reason books store t)
      × (view_sale s.id done.1 ≡ ok done.0)

  compensate-Compensated :
      (ctx : Context) (draws : Draws) (reason : Text) (t : Till) (s : SaleRow)
      {done : SaleView × Till}
      → compensate locale_compare ctx draws reason t s ≡ ok done
      → Compensated ctx draws reason t s done
  unfolding compensate
  compensate-Compensated ctx draws reason t s {done} e =
      let (_, e1) = throw_if-ok (ltb 0 (count_returns s.id t.returns)) sale_has_returns _ e in
      let ((movements, store), moved, e2) = >>=-eq-ok _ _ e1 in
      let (books, charged, e3) = >>=-eq-ok _ _ e2 in
      let (view, shown_ok, e4) = >>=-eq-ok _ _ e3 in
      subst (Compensated ctx draws reason t s) (ok-injective e4)
        (movements, store, books, map_err-ok in_stock _ moved, charged, refl, shown_ok)

  -- The tables after a bill's mark, its movements, its entry in the ledger and its refunds.
  cancelled_tables_lem :
      (ctx : Context) (draws : Draws) (reason : Text) (t : Till) (s : SaleRow)
      (movements : List MovementResult) (store : Store) (books : Books) {view : SaleView}
      → find_sale s.id t.sales ≡ some s
      → pos 0 ≤ℤ s.credit_paise
      → apply_stock_movements locale_compare ctx draws.movement_id draws.clock
          (map (put_back s.id reason) (items_of s.id t.items))
          t.store
        ≡ ok (movements, store)
      → append_for ctx draws.entry_id draws.now s.credit_paise
          (discharge s reason)
          s.customer_id
          t.books
        ≡ ok books
      → let after = cancelled_tables ctx draws s reason books store t in
        view_sale s.id after ≡ ok view → IsCancelled s t view after
  cancelled_tables_lem ctx draws reason t s movements store books {view} present nonneg moved
        charged shown =
      let after = cancelled_tables ctx draws s reason books store t in
      let change = cancelled_row ctx draws reason in
      let found = view_sale-find_sale s.id after shown in
      let row_is : view.sale ≡ change s =
        ap (λ o. or_else o view.sale)
          (sym found ∙ find_sale-update_sale s.id change t.sales (λ r. refl) present) in
      let (books_kept, owed) =
        append_for-Charged ctx draws.entry_id draws.now s.credit_paise sale_cancelled
          (discharge s reason) s.customer_id t.books (λ c. (refl, refl, refl)) nonneg charged in
      let (stock_kept, sums) =
        apply_stock_movements-MovedAll locale_compare ctx _ _ _ t.store moved in
      let refunded = refundable_of s.id t.payments in
      record {
        found = found;
        status_is = ap (λ (x : SaleRow). x.status) row_is;
        amounts = (
          ap (λ (x : SaleRow). x.total_paise) row_is,
          ap (λ (x : SaleRow). x.paid_paise) row_is,
          ap (λ (x : SaleRow). x.credit_paise) row_is,
        );
        refunded =
            refund_all_out ctx draws 0 s reason refunded t.payments
            ∙ ap (λ x. total_by (out_amount s.id) t.payments +ℤ x)
                (refundable_of_sum s.id t.payments);
        received = refund_all_in ctx draws 0 s reason refunded t.payments;
        owed = owed;
        restocked = (λ c.
            sums c
            ∙ ap (λ x. sum_movements c t.store.transactions +ℤ x)
                (total_by-map (moved_by c) (put_back s.id reason) (items_of s.id t.items)));
        kept = (λ (b, k). (books_kept b, stock_kept k));
      }

  compensate-IsCancelled :
      (ctx : Context) (draws : Draws) (reason : Text) (t : Till) (s : SaleRow)
      {done : SaleView × Till}
      → find_sale s.id t.sales ≡ some s
      → pos 0 ≤ℤ s.credit_paise
      → compensate locale_compare ctx draws reason t s ≡ ok done
      → IsCancelled s t done.0 done.1
  compensate-IsCancelled ctx draws reason t s {done} present nonneg e =
      let (movements, store, books, moved, charged, after_is, shown) =
        compensate-Compensated ctx draws reason t s e in
      let shown_tables = subst (λ w. view_sale s.id w ≡ ok done.0) after_is shown in
      subst (λ w. IsCancelled s t done.0 w) (sym after_is)
        (cancelled_tables_lem ctx draws reason t s movements store books present nonneg moved
          charged shown_tables)

  pub cancel_sale-IsCancelled :
      (ctx : Context) (draws : Draws) (id : ℕ) (reason : Text) (t : Till) (s : SaleRow)
      {done : SaleView × Till}
      → find_sale id t.sales ≡ some s
      → s.status ≡ completed
      → pos 0 ≤ℤ s.credit_paise
      → cancel_sale locale_compare ctx draws id reason t ≡ ok done
      → IsCancelled s t done.0 done.1
  unfolding cancel_sale
  cancel_sale-IsCancelled ctx draws id reason t s {done} found open_sale nonneg e =
      let own = find_sale_id id t.sales found in
      let e1 = sym (ap (cancel_found locale_compare ctx draws id reason t) found) ∙ e in
      let e2 = sym (ap (by_status locale_compare ctx draws reason t s) open_sale) ∙ e1 in
      compensate-IsCancelled ctx draws reason t s (ap (λ i. find_sale i t.sales) own ∙ found) nonneg
        e2

  -- A second cancellation, under whatever identifiers, reason and user, gives back the cancelled bill and
  -- changes nothing: no stock, no credit and no money moves twice.
  pub cancel_sale_twice :
      (ctx ctx' : Context) (draws draws' : Draws) (id : ℕ) (reason reason' : Text) (t : Till)
      (s : SaleRow) {done : SaleView × Till}
      → find_sale id t.sales ≡ some s
      → s.status ≡ completed
      → pos 0 ≤ℤ s.credit_paise
      → cancel_sale locale_compare ctx draws id reason t ≡ ok done
      → cancel_sale locale_compare ctx' draws' id reason' done.1 ≡ ok done
  unfolding cancel_sale
  cancel_sale_twice ctx ctx' draws draws' id reason reason' t s {done} found open_sale nonneg e =
      let own = find_sale_id id t.sales found in
      let found_own = ap (λ i. find_sale i t.sales) own ∙ found in
      let e1 = sym (ap (cancel_found locale_compare ctx draws id reason t) found) ∙ e in
      let e2 = sym (ap (by_status locale_compare ctx draws reason t s) open_sale) ∙ e1 in
      let (_, _, _, _, _, _, shown_ok) = compensate-Compensated ctx draws reason t s e2 in
      let first = compensate-IsCancelled ctx draws reason t s found_own nonneg e2 in
      let now = done.0.sale in
      let again : Result SaleFault SaleView → Result SaleFault (SaleView × Till) =
        λ m. m >>= λ view. ok (view, done.1) in
      ap (cancel_found locale_compare ctx' draws' id reason' done.1)
        (ap (λ i. find_sale i done.1.sales) (sym own) ∙ first.found)
      ∙ ap (by_status locale_compare ctx' draws' reason' done.1 now) first.status_is
      ∙ ap again
          (ap (λ i. view_sale i done.1) (find_sale_id s.id done.1.sales first.found) ∙ shown_ok)
