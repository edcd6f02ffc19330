-- ===== src/Sales/Cancel.antt =====
-- `cancel` of apps/api/src/modules/sales/sales.service.ts: compensating rows for a bill. A missing user is
-- `none`, where the source writes the empty text; the refunds share one instant.
use dukaano.Base.{
  Bool, List, Option, Result, [], err, if◌then◌else◌, ltb, map, map_err, none, ok, some, suc,
  throw_if, ℕ, ◌&&◌, ◌++◌, ◌+◌, ◌==◌, ◌>>=◌, ◌>>◌, ◌∷◌,
}
use dukaano.Base.Int.{ℤ}
use dukaano.Base.Text.{Text, codes}
use dukaano.Khata.{Books, Context, Request, append, is_none, sale_ref}
use dukaano.Khata.Payments.{Payment, outgoing}
use dukaano.Khata.Payments.Reverse.{is_incoming, mark_reversed}
use dukaano.Ledger.{sale_cancelled}
use dukaano.Money.Errors.{Number}
use dukaano.Sales.{
  DocumentChange, Draws, ReturnRow, SaleFault, SaleItemRow, SaleRow, SaleStatus, SaleView, Till,
  cancelled, completed, find_sale, in_stock, is_for, items_of, payment_document, sale_document,
  sale_has_returns, sale_missing, update_sale, view_sale,
}
use dukaano.Sales.Rows.{append_for, document_change}
use dukaano.Stock.{MovementRequest, Store, sale_cancel}
use dukaano.Stock.Batch.{apply_stock_movements}

abbrev pub is_refundable : ℕ → Payment → Bool
is_refundable id p =
    is_for id p.sale_id && is_incoming p.direction && is_none p.reversal_of_payment_id

-- `payments: { where: { direction: 'IN', reversalOfPaymentId: null } }`
unfoldable pub refundable_of : ℕ → List Payment → List Payment
refundable_of id [] = []
refundable_of id (p ∷ payments) =
    let rest = refundable_of id payments in if is_refundable id p then p ∷ rest else rest

unfoldable pub count_returns : ℕ → List ReturnRow → ℕ
count_returns id [] = 0
count_returns id (r ∷ returns) =
    if r.sale_id == id then suc (count_returns id returns) else count_returns id returns

abbrev pub cancelled_row : Context → Draws → Text → SaleRow → SaleRow
cancelled_row context draws reason s = record s {
  status = cancelled;
  cancelled_at = some draws.now;
  cancelled_by_user_id = context.user_id;
  cancel_reason = some reason;
  row_version = s.row_version + 1;
}

abbrev pub put_back : ℕ → Text → SaleItemRow → MovementRequest
put_back id reason i = record {
  product_id = i.product_id;
  transaction_type = sale_cancel;
  qty_delta_milli = i.qty_milli;
  unit_cost_paise = none;
  reason = some reason;
  note = none;
  ref_type = some (codes "SALE");
  ref_id = some id;
  occurred_at = none;
  op_id = none;
}

abbrev pub discharge : SaleRow → Text → ℕ → Request
discharge s reason customer = record {
  customer_id = customer;
  entry_type = sale_cancelled;
  magnitude_paise = Number.whole s.credit_paise;
  ref_type = some sale_ref;
  ref_id = some s.id;
  reason = some reason;
  note = none;
  occurred_at = none;
  op_id = none;
}

abbrev pub refund_row : Context → Draws → ℕ → SaleRow → Text → Payment → Payment
refund_row context draws id s reason p = record {
  id = id;
  customer_id = s.customer_id;
  sale_id = some s.id;
  direction = outgoing;
  method = p.method;
  amount_paise = p.amount_paise;
  reference = none;
  note = some (codes "Cancellation of " ++ s.sale_number ++ codes ": " ++ reason);
  business_date = s.business_date;
  occurred_at = draws.now;
  created_by_user_id = context.user_id;
  device_id = none;
  op_id = none;
  reversed_by_payment_id = none;
  reversal_of_payment_id = some p.id;
}

-- The loop over the payments: a row of money out, and the mark on the payment.
unfoldable pub refund_all :
    Context → Draws → ℕ → SaleRow → Text → List Payment → List Payment → List Payment
unfolding mark_reversed
refund_all context draws position s reason [] payments = payments
refund_all context draws position s reason (p ∷ refunded) payments =
    let id = draws.payment_id position in
    refund_all context draws (position + 1) s reason refunded
      (mark_reversed p.id id (payments ++ refund_row context draws id s reason p ∷ []))

unfoldable pub refund_changes : Draws → ℕ → List Payment → List DocumentChange
refund_changes draws position [] = []
refund_changes draws position (p ∷ refunded) =
    document_change payment_document (draws.payment_id position) 1
    ∷ refund_changes draws (position + 1) refunded

abbrev pub cancelled_tables : Context → Draws → SaleRow → Text → Books → Store → Till → Till
cancelled_tables context draws s reason books store t =
    let refunded = refundable_of s.id t.payments in
    record t {
      sales = update_sale s.id (cancelled_row context draws reason) t.sales;
      payments = refund_all context draws 0 s reason refunded t.payments;
      books = books;
      store = store;
      changes =
          t.changes ++ (document_change sale_document s.id 2 ∷ refund_changes draws 0 refunded);
    }

module _ (locale_compare : ℕ → ℕ → ℤ) where
  unfoldable pub compensate :
      Context → Draws → Text → Till → SaleRow → Result SaleFault (SaleView × Till)
  unfolding items_of apply_stock_movements append refundable_of refund_all refund_changes
      update_sale view_sale count_returns
  compensate context draws reason t s = do
    throw_if (ltb 0 (count_returns s.id t.returns)) sale_has_returns
    (movements, store) ← map_err in_stock (
        apply_stock_movements locale_compare context draws.movement_id draws.clock
          (map (put_back s.id reason) (items_of s.id t.items)) t.store)
    books ←
        append_for context draws.entry_id draws.now s.credit_paise (discharge s reason)
          s.customer_id t.books
    view ← view_sale s.id (cancelled_tables context draws s reason books store t)
    ok (view, cancelled_tables context draws s reason books store t)

  abbrev pub by_status :
      Context → Draws → Text → Till → SaleRow → SaleStatus → Result SaleFault (SaleView × Till)
  by_status context draws reason t s cancelled = do view ← view_sale s.id t; ok (view, t)
  by_status context draws reason t s completed = compensate context draws reason t s

  abbrev pub cancel_found :
      Context → Draws → ℕ → Text → Till → Option SaleRow → Result SaleFault (SaleView × Till)
  cancel_found context draws id reason t none = err (sale_missing id)
  cancel_found context draws id reason t (some s) = by_status context draws reason t s s.status

  -- `cancel` of the sales service
  unfoldable pub cancel_sale :
      Context → Draws → ℕ → Text → Till → Result SaleFault (SaleView × Till)
  unfolding find_sale compensate
  cancel_sale context draws id reason t =
      cancel_found context draws id reason t (find_sale id t.sales)
