-- ===== src/Sales/Returns/Give.antt =====
-- `create` and `resolveLines` of apps/api/src/modules/sales/returns.service.ts.
use dukaano.Base.{
  List, Option, Result, err, map, map_err, map_result, none, not, ok, or_else, some, throw_if, ℕ,
  ◌&&◌, ◌>>=◌, ◌>>◌,
}
use dukaano.Base.Int.{ltb_ℤ, pos, ℤ, ◌-ℤ◌}
use dukaano.Base.Text.{Text, codes}
use dukaano.Khata.{Context, append, is_none}
use dukaano.Khata.Payments.{returned}
use dukaano.Sales.{
  Draws, ReturnRow, SaleFault, SaleItemRow, SaleRow, SaleStatus, Till, cancelled, check_violated,
  completed, customer_required, find_sale, in_stock, items_of, no_user, refund_exceeds_paid,
  return_exceeds_sold, sale_already_cancelled, sale_item_missing, sale_missing, update_sale,
}
use dukaano.Sales.Number.{next_number, number_or_next}
use dukaano.Sales.Returns.{
  CreateReturnInput, ResolvedLine, ReturnLineInput, ReturnView, find_item, find_return, goods_back,
  max_cash_refund, returned_qty, total_lines, view_return,
}
use dukaano.Sales.Returns.Rows.{
  Refund, passes_checks, refund_method, return_item_rows, returned_tables, uncharge,
}
use dukaano.Sales.Rows.{append_for}
use dukaano.Stock.Batch.{apply_stock_movements}

-- nextReturnNumber
abbrev pub return_number_for : Till → Result SaleFault Text
return_number_for t =
    number_or_next none
      (next_number (codes "RET-") (map (λ (r : ReturnRow). r.return_number) t.returns))

module _ (net_value : ℤ → ℤ → ℤ → ℤ) where
  abbrev pub resolved_line : ReturnLineInput → SaleItemRow → ResolvedLine
  resolved_line request i = record {
    sale_item_id = i.id;
    product_id = i.product_id;
    qty_milli = request.qty_milli;
    unit_price_paise = i.unit_price_paise;
    line_total_paise = net_value i.line_total_paise i.qty_milli request.qty_milli;
  }

  abbrev pub resolve_found :
      (ℕ → ℤ) → ReturnLineInput → Option SaleItemRow → Result SaleFault ResolvedLine
  resolve_found returned request none = err (sale_item_missing request.sale_item_id)
  resolve_found returned request (some i) =
      throw_if (ltb_ℤ (i.qty_milli -ℤ returned i.id) request.qty_milli)
        (return_exceeds_sold (i.qty_milli -ℤ returned i.id) request.qty_milli)
      >> ok (resolved_line request i)

  unfoldable pub resolve_line :
      List SaleItemRow → (ℕ → ℤ) → ReturnLineInput → Result SaleFault ResolvedLine
  unfolding find_item
  resolve_line items returned request =
      resolve_found returned request (find_item request.sale_item_id items)

  -- resolveLines
  unfoldable pub resolve_lines :
      List SaleItemRow → (ℕ → ℤ) → CreateReturnInput → Result SaleFault (List ResolvedLine)
  unfolding resolve_line
  resolve_lines items returned input = map_result (resolve_line items returned) input.items

  module _ (business_date_for : ℤ → ℤ) (locale_compare : ℕ → ℕ → ℤ) where
    unfoldable pub write_return :
        Context
        → Draws
        → SaleRow
        → CreateReturnInput
        → Refund
        → Till
        → Result SaleFault (ReturnView × Till)
    unfolding return_item_rows apply_stock_movements append refund_method update_sale view_return
    write_return context draws s input refund t = do
      throw_if (not (passes_checks s refund)) check_violated
      (movements, store) ← map_err in_stock (
          apply_stock_movements locale_compare context draws.movement_id draws.clock
            (map (goods_back refund.id refund.occurred_at) refund.lines) t.store)
      books ←
          append_for context draws.entry_id draws.now refund.credit (uncharge input refund)
            s.customer_id t.books
      view ← view_return refund.id (returned_tables context draws s input refund books store t)
      ok (view, returned_tables context draws s input refund books store t)

    -- The split of the refund: credit first, then cash.
    unfoldable pub split_refund :
        Context
        → Draws
        → ℕ
        → SaleRow
        → CreateReturnInput
        → List ResolvedLine
        → Till
        → Result SaleFault (ReturnView × Till)
    unfolding next_number write_return
    split_refund context draws id s input lines t = do
      let cash = or_else input.refund_cash_paise (max_cash_refund s lines)
      throw_if (ltb_ℤ (max_cash_refund s lines) cash)
          (refund_exceeds_paid (max_cash_refund s lines) cash)
      let credit = total_lines lines -ℤ cash
      throw_if (ltb_ℤ (pos 0) credit && is_none s.customer_id) customer_required
      number ← return_number_for t
      let occurred_at = or_else input.occurred_at draws.now
      write_return context draws s input
          (record {
            id = id;
            number = number;
            lines = lines;
            cash = cash;
            credit = credit;
            occurred_at = occurred_at;
            business_date = business_date_for occurred_at;
          })
          t

    unfoldable pub return_of_sale :
        Context
        → Draws
        → ℕ
        → SaleRow
        → CreateReturnInput
        → Till
        → Result SaleFault (ReturnView × Till)
    unfolding items_of returned_qty resolve_lines split_refund
    return_of_sale context draws id s input t = do
      lines ←
          resolve_lines (items_of s.id t.items)
            (λ item. returned_qty s.id item t.returns t.return_items) input
      split_refund context draws id s input lines t

    abbrev pub unless_cancelled :
        Context
        → Draws
        → ℕ
        → CreateReturnInput
        → Till
        → SaleRow
        → SaleStatus
        → Result SaleFault (ReturnView × Till)
    unless_cancelled context draws id input t s cancelled = err sale_already_cancelled
    unless_cancelled context draws id input t s completed =
        return_of_sale context draws id s input t

    abbrev pub for_sale :
        Context
        → Draws
        → ℕ
        → ℕ
        → CreateReturnInput
        → Till
        → Option SaleRow
        → Result SaleFault (ReturnView × Till)
    for_sale context draws id sale_id input t none = err (sale_missing sale_id)
    for_sale context draws id sale_id input t (some s) =
        unless_cancelled context draws id input t s s.status

    abbrev pub unless_returned :
        Context
        → Draws
        → ℕ
        → ℕ
        → CreateReturnInput
        → Till
        → Option ReturnRow
        → Result SaleFault (ReturnView × Till)
    unless_returned context draws id sale_id input t (some existing) = do
      view ← view_return id t
      ok (view, t)
    unless_returned context draws id sale_id input t none =
        for_sale context draws id sale_id input t (find_sale sale_id t.sales)

    -- `create` of the returns service
    unfoldable pub create_return :
        Context → Draws → ℕ → CreateReturnInput → Till → Result SaleFault (ReturnView × Till)
    unfolding find_return find_sale return_of_sale
    create_return context draws sale_id input t = do
      throw_if (is_none context.user_id) no_user
      let id = or_else input.id draws.document_id
      unless_returned context draws id sale_id input t (find_return id t.returns)
