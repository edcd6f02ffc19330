-- ===== src/Sales/Returns/Rows.antt =====
-- What `create` of apps/api/src/modules/sales/returns.service.ts writes: the return, its lines, its row of
-- money and its entry in the ledger.
use dukaano.Base.{
  Bool, List, Option, [], if◌then◌else◌, is_empty, none, not, some, true, ℕ, ◌&&◌, ◌++◌, ◌+◌, ◌||◌,
  ◌∷◌,
}
use dukaano.Base.Int.{eqb_ℤ, leb_ℤ, ltb_ℤ, pos, ℤ, ◌+ℤ◌}
use dukaano.Base.Text.{Text, codes}
use dukaano.Khata.{Books, Context, Request, is_none, sale_return_ref}
use dukaano.Khata.Payments.{Payment, outgoing}
use dukaano.Khata.Payments.Reverse.{is_incoming}
use dukaano.Ledger.{return_credit}
use dukaano.Money.Errors.{Number}
use dukaano.Sales.{
  Draws, ReturnItemRow, ReturnRow, SaleRow, Till, is_for, sale_document, update_sale,
}
use dukaano.Sales.Returns.{CreateReturnInput, ResolvedLine, total_lines}
use dukaano.Sales.Rows.{document_change, payment_changes}
use dukaano.Stock.{Store}

-- What is known of a return before the first row is written.
pub record Refund : Type 0 where
  pub id : ℕ
  pub number : Text
  pub lines : List ResolvedLine
  pub cash : ℤ
  pub credit : ℤ
  pub occurred_at : ℤ
  pub business_date : ℤ

abbrev pub return_row : Context → SaleRow → CreateReturnInput → Refund → ReturnRow
return_row context s input refund = record {
  id = refund.id;
  sale_id = s.id;
  customer_id = s.customer_id;
  return_number = refund.number;
  total_paise = total_lines refund.lines;
  refund_cash_paise = refund.cash;
  refund_credit_paise = refund.credit;
  reason = input.reason;
  business_date = refund.business_date;
  occurred_at = refund.occurred_at;
  created_by_user_id = context.user_id;
  device_id = context.device_id;
  op_id = input.op_id;
}

unfoldable pub return_item_rows : Draws → ℕ → ℕ → List ResolvedLine → List ReturnItemRow
return_item_rows draws position id [] = []
return_item_rows draws position id (l ∷ lines) =
    record {
      id = draws.item_id position;
      return_id = id;
      sale_item_id = l.sale_item_id;
      product_id = l.product_id;
      qty_milli = l.qty_milli;
      unit_price_paise = l.unit_price_paise;
      line_total_paise = l.line_total_paise;
    }
    ∷ return_item_rows draws (position + 1) id lines

-- The checks of the two tables.
abbrev pub lines_pass : List ResolvedLine → Bool
lines_pass [] = true
lines_pass (l ∷ lines) =
    ltb_ℤ (pos 0) l.qty_milli && leb_ℤ (pos 0) l.line_total_paise && lines_pass lines

abbrev pub passes_checks : SaleRow → Refund → Bool
passes_checks s refund =
    eqb_ℤ (total_lines refund.lines) (refund.cash +ℤ refund.credit)
    && leb_ℤ (pos 0) (total_lines refund.lines)
    && leb_ℤ (pos 0) refund.cash
    && leb_ℤ (pos 0) refund.credit
    && (eqb_ℤ refund.credit (pos 0) || not (is_none s.customer_id))
    && lines_pass refund.lines

abbrev pub uncharge : CreateReturnInput → Refund → ℕ → Request
uncharge input refund customer = record {
  customer_id = customer;
  entry_type = return_credit;
  magnitude_paise = Number.whole refund.credit;
  ref_type = some sale_return_ref;
  ref_id = some refund.id;
  reason = input.reason;
  note = none;
  occurred_at = some refund.occurred_at;
  op_id = none;
}

-- The method of the first payment that came in, and cash where there is none.
unfoldable pub refund_method : ℕ → List Payment → ℕ
refund_method id [] = 0
refund_method id (p ∷ payments) =
    let rest = refund_method id payments in
    if is_for id p.sale_id && is_incoming p.direction then p.method else rest

-- `${reason ? `: ${reason}` : ''}`
abbrev pub reason_note : Option Text → Text
reason_note none = []
reason_note (some reason) = if is_empty reason then [] else codes ": " ++ reason

abbrev pub cash_row : Context → Draws → SaleRow → CreateReturnInput → Refund → Till → Payment
cash_row context draws s input refund t = record {
  id = draws.payment_id 0;
  customer_id = s.customer_id;
  sale_id = some s.id;
  direction = outgoing;
  method = refund_method s.id t.payments;
  amount_paise = refund.cash;
  reference = none;
  note = some (codes "Return " ++ refund.number ++ reason_note input.reason);
  business_date = refund.business_date;
  occurred_at = refund.occurred_at;
  created_by_user_id = context.user_id;
  device_id = context.device_id;
  op_id = none;
  reversed_by_payment_id = none;
  reversal_of_payment_id = none;
}

abbrev pub cash_rows : Context → Draws → SaleRow → CreateReturnInput → Refund → Till → List Payment
cash_rows context draws s input refund t =
    if ltb_ℤ (pos 0) refund.cash then cash_row context draws s input refund t ∷ [] else []

abbrev pub touched : SaleRow → SaleRow
touched s = record s { row_version = s.row_version + 1 }

abbrev pub returned_tables :
    Context → Draws → SaleRow → CreateReturnInput → Refund → Books → Store → Till → Till
returned_tables context draws s input refund books store t =
    let cash = cash_rows context draws s input refund t in
    record t {
      sales = update_sale s.id touched t.sales;
      returns = t.returns ++ return_row context s input refund ∷ [];
      return_items = t.return_items ++ return_item_rows draws 0 refund.id refund.lines;
      payments = t.payments ++ cash;
      books = books;
      store = store;
      changes = t.changes ++ (document_change sale_document s.id 2 ∷ payment_changes cash);
    }
