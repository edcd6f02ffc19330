-- ===== src/Sales/Returns.antt =====
-- apps/api/src/modules/sales/returns.service.ts: goods that come back, as a document of their own. The
-- value of a part of a line, which the source computes with floating-point numbers
-- (`Math.round((lineTotal / sold) * qty)`), is a parameter. The checks of the tables sale_return and
-- sale_return_item (apps/api/prisma/migrations/20260816230000_sale_returns) are an exception.
pub mod Rows
pub mod Give
pub mod Written
pub mod Tables
pub mod Returned
pub mod Resolved
pub mod Counted
pub mod Returnable
use dukaano.Base.{
  Bool, List, Option, Result, [], err, false, if◌then◌else◌, none, ok, some, ℕ, ◌&&◌, ◌==◌, ◌∷◌,
}
use dukaano.Base.Int.{ltb_ℤ, pos, ℤ, ◌+ℤ◌, ◌-ℤ◌}
use dukaano.Base.Sort.{total_by}
use dukaano.Base.Table.{find_row}
use dukaano.Base.Text.{Text, codes}
use dukaano.Sales.{
  ReturnItemRow, ReturnRow, SaleFault, SaleItemRow, SaleRow, Till, sale_return_missing,
}
use dukaano.Stock.{MovementRequest, customer_return}

pub record ReturnLineInput : Type 0 where
  pub sale_item_id : ℕ
  pub qty_milli : ℤ

pub record CreateReturnInput : Type 0 where
  pub id : Option ℕ
  pub op_id : Option ℕ
  pub items : List ReturnLineInput
  pub refund_cash_paise : Option ℤ
  pub reason : Option Text
  pub occurred_at : Option ℤ

pub record ResolvedLine : Type 0 where
  pub sale_item_id : ℕ
  pub product_id : ℕ
  pub qty_milli : ℤ
  pub unit_price_paise : ℤ
  pub line_total_paise : ℤ

pub record ReturnView : Type 0 where
  pub sale_return : ReturnRow
  pub items : List ReturnItemRow

unfoldable pub find_return : ℕ → List ReturnRow → Option ReturnRow
unfolding find_row
find_return = find_row ReturnRow.id (λ r. r)

unfoldable pub return_items_of : ℕ → List ReturnItemRow → List ReturnItemRow
return_items_of id [] = []
return_items_of id (i ∷ items) =
    let rest = return_items_of id items in if i.return_id == id then i ∷ rest else rest

abbrev pub viewed_return : ℕ → Till → Option ReturnRow → Result SaleFault ReturnView
viewed_return id t none = err (sale_return_missing id)
viewed_return id t (some found) =
    ok (record { sale_return = found; items = return_items_of id t.return_items })

-- `findById` of the returns service
unfoldable pub view_return : ℕ → Till → Result SaleFault ReturnView
unfolding find_return return_items_of
view_return id t = viewed_return id t (find_return id t.returns)

-- returnedQuantities: what has come back of an item, over all returns of the sale.
abbrev pub is_of_sale : ℕ → Option ReturnRow → Bool
is_of_sale id none = false
is_of_sale id (some r) = r.sale_id == id

unfoldable pub returned_qty : ℕ → ℕ → List ReturnRow → List ReturnItemRow → ℤ
unfolding find_return
returned_qty sale_id item returns [] = pos 0
returned_qty sale_id item returns (i ∷ items) =
    let rest = returned_qty sale_id item returns items in
    if i.sale_item_id == item && is_of_sale sale_id (find_return i.return_id returns)
    then i.qty_milli +ℤ rest
    else rest

unfoldable pub find_item : ℕ → List SaleItemRow → Option SaleItemRow
unfolding find_row
find_item = find_row SaleItemRow.id (λ r. r)

-- `Math.min`
abbrev pub min_ℤ : ℤ → ℤ → ℤ
min_ℤ a b = if ltb_ℤ b a then b else a

abbrev pub total_lines : List ResolvedLine → ℤ
total_lines = total_by (λ (l : ResolvedLine). l.line_total_paise)

abbrev pub max_cash_refund : SaleRow → List ResolvedLine → ℤ
max_cash_refund s lines = total_lines lines -ℤ min_ℤ (total_lines lines) s.credit_paise

abbrev pub goods_back : ℕ → ℤ → ResolvedLine → MovementRequest
goods_back id occurred_at l = record {
  product_id = l.product_id;
  transaction_type = customer_return;
  qty_delta_milli = l.qty_milli;
  unit_cost_paise = none;
  reason = none;
  note = none;
  ref_type = some (codes "SALE_RETURN");
  ref_id = some id;
  occurred_at = some occurred_at;
  op_id = none;
}
