-- ===== src/Sales.antt =====
-- apps/api/src/modules/sales: bills, their cancellation and their returns, on the tables of one shop in the
-- order of insertion. Identifiers are numbers, and those that a call draws, the instants and the time
-- zone's business date are its arguments. The columns of a customer that an answer shows, and the
-- warnings that are logged, are left out.
pub mod Number
pub mod Create
pub mod Rows
pub mod Issue
pub mod Keeps
pub mod Charged
pub mod Written
pub mod Tables
pub mod Issued
pub mod Lines
pub mod Cancel
pub mod Refunded
pub mod Cancelled
pub mod RoundTrip
pub mod Returns
mod Tests
use dukaano.Base.{
  Bool, List, Option, Result, [], err, false, if◌then◌else◌, none, ok, some, ℕ, ◌==◌, ◌∷◌,
}
use dukaano.Base.Int.{pos, ℤ, ◌-ℤ◌}
use dukaano.Base.Sort.{sort_by}
use dukaano.Base.Table.{change_rows, find_row}
use dukaano.Base.Text.{Text}
use dukaano.Khata.{Books, Fault}
use dukaano.Khata.Payments.{Payment, PaymentAllocation}
use dukaano.Money.Errors.{Exception}
use dukaano.Money.Line.{RoundingPolicy}
use dukaano.Stock.{StockFault, Store}

pub data SaleStatus : Type 0 where
  completed cancelled : SaleStatus

pub data SaleSource : Type 0 where
  mobile web : SaleSource

-- A row of sale.
pub record SaleRow : Type 0 where
  pub id : ℕ
  pub sale_number : Text
  pub customer_id : Option ℕ
  pub status : SaleStatus
  pub subtotal_paise : ℤ
  pub line_discount_paise : ℤ
  pub bill_discount_paise : ℤ
  pub rounding_adjustment_paise : ℤ
  pub total_paise : ℤ
  pub paid_paise : ℤ
  pub credit_paise : ℤ
  pub business_date : ℤ
  pub occurred_at : ℤ
  pub source : SaleSource
  pub drove_stock_negative : Bool
  pub notes : Option Text
  pub cancelled_at : Option ℤ
  pub cancelled_by_user_id : Option ℕ
  pub cancel_reason : Option Text
  pub created_by_user_id : Option ℕ
  pub device_id : Option ℕ
  pub op_id : Option ℕ
  pub row_version : ℕ

-- A row of sale_item.
pub record SaleItemRow : Type 0 where
  pub id : ℕ
  pub sale_id : ℕ
  pub product_id : ℕ
  pub product_name_snapshot : Text
  pub unit_snapshot : Text
  pub qty_milli : ℤ
  pub unit_price_paise : ℤ
  pub discount_paise : ℤ
  pub line_total_paise : ℤ
  pub cost_paise_snapshot : Option ℤ
  pub sort_order : ℕ

-- A row of sale_return, and of sale_return_item.
pub record ReturnRow : Type 0 where
  pub id : ℕ
  pub sale_id : ℕ
  pub customer_id : Option ℕ
  pub return_number : Text
  pub total_paise : ℤ
  pub refund_cash_paise : ℤ
  pub refund_credit_paise : ℤ
  pub reason : Option Text
  pub business_date : ℤ
  pub occurred_at : ℤ
  pub created_by_user_id : Option ℕ
  pub device_id : Option ℕ
  pub op_id : Option ℕ

pub record ReturnItemRow : Type 0 where
  pub id : ℕ
  pub return_id : ℕ
  pub sale_item_id : ℕ
  pub product_id : ℕ
  pub qty_milli : ℤ
  pub unit_price_paise : ℤ
  pub line_total_paise : ℤ

-- The columns of shop_settings, product and customer that are read.
pub record ShopSettings : Type 0 where
  pub rounding_policy : RoundingPolicy

pub record CatalogueProduct : Type 0 where
  pub id : ℕ
  pub name_en : Option Text
  pub name_hi : Option Text
  pub unit_code : Text

pub record CustomerRow : Type 0 where
  pub id : ℕ
  pub credit_limit_paise : Option ℤ

pub data Document : Type 0 where
  sale_document payment_document : Document

-- A row of the change log; the ledger and the stock have their own.
pub record DocumentChange : Type 0 where
  pub entity : Document
  pub entity_id : ℕ
  pub row_version : ℕ

pub record Till : Type 0 where
  pub settings : Option ShopSettings
  pub catalogue : List CatalogueProduct
  pub customers : List CustomerRow
  pub sales : List SaleRow
  pub items : List SaleItemRow
  pub returns : List ReturnRow
  pub return_items : List ReturnItemRow
  pub payments : List Payment
  pub allocations : List PaymentAllocation
  pub books : Books
  pub store : Store
  pub changes : List DocumentChange

pub data SaleFault : Type 0 where
  no_user customer_required sale_has_returns sale_already_cancelled : SaleFault
  sale_missing sale_item_missing sale_return_missing product_missing : ℕ → SaleFault
  check_violated number_out_of_range : SaleFault
  overpayment credit_limit_exceeded refund_exceeds_paid return_exceeds_sold : ℤ → ℤ → SaleFault
  in_money : Exception → SaleFault
  in_ledger : Fault → SaleFault
  in_stock : StockFault → SaleFault

-- What one call draws: an identifier for each row that it makes, and the instants.
pub record Draws : Type 0 where
  pub document_id : ℕ
  pub item_id : ℕ → ℕ
  pub payment_id : ℕ → ℕ
  pub entry_id : ℕ
  pub movement_id : ℕ → ℕ
  pub now : ℤ
  pub clock : ℕ → ℤ

unfoldable pub find_sale : ℕ → List SaleRow → Option SaleRow
unfolding find_row
find_sale = find_row SaleRow.id (λ r. r)

unfoldable pub items_of : ℕ → List SaleItemRow → List SaleItemRow
items_of sale [] = []
items_of sale (i ∷ items) =
    let rest = items_of sale items in if i.sale_id == sale then i ∷ rest else rest

abbrev pub is_for : ℕ → Option ℕ → Bool
is_for id none = false
is_for id (some other) = other == id

unfoldable pub payments_of : ℕ → List Payment → List Payment
payments_of sale [] = []
payments_of sale (p ∷ payments) =
    let rest = payments_of sale payments in if is_for sale p.sale_id then p ∷ rest else rest

pub record SaleView : Type 0 where
  pub sale : SaleRow
  pub items : List SaleItemRow
  pub payments : List Payment

-- `{ sortOrder: 'asc' }`
abbrev pub in_order : SaleItemRow → SaleItemRow → ℤ
in_order a b = pos a.sort_order -ℤ pos b.sort_order

abbrev pub viewed : ℕ → Till → Option SaleRow → Result SaleFault SaleView
viewed id t none = err (sale_missing id)
viewed id t (some found) = ok (record {
  sale = found;
  items = sort_by in_order (items_of id t.items);
  payments = payments_of id t.payments;
})

-- `findById` of the sales service
unfoldable pub view_sale : ℕ → Till → Result SaleFault SaleView
unfolding find_sale items_of payments_of
view_sale id t = viewed id t (find_sale id t.sales)

-- `sale.update({ where: { id } })`
unfoldable pub update_sale : ℕ → (SaleRow → SaleRow) → List SaleRow → List SaleRow
unfolding change_rows
update_sale = change_rows SaleRow.id
