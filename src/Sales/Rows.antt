-- ===== src/Sales/Rows.antt =====
-- What `create` of apps/api/src/modules/sales/sales.service.ts writes: the sale, its rows of money, its
-- entry in the ledger and its movements.
use dukaano.Base.{
  Bool, List, Option, Result, [], false, if◌then◌else◌, map, map_err, none, ok, or_else, some, true,
  ℕ, ◌++◌, ◌+◌, ◌>>=◌, ◌||◌, ◌∷◌,
}
use dukaano.Base.Int.{ltb_ℤ, neg, pos, ℤ}
use dukaano.Base.Text.{Text, codes}
use dukaano.Khata.{Books, Context, Request, append, sale_ref}
use dukaano.Khata.Payments.{Payment, PaymentAllocation, incoming, view}
use dukaano.Ledger.{sale_credit}
use dukaano.Money.Errors.{Number}
use dukaano.Money.Line.{BillTotals}
use dukaano.Sales.{
  Document, DocumentChange, Draws, SaleFault, SaleItemRow, SaleRow, SaleView, Till, completed,
  in_ledger, mobile, payment_document, sale_document, update_sale,
}
use dukaano.Sales.Create.{
  CreateSaleInput, CreditWarning, SaleItemInput, SalePaymentInput, paid_of, tendered,
}
use dukaano.Stock.{MovementRequest, MovementResult, Store, TransactionType}

-- What is known of a bill before the first row is written.
pub record Bill : Type 0 where
  pub id : ℕ
  pub number : Text
  pub totals : BillTotals
  pub credit : ℤ
  pub warning : Option CreditWarning
  pub occurred_at : ℤ
  pub business_date : ℤ

abbrev pub sale_row : Context → Bill → CreateSaleInput → SaleRow
sale_row context bill input = record {
  id = bill.id;
  sale_number = bill.number;
  customer_id = input.customer_id;
  status = completed;
  subtotal_paise = bill.totals.subtotal_paise;
  line_discount_paise = bill.totals.line_discount_paise;
  bill_discount_paise = bill.totals.bill_discount_paise;
  rounding_adjustment_paise = bill.totals.rounding_adjustment_paise;
  total_paise = bill.totals.total_paise;
  paid_paise = paid_of (tendered input);
  credit_paise = bill.credit;
  business_date = bill.business_date;
  occurred_at = bill.occurred_at;
  source = or_else input.source mobile;
  drove_stock_negative = false;
  notes = input.notes;
  cancelled_at = none;
  cancelled_by_user_id = none;
  cancel_reason = none;
  created_by_user_id = context.user_id;
  device_id = context.device_id;
  op_id = input.op_id;
  row_version = 1;
}

abbrev pub tender_row : Context → ℕ → Bill → CreateSaleInput → SalePaymentInput → Payment
tender_row context id bill input p = record {
  id = id;
  customer_id = input.customer_id;
  sale_id = some bill.id;
  direction = incoming;
  method = p.method;
  amount_paise = p.amount_paise;
  reference = p.reference;
  note = none;
  business_date = bill.business_date;
  occurred_at = bill.occurred_at;
  created_by_user_id = context.user_id;
  device_id = context.device_id;
  op_id = none;
  reversed_by_payment_id = none;
  reversal_of_payment_id = none;
}

-- The payments and their allocations, the identifiers drawn from the position on.
unfoldable pub tender_rows :
    Context → Draws → ℕ → Bill → CreateSaleInput → List SalePaymentInput → List Payment
tender_rows context draws position bill input [] = []
tender_rows context draws position bill input (p ∷ payments) =
    tender_row context (draws.payment_id position) bill input p
    ∷ tender_rows context draws (position + 1) bill input payments

abbrev pub cleared : ℕ → Payment → PaymentAllocation
cleared id p = record { payment_id = p.id; sale_id = id; amount_paise = p.amount_paise }

abbrev pub charge : Bill → ℕ → Request
charge bill customer = record {
  customer_id = customer;
  entry_type = sale_credit;
  magnitude_paise = Number.whole bill.credit;
  ref_type = some sale_ref;
  ref_id = some bill.id;
  reason = none;
  note = none;
  occurred_at = some bill.occurred_at;
  op_id = none;
}

-- A ledger entry for the customer, if there is one and an amount.
abbrev pub append_for :
    Context → ℕ → ℤ → ℤ → (ℕ → Request) → Option ℕ → Books → Result SaleFault Books
append_for context id now amount request none books = ok books
append_for context id now amount request (some customer) books =
    if ltb_ℤ (pos 0) amount
    then (do
      (_, after) ← map_err in_ledger (append context id now (request customer) books)
      ok after)
    else ok books

abbrev pub taken : Bill → SaleItemInput → MovementRequest
taken bill i = record {
  product_id = i.product_id;
  transaction_type = TransactionType.sale;
  qty_delta_milli = neg i.qty_milli;
  unit_cost_paise = none;
  reason = none;
  note = none;
  ref_type = some (codes "SALE");
  ref_id = some bill.id;
  occurred_at = some bill.occurred_at;
  op_id = none;
}

abbrev pub any_negative : List MovementResult → Bool
any_negative [] = false
any_negative (m ∷ movements) = m.went_negative || any_negative movements

abbrev pub document_change : Document → ℕ → ℕ → DocumentChange
document_change entity id version = record {
  entity = entity;
  entity_id = id;
  row_version = version;
}

abbrev pub payment_changes : List Payment → List DocumentChange
payment_changes = map (λ (p : Payment). document_change payment_document p.id 1)

abbrev pub marked_negative : SaleRow → SaleRow
marked_negative s = record s { drove_stock_negative = true }

-- The tables once every row is written.
abbrev pub issued :
    Context
    → Draws
    → Bill
    → CreateSaleInput
    → List SaleItemRow
    → Books
    → List MovementResult
    → Store
    → Till
    → Till
issued context draws bill input rows books movements store t =
    let sales = t.sales ++ sale_row context bill input ∷ [] in
    let payments = tender_rows context draws 0 bill input (tendered input) in
    record t {
      sales = if any_negative movements then update_sale bill.id marked_negative sales else sales;
      items = t.items ++ rows;
      payments = t.payments ++ payments;
      allocations = t.allocations ++ map (cleared bill.id) payments;
      books = books;
      store = store;
      changes = t.changes ++ (document_change sale_document bill.id 1 ∷ payment_changes payments);
    }

abbrev pub shown :
    Option CreditWarning
    → Till
    → SaleView
    → Result SaleFault ((SaleView × Option CreditWarning) × Till)
shown warning t view = ok ((view, warning), t)
