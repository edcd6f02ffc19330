-- ===== src/Sales/Create.antt =====
-- `create` of apps/api/src/modules/sales/sales.service.ts: a bill is issued.
use dukaano.Base.{
  Bool, List, Option, Result, [], err, if◌then◌else◌, map_result, none, not, ok, or_else, some,
  throw_if, ℕ, ◌+◌, ◌>>=◌, ◌>>◌, ◌∷◌,
}
use dukaano.Base.Int.{eqb_ℤ, leb_ℤ, ltb_ℤ, pos, ℤ, ◌*ℤ◌, ◌+ℤ◌, ◌-ℤ◌, ◌/ℤ◌}
use dukaano.Base.Sort.{total_by}
use dukaano.Base.Table.{find_row}
use dukaano.Base.Text.{Text, codes}
use dukaano.Inventory.{CostingState}
use dukaano.Khata.{find_balance, is_none}
use dukaano.Money.Brand.{as_milli, as_paise}
use dukaano.Money.Errors.{Number, Throws}
use dukaano.Money.Line.{
  BillTotals, LineInput, RoundingPolicy, compute_bill_totals, credit_portion, none_policy,
}
use dukaano.Sales.{
  CatalogueProduct, CustomerRow, Draws, SaleFault, SaleItemRow, SaleSource, ShopSettings, Till,
  credit_limit_exceeded, product_missing,
}
use dukaano.Stock.{find_stock}

-- SaleItemInput, SalePaymentInput and CreateSaleInput
pub record SaleItemInput : Type 0 where
  pub product_id : ℕ
  pub qty_milli : ℤ
  pub unit_price_paise : ℤ
  pub discount_paise : Option ℤ

pub record SalePaymentInput : Type 0 where
  pub method : ℕ
  pub amount_paise : ℤ
  pub reference : Option Text

pub record CreateSaleInput : Type 0 where
  pub id : Option ℕ
  pub op_id : Option ℕ
  pub customer_id : Option ℕ
  pub items : List SaleItemInput
  pub bill_discount_paise : Option ℤ
  pub payments : Option (List SalePaymentInput)
  pub sale_number : Option Text
  pub occurred_at : Option ℤ
  pub notes : Option Text
  pub source : Option SaleSource
  pub override_credit_limit : Bool

pub record CreditWarning : Type 0 where
  pub limit_paise : ℤ
  pub would_be_paise : ℤ

unfoldable pub find_catalogue : ℕ → List CatalogueProduct → Option CatalogueProduct
unfolding find_row
find_catalogue = find_row CatalogueProduct.id (λ r. r)

unfoldable pub find_customer : ℕ → List CustomerRow → Option CustomerRow
unfolding find_row
find_customer = find_row CustomerRow.id (λ r. r)

-- loadProducts: the first product that is not there is the one that the exception names.
unfoldable pub load_products :
    List SaleItemInput → List CatalogueProduct → Result SaleFault (Unit {0})
unfolding find_catalogue
load_products [] catalogue = ok tt
load_products (i ∷ items) catalogue =
    throw_if (is_none (find_catalogue i.product_id catalogue)) (product_missing i.product_id)
    >> load_products items catalogue

-- The arithmetic of the bill.
abbrev pub line_input : SaleItemInput → Throws LineInput
line_input i = do
  price ← as_paise (Number.whole i.unit_price_paise)
  qty ← as_milli (Number.whole i.qty_milli)
  discount ← as_paise (Number.whole (or_else i.discount_paise (pos 0)))
  ok (record { unit_price_paise = price; qty_milli = qty; discount_paise = some discount })

abbrev pub policy_of : Option ShopSettings → RoundingPolicy
policy_of none = none_policy
policy_of (some s) = s.rounding_policy

unfoldable pub bill_of : Option ShopSettings → CreateSaleInput → Throws BillTotals
bill_of settings input = do
  lines ← map_result line_input input.items
  discount ← as_paise (Number.whole (or_else input.bill_discount_paise (pos 0)))
  compute_bill_totals lines discount (policy_of settings)

abbrev pub tendered : CreateSaleInput → List SalePaymentInput
tendered input = or_else input.payments []

abbrev pub paid_of : List SalePaymentInput → ℤ
paid_of = total_by (λ (p : SalePaymentInput). p.amount_paise)

abbrev pub credit_of : BillTotals → CreateSaleInput → Throws ℤ
credit_of totals input = do
  credit_portion totals.total_paise (← as_paise (Number.whole (paid_of (tendered input))))

-- checkCreditLimit; a limit of zero is none.
abbrev pub over_limit : Bool → ℤ → ℤ → Result SaleFault (Option CreditWarning)
over_limit override limit would_be =
    if leb_ℤ would_be limit
    then ok none
    else throw_if (not override) (credit_limit_exceeded limit would_be)
      >> ok (some (record { limit_paise = limit; would_be_paise = would_be }))

abbrev pub limit_of : Option CustomerRow → ℤ
limit_of none = pos 0
limit_of (some c) = or_else c.credit_limit_paise (pos 0)

unfoldable pub check_credit_limit : ℕ → ℤ → Bool → Till → Result SaleFault (Option CreditWarning)
unfolding find_customer find_balance
check_credit_limit customer credit override t =
    let limit = limit_of (find_customer customer t.customers) in
    if eqb_ℤ limit (pos 0)
    then ok none
    else over_limit override limit
        (or_else (find_balance customer t.books.balances) (pos 0) +ℤ credit)

abbrev pub credit_warning : Option ℕ → ℤ → Bool → Till → Result SaleFault (Option CreditWarning)
credit_warning none credit override t = ok none
credit_warning (some customer) credit override t =
    if ltb_ℤ (pos 0) credit then check_credit_limit customer credit override t else ok none

-- The line of an item, with its price worked out once more in place.
abbrev pub product_name : CatalogueProduct → Text
product_name p = or_else p.name_en (or_else p.name_hi (codes "Unknown"))

unfoldable pub gross_of : SaleItemInput → ℤ
gross_of i = (i.unit_price_paise *ℤ i.qty_milli +ℤ pos 500) /ℤ pos 1000

abbrev pub average_of : Option CostingState → Option ℤ
average_of none = none
average_of (some held) = some held.avg_cost_paise

abbrev pub item_row :
    ℕ → ℕ → ℕ → SaleItemInput → Option CostingState → CatalogueProduct → SaleItemRow
item_row id sale position i held product = record {
  id = id;
  sale_id = sale;
  product_id = i.product_id;
  product_name_snapshot = product_name product;
  unit_snapshot = product.unit_code;
  qty_milli = i.qty_milli;
  unit_price_paise = i.unit_price_paise;
  discount_paise = or_else i.discount_paise (pos 0);
  line_total_paise = gross_of i -ℤ or_else i.discount_paise (pos 0);
  cost_paise_snapshot = average_of held;
  sort_order = position;
}

abbrev pub found_catalogue : ℕ → Option CatalogueProduct → Result SaleFault CatalogueProduct
found_catalogue id none = err (product_missing id)
found_catalogue id (some p) = ok p

unfoldable pub item_rows :
    Draws → ℕ → ℕ → List SaleItemInput → Till → Result SaleFault (List SaleItemRow)
unfolding find_catalogue find_stock gross_of
item_rows draws sale position [] t = ok []
item_rows draws sale position (i ∷ items) t = do
  product ← found_catalogue i.product_id (find_catalogue i.product_id t.catalogue)
  rest ← item_rows draws sale (position + 1) items t
  ok (
      item_row (draws.item_id position) sale position i (find_stock i.product_id t.store.balances)
        product
      ∷ rest)
