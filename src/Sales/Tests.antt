-- ===== src/Sales/Tests.antt =====
-- A bill of apps/api/src/modules/sales, bought on credit at a shop that has sold nothing yet.
mod Issue
mod Cancel
mod Returns
mod Queued
use dukaano.Base.{List, Option, [], false, none, ok, refl, some, value_or, ℕ, ◌+◌, ◌∷◌, ◌≡◌}
use dukaano.Base.Double.{number_text, to_double}
use dukaano.Base.Int.{neg, pos, ℤ, ◌*ℤ◌, ◌+ℤ◌, ◌-ℤ◌, ◌/ℤ◌}
use dukaano.Base.Sort.{sort_by}
use dukaano.Base.Text.{codes}
use dukaano.Inventory.{apply_movement, crossed_below_threshold}
use dukaano.Khata.{Context, find_balance, sum_entries}
use dukaano.Ledger.{apply_ledger_entry, ledger_entry_requires_reason, signed_ledger_amount}
use dukaano.Money.Arithmetic.{add_milli, add_paise, sub_paise, total_from}
use dukaano.Money.Brand.{as_milli, as_paise, from_bigint, is_safe_int}
use dukaano.Money.Line.{
  BillTotals, compute_bill_totals, compute_line, credit_portion, line_total, nearest_rupee,
  round_off,
}
use dukaano.Money.Round.{div_round_half_away_from_zero, round_to_nearest_step}
use dukaano.Sales.{Draws, SaleItemRow, SaleView, Till, completed, find_sale, items_of}
use dukaano.Sales.Create.{CreateSaleInput, CreditWarning, item_row, item_rows}
use dukaano.Sales.Issue.{create_sale}
use dukaano.Sales.Returns.{find_return, return_items_of}
use dukaano.Sales.Rows.{sale_row}
use dukaano.Sales.Tables.{IsKept}
use dukaano.Stock.{find_stock}
use dukaano.Stock.Rows.{sum_movements}

abbrev pub same_day : ℤ → ℤ
same_day t = t

abbrev pub by_number : ℕ → ℕ → ℤ
by_number a b = pos a -ℤ pos b

abbrev pub clerk : Context
clerk = record { shop_id = some 1; user_id = some 2; device_id = none }

abbrev pub shop : Till
shop = record {
  settings = some (record { rounding_policy = nearest_rupee });
  catalogue =
      record { id = 8; name_en = some (codes "Sugar"); name_hi = none; unit_code = codes "kg" }
      ∷ [];
  customers = record { id = 7; credit_limit_paise = none } ∷ [];
  sales = [];
  items = [];
  returns = [];
  return_items = [];
  payments = [];
  allocations = [];
  books = record { entries = []; balances = []; changes = [] };
  store = record {
    products = record { id = 8; low_stock_threshold_milli = pos 0 } ∷ [];
    transactions = [];
    balances = [];
    changes = [];
  };
  changes = [];
}

pub shop-IsKept : IsKept shop
unfolding find_balance sum_entries find_stock sum_movements
shop-IsKept = (((λ c. refl), tt), (λ c. refl))

abbrev pub cart : CreateSaleInput
cart = record {
  id = some 30;
  op_id = none;
  customer_id = some 7;
  items =
      record {
        product_id = 8;
        qty_milli = pos 2_500;
        unit_price_paise = pos 4_550;
        discount_paise = some (pos 75);
      }
      ∷ [];
  bill_discount_paise = some (pos 100);
  payments = some (record { method = 0; amount_paise = pos 6_000; reference = none } ∷ []);
  sale_number = none;
  occurred_at = none;
  notes = none;
  source = none;
  override_credit_limit = false;
}

abbrev pub drawn : Draws
drawn = record {
  document_id = 31;
  item_id = λ k. 100 + k;
  payment_id = λ k. 200 + k;
  entry_id = 300;
  movement_id = λ k. 400 + k;
  now = pos 1_000;
  clock = λ k. pos 1_000;
}

abbrev pub drawn_later : Draws
drawn_later = record {
  document_id = 41;
  item_id = λ k. 110 + k;
  payment_id = λ k. 210 + k;
  entry_id = 310;
  movement_id = λ k. 410 + k;
  now = pos 2_000;
  clock = λ k. pos 2_000;
}

abbrev pub no_totals : BillTotals
no_totals = record {
  subtotal_paise = pos 0;
  line_discount_paise = pos 0;
  bill_discount_paise = pos 0;
  rounding_adjustment_paise = pos 0;
  total_paise = pos 0;
}

abbrev pub no_view : SaleView
no_view = record {
  sale =
      sale_row clerk
        (record {
          id = 0;
          number = [];
          totals = no_totals;
          credit = pos 0;
          warning = none;
          occurred_at = pos 0;
          business_date = pos 0;
        })
        cart;
  items = [];
  payments = [];
}

abbrev pub bought : (SaleView × Option CreditWarning) × Till
bought = value_or ((no_view, none), shop) (create_sale same_day by_number clerk drawn cart shop)

pub bought_ok : create_sale same_day by_number clerk drawn cart shop ≡ ok bought
unfolding create_sale as_paise as_milli is_safe_int from_bigint compute_bill_totals compute_line
    line_total div_round_half_away_from_zero sub_paise add_paise total_from add_milli round_off
    round_to_nearest_step credit_portion ◌*ℤ◌ ◌/ℤ◌ ◌+ℤ◌ ◌-ℤ◌ neg signed_ledger_amount
    apply_ledger_entry ledger_entry_requires_reason apply_movement crossed_below_threshold sort_by
    to_double number_text
bought_ok = refl

abbrev pub one_row : SaleItemRow
one_row =
    item_row 100 30 0
      (record {
        product_id = 8;
        qty_milli = pos 2_500;
        unit_price_paise = pos 4_550;
        discount_paise = some (pos 75);
      })
      none
      (record { id = 8; name_en = some (codes "Sugar"); name_hi = none; unit_code = codes "kg" })

-- What the run leaves behind, for the bills and returns that follow it.
pub bought_amounts :
    (bought.0.0.sale.total_paise ≡ pos 11_200) × (bought.0.0.sale.credit_paise ≡ pos 5_200)
unfolding create_sale as_paise as_milli is_safe_int from_bigint compute_bill_totals compute_line
    line_total div_round_half_away_from_zero sub_paise add_paise total_from add_milli round_off
    round_to_nearest_step credit_portion ◌*ℤ◌ ◌/ℤ◌ ◌+ℤ◌ ◌-ℤ◌ neg signed_ledger_amount
    apply_ledger_entry ledger_entry_requires_reason apply_movement crossed_below_threshold sort_by
    to_double number_text
bought_amounts = (refl, refl)

pub bought_rows :
    (find_sale 30 bought.1.sales ≡ some bought.0.0.sale)
    × (bought.0.0.sale.status ≡ completed)
    × (items_of bought.0.0.sale.id bought.1.items ≡ one_row ∷ [])
unfolding create_sale as_paise as_milli is_safe_int from_bigint compute_bill_totals compute_line
    line_total div_round_half_away_from_zero sub_paise add_paise total_from add_milli round_off
    round_to_nearest_step credit_portion ◌*ℤ◌ ◌/ℤ◌ ◌+ℤ◌ ◌-ℤ◌ neg signed_ledger_amount
    apply_ledger_entry ledger_entry_requires_reason apply_movement crossed_below_threshold sort_by
    to_double number_text
bought_rows = (refl, refl, refl)

pub bought_no_returns :
    (bought.1.return_items ≡ [])
    × (find_return 50 bought.1.returns ≡ none)
    × (return_items_of 50 bought.1.return_items ≡ [])
unfolding create_sale as_paise as_milli is_safe_int from_bigint compute_bill_totals compute_line
    line_total div_round_half_away_from_zero sub_paise add_paise total_from add_milli round_off
    round_to_nearest_step credit_portion ◌*ℤ◌ ◌/ℤ◌ ◌+ℤ◌ ◌-ℤ◌ neg signed_ledger_amount
    apply_ledger_entry ledger_entry_requires_reason apply_movement crossed_below_threshold sort_by
    to_double number_text find_return return_items_of
bought_no_returns = (refl, refl, refl)

abbrev pub sold_rows : List SaleItemRow
sold_rows = value_or [] (item_rows drawn 30 0 cart.items shop)
