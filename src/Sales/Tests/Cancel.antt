-- ===== src/Sales/Tests/Cancel.antt =====
-- The bill cancelled.
use dukaano.Base.{arith, ok, refl, sym, value_or, ℕ, ◌≡◌}
use dukaano.Base.Double.{number_text, to_double}
use dukaano.Base.Int.{neg, pos, ◌*ℤ◌, ◌+ℤ◌, ◌-ℤ◌, ◌/ℤ◌, ◌≤ℤ◌}
use dukaano.Base.Sort.{sort_by, total_by}
use dukaano.Base.Text.{codes}
use dukaano.Inventory.{apply_movement, crossed_below_threshold}
use dukaano.Khata.{sum_entries}
use dukaano.Ledger.{apply_ledger_entry, ledger_entry_requires_reason, signed_ledger_amount}
use dukaano.Money.Arithmetic.{add_milli, add_paise, sub_paise, total_from}
use dukaano.Money.Brand.{as_milli, as_paise, from_bigint, is_safe_int}
use dukaano.Money.Line.{compute_bill_totals, compute_line, credit_portion, line_total, round_off}
use dukaano.Money.Round.{div_round_half_away_from_zero, round_to_nearest_step}
use dukaano.Sales.{SaleView, Till, find_sale, items_of, payments_of}
use dukaano.Sales.Cancel.{cancel_sale}
use dukaano.Sales.Cancelled.{IsCancelled, cancel_sale-IsCancelled, cancel_sale_twice}
use dukaano.Sales.Issue.{create_sale}
use dukaano.Sales.Keeps.{in_amount, out_amount}
use dukaano.Sales.RoundTrip.{cancel_sale-create_sale}
use dukaano.Sales.Tests.{
  bought, bought_amounts, bought_ok, bought_rows, by_number, cart, clerk, drawn, drawn_later,
  no_view, same_day, shop,
}
use dukaano.Stock.Rows.{sum_movements}
use mathlib.Core.Path.{subst}

credit_there : pos 0 ≤ℤ bought.0.0.sale.credit_paise
credit_there = subst (λ x. pos 0 ≤ℤ x) (sym bought_amounts.1) (omega arith)

abbrev returned_goods : SaleView × Till
returned_goods =
    value_or (no_view, shop)
      (cancel_sale by_number clerk drawn_later 30 (codes "wrong bill") bought.1)

returned_goods_ok :
    cancel_sale by_number clerk drawn_later 30 (codes "wrong bill") bought.1 ≡ ok returned_goods
unfolding cancel_sale create_sale as_paise as_milli is_safe_int from_bigint compute_bill_totals
    compute_line line_total div_round_half_away_from_zero sub_paise add_paise total_from add_milli
    round_off round_to_nearest_step credit_portion ◌*ℤ◌ ◌/ℤ◌ ◌+ℤ◌ ◌-ℤ◌ neg signed_ledger_amount
    apply_ledger_entry ledger_entry_requires_reason apply_movement crossed_below_threshold sort_by
    to_double number_text
returned_goods_ok = refl

cancel_sale-IsCancelled_example :
    IsCancelled bought.0.0.sale bought.1 returned_goods.0 returned_goods.1
cancel_sale-IsCancelled_example =
    cancel_sale-IsCancelled by_number clerk drawn_later 30 (codes "wrong bill") bought.1
      bought.0.0.sale bought_rows.0 bought_rows.1 credit_there returned_goods_ok

cancel_sale_twice_example :
    cancel_sale by_number clerk drawn 30 (codes "again") returned_goods.1 ≡ ok returned_goods
cancel_sale_twice_example =
    cancel_sale_twice by_number clerk clerk drawn_later drawn 30 (codes "wrong bill")
      (codes "again") bought.1 bought.0.0.sale bought_rows.0 bought_rows.1 credit_there
      returned_goods_ok

cancel_sale-create_sale_example :
    ((c : ℕ) → sum_entries c returned_goods.1.books.entries ≡ sum_entries c shop.books.entries)
    × ((c : ℕ)
        → sum_movements c returned_goods.1.store.transactions
          ≡ sum_movements c shop.store.transactions)
    × (total_by (in_amount 30) returned_goods.1.payments
        ≡ total_by (out_amount 30) returned_goods.1.payments)
unfolding find_sale items_of payments_of
cancel_sale-create_sale_example =
    cancel_sale-create_sale same_day by_number clerk clerk drawn drawn_later cart
      (codes "wrong bill") shop refl refl refl bought_ok returned_goods_ok
