-- ===== src/Sales/Tests/Returns.antt =====
-- Half of the bill brought back.
use dukaano.Base.{
  Bool-cases, [], ap, arith, inl, inr, none, ok, or_else, refl, replicate, some, sym, value_or, ℕ,
  ◌==◌, ◌↔◌, ◌∙◌, ◌∷◌, ◌≡◌,
}
use dukaano.Base.Double.{number_text, to_double}
use dukaano.Base.Int.{neg, pos, ℤ, ◌*ℤ◌, ◌+ℤ◌, ◌-ℤ◌, ◌/ℤ◌, ◌≤ℤ◌}
use dukaano.Base.Sort.{sort_by}
use dukaano.Inventory.{apply_movement, crossed_below_threshold}
use dukaano.Ledger.{apply_ledger_entry, ledger_entry_requires_reason, signed_ledger_amount}
use dukaano.Money.Arithmetic.{add_milli, add_paise, sub_paise, total_from}
use dukaano.Money.Brand.{as_milli, as_paise, from_bigint, is_safe_int}
use dukaano.Money.Line.{compute_bill_totals, compute_line, credit_portion, line_total, round_off}
use dukaano.Money.Round.{div_round_half_away_from_zero, round_to_nearest_step}
use dukaano.Sales.{SaleItemRow, Till}
use dukaano.Sales.Create.{item_rows}
use dukaano.Sales.Issue.{create_sale}
use dukaano.Sales.Returns.{CreateReturnInput, ReturnLineInput, ReturnView, find_item, returned_qty}
use dukaano.Sales.Returns.Give.{create_return, resolve_lines, resolved_line}
use dukaano.Sales.Returns.Resolved.{resolve_lines_repeated}
use dukaano.Sales.Returns.Returnable.{IsReturnable, create_return-IsReturnable}
use dukaano.Sales.Returns.Returned.{create_return-IsReturned}
use dukaano.Sales.Returns.Rows.{return_row}
use dukaano.Sales.Returns.Tables.{IsReturned}
use dukaano.Sales.Tests.{
  bought, bought_no_returns, bought_rows, by_number, clerk, drawn_later, no_view, one_row, same_day,
  shop, sold_rows,
}
use mathlib.Core.Path.{subst}

-- The value of a part of a line by whole numbers, rounded down.
abbrev part_of : ℤ → ℤ → ℤ → ℤ
part_of total sold qty = (total *ℤ qty) /ℤ sold

abbrev half_back : CreateReturnInput
half_back = record {
  id = some 50;
  op_id = none;
  items = record { sale_item_id = 100; qty_milli = pos 1_250 } ∷ [];
  refund_cash_paise = none;
  reason = none;
  occurred_at = none;
}

abbrev no_return : ReturnView
no_return = record {
  sale_return = return_row clerk no_view.sale half_back (record {
    id = 0;
    number = [];
    lines = [];
    cash = pos 0;
    credit = pos 0;
    occurred_at = pos 0;
    business_date = pos 0;
  });
  items = [];
}

abbrev given_back : ReturnView × Till
given_back =
    value_or (no_return, shop)
      (create_return part_of same_day by_number clerk drawn_later 30 half_back bought.1)

given_back_ok :
    create_return part_of same_day by_number clerk drawn_later 30 half_back bought.1 ≡ ok given_back
unfolding create_return create_sale as_paise as_milli is_safe_int from_bigint compute_bill_totals
    compute_line line_total div_round_half_away_from_zero sub_paise add_paise total_from add_milli
    round_off round_to_nearest_step credit_portion ◌*ℤ◌ ◌/ℤ◌ ◌+ℤ◌ ◌-ℤ◌ neg signed_ledger_amount
    apply_ledger_entry ledger_entry_requires_reason apply_movement crossed_below_threshold sort_by
    to_double number_text
given_back_ok = refl

create_return-IsReturned_example : IsReturned bought.0.0.sale 50 bought.1 given_back.0 given_back.1
create_return-IsReturned_example =
    create_return-IsReturned part_of same_day by_number clerk drawn_later 30 half_back bought.1
      bought.0.0.sale bought_no_returns.1 bought_rows.0 given_back_ok

one_row_found : find_item 100 sold_rows ≡ some one_row
unfolding item_rows find_item ◌*ℤ◌ ◌/ℤ◌ ◌+ℤ◌ ◌-ℤ◌ neg
one_row_found = refl

one_row_sold :
    (item : ℕ) (i : SaleItemRow) → find_item item (one_row ∷ []) ≡ some i → pos 0 ≤ℤ i.qty_milli
unfolding find_item
one_row_sold item i h = elim (Bool-cases (100 == item)) [
  | inl e ↦
      let same : one_row ≡ i = ap (λ o. or_else o one_row) (rw e at h) in
      subst (λ (x : SaleItemRow). pos 0 ≤ℤ x.qty_milli) same (omega arith)
  | inr e ↦ cc (rw e at h)
]

nothing_back : IsReturnable bought.0.0.sale bought.1
nothing_back item i h =
    subst (λ xs. returned_qty bought.0.0.sale.id item bought.1.returns xs ≤ℤ i.qty_milli)
      (sym bought_no_returns.0)
      (unfold returned_qty in one_row_sold item i (ap (find_item item) (sym bought_rows.2) ∙ h))

abbrev all_of_it : ReturnLineInput
all_of_it = record { sale_item_id = 100; qty_milli = pos 2_500 }

resolve_lines_repeated_example :
    (resolve_lines part_of sold_rows
        (λ _. pos 0)
        (record half_back { items = replicate 3 all_of_it })
      ≡ ok (replicate 3 (resolved_line part_of all_of_it one_row)))
    ↔ (pos 2_500 ≤ℤ one_row.qty_milli -ℤ pos 0)
resolve_lines_repeated_example =
    resolve_lines_repeated part_of sold_rows (λ _. pos 0) all_of_it one_row half_back 2
      one_row_found

create_return-IsReturnable_example : IsReturnable bought.0.0.sale given_back.1
create_return-IsReturnable_example =
    create_return-IsReturnable part_of same_day by_number clerk drawn_later 30 half_back bought.1
      bought.0.0.sale bought_no_returns.1 bought_no_returns.2 bought_rows.0 (tt, tt) nothing_back
      given_back_ok
