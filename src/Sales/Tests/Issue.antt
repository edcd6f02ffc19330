-- ===== src/Sales/Tests/Issue.antt =====
-- Runs of `create`, of the stored lines and of the next number.
use dukaano.Base.{All, List, [], arith, none, ok, refl, some, true, value_or, ◌<◌, ◌∷◌, ◌≡◌, ◌≢◌}
use dukaano.Base.Decimal.{of_decimal}
use dukaano.Base.Double.{exact_limit, number_text, to_double}
use dukaano.Base.Int.{neg, ◌*ℤ◌, ◌+ℤ◌, ◌-ℤ◌, ◌/ℤ◌}
use dukaano.Base.Sort.{total_by}
use dukaano.Base.Text.{Text, codes}
use dukaano.Money.Arithmetic.{add_milli, add_paise, sub_paise, total_from}
use dukaano.Money.Brand.{as_milli, as_paise, from_bigint, is_safe_int}
use dukaano.Money.Line.{
  BillTotals, compute_bill_totals, compute_line, credit_portion, line_total, round_off,
}
use dukaano.Money.Round.{div_round_half_away_from_zero, round_to_nearest_step}
use dukaano.Sales.{SaleItemRow, find_sale}
use dukaano.Sales.Create.{bill_of, item_rows}
use dukaano.Sales.Issue.{create_sale}
use dukaano.Sales.Issued.{create_sale-IsIssued, create_sale_retry}
use dukaano.Sales.Lines.{item_rows-subtotal}
use dukaano.Sales.Number.{digits_only, next_number, next_number_fresh, starts_with}
use dukaano.Sales.Tables.{IsIssued}
use dukaano.Sales.Tests.{
  bought, bought_ok, by_number, cart, clerk, drawn, drawn_later, no_totals, same_day, shop,
  sold_rows,
}

create_sale-IsIssued_example : IsIssued 30 cart shop bought.0.0 bought.1
unfolding find_sale
create_sale-IsIssued_example =
    create_sale-IsIssued same_day by_number clerk drawn cart shop refl bought_ok

no_digits : digits_only (codes "INV-") ≡ []
unfolding digits_only
no_digits = refl

create_sale_retry_example :
    create_sale same_day by_number clerk drawn_later cart bought.1
    ≡ ok ((bought.0.0, none), bought.1)
create_sale_retry_example =
    create_sale_retry same_day by_number clerk clerk drawn drawn_later 30 2 cart cart shop refl refl
      refl bought_ok

sold_rows_ok : item_rows drawn 30 0 cart.items shop ≡ ok sold_rows
unfolding item_rows ◌*ℤ◌ ◌/ℤ◌ ◌+ℤ◌ ◌-ℤ◌ neg
sold_rows_ok = refl

abbrev totals : BillTotals
totals = value_or no_totals (bill_of shop.settings cart)

totals_ok : bill_of shop.settings cart ≡ ok totals
unfolding bill_of as_paise as_milli is_safe_int from_bigint compute_bill_totals compute_line
    line_total div_round_half_away_from_zero sub_paise add_paise total_from add_milli round_off
    round_to_nearest_step credit_portion ◌*ℤ◌ ◌/ℤ◌ ◌+ℤ◌ ◌-ℤ◌ neg
totals_ok = refl

item_rows-subtotal_example :
    (total_by (λ (r : SaleItemRow). r.line_total_paise) sold_rows ≡ totals.subtotal_paise)
    × (total_by (λ (r : SaleItemRow). r.discount_paise) sold_rows ≡ totals.line_discount_paise)
item_rows-subtotal_example =
    item_rows-subtotal drawn 30 cart shop ((omega arith, omega arith), tt) totals_ok sold_rows_ok

abbrev numbers_there : List Text
numbers_there = codes "INV-0041" ∷ codes "A-7" ∷ codes "INV-B2-0007" ∷ []

below_limit :
    All
      (λ s. starts_with (codes "INV-") s ≡ true → of_decimal (digits_only s) < exact_limit)
      numbers_there
unfolding digits_only of_decimal
below_limit = ((λ _. ground arith), ((λ _. ground arith), ((λ _. ground arith), tt)))

next_number_fresh_example :
    (next : Text) × (next_number (codes "INV-") numbers_there ≡ some next)
    × All (λ s. s ≢ next) numbers_there
next_number_fresh_example = next_number_fresh (codes "INV-") numbers_there no_digits below_limit

-- From 2^53 on one more is the same number, and 20 digits do not fit the cast.
same_again :
    next_number (codes "INV-") (codes "INV-9007199254740992" ∷ [])
    ≡ some (codes "INV-9007199254740992")
unfolding next_number to_double number_text
same_again = refl

no_next : next_number (codes "INV-") (codes "INV-99999999999999999999" ∷ []) ≡ none
unfolding next_number
no_next = refl
