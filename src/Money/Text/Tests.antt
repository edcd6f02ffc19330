-- ===== src/Money/Text/Tests.antt =====
-- Runs of packages/money/src/serialize.ts and parse.ts.
use dukaano.Base.{arith, err, false, ok, refl, true, ◌||◌, ◌≡◌}
use dukaano.Base.Decimal.{is_digit, of_decimal, to_decimal}
use dukaano.Base.Int.{ltb_ℤ, negsuc, pos}
use dukaano.Base.Text.{Text, codes}
use dukaano.Money.Brand.{is_safe_int}
use dukaano.Money.Errors.{Expected, Number, invalid_scaled_value}
use dukaano.Money.Text.{
  milli_to_decimal_string, money, paise_to_decimal_string, parse_money_input, parse_quantity_input,
  too_many_decimals,
}
use dukaano.Money.Text.RoundTrip.{parse_money_input-paise_to_decimal_string}

grouped : parse_money_input (codes "1,25,000.5") false ≡ ok (ok (pos 12_500_050))
unfolding parse_money_input is_digit of_decimal
grouped = refl

too_fine : parse_money_input (codes "44.555") false ≡ ok (err (too_many_decimals money 2 3))
unfolding parse_money_input is_digit
too_fine = refl

trimmed : milli_to_decimal_string (pos 1250) true ≡ ok (codes "1.25")
unfolding milli_to_decimal_string to_decimal
trimmed = refl

parse_money_input-paise_to_decimal_string_example :
    (s : Text) × (paise_to_decimal_string (negsuc 4449) ≡ ok s)
    × (parse_money_input s (false || ltb_ℤ (negsuc 4449) (pos 0)) ≡ ok (ok (negsuc 4449)))
parse_money_input-paise_to_decimal_string_example =
    parse_money_input-paise_to_decimal_string (negsuc 4449) false (ground arith)

-- The digits of a unit without decimals are lifted to milli-units, and the product is rounded.
lifted : parse_quantity_input (codes "12") (Number.whole (pos 0)) false ≡ ok (ok (pos 12_000))
unfolding parse_quantity_input is_digit of_decimal is_safe_int
lifted = refl

too_large :
    parse_quantity_input (codes "9007199254740991") (Number.whole (pos 0)) false
    ≡ err (invalid_scaled_value (Number.whole (pos 9_007_199_254_740_990_976)) Expected.milli)
unfolding parse_quantity_input is_digit of_decimal is_safe_int
too_large = refl
