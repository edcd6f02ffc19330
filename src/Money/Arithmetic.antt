-- ===== src/Money/Arithmetic.antt =====
-- packages/money/src/arithmetic.ts, but for `allocate`, which is in Money/Allocate. Every operation
-- computes in `bigint` and narrows its result by `from_bigint`.
pub mod Sums
pub mod Percent
pub mod Order
use dukaano.Base.{List, [], err, if◌then◌else◌, not, throw_if, ◌>>=◌, ◌>>◌, ◌∷◌}
use dukaano.Base.Int.{leb_ℤ, ltb_ℤ, neg, negsuc, pos, ℤ, ◌*ℤ◌, ◌+ℤ◌, ◌-ℤ◌}
use dukaano.Money.Brand.{BasisPoints, Milli, Paise, basis_points_scale, from_bigint, is_safe_int}
use dukaano.Money.Errors.{Number, Throws, bad_factor, invalid_allocation}
use dukaano.Money.Round.{div_round_half_away_from_zero}

-- `let total = 0n; for (const v of values) total += BigInt(v)`
unfoldable pub total_from : ℤ → List ℤ → ℤ
total_from total [] = total
total_from total (v ∷ values) = total_from (total +ℤ v) values

unfoldable pub add_paise : List Paise → Throws Paise
unfolding total_from
add_paise values = from_bigint (total_from (pos 0) values)

unfoldable pub sub_paise : Paise → Paise → Throws Paise
sub_paise a b = from_bigint (a -ℤ b)

unfoldable pub negate_paise : Paise → Throws Paise
negate_paise value = from_bigint (neg value)

unfoldable pub abs_paise : Paise → Throws Paise
abs_paise value = from_bigint (if ltb_ℤ value (pos 0) then neg value else value)

unfoldable pub multiply_paise : Paise → Number → Throws Paise
unfolding is_safe_int
multiply_paise value (Number.whole factor) = do
  throw_if (not (is_safe_int (Number.whole factor)))
      (invalid_allocation (bad_factor (Number.whole factor)))
  from_bigint (value *ℤ factor)
multiply_paise value Number.other = err (invalid_allocation (bad_factor Number.other))

unfoldable pub compare_paise : Paise → Paise → ℤ
compare_paise a b = if ltb_ℤ a b then negsuc 0 else if ltb_ℤ b a then pos 1 else pos 0

unfoldable pub min_paise : Paise → Paise → Paise
min_paise a b = if leb_ℤ a b then a else b

unfoldable pub max_paise : Paise → Paise → Paise
max_paise a b = if leb_ℤ b a then a else b

unfoldable pub add_milli : List Milli → Throws Milli
unfolding total_from
add_milli values = from_bigint (total_from (pos 0) values)

unfoldable pub sub_milli : Milli → Milli → Throws Milli
sub_milli a b = from_bigint (a -ℤ b)

unfoldable pub negate_milli : Milli → Throws Milli
negate_milli value = from_bigint (neg value)

unfoldable pub compare_milli : Milli → Milli → ℤ
compare_milli a b = if ltb_ℤ a b then negsuc 0 else if ltb_ℤ b a then pos 1 else pos 0

unfoldable pub percent_of : Paise → BasisPoints → Throws Paise
percent_of amount rate = do
  let product = amount *ℤ rate
  from_bigint (← div_round_half_away_from_zero product (pos basis_points_scale))
