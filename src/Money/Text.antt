-- ===== src/Money/Text.antt =====
-- packages/money/src/serialize.ts and parse.ts: amounts and quantities as decimal text.
pub mod Digits
pub mod RoundTrip
mod Tests
use dukaano.Base.{
  Bool, Option, Result, [], drop, err, false, if◌then◌else◌, is_empty, length, ltb, none, not, ok,
  replicate, some, suc, take, throw_if, true, zero, ℕ, ◌&&◌, ◌*◌, ◌++◌, ◌+◌, ◌-◌, ◌==◌, ◌>>=◌, ◌>>◌,
  ◌^◌, ◌||◌, ◌∷◌,
}
use dukaano.Base.Decimal.{of_decimal, span_digits, to_decimal}
use dukaano.Base.Double.{to_double}
use dukaano.Base.Int.{ltb_ℤ, magnitude, neg, negsuc, pos, ℤ}
use dukaano.Base.Text.{Text, is_space}
use dukaano.Money.Brand.{
  Milli, Paise, as_milli, as_paise, is_safe_int, max_safe_scaled_value, money_decimals,
  quantity_decimals,
}
use dukaano.Money.Errors.{Expected, Number, Throws, invalid_scaled_value}
use dukaano.Money.Round.{with_sign}

-- `String(n)` of a whole number
unfoldable pub to_string : ℤ → Text
to_string (pos n) = to_decimal n
to_string (negsuc n) = b'-' ∷ to_decimal (suc n)

-- `s.padStart(size, '0')` and `s.padEnd(size, '0')`
abbrev pub pad_start : ℕ → Text → Text
pad_start size s = replicate (size - length s) b'0' ++ s

abbrev pub pad_end : ℕ → Text → Text
pad_end size s = s ++ replicate (size - length s) b'0'

-- `${negative ? '-' : ''}${intPart}.${fracPart}`
unfoldable pub fixed : ℤ → ℕ → Text
fixed scaled decimals =
    let digits = pad_start (decimals + 1) (to_decimal (magnitude scaled)) in
    let int_part = take (length digits - decimals) digits in
    let frac_part = drop (length digits - decimals) digits in
    (if ltb_ℤ scaled (pos 0) then b'-' ∷ [] else []) ++ int_part ++ b'.' ∷ frac_part

abbrev pub with_decimals : ℤ → Number → Throws Text
with_decimals scaled (Number.whole (pos zero)) = ok (to_string scaled)
with_decimals scaled (Number.whole (pos (suc d))) = ok (fixed scaled (suc d))
with_decimals scaled (Number.whole (negsuc d)) =
    err (invalid_scaled_value (Number.whole (negsuc d)) Expected.step)
with_decimals scaled Number.other = err (invalid_scaled_value Number.other Expected.step)

unfoldable pub to_decimal_string : Number → Number → Throws Text
unfolding is_safe_int to_string fixed
to_decimal_string Number.other decimals = err (invalid_scaled_value Number.other Expected.paise)
to_decimal_string (Number.whole scaled) decimals = do
  throw_if (not (is_safe_int (Number.whole scaled)))
      (invalid_scaled_value (Number.whole scaled) Expected.paise)
  with_decimals scaled decimals

unfoldable pub paise_to_decimal_string : Paise → Throws Text
unfolding to_decimal_string
paise_to_decimal_string value =
    to_decimal_string (Number.whole value) (Number.whole (pos money_decimals))

-- `fixed.replace(/\.?0+$/, '')`: the zeros at the end, and then the point.
unfoldable pub drop_zeros : Text → Text
drop_zeros [] = []
drop_zeros (c ∷ s) = let rest = drop_zeros s in if c == b'0' && is_empty rest then [] else c ∷ rest

unfoldable pub drop_point : Text → Text
drop_point [] = []
drop_point (c ∷ s) = let rest = drop_point s in if c == b'.' && is_empty s then [] else c ∷ rest

unfoldable pub trim_zeros : Text → Text
unfolding drop_zeros drop_point
trim_zeros s = let kept = drop_zeros s in if length kept == length s then s else drop_point kept

unfoldable pub milli_to_decimal_string : Milli → Bool → Throws Text
unfolding to_decimal_string trim_zeros
milli_to_decimal_string value trim_trailing_zeros = do
  fixed_text ← to_decimal_string (Number.whole value) (Number.whole (pos quantity_decimals))
  ok (if not trim_trailing_zeros then fixed_text else trim_zeros fixed_text)

pub data InputKind : Type 0 where
  money quantity : InputKind

-- The error keys, with their parameters.
pub data ParseError : Type 0 where
  required invalid too_large : InputKind → ParseError
  too_many_decimals : InputKind → ℕ → ℕ → ParseError
  invalid_unit_precision : Number → ParseError

abbrev pub ParseResult : Type 0 → Type 0
ParseResult A = Result ParseError A

-- `/[\u20B9\s\u00A0\u202F]/` and the comma; `\s` is the white space that `trim` removes.
unfoldable pub is_presentation : ℕ → Bool
unfolding is_space
is_presentation c = c == 8377 || is_space c || c == b','

unfoldable pub normalize_numeric_input : Text → Text
unfolding is_presentation
normalize_numeric_input [] = []
normalize_numeric_input (c ∷ raw) =
    let rest = normalize_numeric_input raw in if is_presentation c then rest else c ∷ rest

-- The part behind the sign of `/^-?\d*(?:\.\d*)?$/`: the digits before the point, and those after it.
abbrev pub match_fraction : Text → Text → Option (Text × Text)
match_fraction int_part [] = some (int_part, [])
match_fraction int_part (c ∷ rest) =
    let (frac_part, after) = span_digits rest in
    if c == b'.' && is_empty after then some (int_part, frac_part) else none

unfoldable pub match_unsigned : Text → Option (Text × Text)
unfolding span_digits
match_unsigned t = let (int_part, rest) = span_digits t in match_fraction int_part rest

-- `negative` and `unsigned`
unfoldable pub split_sign : Bool → Text → Bool × Text
split_sign allow_negative [] = (false, [])
split_sign allow_negative (c ∷ t) =
    if allow_negative && c == b'-' then (true, t) else (false, c ∷ t)

-- What follows a match of the pattern. A minus zero of the source is zero here.
unfoldable pub scaled_from : InputKind → ℕ → Bool → Text → Text → ParseResult ℤ
scaled_from kind decimals negative int_part frac_part =
    let value =
      of_decimal
        ((if is_empty int_part then b'0' ∷ [] else int_part) ++ pad_end decimals frac_part) in
    if is_empty int_part && is_empty frac_part
    then err (invalid kind)
    else if ltb decimals (length frac_part)
    then err (too_many_decimals kind decimals (length frac_part))
    else if ltb max_safe_scaled_value value
    then err (too_large kind)
    else ok (with_sign negative (pos value))

abbrev pub scaled_match : InputKind → ℕ → Bool → Option (Text × Text) → ParseResult ℤ
scaled_match kind decimals negative none = err (invalid kind)
scaled_match kind decimals negative (some (int_part, frac_part)) =
    scaled_from kind decimals negative int_part frac_part

unfoldable pub parse_scaled : Text → ℕ → Bool → InputKind → ParseResult ℤ
unfolding normalize_numeric_input match_unsigned split_sign scaled_from
parse_scaled raw decimals allow_negative kind =
    let cleaned = normalize_numeric_input raw in
    let (negative, unsigned) = split_sign allow_negative cleaned in
    if is_empty cleaned
    then err (required kind)
    else scaled_match kind decimals negative (match_unsigned unsigned)

-- A result that is an error is passed on; a value is branded, which throws if it is out of range.
abbrev pub brand_paise : ParseResult ℤ → Throws (ParseResult Paise)
brand_paise (err e) = ok (err e)
brand_paise (ok v) = do ok (ok (← as_paise (Number.whole v)))

unfoldable pub parse_money_input : Text → Bool → Throws (ParseResult Paise)
unfolding parse_scaled as_paise
parse_money_input raw allow_negative =
    brand_paise (parse_scaled raw money_decimals allow_negative money)

-- `result.value * lift`, with `lift = 10 ** (QUANTITY_DECIMALS - decimals)`, to the nearest number of the
-- language.
abbrev pub rounded_product : ℤ → ℕ → ℤ
rounded_product v lift =
    let magnitude_of = pos (to_double (magnitude v * lift)) in
    if ltb_ℤ v (pos 0) then neg magnitude_of else magnitude_of

abbrev pub brand_milli : ℕ → ParseResult ℤ → Throws (ParseResult Milli)
brand_milli lift (err e) = ok (err e)
brand_milli lift (ok v) = do ok (ok (← as_milli (Number.whole (rounded_product v lift))))

unfoldable pub parse_quantity_input : Text → Number → Bool → Throws (ParseResult Milli)
unfolding parse_scaled as_milli to_double
parse_quantity_input raw Number.other allow_negative =
    ok (err (invalid_unit_precision Number.other))
parse_quantity_input raw (Number.whole (negsuc d)) allow_negative =
    ok (err (invalid_unit_precision (Number.whole (negsuc d))))
parse_quantity_input raw (Number.whole (pos d)) allow_negative =
    if ltb quantity_decimals d
    then ok (err (invalid_unit_precision (Number.whole (pos d))))
    else brand_milli (10 ^ (quantity_decimals - d)) (parse_scaled raw d allow_negative quantity)
