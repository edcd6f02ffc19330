-- ===== src/Money/Text/RoundTrip.antt =====
-- Amounts and quantities written by packages/money/src/serialize.ts and read by parse.ts.
use dukaano.Base.{
  Bool, [], ap, arith, drop, false, is_empty, length, ok, refl, suc, sym, take, true, ℕ, ◌++◌, ◌+◌,
  ◌-◌, ◌==◌, ◌||◌, ◌∙◌, ◌∷◌, ◌≡◌, ◌≤◌,
}
use dukaano.Base.Decimal.{IsDigits, is_digit, to_decimal}
use dukaano.Base.Int.{ltb_ℤ, neg, negsuc, pos, ℤ}
use dukaano.Base.Text.{Text, is_space}
use dukaano.Money.Brand.{IsSafe, Paise, as_paise, is_safe_int, max_safe_scaled_value}
use dukaano.Money.Errors.{Number}
use dukaano.Money.Round.{with_sign}
use dukaano.Money.Text.{
  InputKind, fixed, is_presentation, money, normalize_numeric_input, pad_end, pad_start,
  paise_to_decimal_string, parse_money_input, parse_scaled, scaled_from, split_sign,
  to_decimal_string,
}
use dukaano.Money.Text.Digits.{IsFixed, match_unsigned_fixed, normalize_digits, split_digits}
use mathlib.Core.List.{append-nil}

-- A negative number is written with its sign before the text of its magnitude.
fixed_pos :
    (n d : ℕ)
    → (int_part : Text) × (frac_part : Text) × IsFixed n d int_part frac_part
      × (fixed (pos n) d ≡ int_part ++ b'.' ∷ frac_part)
unfolding fixed
fixed_pos n d =
    let digits = pad_start (d + 1) (to_decimal n) in
    let k = length digits - d in (take k digits, drop k digits, split_digits n d, ground arith)

fixed_negsuc :
    (n d : ℕ)
    → (int_part : Text) × (frac_part : Text) × IsFixed (suc n) d int_part frac_part
      × (fixed (negsuc n) d ≡ b'-' ∷ int_part ++ b'.' ∷ frac_part)
unfolding fixed
fixed_negsuc n d =
    let digits = pad_start (d + 1) (to_decimal (suc n)) in
    let k = length digits - d in
    (take k digits, drop k digits, split_digits (suc n) d, ground arith)

normalize_fixed :
    (int_part frac_part : Text)
    → IsDigits int_part
    → IsDigits frac_part
    → normalize_numeric_input (int_part ++ b'.' ∷ frac_part) ≡ int_part ++ b'.' ∷ frac_part
unfolding normalize_numeric_input is_presentation is_space
normalize_fixed int_part frac_part h k =
    normalize_digits int_part (b'.' ∷ frac_part) h
    ∙ ap (λ t. int_part ++ b'.' ∷ t) (normalize_end frac_part k)
  where
    normalize_end : (s : Text) → IsDigits s → normalize_numeric_input s ≡ s
    normalize_end s k =
        ap normalize_numeric_input (sym (append-nil s)) ∙ normalize_digits s [] k ∙ append-nil s

not_minus : (c : ℕ) → is_digit c ≡ true → (c == b'-') ≡ false
unfolding is_digit
not_minus c h = ground arith

split_sign_digits :
    (allow : Bool) (int_part rest : Text)
    → IsDigits int_part
    → is_empty int_part ≡ false
    → split_sign allow (int_part ++ rest) ≡ (false, int_part ++ rest)
unfolding split_sign
split_sign_digits allow [] rest h e = absurd (ground arith)
split_sign_digits allow (c ∷ int_part) rest h e = rw (not_minus c h.0) (ground arith)

is_empty_fixed : (s : Text) (c : ℕ) (t : Text) → is_empty (s ++ c ∷ t) ≡ false
is_empty_fixed [] c t = refl
is_empty_fixed (x ∷ s) c t = refl

scaled_from_fixed :
    (kind : InputKind) (n d : ℕ) (negative : Bool) (int_part frac_part : Text)
    → IsFixed n d int_part frac_part
    → n ≤ max_safe_scaled_value
    → scaled_from kind d negative int_part frac_part ≡ ok (with_sign negative (pos n))
unfolding scaled_from
scaled_from_fixed kind n d negative int_part frac_part f safe =
    let no_more : d - length frac_part ≡ 0 = omega (arith, f.frac_length) in
    let none_missing : pad_end d frac_part ≡ frac_part = rw no_more (append-nil frac_part) in
    rw (f.some_int, none_missing, f.value, f.frac_length) (ground arith)

parse_scaled_pos :
    (kind : InputKind) (n d : ℕ) (allow : Bool)
    → n ≤ max_safe_scaled_value
    → parse_scaled (fixed (pos n) d) d allow kind ≡ ok (pos n)
unfolding parse_scaled
parse_scaled_pos kind n d allow safe =
    let (int_part, frac_part, f, text) = fixed_pos n d in
    rw
      (
        text,
        normalize_fixed int_part frac_part f.int_digits f.frac_digits,
        split_sign_digits allow int_part (b'.' ∷ frac_part) f.int_digits f.some_int,
        is_empty_fixed int_part b'.' frac_part,
        match_unsigned_fixed int_part frac_part f.int_digits f.frac_digits,
      )
      (scaled_from_fixed kind n d false int_part frac_part f safe)

parse_scaled_negsuc :
    (kind : InputKind) (n d : ℕ)
    → suc n ≤ max_safe_scaled_value
    → parse_scaled (fixed (negsuc n) d) d true kind ≡ ok (negsuc n)
unfolding parse_scaled split_sign normalize_numeric_input is_presentation is_space neg
parse_scaled_negsuc kind n d safe =
    let (int_part, frac_part, f, text) = fixed_negsuc n d in
    rw
      (
        text,
        normalize_fixed int_part frac_part f.int_digits f.frac_digits,
        match_unsigned_fixed int_part frac_part f.int_digits f.frac_digits,
      )
      (scaled_from_fixed kind (suc n) d true int_part frac_part f safe)

-- The sign is only asked for where there is one.
parse_scaled-fixed :
    (kind : InputKind) (a : ℤ) (d : ℕ) (allow : Bool)
    → IsSafe a
    → parse_scaled (fixed a d) d (allow || ltb_ℤ a (pos 0)) kind ≡ ok a
parse_scaled-fixed kind (pos n) d allow h =
    parse_scaled_pos kind n d (allow || ltb_ℤ (pos n) (pos 0)) (omega arith)
parse_scaled-fixed kind (negsuc n) d allow h =
    let signed : (allow || ltb_ℤ (negsuc n) (pos 0)) ≡ true = ground arith in
    rw signed (parse_scaled_negsuc kind n d (omega arith))

as_paise_safe : (a : ℤ) → IsSafe a → as_paise (Number.whole a) ≡ ok a
unfolding as_paise is_safe_int
as_paise_safe a h = ground arith

to_decimal_string_safe :
    (a : ℤ) (d : ℕ)
    → IsSafe a
    → to_decimal_string (Number.whole a) (Number.whole (pos (suc d))) ≡ ok (fixed a (suc d))
unfolding to_decimal_string is_safe_int
to_decimal_string_safe a d h = ground arith

-- Every safe amount is written as a decimal string, and reading the string gives back the amount; a
-- negative sign has to be allowed only for an amount below zero.
pub parse_money_input-paise_to_decimal_string :
    (a : Paise) (allow : Bool)
    → IsSafe a
    → (s : Text) × (paise_to_decimal_string a ≡ ok s)
      × (parse_money_input s (allow || ltb_ℤ a (pos 0)) ≡ ok (ok a))
unfolding paise_to_decimal_string parse_money_input
parse_money_input-paise_to_decimal_string a allow h = (
  fixed a 2,
  to_decimal_string_safe a 1 h,
  rw (parse_scaled-fixed money a 2 allow h, as_paise_safe a h) refl,
)
