-- ===== src/Money/Text/Digits.antt =====
-- Decimal text with a point, packages/money/src/serialize.ts and parse.ts.
use dukaano.Base.{
  [], ap, arith, drop, false, is_empty, length, length-append, length-drop, length-replicate, refl,
  replicate, some, suc, take, take-append-drop, true, zero, ℕ, ◌++◌, ◌+◌, ◌-◌, ◌<◌, ◌∙◌, ◌∷◌, ◌≡◌,
  ◌≤◌,
}
use dukaano.Base.Decimal.{
  IsDigits, IsDigits-append, is_digit, of_decimal, of_decimal-to_decimal, span_digits-IsDigits,
  span_digits-append, to_decimal, to_decimal-IsDigits, value_from,
}
use dukaano.Base.Text.{Text, is_space}
use dukaano.Money.Text.{is_presentation, match_unsigned, normalize_numeric_input, pad_start}

IsDigits-replicate : (n : ℕ) → IsDigits (replicate n b'0')
unfolding is_digit
IsDigits-replicate zero = tt
IsDigits-replicate (suc n) = (refl, IsDigits-replicate n)

IsDigits-take : (n : ℕ) (s : Text) → IsDigits s → IsDigits (take n s)
IsDigits-take zero s h = tt
IsDigits-take (suc n) [] h = tt
IsDigits-take (suc n) (c ∷ s) h = (h.0, IsDigits-take n s h.1)

IsDigits-drop : (n : ℕ) (s : Text) → IsDigits s → IsDigits (drop n s)
IsDigits-drop zero s h = h
IsDigits-drop (suc n) [] h = tt
IsDigits-drop (suc n) (c ∷ s) h = IsDigits-drop n s h.1

of_decimal-zeros : (n : ℕ) (s : Text) → of_decimal (replicate n b'0' ++ s) ≡ of_decimal s
unfolding of_decimal value_from
of_decimal-zeros zero s = refl
of_decimal-zeros (suc n) s = of_decimal-zeros n s

-- A number as its digits before and behind the point: both are digits, there are some before and exactly
-- `d` behind, and together they have the value.
pub record IsFixed (n d : ℕ) (int_part frac_part : Text) : Type 0 where
  pub int_digits : IsDigits int_part
  pub frac_digits : IsDigits frac_part
  pub some_int : is_empty int_part ≡ false
  pub frac_length : length frac_part ≡ d
  pub value : of_decimal (int_part ++ frac_part) ≡ n

is_empty-length : (s : Text) → 0 < length s → is_empty s ≡ false
is_empty-length [] h = absurd (omega arith)
is_empty-length (c ∷ s) h = refl

length-take : (n : ℕ) (s : Text) → n ≤ length s → length (take n s) ≡ n
length-take zero s h = refl
length-take (suc n) [] h = absurd (omega arith)
length-take (suc n) (c ∷ s) h = ap suc (length-take n s (omega arith))

pub split_digits :
    (n d : ℕ)
    → let digits = pad_start (d + 1) (to_decimal n) in
      IsFixed n d (take (length digits - d) digits) (drop (length digits - d) digits)
split_digits n d =
    let digits = pad_start (d + 1) (to_decimal n) in
    let all : IsDigits digits =
      IsDigits-append (replicate (d + 1 - length (to_decimal n)) b'0') (to_decimal n)
        (IsDigits-replicate (d + 1 - length (to_decimal n))) (to_decimal-IsDigits n) in
    let long : d + 1 ≤ length digits =
      rw
        (
          length-append (replicate (d + 1 - length (to_decimal n)) b'0') (to_decimal n),
          length-replicate {A = ℕ} (d + 1 - length (to_decimal n)) b'0',
        )
        (omega arith) in
    let k = length digits - d in
    record {
      int_digits = IsDigits-take k digits all;
      frac_digits = IsDigits-drop k digits all;
      some_int =
          is_empty-length (take k digits) (rw (length-take k digits (omega arith)) (omega arith));
      frac_length = length-drop k digits ∙ omega (arith, long);
      value =
          ap of_decimal (take-append-drop k digits)
          ∙ of_decimal-zeros (d + 1 - length (to_decimal n)) (to_decimal n)
          ∙ of_decimal-to_decimal n;
    }

-- Digits and a point are not presentation characters.
digit_kept : (c : ℕ) → is_digit c ≡ true → is_presentation c ≡ false
unfolding is_digit is_presentation is_space
digit_kept c h = ground arith

pub normalize_digits :
    (s rest : Text)
    → IsDigits s
    → normalize_numeric_input (s ++ rest) ≡ s ++ normalize_numeric_input rest
unfolding normalize_numeric_input
normalize_digits [] rest h = refl
normalize_digits (c ∷ s) rest h = rw (digit_kept c h.0, normalize_digits s rest h.1) refl

point_stops : is_digit b'.' ≡ false
unfolding is_digit
point_stops = refl

pub match_unsigned_fixed :
    (int_part frac_part : Text)
    → IsDigits int_part
    → IsDigits frac_part
    → match_unsigned (int_part ++ b'.' ∷ frac_part) ≡ some (int_part, frac_part)
unfolding match_unsigned
match_unsigned_fixed int_part frac_part h k =
    rw (span_digits-append int_part b'.' frac_part h point_stops, span_digits-IsDigits frac_part k)
      refl
