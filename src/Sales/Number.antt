-- ===== src/Sales/Number.antt =====
-- `nextSaleNumber` and `nextReturnNumber` of apps/api/src/modules/sales: the next number of a document.
use Prim.Native.Nat.{max}
use dukaano.Base.{
  All, Bool, Bool-cases, List, Option, Result, [], ap, arith, err, false, if◌then◌else◌, inl, inr,
  length, ltb, none, ok, refl, replicate, some, suc, true, zero, ℕ, ◌&&◌, ◌++◌, ◌+◌, ◌-◌, ◌<◌, ◌==◌,
  ◌∙◌, ◌∷◌, ◌≡◌, ◌≢◌, ◌≤◌,
}
use dukaano.Base.Decimal.{
  IsDigits, IsDigits-append, is_digit, of_decimal, of_decimal-to_decimal, to_decimal,
  to_decimal-IsDigits, value_from,
}
use dukaano.Base.Double.{exact_limit, number_text, number_text_exact, to_double, to_double_exact}
use dukaano.Base.Text.{Text}
use dukaano.Money.Text.{pad_start}
use dukaano.Sales.{SaleFault, number_out_of_range}

unfoldable pub starts_with : Text → Text → Bool
starts_with [] s = true
starts_with (p ∷ prefix) [] = false
starts_with (p ∷ prefix) (c ∷ s) = c == p && starts_with prefix s

-- `regexp_replace(number, '\D', '', 'g')`
unfoldable pub digits_only : Text → Text
unfolding is_digit
digits_only [] = []
digits_only (c ∷ s) = let rest = digits_only s in if is_digit c then c ∷ rest else rest

-- The greatest number among those with the prefix, and zero where there is none. (A number that does not
-- fit the cast fails the query, below.)
unfoldable pub max_number : Text → List Text → ℕ
unfolding starts_with digits_only of_decimal
max_number prefix [] = 0
max_number prefix (s ∷ numbers) =
    let rest = max_number prefix numbers in
    if starts_with prefix s then max (of_decimal (digits_only s)) rest else rest

-- `::bigint` up to 2^63 - 1
abbrev pub max_bigint : ℕ
max_bigint = 9_223_372_036_854_775_807

-- `Number(max) + 1` in the numbers of the language, and its digits; nothing where the cast of the query
-- fails.
unfoldable pub next_number : Text → List Text → Option Text
unfolding max_number
next_number prefix numbers =
    let greatest = max_number prefix numbers in
    if ltb max_bigint greatest
    then none
    else some (prefix ++ pad_start 4 (number_text (to_double (to_double greatest + 1))))

-- The number that the client gave, or else the next one.
abbrev pub number_or_next : Option Text → Option Text → Result SaleFault Text
number_or_next (some given) next = ok given
number_or_next none (some next) = ok next
number_or_next none none = err number_out_of_range

starts_with-append : (prefix s : Text) → starts_with prefix (prefix ++ s) ≡ true
unfolding starts_with
starts_with-append [] s = refl
starts_with-append (p ∷ prefix) s = ground (arith, starts_with-append prefix s)

digits_only-append : (s t : Text) → digits_only (s ++ t) ≡ digits_only s ++ digits_only t
unfolding digits_only
digits_only-append [] t = refl
digits_only-append (c ∷ s) t = elim (Bool-cases (is_digit c)) [
  | inl d ↦ rw d (ap (λ r. c ∷ r) (digits_only-append s t))
  | inr d ↦ rw d (digits_only-append s t)
]

digits_only-IsDigits : (s : Text) → IsDigits s → digits_only s ≡ s
unfolding digits_only
digits_only-IsDigits [] h = refl
digits_only-IsDigits (c ∷ s) h = rw h.0 (ap (λ r. c ∷ r) (digits_only-IsDigits s h.1))

zeros-IsDigits : (n : ℕ) → IsDigits (replicate n b'0')
unfolding is_digit
zeros-IsDigits zero = tt
zeros-IsDigits (suc n) = (refl, zeros-IsDigits n)

value_from-zeros : (n : ℕ) (s : Text) → value_from 0 (replicate n b'0' ++ s) ≡ value_from 0 s
unfolding value_from
value_from-zeros zero s = refl
value_from-zeros (suc n) s = value_from-zeros n s

-- Padding with zeros does not change the number.
of_decimal-pad_start : (width n : ℕ) → of_decimal (digits_only (pad_start width (to_decimal n))) ≡ n
unfolding of_decimal
of_decimal-pad_start width n =
    let zeros = replicate (width - length (to_decimal n)) b'0' in
    ap of_decimal (
      digits_only-IsDigits (zeros ++ to_decimal n) (
        IsDigits-append zeros (to_decimal n) (zeros-IsDigits (width - length (to_decimal n)))
          (to_decimal-IsDigits n)))
    ∙ value_from-zeros (width - length (to_decimal n)) (to_decimal n)
    ∙ of_decimal-to_decimal n

max_number-cons :
    (prefix s : Text) (numbers : List Text)
    → (max_number prefix numbers ≤ max_number prefix (s ∷ numbers))
      × (starts_with prefix s ≡ true → of_decimal (digits_only s) ≤ max_number prefix (s ∷ numbers))
unfolding max_number
max_number-cons prefix s numbers = elim (Bool-cases (starts_with prefix s)) [
  | inl e ↦ rw e (omega arith, (λ _. omega arith))
  | inr e ↦ rw e (omega arith, (λ h. cc))
]

above-max_number :
    (prefix n : Text) (numbers : List Text)
    → starts_with prefix n ≡ true
    → max_number prefix numbers < of_decimal (digits_only n)
    → All (λ s. s ≢ n) numbers
above-max_number prefix n [] p h = tt
above-max_number prefix n (s ∷ numbers) p h =
    let (more, own) = max_number-cons prefix s numbers in
    (
      (λ same.
          let bound = own (ap (starts_with prefix) same ∙ p) in
          let value : of_decimal (digits_only s) ≡ of_decimal (digits_only n) =
            ap (λ x. of_decimal (digits_only x)) same in
          omega arith),
      above-max_number prefix n numbers p (omega arith),
    )

max_number_below :
    (prefix : Text) (numbers : List Text) (n : ℕ)
    → 0 < n
    → All (λ s. starts_with prefix s ≡ true → of_decimal (digits_only s) < n) numbers
    → max_number prefix numbers < n
unfolding max_number
max_number_below prefix [] n h below = h
max_number_below prefix (s ∷ numbers) n h below =
    let rest = max_number_below prefix numbers n h below.1 in
    elim (Bool-cases (starts_with prefix s)) [
      | inl e ↦ let own = below.0 e in rw e (omega arith)
      | inr e ↦ rw e rest
    ]

next_number_exact :
    (prefix : Text) (numbers : List Text)
    → max_number prefix numbers < exact_limit
    → next_number prefix numbers
      ≡ some (prefix ++ pad_start 4 (to_decimal (max_number prefix numbers + 1)))
unfolding next_number
next_number_exact prefix numbers h =
    let m = max_number prefix numbers in
    let fits : ltb max_bigint m ≡ false = ground (arith, h) in
    let digits : number_text (to_double (to_double m + 1)) ≡ to_decimal (m + 1) =
      ap (λ n. number_text (to_double (n + 1))) (to_double_exact m (omega arith))
      ∙ ap number_text (to_double_exact (m + 1) (omega arith))
      ∙ number_text_exact (m + 1) (omega arith) in
    rw fits (ap (λ t. some (prefix ++ pad_start 4 t)) digits)

-- There is a next number of a series, and it is none of the numbers that are there already, for a prefix
-- without digits, if the digits of every number with the prefix are below 2^53. (From there on the
-- next number may be one that is there.)
pub next_number_fresh :
    (prefix : Text) (numbers : List Text)
    → digits_only prefix ≡ []
    → All (λ s. starts_with prefix s ≡ true → of_decimal (digits_only s) < exact_limit) numbers
    → (next : Text) × (next_number prefix numbers ≡ some next) × All (λ s. s ≢ next) numbers
next_number_fresh prefix numbers plain below =
    let next = max_number prefix numbers + 1 in
    let padded = pad_start 4 (to_decimal next) in
    let value : of_decimal (digits_only (prefix ++ padded)) ≡ next =
      ap of_decimal (digits_only-append prefix padded ∙ ap (λ x. x ++ digits_only padded) plain)
      ∙ of_decimal-pad_start 4 next in
    (
      prefix ++ padded,
      next_number_exact prefix numbers
          (max_number_below prefix numbers exact_limit (omega arith) below),
      above-max_number prefix (prefix ++ padded) numbers (starts_with-append prefix padded)
          (omega arith),
    )
