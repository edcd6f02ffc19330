-- ===== src/Base/Decimal.antt =====
-- Whole numbers in decimal: `String(n)` and `BigInt(s)`.
use dukaano.Base.{
  All, Bool, Bool-cases, [], arith, false, if◌then◌else◌, inl, inr, leb, length, length-append, ltb,
  refl, suc, true, zero, ℕ, ◌%◌, ◌&&◌, ◌*◌, ◌++◌, ◌+◌, ◌-◌, ◌/◌, ◌<◌, ◌^◌, ◌∷◌, ◌≡◌, ◌≤◌,
}
use dukaano.Base.Text.{Text}
use native.Mathlib.Nat.{pow-suc}

unfoldable pub is_digit : ℕ → Bool
is_digit c = leb b'0' c && leb c b'9'

-- The digits of `n`, with fuel for the divisions; a number is more than any of its tenth parts.
unfoldable pub digits_from : ℕ → ℕ → Text
digits_from zero n = []
digits_from (suc fuel) n =
    let front = digits_from fuel (n / 10) in
    if ltb n 10 then (b'0' + n) ∷ [] else front ++ ((b'0' + n % 10) ∷ [])

-- `String(n)`
unfoldable pub to_decimal : ℕ → Text
unfolding digits_from
to_decimal n = digits_from (suc n) n

-- `BigInt(s)`, on text of digits only
unfoldable pub value_from : ℕ → Text → ℕ
value_from acc [] = acc
value_from acc (c ∷ cs) = value_from (acc * 10 + (c - b'0')) cs

unfoldable pub of_decimal : Text → ℕ
unfolding value_from
of_decimal s = value_from 0 s

abbrev pub IsDigits : Text → Type 0
IsDigits = All (λ c. is_digit c ≡ true)

pub value_from-append :
    (acc : ℕ) (s t : Text) → value_from acc (s ++ t) ≡ value_from (value_from acc s) t
unfolding value_from
value_from-append acc [] t = refl
value_from-append acc (c ∷ s) t = value_from-append (acc * 10 + (c - b'0')) s t

pub IsDigits-append : (s t : Text) → IsDigits s → IsDigits t → IsDigits (s ++ t)
IsDigits-append [] t h k = k
IsDigits-append (c ∷ s) t h k = (h.0, IsDigits-append s t h.1 k)

digit : (d : ℕ) → d < 10 → is_digit (b'0' + d) ≡ true
unfolding is_digit
digit d h = ground arith

value_digits : (fuel n : ℕ) → n < fuel → value_from 0 (digits_from fuel n) ≡ n
unfolding digits_from value_from
value_digits zero n h = elim h [ ]
value_digits (suc fuel) n h = elim (Bool-cases (ltb n 10)) [
  | inl small ↦ rw small (omega arith)
  | inr large ↦
      rw
        (
          large,
          value_from-append 0 (digits_from fuel (n / 10)) ((b'0' + n % 10) ∷ []),
          value_digits fuel (n / 10) (ground arith),
        )
        (omega arith)
]

IsDigits-IsDigits : (fuel n : ℕ) → IsDigits (digits_from fuel n)
unfolding digits_from
IsDigits-IsDigits zero n = tt
IsDigits-IsDigits (suc fuel) n = elim (Bool-cases (ltb n 10)) [
  | inl small ↦ rw small (digit n (ground arith), tt)
  | inr large ↦ rw large (
      IsDigits-append (digits_from fuel (n / 10)) ((b'0' + n % 10) ∷ [])
        (IsDigits-IsDigits fuel (n / 10)) (digit (n % 10) (omega arith), tt))
]

-- A number below 10 ^ k has at most k digits, and at least one.
length_digits :
    (k fuel n : ℕ)
    → n < 10 ^ suc k
    → n < fuel
    → (length (digits_from fuel n) ≤ suc k) × (0 < length (digits_from fuel n))
unfolding digits_from
length_digits k zero n h lt = elim lt [ ]
length_digits zero (suc fuel) n h lt =
    let small : ltb n 10 ≡ true = ground arith in rw small (omega arith)
length_digits (suc k) (suc fuel) n h lt = elim (Bool-cases (ltb n 10)) [
  | inl small ↦ rw small (omega arith)
  | inr large ↦
      let bound : n < 10 ^ suc k * 10 = rw pow-suc at h in
      let front = length_digits k fuel (n / 10) (omega arith) (ground arith) in
      rw large (rw (length-append (digits_from fuel (n / 10)) ((b'0' + n % 10) ∷ [])) (omega arith))
]

pub of_decimal-to_decimal : (n : ℕ) → of_decimal (to_decimal n) ≡ n
unfolding of_decimal to_decimal
of_decimal-to_decimal n = value_digits (suc n) n (omega arith)

pub to_decimal-IsDigits : (n : ℕ) → IsDigits (to_decimal n)
unfolding to_decimal
to_decimal-IsDigits n = IsDigits-IsDigits (suc n) n

pub length-to_decimal :
    (k n : ℕ) → n < 10 ^ suc k → (length (to_decimal n) ≤ suc k) × (0 < length (to_decimal n))
unfolding to_decimal
length-to_decimal k n h = length_digits k (suc n) n h (omega arith)

-- The digits at the front of a text, and what follows them.
unfoldable pub span_digits : Text → Text × Text
span_digits [] = ([], [])
span_digits (c ∷ cs) =
    let (front, rest) = span_digits cs in if is_digit c then (c ∷ front, rest) else ([], c ∷ cs)

pub span_digits-IsDigits : (s : Text) → IsDigits s → span_digits s ≡ (s, [])
unfolding span_digits
span_digits-IsDigits [] h = refl
span_digits-IsDigits (c ∷ s) h = rw (h.0, span_digits-IsDigits s h.1)

pub span_digits-append :
    (s : Text) (c : ℕ) (rest : Text)
    → IsDigits s
    → is_digit c ≡ false
    → span_digits (s ++ (c ∷ rest)) ≡ (s, c ∷ rest)
unfolding span_digits
span_digits-append [] c rest h stop = rw stop
span_digits-append (d ∷ s) c rest h stop = rw (h.0, span_digits-append s c rest h.1 stop)
