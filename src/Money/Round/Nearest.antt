-- ===== src/Money/Round/Nearest.antt =====
-- The rounded quotient of packages/money/src/round.ts is the nearest integer, uniquely.
use dukaano.Base.{
  ap, arith, err, inl, inr, ok, refl, suc, sym, zero, ℕ, ◌*◌, ◌+◌, ◌/◌, ◌<◌, ◌>>=◌, ◌↔◌, ◌∙◌, ◌≡◌,
  ◌≤◌,
}
use dukaano.Base.Int.{
  int_laws, magnitude, magnitude-neg, neg, neg-neg, neg_part, neg_parts, neg_sub, negsuc, pos,
  pos_part, sign-cases, ℤ, ◌*ℤ◌, ◌-ℤ◌, ◌≤ℤ◌,
}
use dukaano.Base.Mul.{*ℤ_pos_parts, mul-le-mul, neg-*ℤ, pos-*ℤ, pos-+ℤ, pos-/ℤ}
use dukaano.Money.Errors.{invalid_divisor}
use dukaano.Money.Round.{div_round_half_away_from_zero}
use mathlib.Core.Path.{subst}
use native.Mathlib.Decide.{dec_le}

-- The rounded quotient of the sizes, and its sign.
abbrev pub half_up : ℕ → ℕ → ℕ
half_up m d = (m * 2 + d) / (d * 2)

abbrev pub rounded : ℤ → ℕ → ℤ
rounded (pos n) d = pos (half_up n d)
rounded (negsuc n) d = neg (pos (half_up (suc n) d))

pub div_round_rounded :
    (n : ℤ) (d : ℕ) → 0 < d → div_round_half_away_from_zero n (pos d) ≡ ok (rounded n d)
unfolding div_round_half_away_from_zero neg
div_round_rounded (pos n) d h =
    ground (arith, pos-+ℤ (n * 2) d, pos-*ℤ n 2, pos-*ℤ d 2, pos-/ℤ (n * 2 + d) (d * 2))
div_round_rounded (negsuc n) d h =
    ground
      (arith, pos-+ℤ (suc n * 2) d, pos-*ℤ (suc n) 2, pos-*ℤ d 2, pos-/ℤ (suc n * 2 + d) (d * 2))

-- `q` is the size `m / d` rounded half up.
pub half_up_bounds :
    (m d : ℕ)
    → 0 < d
    → (half_up m d * (d * 2) ≤ m * 2 + d) × (m * 2 + d < half_up m d * (d * 2) + d * 2)
half_up_bounds m d h = grind arith

pub half_up_unique :
    (m d q : ℕ) → q * (d * 2) ≤ m * 2 + d → m * 2 + d < q * (d * 2) + d * 2 → half_up m d ≡ q
half_up_unique m d q h k = grind arith

-- `r` is an integer nearest to `n / d`, and of two nearest ones it is the one farther from zero.
pub record IsNearest (n : ℤ) (d : ℕ) (r : ℤ) : Type 0 where
  pub close : magnitude (r *ℤ pos d -ℤ n) * 2 ≤ d
  pub away : magnitude (r *ℤ pos d -ℤ n) * 2 ≡ d → magnitude n ≤ magnitude (r *ℤ pos d)

IsNearest-neg : (n : ℤ) (d : ℕ) (r : ℤ) → IsNearest n d r → IsNearest (neg n) d (neg r)
IsNearest-neg n d r k =
    let product : neg r *ℤ pos d ≡ neg (r *ℤ pos d) = neg-*ℤ r (pos d) in
    let distance : neg r *ℤ pos d -ℤ neg n ≡ neg (r *ℤ pos d -ℤ n) =
      rw product (sym (neg_sub (r *ℤ pos d) n)) in
    record {
      close = rw distance (rw magnitude-neg k.close);
      away = rw distance (rw (magnitude-neg, product) (rw magnitude-neg (rw magnitude-neg k.away)));
    }

pos-IsNearest : (n d : ℕ) → 0 < d → IsNearest (pos n) d (pos (half_up n d))
pos-IsNearest n d h = omega (int_laws, *ℤ_pos_parts (pos (half_up n d)) d, half_up_bounds n d h)

pub rounded-IsNearest : (n : ℤ) (d : ℕ) → 0 < d → IsNearest n d (rounded n d)
unfolding neg
rounded-IsNearest (pos n) d h = pos-IsNearest n d h
rounded-IsNearest (negsuc n) d h =
    IsNearest-neg (pos (suc n)) d (pos (half_up (suc n) d)) (pos-IsNearest (suc n) d h)

-- Of a nearest integer the size is the quotient rounded half up, and its sign is that of `n`.
pub IsNearest-pos : (n d : ℕ) (r : ℤ) → 0 < d → IsNearest (pos n) d r → r ≡ pos (half_up n d)
IsNearest-pos n d (pos q) h k = ap pos (
    sym (
      half_up_unique n d q (grind (int_laws, *ℤ_pos_parts (pos q) d))
        (grind (int_laws, *ℤ_pos_parts (pos q) d))))
IsNearest-pos n d (negsuc q) h k = absurd (omega (int_laws, *ℤ_pos_parts (negsuc q) d))

pub IsNearest-rounded : (n : ℤ) (d : ℕ) (r : ℤ) → 0 < d → IsNearest n d r → r ≡ rounded n d
unfolding neg
IsNearest-rounded (pos n) d r h k = IsNearest-pos n d r h k
IsNearest-rounded (negsuc n) d r h k =
    sym (neg-neg r) ∙ ap neg (IsNearest-pos (suc n) d (neg r) h (IsNearest-neg (negsuc n) d r k))

-- Exactly the nearest integer is returned, for every numerator and every positive denominator: of
-- two nearest ones the one farther from zero.
pub div_round-eq-ok_iff :
    (n : ℤ) (d : ℕ) (r : ℤ)
    → 0 < d
    → (div_round_half_away_from_zero n (pos d) ≡ ok r) ↔ IsNearest n d r
div_round-eq-ok_iff n d r h = (
  (λ e.
      let same : rounded n d ≡ r = cc (div_round_rounded n d h) in
      subst (IsNearest n d) same (rounded-IsNearest n d h)),
  (λ k. div_round_rounded n d h ∙ ap ok (sym (IsNearest-rounded n d r h k))),
)

-- A divisor that is not positive is refused.
pub div_round_invalid :
    (n d : ℤ) → d ≤ℤ pos 0 → div_round_half_away_from_zero n d ≡ err (invalid_divisor d)
unfolding div_round_half_away_from_zero
div_round_invalid n d h = ground arith

pub rounded-neg : (n : ℤ) (d : ℕ) → 0 < d → rounded (neg n) d ≡ neg (rounded n d)
unfolding neg
rounded-neg (pos zero) d h = rw (half_up_unique 0 d 0 (omega arith) (omega arith))
rounded-neg (pos (suc n)) d h = refl
rounded-neg (negsuc n) d h = sym (neg-neg (pos (half_up (suc n) d)))

-- Rounding commutes with a change of sign, for every denominator: the quotient of the negated
-- numerator is the negated quotient, or the same exception.
pub div_round-neg :
    (n d : ℤ)
    → div_round_half_away_from_zero (neg n) d
      ≡ (div_round_half_away_from_zero n d >>= λ r. ok (neg r))
div_round-neg n d = elim (sign-cases d) [
  | inl (m, e, h) ↦
      rw (e, div_round_rounded (neg n) m h, div_round_rounded n m h) (ap ok (rounded-neg n m h))
  | inr h ↦ rw (div_round_invalid (neg n) d h, div_round_invalid n d h)
]

-- Each part of the rounded quotient is that part rounded half up.
pub rounded_parts :
    (n : ℤ) (d : ℕ)
    → 0 < d
    → (pos_part (rounded n d) ≡ half_up (pos_part n) d)
      × (neg_part (rounded n d) ≡ half_up (neg_part n) d)
rounded_parts (pos n) d h = (refl, sym (half_up_unique 0 d 0 (omega arith) (omega arith)))
rounded_parts (negsuc n) d h = (
  (neg_parts (pos (half_up (suc n) d))).0 ∙ sym (half_up_unique 0 d 0 (omega arith) (omega arith)),
  (neg_parts (pos (half_up (suc n) d))).1,
)

pub half_up-le : (m n d : ℕ) → 0 < d → m ≤ n * d → half_up m d ≤ n
half_up-le m n d h k = grind (arith, half_up_bounds m d h)

-- A nearest integer stays on the side of an integer bound on which the quotient is.
pub IsNearest-le : (n : ℤ) (d : ℕ) (r m : ℤ) → 0 < d → IsNearest n d r → n ≤ℤ m *ℤ pos d → r ≤ℤ m
IsNearest-le n d r m h k le = elim (dec_le (pos_part r + neg_part m) (pos_part m + neg_part r)) [
  | yes fits ↦ fits
  | no beyond ↦ absurd (
      omega (
        int_laws,
        *ℤ_pos_parts r d,
        *ℤ_pos_parts m d,
        mul-le-mul (suc (pos_part m + neg_part r)) (pos_part r + neg_part m) d (omega arith),
      ))
]

pub IsNearest-ge : (n : ℤ) (d : ℕ) (r m : ℤ) → 0 < d → IsNearest n d r → m *ℤ pos d ≤ℤ n → m ≤ℤ r
IsNearest-ge n d r m h k le = elim (dec_le (pos_part m + neg_part r) (pos_part r + neg_part m)) [
  | yes fits ↦ fits
  | no beyond ↦ absurd (
      omega (
        int_laws,
        *ℤ_pos_parts r d,
        *ℤ_pos_parts m d,
        mul-le-mul (suc (pos_part r + neg_part m)) (pos_part m + neg_part r) d (omega arith),
      ))
]
