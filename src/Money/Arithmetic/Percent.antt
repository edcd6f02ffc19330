-- ===== src/Money/Arithmetic/Percent.antt =====
-- `percentOf` of packages/money/src/arithmetic.ts.
use dukaano.Base.{arith, ok, ℕ, ◌≡◌, ◌≤◌}
use dukaano.Base.Int.{neg_part, pos, pos_part, ◌*ℤ◌}
use dukaano.Base.Mul.{*ℤ_pos_parts}
use dukaano.Money.Arithmetic.{percent_of}
use dukaano.Money.Brand.{IsSafe, Paise, basis_points_scale, from_bigint_safe}
use dukaano.Money.Round.Nearest.{div_round_rounded, half_up-le, rounded, rounded_parts}

-- A rate of at most 100% of a safe amount never overflows: the share has at most the amount's size
-- and is on its side of zero.
pub percent_of_bounds :
    (amount : Paise) (rate : ℕ)
    → IsSafe amount
    → rate ≤ basis_points_scale
    → (r : Paise) × (percent_of amount (pos rate) ≡ ok r)
      × (pos_part r ≤ pos_part amount)
      × (neg_part r ≤ neg_part amount)
unfolding percent_of
percent_of_bounds amount rate h k =
    let product = amount *ℤ pos rate in
    let r = rounded product basis_points_scale in
    let parts = rounded_parts product basis_points_scale (omega arith) in
    let factors = *ℤ_pos_parts amount rate in
    let pos_le : pos_part r ≤ pos_part amount =
      rw parts.0 (half_up-le _ _ basis_points_scale (omega arith) (rw factors.0 (grind arith))) in
    let neg_le : neg_part r ≤ neg_part amount =
      rw parts.1 (half_up-le _ _ basis_points_scale (omega arith) (rw factors.1 (grind arith))) in
    (
      r,
      rw (div_round_rounded product basis_points_scale (omega arith))
          (from_bigint_safe r (omega arith)),
      pos_le,
      neg_le,
    )
