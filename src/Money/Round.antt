-- ===== src/Money/Round.antt =====
-- packages/money/src/round.ts: division with halves rounded away from zero.
pub mod Nearest
pub mod Step
use dukaano.Base.{Bool, if◌then◌else◌, ok, throw_if, ◌>>=◌, ◌>>◌}
use dukaano.Base.Int.{leb_ℤ, ltb_ℤ, neg, pos, ℤ, ◌*ℤ◌, ◌+ℤ◌, ◌/ℤ◌}
use dukaano.Money.Errors.{Throws, invalid_divisor}

-- `x < 0n ? -x : x`, and its way back
abbrev pub with_sign : Bool → ℤ → ℤ
with_sign negative a = if negative then neg a else a

unfoldable pub div_round_half_away_from_zero : ℤ → ℤ → Throws ℤ
div_round_half_away_from_zero numerator denominator = do
  throw_if (leb_ℤ denominator (pos 0)) (invalid_divisor denominator)
  let negative = ltb_ℤ numerator (pos 0)
  let size = with_sign negative numerator
  let rounded = (size *ℤ pos 2 +ℤ denominator) /ℤ (denominator *ℤ pos 2)
  ok (with_sign negative rounded)

unfoldable pub round_to_nearest_step : ℤ → ℤ → Throws ℤ
round_to_nearest_step value step = do
  throw_if (leb_ℤ step (pos 0)) (invalid_divisor step)
  ok ((← div_round_half_away_from_zero value step) *ℤ step)
