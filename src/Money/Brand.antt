-- ===== src/Money/Brand.antt =====
-- packages/money/src/brand.ts and constants.ts. A branded value is a whole number, kept as a plain
-- `ℤ`; that it lies in the safe range is the predicate `IsSafe`.
use dukaano.Base.{Bool, arith, err, false, if◌then◌else◌, leb, not, ok, ℕ, ◌||◌, ◌≡◌, ◌≤◌}
use dukaano.Base.Int.{ltb_ℤ, magnitude, neg, pos, ℤ}
use dukaano.Money.Errors.{
  Number, Throws, basis_points, invalid_scaled_value, milli, money_overflow, other, paise, whole,
}

abbrev pub Paise : Type 0
Paise = ℤ

abbrev pub Milli : Type 0
Milli = ℤ

abbrev pub BasisPoints : Type 0
BasisPoints = ℤ

-- `Number.MAX_SAFE_INTEGER`, 2^53 - 1
abbrev pub max_safe_scaled_value : ℕ
max_safe_scaled_value = 9_007_199_254_740_991

abbrev pub milli_per_unit : ℕ
milli_per_unit = 1000

abbrev pub basis_points_scale : ℕ
basis_points_scale = 10_000

abbrev pub paise_per_rupee : ℕ
paise_per_rupee = 100

abbrev pub money_decimals : ℕ
money_decimals = 2

abbrev pub quantity_decimals : ℕ
quantity_decimals = 3

abbrev pub zero_paise : Paise
zero_paise = pos 0

-- In the range that a JSON number carries exactly.
abbrev pub IsSafe : ℤ → Type 0
IsSafe a = magnitude a ≤ max_safe_scaled_value

unfoldable pub is_safe_int : Number → Bool
is_safe_int (whole a) = leb (magnitude a) max_safe_scaled_value
is_safe_int other = false

unfoldable pub as_paise : Number → Throws Paise
unfolding is_safe_int
as_paise (whole a) =
    if not (is_safe_int (whole a)) then err (invalid_scaled_value (whole a) paise) else ok a
as_paise other = err (invalid_scaled_value other paise)

unfoldable pub as_milli : Number → Throws Milli
unfolding is_safe_int
as_milli (whole a) =
    if not (is_safe_int (whole a)) then err (invalid_scaled_value (whole a) milli) else ok a
as_milli other = err (invalid_scaled_value other milli)

unfoldable pub as_basis_points : Number → Throws BasisPoints
unfolding is_safe_int
as_basis_points (whole a) =
    if not (is_safe_int (whole a)) || ltb_ℤ a (pos 0)
    then err (invalid_scaled_value (whole a) basis_points)
    else ok a
as_basis_points other = err (invalid_scaled_value other basis_points)

unfoldable pub from_bigint : ℤ → Throws ℤ
from_bigint a =
    if ltb_ℤ (pos max_safe_scaled_value) a || ltb_ℤ a (neg (pos max_safe_scaled_value))
    then err (money_overflow a)
    else ok a

-- A result is in range, and it is the argument; what is out of range is refused.
pub from_bigint_safe : (a : ℤ) → IsSafe a → from_bigint a ≡ ok a
unfolding from_bigint neg
from_bigint_safe a h = ground arith

pub from_bigint-eq-ok : (a b : ℤ) → from_bigint a ≡ ok b → (b ≡ a) × IsSafe a
unfolding from_bigint neg
from_bigint-eq-ok a b h = ground arith

pub from_bigint_unsafe : (a : ℤ) → ¬ (IsSafe a) → from_bigint a ≡ err (money_overflow a)
unfolding from_bigint neg
from_bigint_unsafe a h = ground arith

-- A branded value is the number that it was made from.
pub as_milli-ok : (a : ℤ) {b : ℤ} → as_milli (Number.whole a) ≡ ok b → b ≡ a
unfolding as_milli is_safe_int
as_milli-ok a e = ground arith

pub as_paise-ok : (a : ℤ) {b : ℤ} → as_paise (Number.whole a) ≡ ok b → b ≡ a
unfolding as_paise is_safe_int
as_paise-ok a e = ground arith
