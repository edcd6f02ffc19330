-- ===== src/Money/Errors.antt =====
-- packages/money/src/errors.ts, and the `RangeError` of the language that the business logic throws.
use dukaano.Base.{Result}
use dukaano.Base.Int.{ℤ}

-- A JavaScript `number`. `other` stands for every value that is not whole: a fraction, `NaN` or an
-- infinity. The code tests such values for being whole and does nothing else with them.
pub data Number : Type 0 where
  whole : ℤ → Number
  other : Number

-- The `expected` of `InvalidScaledValueError`.
pub data Expected : Type 0 where
  paise milli basis_points step : Expected

-- The messages of `InvalidAllocationError`.
pub data AllocationFault : Type 0 where
  no_weights zero_total_weight : AllocationFault
  bad_weight bad_factor : Number → AllocationFault

-- The places that throw a `RangeError`.
pub data RangeFault : Type 0 where
  fractional_amount negative_amount : RangeFault
  inbound_quantity : ℤ → RangeFault

pub data Exception : Type 0 where
  invalid_scaled_value : Number → Expected → Exception
  money_overflow : ℤ → Exception
  invalid_divisor : ℤ → Exception
  invalid_allocation : AllocationFault → Exception
  range_error : RangeFault → Exception

abbrev pub Throws : Type 0 → Type 0
Throws A = Result Exception A
