-- ===== src/Money/Arithmetic/Order.antt =====
-- Comparisons of packages/money/src/arithmetic.ts.
use dukaano.Base.{arith, ◌↔◌, ◌≡◌}
use dukaano.Base.Int.{int_laws, neg, negsuc, pos, ◌+ℤ◌, ◌<ℤ◌, ◌≤ℤ◌}
use dukaano.Money.Arithmetic.{compare_paise, max_paise, min_paise}
use dukaano.Money.Brand.{Paise}

-- `compare_paise` says how `min_paise` and `max_paise` choose, and is turned round with its arguments.
pub compare_paise_lem :
    (a b : Paise)
    → ((compare_paise a b ≡ negsuc 0) ↔ (a <ℤ b))
      × ((compare_paise a b ≡ pos 0) ↔ (a ≡ b))
      × ((compare_paise a b ≡ pos 1) ↔ (b <ℤ a))
      × (compare_paise b a ≡ neg (compare_paise a b))
unfolding compare_paise neg
compare_paise_lem a b = ground arith

-- The two are the arguments, the smaller first.
pub min_paise-max_paise :
    (a b : Paise) → (min_paise a b ≤ℤ max_paise a b) × (min_paise a b +ℤ max_paise a b ≡ a +ℤ b)
unfolding min_paise max_paise
min_paise-max_paise a b = grind int_laws
