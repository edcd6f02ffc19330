-- ===== src/Base/Double.antt =====
-- The numbers of the language beyond the whole numbers that they hold exactly: the nearest of them to a
-- natural number, below 2^117, and the digits that a whole one is written with.
use dukaano.Base.{
  Option, arith, if◌then◌else◌, leb, ltb, none, or_else, refl, some, suc, true, zero, ℕ, ◌%◌, ◌&&◌,
  ◌*◌, ◌+◌, ◌/◌, ◌==◌, ◌^◌, ◌||◌, ◌≡◌, ◌≤◌,
}
use dukaano.Base.Decimal.{to_decimal}
use dukaano.Base.Text.{Text}

-- 2^53
abbrev pub exact_limit : ℕ
exact_limit = 9_007_199_254_740_992

-- The distance between neighbours where the number lies, on fuel.
unfoldable pub spacing : ℕ → ℕ → ℕ → ℕ
spacing zero unit n = unit
spacing (suc fuel) unit n =
    let wider = spacing fuel (2 * unit) n in if ltb n (exact_limit * unit) then unit else wider

-- To a multiple, and to the even one of two that are as near.
abbrev pub round_even : ℕ → ℕ → ℕ
round_even unit n =
    let below = n / unit in
    let twice = 2 * (n % unit) in
    if ltb twice unit || (twice == unit && below % 2 == 0) then below * unit else (below + 1) * unit

unfoldable pub to_double : ℕ → ℕ
unfolding spacing
to_double n = if leb n exact_limit then n else round_even (spacing 64 1 n) n

-- The nearest multiple of the power of ten, or else the other one beside it, that reads as the number.
abbrev pub read_as : ℕ → ℕ → ℕ → Option ℕ
read_as d near far =
    if to_double near == d then some near else if to_double far == d then some far else none

-- The fewest digits that read as the number, the rest zeros; the powers of ten are tried downwards.
unfoldable pub shortest : ℕ → ℕ → ℕ
unfolding to_double
shortest zero d = d
shortest (suc j) d =
    let power = 10 ^ suc j in
    let below = d / power * power in
    let near = round_even power d in
    let far = if near == below then below + power else below in
    let fewer = shortest j d in or_else (read_as d near far) fewer

-- `String(d)` of a whole number of the language, below 10^21.
unfoldable pub number_text : ℕ → Text
unfolding shortest to_decimal
number_text d = to_decimal (if leb d exact_limit then d else shortest 20 d)

pub to_double_exact : (n : ℕ) → n ≤ exact_limit → to_double n ≡ n
unfolding to_double
to_double_exact n h = ground (arith, h)

pub number_text_exact : (n : ℕ) → n ≤ exact_limit → number_text n ≡ to_decimal n
unfolding number_text
number_text_exact n h = let exact : leb n exact_limit ≡ true = ground (arith, h) in rw exact refl
