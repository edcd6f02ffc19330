-- ===== src/Money/Allocate.antt =====
-- `allocate` of packages/money/src/arithmetic.ts: the largest-remainder method. A checked weight is
-- not negative, and neither is the magnitude that is shared out, so both are natural numbers.
pub mod Total
pub mod Quota
pub mod Exact
use dukaano.Base.{
  List, [], err, if◌then◌else◌, leb, ltb, map_result, not, ok, suc, throw_if, zero, ℕ, ◌%◌, ◌*◌,
  ◌+◌, ◌-◌, ◌/◌, ◌==◌, ◌>>=◌, ◌>>◌, ◌∷◌,
}
use dukaano.Base.Int.{ltb_ℤ, magnitude, negsuc, pos, ℤ, ◌-ℤ◌}
use dukaano.Base.Sort.{sort_by, sum_of}
use dukaano.Money.Brand.{Paise, from_bigint, max_safe_scaled_value}
use dukaano.Money.Errors.{
  Number, Throws, bad_weight, invalid_allocation, no_weights, zero_total_weight,
}
use dukaano.Money.Round.{with_sign}

-- The guard of the first loop, and `BigInt` of the weight that passes it.
unfoldable pub check_weight : Number → Throws ℕ
check_weight (Number.whole (pos w)) =
    if not (leb w max_safe_scaled_value)
    then err (invalid_allocation (bad_weight (Number.whole (pos w))))
    else ok w
check_weight (Number.whole (negsuc w)) =
    err (invalid_allocation (bad_weight (Number.whole (negsuc w))))
check_weight Number.other = err (invalid_allocation (bad_weight Number.other))

-- `{ index, remainder }`
pub record Remainder : Type 0 where
  pub index : ℕ
  pub remainder : ℕ

pub record Split : Type 0 where
  pub shares : List ℕ
  pub remainders : List Remainder
  pub distributed : ℕ

-- The loop over the weights, from index `i`: the floor shares, the remainders of the buckets whose
-- weight is positive, and the sum of the shares.
pub split_from : ℕ → ℕ → ℕ → List ℕ → Split
split_from size total i [] = record { shares = []; remainders = []; distributed = 0 }
split_from size total i (weight ∷ weights) =
    let numerator = size * weight in
    let share = numerator / total in
    let rest = split_from size total (i + 1) weights in
    record {
      shares = share ∷ rest.shares;
      remainders =
          if ltb 0 weight
          then record { index = i; remainder = numerator % total } ∷ rest.remainders
          else rest.remainders;
      distributed = share + rest.distributed;
    }

-- The comparator: descending remainder, and the index where two are equal.
pub compare_remainders : Remainder → Remainder → ℤ
compare_remainders a b =
    if a.remainder == b.remainder
    then pos a.index -ℤ pos b.index
    else if ltb a.remainder b.remainder
    then pos 1
    else negsuc 0

-- `shares[index] = shares[index] + 1n`
increment : ℕ → List ℕ → List ℕ
increment i [] = []
increment zero (s ∷ shares) = (s + 1) ∷ shares
increment (suc i) (s ∷ shares) = s ∷ increment i shares

-- The loop that hands the leftover out, one to a bucket.
hand_out : ℕ → List Remainder → List ℕ → List ℕ
hand_out leftover [] shares = shares
hand_out zero (r ∷ rs) shares = shares
hand_out (suc leftover) (r ∷ rs) shares = hand_out leftover rs (increment r.index shares)

-- The shares of a magnitude. What was distributed is not above `size`, so nothing is cut off.
unfoldable pub share_out : ℕ → ℕ → List ℕ → List ℕ
unfolding split_from compare_remainders increment hand_out sort_by
share_out size total weights =
    let split = split_from size total 0 weights in
    hand_out (size - split.distributed) (sort_by compare_remainders split.remainders) split.shares

abbrev pub sum_ℕ : List ℕ → ℕ
sum_ℕ = sum_of (λ w. w)

-- A natural number as a weight.
abbrev pub as_weight : ℕ → Number
as_weight w = Number.whole (pos w)

unfoldable pub allocate : Paise → List Number → Throws (List Paise)
allocate total [] = err (invalid_allocation no_weights)
allocate total (w ∷ ws) = do
  weights ← map_result check_weight (w ∷ ws)
  throw_if (sum_ℕ weights == 0) (invalid_allocation zero_total_weight)
  let negative = ltb_ℤ total (pos 0)
  let shares = share_out (magnitude total) (sum_ℕ weights) weights
  map_result (λ s. from_bigint (with_sign negative (pos s))) shares
