-- ===== src/Money/Allocate/Total.antt =====
-- What `allocate` of packages/money/src/arithmetic.ts hands out adds up to what it was given.
use dukaano.Base.{
  All, Bool-cases, List, [], ap, arith, if◌then◌else◌, inl, inr, length, ltb, refl, suc, zero, ℕ,
  ◌*◌, ◌+◌, ◌-◌, ◌<◌, ◌∙◌, ◌∷◌, ◌≡◌, ◌≤◌,
}
use dukaano.Base.Mul.{le_of_mul-le-mul}
use dukaano.Base.Sort.{All-sort_by, length-sort_by, sort_by, sum_of}
use dukaano.Money.Allocate.{
  Remainder, Split, compare_remainders, hand_out, increment, share_out, split_from, sum_ℕ,
}

module _ (size total : ℕ) where
  abbrev parts : ℕ → List ℕ → Split
  parts i weights = split_from size total i weights

  distributed-sum :
      (i : ℕ) (weights : List ℕ) → (parts i weights).distributed ≡ sum_ℕ (parts i weights).shares
  unfolding split_from
  distributed-sum i [] = refl
  distributed-sum i (w ∷ ws) = omega (arith, distributed-sum (i + 1) ws)

  -- The shares and the remainders together make up the sum of the numerators.
  split-sum :
      (i : ℕ) (weights : List ℕ)
      → (parts i weights).distributed * total
          + sum_of (λ r. r.remainder) (parts i weights).remainders
        ≡ size * sum_ℕ weights
  unfolding split_from
  split-sum i [] = omega arith
  split-sum i (w ∷ ws) = grind (arith, split-sum (i + 1) ws)

  remainders-lt :
      (i : ℕ) (weights : List ℕ)
      → 0 < total
      → All (λ r. r.remainder < total) (parts i weights).remainders
  unfolding split_from
  remainders-lt i [] h = tt
  remainders-lt i (w ∷ ws) h = elim (Bool-cases (ltb 0 w)) [
    | inl positive ↦ rw positive (omega arith, remainders-lt (i + 1) ws h)
    | inr none_due ↦ rw none_due (remainders-lt (i + 1) ws h)
  ]

  length-shares : (i : ℕ) (weights : List ℕ) → length (parts i weights).shares ≡ length weights
  unfolding split_from
  length-shares i [] = refl
  length-shares i (w ∷ ws) = ap suc (length-shares (i + 1) ws)

  index-lt :
      (i : ℕ) (weights : List ℕ) (n : ℕ)
      → i + length weights ≤ n
      → All (λ r. r.index < n) (parts i weights).remainders
  unfolding split_from
  index-lt i [] n le = tt
  index-lt i (w ∷ ws) n le = elim (Bool-cases (ltb 0 w)) [
    | inl positive ↦ rw positive (omega arith, index-lt (i + 1) ws n (omega arith))
    | inr none_due ↦ rw none_due (index-lt (i + 1) ws n (omega arith))
  ]

length-increment : (i : ℕ) (shares : List ℕ) → length (increment i shares) ≡ length shares
unfolding increment
length-increment i [] = refl
length-increment zero (s ∷ shares) = refl
length-increment (suc i) (s ∷ shares) = ap suc (length-increment i shares)

length-hand_out :
    (k : ℕ) (rs : List Remainder) (shares : List ℕ) → length (hand_out k rs shares) ≡ length shares
unfolding hand_out
length-hand_out zero (r ∷ rs) shares = refl
length-hand_out (suc k) (r ∷ rs) shares =
    length-hand_out k rs (increment r.index shares) ∙ length-increment r.index shares
length-hand_out k [] shares = refl

sum-increment :
    (i : ℕ) (shares : List ℕ) → i < length shares → sum_ℕ (increment i shares) ≡ sum_ℕ shares + 1
unfolding increment
sum-increment i [] h = elim h [ ]
sum-increment zero (s ∷ shares) h = omega arith
sum-increment (suc i) (s ∷ shares) h = omega (arith, sum-increment i shares (omega arith))

sum-hand_out :
    (k : ℕ) (rs : List Remainder) (shares : List ℕ)
    → All (λ r. r.index < length shares) rs
    → k ≤ length rs
    → sum_ℕ (hand_out k rs shares) ≡ sum_ℕ shares + k
unfolding hand_out
sum-hand_out zero (r ∷ rs) shares h le = omega arith
sum-hand_out (suc k) (r ∷ rs) shares h le = omega (
  arith,
  sum-hand_out k rs (increment r.index shares) (rw (length-increment r.index shares) h.1)
      (omega arith),
  sum-increment r.index shares h.0,
)
sum-hand_out k [] shares h le = omega arith

abbrev pub has_remainder : Remainder → ℕ
has_remainder r = if ltb 0 r.remainder then 1 else 0

-- How many buckets have a remainder that is not zero.
abbrev pub nonzero : List Remainder → ℕ
nonzero = sum_of has_remainder

sum-le :
    (total : ℕ) (rs : List Remainder)
    → All (λ r. r.remainder < total) rs
    → sum_of (λ r. r.remainder) rs ≤ nonzero rs * total
sum-le total [] h = omega arith
sum-le total (r ∷ rs) h = grind (arith, sum-le total rs h.1, h.0)

nonzero-le : (rs : List Remainder) → nonzero rs ≤ length rs
nonzero-le [] = omega arith
nonzero-le (r ∷ rs) = ground (arith, nonzero-le rs)

module _ (size : ℕ) (weights : List ℕ) (positive : 0 < sum_ℕ weights) where
  abbrev split : Split
  split = split_from size (sum_ℕ weights) 0 weights

  -- Nothing is cut off by the subtraction.
  distributed-le : split.distributed ≤ size
  distributed-le = grind (arith, split-sum size (sum_ℕ weights) 0 weights)

  -- There is less left over than there are buckets with a remainder.
  pub leftover-le : size - split.distributed ≤ nonzero split.remainders
  leftover-le =
      let small = remainders-lt size (sum_ℕ weights) 0 weights positive in
      let covered : size * sum_ℕ weights
          ≤ (split.distributed + nonzero split.remainders) * sum_ℕ weights =
        omega (
          arith,
          split-sum size (sum_ℕ weights) 0 weights,
          sum-le (sum_ℕ weights) split.remainders small,
        ) in
      omega (
        arith,
        le_of_mul-le-mul size (split.distributed + nonzero split.remainders) (sum_ℕ weights)
            positive covered,
      )

  pub sum-share_out : sum_ℕ (share_out size (sum_ℕ weights) weights) ≡ size
  unfolding share_out
  sum-share_out =
      let sorted = sort_by compare_remainders split.remainders in
      let lengths = length-shares size (sum_ℕ weights) 0 weights in
      let indices =
        index-lt size (sum_ℕ weights) 0 weights (length split.shares) (omega (arith, lengths)) in
      omega (
        arith,
        sum-hand_out (size - split.distributed) sorted split.shares
            (All-sort_by _ compare_remainders split.remainders indices)
            (omega (
              arith,
              leftover-le,
              nonzero-le split.remainders,
              length-sort_by compare_remainders split.remainders,
            )),
        distributed-sum size (sum_ℕ weights) 0 weights,
        distributed-le,
      )

  pub length-share_out : length (share_out size (sum_ℕ weights) weights) ≡ length weights
  unfolding share_out
  length-share_out =
      length-hand_out (size - split.distributed) (sort_by compare_remainders split.remainders)
        split.shares
      ∙ length-shares size (sum_ℕ weights) 0 weights
