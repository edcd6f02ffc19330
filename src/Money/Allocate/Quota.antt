-- ===== src/Money/Allocate/Quota.antt =====
-- Each share of `allocate` of packages/money/src/arithmetic.ts is its exact proportion, rounded down
-- or up.
use dukaano.Base.{
  All, Bool-cases, List, [], ap, arith, false, get_elem?, if◌then◌else◌, inl, inr, ltb, refl, some,
  suc, true, zero, ℕ, ◌%◌, ◌*◌, ◌+◌, ◌-◌, ◌/◌, ◌<◌, ◌==◌, ◌∙◌, ◌∷◌, ◌≡◌, ◌≤◌, ◌⊎◌,
}
use dukaano.Base.Int.{leb_ℤ, pos}
use dukaano.Base.Sort.{IsSorted, sort_by, sort_by-IsSorted, sum_of, sum_of-sort_by}
use dukaano.Money.Allocate.{
  Remainder, Split, compare_remainders, hand_out, increment, share_out, split_from, sum_ℕ,
}
use dukaano.Money.Allocate.Total.{has_remainder, leftover-le, nonzero}
use mathlib.Core.Path.{subst}

-- The share `s` of the weight `w` is its proportion of `size`, to less than one; no weight, no share.
pub record IsQuota (size total w s : ℕ) : Type 0 where
  pub not_short : size * w < s * total + total
  pub not_over : s * total < size * w + total
  pub unweighted : (s ≡ 0) ⊎ (0 < w)

abbrev at : ℕ → Remainder → ℕ
at i r = if r.index == i then 1 else 0

-- How often the first `k` of the remainders name the bucket `i`.
hits : ℕ → ℕ → List Remainder → ℕ
hits i k [] = 0
hits i zero (r ∷ rs) = 0
hits i (suc k) (r ∷ rs) = at i r + hits i k rs

-- Of those that name the bucket `i`, the ones with a remainder that is not zero.
abbrev due : ℕ → Remainder → ℕ
due i r = if ltb 0 r.remainder then at i r else 0

abbrev Descends : Remainder → Remainder → Type 0
Descends r q = q.remainder ≤ r.remainder

first→Descends : (r q : Remainder) → leb_ℤ (compare_remainders r q) (pos 0) ≡ true → Descends r q
unfolding compare_remainders
first→Descends r q h = ground arith

later→Descends : (r q : Remainder) → leb_ℤ (compare_remainders r q) (pos 0) ≡ false → Descends q r
unfolding compare_remainders
later→Descends r q h = ground arith

sort_by-Descends : (rs : List Remainder) → IsSorted Descends (sort_by compare_remainders rs)
sort_by-Descends =
    sort_by-IsSorted Descends compare_remainders (λ r q t h k. omega arith) first→Descends
      later→Descends

nonzero_none : (rs : List Remainder) → All (λ q. q.remainder ≤ 0) rs → nonzero rs ≡ 0
nonzero_none [] h = refl
nonzero_none (r ∷ rs) h = ground (arith, nonzero_none rs h.1, h.0)

none_after :
    (r : Remainder) (rs : List Remainder)
    → ltb 0 r.remainder ≡ false
    → All (Descends r) rs
    → All (λ q. q.remainder ≤ 0) rs
none_after r [] e h = tt
none_after r (q ∷ rs) e h = (ground (arith, h.0), none_after r rs e h.1)

-- In descending order the buckets with no remainder come last, so they are not reached.
hits-le :
    (i k : ℕ) (rs : List Remainder)
    → IsSorted Descends rs
    → k ≤ nonzero rs
    → hits i k rs ≤ sum_of (due i) rs
unfolding hits
hits-le i zero (r ∷ rs) h le = omega arith
hits-le i (suc k) (r ∷ rs) h le = elim (Bool-cases (ltb 0 r.remainder)) [
  | inl more ↦ rw more (omega (arith, hits-le i k rs h.1 (ground arith)))
  | inr exhausted ↦ absurd (ground (arith, nonzero_none rs (none_after r rs exhausted h.0)))
]
hits-le i k [] h le = omega arith

get_elem?-increment :
    (j i : ℕ) (shares : List ℕ) {s : ℕ}
    → get_elem? shares i ≡ some s
    → get_elem? (increment j shares) i ≡ some (s + (if j == i then 1 else 0))
unfolding increment
get_elem?-increment j i [] h = cc
get_elem?-increment zero zero (x ∷ shares) h = ground arith
get_elem?-increment zero (suc i) (x ∷ shares) h = ground arith
get_elem?-increment (suc j) zero (x ∷ shares) h = ground arith
get_elem?-increment (suc j) (suc i) (x ∷ shares) h =
    ground (arith, get_elem?-increment j i shares h)

get_elem?-hand_out :
    (k : ℕ) (rs : List Remainder) (shares : List ℕ) (i : ℕ) {s : ℕ}
    → get_elem? shares i ≡ some s
    → get_elem? (hand_out k rs shares) i ≡ some (s + hits i k rs)
unfolding hand_out hits
get_elem?-hand_out zero (r ∷ rs) shares i h = ground arith
get_elem?-hand_out (suc k) (r ∷ rs) shares i {s} h =
    get_elem?-hand_out k rs (increment r.index shares) i (get_elem?-increment r.index i shares h)
    ∙ ap some (omega arith)
get_elem?-hand_out k [] shares i h = ground arith

module _ (size total : ℕ) where
  abbrev parts : ℕ → List ℕ → Split
  parts j weights = split_from size total j weights

  get_elem?-shares :
      (j : ℕ) (weights : List ℕ) (i : ℕ) {w : ℕ}
      → get_elem? weights i ≡ some w
      → get_elem? (parts j weights).shares i ≡ some (size * w / total)
  unfolding split_from
  get_elem?-shares j [] i h = cc
  get_elem?-shares j (w ∷ ws) zero h = ground arith
  get_elem?-shares j (w ∷ ws) (suc i) h = get_elem?-shares (j + 1) ws i h

  -- No remainder names a bucket in front of the first, and each bucket has one at most, and none
  -- if its weight is zero.
  due-before :
      (j : ℕ) (weights : List ℕ) (i : ℕ) → i < j → sum_of (due i) (parts j weights).remainders ≡ 0
  unfolding split_from
  due-before j [] i h = refl
  due-before j (w ∷ ws) i h = ground (arith, due-before (j + 1) ws i)

  due-le :
      (j : ℕ) (weights : List ℕ) (i k : ℕ) {w : ℕ}
      → get_elem? weights k ≡ some w
      → i ≡ j + k
      → sum_of (due i) (parts j weights).remainders ≤ (if ltb 0 (size * w % total) then 1 else 0)
  unfolding split_from
  due-le j [] i k h e = cc
  due-le j (w ∷ ws) i zero h e = ground (arith, due-before (j + 1) ws i)
  due-le j (w ∷ ws) i (suc k) h e = ground (arith, due-le (j + 1) ws i k h (omega arith))

-- Rounded down, or up by one where there is a remainder.
IsQuota-of :
    (size total w e : ℕ)
    → 0 < total
    → e ≤ (if ltb 0 (size * w % total) then 1 else 0)
    → IsQuota size total w (size * w / total + e)
IsQuota-of size total w zero h le = grind arith
IsQuota-of size total w (suc zero) h le = grind arith
IsQuota-of size total w (suc (suc e)) h le = absurd (grind arith)

pub share_out-IsQuota :
    (size : ℕ) (weights : List ℕ) (i : ℕ) {w s : ℕ}
    → 0 < sum_ℕ weights
    → get_elem? weights i ≡ some w
    → get_elem? (share_out size (sum_ℕ weights) weights) i ≡ some s
    → IsQuota size (sum_ℕ weights) w s
unfolding share_out
share_out-IsQuota size weights i {w} {s} positive at_w at_s =
    let total = sum_ℕ weights in
    let split = split_from size total 0 weights in
    let k = size - split.distributed in
    let sorted = sort_by compare_remainders split.remainders in
    let dealt =
      get_elem?-hand_out k sorted split.shares i (get_elem?-shares size total 0 weights i at_w) in
    let few : hits i k sorted ≤ (if ltb 0 (size * w % total) then 1 else 0) = omega (
      arith,
      hits-le i k sorted (sort_by-Descends split.remainders) (
          omega (
            arith,
            leftover-le size weights positive,
            sum_of-sort_by compare_remainders has_remainder split.remainders,
          )),
      sum_of-sort_by compare_remainders (due i) split.remainders,
      due-le size total 0 weights i i at_w (omega arith),
    ) in
    let s_is : size * w / total + hits i k sorted ≡ s = cc dealt in
    subst (IsQuota size total w) s_is (IsQuota-of size total w (hits i k sorted) positive few)
