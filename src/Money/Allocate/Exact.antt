-- ===== src/Money/Allocate/Exact.antt =====
-- `allocate` of packages/money/src/arithmetic.ts as a whole: when it succeeds, and what it returns.
use dukaano.Base.{
  All, Bool, List, [], ap, arith, err, false, get_elem?, length, length-map, map, map_result, ok,
  refl, some, suc, sym, true, zero, ℕ, ◌++◌, ◌<◌, ◌==◌, ◌∙◌, ◌∷◌, ◌≡◌, ◌≤◌,
}
use dukaano.Base.Int.{int_laws, ltb_ℤ, magnitude, magnitude-neg, neg, neg-+ℤ, negsuc, pos, ℤ, ◌+ℤ◌}
use dukaano.Base.Mul.{pos-+ℤ}
use dukaano.Money.Allocate.{allocate, as_weight, check_weight, share_out, sum_ℕ}
use dukaano.Money.Allocate.Quota.{IsQuota, share_out-IsQuota}
use dukaano.Money.Allocate.Total.{length-share_out, sum-share_out}
use dukaano.Money.Arithmetic.Sums.{sum}
use dukaano.Money.Brand.{IsSafe, Paise, from_bigint, from_bigint_safe, max_safe_scaled_value}
use dukaano.Money.Errors.{Exception, Number}
use dukaano.Money.Round.{with_sign}
use mathlib.Core.Path.{subst}

abbrev pub IsWeight : ℕ → Type 0
IsWeight w = w ≤ max_safe_scaled_value

magnitude-with_sign : (negative : Bool) (a : ℤ) → magnitude (with_sign negative a) ≡ magnitude a
magnitude-with_sign true a = magnitude-neg a
magnitude-with_sign false a = refl

with_sign-+ℤ :
    (negative : Bool) (a b : ℤ)
    → with_sign negative a +ℤ with_sign negative b ≡ with_sign negative (a +ℤ b)
with_sign-+ℤ true a b = sym (neg-+ℤ a b)
with_sign-+ℤ false a b = refl

-- The shares with the sign of the amount.
abbrev sign_shares : Bool → List ℕ → List Paise
sign_shares negative = map (λ s. with_sign negative (pos s))

abbrev pub shares_of : Paise → List ℕ → List Paise
shares_of total weights =
    sign_shares (ltb_ℤ total (pos 0)) (share_out (magnitude total) (sum_ℕ weights) weights)

check_weight-All :
    (weights : List ℕ)
    → All IsWeight weights
    → map_result check_weight (map as_weight weights) ≡ ok weights
unfolding check_weight
check_weight-All [] h = refl
check_weight-All (w ∷ ws) h = ground (arith, check_weight-All ws h.1, h.0)

narrow_all :
    (negative : Bool) (shares : List ℕ)
    → sum_ℕ shares ≤ max_safe_scaled_value
    → map_result (λ s. from_bigint (with_sign negative (pos s))) shares
      ≡ ok (sign_shares negative shares)
narrow_all negative [] h = refl
narrow_all negative (s ∷ shares) h = rw (
  from_bigint_safe (with_sign negative (pos s)) (rw magnitude-with_sign (omega arith)),
  narrow_all negative shares (omega arith),
)

sum-sign_shares :
    (negative : Bool) (shares : List ℕ)
    → sum (sign_shares negative shares) ≡ with_sign negative (pos (sum_ℕ shares))
sum-sign_shares true [] = omega int_laws
sum-sign_shares false [] = refl
sum-sign_shares negative (s ∷ shares) = rw (sum-sign_shares negative shares) (
    with_sign-+ℤ negative (pos s) (pos (sum_ℕ shares))
    ∙ ap (with_sign negative) (pos-+ℤ s (sum_ℕ shares)))

with_sign-magnitude : (a : ℤ) → with_sign (ltb_ℤ a (pos 0)) (pos (magnitude a)) ≡ a
unfolding neg
with_sign-magnitude (pos n) = ground arith
with_sign-magnitude (negsuc n) = ground arith

allocate_shares :
    (total : Paise) (weights : List ℕ)
    → IsSafe total
    → All IsWeight weights
    → 0 < sum_ℕ weights
    → allocate total (map as_weight weights) ≡ ok (shares_of total weights)
unfolding allocate
allocate_shares total [] h k positive = elim positive [ ]
allocate_shares total (w ∷ ws) h k positive =
    let none_zero : (sum_ℕ (w ∷ ws) == 0) ≡ false = ground arith in
    rw (check_weight-All (w ∷ ws) k, none_zero)
      (narrow_all (ltb_ℤ total (pos 0)) _
        (rw (sum-share_out (magnitude total) (w ∷ ws) positive) h))

-- A safe amount over safe weights, one of them positive, is always shared out: one share for each
-- weight, and the shares add up to exactly the amount, whatever its sign.
pub allocate_exact :
    (total : Paise) (weights : List ℕ)
    → IsSafe total
    → All IsWeight weights
    → 0 < sum_ℕ weights
    → (shares : List Paise) × (allocate total (map as_weight weights) ≡ ok shares)
      × (sum shares ≡ total)
      × (length shares ≡ length weights)
allocate_exact total weights h k positive = (
  shares_of total weights,
  allocate_shares total weights h k positive,
  sum-sign_shares (ltb_ℤ total (pos 0)) (share_out (magnitude total) (sum_ℕ weights) weights)
      ∙ ap (λ n. with_sign (ltb_ℤ total (pos 0)) (pos n))
          (sum-share_out (magnitude total) weights positive)
      ∙ with_sign-magnitude total,
  length-map (share_out (magnitude total) (sum_ℕ weights) weights) _
      ∙ length-share_out (magnitude total) weights positive,
)

pub get_elem?-map {ℓ κ} :
    {A : Type ℓ} {B : Type κ} (f : A → B) (xs : List A) (i : ℕ) {b : B}
    → get_elem? (map f xs) i ≡ some b
    → (a : A) × (get_elem? xs i ≡ some a) × (f a ≡ b)
get_elem?-map f [] i h = cc
get_elem?-map f (x ∷ xs) zero h = (x, refl, cc)
get_elem?-map f (x ∷ xs) (suc i) h = get_elem?-map f xs i h

pub get_elem?-map-some {ℓ κ} :
    {A : Type ℓ} {B : Type κ} (f : A → B) (xs : List A) (i : ℕ) {a : A}
    → get_elem? xs i ≡ some a
    → get_elem? (map f xs) i ≡ some (f a)
get_elem?-map-some f [] i h = cc
get_elem?-map-some f (x ∷ xs) zero h = cc
get_elem?-map-some f (x ∷ xs) (suc i) h = get_elem?-map-some f xs i h

IsQuota-signed :
    (negative : Bool) (size total w m : ℕ) {s : Paise}
    → IsQuota size total w m
    → with_sign negative (pos m) ≡ s
    → IsQuota size total w (magnitude s) × (s ≡ with_sign negative (pos (magnitude s)))
IsQuota-signed negative size total w m {s} q e =
    let m_is : m ≡ magnitude s =
      omega (arith, magnitude-with_sign negative (pos m), ap magnitude e) in
    (subst (IsQuota size total w) m_is q, sym e ∙ ap (λ n. with_sign negative (pos n)) m_is)

-- Every share is its exact proportion of the amount, rounded down or up to a whole paisa, on the
-- amount's side of zero; a bucket of weight zero gets nothing.
pub allocate-IsQuota :
    (total : Paise) (weights : List ℕ) (i : ℕ) {shares : List Paise} {w : ℕ} {s : Paise}
    → IsSafe total
    → All IsWeight weights
    → 0 < sum_ℕ weights
    → allocate total (map as_weight weights) ≡ ok shares
    → get_elem? weights i ≡ some w
    → get_elem? shares i ≡ some s
    → IsQuota (magnitude total) (sum_ℕ weights) w (magnitude s)
      × (s ≡ with_sign (ltb_ℤ total (pos 0)) (pos (magnitude s)))
allocate-IsQuota total weights i {shares} {w} {s} h k positive e at_w at_s =
    let negative = ltb_ℤ total (pos 0) in
    let is : shares_of total weights ≡ shares = cc (allocate_shares total weights h k positive) in
    let at_s' : get_elem? (shares_of total weights) i ≡ some s =
      subst (λ l. get_elem? l i ≡ some s) (sym is) at_s in
    let (m, at_m, m_is) =
      get_elem?-map (λ m. with_sign negative (pos m))
        (share_out (magnitude total) (sum_ℕ weights) weights) i at_s' in
    IsQuota-signed negative (magnitude total) (sum_ℕ weights) w m
      (share_out-IsQuota (magnitude total) weights i positive at_w at_m) m_is

check_weight_bad :
    (weights : List ℕ) (bad : Number) (rest : List Number) {e : Exception}
    → All IsWeight weights
    → check_weight bad ≡ err e
    → map_result check_weight (map as_weight weights ++ bad ∷ rest) ≡ err e
unfolding check_weight
check_weight_bad [] bad rest h k = rw k
check_weight_bad (w ∷ ws) bad rest h k = ground (arith, check_weight_bad ws bad rest h.1 k, h.0)

-- The first weight that is refused is reported, whatever the amount and the weights after it.
pub allocate_refuses :
    (total : Paise) (weights : List ℕ) (bad : Number) (rest : List Number) {e : Exception}
    → All IsWeight weights
    → check_weight bad ≡ err e
    → allocate total (map as_weight weights ++ bad ∷ rest) ≡ err e
unfolding allocate
allocate_refuses total [] bad rest h k = rw (check_weight_bad [] bad rest h k)
allocate_refuses total (w ∷ ws) bad rest h k = rw (check_weight_bad (w ∷ ws) bad rest h k)
