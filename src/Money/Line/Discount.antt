-- ===== src/Money/Line/Discount.antt =====
-- `distributeBillDiscount` and `creditPortion` of packages/money/src/line.ts.
use dukaano.Base.{
  All, Bool-cases, List, [], ap, arith, false, get_elem?, if◌then◌else◌, inl, inr, length,
  length-map, map, ok, ok-injective, refl, some, suc, sym, zero, ℕ, ◌<◌, ◌==◌, ◌∙◌, ◌∷◌, ◌≡◌, ◌≢◌,
  ◌⊎◌,
}
use dukaano.Base.Int.{eq_of_parts, eqb_ℤ, eqb_ℤ-eq, eqb_ℤ-ne, int_laws, pos, ◌≤ℤ◌}
use dukaano.Money.Allocate.{allocate, as_weight, sum_ℕ}
use dukaano.Money.Allocate.Exact.{IsWeight, allocate_exact, allocate-IsQuota, get_elem?-map-some}
use dukaano.Money.Arithmetic.{add_paise}
use dukaano.Money.Arithmetic.Sums.{add_paise-sub_paise, sum}
use dukaano.Money.Brand.{IsSafe, Paise, zero_paise}
use dukaano.Money.Line.{credit_portion, distribute_bill_discount, positive_weight}
use mathlib.Core.Path.{subst}

abbrev pub weights_of : List Paise → List ℕ
weights_of = map positive_weight

weights_of-IsWeight : (nets : List Paise) → All IsSafe nets → All IsWeight (weights_of nets)
weights_of-IsWeight [] h = tt
weights_of-IsWeight (n ∷ nets) h = (omega (arith, h.0), weights_of-IsWeight nets h.1)

zeros : List Paise → List Paise
zeros = map (λ _. zero_paise)

sum-zeros : (nets : List Paise) → sum (zeros nets) ≡ pos 0
unfolding zeros
sum-zeros [] = refl
sum-zeros (n ∷ nets) = rw (sum-zeros nets) (omega int_laws)

length-zeros : (nets : List Paise) → length (zeros nets) ≡ length nets
unfolding zeros
length-zeros nets = length-map nets _

get_elem?-zeros :
    (nets : List Paise) (i : ℕ) {s : Paise} → get_elem? (zeros nets) i ≡ some s → s ≡ pos 0
unfolding zeros
get_elem?-zeros [] i e = cc
get_elem?-zeros (n ∷ nets) zero e = cc
get_elem?-zeros (n ∷ nets) (suc i) e = get_elem?-zeros nets i e

-- What a distribution returns: nothing is attributed if there is no discount or no net amount above
-- zero, and otherwise the discount is allocated by the net amounts.
distribute_zeros :
    (discount : Paise) (nets : List Paise)
    → (discount ≡ pos 0) ⊎ (sum_ℕ (weights_of nets) ≡ 0)
    → distribute_bill_discount discount nets ≡ ok (zeros nets)
unfolding distribute_bill_discount zeros
distribute_zeros discount [] h = refl
distribute_zeros discount (n ∷ nets) (inl e) = rw e
distribute_zeros discount (n ∷ nets) (inr e) = elim (Bool-cases (eqb_ℤ discount (pos 0))) [
  | inl none_due ↦ rw none_due
  | inr due ↦ rw (due, e)
]

distribute_allocates :
    (discount : Paise) (nets : List Paise)
    → discount ≢ pos 0
    → 0 < sum_ℕ (weights_of nets)
    → distribute_bill_discount discount nets ≡ allocate discount (map as_weight (weights_of nets))
unfolding distribute_bill_discount
distribute_allocates discount [] h p = elim p [ ]
distribute_allocates discount (n ∷ nets) h p =
    let due : eqb_ℤ discount (pos 0) ≡ false = eqb_ℤ-ne discount (pos 0) h in
    let weighted : (sum_ℕ (weights_of (n ∷ nets)) == 0) ≡ false = ground arith in
    rw due (rw weighted)

cases_of :
    (discount : Paise) (nets : List Paise)
    → ((discount ≡ pos 0) ⊎ (sum_ℕ (weights_of nets) ≡ 0))
      ⊎ ((discount ≢ pos 0) × (0 < sum_ℕ (weights_of nets)))
cases_of discount nets = elim (Bool-cases (eqb_ℤ discount (pos 0))) [
  | inl e ↦ inl (inl (eqb_ℤ-eq discount (pos 0) e))
  | inr e ↦ elim (Bool-cases (sum_ℕ (weights_of nets) == 0)) [
    | inl z ↦ inl (inr (ground arith))
    | inr p ↦ inr ((λ d. cc (ap (λ t. eqb_ℤ t (pos 0)) d)), ground arith)
  ]
]

-- A distribution of a safe discount over safe amounts always succeeds, with a share for each line.
-- If some net amount is above zero, the shares add up to exactly the discount; otherwise nothing is
-- attributed.
pub distribute_bill_discount_exact :
    (discount : Paise) (nets : List Paise)
    → IsSafe discount
    → All IsSafe nets
    → (shares : List Paise) × (distribute_bill_discount discount nets ≡ ok shares)
      × (length shares ≡ length nets)
      × (sum shares ≡ (if sum_ℕ (weights_of nets) == 0 then pos 0 else discount))
distribute_bill_discount_exact discount nets h k = elim (cases_of discount nets) [
  | inl z ↦ (
    zeros nets,
    distribute_zeros discount nets z,
    length-zeros nets,
    elim z [ inl e ↦ rw (sum-zeros nets, e) (ground arith) | inr e ↦ rw (sum-zeros nets, e) ],
  )
  | inr (some_due, p) ↦
      let (shares, e, total, len) =
        allocate_exact discount (weights_of nets) h (weights_of-IsWeight nets k) p in
      (
        shares,
        distribute_allocates discount nets some_due p ∙ e,
        len ∙ length-map nets positive_weight,
        ground (arith, total, p),
      )
]

none_due :
    (discount : Paise) (nets : List Paise) (i : ℕ) {shares : List Paise} {n s : Paise}
    → IsSafe discount
    → All IsSafe nets
    → distribute_bill_discount discount nets ≡ ok shares
    → get_elem? nets i ≡ some n
    → n ≤ℤ pos 0
    → get_elem? shares i ≡ some s
    → s ≡ pos 0
none_due discount nets i {shares} {n} {s} h k e at_n le at_s = elim (cases_of discount nets) [
  | inl z ↦
      let is : shares ≡ zeros nets = cc (distribute_zeros discount nets z) in
      get_elem?-zeros nets i (subst (λ l. get_elem? l i ≡ some s) is at_s)
  | inr (some_due, p) ↦
      let (quota, _) =
        allocate-IsQuota discount (weights_of nets) i h (weights_of-IsWeight nets k) p
          (sym (distribute_allocates discount nets some_due p) ∙ e)
          (get_elem?-map-some positive_weight nets i at_n) at_s in
      eq_of_parts s (pos 0) (omega (int_laws, quota.unweighted))
]

same_place :
    {A : Type 0} (xs ys : List A) (i : ℕ) {x : A}
    → length ys ≡ length xs
    → get_elem? xs i ≡ some x
    → (y : A) × (get_elem? ys i ≡ some y)
same_place [] ys i h e = absurd (ground arith)
same_place (x ∷ xs) [] i h e = absurd (omega arith)
same_place (x ∷ xs) (y ∷ ys) zero h e = (y, refl)
same_place (x ∷ xs) (y ∷ ys) (suc i) h e = same_place xs ys i (omega arith) e

-- A line whose net amount is not above zero gets the share zero of the discount.
pub distribute_bill_discount_none :
    (discount : Paise) (nets : List Paise) (i : ℕ) {shares : List Paise} {n : Paise}
    → IsSafe discount
    → All IsSafe nets
    → distribute_bill_discount discount nets ≡ ok shares
    → get_elem? nets i ≡ some n
    → n ≤ℤ pos 0
    → get_elem? shares i ≡ some (pos 0)
distribute_bill_discount_none discount nets i {shares} h k e at_n le =
    let (found, found_ok, len, _) = distribute_bill_discount_exact discount nets h k in
    let same : found ≡ shares = ok-injective (sym found_ok ∙ e) in
    let (s, at_s) = same_place nets shares i (ap length (sym same) ∙ len) at_n in
    let zeroed = none_due discount nets i h k e at_n le at_s in at_s ∙ ap some zeroed

-- What was paid and the credit portion make up the bill's total.
pub credit_portion_lem :
    (total paid : Paise) {credit : Paise}
    → IsSafe total
    → credit_portion total paid ≡ ok credit
    → add_paise (credit ∷ paid ∷ []) ≡ ok total
unfolding credit_portion
credit_portion_lem total paid h e = add_paise-sub_paise total paid h e
