-- ===== src/Money/Arithmetic/Sums.antt =====
-- Sums and differences of packages/money/src/arithmetic.ts.
use dukaano.Base.{List, [], ap, map, ok, sym, ◌++◌, ◌∙◌, ◌∷◌, ◌≡◌}
use dukaano.Base.Int.{int_laws, neg, pos, ℤ, ◌+ℤ◌, ◌-ℤ◌}
use dukaano.Money.Arithmetic.{add_paise, sub_paise, total_from}
use dukaano.Money.Brand.{IsSafe, Paise, from_bigint, from_bigint-eq-ok, from_bigint_safe}

-- The sum of a list as a plain recursion.
abbrev pub sum : List ℤ → ℤ
sum [] = pos 0
sum (v ∷ values) = v +ℤ sum values

pub total_from-sum : (t : ℤ) (values : List ℤ) → total_from t values ≡ t +ℤ sum values
unfolding total_from
total_from-sum t [] = omega int_laws
total_from-sum t (v ∷ values) = rw (total_from-sum (t +ℤ v) values) (omega int_laws)

pub add_paise-sum : (values : List Paise) → add_paise values ≡ from_bigint (sum values)
unfolding add_paise
add_paise-sum values = rw (total_from-sum (pos 0) values) (ap from_bigint (omega int_laws))

pub sum-append : (xs ys : List ℤ) → sum (xs ++ ys) ≡ sum xs +ℤ sum ys
sum-append [] ys = omega int_laws
sum-append (x ∷ xs) ys = rw (sum-append xs ys) (omega int_laws)

pub sum-neg : (xs : List ℤ) → sum (map neg xs) ≡ neg (sum xs)
sum-neg [] = omega int_laws
sum-neg (x ∷ xs) = rw (sum-neg xs) (omega int_laws)

-- The sum of two batches, each summed with no overflow, is the sum of their sums, an overflow
-- of that last addition included.
pub add_paise-append :
    (xs ys : List Paise) {a b : Paise}
    → add_paise xs ≡ ok a
    → add_paise ys ≡ ok b
    → add_paise (xs ++ ys) ≡ add_paise (a ∷ b ∷ [])
add_paise-append xs ys {a} {b} h k =
    let a_is : a ≡ sum xs = (from_bigint-eq-ok (sum xs) a (sym (add_paise-sum xs) ∙ h)).0 in
    let b_is : b ≡ sum ys = (from_bigint-eq-ok (sum ys) b (sym (add_paise-sum ys) ∙ k)).0 in
    add_paise-sum (xs ++ ys)
    ∙ ap from_bigint (rw (sum-append xs ys, a_is, b_is) (omega int_laws))
    ∙ sym (add_paise-sum (a ∷ b ∷ []))

-- What `sub_paise` takes away, `add_paise` puts back.
pub add_paise-sub_paise :
    (a b : Paise) {c : Paise} → IsSafe a → sub_paise a b ≡ ok c → add_paise (c ∷ b ∷ []) ≡ ok a
unfolding sub_paise
add_paise-sub_paise a b {c} h k =
    let c_is : c ≡ a -ℤ b = (from_bigint-eq-ok (a -ℤ b) c k).0 in
    let restored : sum (c ∷ b ∷ []) ≡ a = rw c_is (omega int_laws) in
    add_paise-sum (c ∷ b ∷ []) ∙ ap from_bigint restored ∙ from_bigint_safe a h
