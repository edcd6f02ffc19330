-- ===== src/Base/Sort.antt =====
-- `Array.prototype.sort` with a comparator: a stable sort. An element stays in front of another one
-- where the comparator's answer is not above zero.
use dukaano.Base.{
  All, Bool-cases, List, [], ap, arith, false, if◌then◌else◌, inl, inr, length, map, refl, suc, sym,
  true, ℕ, ◌++◌, ◌+◌, ◌∙◌, ◌∷◌, ◌≡◌,
}
use dukaano.Base.Int.{+ℤ_assoc, int_laws, leb_ℤ, pos, ℤ, ◌+ℤ◌}

module _ {ℓ} {A : Type ℓ} (cmp : A → A → ℤ) where
  insert : A → List A → List A
  insert x [] = x ∷ []
  insert x (y ∷ ys) = if leb_ℤ (cmp x y) (pos 0) then x ∷ y ∷ ys else y ∷ insert x ys

  unfoldable pub sort_by : List A → List A
  unfolding insert
  sort_by [] = []
  sort_by (x ∷ xs) = insert x (sort_by xs)

-- A sum over the elements does not depend on their order.
module _ {ℓ} {A : Type ℓ} where
  abbrev pub sum_of : (A → ℕ) → List A → ℕ
  sum_of f [] = 0
  sum_of f (x ∷ xs) = f x + sum_of f xs

  pub sum_of-append : (f : A → ℕ) (xs ys : List A) → sum_of f (xs ++ ys) ≡ sum_of f xs + sum_of f ys
  sum_of-append f [] ys = omega arith
  sum_of-append f (x ∷ xs) ys = omega (arith, sum_of-append f xs ys)

  sum_of-insert :
      (cmp : A → A → ℤ) (f : A → ℕ) (x : A) (xs : List A)
      → sum_of f (insert cmp x xs) ≡ f x + sum_of f xs
  unfolding insert
  sum_of-insert cmp f x [] = refl
  sum_of-insert cmp f x (y ∷ ys) = ground (arith, sum_of-insert cmp f x ys)

  pub sum_of-sort_by :
      (cmp : A → A → ℤ) (f : A → ℕ) (xs : List A) → sum_of f (sort_by cmp xs) ≡ sum_of f xs
  unfolding sort_by
  sum_of-sort_by cmp f [] = refl
  sum_of-sort_by cmp f (x ∷ xs) =
      omega (arith, sum_of-insert cmp f x (sort_by cmp xs), sum_of-sort_by cmp f xs)

  length-insert :
      (cmp : A → A → ℤ) (x : A) (xs : List A) → length (insert cmp x xs) ≡ suc (length xs)
  unfolding insert
  length-insert cmp x [] = refl
  length-insert cmp x (y ∷ ys) = ground (arith, length-insert cmp x ys)

  pub length-sort_by : (cmp : A → A → ℤ) (xs : List A) → length (sort_by cmp xs) ≡ length xs
  unfolding sort_by
  length-sort_by cmp [] = refl
  length-sort_by cmp (x ∷ xs) =
      length-insert cmp x (sort_by cmp xs) ∙ ap suc (length-sort_by cmp xs)

module _ {ℓ} {A : Type ℓ} (amount : A → ℤ) where
  abbrev pub total_by : List A → ℤ
  total_by [] = pos 0
  total_by (x ∷ xs) = amount x +ℤ total_by xs

  pub total_by-append : (xs ys : List A) → total_by (xs ++ ys) ≡ total_by xs +ℤ total_by ys
  total_by-append [] ys = omega int_laws
  total_by-append (x ∷ xs) ys =
      ap (λ t. amount x +ℤ t) (total_by-append xs ys)
      ∙ sym (+ℤ_assoc (amount x) (total_by xs) (total_by ys))

  total_by-insert :
      (cmp : A → A → ℤ) (x : A) (xs : List A) → total_by (insert cmp x xs) ≡ amount x +ℤ total_by xs
  unfolding insert
  total_by-insert cmp x [] = refl
  total_by-insert cmp x (y ∷ ys) = elim (Bool-cases (leb_ℤ (cmp x y) (pos 0))) [
    | inl first ↦ rw first refl
    | inr later ↦ rw (later, total_by-insert cmp x ys) (omega int_laws)
  ]

  pub total_by-sort_by : (cmp : A → A → ℤ) (xs : List A) → total_by (sort_by cmp xs) ≡ total_by xs
  unfolding sort_by
  total_by-sort_by cmp [] = refl
  total_by-sort_by cmp (x ∷ xs) =
      total_by-insert cmp x (sort_by cmp xs) ∙ ap (λ t. amount x +ℤ t) (total_by-sort_by cmp xs)

pub total_by-map {ℓ κ} :
    {A : Type ℓ} {B : Type κ} (amount : B → ℤ) (f : A → B) (xs : List A)
    → total_by amount (map f xs) ≡ total_by (λ x. amount (f x)) xs
total_by-map amount f [] = refl
total_by-map amount f (x ∷ xs) = ap (λ t. amount (f x) +ℤ t) (total_by-map amount f xs)

module _ {ℓ κ} {A : Type ℓ} (P : A → Type κ) where
  All-insert : (cmp : A → A → ℤ) (x : A) (xs : List A) → P x → All P xs → All P (insert cmp x xs)
  unfolding insert
  All-insert cmp x [] p h = (p, tt)
  All-insert cmp x (y ∷ ys) p h = elim (Bool-cases (leb_ℤ (cmp x y) (pos 0))) [
    | inl first ↦ rw first (p, h)
    | inr later ↦ rw later (h.0, All-insert cmp x ys p h.1)
  ]

  pub All-sort_by : (cmp : A → A → ℤ) (xs : List A) → All P xs → All P (sort_by cmp xs)
  unfolding sort_by
  All-sort_by cmp [] h = tt
  All-sort_by cmp (x ∷ xs) h = All-insert cmp x (sort_by cmp xs) h.0 (All-sort_by cmp xs h.1)

-- Every element stands in relation `R` to all that come after it.
abbrev pub IsSorted {ℓ κ} : {A : Type ℓ} → (A → A → Type κ) → List A → Type κ
IsSorted R [] = Unit
IsSorted R (x ∷ xs) = All (R x) xs × IsSorted R xs

-- The sort puts a list in the order of `R`, if `R` is transitive and agrees with the comparator.
module _ {ℓ κ} {A : Type ℓ} (R : A → A → Type κ) (cmp : A → A → ℤ)
    (R_trans : (x y z : A) → R x y → R y z → R x z)
    (first→R : (x y : A) → leb_ℤ (cmp x y) (pos 0) ≡ true → R x y)
    (later→R : (x y : A) → leb_ℤ (cmp x y) (pos 0) ≡ false → R y x) where
  All-R_trans : (x y : A) (zs : List A) → R x y → All (R y) zs → All (R x) zs
  All-R_trans x y [] h k = tt
  All-R_trans x y (z ∷ zs) h k = (R_trans x y z h k.0, All-R_trans x y zs h k.1)

  insert-IsSorted : (x : A) (ys : List A) → IsSorted R ys → IsSorted R (insert cmp x ys)
  unfolding insert
  insert-IsSorted x [] h = (tt, tt)
  insert-IsSorted x (y ∷ ys) h = elim (Bool-cases (leb_ℤ (cmp x y) (pos 0))) [
    | inl e ↦ rw e ((first→R x y e, All-R_trans x y ys (first→R x y e) h.0), h)
    | inr e ↦ rw e (All-insert (R y) cmp x ys (later→R x y e) h.0, insert-IsSorted x ys h.1)
  ]

  pub sort_by-IsSorted : (xs : List A) → IsSorted R (sort_by cmp xs)
  unfolding sort_by
  sort_by-IsSorted [] = tt
  sort_by-IsSorted (x ∷ xs) = insert-IsSorted x (sort_by cmp xs) (sort_by-IsSorted xs)
