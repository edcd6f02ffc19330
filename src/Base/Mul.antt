-- ===== src/Base/Mul.antt =====
-- Products and quotients of integers, by sign and size.
use dukaano.Base.{arith, ℕ, ◌*◌, ◌+◌, ◌/◌, ◌<◌, ◌≡◌, ◌≤◌}
use dukaano.Base.Int.{
  eq_of_parts, int_laws, magnitude, neg, neg_part, negsuc, pos, pos_part, ℤ, ◌*ℤ◌, ◌+ℤ◌, ◌/ℤ◌,
}

pub pos-+ℤ : (a b : ℕ) → pos a +ℤ pos b ≡ pos (a + b)
pos-+ℤ a b = omega int_laws

pub pos-*ℤ : (a b : ℕ) → pos a *ℤ pos b ≡ pos (a * b)
unfolding ◌*ℤ◌
pos-*ℤ a b = ground arith

pub pos-/ℤ : (a b : ℕ) → pos a /ℤ pos b ≡ pos (a / b)
unfolding ◌/ℤ◌
pos-/ℤ a b = ground arith

pub *ℤ_parts :
    (a b : ℤ)
    → pos_part (a *ℤ b) + (pos_part a * neg_part b + neg_part a * pos_part b)
      ≡ neg_part (a *ℤ b) + (pos_part a * pos_part b + neg_part a * neg_part b)
unfolding ◌*ℤ◌
*ℤ_parts a b = ground arith

pub magnitude-*ℤ : (a b : ℤ) → magnitude (a *ℤ b) ≡ magnitude a * magnitude b
unfolding ◌*ℤ◌
magnitude-*ℤ (pos a) (pos b) = ground arith
magnitude-*ℤ (pos a) (negsuc b) = ground arith
magnitude-*ℤ (negsuc a) (pos b) = ground arith
magnitude-*ℤ (negsuc a) (negsuc b) = ground arith

pub neg-*ℤ : (a b : ℤ) → neg a *ℤ b ≡ neg (a *ℤ b)
neg-*ℤ a b = grind (int_laws, *ℤ_parts)

pub *ℤ_pos_parts :
    (a : ℤ) (m : ℕ)
    → (pos_part (a *ℤ pos m) ≡ pos_part a * m) × (neg_part (a *ℤ pos m) ≡ neg_part a * m)
unfolding ◌*ℤ◌
*ℤ_pos_parts (pos a) m = ground arith
*ℤ_pos_parts (negsuc a) m = ground arith

-- A positive factor on both sides of an order is struck out.
pub le_of_mul-le-mul : (a b t : ℕ) → 0 < t → a * t ≤ b * t → a ≤ b
le_of_mul-le-mul a b t h k = grind arith

pub *ℤ-neg : (a b : ℤ) → a *ℤ neg b ≡ neg (a *ℤ b)
*ℤ-neg a b = grind (int_laws, *ℤ_parts)

pub mul-le-mul : (a b t : ℕ) → a ≤ b → a * t ≤ b * t
mul-le-mul a b t h = grind arith

pub *ℤ_comm : (a b : ℤ) → a *ℤ b ≡ b *ℤ a
*ℤ_comm a b = eq_of_parts (a *ℤ b) (b *ℤ a) (grind (int_laws, *ℤ_parts))
