-- ===== src/Money/Round/Step.antt =====
-- `roundToNearestStep` of packages/money/src/round.ts.
use dukaano.Base.{ap, arith, err, inl, inr, ok, refl, sym, ℕ, ◌*◌, ◌<◌, ◌>>=◌, ◌∙◌, ◌≡◌, ◌≤◌}
use dukaano.Base.Int.{int_laws, magnitude, neg, pos, sign-cases, ℤ, ◌*ℤ◌, ◌-ℤ◌, ◌≤ℤ◌}
use dukaano.Base.Mul.{neg-*ℤ}
use dukaano.Money.Errors.{invalid_divisor}
use dukaano.Money.Round.{round_to_nearest_step}
use dukaano.Money.Round.Nearest.{
  IsNearest-rounded, div_round_rounded, rounded, rounded-IsNearest, rounded-neg,
}
use mathlib.Core.Path.{subst}

-- A multiple of the step that is at most half a step away.
pub record IsStepNear (v : ℤ) (s : ℕ) (r : ℤ) : Type 0 where
  pub quotient : ℤ
  pub multiple : r ≡ quotient *ℤ pos s
  pub near : magnitude (r -ℤ v) * 2 ≤ s

pub round_to_nearest_step-rounded :
    (v : ℤ) (s : ℕ) → 0 < s → round_to_nearest_step v (pos s) ≡ ok (rounded v s *ℤ pos s)
unfolding round_to_nearest_step
round_to_nearest_step-rounded v s h = ground (arith, div_round_rounded v s h)

-- With a positive step the result is a multiple of the step, at most half a step away from the value.
pub round_to_nearest_step-IsStepNear :
    (v : ℤ) (s : ℕ) {r : ℤ} → 0 < s → round_to_nearest_step v (pos s) ≡ ok r → IsStepNear v s r
round_to_nearest_step-IsStepNear v s {r} h e =
    let same : rounded v s *ℤ pos s ≡ r = cc (round_to_nearest_step-rounded v s h) in
    subst (IsStepNear v s) same
      (record { quotient = rounded v s; multiple = refl; near = (rounded-IsNearest v s h).close })

-- A multiple of the step is its own quotient's only nearest integer.
rounded_multiple : (q : ℤ) (s : ℕ) → 0 < s → rounded (q *ℤ pos s) s ≡ q
rounded_multiple q s h = sym (IsNearest-rounded (q *ℤ pos s) s q h (omega int_laws))

-- A multiple of the step is left as it is, so rounding twice is rounding once.
pub round_to_nearest_step_multiple :
    (q : ℤ) (s : ℕ) → 0 < s → round_to_nearest_step (q *ℤ pos s) (pos s) ≡ ok (q *ℤ pos s)
round_to_nearest_step_multiple q s h =
    round_to_nearest_step-rounded (q *ℤ pos s) s h
    ∙ ap (λ t. ok (t *ℤ pos s)) (rounded_multiple q s h)

-- A value that has been rounded to a positive step is left as it is by rounding to that step again.
pub round_to_nearest_step_idem :
    (v : ℤ) (s : ℕ) {r : ℤ}
    → 0 < s
    → round_to_nearest_step v (pos s) ≡ ok r
    → round_to_nearest_step r (pos s) ≡ ok r
round_to_nearest_step_idem v s {r} h e =
    let near = round_to_nearest_step-IsStepNear v s h e in
    rw near.multiple (round_to_nearest_step_multiple near.quotient s h)

-- A step that is not positive is refused.
pub round_to_nearest_step_invalid :
    (v s : ℤ) → s ≤ℤ pos 0 → round_to_nearest_step v s ≡ err (invalid_divisor s)
unfolding round_to_nearest_step
round_to_nearest_step_invalid v s h = ground arith

-- Rounding to a positive step always succeeds: the result is a multiple of the step, at most half a step
-- away from the value, and rounding it again leaves it as it is.
pub round_to_nearest_step_stable :
    (v : ℤ) (s : ℕ)
    → 0 < s
    → (r : ℤ) × (round_to_nearest_step v (pos s) ≡ ok r)
      × IsStepNear v s r
      × (round_to_nearest_step r (pos s) ≡ ok r)
round_to_nearest_step_stable v s h =
    let r = rounded v s *ℤ pos s in
    let e = round_to_nearest_step-rounded v s h in
    (r, e, round_to_nearest_step-IsStepNear v s h e, round_to_nearest_step_idem v s h e)

-- Rounding to a step commutes with a change of sign of the value, for every step, the refused ones
-- included.
pub round_to_nearest_step-neg :
    (v s : ℤ) → round_to_nearest_step (neg v) s ≡ (round_to_nearest_step v s >>= λ r. ok (neg r))
round_to_nearest_step-neg v s = elim (sign-cases s) [
  | inl (m, e, h) ↦
      rw (e, round_to_nearest_step-rounded (neg v) m h, round_to_nearest_step-rounded v m h)
        (ap ok (ap (λ t. t *ℤ pos m) (rounded-neg v m h) ∙ neg-*ℤ (rounded v m) (pos m)))
  | inr h ↦ rw (round_to_nearest_step_invalid (neg v) s h, round_to_nearest_step_invalid v s h)
]
