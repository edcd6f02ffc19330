-- ===== src/Inventory/Average.antt =====
-- The weighted average of packages/business-logic/src/inventory/costing.ts.
use dukaano.Base.{arith, err, ok, ℕ, ◌+◌, ◌-◌, ◌<◌, ◌↔◌, ◌∙◌, ◌≡◌}
use dukaano.Base.Int.{int_laws, neg_part, negsuc, pos, pos_part, ℤ, ◌*ℤ◌, ◌+ℤ◌, ◌<ℤ◌, ◌≤ℤ◌}
use dukaano.Base.Mul.{*ℤ_comm, *ℤ_pos_parts, mul-le-mul, pos-+ℤ}
use dukaano.Inventory.{CostingState, InboundMovement, apply_inbound_cost}
use dukaano.Money.Arithmetic.{max_paise, min_paise}
use dukaano.Money.Brand.{IsSafe, Paise, as_paise, max_safe_scaled_value}
use dukaano.Money.Errors.{Number, inbound_quantity, range_error}
use dukaano.Money.Round.Nearest.{
  IsNearest, IsNearest-ge, IsNearest-le, div_round_rounded, rounded, rounded-IsNearest,
}

abbrev pub stock : ℕ → Paise → CostingState
stock q cost = record { qty_milli = pos q; avg_cost_paise = cost }

abbrev pub receipt : ℕ → Paise → InboundMovement
receipt m cost = record { qty_milli = pos m; unit_cost_paise = cost }

abbrev value : ℕ → ℕ → Paise → Paise → ℤ
value q m a c = pos q *ℤ a +ℤ pos m *ℤ c

value_le : (q m : ℕ) (a c hi : ℤ) → a ≤ℤ hi → c ≤ℤ hi → value q m a c ≤ℤ hi *ℤ pos (q + m)
value_le q m a c hi h k =
    rw (*ℤ_comm (pos q) a, *ℤ_comm (pos m) c)
      (omega (
        int_laws,
        *ℤ_pos_parts a q,
        *ℤ_pos_parts c m,
        *ℤ_pos_parts hi (q + m),
        mul-le-mul (pos_part a + neg_part hi) (pos_part hi + neg_part a) q h,
        mul-le-mul (pos_part c + neg_part hi) (pos_part hi + neg_part c) m k,
      ))

le_value : (q m : ℕ) (a c lo : ℤ) → lo ≤ℤ a → lo ≤ℤ c → lo *ℤ pos (q + m) ≤ℤ value q m a c
le_value q m a c lo h k =
    rw (*ℤ_comm (pos q) a, *ℤ_comm (pos m) c)
      (omega (
        int_laws,
        *ℤ_pos_parts a q,
        *ℤ_pos_parts c m,
        *ℤ_pos_parts lo (q + m),
        mul-le-mul (pos_part lo + neg_part a) (pos_part a + neg_part lo) q h,
        mul-le-mul (pos_part lo + neg_part c) (pos_part c + neg_part lo) m k,
      ))

min_paise-le : (a c : Paise) → (min_paise a c ≤ℤ a) × (min_paise a c ≤ℤ c)
unfolding min_paise
min_paise-le a c = (ground arith, ground arith)

max_paise-ge : (a c : Paise) → (a ≤ℤ max_paise a c) × (c ≤ℤ max_paise a c)
unfolding max_paise
max_paise-ge a c = (ground arith, ground arith)

as_paise_safe : (a : ℤ) → IsSafe a → as_paise (Number.whole a) ≡ ok a
unfolding as_paise
as_paise_safe a h = ground arith

IsSafe-between :
    (a c r : ℤ)
    → IsSafe a
    → IsSafe c
    → ((hi : ℤ) → a ≤ℤ hi → c ≤ℤ hi → r ≤ℤ hi)
    → ((lo : ℤ) → lo ≤ℤ a → lo ≤ℤ c → lo ≤ℤ r)
    → IsSafe r
IsSafe-between a c r h k above below =
    let top = above (pos max_safe_scaled_value) (omega int_laws) (omega int_laws) in
    let bottom = below (negsuc (max_safe_scaled_value - 1)) (omega int_laws) (omega int_laws) in
    omega (int_laws, top, bottom)

inbound_rounded :
    (q m : ℕ) (a c : Paise)
    → 0 < q
    → 0 < m
    → apply_inbound_cost (stock q a) (receipt m c)
      ≡ as_paise (Number.whole (rounded (value q m a c) (q + m)))
unfolding apply_inbound_cost
inbound_rounded q m a c h k = ground (arith, pos-+ℤ q m, div_round_rounded (value q m a c) (q + m))

-- Stock on hand and a receipt, with safe costs, always have an average. It is the total value over the
-- total quantity, rounded once to the nearest paisa, and it lies between the two costs.
pub apply_inbound_cost_average :
    (q m : ℕ) (a c : Paise)
    → 0 < q
    → 0 < m
    → IsSafe a
    → IsSafe c
    → (r : Paise) × (apply_inbound_cost (stock q a) (receipt m c) ≡ ok r)
      × IsNearest (pos q *ℤ a +ℤ pos m *ℤ c) (q + m) r
      × (min_paise a c ≤ℤ r)
      × (r ≤ℤ max_paise a c)
apply_inbound_cost_average q m a c h k sa sc =
    let n = value q m a c in
    let d = q + m in
    let r = rounded n d in
    let near = rounded-IsNearest n d (omega arith) in
    let above : (hi : ℤ) → a ≤ℤ hi → c ≤ℤ hi → r ≤ℤ hi =
      λ hi x y. IsNearest-le n d r hi (omega arith) near (value_le q m a c hi x y) in
    let below : (lo : ℤ) → lo ≤ℤ a → lo ≤ℤ c → lo ≤ℤ r =
      λ lo x y. IsNearest-ge n d r lo (omega arith) near (le_value q m a c lo x y) in
    (
      r,
      inbound_rounded q m a c h k ∙ as_paise_safe r (IsSafe-between a c r sa sc above below),
      near,
      below (min_paise a c) (min_paise-le a c).0 (min_paise-le a c).1,
      above (max_paise a c) (max_paise-ge a c).0 (max_paise-ge a c).1,
    )

-- Without stock on hand, or with stock below zero, the average is reset to the cost of the receipt exactly
-- when something is received; a receipt of nothing, or of less, is refused, and nothing else is.
pub apply_inbound_cost_reset :
    (state : CostingState) (movement : InboundMovement)
    → state.qty_milli ≤ℤ pos 0
    → ((apply_inbound_cost state movement ≡ ok movement.unit_cost_paise)
        ↔ (pos 0 <ℤ movement.qty_milli))
      × ((apply_inbound_cost state movement
            ≡ err (range_error (inbound_quantity movement.qty_milli)))
          ↔ (movement.qty_milli ≤ℤ pos 0))
unfolding apply_inbound_cost
apply_inbound_cost_reset state movement h = (ground arith, ground arith)
