-- ===== src/Stock/Moved.antt =====
-- The stock of apps/api/src/modules/inventory/inventory.service.ts and the movements behind it.
use dukaano.Base.{
  ==_iff, >>=-eq-ok, Bool-cases, Result, [], ap, arith, err, false, if◌then◌else◌, inl, inr, not,
  ok, ok-injective, refl, sym, throw_if-ok, true, ℕ, ◌&&◌, ◌++◌, ◌==◌, ◌>>=◌, ◌∙◌, ◌∷◌, ◌≡◌, ◌≢◌,
}
use dukaano.Base.Int.{eqb_ℤ, int_laws, pos, ℤ, ◌+ℤ◌}
use dukaano.Inventory.{CostingState, apply_movement}
use dukaano.Khata.{Context, has_text, is_none}
use dukaano.Money.Arithmetic.{add_milli, total_from}
use dukaano.Money.Brand.{as_milli, as_milli-ok, from_bigint-eq-ok}
use dukaano.Money.Errors.{Number, Throws}
use dukaano.Stock.{
  MovementRequest, MovementResult, Product, StockFault, Store, Transaction, find_product,
  is_wrong_way, lock_stock, movement_requires_reason, reason_missing, rethrown, stock_sign,
  without_tenant, wrong_direction, zero_movement,
}
use dukaano.Stock.Movement.{
  apply_stock_movement, found_product, move_stock, moved_answer, moved_row, new_average,
  write_movement,
}
use dukaano.Stock.Rows.{
  find_stock-update_stock, held_of, lock_stock_lem, sum_movements, sum_movements-one,
}
use mathlib.Core.Path.{subst}

-- The quantity of every product is the sum of its movements.
abbrev pub IsStocked : Store → Type 0
IsStocked store =
    (c : ℕ) → (held_of c store.balances).qty_milli ≡ sum_movements c store.transactions

-- A movement that went through: its direction suits its type, one transaction is added, stamped with the
-- quantity after it, and the answer says where the quantity was and is.
pub record IsMoved (request : MovementRequest) (store : Store) (result : MovementResult)
    (after : Store) : Type 0 where
  pub stocked : IsStocked after
  pub row : Transaction
  pub appended : after.transactions ≡ store.transactions ++ row ∷ []
  pub right_product : row.product_id ≡ request.product_id
  pub right_way : is_wrong_way (stock_sign request.transaction_type) request.qty_delta_milli ≡ false
  pub not_zero : request.qty_delta_milli ≢ pos 0
  pub stamped : row.balance_after_milli ≡ sum_movements request.product_id after.transactions
  pub before_is : result.balance_before_milli ≡ sum_movements request.product_id store.transactions
  pub after_is : result.balance_after_milli ≡ result.balance_before_milli +ℤ request.qty_delta_milli

rethrown-ok :
    {A B : Type 0} (m : Throws A) (next : A → Result StockFault B) {b : B}
    → (rethrown m >>= next) ≡ ok b
    → (a : A) × (m ≡ ok a) × (next a ≡ ok b)
rethrown-ok (ok a) next e = (a, refl, e)
rethrown-ok (err x) next e = cc

apply_movement-ok : (a b : ℤ) {c : ℤ} → apply_movement a b ≡ ok c → c ≡ a +ℤ b
unfolding apply_movement add_milli total_from
apply_movement-ok a b e = (from_bigint-eq-ok _ _ e).0 ∙ omega int_laws

-- Writing a movement whose quantity is the old one moved by the request keeps the stock in order.
write_movement-IsStocked :
    (ctx : Context) (id : ℕ) (now : ℤ) (r : MovementRequest) (held : CostingState) (store : Store)
    → IsStocked store
    → held.qty_milli ≡ sum_movements r.product_id store.transactions +ℤ r.qty_delta_milli
    → IsStocked (write_movement ctx id now r held store)
unfolding write_movement
write_movement-IsStocked ctx id now r held store h moved d =
    let c = r.product_id in
    let (_, (v, found), others) = lock_stock_lem c store.balances in
    let row = moved_row ctx id now r held.qty_milli in
    let updated = find_stock-update_stock c d held (lock_stock c store.balances).1 found in
    let summed = sum_movements-one d store.transactions row in
    elim (Bool-cases (c == d)) [
      | inl same ↦
          rw (updated, summed, same)
            (moved
              ∙ ap (λ x. sum_movements x store.transactions +ℤ r.qty_delta_milli)
                  ((==_iff c d).0 same))
      | inr other ↦
          rw (updated, summed, other) (ap (λ (s : CostingState). s.qty_milli) (others d) ∙ h d)
    ]

-- The numbers of a movement that was computed.
abbrev Computed : Context → ℕ → ℤ → MovementRequest → Store → MovementResult × Store → Type 0
Computed ctx id now r store done =
    (average : ℤ) × (threshold : ℤ) × (let before =
        (held_of r.product_id store.balances).qty_milli in
      moved_answer ctx id now r store before (before +ℤ r.qty_delta_milli) average threshold ≡ done)

move_stock-Computed :
    (ctx : Context) (id : ℕ) (now : ℤ) (r : MovementRequest) (product : Product) (store : Store)
    {done : MovementResult × Store}
    → move_stock ctx id now r product store ≡ ok done
    → Computed ctx id now r store done
unfolding move_stock
move_stock-Computed ctx id now r product store {done} e =
    let locked = (lock_stock r.product_id store.balances).0 in
    let (before, b_ok, e1) = rethrown-ok _ _ e in
    let (delta, d_ok, e2) = rethrown-ok _ _ e1 in
    let (after, a_ok, e3) = rethrown-ok _ _ e2 in
    let (average, _, e4) =
      rethrown-ok
        (new_average (record { qty_milli = before; avg_cost_paise = locked.avg_cost_paise })
          r.qty_delta_milli r.unit_cost_paise)
        _ e3 in
    let (threshold, _, e5) =
      rethrown-ok (as_milli (Number.whole product.low_stock_threshold_milli)) _ e4 in
    let before_is : before ≡ (held_of r.product_id store.balances).qty_milli =
      as_milli-ok locked.qty_milli b_ok
      ∙ ap (λ (s : CostingState). s.qty_milli) (lock_stock_lem r.product_id store.balances).0 in
    let after_is : after ≡ before +ℤ r.qty_delta_milli =
      apply_movement-ok before delta a_ok
      ∙ ap (λ x. before +ℤ x) (as_milli-ok r.qty_delta_milli d_ok) in
    (
      average,
      threshold,
      subst
          (λ x. moved_answer ctx id now r store x (x +ℤ r.qty_delta_milli) average threshold ≡ done)
          before_is
          (ap (λ x. moved_answer ctx id now r store before x average threshold) (sym after_is)
            ∙ ok-injective e5),
    )

moved_answer-IsMoved :
    (ctx : Context) (id : ℕ) (now : ℤ) (r : MovementRequest) (store : Store) (average threshold : ℤ)
    → IsStocked store
    → is_wrong_way (stock_sign r.transaction_type) r.qty_delta_milli ≡ false
    → eqb_ℤ r.qty_delta_milli (pos 0) ≡ false
    → let before = (held_of r.product_id store.balances).qty_milli in
      let done =
        moved_answer ctx id now r store before (before +ℤ r.qty_delta_milli) average threshold in
      IsMoved r store done.0 done.1
unfolding write_movement
moved_answer-IsMoved ctx id now r store average threshold h way nonzero =
    let c = r.product_id in
    let before = (held_of c store.balances).qty_milli in
    let after = before +ℤ r.qty_delta_milli in
    let held : CostingState = record { qty_milli = after; avg_cost_paise = average } in
    let row = moved_row ctx id now r after in
    let own : (c == c) ≡ true = ground arith in
    record {
      stocked =
          write_movement-IsStocked ctx id now r held store h
            (ap (λ x. x +ℤ r.qty_delta_milli) (h c));
      row = row;
      appended = refl;
      right_product = refl;
      right_way = way;
      not_zero = (λ z. ground (arith, z, nonzero));
      stamped = rw (sum_movements-one c store.transactions row, own, h c) refl;
      before_is = h c;
      after_is = refl;
    }

-- What a movement that went through has passed and computed.
abbrev pub Applied : Context → ℕ → ℤ → MovementRequest → Store → MovementResult × Store → Type 0
Applied ctx id now r store done =
    (is_wrong_way (stock_sign r.transaction_type) r.qty_delta_milli ≡ false)
    × (eqb_ℤ r.qty_delta_milli (pos 0) ≡ false)
    × Computed ctx id now r store done

apply_stock_movement-Applied :
    (ctx : Context) (id : ℕ) (now : ℤ) (r : MovementRequest) (store : Store)
    {done : MovementResult × Store}
    → apply_stock_movement ctx id now r store ≡ ok done
    → Applied ctx id now r store done
unfolding apply_stock_movement
apply_stock_movement-Applied ctx id now r store {done} e =
    let t = r.transaction_type in
    let (_, e1) = throw_if-ok (is_none ctx.shop_id) without_tenant _ e in
    let (nonzero, e2) = throw_if-ok (eqb_ℤ r.qty_delta_milli (pos 0)) zero_movement _ e1 in
    let (_, e3) =
      throw_if-ok (movement_requires_reason t && not (has_text r.reason)) (reason_missing t) _ e2 in
    let (way, e4) =
      throw_if-ok (is_wrong_way (stock_sign t) r.qty_delta_milli) (wrong_direction t) _ e3 in
    let (product, _, e5) =
      >>=-eq-ok (found_product r.product_id (find_product r.product_id store.products)) _ e4 in
    (way, nonzero, move_stock-Computed ctx id now r product store e5)

pub apply_stock_movement-IsMoved :
    (ctx : Context) (id : ℕ) (now : ℤ) (r : MovementRequest) (store : Store)
    {result : MovementResult} {after : Store}
    → IsStocked store
    → apply_stock_movement ctx id now r store ≡ ok (result, after)
    → IsMoved r store result after
apply_stock_movement-IsMoved ctx id now r store {result} {after} h e =
    let (way, nonzero, (average, threshold, is)) =
      apply_stock_movement-Applied ctx id now r store e in
    subst (λ (w : MovementResult × Store). IsMoved r store w.0 w.1) is
      (moved_answer-IsMoved ctx id now r store average threshold h way nonzero)

-- What a movement adds to the sum of a product.
abbrev pub moved_by : ℕ → MovementRequest → ℤ
moved_by c r = if r.product_id == c then r.qty_delta_milli else pos 0

pub apply_stock_movement_sums :
    (ctx : Context) (id : ℕ) (now : ℤ) (r : MovementRequest) (store : Store)
    {done : MovementResult × Store} (c : ℕ)
    → apply_stock_movement ctx id now r store ≡ ok done
    → sum_movements c done.1.transactions ≡ sum_movements c store.transactions +ℤ moved_by c r
apply_stock_movement_sums ctx id now r store {done} c e =
    let (_, _, (average, threshold, is)) = apply_stock_movement-Applied ctx id now r store e in
    let before = (held_of r.product_id store.balances).qty_milli in
    let row = moved_row ctx id now r (before +ℤ r.qty_delta_milli) in
    let moved : (if r.product_id == c
          then sum_movements c store.transactions +ℤ r.qty_delta_milli
          else sum_movements c store.transactions)
        ≡ sum_movements c store.transactions +ℤ moved_by c r =
      elim (Bool-cases (r.product_id == c)) [
        | inl same ↦ rw same refl
        | inr other ↦ rw other (omega int_laws)
      ] in
    subst
      (λ (w : MovementResult × Store).
        sum_movements c w.1.transactions ≡ sum_movements c store.transactions +ℤ moved_by c r)
      is (unfold write_movement in (sum_movements-one c store.transactions row ∙ moved))
