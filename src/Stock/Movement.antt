-- ===== src/Stock/Movement.antt =====
-- `applyMovement` of apps/api/src/modules/inventory/inventory.service.ts.
use dukaano.Base.{
  Option, Result, [], err, if◌then◌else◌, none, not, ok, or_else, some, throw_if, ℕ, ◌&&◌, ◌++◌,
  ◌>>=◌, ◌>>◌, ◌∷◌,
}
use dukaano.Base.Int.{eqb_ℤ, leb_ℤ, ltb_ℤ, pos, ℤ}
use dukaano.Inventory.{CostingState, apply_inbound_cost, apply_movement, crossed_below_threshold}
use dukaano.Khata.{Context, has_text, is_none}
use dukaano.Money.Brand.{Paise, as_milli, as_paise}
use dukaano.Money.Errors.{Number, Throws}
use dukaano.Stock.{
  MovementRequest, MovementResult, Product, StockFault, Store, Transaction, find_product,
  inventory_balance, inventory_transaction, is_wrong_way, lock_stock, movement_requires_reason,
  product_not_found, reason_missing, rethrown, stock_sign, update_stock, without_tenant,
  wrong_direction, zero_movement,
}

-- The new average: a receipt with a known cost is folded in, anything else leaves it.
unfoldable pub new_average : CostingState → ℤ → Option ℤ → Throws Paise
new_average held delta none = as_paise (Number.whole held.avg_cost_paise)
new_average held delta (some unit_cost) =
    if ltb_ℤ (pos 0) delta
    then (do
      average ← as_paise (Number.whole held.avg_cost_paise)
      received_qty ← as_milli (Number.whole delta)
      received_cost ← as_paise (Number.whole unit_cost)
      apply_inbound_cost (record { qty_milli = held.qty_milli; avg_cost_paise = average })
          (record { qty_milli = received_qty; unit_cost_paise = received_cost }))
    else as_paise (Number.whole held.avg_cost_paise)

abbrev pub moved_row : Context → ℕ → ℤ → MovementRequest → ℤ → Transaction
moved_row context id now request after = record {
  id = id;
  product_id = request.product_id;
  transaction_type = request.transaction_type;
  qty_delta_milli = request.qty_delta_milli;
  balance_after_milli = after;
  unit_cost_paise = request.unit_cost_paise;
  reason = request.reason;
  note = request.note;
  ref_type = request.ref_type;
  ref_id = request.ref_id;
  actor_user_id = context.user_id;
  device_id = context.device_id;
  occurred_at = or_else request.occurred_at now;
  op_id = request.op_id;
}

-- The rows that a movement writes, once the quantity and the average after it are known.
unfoldable pub write_movement : Context → ℕ → ℤ → MovementRequest → CostingState → Store → Store
unfolding lock_stock update_stock
write_movement context id now request held store = record store {
  transactions = store.transactions ++ moved_row context id now request held.qty_milli ∷ [];
  balances = update_stock request.product_id held (lock_stock request.product_id store.balances).1;
  changes =
      store.changes
      ++ record { entity = inventory_transaction; entity_id = id; row_version = 1 }
        ∷ record { entity = inventory_balance; entity_id = request.product_id; row_version = 1 }
        ∷ [];
}

abbrev pub found_product : ℕ → Option Product → Result StockFault Product
found_product id none = err (product_not_found id)
found_product id (some p) = ok p

abbrev pub moved_answer :
    Context → ℕ → ℤ → MovementRequest → Store → ℤ → ℤ → ℤ → ℤ → MovementResult × Store
moved_answer context id now request store before after average threshold = (
  record {
    transaction_id = id;
    product_id = request.product_id;
    balance_before_milli = before;
    balance_after_milli = after;
    avg_cost_paise = average;
    went_negative = leb_ℤ (pos 0) before && ltb_ℤ after (pos 0);
    crossed_low_stock = crossed_below_threshold before after threshold;
  },
  write_movement context id now request (record { qty_milli = after; avg_cost_paise = average })
      store,
)

-- From the product on: the balance is locked, the movement computed and written.
unfoldable pub move_stock :
    Context → ℕ → ℤ → MovementRequest → Product → Store → Result StockFault (MovementResult × Store)
unfolding lock_stock write_movement new_average
move_stock context id now request product store = do
  let locked = (lock_stock request.product_id store.balances).0
  before ← rethrown (as_milli (Number.whole locked.qty_milli))
  delta ← rethrown (as_milli (Number.whole request.qty_delta_milli))
  after ← rethrown (apply_movement before delta)
  average ← rethrown (
      new_average (record { qty_milli = before; avg_cost_paise = locked.avg_cost_paise })
        request.qty_delta_milli request.unit_cost_paise)
  threshold ← rethrown (as_milli (Number.whole product.low_stock_threshold_milli))
  ok (moved_answer context id now request store before after average threshold)

-- `applyMovement` of the service
unfoldable pub apply_stock_movement :
    Context → ℕ → ℤ → MovementRequest → Store → Result StockFault (MovementResult × Store)
unfolding move_stock find_product
apply_stock_movement context id now request store = do
  throw_if (is_none context.shop_id) without_tenant
  throw_if (eqb_ℤ request.qty_delta_milli (pos 0)) zero_movement
  throw_if (movement_requires_reason request.transaction_type && not (has_text request.reason))
      (reason_missing request.transaction_type)
  throw_if (is_wrong_way (stock_sign request.transaction_type) request.qty_delta_milli)
      (wrong_direction request.transaction_type)
  product ← found_product request.product_id (find_product request.product_id store.products)
  move_stock context id now request product store
