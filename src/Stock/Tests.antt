-- ===== src/Stock/Tests.antt =====
-- Runs of apps/api/src/modules/inventory.
use dukaano.Base.{List, [], length, none, ok, refl, some, ◌++◌, ◌+◌, ◌∷◌, ◌≡◌}
use dukaano.Base.Int.{neg, pos, ◌+ℤ◌}
use dukaano.Inventory.{apply_inbound_cost, apply_movement}
use dukaano.Khata.{Context}
use dukaano.Money.Arithmetic.{add_milli}
use dukaano.Money.Brand.{as_milli, as_paise, from_bigint}
use dukaano.Stock.{
  MovementRequest, MovementResult, Store, find_stock, inventory_balance, inventory_transaction,
  purchase,
}
use dukaano.Stock.Moved.{IsMoved, IsStocked, apply_stock_movement-IsMoved}
use dukaano.Stock.Movement.{apply_stock_movement, moved_answer}
use dukaano.Stock.Opening.{
  OpeningEntry, apply_opening_stock_batch, apply_opening_stock_batch-IsStocked, opening_balance,
  opening_row, opening_rows, positive_entries,
}
use dukaano.Stock.Rows.{sum_movements}

abbrev counter : Context
counter = record { shop_id = some 1; user_id = some 2; device_id = none }

abbrev empty_store : Store
empty_store = record {
  products = record { id = 7; low_stock_threshold_milli = pos 2_000 } ∷ [];
  transactions = [];
  balances = [];
  changes = [];
}

abbrev received : MovementRequest
received = record {
  product_id = 7;
  transaction_type = purchase;
  qty_delta_milli = pos 5_000;
  unit_cost_paise = some (pos 4_600);
  reason = none;
  note = none;
  ref_type = none;
  ref_id = none;
  occurred_at = none;
  op_id = none;
}

abbrev answered : MovementResult × Store
answered =
    moved_answer counter 40 (pos 1_000) received empty_store (pos 0) (pos 5_000) (pos 4_600)
      (pos 2_000)

received_ok :
    apply_stock_movement counter 40 (pos 1_000) received empty_store ≡ ok (answered.0, answered.1)
unfolding apply_stock_movement as_milli apply_movement add_milli from_bigint ◌+ℤ◌ neg as_paise
    apply_inbound_cost
received_ok = refl

empty_store-IsStocked : IsStocked empty_store
unfolding find_stock sum_movements
empty_store-IsStocked c = refl

apply_stock_movement-IsMoved_example : IsMoved received empty_store answered.0 answered.1
apply_stock_movement-IsMoved_example =
    apply_stock_movement-IsMoved counter 40 (pos 1_000) received empty_store empty_store-IsStocked
      received_ok

abbrev openings : List OpeningEntry
openings =
    record { product_id = 8; qty_milli = pos 3_000; unit_cost_paise = some (pos 250) }
    ∷ record { product_id = 9; qty_milli = pos 0; unit_cost_paise = none }
    ∷ []

abbrev first_opening : OpeningEntry
first_opening = record { product_id = 8; qty_milli = pos 3_000; unit_cost_paise = some (pos 250) }

abbrev opened_store : Store
opened_store = record empty_store {
  transactions = opening_row counter 50 (pos 2_000) first_opening ∷ [];
  balances = opening_balance first_opening ∷ [];
  changes =
      record { entity = inventory_transaction; entity_id = 8; row_version = 1 }
      ∷ record { entity = inventory_balance; entity_id = 8; row_version = 1 }
      ∷ [];
}

opened_ok :
    apply_opening_stock_batch counter (λ k. 50 + k) (pos 2_000) openings empty_store
    ≡ ok (1, opened_store)
unfolding apply_opening_stock_batch
opened_ok = refl

apply_opening_stock_batch-IsStocked_example :
    IsStocked opened_store
    × (1 ≡ length (positive_entries openings))
    × (opened_store.transactions
        ≡ empty_store.transactions
          ++ opening_rows counter (λ k. 50 + k) (pos 2_000) 0 (positive_entries openings))
apply_opening_stock_batch-IsStocked_example =
    apply_opening_stock_batch-IsStocked counter (λ k. 50 + k) (pos 2_000) openings empty_store
      empty_store-IsStocked opened_ok
