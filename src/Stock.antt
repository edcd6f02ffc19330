-- ===== src/Stock.antt =====
-- apps/api/src/modules/inventory/inventory.service.ts: the one writer of stock, on the rows of one shop in
-- the order of insertion. Quantities and costs of a request are whole, as its schema demands; identifiers
-- and the time that a call draws are its arguments. The warning that is logged is left out.
pub mod Rows
pub mod Movement
pub mod Moved
pub mod Opening
pub mod Batch
mod Tests
use dukaano.Base.{
  Bool, List, Option, Result, [], err, false, none, ok, some, true, ℕ, ◌++◌, ◌+◌, ◌∷◌,
}
use dukaano.Base.Int.{ltb_ℤ, pos, ℤ}
use dukaano.Base.Table.{change_rows, find_row}
use dukaano.Base.Text.{Text}
use dukaano.Inventory.{CostingState, empty_costing_state}
use dukaano.Money.Errors.{Exception, Throws}

-- The columns of INVENTORY_TRANSACTION_TYPES.
pub data TransactionType : Type 0 where
  opening_stock purchase sale sale_cancel customer_return : TransactionType
  supplier_return damage wastage adjustment correction : TransactionType

pub data StockSign : Type 0 where
  inward outward either : StockSign

abbrev pub stock_sign : TransactionType → StockSign
stock_sign opening_stock = inward
stock_sign purchase = inward
stock_sign sale = outward
stock_sign sale_cancel = inward
stock_sign customer_return = inward
stock_sign supplier_return = outward
stock_sign damage = outward
stock_sign wastage = outward
stock_sign adjustment = either
stock_sign correction = either

abbrev pub movement_requires_reason : TransactionType → Bool
movement_requires_reason damage = true
movement_requires_reason wastage = true
movement_requires_reason adjustment = true
movement_requires_reason correction = true
movement_requires_reason _ = false

pub record MovementRequest : Type 0 where
  pub product_id : ℕ
  pub transaction_type : TransactionType
  pub qty_delta_milli : ℤ
  pub unit_cost_paise : Option ℤ
  pub reason : Option Text
  pub note : Option Text
  pub ref_type : Option Text
  pub ref_id : Option ℕ
  pub occurred_at : Option ℤ
  pub op_id : Option ℕ

pub record MovementResult : Type 0 where
  pub transaction_id : ℕ
  pub product_id : ℕ
  pub balance_before_milli : ℤ
  pub balance_after_milli : ℤ
  pub avg_cost_paise : ℤ
  pub went_negative : Bool
  pub crossed_low_stock : Bool

-- A row of inventory_transaction.
pub record Transaction : Type 0 where
  pub id : ℕ
  pub product_id : ℕ
  pub transaction_type : TransactionType
  pub qty_delta_milli : ℤ
  pub balance_after_milli : ℤ
  pub unit_cost_paise : Option ℤ
  pub reason : Option Text
  pub note : Option Text
  pub ref_type : Option Text
  pub ref_id : Option ℕ
  pub actor_user_id : Option ℕ
  pub device_id : Option ℕ
  pub occurred_at : ℤ
  pub op_id : Option ℕ

-- A row of inventory_balance, and the columns of product that are read.
pub record InventoryBalance : Type 0 where
  pub product_id : ℕ
  pub qty_milli : ℤ
  pub avg_cost_paise : ℤ
  pub version : ℕ

pub record Product : Type 0 where
  pub id : ℕ
  pub low_stock_threshold_milli : ℤ

pub data StockEntity : Type 0 where
  inventory_transaction inventory_balance : StockEntity

pub record StockChange : Type 0 where
  pub entity : StockEntity
  pub entity_id : ℕ
  pub row_version : ℕ

pub record Store : Type 0 where
  pub products : List Product
  pub transactions : List Transaction
  pub balances : List InventoryBalance
  pub changes : List StockChange

pub data StockFault : Type 0 where
  without_tenant zero_movement : StockFault
  reason_missing wrong_direction : TransactionType → StockFault
  product_not_found : ℕ → StockFault
  thrown : Exception → StockFault

abbrev pub rethrown : {A : Type 0} → Throws A → Result StockFault A
rethrown (ok a) = ok a
rethrown (err e) = err (thrown e)

abbrev pub is_wrong_way : StockSign → ℤ → Bool
is_wrong_way inward delta = ltb_ℤ delta (pos 0)
is_wrong_way outward delta = ltb_ℤ (pos 0) delta
is_wrong_way either delta = false

unfoldable pub find_product : ℕ → List Product → Option Product
unfolding find_row
find_product = find_row Product.id (λ r. r)

unfoldable pub find_stock : ℕ → List InventoryBalance → Option CostingState
unfolding find_row
find_stock =
    find_row InventoryBalance.product_id
      (λ b. record { qty_milli = b.qty_milli; avg_cost_paise = b.avg_cost_paise })

abbrev pub new_stock : ℕ → InventoryBalance
new_stock product = record {
  product_id = product;
  qty_milli = pos 0;
  avg_cost_paise = pos 0;
  version = 0;
}

-- lockBalance: the balance, and the rows with the one that it inserted.
abbrev pub lock_stock_row :
    ℕ → List InventoryBalance → Option CostingState → CostingState × List InventoryBalance
lock_stock_row product balances (some held) = (held, balances)
lock_stock_row product balances none = (empty_costing_state, balances ++ new_stock product ∷ [])

unfoldable pub lock_stock : ℕ → List InventoryBalance → CostingState × List InventoryBalance
unfolding find_stock
lock_stock product balances = lock_stock_row product balances (find_stock product balances)

-- `inventoryBalance.update`
unfoldable pub update_stock : ℕ → CostingState → List InventoryBalance → List InventoryBalance
unfolding change_rows
update_stock product held = change_rows InventoryBalance.product_id product (λ b. record b {
  qty_milli = held.qty_milli;
  avg_cost_paise = held.avg_cost_paise;
  version = b.version + 1;
})
