-- ===== src/Stock/Rows.antt =====
-- Rows of stock and sums of movements, apps/api/src/modules/inventory/inventory.service.ts.
use dukaano.Base.{
  ==_iff, List, Option-cases, [], if◌then◌else◌, inl, inr, or_else, refl, some, ℕ, ◌++◌, ◌==◌, ◌∷◌,
  ◌≡◌,
}
use dukaano.Base.Int.{ℤ, ◌+ℤ◌}
use dukaano.Base.Table.{
  find_row-append, find_row-change_rows, find_row-new, sum_rows, sum_rows-append, sum_rows-one,
}
use dukaano.Inventory.{CostingState, empty_costing_state}
use dukaano.Stock.{InventoryBalance, Transaction, find_stock, lock_stock, new_stock, update_stock}

-- The balance of a product; a product that has not moved has none, which counts as an empty one.
abbrev pub held_of : ℕ → List InventoryBalance → CostingState
held_of product balances = or_else (find_stock product balances) empty_costing_state

-- After the lock there is a row with the balance that was read, and no other balance has moved.
pub lock_stock_lem :
    (c : ℕ) (bs : List InventoryBalance)
    → ((lock_stock c bs).0 ≡ held_of c bs)
      × ((v : CostingState) × (find_stock c (lock_stock c bs).1 ≡ some v))
      × ((d : ℕ) → held_of d (lock_stock c bs).1 ≡ held_of d bs)
unfolding lock_stock find_stock
lock_stock_lem c bs = elim (Option-cases (find_stock c bs)) [
  | inl absent ↦ rw absent (
    refl,
    find_row-new InventoryBalance.product_id _ c (new_stock c) bs ((==_iff c c).1 refl),
    (λ d. find_row-append InventoryBalance.product_id _ d (new_stock c) bs),
  )
  | inr (v, found) ↦ rw found (refl, (v, found), (λ d. refl))
]

pub find_stock-update_stock :
    (c d : ℕ) (held : CostingState) (bs : List InventoryBalance) {v : CostingState}
    → find_stock c bs ≡ some v
    → held_of d (update_stock c held bs) ≡ (if c == d then held else held_of d bs)
unfolding find_stock update_stock
find_stock-update_stock c d held bs h =
    find_row-change_rows InventoryBalance.product_id _ c _ (λ r. refl) empty_costing_state d bs
      (λ r. refl) h

-- The movements of a product added up, as the query of `reconcile` does.
unfoldable pub sum_movements : ℕ → List Transaction → ℤ
unfolding sum_rows
sum_movements = sum_rows Transaction.product_id Transaction.qty_delta_milli

pub sum_movements-append :
    (c : ℕ) (es fs : List Transaction)
    → sum_movements c (es ++ fs) ≡ sum_movements c es +ℤ sum_movements c fs
unfolding sum_movements
sum_movements-append = sum_rows-append Transaction.product_id Transaction.qty_delta_milli

pub sum_movements-one :
    (d : ℕ) (es : List Transaction) (e : Transaction)
    → sum_movements d (es ++ e ∷ [])
      ≡ (if e.product_id == d then sum_movements d es +ℤ e.qty_delta_milli else sum_movements d es)
unfolding sum_movements
sum_movements-one = sum_rows-one Transaction.product_id Transaction.qty_delta_milli
