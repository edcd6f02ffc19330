-- ===== src/Inventory/Threshold.antt =====
-- Low stock, packages/business-logic/src/inventory/costing.ts.
use dukaano.Base.{arith, not, ◌&&◌, ◌≡◌}
use dukaano.Inventory.{crossed_below_threshold, is_low_stock}
use dukaano.Money.Brand.{Milli}

-- A movement is reported exactly when it takes the stock from above its threshold to low.
pub crossed_below_threshold-is_low_stock :
    (before after threshold : Milli)
    → crossed_below_threshold before after threshold
      ≡ (not (is_low_stock before threshold) && is_low_stock after threshold)
unfolding crossed_below_threshold is_low_stock
crossed_below_threshold-is_low_stock before after threshold = ground arith
