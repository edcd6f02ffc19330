-- ===== src/Stock/Batch.antt =====
-- `applyMovements` of apps/api/src/modules/inventory/inventory.service.ts. The order of identifiers is a
-- parameter (`localeCompare`); the identifiers and instants that the calls draw are functions of the
-- position.
use dukaano.Base.{>>=-eq-ok, List, Result, [], ap, ok, ok-injective, ℕ, ◌+◌, ◌>>=◌, ◌∙◌, ◌∷◌, ◌≡◌}
use dukaano.Base.Int.{+ℤ_assoc, int_laws, ℤ, ◌+ℤ◌}
use dukaano.Base.Sort.{sort_by, total_by, total_by-sort_by}
use dukaano.Khata.{Context}
use dukaano.Stock.{MovementRequest, MovementResult, StockFault, Store}
use dukaano.Stock.Moved.{
  IsMoved, IsStocked, apply_stock_movement-IsMoved, apply_stock_movement_sums, moved_by,
}
use dukaano.Stock.Movement.{apply_stock_movement}
use dukaano.Stock.Rows.{sum_movements}
use mathlib.Core.Path.{subst}

unfoldable pub apply_each :
    Context
    → (ℕ → ℕ)
    → (ℕ → ℤ)
    → ℕ
    → List MovementRequest
    → Store
    → Result StockFault (List MovementResult × Store)
unfolding apply_stock_movement
apply_each context fresh clock position [] store = ok ([], store)
apply_each context fresh clock position (r ∷ requests) store = do
  (done, after) ← apply_stock_movement context (fresh position) (clock position) r store
  (rest, final) ← apply_each context fresh clock (position + 1) requests after
  ok (done ∷ rest, final)

module _ (locale_compare : ℕ → ℕ → ℤ) where
  abbrev pub by_product : MovementRequest → MovementRequest → ℤ
  by_product a b = locale_compare a.product_id b.product_id

  unfoldable pub apply_stock_movements :
      Context
      → (ℕ → ℕ)
      → (ℕ → ℤ)
      → List MovementRequest
      → Store
      → Result StockFault (List MovementResult × Store)
  unfolding apply_each
  apply_stock_movements context fresh clock requests store =
      apply_each context fresh clock 0 (sort_by by_product requests) store

-- The stock is in order, and the sum of every product has moved by what the requests say.
abbrev pub MovedAll : List MovementRequest → Store → Store → Type 0
MovedAll requests store after =
    (IsStocked store → IsStocked after)
    × ((c : ℕ)
        → sum_movements c after.transactions
          ≡ sum_movements c store.transactions +ℤ total_by (moved_by c) requests)

apply_each-MovedAll :
    (ctx : Context) (fresh : ℕ → ℕ) (clock : ℕ → ℤ) (k : ℕ) (rs : List MovementRequest)
    (store : Store) {done : List MovementResult × Store}
    → apply_each ctx fresh clock k rs store ≡ ok done
    → MovedAll rs store done.1
unfolding apply_each
apply_each-MovedAll ctx fresh clock k [] store {done} e =
    subst (λ (w : List MovementResult × Store). MovedAll [] store w.1) (ok-injective e)
      ((λ h. h), (λ c. omega int_laws))
apply_each-MovedAll ctx fresh clock k (r ∷ rs) store {done} e =
    let ((first, after), e0, e1) =
      >>=-eq-ok (apply_stock_movement ctx (fresh k) (clock k) r store) _ e in
    let ((rest, final), e2, e3) = >>=-eq-ok _ _ e1 in
    let later = apply_each-MovedAll ctx fresh clock (k + 1) rs after e2 in
    subst (λ (w : List MovementResult × Store). MovedAll (r ∷ rs) store w.1) (ok-injective e3)
      (
        (λ h.
            later.0 (
              IsMoved.stocked (apply_stock_movement-IsMoved ctx (fresh k) (clock k) r store h e0))),
        (λ c.
            later.1 c
            ∙ ap (λ t. t +ℤ total_by (moved_by c) rs)
                (apply_stock_movement_sums ctx (fresh k) (clock k) r store c e0)
            ∙ +ℤ_assoc (sum_movements c store.transactions) (moved_by c r)
                (total_by (moved_by c) rs)),
      )

-- A batch of movements that goes through keeps the stock in order, and moves the sum of every product by
-- what its requests ask for, whatever the order of the identifiers.
pub apply_stock_movements-MovedAll :
    (locale_compare : ℕ → ℕ → ℤ) (ctx : Context) (fresh : ℕ → ℕ) (clock : ℕ → ℤ)
    (rs : List MovementRequest) (store : Store) {done : List MovementResult × Store}
    → apply_stock_movements locale_compare ctx fresh clock rs store ≡ ok done
    → MovedAll rs store done.1
unfolding apply_stock_movements
apply_stock_movements-MovedAll locale_compare ctx fresh clock rs store e =
    let (stocked, sums) =
      apply_each-MovedAll ctx fresh clock 0 (sort_by (by_product locale_compare) rs) store e in
    (
      stocked,
      (λ c.
          sums c
          ∙ ap (λ t. sum_movements c store.transactions +ℤ t)
              (total_by-sort_by (moved_by c) (by_product locale_compare) rs)),
    )
