-- ===== src/Sales/Written.antt =====
-- The rows that `create` of apps/api/src/modules/sales/sales.service.ts writes for a bill.
use dukaano.Base.{
  >>=-eq-ok, Bool, List, Option, [], ap, false, if◌then◌else◌, map, map_err-ok, none, ok,
  ok-injective, refl, some, true, ℕ, ◌++◌, ◌∷◌, ◌≡◌,
}
use dukaano.Base.Int.{ℤ}
use dukaano.Khata.{Books, Context}
use dukaano.Sales.{
  Draws, SaleItemRow, SaleRow, SaleView, Till, completed, find_sale, in_stock, update_sale,
  view_sale,
}
use dukaano.Sales.Create.{CreateSaleInput, CreditWarning, item_rows, paid_of, tendered}
use dukaano.Sales.Issue.{issue}
use dukaano.Sales.Keeps.{find_sale-append, find_sale-update_sale}
use dukaano.Sales.Rows.{Bill, append_for, charge, issued, marked_negative, sale_row, taken}
use dukaano.Stock.{MovementResult, Store}
use dukaano.Stock.Batch.{apply_stock_movements}
use mathlib.Core.Path.{subst}

abbrev pub sold_row : Bool → Context → Bill → CreateSaleInput → SaleRow
sold_row negative ctx bill input =
    if negative then marked_negative (sale_row ctx bill input) else sale_row ctx bill input

pub find_sale-issued :
    (ctx : Context) (bill : Bill) (input : CreateSaleInput) (negative : Bool) (sales : List SaleRow)
    → find_sale bill.id sales ≡ none
    → find_sale bill.id (
        let all = sales ++ sale_row ctx bill input ∷ [] in
        if negative then update_sale bill.id marked_negative all else all)
      ≡ some (sold_row negative ctx bill input)
find_sale-issued ctx bill input true sales h =
    find_sale-update_sale bill.id marked_negative (sales ++ sale_row ctx bill input ∷ [])
      (λ s. refl) (find_sale-append bill.id (sale_row ctx bill input) sales refl h)
find_sale-issued ctx bill input false sales h =
    find_sale-append bill.id (sale_row ctx bill input) sales refl h

-- Whether the stock went negative changes none of the amounts.
pub sold_row_amounts :
    (negative : Bool) (ctx : Context) (bill : Bill) (input : CreateSaleInput) (s : SaleRow)
    → s ≡ sold_row negative ctx bill input
    → (s.total_paise ≡ bill.totals.total_paise)
      × (s.paid_paise ≡ paid_of (tendered input))
      × (s.credit_paise ≡ bill.credit)
      × (s.customer_id ≡ input.customer_id)
      × (s.status ≡ completed)
sold_row_amounts true ctx bill input s e = (
  ap (λ (x : SaleRow). x.total_paise) e,
  ap (λ (x : SaleRow). x.paid_paise) e,
  ap (λ (x : SaleRow). x.credit_paise) e,
  ap (λ (x : SaleRow). x.customer_id) e,
  ap (λ (x : SaleRow). x.status) e,
)
sold_row_amounts false ctx bill input s e = (
  ap (λ (x : SaleRow). x.total_paise) e,
  ap (λ (x : SaleRow). x.paid_paise) e,
  ap (λ (x : SaleRow). x.credit_paise) e,
  ap (λ (x : SaleRow). x.customer_id) e,
  ap (λ (x : SaleRow). x.status) e,
)

module _ (locale_compare : ℕ → ℕ → ℤ) where
  -- The rows, the books, the movements and the stock of a bill that was written.
  abbrev pub Written :
      Context
      → Draws
      → Bill
      → CreateSaleInput
      → Till
      → (SaleView × Option CreditWarning) × Till
      → Type 0
  Written ctx draws bill input t done =
      (rows : List SaleItemRow) × (books : Books) × (movements : List MovementResult)
      × (store : Store) × (item_rows draws bill.id 0 input.items t ≡ ok rows)
      × (append_for ctx draws.entry_id draws.now bill.credit (charge bill) input.customer_id t.books
          ≡ ok books)
      × (apply_stock_movements locale_compare ctx draws.movement_id draws.clock
            (map (taken bill) input.items) t.store
          ≡ ok (movements, store))
      × (done.1 ≡ issued ctx draws bill input rows books movements store t)
      × (view_sale bill.id done.1 ≡ ok done.0.0)

  pub issue-Written :
      (ctx : Context) (draws : Draws) (bill : Bill) (input : CreateSaleInput) (t : Till)
      {done : (SaleView × Option CreditWarning) × Till}
      → issue locale_compare ctx draws bill input t ≡ ok done
      → Written ctx draws bill input t done
  unfolding issue
  issue-Written ctx draws bill input t {done} e =
      let (rows, rows_ok, e1) = >>=-eq-ok _ _ e in
      let (books, charged, e2) = >>=-eq-ok _ _ e1 in
      let ((movements, store), moved, e3) = >>=-eq-ok _ _ e2 in
      let (view, shown_ok, e4) = >>=-eq-ok _ _ e3 in
      subst (λ w. Written ctx draws bill input t w) (ok-injective e4)
        (
          rows,
          books,
          movements,
          store,
          rows_ok,
          charged,
          map_err-ok in_stock _ moved,
          refl,
          shown_ok,
        )
