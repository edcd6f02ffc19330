-- ===== src/Sales/Returns/Written.antt =====
-- The rows that `create` of apps/api/src/modules/sales/returns.service.ts writes, and their sums.
use dukaano.Base.{
  ==_iff, >>=-eq-ok, Bool-cases, List, Option-cases, [], and_true, ap, arith, false, if◌then◌else◌,
  inl, inr, map, map_err-ok, none, not, not-false, ok, ok-injective, refl, some, throw_if-ok, true,
  ℕ, ◌++◌, ◌+◌, ◌==◌, ◌||◌, ◌∙◌, ◌∷◌, ◌≡◌,
}
use dukaano.Base.Int.{eqb_ℤ, eqb_ℤ-eq, int_laws, leb_ℤ, leb_ℤ-le, ltb_ℤ, pos, ℤ, ◌+ℤ◌, ◌-ℤ◌, ◌≤ℤ◌}
use dukaano.Base.Sort.{total_by}
use dukaano.Base.Table.{find_row-missing}
use dukaano.Khata.{Books, Context, is_none}
use dukaano.Sales.{Draws, ReturnItemRow, ReturnRow, SaleRow, Till, in_stock}
use dukaano.Sales.Keeps.{out_amount}
use dukaano.Sales.Returns.{
  CreateReturnInput, ResolvedLine, ReturnView, find_return, goods_back, total_lines, view_return,
}
use dukaano.Sales.Returns.Give.{write_return}
use dukaano.Sales.Returns.Rows.{
  Refund, cash_rows, lines_pass, passes_checks, return_item_rows, returned_tables, uncharge,
}
use dukaano.Sales.Rows.{append_for}
use dukaano.Stock.{MovementResult, Store}
use dukaano.Stock.Batch.{apply_stock_movements}
use dukaano.Stock.Moved.{moved_by}
use mathlib.Core.Path.{subst}

pub find_return-append :
    (id : ℕ) (row : ReturnRow) (returns : List ReturnRow)
    → row.id ≡ id
    → find_return id returns ≡ none
    → find_return id (returns ++ row ∷ []) ≡ some row
unfolding find_return
find_return-append id row returns own h =
    find_row-missing ReturnRow.id (λ r. r) id returns (row ∷ []) h
    ∙ rw (own, (==_iff id id).1 refl) refl

pub view_return-find_return :
    (id : ℕ) (t : Till) {view : ReturnView}
    → view_return id t ≡ ok view
    → find_return id t.returns ≡ some view.sale_return
unfolding view_return
view_return-find_return id t {view} e = elim (Option-cases (find_return id t.returns)) [
  | inl absent ↦ cc (rw absent at e)
  | inr (r, found) ↦
      found ∙ ap (λ (v : ReturnView). some v.sale_return) (ok-injective (rw found at e))
]

abbrev pub back_by : ℕ → ReturnItemRow → ℤ
back_by c i = if i.product_id == c then i.qty_milli else pos 0

abbrev pub value_of : ReturnItemRow → ℤ
value_of i = i.line_total_paise

pub return_item_rows_sums :
    (draws : Draws) (k id c : ℕ) (occurred_at : ℤ) (lines : List ResolvedLine)
    → (total_by value_of (return_item_rows draws k id lines) ≡ total_lines lines)
      × (total_by (moved_by c) (map (goods_back id occurred_at) lines)
          ≡ total_by (back_by c) (return_item_rows draws k id lines))
unfolding return_item_rows
return_item_rows_sums draws k id c occurred_at [] = (refl, refl)
return_item_rows_sums draws k id c occurred_at (l ∷ lines) =
    let (values, goods) = return_item_rows_sums draws (k + 1) id c occurred_at lines in
    (
      ap (λ x. l.line_total_paise +ℤ x) values,
      ap (λ x. (if l.product_id == c then l.qty_milli else pos 0) +ℤ x) goods,
    )

pub cash_rows_out :
    (ctx : Context) (draws : Draws) (s : SaleRow) (input : CreateReturnInput) (refund : Refund)
    (t : Till)
    → pos 0 ≤ℤ refund.cash
    → total_by (out_amount s.id) (cash_rows ctx draws s input refund t) ≡ refund.cash
cash_rows_out ctx draws s input refund t nonneg =
    let own : (s.id == s.id) ≡ true = ground arith in
    elim (Bool-cases (ltb_ℤ (pos 0) refund.cash)) [
      | inl some_cash ↦ rw (some_cash, own) (omega int_laws)
      | inr no_cash ↦ rw no_cash (ground (arith, no_cash, nonneg))
    ]

pub checks_split :
    (s : SaleRow) (refund : Refund)
    → not (passes_checks s refund) ≡ false
    → (total_lines refund.lines ≡ refund.cash +ℤ refund.credit)
      × (pos 0 ≤ℤ refund.cash)
      × (pos 0 ≤ℤ refund.credit)
      × (lines_pass refund.lines ≡ true)
checks_split s refund h =
    let sum = total_lines refund.lines in
    let (h1, pass) = and_true _ (lines_pass refund.lines) (not-false (passes_checks s refund) h) in
    let (h2, _) = and_true _ (eqb_ℤ refund.credit (pos 0) || not (is_none s.customer_id)) h1 in
    let (h3, on_credit) = and_true _ (leb_ℤ (pos 0) refund.credit) h2 in
    let (h4, cash) = and_true _ (leb_ℤ (pos 0) refund.cash) h3 in
    let (identity, _) = and_true _ (leb_ℤ (pos 0) sum) h4 in
    (
      eqb_ℤ-eq sum (refund.cash +ℤ refund.credit) identity,
      leb_ℤ-le (pos 0) refund.cash cash,
      leb_ℤ-le (pos 0) refund.credit on_credit,
      pass,
    )

pub left_on_credit :
    (total least cash on_credit : ℤ)
    → total ≡ cash +ℤ on_credit
    → cash ≤ℤ total -ℤ least
    → least ≤ℤ on_credit
left_on_credit total least cash on_credit e h =
    let bound : cash ≤ℤ (cash +ℤ on_credit) -ℤ least = subst (λ x. cash ≤ℤ x -ℤ least) e h in
    omega int_laws

module _ (net_value : ℤ → ℤ → ℤ → ℤ) (business_date_for : ℤ → ℤ) (locale_compare : ℕ → ℕ → ℤ) where
  -- The movements, the stock and the books of a return that was written.
  abbrev pub Written :
      Context → Draws → SaleRow → CreateReturnInput → Refund → Till → ReturnView × Till → Type 0
  Written ctx draws s input refund t done =
      (movements : List MovementResult) × (store : Store) × (books : Books) × (not
          (passes_checks s refund)
        ≡ false)
      × (apply_stock_movements locale_compare ctx draws.movement_id draws.clock
            (map (goods_back refund.id refund.occurred_at) refund.lines) t.store
          ≡ ok (movements, store))
      × (append_for ctx draws.entry_id draws.now refund.credit (uncharge input refund) s.customer_id
            t.books
          ≡ ok books)
      × (done.1 ≡ returned_tables ctx draws s input refund books store t)
      × (view_return refund.id done.1 ≡ ok done.0)

  pub write_return-Written :
      (ctx : Context) (draws : Draws) (s : SaleRow) (input : CreateReturnInput) (refund : Refund)
      (t : Till) {done : ReturnView × Till}
      → write_return net_value business_date_for locale_compare ctx draws s input refund t ≡ ok done
      → Written ctx draws s input refund t done
  unfolding write_return
  write_return-Written ctx draws s input refund t {done} e =
      let (passed, e1) = throw_if-ok (not (passes_checks s refund)) _ _ e in
      let ((movements, store), moved, e2) = >>=-eq-ok _ _ e1 in
      let (books, charged, e3) = >>=-eq-ok _ _ e2 in
      let (view, shown_ok, e4) = >>=-eq-ok _ _ e3 in
      subst (Written ctx draws s input refund t) (ok-injective e4)
        (movements, store, books, passed, map_err-ok in_stock _ moved, charged, refl, shown_ok)
