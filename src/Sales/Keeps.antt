-- ===== src/Sales/Keeps.antt =====
-- What the rows of apps/api/src/modules/sales add up to.
use dukaano.Base.{
  ==_iff, >>=-eq-ok, Bool, Bool-cases, List, Option-cases, [], ap, arith, false, if◌then◌else◌, inl,
  inr, none, not, ok, ok-injective, refl, some, sym, true, ℕ, ◌&&◌, ◌++◌, ◌+◌, ◌==◌, ◌∙◌, ◌∷◌, ◌≡◌,
}
use dukaano.Base.Int.{int_laws, neg, neg-+ℤ, pos, ℤ, ◌+ℤ◌}
use dukaano.Base.Sort.{total_by, total_by-append}
use dukaano.Base.Table.{find_row-changed, find_row-missing, find_row_key}
use dukaano.Khata.{Context}
use dukaano.Khata.Payments.{Payment}
use dukaano.Khata.Payments.Reverse.{is_incoming}
use dukaano.Sales.{
  CatalogueProduct, Draws, SaleItemRow, SaleRow, SaleView, Till, find_sale, is_for, items_of,
  update_sale, view_sale,
}
use dukaano.Sales.Cancel.{is_refundable}
use dukaano.Sales.Create.{
  CreateSaleInput, SaleItemInput, SalePaymentInput, find_catalogue, found_catalogue, item_row,
  item_rows, paid_of,
}
use dukaano.Sales.Rows.{Bill, tender_rows}
use dukaano.Stock.{find_stock}
use mathlib.Core.Path.{ap₂}

pub find_sale-append :
    (id : ℕ) (row : SaleRow) (sales : List SaleRow)
    → row.id ≡ id
    → find_sale id sales ≡ none
    → find_sale id (sales ++ row ∷ []) ≡ some row
unfolding find_sale
find_sale-append id row sales own h =
    find_row-missing SaleRow.id (λ s. s) id sales (row ∷ []) h
    ∙ rw (own, (==_iff id id).1 refl) refl

pub find_sale-update_sale :
    (id : ℕ) (change : SaleRow → SaleRow) (sales : List SaleRow) {s : SaleRow}
    → ((s : SaleRow) → (change s).id ≡ s.id)
    → find_sale id sales ≡ some s
    → find_sale id (update_sale id change sales) ≡ some (change s)
unfolding find_sale update_sale
find_sale-update_sale id change sales keeps = find_row-changed SaleRow.id id change sales keeps

pub find_sale_id :
    (id : ℕ) (sales : List SaleRow) {s : SaleRow} → find_sale id sales ≡ some s → s.id ≡ id
unfolding find_sale
find_sale_id = find_row_key SaleRow.id

pub view_sale-find_sale :
    (id : ℕ) (t : Till) {view : SaleView}
    → view_sale id t ≡ ok view
    → find_sale id t.sales ≡ some view.sale
unfolding view_sale
view_sale-find_sale id t {view} e = elim (Option-cases (find_sale id t.sales)) [
  | inl absent ↦ cc (rw absent at e)
  | inr (s, found) ↦ found ∙ ap (λ (v : SaleView). some v.sale) (ok-injective (rw found at e))
]

-- The money that came in, and that went out, for a sale.
abbrev pub in_amount : ℕ → Payment → ℤ
in_amount id p = if is_for id p.sale_id && is_incoming p.direction then p.amount_paise else pos 0

abbrev pub out_amount : ℕ → Payment → ℤ
out_amount id p =
    if is_for id p.sale_id && not (is_incoming p.direction) then p.amount_paise else pos 0

pub tender_rows_sum :
    (ctx : Context) (draws : Draws) (k : ℕ) (bill : Bill) (input : CreateSaleInput)
    (ps : List SalePaymentInput)
    → total_by (in_amount bill.id) (tender_rows ctx draws k bill input ps) ≡ paid_of ps
unfolding tender_rows
tender_rows_sum ctx draws k bill input [] = refl
tender_rows_sum ctx draws k bill input (p ∷ ps) =
    let own : (bill.id == bill.id) ≡ true = ground arith in
    rw own (ap (λ t. p.amount_paise +ℤ t) (tender_rows_sum ctx draws (k + 1) bill input ps))

-- What can be refunded of it, and what its lines put back into the stock.
abbrev pub put_back_by : ℕ → SaleItemRow → ℤ
put_back_by c i = if i.product_id == c then i.qty_milli else pos 0

abbrev pub refundable_amount : ℕ → Payment → ℤ
refundable_amount id p = if is_refundable id p then p.amount_paise else pos 0

pub tender_rows_refundable :
    (ctx : Context) (draws : Draws) (k : ℕ) (bill : Bill) (input : CreateSaleInput)
    (ps : List SalePaymentInput)
    → total_by (refundable_amount bill.id) (tender_rows ctx draws k bill input ps) ≡ paid_of ps
unfolding tender_rows
tender_rows_refundable ctx draws k bill input [] = refl
tender_rows_refundable ctx draws k bill input (p ∷ ps) =
    let own : (bill.id == bill.id) ≡ true = ground arith in
    rw own (ap (λ t. p.amount_paise +ℤ t) (tender_rows_refundable ctx draws (k + 1) bill input ps))

pub tender_rows_no_refund :
    (ctx : Context) (draws : Draws) (k : ℕ) (bill : Bill) (input : CreateSaleInput)
    (ps : List SalePaymentInput)
    → total_by (out_amount bill.id) (tender_rows ctx draws k bill input ps) ≡ pos 0
unfolding tender_rows
tender_rows_no_refund ctx draws k bill input [] = refl
tender_rows_no_refund ctx draws k bill input (p ∷ ps) =
    let own : (bill.id == bill.id) ≡ true = ground arith in
    rw (own, tender_rows_no_refund ctx draws (k + 1) bill input ps) (omega int_laws)

items_of-append :
    (id : ℕ) (xs ys : List SaleItemRow) → items_of id (xs ++ ys) ≡ items_of id xs ++ items_of id ys
unfolding items_of
items_of-append id [] ys = refl
items_of-append id (x ∷ xs) ys = elim (Bool-cases (x.sale_id == id)) [
  | inl e ↦ rw e (ap (λ r. x ∷ r) (items_of-append id xs ys))
  | inr e ↦ rw e (items_of-append id xs ys)
]

abbrev pub sold_by : ℕ → SaleItemInput → ℤ
sold_by c i = if i.product_id == c then neg i.qty_milli else pos 0

neg_sold : (test : Bool) (a : ℤ) → (if test then a else pos 0) ≡ neg (if test then neg a else pos 0)
unfolding neg
neg_sold true a = omega int_laws
neg_sold false a = refl

-- The parts of lines that were resolved and stored.
pub item_rows-cons :
    (draws : Draws) (id k : ℕ) (i : SaleItemInput) (items : List SaleItemInput) (t : Till)
    {rows : List SaleItemRow}
    → item_rows draws id k (i ∷ items) t ≡ ok rows
    → (product : CatalogueProduct) × (rest : List SaleItemRow) × (item_rows draws id (k + 1) items t
        ≡ ok rest)
      × (item_row (draws.item_id k) id k i (find_stock i.product_id t.store.balances) product ∷ rest
          ≡ rows)
unfolding item_rows
item_rows-cons draws id k i items t e =
    let (product, _, e1) =
      >>=-eq-ok (found_catalogue i.product_id (find_catalogue i.product_id t.catalogue)) _ e in
    let (rest, rest_ok, e2) = >>=-eq-ok (item_rows draws id (k + 1) items t) _ e1 in
    (product, rest, rest_ok, ok-injective e2)

-- The stored lines put back what was sold.
item_rows_sum :
    (draws : Draws) (id k c : ℕ) (items : List SaleItemInput) (t : Till) {rows : List SaleItemRow}
    → item_rows draws id k items t ≡ ok rows
    → total_by (put_back_by c) (items_of id rows) ≡ neg (total_by (sold_by c) items)
unfolding item_rows items_of
item_rows_sum draws id k c [] t {rows} e = rw (sym (ok-injective e)) (unfold neg in refl)
item_rows_sum draws id k c (i ∷ items) t {rows} e =
    let (product, rest, rest_ok, rows_are) = item_rows-cons draws id k i items t e in
    let own : (id == id) ≡ true = ground arith in
    let later = item_rows_sum draws id (k + 1) c items t rest_ok in
    rw (sym rows_are, own)
      (ap₂ (λ a b. a +ℤ b) (neg_sold (i.product_id == c) i.qty_milli) later
        ∙ sym (neg-+ℤ (sold_by c i) (total_by (sold_by c) items)))

pub items_sum :
    (draws : Draws) (id c : ℕ) (items : List SaleItemInput) (t : Till) (before : List SaleItemRow)
    {rows : List SaleItemRow}
    → item_rows draws id 0 items t ≡ ok rows
    → total_by (put_back_by c) (items_of id (before ++ rows))
      ≡ total_by (put_back_by c) (items_of id before) +ℤ neg (total_by (sold_by c) items)
items_sum draws id c items t before {rows} e =
    ap (total_by (put_back_by c)) (items_of-append id before rows)
    ∙ total_by-append (put_back_by c) (items_of id before) (items_of id rows)
    ∙ ap (λ x. total_by (put_back_by c) (items_of id before) +ℤ x)
        (item_rows_sum draws id 0 c items t e)
