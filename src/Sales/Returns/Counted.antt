-- ===== src/Sales/Returns/Counted.antt =====
-- What has come back of an item as a return is added, apps/api/src/modules/sales/returns.service.ts.
use dukaano.Base.{
  ==_iff, Bool-cases, List, [], ap, arith, false, inl, inr, none, refl, true, ℕ, ◌&&◌, ◌++◌, ◌+◌,
  ◌==◌, ◌∙◌, ◌∷◌, ◌≡◌,
}
use dukaano.Base.Int.{int_laws, ◌+ℤ◌}
use dukaano.Base.Sort.{total_by}
use dukaano.Base.Table.{find_row-append_other}
use dukaano.Sales.{Draws, ReturnItemRow, ReturnRow}
use dukaano.Sales.Returns.{ResolvedLine, find_return, is_of_sale, return_items_of, returned_qty}
use dukaano.Sales.Returns.Resolved.{back_of}
use dukaano.Sales.Returns.Rows.{return_item_rows}
use dukaano.Sales.Returns.Written.{find_return-append}
use mathlib.Core.Path.{ap₂}

find_return-append_other :
    (id : ℕ) (row : ReturnRow) (returns : List ReturnRow)
    → (row.id == id) ≡ false
    → find_return id (returns ++ row ∷ []) ≡ find_return id returns
unfolding find_return
find_return-append_other id row returns h =
    find_row-append_other ReturnRow.id (λ r. r) id row returns h

-- The items that came back before are counted as before when a return of its own is added.
pub returned_qty-row :
    (sale_id item : ℕ) (row : ReturnRow) (returns : List ReturnRow) (items : List ReturnItemRow)
    → return_items_of row.id items ≡ []
    → returned_qty sale_id item (returns ++ row ∷ []) items
      ≡ returned_qty sale_id item returns items
unfolding returned_qty return_items_of
returned_qty-row sale_id item row returns [] h = refl
returned_qty-row sale_id item row returns (i ∷ items) h =
    elim (Bool-cases (i.return_id == row.id)) [
      | inl same ↦ absurd (ground (arith, same, h))
      | inr other ↦
          let differs : (row.id == i.return_id) ≡ false = ground (arith, other) in
          let later = returned_qty-row sale_id item row returns items (rw other at h) in
          rw (find_return-append_other i.return_id row returns differs, later) refl
    ]

pub returned_qty-append :
    (sale_id item : ℕ) (returns : List ReturnRow) (xs ys : List ReturnItemRow)
    → returned_qty sale_id item returns (xs ++ ys)
      ≡ returned_qty sale_id item returns xs +ℤ returned_qty sale_id item returns ys
unfolding returned_qty
returned_qty-append sale_id item returns [] ys = omega int_laws
returned_qty-append sale_id item returns (x ∷ xs) ys =
    let later = returned_qty-append sale_id item returns xs ys in
    elim (Bool-cases
      (x.sale_item_id == item && is_of_sale sale_id (find_return x.return_id returns))) [
        | inl e ↦ rw (e, later) (omega int_laws)
        | inr e ↦ rw e later
      ]

pub returned_qty-rows :
    (draws : Draws) (k id sale_id item : ℕ) (returns : List ReturnRow) (lines : List ResolvedLine)
    → is_of_sale sale_id (find_return id returns) ≡ true
    → returned_qty sale_id item returns (return_item_rows draws k id lines)
      ≡ total_by (back_of item) lines
unfolding returned_qty return_item_rows
returned_qty-rows draws k id sale_id item returns [] h = refl
returned_qty-rows draws k id sale_id item returns (l ∷ lines) h =
    let later = returned_qty-rows draws (k + 1) id sale_id item returns lines h in
    elim (Bool-cases (l.sale_item_id == item)) [
      | inl e ↦ rw (e, h, later) refl
      | inr e ↦ rw (e, later) (omega int_laws)
    ]

-- The return that is added counts with what its lines take.
pub returned_qty-return :
    (draws : Draws) (sale_id item : ℕ) (row : ReturnRow) (returns : List ReturnRow)
    (items : List ReturnItemRow) (lines : List ResolvedLine)
    → row.sale_id ≡ sale_id
    → find_return row.id returns ≡ none
    → return_items_of row.id items ≡ []
    → returned_qty sale_id item
        (returns ++ row ∷ [])
        (items ++ return_item_rows draws 0 row.id lines)
      ≡ returned_qty sale_id item returns items +ℤ total_by (back_of item) lines
returned_qty-return draws sale_id item row returns items lines own absent no_lines =
    let new_row : is_of_sale sale_id (find_return row.id (returns ++ row ∷ [])) ≡ true =
      ap (is_of_sale sale_id) (find_return-append row.id row returns refl absent)
      ∙ (==_iff row.sale_id sale_id).1 own in
    returned_qty-append sale_id item (returns ++ row ∷ []) items
      (return_item_rows draws 0 row.id lines)
    ∙ ap₂ (λ a b. a +ℤ b) (returned_qty-row sale_id item row returns items no_lines)
        (returned_qty-rows draws 0 row.id sale_id item (returns ++ row ∷ []) lines new_row)
