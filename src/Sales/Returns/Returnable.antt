-- ===== src/Sales/Returns/Returnable.antt =====
-- How much of a bill can come back, apps/api/src/modules/sales/returns.service.ts.
use dukaano.Base.{[], ap, inl, inr, none, ok, or_else, refl, some, sym, ℕ, ◌∙◌, ◌≡◌, ◌⊎◌}
use dukaano.Base.Int.{int_laws, pos, ℤ, ◌+ℤ◌, ◌-ℤ◌, ◌≤ℤ◌}
use dukaano.Base.Sort.{total_by}
use dukaano.Khata.{Context}
use dukaano.Sales.{Draws, SaleItemRow, SaleRow, Till, find_sale, items_of}
use dukaano.Sales.Returns.{
  CreateReturnInput, ReturnView, find_item, find_return, return_items_of, returned_qty,
}
use dukaano.Sales.Returns.Counted.{returned_qty-return}
use dukaano.Sales.Returns.Give.{create_return, resolve_lines}
use dukaano.Sales.Returns.Resolved.{AreDistinct, back_of, within_left}
use dukaano.Sales.Returns.Returned.{create_return-open, return_of_sale-Given}
use dukaano.Sales.Returns.Rows.{return_row}
use dukaano.Sales.Returns.Written.{write_return-Written}
use mathlib.Core.Path.{subst}

-- Of no line of the bill has more come back than was sold.
abbrev pub IsReturnable : SaleRow → Till → Type 0
IsReturnable s t =
    (item : ℕ) (i : SaleItemRow)
    → find_item item (items_of s.id t.items) ≡ some i
    → returned_qty s.id item t.returns t.return_items ≤ℤ i.qty_milli

within_sold :
    (before taken sold : ℤ)
    → before ≤ℤ sold
    → (taken ≡ pos 0) ⊎ (taken ≤ℤ sold -ℤ before)
    → before +ℤ taken ≤ℤ sold
within_sold before taken sold already (inl nothing) = rw nothing (omega int_laws)
within_sold before taken sold already (inr left) = omega int_laws

module _ (net_value : ℤ → ℤ → ℤ → ℤ) (business_date_for : ℤ → ℤ) (locale_compare : ℕ → ℕ → ℤ) where
  -- However many returns there have been, no more of a line comes back than was sold of it: a return that
  -- names each line once keeps it so. (The identifier is new, and no line of a return stands under it.)
  pub create_return-IsReturnable :
      (ctx : Context) (draws : Draws) (sale_id : ℕ) (input : CreateReturnInput) (t : Till)
      (s : SaleRow) {done : ReturnView × Till}
      → find_return (or_else input.id draws.document_id) t.returns ≡ none
      → return_items_of (or_else input.id draws.document_id) t.return_items ≡ []
      → find_sale sale_id t.sales ≡ some s
      → AreDistinct input.items
      → IsReturnable s t
      → create_return net_value business_date_for locale_compare ctx draws sale_id input t ≡ ok done
      → IsReturnable s done.1
  unfolding resolve_lines
  create_return-IsReturnable ctx draws sale_id input t s {done} absent no_lines found d h e item i
        at_i =
      let id = or_else input.id draws.document_id in
      let (_, run) =
        create_return-open net_value business_date_for locale_compare ctx draws sale_id input t s
          absent found e in
      let (refund, same, lines_ok, _, written) =
        return_of_sale-Given net_value business_date_for locale_compare ctx draws id s input t
          run in
      let (_, store, books, _, _, _, after_is, _) =
        write_return-Written net_value business_date_for locale_compare ctx draws s input refund t
          written in
      let before = λ (item : ℕ). returned_qty s.id item t.returns t.return_items in
      let at_i' : find_item item (items_of s.id t.items) ≡ some i =
        ap (λ (w : Till). find_item item (items_of s.id w.items)) (sym after_is) ∙ at_i in
      let taken = total_by (back_of item) refund.lines in
      let sum : returned_qty s.id item done.1.returns done.1.return_items ≡ before item +ℤ taken =
        ap (λ (w : Till). returned_qty s.id item w.returns w.return_items) after_is
        ∙ returned_qty-return draws s.id item (return_row ctx s input refund) t.returns
            t.return_items refund.lines refl (ap (λ i. find_return i t.returns) same ∙ absent)
            (ap (λ i. return_items_of i t.return_items) same ∙ no_lines) in
      let left =
        within_left net_value (items_of s.id t.items) before item i input.items d at_i' lines_ok in
      let already = h item i at_i' in
      subst (λ x. x ≤ℤ i.qty_milli) (sym sum)
        (within_sold (before item) taken i.qty_milli already left)
