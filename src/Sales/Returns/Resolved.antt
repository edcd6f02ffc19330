-- ===== src/Sales/Returns/Resolved.antt =====
-- The lines that `resolveLines` of apps/api/src/modules/sales/returns.service.ts takes of each item.
use dukaano.Base.{
  ==_iff, All, Bool, Bool-cases, List, Option-cases, Result, [], ap, arith, false, if◌then◌else◌,
  inl, inr, map_result, map_result-cons, ok, ok-injective, or_else, refl, replicate, some, suc, sym,
  throw_if-ok, zero, ℕ, ◌==◌, ◌↔◌, ◌∙◌, ◌∷◌, ◌≡◌, ◌≢◌, ◌⊎◌,
}
use dukaano.Base.Int.{int_laws, ltb_ℤ, ltb_ℤ-ge, pos, ℤ, ◌+ℤ◌, ◌-ℤ◌, ◌≤ℤ◌}
use dukaano.Base.Sort.{total_by}
use dukaano.Base.Table.{find_row_key}
use dukaano.Sales.{SaleFault, SaleItemRow, return_exceeds_sold}
use dukaano.Sales.Returns.{CreateReturnInput, ResolvedLine, ReturnLineInput, find_item}
use dukaano.Sales.Returns.Give.{resolve_found, resolve_line, resolve_lines, resolved_line}
use mathlib.Core.Path.{ap₂, subst}

-- The lines of a request are of different items.
abbrev pub AreDistinct : List ReturnLineInput → Type 0
AreDistinct [] = Unit
AreDistinct (r ∷ requests) =
    All (λ (q : ReturnLineInput). q.sale_item_id ≢ r.sale_item_id) requests × AreDistinct requests

abbrev pub back_of : ℕ → ResolvedLine → ℤ
back_of item l = if l.sale_item_id == item then l.qty_milli else pos 0

find_item_id :
    (id : ℕ) (items : List SaleItemRow) {i : SaleItemRow} → find_item id items ≡ some i → i.id ≡ id
unfolding find_item
find_item_id = find_row_key SaleItemRow.id

ne-== : (a b : ℕ) → a ≢ b → (a == b) ≡ false
ne-== a b h = ground arith

module _ (net_value : ℤ → ℤ → ℤ → ℤ) (items : List SaleItemRow) (returned : ℕ → ℤ) where
  -- A line that was resolved is of the item that was asked for, of which enough is left.
  resolve_line-ok :
      (r : ReturnLineInput) {l : ResolvedLine}
      → resolve_line net_value items returned r ≡ ok l
      → (i : SaleItemRow) × (find_item r.sale_item_id items ≡ some i)
        × (l ≡ resolved_line net_value r i)
        × (r.qty_milli ≤ℤ i.qty_milli -ℤ returned r.sale_item_id)
  unfolding resolve_line
  resolve_line-ok r {l} e = elim (Option-cases (find_item r.sale_item_id items)) [
    | inl absent ↦ cc (rw absent at e)
    | inr (i, found) ↦
        let left = i.qty_milli -ℤ returned i.id in
        let last : Result SaleFault ResolvedLine = ok (resolved_line net_value r i) in
        let e0 = sym (ap (resolve_found net_value returned r) found) ∙ e in
        let (enough, e1) =
          throw_if-ok (ltb_ℤ left r.qty_milli) (return_exceeds_sold left r.qty_milli) last e0 in
        (
          i,
          found,
          sym (ok-injective e1),
          subst (λ x. r.qty_milli ≤ℤ i.qty_milli -ℤ returned x)
              (find_item_id r.sale_item_id items found) (ltb_ℤ-ge left r.qty_milli enough),
        )
  ]

  resolve_line_found :
      (r : ReturnLineInput) (i : SaleItemRow)
      → find_item r.sale_item_id items ≡ some i
      → r.qty_milli ≤ℤ i.qty_milli -ℤ returned r.sale_item_id
      → resolve_line net_value items returned r ≡ ok (resolved_line net_value r i)
  unfolding resolve_line
  resolve_line_found r i found enough =
      let own = find_item_id r.sale_item_id items found in
      let enough' : r.qty_milli ≤ℤ i.qty_milli -ℤ returned i.id =
        subst (λ x. r.qty_milli ≤ℤ i.qty_milli -ℤ returned x) (sym own) enough in
      let passes : ltb_ℤ (i.qty_milli -ℤ returned i.id) r.qty_milli ≡ false =
        ground (arith, enough') in
      rw (found, passes) refl

  taken_of_line :
      (item : ℕ) (r : ReturnLineInput) {l : ResolvedLine} {i : SaleItemRow}
      → find_item r.sale_item_id items ≡ some i
      → l ≡ resolved_line net_value r i
      → back_of item l ≡ (if r.sale_item_id == item then r.qty_milli else pos 0)
  taken_of_line item r found l_is =
      ap (back_of item) l_is
      ∙ ap (λ x. if x == item then r.qty_milli else pos 0) (find_item_id r.sale_item_id items found)

  -- The first line that was resolved, and what the lines take of an item with it.
  lines-cons :
      (item : ℕ) (r : ReturnLineInput) (rs : List ReturnLineInput) {lines : List ResolvedLine}
      → map_result (resolve_line net_value items returned) (r ∷ rs) ≡ ok lines
      → (rest : List ResolvedLine) × (map_result (resolve_line net_value items returned) rs
          ≡ ok rest)
        × (i : SaleItemRow) × (find_item r.sale_item_id items ≡ some i)
        × (r.qty_milli ≤ℤ i.qty_milli -ℤ returned r.sale_item_id)
        × (total_by (back_of item) lines
            ≡ (if r.sale_item_id == item then r.qty_milli else pos 0)
              +ℤ total_by (back_of item) rest)
  lines-cons item r rs e =
      let (l, rest, l_ok, rest_ok, same) =
        map_result-cons (resolve_line net_value items returned) r rs e in
      let (i, found, l_is, enough) = resolve_line-ok r l_ok in
      (
        rest,
        rest_ok,
        i,
        found,
        enough,
        ap (total_by (back_of item)) (sym same)
            ∙ ap (λ x. x +ℤ total_by (back_of item) rest) (taken_of_line item r found l_is),
      )

  nothing_of :
      (item : ℕ) (rs : List ReturnLineInput) {lines : List ResolvedLine}
      → All (λ (q : ReturnLineInput). q.sale_item_id ≢ item) rs
      → map_result (resolve_line net_value items returned) rs ≡ ok lines
      → total_by (back_of item) lines ≡ pos 0
  nothing_of item [] h e = rw (sym (ok-injective e)) refl
  nothing_of item (r ∷ rs) {lines} h e =
      let (rest, rest_ok, _, _, _, total) = lines-cons item r rs e in
      total
      ∙ ap₂ (λ (x : Bool) b. (if x then r.qty_milli else pos 0) +ℤ b)
          (ne-== r.sale_item_id item h.0) (nothing_of item rs h.1 rest_ok)
      ∙ omega int_laws

  -- Of each item a request of different items takes what is left of it at most.
  pub within_left :
      (item : ℕ) (i : SaleItemRow) (rs : List ReturnLineInput) {lines : List ResolvedLine}
      → AreDistinct rs
      → find_item item items ≡ some i
      → map_result (resolve_line net_value items returned) rs ≡ ok lines
      → (total_by (back_of item) lines ≡ pos 0)
        ⊎ (total_by (back_of item) lines ≤ℤ i.qty_milli -ℤ returned item)
  within_left item i [] d found e = inl (rw (sym (ok-injective e)) refl)
  within_left item i (r ∷ rs) {lines} d found e =
      let (rest, rest_ok, j, at_j, enough, total) = lines-cons item r rs e in
      elim (Bool-cases (r.sale_item_id == item)) [
        | inl e1 ↦
            let named : r.sale_item_id ≡ item = (==_iff r.sale_item_id item).0 e1 in
            let others =
              nothing_of item rs
                (subst (λ x. All (λ (q : ReturnLineInput). q.sale_item_id ≢ x) rs) named d.0)
                rest_ok in
            let only : total_by (back_of item) lines ≡ r.qty_milli =
              total
              ∙ ap₂ (λ (x : Bool) b. (if x then r.qty_milli else pos 0) +ℤ b) e1 others
              ∙ omega int_laws in
            let same_item : j ≡ i =
              ap (λ o. or_else o j) (sym at_j ∙ ap (λ x. find_item x items) named ∙ found) in
            let left = ap₂ (λ (x : SaleItemRow) k. x.qty_milli -ℤ returned k) same_item named in
            inr (
              subst (λ x. x ≤ℤ i.qty_milli -ℤ returned item) (sym only)
                (subst (λ x. r.qty_milli ≤ℤ x) left enough))
        | inr e1 ↦
            let rest_is : total_by (back_of item) lines ≡ total_by (back_of item) rest =
              total
              ∙ ap
                  (λ (x : Bool). (if x then r.qty_milli else pos 0) +ℤ total_by (back_of item) rest)
                  e1
              ∙ omega int_laws in
            rw rest_is (within_left item i rs d.1 found rest_ok)
      ]

  -- A line passes exactly when no more is asked of it than is left of its item.
  resolve_line_iff :
      (r : ReturnLineInput) (i : SaleItemRow)
      → find_item r.sale_item_id items ≡ some i
      → (resolve_line net_value items returned r ≡ ok (resolved_line net_value r i))
        ↔ (r.qty_milli ≤ℤ i.qty_milli -ℤ returned r.sale_item_id)
  resolve_line_iff r i found = (
    (λ e.
        let (j, at_j, _, enough) = resolve_line-ok r e in
        let same : j ≡ i = ap (λ o. or_else o j) (sym at_j ∙ found) in
        subst (λ (x : SaleItemRow). r.qty_milli ≤ℤ x.qty_milli -ℤ returned r.sale_item_id) same
          enough),
    resolve_line_found r i found,
  )

  -- Naming the same line once or more in one request passes exactly when no more is asked each time than
  -- is left of the item before the request: each naming is held against that, and not against the
  -- others. (A request names 200 lines at most.)
  pub resolve_lines_repeated :
      (r : ReturnLineInput) (i : SaleItemRow) (input : CreateReturnInput) (n : ℕ)
      → find_item r.sale_item_id items ≡ some i
      → (resolve_lines net_value items returned (record input { items = replicate (suc n) r })
          ≡ ok (replicate (suc n) (resolved_line net_value r i)))
        ↔ (r.qty_milli ≤ℤ i.qty_milli -ℤ returned r.sale_item_id)
  unfolding resolve_lines
  resolve_lines_repeated r i input n found = (
    (λ e.
        let (l, rest, l_ok, _, same) =
          map_result-cons (resolve_line net_value items returned) r (replicate n r) e in
        let first : l ≡ resolved_line net_value r i = cc same in
        (resolve_line_iff r i found).0 (l_ok ∙ ap ok first)),
    (λ enough. repeated ((resolve_line_iff r i found).1 enough) (suc n)),
  )
    where
      repeated :
          resolve_line net_value items returned r ≡ ok (resolved_line net_value r i)
          → (n : ℕ)
          → map_result (resolve_line net_value items returned) (replicate n r)
            ≡ ok (replicate n (resolved_line net_value r i))
      repeated one zero = refl
      repeated one (suc n) = rw (one, repeated one n) refl
