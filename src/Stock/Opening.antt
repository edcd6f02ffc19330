-- ===== src/Stock/Opening.antt =====
-- apps/api/src/modules/inventory/inventory.service.ts, applyOpeningStockBatch: the opening stock of
-- products that the same transaction made. The identifiers that it draws are a function of the position.
use dukaano.Base.{
  >>=-eq-ok, Bool-cases, List, Option, Result, [], ap, arith, err, false, if◌then◌else◌, inl, inr,
  length, none, ok, ok-injective, or_else, refl, some, sym, throw_if, throw_if-ok, ℕ, ◌++◌, ◌+◌,
  ◌==◌, ◌>>=◌, ◌>>◌, ◌∙◌, ◌∷◌, ◌≡◌,
}
use dukaano.Base.Int.{int_laws, ltb_ℤ, pos, ℤ, ◌+ℤ◌}
use dukaano.Inventory.{CostingState}
use dukaano.Khata.{Context, is_none}
use dukaano.Stock.{
  InventoryBalance, StockChange, Store, Transaction, find_stock, inventory_balance,
  inventory_transaction, opening_stock,
}
use dukaano.Stock.Moved.{IsStocked}
use dukaano.Stock.Rows.{held_of, sum_movements, sum_movements-append}
use mathlib.Core.List.{append-nil}
use mathlib.Core.Path.{subst}

pub record OpeningEntry : Type 0 where
  pub product_id : ℕ
  pub qty_milli : ℤ
  pub unit_cost_paise : Option ℤ

pub data OpeningFault : Type 0 where
  without_tenant : OpeningFault
  balance_exists : ℕ → OpeningFault

-- The entries with a quantity above zero.
unfoldable pub positive_entries : List OpeningEntry → List OpeningEntry
positive_entries [] = []
positive_entries (e ∷ entries) =
    let rest = positive_entries entries in if ltb_ℤ (pos 0) e.qty_milli then e ∷ rest else rest

abbrev pub opening_row : Context → ℕ → ℤ → OpeningEntry → Transaction
opening_row context id now e = record {
  id = id;
  product_id = e.product_id;
  transaction_type = opening_stock;
  qty_delta_milli = e.qty_milli;
  balance_after_milli = e.qty_milli;
  unit_cost_paise = e.unit_cost_paise;
  reason = none;
  note = none;
  ref_type = none;
  ref_id = none;
  actor_user_id = context.user_id;
  device_id = context.device_id;
  occurred_at = now;
  op_id = none;
}

-- The rows of the movements, the identifiers drawn from the position on.
unfoldable pub opening_rows : Context → (ℕ → ℕ) → ℤ → ℕ → List OpeningEntry → List Transaction
opening_rows context fresh now position [] = []
opening_rows context fresh now position (e ∷ entries) =
    opening_row context (fresh position) now e
    ∷ opening_rows context fresh now (position + 1) entries

abbrev pub opening_balance : OpeningEntry → InventoryBalance
opening_balance e = record {
  product_id = e.product_id;
  qty_milli = e.qty_milli;
  avg_cost_paise = or_else e.unit_cost_paise (pos 0);
  version = 1;
}

abbrev pub unless_present :
    {A : Type 0} → ℕ → Option CostingState → Result OpeningFault A → Result OpeningFault A
unless_present product (some held) next = err (balance_exists product)
unless_present product none next = next

-- `inventoryBalance.createMany`: the table has one row for a product, so a second one is refused.
unfoldable pub create_balances :
    List OpeningEntry → List InventoryBalance → Result OpeningFault (List InventoryBalance)
unfolding find_stock
create_balances [] balances = ok balances
create_balances (e ∷ entries) balances =
    unless_present e.product_id (find_stock e.product_id balances)
      (create_balances entries (balances ++ opening_balance e ∷ []))

-- Both changes of an entry are logged under the identifier of the product, as the code has it.
unfoldable pub opening_changes : List OpeningEntry → List StockChange
opening_changes [] = []
opening_changes (e ∷ entries) =
    record { entity = inventory_transaction; entity_id = e.product_id; row_version = 1 }
    ∷ record { entity = inventory_balance; entity_id = e.product_id; row_version = 1 }
    ∷ opening_changes entries

unfoldable pub write_opening :
    Context → (ℕ → ℕ) → ℤ → List OpeningEntry → Store → Result OpeningFault (ℕ × Store)
unfolding opening_rows create_balances opening_changes
write_opening context fresh now [] store = ok (0, store)
write_opening context fresh now (e ∷ entries) store = do
  throw_if (is_none context.shop_id) without_tenant
  balances ← create_balances (e ∷ entries) store.balances
  ok (
    length (e ∷ entries),
    record store {
      transactions = store.transactions ++ opening_rows context fresh now 0 (e ∷ entries);
      balances = balances;
      changes = store.changes ++ opening_changes (e ∷ entries);
    },
  )

unfoldable pub apply_opening_stock_batch :
    Context → (ℕ → ℕ) → ℤ → List OpeningEntry → Store → Result OpeningFault (ℕ × Store)
unfolding positive_entries write_opening
apply_opening_stock_batch context fresh now entries store =
    write_opening context fresh now (positive_entries entries) store

find_stock-last :
    (c : ℕ) (b : InventoryBalance) (bs : List InventoryBalance)
    → find_stock b.product_id bs ≡ none
    → (held_of c (bs ++ b ∷ [])).qty_milli
      ≡ (held_of c bs).qty_milli +ℤ (if b.product_id == c then b.qty_milli else pos 0)
unfolding find_stock
find_stock-last c b [] h = elim (Bool-cases (b.product_id == c)) [
  | inl same ↦ rw same (omega int_laws)
  | inr other ↦ rw other (omega int_laws)
]
find_stock-last c b (d ∷ bs) h = elim (Bool-cases (d.product_id == c)) [
  | inl same ↦
      let distinct : (b.product_id == c) ≡ false = ground arith in
      rw (same, distinct) (omega int_laws)
  | inr other ↦
      let later : find_stock b.product_id bs ≡ none = ground arith in
      rw other (find_stock-last c b bs later)
]

unless_present-ok :
    {A : Type 0} (product : ℕ) (found : Option CostingState) (next : Result OpeningFault A) {a : A}
    → unless_present product found next ≡ ok a
    → (found ≡ none) × (next ≡ ok a)
unless_present-ok product (some held) next e = cc
unless_present-ok product none next e = (refl, e)

create_balances_sums :
    (ctx : Context) (fresh : ℕ → ℕ) (now : ℤ) (k c : ℕ) (es : List OpeningEntry)
    (bs : List InventoryBalance) {after : List InventoryBalance}
    → create_balances es bs ≡ ok after
    → (held_of c after).qty_milli
      ≡ (held_of c bs).qty_milli +ℤ sum_movements c (opening_rows ctx fresh now k es)
unfolding create_balances opening_rows sum_movements
create_balances_sums ctx fresh now k c [] bs {after} e =
    ap (λ x. (held_of c x).qty_milli) (sym (ok-injective e)) ∙ omega int_laws
create_balances_sums ctx fresh now k c (x ∷ es) bs {after} e =
    let with_new = bs ++ opening_balance x ∷ [] in
    let (absent, rest) =
      unless_present-ok x.product_id (find_stock x.product_id bs) (create_balances es with_new) e in
    let later = create_balances_sums ctx fresh now (k + 1) c es with_new rest in
    let here = find_stock-last c (opening_balance x) bs absent in
    elim (Bool-cases (x.product_id == c)) [
      | inl same ↦ rw (later, here, same) (omega int_laws)
      | inr other ↦ rw (later, here, other) (omega int_laws)
    ]

write_opening-IsStocked :
    (ctx : Context) (fresh : ℕ → ℕ) (now : ℤ) (es : List OpeningEntry) (store : Store) {n : ℕ}
    {after : Store}
    → IsStocked store
    → write_opening ctx fresh now es store ≡ ok (n, after)
    → IsStocked after
      × (n ≡ length es)
      × (after.transactions ≡ store.transactions ++ opening_rows ctx fresh now 0 es)
unfolding write_opening opening_rows
write_opening-IsStocked ctx fresh now [] store {n} {after} h e =
    subst
      (λ (w : ℕ × Store). IsStocked w.1 × (w.0 ≡ 0) × (w.1.transactions ≡ store.transactions ++ []))
      (ok-injective e) (h, refl, sym (append-nil store.transactions))
write_opening-IsStocked ctx fresh now (x ∷ es) store {n} {after} h e =
    let all = x ∷ es in
    let rows = opening_rows ctx fresh now 0 all in
    let write : List InventoryBalance → Result OpeningFault (ℕ × Store) = λ balances. ok (
      length all,
      record store {
        transactions = store.transactions ++ rows;
        balances = balances;
        changes = store.changes ++ opening_changes all;
      },
    ) in
    let (_, e1) =
      throw_if-ok (is_none ctx.shop_id) without_tenant
        (create_balances all store.balances >>= write) e in
    let (balances, made, e2) = >>=-eq-ok (create_balances all store.balances) write e1 in
    subst
      (λ (w : ℕ × Store).
        IsStocked w.1 × (w.0 ≡ length all) × (w.1.transactions ≡ store.transactions ++ rows))
      (ok-injective e2)
      (
        (λ c.
            create_balances_sums ctx fresh now 0 c all store.balances made
            ∙ ap (λ q. q +ℤ sum_movements c rows) (h c)
            ∙ sym (sum_movements-append c store.transactions rows)),
        refl,
        refl,
      )

pub apply_opening_stock_batch-IsStocked :
    (ctx : Context) (fresh : ℕ → ℕ) (now : ℤ) (es : List OpeningEntry) (store : Store) {n : ℕ}
    {after : Store}
    → IsStocked store
    → apply_opening_stock_batch ctx fresh now es store ≡ ok (n, after)
    → IsStocked after
      × (n ≡ length (positive_entries es))
      × (after.transactions
          ≡ store.transactions ++ opening_rows ctx fresh now 0 (positive_entries es))
unfolding apply_opening_stock_batch
apply_opening_stock_batch-IsStocked ctx fresh now es store h e =
    write_opening-IsStocked ctx fresh now (positive_entries es) store h e
