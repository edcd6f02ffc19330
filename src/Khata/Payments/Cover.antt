-- ===== src/Khata/Payments/Cover.antt =====
-- The allocations of a payment, apps/api/src/modules/khata/payments.service.ts.
use dukaano.Base.{
  List, Option, ap, arith, err, none, ok, ok-injective, refl, some, sym, throw_if-ok, ℕ, ◌∙◌, ◌≡◌,
}
use dukaano.Base.Int.{int_laws, ltb_ℤ, negsuc, pos, ℤ, ◌+ℤ◌, ◌-ℤ◌, ◌≤ℤ◌}
use dukaano.Khata.{over_allocated, passing}
use dukaano.Khata.Payments.{
  RecordPaymentInput, Tables, apply_allocations, apply_fifo_allocations, apply_manual_allocations,
  open_bills, total_of,
}
use dukaano.Ledger.{Allocation, AllocationResult, OpenBill, allocate_fifo}
use dukaano.Ledger.Fifo.{
  Clears, Clears-totals, allocate_fifo-Clears, applied, closed, in_full, in_part, no_bills,
  no_money,
}
use dukaano.Money.Errors.{Number, negative_amount, range_error}
use mathlib.Core.Path.{subst}

pub total_of-Clears :
    {n left : ℕ} {bills : List OpenBill} {rows : List Allocation}
    → Clears n bills rows left
    → total_of rows ≡ pos (applied rows)
unfolding total_of
total_of-Clears no_bills = refl
total_of-Clears no_money = refl
total_of-Clears (closed h c) = total_of-Clears c
total_of-Clears (in_full {due = due} p e c) = rw (total_of-Clears c) (omega int_laws)
total_of-Clears (in_part {n} p h e) = omega int_laws

-- The rows and the advance make up the payment.
abbrev pub Covers : ℤ → AllocationResult → Type 0
Covers amount result =
    (total_of result.allocations +ℤ result.unallocated_paise ≡ amount)
    × (pos 0 ≤ℤ result.unallocated_paise)

pub negative_refused :
    (n : ℕ) (bills : List OpenBill)
    → allocate_fifo (Number.whole (negsuc n)) bills ≡ err (range_error negative_amount)
unfolding allocate_fifo
negative_refused n bills = ground arith

pub fifo-Covers :
    (a : ℤ) (bills : List OpenBill) {result : AllocationResult}
    → passing (allocate_fifo (Number.whole a) bills) ≡ ok result
    → Covers a result
fifo-Covers (pos n) bills {result} e =
    let (r, left, r_ok, left_is, c) = allocate_fifo-Clears n bills in
    let same : r ≡ result = ok-injective (ap passing (sym r_ok) ∙ e) in
    let sums = Clears-totals c in
    subst (Covers (pos n)) same
      (rw (total_of-Clears c, left_is) (omega (int_laws, sums)), rw left_is (omega int_laws))
fifo-Covers (negsuc n) bills e = absurd (cc (ap passing (negative_refused n bills), e))

pub manual-Covers :
    (input : RecordPaymentInput) (rows : List Allocation) {result : AllocationResult}
    → apply_manual_allocations input rows ≡ ok result
    → Covers input.amount_paise result
unfolding apply_manual_allocations
manual-Covers input rows {result} e =
    let given : AllocationResult = record {
      allocations = rows;
      unallocated_paise = input.amount_paise -ℤ total_of rows;
    } in
    let (within, e1) =
      throw_if-ok (ltb_ℤ input.amount_paise (total_of rows))
        (over_allocated (total_of rows) input.amount_paise) (ok given) e in
    let enough : total_of rows ≤ℤ input.amount_paise = ground arith in
    subst (Covers input.amount_paise) (ok-injective e1) (omega int_laws, omega (int_laws, enough))

pub apply_allocations-Covers :
    (input : RecordPaymentInput) (t : Tables) (rows : Option (List Allocation))
    {result : AllocationResult}
    → apply_allocations input t rows ≡ ok result
    → Covers input.amount_paise result
apply_allocations-Covers input t none e =
    unfold apply_fifo_allocations in
    fifo-Covers input.amount_paise (open_bills input.customer_id t t.sales) e
apply_allocations-Covers input t (some rows) e = manual-Covers input rows e
