-- ===== src/Khata/Payments.antt =====
-- apps/api/src/modules/khata/payments.service.ts: collecting a payment, and reversing it. The sales of a
-- customer stand in the order of the query (business date, time, identifier). The identifiers of
-- allocation rows, which nothing reads, are left out.
pub mod Collect
pub mod Reverse
pub mod Cover
pub mod Outcome
pub mod Once
pub mod Reachable
use dukaano.Base.{
  Bool, List, Option, Result, [], err, false, if◌then◌else◌, map, none, ok, some, throw_if, ℕ, ◌&&◌,
  ◌++◌, ◌==◌, ◌>>=◌, ◌>>◌, ◌∷◌,
}
use dukaano.Base.Int.{ltb_ℤ, pos, ℤ, ◌+ℤ◌, ◌-ℤ◌}
use dukaano.Base.Table.{find_row}
use dukaano.Base.Text.{Text}
use dukaano.Khata.{
  Books, Change, Fault, is_none, not_found, over_allocated, passing, payment, payment_missing,
}
use dukaano.Ledger.{Allocation, AllocationResult, OpenBill, allocate_fifo}
use dukaano.Money.Errors.{Number}

pub data Direction : Type 0 where
  incoming outgoing : Direction

-- A row of payment.
pub record Payment : Type 0 where
  pub id : ℕ
  pub customer_id : Option ℕ
  pub sale_id : Option ℕ
  pub direction : Direction
  pub method : ℕ
  pub amount_paise : ℤ
  pub reference : Option Text
  pub note : Option Text
  pub business_date : ℤ
  pub occurred_at : ℤ
  pub created_by_user_id : Option ℕ
  pub device_id : Option ℕ
  pub op_id : Option ℕ
  pub reversed_by_payment_id : Option ℕ
  pub reversal_of_payment_id : Option ℕ

-- A row of payment_allocation.
pub record PaymentAllocation : Type 0 where
  pub payment_id : ℕ
  pub sale_id : ℕ
  pub amount_paise : ℤ

-- The columns of sale and sale_return that the query reads.
pub record Sale : Type 0 where
  pub id : ℕ
  pub customer_id : ℕ
  pub completed : Bool
  pub credit_paise : ℤ

pub record SaleReturn : Type 0 where
  pub sale_id : ℕ
  pub refund_credit_paise : ℤ

pub record Tables : Type 0 where
  pub customers : List ℕ
  pub sales : List Sale
  pub returns : List SaleReturn
  pub payments : List Payment
  pub allocations : List PaymentAllocation
  pub books : Books

-- RecordPaymentInput
pub record RecordPaymentInput : Type 0 where
  pub id : Option ℕ
  pub customer_id : ℕ
  pub method : ℕ
  pub amount_paise : ℤ
  pub reference : Option Text
  pub note : Option Text
  pub occurred_at : Option ℤ
  pub op_id : Option ℕ
  pub allocations : Option (List Allocation)

-- The identifiers and the instant that a call draws.
pub record Fresh : Type 0 where
  pub payment_id : ℕ
  pub entry_id : ℕ
  pub now : ℤ

unfoldable pub find_payment : ℕ → List Payment → Option Payment
unfolding find_row
find_payment = find_row Payment.id (λ r. r)

-- findById: the payment and its allocations, in their order.
unfoldable pub allocations_of : ℕ → List PaymentAllocation → List Allocation
allocations_of id [] = []
allocations_of id (a ∷ rows) =
    let rest = allocations_of id rows in
    if a.payment_id == id
    then record { sale_id = a.sale_id; amount_paise = a.amount_paise } ∷ rest
    else rest

abbrev pub view :
    ℕ → List PaymentAllocation → Option Payment → Result Fault (Payment × List Allocation)
view id rows (some p) = ok (p, allocations_of id rows)
view id rows none = err (not_found (payment_missing id))

unfoldable pub find_by_id : ℕ → Tables → Result Fault (Payment × List Allocation)
unfolding find_payment allocations_of
find_by_id id t = view id t.allocations (find_payment id t.payments)

-- `pay.reversed_by_payment_id IS NULL` for the payment of an allocation
abbrev pub counts : Option Payment → Bool
counts none = false
counts (some p) = is_none p.reversed_by_payment_id

unfoldable pub allocated : ℕ → List Payment → List PaymentAllocation → ℤ
unfolding find_payment
allocated sale payments [] = pos 0
allocated sale payments (a ∷ rows) =
    let rest = allocated sale payments rows in
    if a.sale_id == sale && counts (find_payment a.payment_id payments)
    then a.amount_paise +ℤ rest
    else rest

unfoldable pub returned : ℕ → List SaleReturn → ℤ
returned sale [] = pos 0
returned sale (r ∷ returns) =
    let rest = returned sale returns in
    if r.sale_id == sale then r.refund_credit_paise +ℤ rest else rest

unfoldable pub outstanding : Sale → Tables → ℤ
unfolding allocated returned
outstanding sale t =
    sale.credit_paise -ℤ allocated sale.id t.payments t.allocations -ℤ returned sale.id t.returns

-- The query of applyFifoAllocations.
unfoldable pub open_bills : ℕ → Tables → List Sale → List OpenBill
unfolding outstanding
open_bills customer t [] = []
open_bills customer t (s ∷ sales) =
    let rest = open_bills customer t sales in
    if s.customer_id == customer && s.completed && ltb_ℤ (pos 0) (outstanding s t)
    then record { sale_id = s.id; outstanding_paise = outstanding s t } ∷ rest
    else rest

unfoldable pub apply_fifo_allocations : RecordPaymentInput → Tables → Result Fault AllocationResult
unfolding open_bills
apply_fifo_allocations input t =
    passing
      (allocate_fifo (Number.whole input.amount_paise) (open_bills input.customer_id t t.sales))

unfoldable pub total_of : List Allocation → ℤ
total_of [] = pos 0
total_of (a ∷ rows) = a.amount_paise +ℤ total_of rows

unfoldable pub apply_manual_allocations :
    RecordPaymentInput → List Allocation → Result Fault AllocationResult
unfolding total_of
apply_manual_allocations input rows = do
  throw_if (ltb_ℤ input.amount_paise (total_of rows))
      (over_allocated (total_of rows) input.amount_paise)
  ok (record { allocations = rows; unallocated_paise = input.amount_paise -ℤ total_of rows })

abbrev pub apply_allocations :
    RecordPaymentInput → Tables → Option (List Allocation) → Result Fault AllocationResult
apply_allocations input t none = apply_fifo_allocations input t
apply_allocations input t (some rows) = apply_manual_allocations input rows

-- writeAllocations
abbrev pub write_allocations : ℕ → List Allocation → List PaymentAllocation
write_allocations payment_id rows =
    map
      (λ (a : Allocation). record {
        payment_id = payment_id;
        sale_id = a.sale_id;
        amount_paise = a.amount_paise;
      })
      rows

abbrev pub with_changes : List Change → Books → Books
with_changes rows books = record books { changes = books.changes ++ rows }

abbrev pub payment_change : ℕ → ℕ → Change
payment_change id version = record { entity = payment; entity_id = id; row_version = version }
