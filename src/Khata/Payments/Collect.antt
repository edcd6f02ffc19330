-- ===== src/Khata/Payments/Collect.antt =====
-- `record` of apps/api/src/modules/khata/payments.service.ts: collecting a payment.
use dukaano.Base.{
  Bool, List, Option, Result, [], false, none, not, ok, or_else, some, throw_if, ℕ, ◌++◌, ◌==◌,
  ◌>>=◌, ◌>>◌, ◌||◌, ◌∷◌,
}
use dukaano.Base.Int.{ltb_ℤ, pos, ℤ}
use dukaano.Khata.{
  Books, Context, Fault, LedgerEntryResult, Request, append, customer_missing, is_none, no_user,
  not_found, payment_ref,
}
use dukaano.Khata.Payments.{
  Fresh, Payment, RecordPaymentInput, Tables, apply_allocations, apply_fifo_allocations,
  apply_manual_allocations, find_by_id, find_payment, incoming, payment_change, with_changes,
  write_allocations,
}
use dukaano.Ledger.{Allocation, AllocationResult, payment_received}
use dukaano.Money.Errors.{Number}

pub data Recorded : Type 0 where
  -- the payment was there already
  repeated : Payment × List Allocation → Recorded
  -- the payment, what it was allocated to, and the balance after it
  collected : Payment × List Allocation → AllocationResult → ℤ → Recorded

-- `isAdvance`
abbrev pub is_advance : Recorded → Bool
is_advance (repeated p) = false
is_advance (collected p r balance_after) = ltb_ℤ balance_after (pos 0)

unfoldable pub member : ℕ → List ℕ → Bool
member c [] = false
member c (d ∷ ids) = d == c || member c ids

abbrev pub created : Context → ℕ → ℤ → ℤ → RecordPaymentInput → Payment
created context id occurred_at business_date input = record {
  id = id;
  customer_id = some input.customer_id;
  sale_id = none;
  direction = incoming;
  method = input.method;
  amount_paise = input.amount_paise;
  reference = input.reference;
  note = input.note;
  business_date = business_date;
  occurred_at = occurred_at;
  created_by_user_id = context.user_id;
  device_id = context.device_id;
  op_id = input.op_id;
  reversed_by_payment_id = none;
  reversal_of_payment_id = none;
}

abbrev pub received : ℕ → ℤ → RecordPaymentInput → Request
received id occurred_at input = record {
  customer_id = input.customer_id;
  entry_type = payment_received;
  magnitude_paise = Number.whole input.amount_paise;
  ref_type = some payment_ref;
  ref_id = some id;
  reason = none;
  note = input.note;
  occurred_at = some occurred_at;
  op_id = none;
}

-- The tables once the allocations and the ledger entry are written.
abbrev pub settled : ℕ → Payment → AllocationResult → Books → Tables → Tables
settled id row result books t = record t {
  payments = t.payments ++ row ∷ [];
  allocations = t.allocations ++ write_allocations id result.allocations;
  books = with_changes (payment_change id 1 ∷ []) books;
}

abbrev pub answer :
    ℕ
    → Payment
    → Tables
    → AllocationResult
    → LedgerEntryResult × Books
    → Result Fault (Recorded × Tables)
answer id row t result posted = do
  found ← find_by_id id (settled id row result posted.1 t)
  ok (collected found result posted.0.balance_after_paise, settled id row result posted.1 t)

-- The allocations and the ledger entry of a payment whose row is `row`.
abbrev pub enter :
    Context → Fresh → ℕ → RecordPaymentInput → Payment → Tables → Result Fault (Recorded × Tables)
enter context fresh id input row t = do
  result ←
      apply_allocations input (record t { payments = t.payments ++ row ∷ [] }) input.allocations
  posted ← append context fresh.entry_id fresh.now (received id row.occurred_at input) t.books
  answer id row t result posted

module _ (business_date_for : ℤ → ℤ) where
  -- A payment that was not there before. (The date of `businessDateFor` is the business logic's, for the
  -- time zone and the first hour of the shop's day.)
  unfoldable pub collect :
      Context → Fresh → ℕ → RecordPaymentInput → Tables → Result Fault (Recorded × Tables)
  unfolding member apply_fifo_allocations apply_manual_allocations append find_by_id
  collect context fresh id input t = do
    throw_if (not (member input.customer_id t.customers))
        (not_found (customer_missing input.customer_id))
    let occurred_at = or_else input.occurred_at fresh.now
    enter context fresh id input
        (created context id occurred_at (business_date_for occurred_at) input) t

  abbrev pub unless_repeated :
      Context
      → Fresh
      → ℕ
      → RecordPaymentInput
      → Tables
      → Option Payment
      → Result Fault (Recorded × Tables)
  unless_repeated context fresh id input t (some existing) = do
    found ← find_by_id id t
    ok (repeated found, t)
  unless_repeated context fresh id input t none = collect context fresh id input t

  unfoldable pub record_payment :
      Context → Fresh → RecordPaymentInput → Tables → Result Fault (Recorded × Tables)
  unfolding find_payment collect
  record_payment context fresh input t = do
    throw_if (is_none context.user_id) no_user
    let id = or_else input.id fresh.payment_id
    unless_repeated context fresh id input t (find_payment id t.payments)
