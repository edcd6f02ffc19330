-- ===== src/Ledger.antt =====
-- packages/business-logic/src/ledger/allocation.ts, and the entry types of
-- packages/types/src/enums.ts: how a payment clears bills, and how an entry moves a balance.
pub mod Fifo
pub mod Entries
mod Tests
use dukaano.Base.{
  Bool, List, [], err, false, if◌then◌else◌, ok, throw_if, true, ℕ, ◌>>=◌, ◌>>◌, ◌∷◌,
}
use dukaano.Base.Int.{eqb_ℤ, leb_ℤ, ltb_ℤ, neg, pos, ℤ, ◌+ℤ◌, ◌-ℤ◌}
use dukaano.Money.Arithmetic.{min_paise}
use dukaano.Money.Errors.{Number, Throws, fractional_amount, negative_amount, range_error}

pub record OpenBill : Type 0 where
  pub sale_id : ℕ
  pub outstanding_paise : ℤ

pub record Allocation : Type 0 where
  pub sale_id : ℕ
  pub amount_paise : ℤ

pub record AllocationResult : Type 0 where
  pub allocations : List Allocation
  pub unallocated_paise : ℤ

-- The loop over the bills, with what remains of the payment.
unfoldable pub clear : ℤ → List OpenBill → AllocationResult
clear remaining [] = record { allocations = []; unallocated_paise = remaining }
clear remaining (bill ∷ bills) =
    let skipped = clear remaining bills in
    let applied = min_paise remaining bill.outstanding_paise in
    let rest = clear (remaining -ℤ applied) bills in
    if eqb_ℤ remaining (pos 0)
    then record { allocations = []; unallocated_paise = remaining }
    else if leb_ℤ bill.outstanding_paise (pos 0)
    then skipped
    else record rest {
      allocations = record { sale_id = bill.sale_id; amount_paise = applied } ∷ rest.allocations;
    }

unfoldable pub allocate_fifo : Number → List OpenBill → Throws AllocationResult
allocate_fifo Number.other bills = err (range_error fractional_amount)
allocate_fifo (Number.whole amount) bills = do
  throw_if (ltb_ℤ amount (pos 0)) (range_error negative_amount)
  ok (clear amount bills)

pub data LedgerEntryType : Type 0 where
  opening_balance sale_credit payment_received return_credit sale_cancelled : LedgerEntryType
  payment_reversed adjustment_debit adjustment_credit write_off : LedgerEntryType

pub data LedgerSign : Type 0 where
  debit credit : LedgerSign

-- The columns of `LEDGER_ENTRY_TYPES`.
abbrev pub ledger_sign : LedgerEntryType → LedgerSign
ledger_sign opening_balance = debit
ledger_sign sale_credit = debit
ledger_sign payment_received = credit
ledger_sign return_credit = credit
ledger_sign sale_cancelled = credit
ledger_sign payment_reversed = debit
ledger_sign adjustment_debit = debit
ledger_sign adjustment_credit = credit
ledger_sign write_off = credit

unfoldable pub ledger_entry_requires_reason : LedgerEntryType → Bool
ledger_entry_requires_reason payment_reversed = true
ledger_entry_requires_reason adjustment_debit = true
ledger_entry_requires_reason adjustment_credit = true
ledger_entry_requires_reason write_off = true
ledger_entry_requires_reason _ = false

-- `sign === 'DEBIT' ? magnitude : -magnitude`
abbrev pub with_ledger_sign : LedgerSign → ℤ → ℤ
with_ledger_sign debit size = size
with_ledger_sign credit size = neg size

unfoldable pub signed_ledger_amount : LedgerEntryType → Number → Throws ℤ
signed_ledger_amount entry_type Number.other = err (range_error fractional_amount)
signed_ledger_amount entry_type (Number.whole size) = do
  throw_if (ltb_ℤ size (pos 0)) (range_error negative_amount)
  ok (with_ledger_sign (ledger_sign entry_type) size)

unfoldable pub apply_ledger_entry : ℤ → ℤ → ℤ
apply_ledger_entry current_balance signed_amount = current_balance +ℤ signed_amount

pub data AgeingBucket : Type 0 where
  current week2 month1 older : AgeingBucket

-- The loop over `AGEING_BUCKETS`; the last bound is infinite. The age is in whole days.
unfoldable pub ageing_bucket : ℤ → AgeingBucket
ageing_bucket age =
    if leb_ℤ age (pos 7)
    then current
    else if leb_ℤ age (pos 15)
    then week2
    else if leb_ℤ age (pos 30)
    then month1
    else older
