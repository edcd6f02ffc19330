-- ===== src/Ledger/Tests.antt =====
-- Runs of packages/business-logic/src/ledger.
use dukaano.Base.{List, [], arith, ok, refl, ℕ, ◌∷◌, ◌≡◌, ◌≢◌}
use dukaano.Base.Int.{neg, negsuc, pos, ◌-ℤ◌}
use dukaano.Ledger.{
  AllocationResult, OpenBill, allocate_fifo, clear, ledger_sign, sale_cancelled, sale_credit,
  signed_ledger_amount,
}
use dukaano.Ledger.Fifo.{Clears, allocate_fifo-Clears}
use dukaano.Money.Arithmetic.{min_paise}
use dukaano.Money.Errors.{Number}

abbrev bills : List OpenBill
bills =
    record { sale_id = 1; outstanding_paise = pos 500 }
    ∷ record { sale_id = 2; outstanding_paise = pos 0 }
    ∷ record { sale_id = 3; outstanding_paise = pos 700 }
    ∷ []

abbrev paid_off : AllocationResult
paid_off = record {
  allocations =
      record { sale_id = 1; amount_paise = pos 500 }
      ∷ record { sale_id = 3; amount_paise = pos 300 }
      ∷ [];
  unallocated_paise = pos 0;
}

paid_in_order : allocate_fifo (Number.whole (pos 800)) bills ≡ ok paid_off
unfolding allocate_fifo clear min_paise ◌-ℤ◌
paid_in_order = refl

allocate_fifo-Clears_example :
    (r : AllocationResult) × (left : ℕ) × (allocate_fifo (Number.whole (pos 800)) bills ≡ ok r)
    × (r.unallocated_paise ≡ pos left)
    × Clears 800 bills r.allocations left
allocate_fifo-Clears_example = allocate_fifo-Clears 800 bills

sale : signed_ledger_amount sale_credit (Number.whole (pos 70)) ≡ ok (pos 70)
unfolding signed_ledger_amount
sale = refl

cancelled : signed_ledger_amount sale_cancelled (Number.whole (pos 70)) ≡ ok (negsuc 69)
unfolding signed_ledger_amount neg
cancelled = refl

signs_differ : ledger_sign sale_credit ≢ ledger_sign sale_cancelled
signs_differ e = ground arith
