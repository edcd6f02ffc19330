-- ===== src/Khata/Tests.antt =====
-- Runs of apps/api/src/modules/khata.
use dukaano.Base.{List, [], err, none, ok, refl, some, true, ◌++◌, ◌∷◌, ◌≡◌}
use dukaano.Base.Int.{neg, negsuc, pos, ℤ, ◌+ℤ◌, ◌-ℤ◌, ◌/ℤ◌}
use dukaano.Base.Text.{codes, trim}
use dukaano.Khata.{
  Books, Context, Request, already_reversed, append, find_balance, post, sum_entries,
}
use dukaano.Khata.Balance.{Appended, IsBalanced, append-IsBalanced}
use dukaano.Khata.Payments.{
  Fresh, Payment, RecordPaymentInput, Tables, find_payment, write_allocations,
}
use dukaano.Khata.Payments.Collect.{collected, created, received, record_payment, repeated, settled}
use dukaano.Khata.Payments.Cover.{Covers}
use dukaano.Khata.Payments.Once.{reverse_payment_once}
use dukaano.Khata.Payments.Outcome.{record_payment-Covers, record_payment_retry}
use dukaano.Khata.Payments.Reachable.{
  InOrder, Reachable-InOrder, collects, opened, reverses, then_step,
}
use dukaano.Khata.Payments.Reverse.{bounced, reversal, reverse_payment, reversed_tables}
use dukaano.Ledger.{
  Allocation, AllocationResult, allocate_fifo, apply_ledger_entry, clear,
  ledger_entry_requires_reason, signed_ledger_amount,
}
use dukaano.Money.Arithmetic.{min_paise}

abbrev day : ℤ → ℤ
day t = t /ℤ pos 86_400_000

abbrev till : Context
till = record { shop_id = some 1; user_id = some 2; device_id = none }

abbrev no_books : Books
no_books = record { entries = []; balances = []; changes = [] }

abbrev shop : Tables
shop = record {
  customers = 7 ∷ [];
  sales = record { id = 10; customer_id = 7; completed = true; credit_paise = pos 500 } ∷ [];
  returns = [];
  payments = [];
  allocations = [];
  books = no_books;
}

abbrev cash : RecordPaymentInput
cash = record {
  id = some 30;
  customer_id = 7;
  method = 0;
  amount_paise = pos 800;
  reference = none;
  note = none;
  occurred_at = none;
  op_id = none;
  allocations = none;
}

abbrev drawn : Fresh
drawn = record { payment_id = 40; entry_id = 41; now = pos 1_000 }

abbrev drawn_later : Fresh
drawn_later = record { payment_id = 50; entry_id = 51; now = pos 2_000 }

abbrev paid : AllocationResult
paid = record {
  allocations = record { sale_id = 10; amount_paise = pos 500 } ∷ [];
  unallocated_paise = pos 300;
}

abbrev paid_row : Payment
paid_row = created till 30 (pos 1_000) (pos 0) cash

abbrev seen : Payment × List Allocation
seen = (paid_row, paid.allocations)

abbrev paid_books : Books
paid_books = (post till 41 (pos 1_000) (received 30 (pos 1_000) cash) (negsuc 799) no_books).1

abbrev paid_tables : Tables
paid_tables = settled 30 paid_row paid paid_books shop

paid_ok :
    record_payment day till drawn cash shop ≡ ok (collected seen paid (negsuc 799), paid_tables)
unfolding record_payment allocate_fifo ledger_entry_requires_reason signed_ledger_amount ◌/ℤ◌ clear
    apply_ledger_entry neg ◌-ℤ◌ ◌+ℤ◌ min_paise
paid_ok = refl

no_books-IsBalanced : IsBalanced no_books
unfolding sum_entries find_balance
no_books-IsBalanced c = refl

record_payment-Covers_example :
    Covers (pos 800) paid
    × (paid_tables.allocations ≡ [] ++ write_allocations 30 paid.allocations)
    × (negsuc 799 ≡ sum_entries 7 [] -ℤ pos 800)
record_payment-Covers_example =
    record_payment-Covers day till drawn cash shop no_books-IsBalanced tt paid_ok

record_payment_retry_example :
    (found : Payment × List Allocation) × (record_payment day till drawn_later cash paid_tables
      ≡ ok (repeated found, paid_tables))
record_payment_retry_example =
    record_payment_retry day till till drawn drawn_later cash shop 30 2 refl refl paid_ok

abbrev reversed : Tables
reversed =
    reversed_tables till drawn_later 30 paid_row (codes "bounced")
      (post till 51 (pos 2_000) (bounced drawn_later paid_row (codes "bounced") 7) (pos 800)
        paid_tables.books).1
      paid_tables

reversed_ok :
    reverse_payment till drawn_later 30 (codes "bounced") paid_tables
    ≡ ok ((reversal till drawn_later paid_row (codes "bounced"), []), reversed)
unfolding reverse_payment ledger_entry_requires_reason trim signed_ledger_amount
reversed_ok = refl

reverse_payment_once_example :
    ((p : Payment) × (find_payment 30 reversed.payments ≡ some p)
      × (p.reversed_by_payment_id ≡ some 50))
    × (reverse_payment till drawn 30 (codes "again") reversed ≡ err already_reversed)
reverse_payment_once_example =
    reverse_payment_once till till drawn_later drawn 30 (codes "bounced") (codes "again")
      paid_tables reversed_ok

Reachable-InOrder_example : InOrder reversed.books
Reachable-InOrder_example = Reachable-InOrder day (
    then_step
      (then_step (opened refl)
        (collects till drawn cash (collected seen paid (negsuc 799)) paid_ok))
      (reverses till drawn_later 30 (codes "bounced")
        (reversal till drawn_later paid_row (codes "bounced"), []) reversed_ok))

abbrev payment_of_800 : Request
payment_of_800 = received 30 (pos 1_000) cash

posted_ok :
    append till 41 (pos 1_000) payment_of_800 no_books
    ≡ ok (post till 41 (pos 1_000) payment_of_800 (negsuc 799) no_books)
unfolding append ledger_entry_requires_reason signed_ledger_amount neg
posted_ok = refl

append-IsBalanced_example :
    Appended payment_of_800 no_books (post till 41 (pos 1_000) payment_of_800 (negsuc 799) no_books)
append-IsBalanced_example =
    append-IsBalanced till 41 (pos 1_000) payment_of_800 no_books no_books-IsBalanced tt posted_ok
