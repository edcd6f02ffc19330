-- ===== src/Khata/Payments/Reverse.antt =====
-- `reverse` of apps/api/src/modules/khata/payments.service.ts. A missing user is `none`, where the source writes the
-- empty text.
use dukaano.Base.{
  Bool, List, Option, Result, [], err, false, none, not, ok, some, throw_if, true, ℕ, ◌++◌, ◌>>=◌,
  ◌>>◌, ◌∷◌,
}
use dukaano.Base.Table.{change_rows}
use dukaano.Base.Text.{Text}
use dukaano.Khata.{
  Books, Context, Fault, Request, already_reversed, append, is_none, not_found, not_reversible,
  payment_missing, payment_ref,
}
use dukaano.Khata.Payments.{
  Direction, Fresh, Payment, Tables, find_by_id, find_payment, incoming, outgoing, payment_change,
  with_changes,
}
use dukaano.Ledger.{Allocation, payment_reversed}
use dukaano.Money.Errors.{Number}

abbrev pub reversal : Context → Fresh → Payment → Text → Payment
reversal context fresh original reason = record {
  id = fresh.payment_id;
  customer_id = original.customer_id;
  sale_id = original.sale_id;
  direction = outgoing;
  method = original.method;
  amount_paise = original.amount_paise;
  reference = none;
  note = some reason;
  business_date = original.business_date;
  occurred_at = fresh.now;
  created_by_user_id = context.user_id;
  device_id = none;
  op_id = none;
  reversed_by_payment_id = none;
  reversal_of_payment_id = some original.id;
}

-- `payment.update({ where: { id }, data: { reversedByPaymentId } })`
unfoldable pub mark_reversed : ℕ → ℕ → List Payment → List Payment
unfolding change_rows
mark_reversed id by = change_rows Payment.id id (λ p. record p { reversed_by_payment_id = some by })

abbrev pub bounced : Fresh → Payment → Text → ℕ → Request
bounced fresh original reason customer = record {
  customer_id = customer;
  entry_type = payment_reversed;
  magnitude_paise = Number.whole original.amount_paise;
  ref_type = some payment_ref;
  ref_id = some fresh.payment_id;
  reason = some reason;
  note = none;
  occurred_at = none;
  op_id = none;
}

-- The ledger entry, for a payment of a customer.
abbrev pub append_bounced : Context → Fresh → Payment → Text → Option ℕ → Books → Result Fault Books
append_bounced context fresh original reason none books = ok books
append_bounced context fresh original reason (some customer) books = do
  (_, after) ←
      append context fresh.entry_id fresh.now (bounced fresh original reason customer) books
  ok after

abbrev pub is_incoming : Direction → Bool
is_incoming incoming = true
is_incoming outgoing = false

-- The tables once the reversal and its ledger entry are written.
abbrev pub reversed_tables : Context → Fresh → ℕ → Payment → Text → Books → Tables → Tables
reversed_tables context fresh id original reason books t = record t {
  payments =
      mark_reversed id fresh.payment_id (t.payments ++ reversal context fresh original reason ∷ []);
  books = with_changes (payment_change id 2 ∷ payment_change fresh.payment_id 1 ∷ []) books;
}

abbrev pub undo :
    Context
    → Fresh
    → ℕ
    → Payment
    → Text
    → Tables
    → Result Fault ((Payment × List Allocation) × Tables)
undo context fresh id original reason t = do
  books ← append_bounced context fresh original reason original.customer_id t.books
  found ← find_by_id fresh.payment_id (reversed_tables context fresh id original reason books t)
  ok (found, reversed_tables context fresh id original reason books t)

abbrev pub reverse_found :
    Context
    → Fresh
    → ℕ
    → Text
    → Tables
    → Option Payment
    → Result Fault ((Payment × List Allocation) × Tables)
reverse_found context fresh id reason t none = err (not_found (payment_missing id))
reverse_found context fresh id reason t (some original) = do
  throw_if (not (is_none original.reversed_by_payment_id)) already_reversed
  throw_if (not (is_incoming original.direction)) not_reversible
  undo context fresh id original reason t

unfoldable pub reverse_payment :
    Context → Fresh → ℕ → Text → Tables → Result Fault ((Payment × List Allocation) × Tables)
unfolding find_payment find_by_id mark_reversed append
reverse_payment context fresh id reason t =
    reverse_found context fresh id reason t (find_payment id t.payments)
