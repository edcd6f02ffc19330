-- ===== src/Khata/Payments/Reachable.antt =====
-- The states that the calls of apps/api/src/modules/khata can reach, from a shop without entries.
use dukaano.Base.{
  >>=-eq-ok, List, Option, [], none, not, ok, ok-injective, or_else, refl, some, sym, throw_if,
  throw_if-ok, ℕ, ◌++◌, ◌>>=◌, ◌>>◌, ◌∷◌, ◌≡◌,
}
use dukaano.Base.Int.{ℤ}
use dukaano.Base.Text.{Text}
use dukaano.Khata.{
  Books, Context, LedgerEntryResult, Request, already_reversed, append, customer_missing,
  find_balance, is_none, no_user, not_found, not_reversible, sum_entries,
}
use dukaano.Khata.Balance.{IsBalanced, IsRunning, append-IsBalanced}
use dukaano.Khata.Payments.{
  Fresh, Payment, RecordPaymentInput, Tables, apply_allocations, find_by_id, find_payment,
}
use dukaano.Khata.Payments.Collect.{
  Recorded, answer, collect, collected, created, enter, member, received, record_payment, repeated,
  settled, unless_repeated,
}
use dukaano.Khata.Payments.Reverse.{
  append_bounced, bounced, is_incoming, reverse_found, reverse_payment, reversed_tables, undo,
}
use dukaano.Ledger.{Allocation}
use mathlib.Core.Path.{subst}

-- A call that is made: an entry posted on its own, a payment, or the reversal of one.
pub data Step (business_date_for : ℤ → ℤ) : Tables → Tables → Type 0 where
  posts :
      {t : Tables} (context : Context) (id : ℕ) (now : ℤ) (r : Request)
      (result : LedgerEntryResult × Books)
      → append context id now r t.books ≡ ok result
      → Step business_date_for t (record t { books = result.1 })
  collects :
      {t u : Tables} (context : Context) (fresh : Fresh) (input : RecordPaymentInput)
      (answer : Recorded)
      → record_payment business_date_for context fresh input t ≡ ok (answer, u)
      → Step business_date_for t u
  reverses :
      {t u : Tables} (context : Context) (fresh : Fresh) (id : ℕ) (reason : Text)
      (found : Payment × List Allocation)
      → reverse_payment context fresh id reason t ≡ ok (found, u)
      → Step business_date_for t u

pub data Reachable (business_date_for : ℤ → ℤ) : Tables → Type 0 where
  opened :
      {t : Tables}
      → t.books ≡ record { entries = []; balances = []; changes = [] }
      → Reachable business_date_for t
  then_step :
      {t u : Tables}
      → Reachable business_date_for t
      → Step business_date_for t u
      → Reachable business_date_for u

abbrev pub InOrder : Books → Type 0
InOrder books = IsBalanced books × IsRunning [] books.entries

append-InOrder :
    (ctx : Context) (id : ℕ) (now : ℤ) (r : Request) (books : Books)
    {result : LedgerEntryResult × Books}
    → InOrder books
    → append ctx id now r books ≡ ok result
    → InOrder result.1
append-InOrder ctx id now r books h e =
    let (balanced, running, _) = append-IsBalanced ctx id now r books h.0 h.1 e in
    (balanced, running)

enter-InOrder :
    (ctx : Context) (fresh : Fresh) (id : ℕ) (input : RecordPaymentInput) (row : Payment)
    (t : Tables) {done : Recorded × Tables}
    → InOrder t.books
    → enter ctx fresh id input row t ≡ ok done
    → InOrder done.1.books
enter-InOrder ctx fresh id input row t h e =
    let request = received id row.occurred_at input in
    let before : Tables = record t { payments = t.payments ++ row ∷ [] } in
    let (result, _, e1) =
      >>=-eq-ok (apply_allocations input before input.allocations)
        (λ result. append ctx fresh.entry_id fresh.now request t.books >>= answer id row t result)
        e in
    let (posted_row, posted_ok, e2) =
      >>=-eq-ok (append ctx fresh.entry_id fresh.now request t.books) (answer id row t result) e1 in
    let after = settled id row result posted_row.1 t in
    let (found, _, e3) =
      >>=-eq-ok (find_by_id id after)
        (λ found. ok (collected found result posted_row.0.balance_after_paise, after)) e2 in
    let kept = append-InOrder ctx fresh.entry_id fresh.now request t.books h posted_ok in
    subst (λ (w : Recorded × Tables). InOrder w.1.books) (ok-injective e3) kept

module _ (business_date_for : ℤ → ℤ) where
  collect-InOrder :
      (ctx : Context) (fresh : Fresh) (id : ℕ) (input : RecordPaymentInput) (t : Tables)
      {done : Recorded × Tables}
      → InOrder t.books
      → collect business_date_for ctx fresh id input t ≡ ok done
      → InOrder done.1.books
  unfolding collect
  collect-InOrder ctx fresh id input t h e =
      let occurred_at = or_else input.occurred_at fresh.now in
      let row = created ctx id occurred_at (business_date_for occurred_at) input in
      let (_, e1) =
        throw_if-ok (not (member input.customer_id t.customers))
          (not_found (customer_missing input.customer_id)) (enter ctx fresh id input row t) e in
      enter-InOrder ctx fresh id input row t h e1

  record_payment-InOrder :
      (ctx : Context) (fresh : Fresh) (input : RecordPaymentInput) (t : Tables) {answer : Recorded}
      {u : Tables}
      → InOrder t.books
      → record_payment business_date_for ctx fresh input t ≡ ok (answer, u)
      → InOrder u.books
  unfolding record_payment
  record_payment-InOrder ctx fresh input t {answer} {u} h e =
      let id = or_else input.id fresh.payment_id in
      let (_, e1) =
        throw_if-ok (is_none ctx.user_id) no_user
          (unless_repeated business_date_for ctx fresh id input t (find_payment id t.payments)) e in
      from_existing id (find_payment id t.payments) e1
    where
      from_existing :
          (id : ℕ) (existing : Option Payment)
          → unless_repeated business_date_for ctx fresh id input t existing ≡ ok (answer, u)
          → InOrder u.books
      from_existing id none e = collect-InOrder ctx fresh id input t h e
      from_existing id (some existing) e =
          let (found, _, e1) = >>=-eq-ok (find_by_id id t) (λ found. ok (repeated found, t)) e in
          subst (λ (w : Recorded × Tables). InOrder w.1.books) (ok-injective e1) h

append_bounced-InOrder :
    (ctx : Context) (fresh : Fresh) (original : Payment) (reason : Text) (customer : Option ℕ)
    (books : Books) {after : Books}
    → InOrder books
    → append_bounced ctx fresh original reason customer books ≡ ok after
    → InOrder after
append_bounced-InOrder ctx fresh original reason none books h e = subst InOrder (ok-injective e) h
append_bounced-InOrder ctx fresh original reason (some customer) books h e =
    let request = bounced fresh original reason customer in
    let (posted_row, posted_ok, e1) =
      >>=-eq-ok (append ctx fresh.entry_id fresh.now request books) (λ p. ok p.1) e in
    subst InOrder (ok-injective e1)
      (append-InOrder ctx fresh.entry_id fresh.now request books h posted_ok)

undo-InOrder :
    (ctx : Context) (fresh : Fresh) (id : ℕ) (original : Payment) (reason : Text) (t : Tables)
    {done : (Payment × List Allocation) × Tables}
    → InOrder t.books
    → undo ctx fresh id original reason t ≡ ok done
    → InOrder done.1.books
undo-InOrder ctx fresh id original reason t h e =
    let after : Books → Tables = λ books. reversed_tables ctx fresh id original reason books t in
    let (books, bounced_ok, e1) =
      >>=-eq-ok (append_bounced ctx fresh original reason original.customer_id t.books)
        (λ books. find_by_id fresh.payment_id (after books) >>= λ found. ok (found, after books))
        e in
    let (found, _, e2) =
      >>=-eq-ok (find_by_id fresh.payment_id (after books)) (λ found. ok (found, after books)) e1 in
    let kept =
      append_bounced-InOrder ctx fresh original reason original.customer_id t.books h bounced_ok in
    subst (λ (w : (Payment × List Allocation) × Tables). InOrder w.1.books) (ok-injective e2) kept

reverse_payment-InOrder :
    (ctx : Context) (fresh : Fresh) (id : ℕ) (reason : Text) (t : Tables)
    {found : Payment × List Allocation} {u : Tables}
    → InOrder t.books
    → reverse_payment ctx fresh id reason t ≡ ok (found, u)
    → InOrder u.books
unfolding reverse_payment
reverse_payment-InOrder ctx fresh id reason t {found} {u} h e =
    from_found (find_payment id t.payments) e
  where
    from_found :
        (original : Option Payment)
        → reverse_found ctx fresh id reason t original ≡ ok (found, u)
        → InOrder u.books
    from_found none e = cc
    from_found (some original) e =
        let rest = undo ctx fresh id original reason t in
        let (_, e1) =
          throw_if-ok (not (is_none original.reversed_by_payment_id)) already_reversed
            (throw_if (not (is_incoming original.direction)) not_reversible >> rest) e in
        let (_, e2) = throw_if-ok (not (is_incoming original.direction)) not_reversible rest e1 in
        undo-InOrder ctx fresh id original reason t h e2

empty-InOrder : InOrder (record { entries = []; balances = []; changes = [] })
unfolding find_balance sum_entries
empty-InOrder = ((λ c. refl), tt)

module _ (business_date_for : ℤ → ℤ) where
  Step-InOrder : {t u : Tables} → Step business_date_for t u → InOrder t.books → InOrder u.books
  Step-InOrder (posts {t} ctx id now r result e) h = append-InOrder ctx id now r t.books h e
  Step-InOrder (collects {t} ctx fresh input answer e) h =
      record_payment-InOrder business_date_for ctx fresh input t h e
  Step-InOrder (reverses {t} ctx fresh id reason found e) h =
      reverse_payment-InOrder ctx fresh id reason t h e

  -- In every state that calls can reach from a shop without entries, by entries posted on their own,
  -- payments and reversals in any order, each customer's balance is the sum of the customer's entries, and
  -- each entry is stamped with the sum up to it.
  pub Reachable-InOrder : {t : Tables} → Reachable business_date_for t → InOrder t.books
  Reachable-InOrder (opened e) = subst InOrder (sym e) empty-InOrder
  Reachable-InOrder (then_step r s) = Step-InOrder s (Reachable-InOrder r)
