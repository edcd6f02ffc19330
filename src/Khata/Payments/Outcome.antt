-- ===== src/Khata/Payments/Outcome.antt =====
-- What `record` of apps/api/src/modules/khata/payments.service.ts answers and leaves behind.
use dukaano.Base.{
  >>=-eq-ok, List, Option, [], none, not, ok, ok-injective, or_else, refl, some, throw_if-ok, ℕ,
  ◌++◌, ◌>>=◌, ◌∙◌, ◌∷◌, ◌≡◌,
}
use dukaano.Base.Int.{int_laws, ℤ, ◌-ℤ◌}
use dukaano.Khata.{
  Books, Context, LedgerEntryResult, append, customer_missing, is_none, no_user, not_found,
  sum_entries,
}
use dukaano.Khata.Balance.{IsBalanced, IsRunning, append-IsBalanced, append_moves}
use dukaano.Khata.Payments.{
  Fresh, Payment, RecordPaymentInput, Tables, apply_allocations, find_by_id, find_payment, view,
  write_allocations,
}
use dukaano.Khata.Payments.Collect.{
  Recorded, answer, collect, collected, created, enter, member, received, record_payment, repeated,
  settled, unless_repeated,
}
use dukaano.Khata.Payments.Cover.{Covers, apply_allocations-Covers}
use dukaano.Ledger.{Allocation, AllocationResult}
use mathlib.Core.Path.{subst}

find_by_id-find_payment :
    (id : ℕ) (t : Tables) {found : Payment × List Allocation}
    → find_by_id id t ≡ ok found
    → (p : Payment) × (find_payment id t.payments ≡ some p)
unfolding find_by_id
find_by_id-find_payment id t {found} e = go (find_payment id t.payments) e
  where
    go : (o : Option Payment) → view id t.allocations o ≡ ok found → (p : Payment) × (o ≡ some p)
    go none e = cc
    go (some p) e = (p, refl)

-- What a payment that was entered has gone through.
abbrev Entered :
    Context → Fresh → ℕ → RecordPaymentInput → Payment → Tables → Recorded × Tables → Type 0
Entered ctx fresh id input row t done =
    (result : AllocationResult) × (posted_row : LedgerEntryResult × Books) × (found : Payment
      × List Allocation)
    × (apply_allocations input (record t { payments = t.payments ++ row ∷ [] }) input.allocations
        ≡ ok result)
    × (append ctx fresh.entry_id fresh.now (received id row.occurred_at input) t.books
        ≡ ok posted_row)
    × (find_by_id id (settled id row result posted_row.1 t) ≡ ok found)
    × ((
      collected found result posted_row.0.balance_after_paise,
      settled id row result posted_row.1 t,
    )
        ≡ done)

enter-Entered :
    (ctx : Context) (fresh : Fresh) (id : ℕ) (input : RecordPaymentInput) (row : Payment)
    (t : Tables) {done : Recorded × Tables}
    → enter ctx fresh id input row t ≡ ok done
    → Entered ctx fresh id input row t done
enter-Entered ctx fresh id input row t e =
    let request = received id row.occurred_at input in
    let before : Tables = record t { payments = t.payments ++ row ∷ [] } in
    let (result, allocated_ok, e1) =
      >>=-eq-ok (apply_allocations input before input.allocations)
        (λ result. append ctx fresh.entry_id fresh.now request t.books >>= answer id row t result)
        e in
    let (posted_row, posted_ok, e2) =
      >>=-eq-ok (append ctx fresh.entry_id fresh.now request t.books) (answer id row t result) e1 in
    let after = settled id row result posted_row.1 t in
    let (found, found_ok, e3) =
      >>=-eq-ok (find_by_id id after)
        (λ found. ok (collected found result posted_row.0.balance_after_paise, after)) e2 in
    (result, posted_row, found, allocated_ok, posted_ok, found_ok, ok-injective e3)

-- What a recorded payment leaves behind; a repeated one leaves nothing.
abbrev Accounted : ℕ → RecordPaymentInput → Tables → Recorded → Tables → Type 0
Accounted id input t (repeated found) u = Unit
Accounted id input t (collected found result after) u =
    Covers input.amount_paise result
    × (u.allocations ≡ t.allocations ++ write_allocations id result.allocations)
    × (after ≡ sum_entries input.customer_id t.books.entries -ℤ input.amount_paise)

module _ (business_date_for : ℤ → ℤ) where
  collect-Entered :
      (ctx : Context) (fresh : Fresh) (id : ℕ) (input : RecordPaymentInput) (t : Tables)
      {done : Recorded × Tables}
      → collect business_date_for ctx fresh id input t ≡ ok done
      → Entered ctx fresh id input
          (created ctx id
            (or_else input.occurred_at fresh.now)
            (business_date_for (or_else input.occurred_at fresh.now))
            input)
          t
          done
  unfolding collect
  collect-Entered ctx fresh id input t e =
      let occurred_at = or_else input.occurred_at fresh.now in
      let row = created ctx id occurred_at (business_date_for occurred_at) input in
      let (_, e1) =
        throw_if-ok (not (member input.customer_id t.customers))
          (not_found (customer_missing input.customer_id)) (enter ctx fresh id input row t) e in
      enter-Entered ctx fresh id input row t e1

  -- A payment recorded is found in the tables that the call leaves.
  record_payment-find_by_id :
      (ctx : Context) (fresh : Fresh) (input : RecordPaymentInput) (t : Tables) {outcome : Recorded}
      {u : Tables}
      → record_payment business_date_for ctx fresh input t ≡ ok (outcome, u)
      → (found : Payment × List Allocation) × (find_by_id (or_else input.id fresh.payment_id) u
          ≡ ok found)
  unfolding record_payment
  record_payment-find_by_id ctx fresh input t {outcome} {u} e =
      let id = or_else input.id fresh.payment_id in
      let (_, e1) =
        throw_if-ok (is_none ctx.user_id) no_user
          (unless_repeated business_date_for ctx fresh id input t (find_payment id t.payments)) e in
      go id (find_payment id t.payments) e1
    where
      go :
          (id : ℕ) (existing : Option Payment)
          → unless_repeated business_date_for ctx fresh id input t existing ≡ ok (outcome, u)
          → (found : Payment × List Allocation) × (find_by_id id u ≡ ok found)
      go id (some p) e =
          let (found, found_ok, e1) =
            >>=-eq-ok (find_by_id id t) (λ found. ok (repeated found, t)) e in
          (
            found,
            subst (λ (w : Recorded × Tables). find_by_id id w.1 ≡ ok found) (ok-injective e1)
                found_ok,
          )
      go id none e =
          let (result, posted_row, found, _, _, found_ok, is) =
            collect-Entered ctx fresh id input t e in
          (found, subst (λ (w : Recorded × Tables). find_by_id id w.1 ≡ ok found) is found_ok)

  pub record_payment_retry :
      (ctx again : Context) (fresh later : Fresh) (input : RecordPaymentInput) (t : Tables)
      (id user : ℕ) {outcome : Recorded} {u : Tables}
      → input.id ≡ some id
      → again.user_id ≡ some user
      → record_payment business_date_for ctx fresh input t ≡ ok (outcome, u)
      → (found : Payment × List Allocation) × (record_payment business_date_for again later input u
          ≡ ok (repeated found, u))
  unfolding record_payment
  record_payment_retry ctx again fresh later input t id user {outcome} {u} own known e =
      let (found, found_ok) = record_payment-find_by_id ctx fresh input t e in
      let here : find_by_id id u ≡ ok found =
        subst (λ o. find_by_id (or_else o fresh.payment_id) u ≡ ok found) own found_ok in
      let (p, at_p) = find_by_id-find_payment id u here in (found, rw (known, own, at_p, here) refl)

  collect-Accounted :
      (ctx : Context) (fresh : Fresh) (id : ℕ) (input : RecordPaymentInput) (t : Tables)
      {done : Recorded × Tables}
      → IsBalanced t.books
      → IsRunning [] t.books.entries
      → collect business_date_for ctx fresh id input t ≡ ok done
      → Accounted id input t done.0 done.1
  collect-Accounted ctx fresh id input t balanced running e =
      let occurred_at = or_else input.occurred_at fresh.now in
      let row = created ctx id occurred_at (business_date_for occurred_at) input in
      let request = received id occurred_at input in
      let (result, posted_row, found, allocated_ok, posted_ok, found_ok, is) =
        collect-Entered ctx fresh id input t e in
      let (_, _, (_, _, _, _, before_is)) =
        append-IsBalanced ctx fresh.entry_id fresh.now request t.books balanced running posted_ok in
      let moved =
        append_moves ctx fresh.entry_id fresh.now request input.amount_paise t.books refl
          posted_ok in
      let covers =
        apply_allocations-Covers input (record t { payments = t.payments ++ row ∷ [] })
          input.allocations allocated_ok in
      subst (λ (w : Recorded × Tables). Accounted id input t w.0 w.1) is
        (covers, refl, moved ∙ rw before_is (omega int_laws))

  pub record_payment-Covers :
      (ctx : Context) (fresh : Fresh) (input : RecordPaymentInput) (t : Tables)
      {found : Payment × List Allocation} {result : AllocationResult} {after : ℤ} {u : Tables}
      → IsBalanced t.books
      → IsRunning [] t.books.entries
      → record_payment business_date_for ctx fresh input t ≡ ok (collected found result after, u)
      → Covers input.amount_paise result
        × (u.allocations
            ≡ t.allocations
              ++ write_allocations (or_else input.id fresh.payment_id) result.allocations)
        × (after ≡ sum_entries input.customer_id t.books.entries -ℤ input.amount_paise)
  unfolding record_payment
  record_payment-Covers ctx fresh input t {found} {result} {after} {u} balanced running e =
      let id = or_else input.id fresh.payment_id in
      let (_, e1) =
        throw_if-ok (is_none ctx.user_id) no_user
          (unless_repeated business_date_for ctx fresh id input t (find_payment id t.payments)) e in
      go id (find_payment id t.payments) e1
    where
      go :
          (id : ℕ) (existing : Option Payment)
          → unless_repeated business_date_for ctx fresh id input t existing
            ≡ ok (collected found result after, u)
          → Accounted id input t (collected found result after) u
      go id none e = collect-Accounted ctx fresh id input t balanced running e
      go id (some p) e =
          let (seen, _, e1) = >>=-eq-ok (find_by_id id t) (λ seen. ok (repeated seen, t)) e in
          absurd (cc (ok-injective e1))
