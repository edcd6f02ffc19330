-- ===== src/Khata/Payments/Once.antt =====
-- A payment is reversed once: `reverse` of apps/api/src/modules/khata/payments.service.ts.
use dukaano.Base.{
  >>=-eq-ok, List, Option, [], ap, err, none, not, ok, ok-injective, refl, some, throw_if,
  throw_if-ok, ℕ, ◌++◌, ◌>>=◌, ◌>>◌, ◌∷◌, ◌≡◌,
}
use dukaano.Base.Table.{find_row-changed, find_row-found}
use dukaano.Base.Text.{Text}
use dukaano.Khata.{Books, Context, already_reversed, is_none, not_reversible}
use dukaano.Khata.Payments.{Fresh, Payment, Tables, find_by_id, find_payment}
use dukaano.Khata.Payments.Reverse.{
  append_bounced, is_incoming, mark_reversed, reversal, reverse_found, reverse_payment,
  reversed_tables, undo,
}
use dukaano.Ledger.{Allocation}
use mathlib.Core.Path.{subst}

find_payment-mark_reversed :
    (id by : ℕ) (ps more : List Payment) {p : Payment}
    → find_payment id ps ≡ some p
    → find_payment id (mark_reversed id by (ps ++ more))
      ≡ some (record p { reversed_by_payment_id = some by })
unfolding find_payment mark_reversed
find_payment-mark_reversed id by ps more h =
    find_row-changed Payment.id id _ (ps ++ more) (λ r. refl)
      (find_row-found Payment.id (λ r. r) id ps more h)

undone :
    (ctx : Context) (fresh : Fresh) (id : ℕ) (reason : Text) (t : Tables) (original : Payment)
    {found : Payment × List Allocation} {u : Tables}
    → reverse_found ctx fresh id reason t (some original) ≡ ok (found, u)
    → (seen : Payment × List Allocation) × (books : Books) × (reversed_tables ctx fresh id original
          reason books t
        ≡ u)
undone ctx fresh id reason t original {found} {u} e =
    let rest = undo ctx fresh id original reason t in
    let after : Books → Tables = λ books. reversed_tables ctx fresh id original reason books t in
    let (_, e1) =
      throw_if-ok (not (is_none original.reversed_by_payment_id)) already_reversed
        (throw_if (not (is_incoming original.direction)) not_reversible >> rest) e in
    let (_, e2) = throw_if-ok (not (is_incoming original.direction)) not_reversible rest e1 in
    let (books, _, e3) =
      >>=-eq-ok (append_bounced ctx fresh original reason original.customer_id t.books)
        (λ books. find_by_id fresh.payment_id (after books) >>= λ found. ok (found, after books))
        e2 in
    let (seen, _, e4) =
      >>=-eq-ok (find_by_id fresh.payment_id (after books)) (λ found. ok (found, after books)) e3 in
    (seen, books, ap (λ (w : (Payment × List Allocation) × Tables). w.1) (ok-injective e4))

-- A reversal that went through is the only one: the payment is there with the identifier of its reversal,
-- and reversing it again, for any reason, is refused.
pub reverse_payment_once :
    (ctx again : Context) (fresh later : Fresh) (id : ℕ) (reason other_reason : Text) (t : Tables)
    {found : Payment × List Allocation} {u : Tables}
    → reverse_payment ctx fresh id reason t ≡ ok (found, u)
    → ((p : Payment) × (find_payment id u.payments ≡ some p)
        × (p.reversed_by_payment_id ≡ some fresh.payment_id))
      × (reverse_payment again later id other_reason u ≡ err already_reversed)
unfolding reverse_payment
reverse_payment_once ctx again fresh later id reason other_reason t {found} {u} e =
    go (find_payment id t.payments) refl e
  where
    go :
        (o : Option Payment)
        → find_payment id t.payments ≡ o
        → reverse_found ctx fresh id reason t o ≡ ok (found, u)
        → ((p : Payment) × (find_payment id u.payments ≡ some p)
            × (p.reversed_by_payment_id ≡ some fresh.payment_id))
          × (reverse_found again later id other_reason u (find_payment id u.payments)
              ≡ err already_reversed)
    go none at e = absurd (cc e)
    go (some original) at e =
        let row = reversal ctx fresh original reason in
        let (seen, books, is) = undone ctx fresh id reason t original e in
        let marked = find_payment-mark_reversed id fresh.payment_id t.payments (row ∷ []) at in
        let there : find_payment id u.payments
            ≡ some (record original { reversed_by_payment_id = some fresh.payment_id }) =
          subst
            (λ (w : Tables).
              find_payment id w.payments
              ≡ some (record original { reversed_by_payment_id = some fresh.payment_id }))
            is marked in
        (
          (record original { reversed_by_payment_id = some fresh.payment_id }, there, refl),
          rw there refl,
        )
