-- ===== src/Khata/Balance.antt =====
-- The balances of apps/api/src/modules/khata/ledger.service.ts and the entries behind them.
use dukaano.Base.{
  ==_iff, Bool-cases, List, [], ap, arith, if◌then◌else◌, inl, inr, not, ok, ok-injective, or_else,
  refl, sym, throw_if-ok, true, ℕ, ◌&&◌, ◌++◌, ◌==◌, ◌∙◌, ◌∷◌, ◌≡◌,
}
use dukaano.Base.Int.{int_laws, pos, ℤ, ◌+ℤ◌}
use dukaano.Base.Table.{sum_rows-one}
use dukaano.Khata.{
  Books, Context, Entry, LedgerEntryResult, Request, append, find_balance, has_text, is_none,
  lock_balance, no_tenant, post, posted, reason_required, sum_entries,
}
use dukaano.Khata.Rows.{find_balance-update_balance, lock_balance_lem, signed_ledger_amount_of}
use dukaano.Ledger.{
  apply_ledger_entry, ledger_entry_requires_reason, ledger_sign, signed_ledger_amount,
  with_ledger_sign,
}
use dukaano.Ledger.Entries.{signed_ledger_amount-eq-ok}
use dukaano.Money.Errors.{Number}
use mathlib.Core.List.{append-nil, append_assoc}
use mathlib.Core.Path.{subst}

-- Every balance is the sum of the customer's entries, and a customer without a balance has no sum.
abbrev pub IsBalanced : Books → Type 0
IsBalanced books =
    (c : ℕ) → or_else (find_balance c books.balances) (pos 0) ≡ sum_entries c books.entries

-- The balance stamped on each entry is the sum of the customer's entries up to it.
abbrev pub IsRunning : List Entry → List Entry → Type 0
IsRunning before [] = Unit
IsRunning before (e ∷ es) =
    (e.balance_after_paise ≡ sum_entries e.customer_id (before ++ e ∷ []))
    × IsRunning (before ++ e ∷ []) es

IsRunning-append :
    (before es : List Entry) (e : Entry)
    → IsRunning before es
    → e.balance_after_paise ≡ sum_entries e.customer_id ((before ++ es) ++ e ∷ [])
    → IsRunning before (es ++ e ∷ [])
IsRunning-append before [] e r h =
    (h ∙ ap (λ t. sum_entries e.customer_id (t ++ e ∷ [])) (append-nil before), tt)
IsRunning-append before (f ∷ es) e r h = (
  r.0,
  IsRunning-append (before ++ f ∷ []) es e r.1 (
      h
      ∙ ap (λ t. sum_entries e.customer_id (t ++ e ∷ [])) (sym (append_assoc before (f ∷ []) es))),
)

-- An entry that is appended was posted with the signed amount of its type.
pub append-post :
    (ctx : Context) (id : ℕ) (now : ℤ) (r : Request) (books : Books)
    {result : LedgerEntryResult × Books}
    → append ctx id now r books ≡ ok result
    → (signed : ℤ) × (signed_ledger_amount r.entry_type r.magnitude_paise ≡ ok signed)
      × (post ctx id now r signed books ≡ result)
unfolding append
append-post ctx id now r books e =
    let (_, e1) = throw_if-ok (is_none ctx.shop_id) no_tenant _ e in
    let (_, e2) =
      throw_if-ok (ledger_entry_requires_reason r.entry_type && not (has_text r.reason))
        (reason_required r.entry_type) _ e1 in
    let (signed, s, e3) =
      signed_ledger_amount_of (signed_ledger_amount r.entry_type r.magnitude_paise)
        (λ a. ok (post ctx id now r a books)) e2 in
    (signed, s, ok-injective e3)

sum_entries-one :
    (d : ℕ) (es : List Entry) (e : Entry)
    → sum_entries d (es ++ e ∷ [])
      ≡ (if e.customer_id == d then sum_entries d es +ℤ e.amount_paise else sum_entries d es)
unfolding sum_entries
sum_entries-one = sum_rows-one Entry.customer_id Entry.amount_paise

post-IsBalanced :
    (ctx : Context) (id : ℕ) (now : ℤ) (r : Request) (signed : ℤ) (books : Books)
    → IsBalanced books
    → IsBalanced (post ctx id now r signed books).1
unfolding post apply_ledger_entry
post-IsBalanced ctx id now r signed books h d =
    let c = r.customer_id in
    let (before_is, (v, found), others) = lock_balance_lem c books.balances in
    let after = (lock_balance c books.balances).0 +ℤ signed in
    let entry = posted ctx id now r signed after in
    let moved =
      find_balance-update_balance c d after id now (lock_balance c books.balances).1 found in
    let summed = sum_entries-one d books.entries entry in
    elim (Bool-cases (c == d)) [
      | inl same ↦
          let is : (lock_balance c books.balances).0 ≡ sum_entries d books.entries =
            before_is ∙ h c ∙ ap (λ x. sum_entries x books.entries) ((==_iff c d).0 same) in
          rw (moved, summed, same, is) refl
      | inr other ↦ rw (moved, summed, other) (others d ∙ h d)
    ]

post-IsRunning :
    (ctx : Context) (id : ℕ) (now : ℤ) (r : Request) (signed : ℤ) (books : Books)
    → IsBalanced books
    → IsRunning [] books.entries
    → IsRunning [] (post ctx id now r signed books).1.entries
unfolding post apply_ledger_entry
post-IsRunning ctx id now r signed books h running =
    let c = r.customer_id in
    let (before_is, _, _) = lock_balance_lem c books.balances in
    let after = (lock_balance c books.balances).0 +ℤ signed in
    let entry = posted ctx id now r signed after in
    let own : (c == c) ≡ true = ground arith in
    IsRunning-append [] books.entries entry running
      (rw (sum_entries-one c books.entries entry, own, before_is, h c) refl)

-- What an append has to leave behind.
abbrev pub Appended : Request → Books → LedgerEntryResult × Books → Type 0
Appended r books result =
    IsBalanced result.1
    × IsRunning [] result.1.entries
    × ((e : Entry) × (result.1.entries ≡ books.entries ++ e ∷ [])
        × (e.customer_id ≡ r.customer_id)
        × (e.balance_after_paise ≡ result.0.balance_before_paise +ℤ e.amount_paise)
        × (result.0.balance_before_paise ≡ sum_entries r.customer_id books.entries))

-- Appending an entry keeps the books in order: the entries before it stay as they are, the balances are
-- still the sums of the entries, and the entry is stamped with the sum up to it.
pub append-IsBalanced :
    (ctx : Context) (id : ℕ) (now : ℤ) (r : Request) (books : Books)
    {result : LedgerEntryResult × Books}
    → IsBalanced books
    → IsRunning [] books.entries
    → append ctx id now r books ≡ ok result
    → Appended r books result
unfolding post apply_ledger_entry
append-IsBalanced ctx id now r books h running e =
    let (signed, _, is) = append-post ctx id now r books e in
    let (before_is, _, _) = lock_balance_lem r.customer_id books.balances in
    subst (Appended r books) is (
      post-IsBalanced ctx id now r signed books h,
      post-IsRunning ctx id now r signed books h running,
      (
        posted ctx id now r signed ((lock_balance r.customer_id books.balances).0 +ℤ signed),
        refl,
        refl,
        refl,
        before_is ∙ h r.customer_id,
      ),
    )

-- The answer of an append: the balance read under the lock, moved by the signed amount.
pub append_moves :
    (ctx : Context) (id : ℕ) (now : ℤ) (r : Request) (a : ℤ) (books : Books)
    {result : LedgerEntryResult × Books}
    → r.magnitude_paise ≡ Number.whole a
    → append ctx id now r books ≡ ok result
    → result.0.balance_after_paise
      ≡ result.0.balance_before_paise +ℤ with_ledger_sign (ledger_sign r.entry_type) a
unfolding post apply_ledger_entry
append_moves ctx id now r a books whole_a e =
    let (signed, signed_ok, is) = append-post ctx id now r books e in
    let signed_is =
      signed_ledger_amount-eq-ok r.entry_type a
        (subst (λ m. signed_ledger_amount r.entry_type m ≡ ok signed) whole_a signed_ok) in
    subst
      (λ (w : LedgerEntryResult × Books).
        w.0.balance_after_paise
        ≡ w.0.balance_before_paise +ℤ with_ledger_sign (ledger_sign r.entry_type) a)
      is (ap (λ s. (lock_balance r.customer_id books.balances).0 +ℤ s) signed_is)

-- What an entry that is appended adds to the sum of each customer.
pub append_sums :
    (ctx : Context) (id : ℕ) (now : ℤ) (r : Request) (a : ℤ) (books : Books)
    {result : LedgerEntryResult × Books} (c : ℕ)
    → r.magnitude_paise ≡ Number.whole a
    → append ctx id now r books ≡ ok result
    → sum_entries c result.1.entries
      ≡ sum_entries c books.entries
        +ℤ (if r.customer_id == c then with_ledger_sign (ledger_sign r.entry_type) a else pos 0)
unfolding post apply_ledger_entry
append_sums ctx id now r a books {result} c whole_a e =
    let (signed, signed_ok, is) = append-post ctx id now r books e in
    let signed_is =
      signed_ledger_amount-eq-ok r.entry_type a
        (subst (λ m. signed_ledger_amount r.entry_type m ≡ ok signed) whole_a signed_ok) in
    let entry =
      posted ctx id now r signed ((lock_balance r.customer_id books.balances).0 +ℤ signed) in
    let added : sum_entries c (books.entries ++ entry ∷ [])
        ≡ sum_entries c books.entries +ℤ (if r.customer_id == c then signed else pos 0) =
      sum_entries-one c books.entries entry ∙ elim (Bool-cases (r.customer_id == c)) [
        | inl same ↦ rw same refl
        | inr other ↦ rw other (omega int_laws)
      ] in
    subst
      (λ (w : LedgerEntryResult × Books).
        sum_entries c w.1.entries
        ≡ sum_entries c books.entries
          +ℤ (if r.customer_id == c then with_ledger_sign (ledger_sign r.entry_type) a else pos 0))
      is
      (added
        ∙ ap (λ s. sum_entries c books.entries +ℤ (if r.customer_id == c then s else pos 0))
            signed_is)
