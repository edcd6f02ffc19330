-- ===== src/Sales/Charged.antt =====
-- What an entry of the sales or the returns service adds to the ledger, apps/api/src/modules/sales.
use dukaano.Base.{
  >>=-eq-ok, Bool, Bool-cases, Option, [], ap, arith, false, if◌then◌else◌, inl, inr, map_err-ok,
  none, ok, ok-injective, refl, some, sym, true, ℕ, ◌==◌, ◌∙◌, ◌≡◌,
}
use dukaano.Base.Int.{int_laws, ltb_ℤ, neg, pos, ℤ, ◌+ℤ◌, ◌≤ℤ◌}
use dukaano.Khata.{Books, Context, LedgerEntryResult, Request, append, sum_entries}
use dukaano.Khata.Balance.{IsBalanced, IsRunning, append-IsBalanced, append_sums}
use dukaano.Ledger.{LedgerEntryType, LedgerSign, credit, debit, ledger_sign, with_ledger_sign}
use dukaano.Money.Errors.{Number}
use dukaano.Sales.{in_ledger}
use dukaano.Sales.Rows.{append_for}
use mathlib.Core.Path.{ap₂, subst}

-- Books in order: the balances are the sums of the entries, and every entry is stamped with its sum.
abbrev pub AreKept : Books → Type 0
AreKept books = IsBalanced books × IsRunning [] books.entries

abbrev pub owed_by : ℕ → Option ℕ → ℤ → ℤ
owed_by c none amount = pos 0
owed_by c (some customer) amount = if customer == c then amount else pos 0

abbrev pub Charged : Option ℕ → ℤ → Books → Books → Type 0
Charged customer amount books after =
    (AreKept books → AreKept after)
    × ((c : ℕ)
        → sum_entries c after.entries ≡ sum_entries c books.entries +ℤ owed_by c customer amount)

with_ledger_sign_zero : (s : LedgerSign) → with_ledger_sign s (pos 0) ≡ pos 0
unfolding neg
with_ledger_sign_zero debit = refl
with_ledger_sign_zero credit = refl

nothing_owed : (test : Bool) (a : ℤ) → a +ℤ (if test then pos 0 else pos 0) ≡ a
nothing_owed true a = omega int_laws
nothing_owed false a = omega int_laws

-- An amount above zero is one entry in the customer's ledger.
append-Charged :
    (ctx : Context) (id : ℕ) (now amount : ℤ) (type : LedgerEntryType) (r : Request) (k : ℕ)
    (books : Books) {done : LedgerEntryResult × Books}
    → r.magnitude_paise ≡ Number.whole amount
    → r.customer_id ≡ k
    → r.entry_type ≡ type
    → append ctx id now r books ≡ ok done
    → Charged (some k) (with_ledger_sign (ledger_sign type) amount) books done.1
append-Charged ctx id now amount type r k books whole_amount own type_is run = (
  (λ (balanced, running).
      let (balanced', running', _) = append-IsBalanced ctx id now r books balanced running run in
      (balanced', running')),
  (λ c.
      append_sums ctx id now r amount books c whole_amount run
      ∙ ap₂
          (λ x y.
            sum_entries c books.entries
            +ℤ (if x == c then with_ledger_sign (ledger_sign y) amount else pos 0))
          own type_is),
)

-- No amount is no entry.
nothing-Charged :
    (amount : ℤ) (type : LedgerEntryType) (k : ℕ) (books : Books)
    → amount ≡ pos 0
    → Charged (some k) (with_ledger_sign (ledger_sign type) amount) books books
nothing-Charged amount type k books zero_amount =
    let still : with_ledger_sign (ledger_sign type) amount ≡ pos 0 =
      ap (with_ledger_sign (ledger_sign type)) zero_amount
      ∙ with_ledger_sign_zero (ledger_sign type) in
    (
      (λ h. h),
      (λ c. sym (
          ap (λ x. sum_entries c books.entries +ℤ (if k == c then x else pos 0)) still
          ∙ nothing_owed (k == c) (sum_entries c books.entries))),
    )

pub append_for-Charged :
    (ctx : Context) (id : ℕ) (now amount : ℤ) (type : LedgerEntryType) (request : ℕ → Request)
    (customer : Option ℕ) (books : Books) {after : Books}
    → ((c : ℕ)
        → ((request c).magnitude_paise ≡ Number.whole amount)
          × ((request c).customer_id ≡ c)
          × ((request c).entry_type ≡ type))
    → pos 0 ≤ℤ amount
    → append_for ctx id now amount request customer books ≡ ok after
    → Charged customer (with_ledger_sign (ledger_sign type) amount) books after
append_for-Charged ctx id now amount type request none books shape nonneg e =
    subst (Charged none (with_ledger_sign (ledger_sign type) amount) books) (ok-injective e)
      ((λ h. h), (λ c. omega int_laws))
append_for-Charged ctx id now amount type request (some k) books {after} shape nonneg e =
    let By = Charged (some k) (with_ledger_sign (ledger_sign type) amount) books in
    elim (Bool-cases (ltb_ℤ (pos 0) amount)) [
      | inl positive ↦
          let (result, e0, e1) = >>=-eq-ok _ _ (rw positive at e) in
          let (whole_amount, own, type_is) = shape k in
          subst By (ok-injective e1) (
            append-Charged ctx id now amount type (request k) k books whole_amount own type_is
              (map_err-ok in_ledger _ e0))
      | inr nothing ↦
          subst By (ok-injective (rw nothing at e))
            (nothing-Charged amount type k books (ground (arith, nothing, nonneg)))
    ]
