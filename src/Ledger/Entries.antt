-- ===== src/Ledger/Entries.antt =====
-- Signs of ledger entries and ageing of bills, packages/business-logic/src/ledger/allocation.ts.
use dukaano.Base.{arith, err, inl, inr, ok, refl, ℕ, ◌↔◌, ◌≡◌, ◌≢◌, ◌≤◌, ◌⊎◌}
use dukaano.Base.Int.{int_laws, negsuc, pos, ℤ, ◌+ℤ◌, ◌-ℤ◌, ◌<ℤ◌, ◌≤ℤ◌}
use dukaano.Ledger.{
  AgeingBucket, LedgerEntryType, LedgerSign, ageing_bucket, apply_ledger_entry, credit, current,
  debit, ledger_sign, month1, older, signed_ledger_amount, week2, with_ledger_sign,
}
use dukaano.Money.Errors.{Number, fractional_amount, negative_amount, range_error}

moves :
    (x : LedgerSign) (balance a : ℤ)
    → ((x ≡ debit) × (balance +ℤ with_ledger_sign x a ≡ balance +ℤ a))
      ⊎ ((x ≡ credit) × (balance +ℤ with_ledger_sign x a ≡ balance -ℤ a))
moves debit balance a = inl (refl, refl)
moves credit balance a = inr (refl, omega int_laws)

-- The sign of a ledger amount comes from the entry type alone: a positive magnitude raises the balance by
-- itself if the type is a debit, lowers it by itself if it is a credit, and a magnitude that is negative
-- or not whole is refused for every type.
pub signed_ledger_amount_lem :
    (t : LedgerEntryType) (balance : ℤ) (n : ℕ)
    → ((s : ℤ) × (signed_ledger_amount t (Number.whole (pos n)) ≡ ok s)
        × (((ledger_sign t ≡ debit) × (apply_ledger_entry balance s ≡ balance +ℤ pos n))
            ⊎ ((ledger_sign t ≡ credit) × (apply_ledger_entry balance s ≡ balance -ℤ pos n))))
      × (signed_ledger_amount t (Number.whole (negsuc n)) ≡ err (range_error negative_amount))
      × (signed_ledger_amount t Number.other ≡ err (range_error fractional_amount))
unfolding signed_ledger_amount apply_ledger_entry
signed_ledger_amount_lem t balance n = (
  (with_ledger_sign (ledger_sign t) (pos n), ground arith, moves (ledger_sign t) balance (pos n)),
  ground arith,
  refl,
)

pub signed_ledger_amount-eq-ok :
    (t : LedgerEntryType) (a : ℤ) {s : ℤ}
    → signed_ledger_amount t (Number.whole a) ≡ ok s
    → s ≡ with_ledger_sign (ledger_sign t) a
unfolding signed_ledger_amount
signed_ledger_amount-eq-ok t a e = ground arith

opposite :
    (x y : LedgerSign) (balance a : ℤ)
    → x ≢ y
    → balance +ℤ with_ledger_sign x a +ℤ with_ledger_sign y a ≡ balance
opposite debit debit balance a h = absurd (h refl)
opposite debit credit balance a h = omega int_laws
opposite credit debit balance a h = omega int_laws
opposite credit credit balance a h = absurd (h refl)

-- Each type is undone by a type of the other sign with the same magnitude.
pub apply_ledger_entry_undo :
    (t u : LedgerEntryType) (balance : ℤ) (size : Number) {s r : ℤ}
    → ledger_sign t ≢ ledger_sign u
    → signed_ledger_amount t size ≡ ok s
    → signed_ledger_amount u size ≡ ok r
    → apply_ledger_entry (apply_ledger_entry balance s) r ≡ balance
unfolding apply_ledger_entry
apply_ledger_entry_undo t u balance (Number.whole a) ne e f =
    rw (signed_ledger_amount-eq-ok t a e, signed_ledger_amount-eq-ok u a f)
      (opposite (ledger_sign t) (ledger_sign u) balance a ne)
apply_ledger_entry_undo t u balance Number.other ne e f = unfold signed_ledger_amount in cc

-- days from which a bucket starts
abbrev pub rank : AgeingBucket → ℕ
rank current = 0
rank week2 = 1
rank month1 = 2
rank older = 3

-- The buckets partition the ages at 7, 15 and 30 days, each bound inclusive, and an older bill is never in a younger bucket.
pub ageing_bucket_bounds :
    (a b : ℤ)
    → a ≤ℤ b
    → ((ageing_bucket a ≡ current) ↔ (a ≤ℤ pos 7))
      × ((ageing_bucket a ≡ week2) ↔ ((pos 7 <ℤ a) × (a ≤ℤ pos 15)))
      × ((ageing_bucket a ≡ month1) ↔ ((pos 15 <ℤ a) × (a ≤ℤ pos 30)))
      × ((ageing_bucket a ≡ older) ↔ (pos 30 <ℤ a))
      × (rank (ageing_bucket a) ≤ rank (ageing_bucket b))
unfolding ageing_bucket
ageing_bucket_bounds a b le = (ground arith, ground arith, ground arith, ground arith, ground arith)
