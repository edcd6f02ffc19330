-- ===== src/Khata/Rows.antt =====
-- Rows of balances and sums of entries, apps/api/src/modules/khata/ledger.service.ts.
use dukaano.Base.{
  ==_iff, List, Option-cases, Result, err, if◌then◌else◌, inl, inr, ok, or_else, refl, some, ℕ,
  ◌==◌, ◌>>=◌, ◌≡◌,
}
use dukaano.Base.Int.{pos, ℤ}
use dukaano.Base.Table.{find_row-append, find_row-change_rows, find_row-new}
use dukaano.Khata.{
  CustomerBalance, Fault, find_balance, lock_balance, new_balance, passing, update_balance,
}
use dukaano.Money.Errors.{Throws}

-- After the lock there is a row with the balance that was read, and no other balance has moved.
pub lock_balance_lem :
    (c : ℕ) (bs : List CustomerBalance)
    → ((lock_balance c bs).0 ≡ or_else (find_balance c bs) (pos 0))
      × ((v : ℤ) × (find_balance c (lock_balance c bs).1 ≡ some v))
      × ((d : ℕ)
          → or_else (find_balance d (lock_balance c bs).1) (pos 0)
            ≡ or_else (find_balance d bs) (pos 0))
unfolding lock_balance find_balance
lock_balance_lem c bs = elim (Option-cases (find_balance c bs)) [
  | inl absent ↦ rw absent (
    refl,
    find_row-new CustomerBalance.customer_id CustomerBalance.outstanding_paise c (new_balance c) bs
        ((==_iff c c).1 refl),
    (λ d.
        find_row-append CustomerBalance.customer_id CustomerBalance.outstanding_paise d
          (new_balance c) bs),
  )
  | inr (v, found) ↦ rw found (refl, (v, found), (λ d. refl))
]

pub find_balance-update_balance :
    (c d : ℕ) (after : ℤ) (id : ℕ) (now : ℤ) (bs : List CustomerBalance) {v : ℤ}
    → find_balance c bs ≡ some v
    → or_else (find_balance d (update_balance c after id now bs)) (pos 0)
      ≡ (if c == d then after else or_else (find_balance d bs) (pos 0))
unfolding find_balance update_balance
find_balance-update_balance c d after id now bs h =
    find_row-change_rows CustomerBalance.customer_id CustomerBalance.outstanding_paise c _
      (λ r. refl) (pos 0) d bs (λ r. refl) h

pub signed_ledger_amount_of :
    {A B : Type 0} (m : Throws A) (next : A → Result Fault B) {b : B}
    → (passing m >>= next) ≡ ok b
    → (a : A) × (m ≡ ok a) × (next a ≡ ok b)
signed_ledger_amount_of (ok a) next e = (a, refl, e)
signed_ledger_amount_of (err x) next e = cc
