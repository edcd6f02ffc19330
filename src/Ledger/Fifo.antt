-- ===== src/Ledger/Fifo.antt =====
-- `allocateFifo` of packages/business-logic/src/ledger/allocation.ts against a description of how a
-- payment clears bills.
use dukaano.Base.{
  List, [], ap, arith, false, inl, inr, ok, refl, suc, sym, true, zero, ℕ, ◌+◌, ◌-◌, ◌<◌, ◌∙◌, ◌∷◌,
  ◌≡◌,
}
use dukaano.Base.Int.{eqb_ℤ, int_laws, leb_ℤ, one_part, pos, pos_part, sign-cases, ◌+ℤ◌, ◌-ℤ◌, ◌≤ℤ◌}
use dukaano.Ledger.{Allocation, AllocationResult, OpenBill, allocate_fifo, clear}
use dukaano.Money.Arithmetic.{min_paise}
use dukaano.Money.Errors.{Number}
use mathlib.Core.Path.{subst}
use native.Mathlib.Decide.{dec_le}
use native.Mathlib.Nat.{add-zero}

-- What a bill asks for: nothing, if it is not open.
abbrev pub owed : List OpenBill → ℕ
owed [] = 0
owed (b ∷ bills) = pos_part b.outstanding_paise + owed bills

abbrev pub applied : List Allocation → ℕ
applied [] = 0
applied (a ∷ rows) = pos_part a.amount_paise + applied rows

-- A payment of `n` clears the bills oldest first: each open bill in full while the money lasts, the
-- next one in part, and none behind it. Bills that are not open are passed over.
pub data Clears : ℕ → List OpenBill → List Allocation → ℕ → Type 0 where
  no_bills : {n : ℕ} → Clears n [] [] n
  no_money : {bills : List OpenBill} → Clears 0 bills [] 0
  closed :
      {n m : ℕ} {b : OpenBill} {bills : List OpenBill} {rows : List Allocation}
      → b.outstanding_paise ≤ℤ pos 0
      → Clears n bills rows m
      → Clears n (b ∷ bills) rows m
  in_full :
      {n m due : ℕ} {b : OpenBill} {bills : List OpenBill} {rows : List Allocation}
      → 0 < due
      → b.outstanding_paise ≡ pos due
      → Clears n bills rows m
      → Clears
          (due + n)
          (b ∷ bills)
          (record { sale_id = b.sale_id; amount_paise = pos due } ∷ rows)
          m
  in_part :
      {n due : ℕ} {b : OpenBill} {bills : List OpenBill}
      → 0 < n
      → n < due
      → b.outstanding_paise ≡ pos due
      → Clears n (b ∷ bills) (record { sale_id = b.sale_id; amount_paise = pos n } ∷ []) 0

-- What the loop has done, from a payment of `n`.
record HasCleared (n : ℕ) (bills : List OpenBill) (r : AllocationResult) : Type 0 where
  left : ℕ
  left_is : r.unallocated_paise ≡ pos left
  clears : Clears n bills r.allocations left

clear_none :
    (bills : List OpenBill)
    → clear (pos 0) bills ≡ record { allocations = []; unallocated_paise = pos 0 }
unfolding clear
clear_none [] = refl
clear_none (b ∷ bills) = refl

abbrev paid : OpenBill → ℕ → Allocation
paid b n = record { sale_id = b.sale_id; amount_paise = pos n }

clear_closed :
    (n : ℕ) (b : OpenBill) (bills : List OpenBill)
    → b.outstanding_paise ≤ℤ pos 0
    → clear (pos (suc n)) (b ∷ bills) ≡ clear (pos (suc n)) bills
unfolding clear
clear_closed n b bills h =
    let some_left : eqb_ℤ (pos (suc n)) (pos 0) ≡ false = ground arith in
    let shut : leb_ℤ b.outstanding_paise (pos 0) ≡ true = ground arith in rw (some_left, shut)

-- One round on an open bill, where `n` is what the bill is paid and `k` what is left.
clear_open :
    (n k : ℕ) (b : OpenBill) (bills : List OpenBill) {due : ℕ}
    → 0 < n + k
    → b.outstanding_paise ≡ pos due
    → 0 < due
    → min_paise (pos (n + k)) (pos due) ≡ pos n
    → clear (pos (n + k)) (b ∷ bills) ≡ record {
      allocations = paid b n ∷ (clear (pos k) bills).allocations;
      unallocated_paise = (clear (pos k) bills).unallocated_paise;
    }
unfolding clear
clear_open n k b bills {due} positive e p m =
    let some_left : eqb_ℤ (pos (n + k)) (pos 0) ≡ false = ground arith in
    let open_bill : leb_ℤ (pos due) (pos 0) ≡ false = ground arith in
    let left : pos (n + k) -ℤ pos n ≡ pos k = omega int_laws in
    rw (some_left, e, open_bill, m, left)

min_paise_full : (due k : ℕ) → min_paise (pos (due + k)) (pos due) ≡ pos due
unfolding min_paise
min_paise_full due k = ground arith

min_paise_part : (n due : ℕ) → n < due → min_paise (pos (n + 0)) (pos due) ≡ pos n
unfolding min_paise
min_paise_part n due h = ground arith

HasCleared-closed :
    (n : ℕ) (b : OpenBill) (bills : List OpenBill)
    → b.outstanding_paise ≤ℤ pos 0
    → HasCleared (suc n) bills (clear (pos (suc n)) bills)
    → HasCleared (suc n) (b ∷ bills) (clear (pos (suc n)) (b ∷ bills))
HasCleared-closed n b bills h c =
    subst (HasCleared (suc n) (b ∷ bills)) (sym (clear_closed n b bills h))
      (record { left = c.left; left_is = c.left_is; clears = closed h c.clears })

HasCleared-in_full :
    (due k : ℕ) (b : OpenBill) (bills : List OpenBill)
    → b.outstanding_paise ≡ pos due
    → 0 < due
    → HasCleared k bills (clear (pos k) bills)
    → HasCleared (due + k) (b ∷ bills) (clear (pos (due + k)) (b ∷ bills))
HasCleared-in_full due k b bills e p c =
    subst (HasCleared (due + k) (b ∷ bills))
      (sym (clear_open due k b bills (omega arith) e p (min_paise_full due k)))
      (record { left = c.left; left_is = c.left_is; clears = in_full p e c.clears })

HasCleared-in_part :
    (n due : ℕ) (b : OpenBill) (bills : List OpenBill)
    → b.outstanding_paise ≡ pos due
    → 0 < n
    → n < due
    → HasCleared n (b ∷ bills) (clear (pos n) (b ∷ bills))
HasCleared-in_part n due b bills e p h =
    let paid_all : clear (pos n) (b ∷ bills)
        ≡ record { allocations = paid b n ∷ []; unallocated_paise = pos 0 } =
      subst
        (λ k.
          clear (pos k) (b ∷ bills)
          ≡ record { allocations = paid b n ∷ []; unallocated_paise = pos 0 })
        (add-zero n)
        (clear_open n 0 b bills (omega arith) e (omega arith) (min_paise_part n due h)
          ∙ rw (clear_none bills)) in
    subst (HasCleared n (b ∷ bills)) (sym paid_all)
      (record { left = 0; left_is = refl; clears = in_part p h e })

clear-HasCleared : (bills : List OpenBill) (n : ℕ) → HasCleared n bills (clear (pos n) bills)
clear-HasCleared [] n = unfold clear in record { left = n; left_is = refl; clears = no_bills }
clear-HasCleared (b ∷ bills) zero =
    subst (HasCleared 0 (b ∷ bills)) (sym (clear_none (b ∷ bills)))
      (record { left = 0; left_is = refl; clears = no_money })
clear-HasCleared (b ∷ bills) (suc n) = elim (sign-cases b.outstanding_paise) [
  | inr h ↦ HasCleared-closed n b bills h (clear-HasCleared bills (suc n))
  | inl (due, e, p) ↦ elim (dec_le due (suc n)) [
    | yes covered ↦
        let whole_is : due + (suc n - due) ≡ suc n = omega arith in
        subst (λ k. HasCleared k (b ∷ bills) (clear (pos k) (b ∷ bills))) whole_is
          (HasCleared-in_full due (suc n - due) b bills e p (clear-HasCleared bills (suc n - due)))
    | no short ↦ HasCleared-in_part (suc n) due b bills e (omega arith) (omega arith)
  ]
]

allocate_fifo_is :
    (n : ℕ) (bills : List OpenBill)
    → allocate_fifo (Number.whole (pos n)) bills ≡ ok (clear (pos n) bills)
unfolding allocate_fifo
allocate_fifo_is n bills = ground arith

-- A payment that is not negative is always allocated: it clears the bills oldest first, and what is
-- left when they are all cleared is returned as the advance.
pub allocate_fifo-Clears :
    (n : ℕ) (bills : List OpenBill)
    → (r : AllocationResult) × (left : ℕ) × (allocate_fifo (Number.whole (pos n)) bills ≡ ok r)
      × (r.unallocated_paise ≡ pos left)
      × Clears n bills r.allocations left
allocate_fifo-Clears n bills =
    let c = clear-HasCleared bills n in
    (clear (pos n) bills, c.left, allocate_fifo_is n bills, c.left_is, c.clears)

pub Clears-totals :
    {n m : ℕ} {bills : List OpenBill} {rows : List Allocation}
    → Clears n bills rows m
    → (applied rows + m ≡ n) × (m ≡ n - owed bills)
Clears-totals no_bills = omega arith
Clears-totals no_money = omega arith
Clears-totals (closed {b = b} h c) = omega (arith, Clears-totals c, one_part b.outstanding_paise)
Clears-totals (in_full {n} {due = due} {b} p e c) = omega (arith, Clears-totals c, ap pos_part e)
Clears-totals (in_part {n} {due} p h e) = omega (arith, ap pos_part e)

-- No paisa is lost: the amounts applied to bills and the advance add up to the payment, and the
-- advance is exactly what the payment exceeds the open bills by.
pub allocate_fifo_totals :
    (n : ℕ) (bills : List OpenBill) {r : AllocationResult}
    → allocate_fifo (Number.whole (pos n)) bills ≡ ok r
    → (pos (applied r.allocations) +ℤ r.unallocated_paise ≡ pos n)
      × (r.unallocated_paise ≡ pos (n - owed bills))
allocate_fifo_totals n bills {r} e =
    let is : clear (pos n) bills ≡ r = cc (allocate_fifo_is n bills) in
    let c = subst (HasCleared n bills) is (clear-HasCleared bills n) in
    let (sums, left_is) = Clears-totals c.clears in
    (rw c.left_is (omega int_laws), c.left_is ∙ ap pos left_is)
