-- ===== src/Sales/Refunded.antt =====
-- The rows of money of a bill whose payments are refunded by `cancel` of
-- apps/api/src/modules/sales/sales.service.ts.
use dukaano.Base.{
  Bool-cases, List, [], ap, arith, inl, inr, refl, some, true, ℕ, ◌++◌, ◌+◌, ◌==◌, ◌∙◌, ◌∷◌, ◌≡◌,
}
use dukaano.Base.Int.{+ℤ_assoc, int_laws, pos, ℤ, ◌+ℤ◌}
use dukaano.Base.Sort.{total_by, total_by-append}
use dukaano.Base.Table.{total_by-change_rows}
use dukaano.Base.Text.{Text}
use dukaano.Khata.{Context}
use dukaano.Khata.Payments.{Payment}
use dukaano.Khata.Payments.Reverse.{mark_reversed}
use dukaano.Sales.{Draws, SaleRow}
use dukaano.Sales.Cancel.{is_refundable, refund_all, refund_row, refundable_of}
use dukaano.Sales.Keeps.{in_amount, out_amount, refundable_amount}

-- The mark of a reversal changes no amount.
total_by-mark_reversed :
    (amount : Payment → ℤ) (id by : ℕ) (ps : List Payment)
    → ((p : Payment) → amount (record p { reversed_by_payment_id = some by }) ≡ amount p)
    → total_by amount (mark_reversed id by ps) ≡ total_by amount ps
unfolding mark_reversed
total_by-mark_reversed amount id by ps h = total_by-change_rows Payment.id amount id _ ps h

pub refund_all_out :
    (ctx : Context) (draws : Draws) (k : ℕ) (s : SaleRow) (reason : Text)
    (refunded ps : List Payment)
    → total_by (out_amount s.id) (refund_all ctx draws k s reason refunded ps)
      ≡ total_by (out_amount s.id) ps +ℤ total_by (λ (p : Payment). p.amount_paise) refunded
unfolding refund_all
refund_all_out ctx draws k s reason [] ps = omega int_laws
refund_all_out ctx draws k s reason (p ∷ refunded) ps =
    let id = draws.payment_id k in
    let row = refund_row ctx draws id s reason p in
    let own : (s.id == s.id) ≡ true = ground arith in
    let here : out_amount s.id row ≡ p.amount_paise = rw own refl in
    let one : total_by (out_amount s.id) (mark_reversed p.id id (ps ++ row ∷ []))
        ≡ total_by (out_amount s.id) ps +ℤ p.amount_paise =
      total_by-mark_reversed (out_amount s.id) p.id id (ps ++ row ∷ []) (λ q. refl)
      ∙ total_by-append (out_amount s.id) ps (row ∷ [])
      ∙ rw here (omega int_laws) in
    refund_all_out ctx draws (k + 1) s reason refunded (mark_reversed p.id id (ps ++ row ∷ []))
    ∙ ap (λ x. x +ℤ total_by (λ (p : Payment). p.amount_paise) refunded) one
    ∙ +ℤ_assoc (total_by (out_amount s.id) ps) p.amount_paise
        (total_by (λ (p : Payment). p.amount_paise) refunded)

pub refund_all_in :
    (ctx : Context) (draws : Draws) (k : ℕ) (s : SaleRow) (reason : Text)
    (refunded ps : List Payment)
    → total_by (in_amount s.id) (refund_all ctx draws k s reason refunded ps)
      ≡ total_by (in_amount s.id) ps
unfolding refund_all
refund_all_in ctx draws k s reason [] ps = refl
refund_all_in ctx draws k s reason (p ∷ refunded) ps =
    let id = draws.payment_id k in
    let row = refund_row ctx draws id s reason p in
    let nothing : in_amount s.id row ≡ pos 0 = elim (Bool-cases (s.id == s.id)) [
      | inl e ↦ rw e refl
      | inr e ↦ rw e refl
    ] in
    refund_all_in ctx draws (k + 1) s reason refunded (mark_reversed p.id id (ps ++ row ∷ []))
    ∙ total_by-mark_reversed (in_amount s.id) p.id id (ps ++ row ∷ []) (λ q. refl)
    ∙ total_by-append (in_amount s.id) ps (row ∷ [])
    ∙ rw nothing (omega int_laws)

pub refundable_of_sum :
    (id : ℕ) (ps : List Payment)
    → total_by (λ (p : Payment). p.amount_paise) (refundable_of id ps)
      ≡ total_by (refundable_amount id) ps
unfolding refundable_of
refundable_of_sum id [] = refl
refundable_of_sum id (p ∷ ps) = elim (Bool-cases (is_refundable id p)) [
  | inl e ↦ rw e (ap (λ x. p.amount_paise +ℤ x) (refundable_of_sum id ps))
  | inr e ↦ rw e (refundable_of_sum id ps ∙ omega int_laws)
]
