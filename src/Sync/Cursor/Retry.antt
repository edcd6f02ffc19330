-- ===== src/Sync/Cursor/Retry.antt =====
-- The retry schedule and the bootstrap decision of packages/business-logic/src/sync/cursor.ts.
use dukaano.Base.{
  Bool-cases, Option, [], ap, arith, false, get_elem?, inl, inr, none, or_else, refl, some, suc,
  zero, ℕ, ◌+◌, ◌-◌, ◌↔◌, ◌∷◌, ◌≡◌, ◌≤◌,
}
use dukaano.Base.Int.{
  int_laws, leb_ℤ, leb_ℤ-gt, leb_ℤ-le, pos, pos_part, ℤ, ◌*ℤ◌, ◌+ℤ◌, ◌-ℤ◌, ◌<ℤ◌, ◌≤ℤ◌,
}
use dukaano.Base.Text.{Text}
use dukaano.Sync.Cursor.{
  BootstrapDecision, backoff_delay_ms, bootstrap, change_log_retention_days, cursor_expired,
  decide_bootstrap, decide_by_age, no_cursor, sync_backoff_cap_ms, sync_backoff_ms,
}
use mathlib.Core.Path.{subst}
use native.Mathlib.Nat.{add-suc, add-zero}

abbrev delay_at : ℕ → ℕ
delay_at i = or_else (get_elem? sync_backoff_ms i) sync_backoff_cap_ms

delay_at-suc :
    (i : ℕ)
    → (1_000 ≤ delay_at i) × (delay_at i ≤ delay_at (suc i)) × (delay_at i ≤ sync_backoff_cap_ms)
delay_at-suc zero = omega arith
delay_at-suc (suc zero) = omega arith
delay_at-suc (suc (suc zero)) = omega arith
delay_at-suc (suc (suc (suc zero))) = omega arith
delay_at-suc (suc (suc (suc (suc zero)))) = omega arith
delay_at-suc (suc (suc (suc (suc (suc zero))))) = omega arith
delay_at-suc (suc (suc (suc (suc (suc (suc i)))))) = omega arith

delay_at_add : (i k : ℕ) → delay_at i ≤ delay_at (i + k)
delay_at_add i zero = rw add-zero (omega arith)
delay_at_add i (suc k) = rw add-suc (omega (arith, delay_at_add i k, delay_at-suc (i + k)))

delay_at_mono : (i j : ℕ) → i ≤ j → delay_at i ≤ delay_at j
delay_at_mono i j h =
    let split : i + (j - i) ≡ j = omega arith in
    subst (λ t. delay_at i ≤ delay_at t) split (delay_at_add i (j - i))

delay_at_cap : (i : ℕ) → 5 ≤ i → delay_at i ≡ sync_backoff_cap_ms
delay_at_cap i h = omega (arith, delay_at_mono 5 i h, delay_at-suc i)

delay_at_first : (i : ℕ) → delay_at i ≡ 1_000 → i ≡ 0
delay_at_first zero e = refl
delay_at_first (suc i) e = absurd (omega (arith, delay_at_mono 1 (suc i) (omega arith)))

delay_at_late : (i : ℕ) → delay_at i ≡ sync_backoff_cap_ms → 5 ≤ i
delay_at_late zero e = absurd (omega arith)
delay_at_late (suc zero) e = absurd (omega arith)
delay_at_late (suc (suc zero)) e = absurd (omega arith)
delay_at_late (suc (suc (suc zero))) e = absurd (omega arith)
delay_at_late (suc (suc (suc (suc zero)))) e = absurd (omega arith)
delay_at_late (suc (suc (suc (suc (suc i))))) e = omega arith

-- The delays never fall from one attempt to the next; they lie between one second and the cap, which
-- exactly the attempts from the sixth on wait; the shortest delay is that of the first attempt and of those
-- below it alone.
pub backoff_delay_ms_bounds :
    (a b : ℤ)
    → a ≤ℤ b
    → (1_000 ≤ backoff_delay_ms a)
      × (backoff_delay_ms a ≤ sync_backoff_cap_ms)
      × ((backoff_delay_ms a ≡ 1_000) ↔ (a ≤ℤ pos 1))
      × ((backoff_delay_ms a ≡ sync_backoff_cap_ms) ↔ (pos 6 ≤ℤ a))
      × (backoff_delay_ms a ≤ backoff_delay_ms b)
unfolding backoff_delay_ms
backoff_delay_ms_bounds a b le =
    let index : ℤ → ℕ = λ t. pos_part (t -ℤ pos 1) in
    (
      (delay_at-suc (index a)).0,
      (delay_at-suc (index a)).2,
      (
        (λ e. let zeroth = delay_at_first (index a) e in omega (int_laws, zeroth)),
        (λ h. let first : index a ≡ 0 = omega int_laws in ap delay_at first),
      ),
      (
        (λ e. let late = delay_at_late (index a) e in omega (int_laws, late)),
        (λ h. delay_at_cap (index a) (omega int_laws)),
      ),
      delay_at_mono (index a) (index b) (omega int_laws),
    )

decide_by_age_iff :
    (pulled now days : ℤ)
    → ((decide_by_age pulled now days ≡ bootstrap cursor_expired)
        ↔ (pulled +ℤ days *ℤ pos 86_400_000 ≤ℤ now))
      × (((decide_by_age pulled now days).required ≡ false)
          ↔ (now <ℤ pulled +ℤ days *ℤ pos 86_400_000))
unfolding decide_by_age
decide_by_age_iff pulled now days =
    let m = days *ℤ pos 86_400_000 in
    elim (Bool-cases (leb_ℤ m (now -ℤ pulled))) [
      | inl old ↦ rw old (
        ((λ e. omega (int_laws, leb_ℤ-le m (now -ℤ pulled) old)), (λ h. refl)),
        ((λ e. cc), (λ h. absurd (omega (int_laws, leb_ℤ-le m (now -ℤ pulled) old)))),
      )
      | inr recent ↦ rw recent (
        (
          (λ e. absurd (cc (ap (λ (d : BootstrapDecision). d.required) e))),
          (λ h. absurd (omega (int_laws, leb_ℤ-gt m (now -ℤ pulled) recent))),
        ),
        ((λ e. omega (int_laws, leb_ℤ-gt m (now -ℤ pulled) recent)), (λ h. refl)),
      )
    ]

-- A device with a cursor and an earlier pull bootstraps exactly when that pull is at least the retention
-- time ago; a device that lacks either bootstraps in any case.
pub decide_bootstrap_iff :
    (c : ℕ) (cs : Text) (pulled now days : ℤ) (retention : Option ℤ)
    → or_else retention (pos change_log_retention_days) ≡ days
    → ((decide_bootstrap (some (c ∷ cs)) (some pulled) now retention ≡ bootstrap cursor_expired)
        ↔ (pulled +ℤ days *ℤ pos 86_400_000 ≤ℤ now))
      × (((decide_bootstrap (some (c ∷ cs)) (some pulled) now retention).required ≡ false)
          ↔ (now <ℤ pulled +ℤ days *ℤ pos 86_400_000))
      × (decide_bootstrap none (some pulled) now retention ≡ bootstrap no_cursor)
      × (decide_bootstrap (some []) (some pulled) now retention ≡ bootstrap no_cursor)
      × (decide_bootstrap (some (c ∷ cs)) none now retention ≡ bootstrap no_cursor)
unfolding decide_bootstrap
decide_bootstrap_iff c cs pulled now days retention e =
    let (expired, recent) = decide_by_age_iff pulled now days in
    rw e (expired, recent, refl, refl, refl)
