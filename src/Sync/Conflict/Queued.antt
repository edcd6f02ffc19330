-- ===== src/Sync/Conflict/Queued.antt =====
-- authorizeQueuedOperation in packages/business-logic/src/sync/conflict.ts, by the word for the operation.
use mathlib.Core.Logic.Or
use Prim.Native.String.{String}
use dukaano.Base.{
  Bool, Bool-cases, List, [], arith, inl, inr, map, not, sym, true, ◌↔◌, ◌∷◌, ◌≡◌, ◌⊎◌,
}
use dukaano.Base.Keys.{eq_str, includes}
use dukaano.Base.Text.{Text, codes, eq_text_iff, lower}
use dukaano.Sync.Conflict.{
  append_only_entities, authorize_queued_operation, is_append_only_fact, is_create,
}
use mathlib.Core.Bool.{Bool-set}
use mathlib.Core.List.{Mem, mem-cons, mem-cons_of_mem, mem-cons_self, not-mem-nil}
use mathlib.Core.Path.{subst}
use text.Mathlib.TextEquality.{eq_iff}

includes-Mem : (xs : List String) (x : String) → includes xs x ≡ true → Mem x xs
unfolding includes
includes-Mem [] x e = ground arith
includes-Mem (y ∷ ys) x e = elim (Bool-cases (eq_str y x)) [
  | inl same ↦ subst (λ z. Mem x (z ∷ ys)) (sym ((eq_iff y x).0 same)) mem-cons_self
  | inr other ↦ mem-cons_of_mem y (includes-Mem ys x (ground arith))
]

Mem-includes : (xs : List String) (x : String) → Mem x xs → includes xs x ≡ true
unfolding includes
Mem-includes [] x m = absurd (not-mem-nil m)
Mem-includes (y ∷ ys) x m =
    Or.elim (Bool-set _ _) (mem-cons.0 m) (λ same. ground (arith, eq_iff y x, same))
      (λ later. ground (arith, Mem-includes ys x later))

-- A queued operation is allowed exactly when the user holds the permission now, or it is a create,
-- in letters of either case, of one of the append-only entities; the one reason is given exactly when
-- it is refused.
pub authorize_queued_operation_iff :
    (entity : String) (op_type : Text) (holds : Bool)
    → (((authorize_queued_operation entity op_type holds).allowed ≡ true) ↔ (
        (holds ≡ true) ⊎ (Mem entity append_only_entities × (map lower op_type ≡ codes "create"))))
      × ((authorize_queued_operation entity op_type holds).permission_revoked
          ≡ not (authorize_queued_operation entity op_type holds).allowed)
unfolding authorize_queued_operation is_append_only_fact is_create
authorize_queued_operation_iff entity op_type holds =
    let included = includes-Mem append_only_entities entity in
    let member = Mem-includes append_only_entities entity in
    let create = eq_text_iff (map lower op_type) (codes "create") in
    ground (arith, included, member, create)
