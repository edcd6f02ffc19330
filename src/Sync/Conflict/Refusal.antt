-- ===== src/Sync/Conflict/Refusal.antt =====
-- The tests of a field in packages/business-logic/src/sync/conflict.ts.
use Prim.Native.String.{String}
use dukaano.Base.{
  Bool, List, Option, [], ap, arith, false, is_empty, none, not, refl, some, true, ◌++◌, ◌↔◌, ◌∷◌,
  ◌≡◌, ◌≢◌, ◌⊎◌,
}
use dukaano.Base.Int.{eqb_ℤ-eq, ℤ, ◌<ℤ◌, ◌≤ℤ◌}
use dukaano.Base.Keys.{lookup}
use dukaano.Sync.Conflict.{
  ClientEdit, RejectionReason, ServerProductState, is_price_field, is_server_authoritative,
  price_needs_current_version, refusal, same_version, server_authoritative, stale,
}

-- What a field needs in order to be applied.
abbrev pub Acceptable : {V : Type 0} → ClientEdit V → ServerProductState → String → Type 0
Acceptable edit server field =
    (is_server_authoritative field ≡ false)
    × (server.effective_updated_at <ℤ edit.client_updated_at)
    × ((is_price_field field ≡ false) ⊎ (edit.base_version ≡ some server.row_version))

-- Which reason a field is refused for.
abbrev pub Refusable :
    {V : Type 0} → ClientEdit V → ServerProductState → String → RejectionReason → Type 0
Refusable edit server field server_authoritative = is_server_authoritative field ≡ true
Refusable edit server field stale =
    (is_server_authoritative field ≡ false)
    × (edit.client_updated_at ≤ℤ server.effective_updated_at)
Refusable edit server field price_needs_current_version =
    (is_server_authoritative field ≡ false)
    × (server.effective_updated_at <ℤ edit.client_updated_at)
    × (is_price_field field ≡ true)
    × (edit.base_version ≢ some server.row_version)

pub is_empty-eq : {A : Type 0} (xs : List A) → not (is_empty xs) ≡ false → xs ≡ []
is_empty-eq [] e = refl
is_empty-eq (x ∷ xs) e = ground arith

pub refusal-none :
    (newer current : Bool) (field : String)
    → (refusal newer current field ≡ none) ↔ (
        (is_server_authoritative field ≡ false)
        × (newer ≡ true)
        × ((is_price_field field ≡ false) ⊎ (current ≡ true)))
unfolding refusal
refusal-none newer current field = ground arith

abbrev pub first_some : {A : Type 0} → Option A → Option A → Option A
first_some (some a) b = some a
first_some none b = b

pub lookup-append :
    {A : Type 0} (f : String) (xs ys : List (String × A))
    → lookup f (xs ++ ys) ≡ first_some (lookup f xs) (lookup f ys)
unfolding lookup
lookup-append f [] ys = refl
lookup-append f ((k, a) ∷ xs) ys = ground (arith, lookup-append f xs ys)

pub refusal_stale :
    (newer current : Bool) (field : String)
    → (refusal newer current field ≡ some stale)
      ↔ ((is_server_authoritative field ≡ false) × (newer ≡ false))
unfolding refusal
refusal_stale newer current field = ground arith

pub refusal_price :
    (newer current : Bool) (field : String)
    → (refusal newer current field ≡ some price_needs_current_version) ↔ (
        (is_server_authoritative field ≡ false)
        × (newer ≡ true)
        × (is_price_field field ≡ true)
        × (current ≡ false))
unfolding refusal
refusal_price newer current field = ground arith

pub same_version_iff :
    (base : Option ℤ) (version : ℤ) → (same_version base version ≡ true) ↔ (base ≡ some version)
same_version_iff none version = ground arith
same_version_iff (some base) version =
    ((λ h. ap some (eqb_ℤ-eq base version h)), (λ e. ground (arith, e)))
