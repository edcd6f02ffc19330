-- ===== src/Sync/Conflict/Fields.antt =====
-- The outcome of resolveProductConflict in packages/business-logic/src/sync/conflict.ts, field by field.
use Prim.Native.String.{String}
use dukaano.Base.{
  Bool, Bool-cases, List, Option, Option-cases, [], ap, arith, false, inl, inr, none, refl, some,
  true, ◌↔◌, ◌∷◌, ◌≡◌,
}
use dukaano.Base.Int.{◌<ℤ◌, ◌≤ℤ◌}
use dukaano.Base.Keys.{KeysDistinct, lookup, lookup-put}
use dukaano.Sync.Conflict.{
  ClientEdit, RejectionReason, ServerProductState, Sorted, client_is_newer, is_current,
  price_needs_current_version, refusal, resolve_product_conflict, server_authoritative, settle,
  sort_fields, stale,
}
use dukaano.Sync.Conflict.Refusal.{
  Acceptable, Refusable, first_some, is_empty-eq, lookup-append, refusal-none, refusal_price,
  refusal_stale, same_version_iff,
}
use mathlib.Core.Logic.{⊎_map}
use text.Mathlib.TextEquality.{eq_iff}

module _ {V : Type 0} where
  abbrev applied_value : Option (Option V) → Option RejectionReason → Option V → Option V
  applied_value (some (some v)) none before = some v
  applied_value (some (some v)) (some r) before = before
  applied_value (some none) r before = before
  applied_value none r before = before

  abbrev refused_reason : Option (Option V) → Option RejectionReason → Option RejectionReason
  refused_reason (some (some v)) r = r
  refused_reason (some none) r = none
  refused_reason none r = none

  sort_fields_accepted :
      (newer current : Bool) (patch : List (String × Option V)) (s : Sorted V) (f : String)
      → KeysDistinct patch
      → lookup f (sort_fields newer current patch s).accepted
        ≡ applied_value (lookup f patch) (refusal newer current f) (lookup f s.accepted)
  unfolding lookup sort_fields
  sort_fields_accepted newer current [] s f d = refl
  sort_fields_accepted newer current ((k, none) ∷ patch) s f d =
      grind (arith, sort_fields_accepted newer current patch s f d.1, eq_iff k f)
  sort_fields_accepted newer current ((k, some v) ∷ patch) s f d =
      rw (sort_fields_accepted newer current patch (settle (refusal newer current k) k v s) f d.1)
        (elim (Option-cases (refusal newer current k)) [
          | inl accepted ↦
              rw (accepted, lookup-put k f v s.accepted) (grind (arith, accepted, eq_iff k f, d.0))
          | inr (reason, refused) ↦ rw refused (grind (arith, refused, eq_iff k f, d.0))
        ])

  sort_fields_rejected :
      (newer current : Bool) (patch : List (String × Option V)) (s : Sorted V) (f : String)
      → KeysDistinct patch
      → lookup f (sort_fields newer current patch s).rejected
        ≡ first_some
            (lookup f s.rejected)
            (refused_reason (lookup f patch) (refusal newer current f))
  unfolding lookup sort_fields
  sort_fields_rejected newer current [] s f d = grind arith
  sort_fields_rejected newer current ((k, none) ∷ patch) s f d =
      grind (arith, sort_fields_rejected newer current patch s f d.1, eq_iff k f)
  sort_fields_rejected newer current ((k, some v) ∷ patch) s f d =
      rw (sort_fields_rejected newer current patch (settle (refusal newer current k) k v s) f d.1)
        (elim (Option-cases (refusal newer current k)) [
          | inl accepted ↦ rw accepted (grind (arith, accepted, eq_iff k f, d.0))
          | inr (reason, refused) ↦
              rw (refused, lookup-append f s.rejected ((k, reason) ∷ []))
                (grind (arith, refused, eq_iff k f, d.0))
        ])

  newer_iff :
      (edit : ClientEdit V) (server : ServerProductState)
      → (client_is_newer edit server ≡ true)
        ↔ (server.effective_updated_at <ℤ edit.client_updated_at)
  newer_iff edit server = ground arith

  leb_of_ltb :
      (edit : ClientEdit V) (server : ServerProductState)
      → client_is_newer edit server ≡ false
      → edit.client_updated_at ≤ℤ server.effective_updated_at
  leb_of_ltb edit server e = ground arith

  ltb_of_leb :
      (edit : ClientEdit V) (server : ServerProductState)
      → edit.client_updated_at ≤ℤ server.effective_updated_at
      → client_is_newer edit server ≡ false
  ltb_of_leb edit server h = ground arith

  current_iff :
      (edit : ClientEdit V) (server : ServerProductState)
      → (is_current edit server ≡ true) ↔ (edit.base_version ≡ some server.row_version)
  current_iff edit server = same_version_iff edit.base_version server.row_version

  refusal-Acceptable :
      (edit : ClientEdit V) (server : ServerProductState) (f : String)
      → (refusal (client_is_newer edit server) (is_current edit server) f ≡ none)
        ↔ Acceptable edit server f
  refusal-Acceptable edit server f =
      let (ne, ne') = newer_iff edit server in
      let (cu, cu') = current_iff edit server in
      let (re, re') = refusal-none (client_is_newer edit server) (is_current edit server) f in
      (
        (λ e. let (a, n, p) = re e in (a, ne n, ⊎_map (λ u. u) cu p)),
        (λ (a, n, p). re' (a, ne' n, ⊎_map (λ u. u) cu' p)),
      )

  refusal-Refusable :
      (edit : ClientEdit V) (server : ServerProductState) (f : String) (reason : RejectionReason)
      → (refusal (client_is_newer edit server) (is_current edit server) f ≡ some reason)
        ↔ Refusable edit server f reason
  unfolding refusal
  refusal-Refusable edit server f server_authoritative = ground arith
  refusal-Refusable edit server f stale =
      let (re, re') = refusal_stale (client_is_newer edit server) (is_current edit server) f in
      (
        (λ e. let (a, n) = re e in (a, leb_of_ltb edit server n)),
        (λ (a, n). re' (a, ltb_of_leb edit server n)),
      )
  refusal-Refusable edit server f price_needs_current_version =
      let (re, re') = refusal_price (client_is_newer edit server) (is_current edit server) f in
      let (ne, ne') = newer_iff edit server in
      let (cu, cu') = current_iff edit server in
      (
        (λ e. let (a, n, p, c) = re e in (a, ne n, p, (λ b. cc (c, cu' b)))),
        (λ (a, n, p, c). re' (
          a,
          ne' n,
          p,
          (elim (Bool-cases (is_current edit server)) [
            | inl y ↦ absurd (c (cu y))
            | inr differs ↦ differs
          ]),
        )),
      )

  applied_value_iff :
      (o : Option (Option V)) (r : Option RejectionReason) (v : V)
      → (applied_value o r none ≡ some v) ↔ ((o ≡ some (some v)) × (r ≡ none))
  applied_value_iff none r v = ground arith
  applied_value_iff (some none) r v = ground arith
  applied_value_iff (some (some w)) none v = ground arith
  applied_value_iff (some (some w)) (some r) v = ground arith

  refused_reason_iff :
      (o : Option (Option V)) (r : Option RejectionReason) (reason : RejectionReason)
      → (refused_reason o r ≡ some reason) ↔ ((v : V) × (o ≡ some (some v)) × (r ≡ some reason))
  refused_reason_iff none r reason = ground arith
  refused_reason_iff (some none) r reason = ground arith
  refused_reason_iff (some (some w)) r reason = ((λ e. (w, refl, e)), (λ (v, o, e). e))

  -- With a patch whose fields are distinct, a field has a value among the accepted ones exactly when the
  -- patch gives it that value and the field may be applied: the server does not own it, the edit is
  -- strictly newer than the row, and for a price the edit was made on the row's current version.
  pub resolve_product_conflict_accepts :
      (edit : ClientEdit V) (server : ServerProductState) (f : String) (v : V)
      → KeysDistinct edit.patch
      → (lookup f (resolve_product_conflict edit server).accepted ≡ some v)
        ↔ ((lookup f edit.patch ≡ some (some v)) × Acceptable edit server f)
  unfolding resolve_product_conflict lookup
  resolve_product_conflict_accepts edit server f v d =
      let (ap_, ap') =
        applied_value_iff (lookup f edit.patch)
          (refusal (client_is_newer edit server) (is_current edit server) f) v in
      let (ac, ac') = refusal-Acceptable edit server f in
      rw
        (sort_fields_accepted (client_is_newer edit server) (is_current edit server) edit.patch
          (record { accepted = []; rejected = [] }) f d)
        ((λ e. let (o, r) = ap_ e in (o, ac r)), (λ (o, a). ap' (o, ac' a)))

  -- With a patch whose fields are distinct, a field is reported for a reason exactly when the patch has a
  -- value for it and the reason is the first that holds: the server owns the field, the edit is not
  -- strictly newer than the row, or it is a price not edited on the row's current version.
  pub resolve_product_conflict_rejects :
      (edit : ClientEdit V) (server : ServerProductState) (f : String) (reason : RejectionReason)
      → KeysDistinct edit.patch
      → (lookup f (resolve_product_conflict edit server).rejected ≡ some reason)
        ↔ ((v : V) × (lookup f edit.patch ≡ some (some v)) × Refusable edit server f reason)
  unfolding resolve_product_conflict lookup
  resolve_product_conflict_rejects edit server f reason d =
      let (re, re') =
        refused_reason_iff (lookup f edit.patch)
          (refusal (client_is_newer edit server) (is_current edit server) f) reason in
      let (rf, rf') = refusal-Refusable edit server f reason in
      rw
        (sort_fields_rejected (client_is_newer edit server) (is_current edit server) edit.patch
          (record { accepted = []; rejected = [] }) f d)
        ((λ e. let (v, o, r) = re e in (v, o, rf r)), (λ (v, o, a). re' (v, o, rf' a)))

  -- With a patch whose fields are distinct, a resolution without a conflict applies every value of the
  -- patch.
  pub resolve_product_conflict_clean :
      (edit : ClientEdit V) (server : ServerProductState) (f : String) (v : V)
      → KeysDistinct edit.patch
      → (resolve_product_conflict edit server).has_conflict ≡ false
      → lookup f edit.patch ≡ some (some v)
      → lookup f (resolve_product_conflict edit server).accepted ≡ some v
  unfolding resolve_product_conflict lookup
  resolve_product_conflict_clean edit server f v d clean e =
      let newer = client_is_newer edit server in
      let current = is_current edit server in
      let empty = is_empty-eq _ clean in
      let unreported =
        sort_fields_rejected newer current edit.patch (record { accepted = []; rejected = [] }) f
          d in
      let none_refused : refusal newer current f ≡ none =
        elim (Option-cases (refusal newer current f)) [
          | inl accepted ↦ accepted
          | inr (reason, refused) ↦ absurd (cc (unreported, ap (lookup f) empty, e, refused))
        ] in
      (resolve_product_conflict_accepts edit server f v d).1
        (e, (refusal-Acceptable edit server f).0 none_refused)
