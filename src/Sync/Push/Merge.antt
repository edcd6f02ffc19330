-- ===== src/Sync/Push/Merge.antt =====
-- A queued edit of a product, apps/api/src/modules/sync/sync.service.ts.
use Prim.Native.String.{String}
use dukaano.Base.{
  >>=-eq-ok, Bool-cases, List, [], ap, false, if◌then◌else◌, inl, inr, is_empty, ok, ok-injective,
  refl, some, sym, true, ◌++◌, ◌∙◌, ◌∷◌, ◌≡◌, ◌≢◌, ◌⊎◌,
}
use dukaano.Base.Int.{ℤ}
use dukaano.Base.Keys.{eq_str}
use dukaano.Sync.Conflict.{ResolutionResult}
use dukaano.Sync.Push.{Caller, OpResult, PushOperation, conflict}
use dukaano.Sync.Push.Dispatch.{
  ConflictRow, ServerProduct, Services, Work, apply_product_update, conflict_row, dispatch,
  is_create_op, merged, record_conflict, resolution_of, server_wins_answer, update_resolved,
}

module _ {S V E F : Type 0} where
  -- What an edit leaves: each refused field stands in one conflict row and in the answer, and the shop is
  -- what the products service makes of the accepted fields, or as it was where none is accepted.
  pub record IsMerged (services : Services S V E F) (op : PushOperation V) (server : ServerProduct)
      (w : Work S V) (result : OpResult E) (after : Work S V) : Type 0 where
    pub conflicts :
        ((resolution_of op server).has_conflict ≡ false) × (after.conflicts ≡ w.conflicts)
        ⊎ ((row : ConflictRow V) × ((resolution_of op server).has_conflict ≡ true)
            × (row.rejected ≡ (resolution_of op server).rejected)
            × (row.patch ≡ op.payload)
            × (row.entity_id ≡ op.entity_id)
            × (after.conflicts ≡ w.conflicts ++ row ∷ []))
    pub shop :
        (((resolution_of op server).accepted ≡ [])
          × (after.shop ≡ w.shop)
          × (result.status ≡ conflict))
        ⊎ (((resolution_of op server).accepted ≢ [])
            × ((made : ℤ × E) × (services.products_update op.entity_id
                    (resolution_of op server).accepted
                    op.client_updated_at
                    w.shop
                  ≡ ok (made, after.shop))
                × (result.row_version ≡ some made.0)))

  -- From the resolution on, in the work `w` with its conflict recorded.
  resolved-cases :
      (services : Services S V E F) (op : PushOperation V) (server : ServerProduct)
      (r : ResolutionResult V) (w : Work S V) (after : OpResult E × Work S V)
      (accepted : List (String × V))
      → r.accepted ≡ accepted
      → update_resolved services op server r w ≡ ok after
      → (after.1.conflicts ≡ w.conflicts)
        × (((r.accepted ≡ []) × (after.1.shop ≡ w.shop) × (after.0.status ≡ conflict))
            ⊎ ((r.accepted ≢ [])
                × ((made : ℤ × E) × (services.products_update op.entity_id r.accepted
                        op.client_updated_at w.shop
                      ≡ ok (made, after.1.shop))
                    × (after.0.row_version ≡ some made.0))))
  resolved-cases services op server r w after [] none_accepted h =
      let bare_patch : is_empty r.accepted ≡ true = rw none_accepted refl in
      let (entity, seen, e) =
        >>=-eq-ok (services.products_find_by_id op.entity_id w.shop)
          (λ entity. ok (server_wins_answer op server r w entity)) (rw bare_patch at h) in
      let same = ok-injective e in
      (
        sym (ap (λ x. x.1.conflicts) same),
        inl (none_accepted, sym (ap (λ x. x.1.shop) same), sym (ap (λ x. x.0.status) same)),
      )
  resolved-cases services op server r w after (f ∷ fields) some_accepted h =
      let full : is_empty r.accepted ≡ false = rw some_accepted refl in
      let (made, updates, e) =
        >>=-eq-ok (services.products_update op.entity_id r.accepted op.client_updated_at w.shop)
          (λ made. ok (merged op r w made)) (rw full at h) in
      let same = ok-injective e in
      (
        sym (ap (λ x. x.1.conflicts) same),
        inr (
          (λ none_accepted. absurd (cc (rw none_accepted at full))),
          (
            made.0,
            updates ∙ ap (λ x. ok (made.0, x.1.shop)) same,
            sym (ap (λ x. x.0.row_version) same),
          ),
        ),
      )

  -- An edit of a product that the shop has, when it succeeds, records each refused field in one conflict row
  -- and hands the others, if there are any, to the products service; where no field is accepted the
  -- shop stays as it was and the answer is a conflict.
  pub dispatch-IsMerged :
      (services : Services S V E F) (caller : Caller) (op : PushOperation V) (w : Work S V)
      (server : ServerProduct) (after : OpResult E × Work S V)
      → op.entity ≡ "product"
      → is_create_op op.op_type ≡ false
      → services.product_row op.entity_id w.shop ≡ some server
      → dispatch services caller op w ≡ ok after
      → IsMerged services op server w after.0 after.1
  unfolding dispatch apply_product_update
  dispatch-IsMerged services caller op w server after product edits there h =
      let a_product : eq_str op.entity "product" ≡ true = ap (λ e. eq_str e "product") product in
      let r = resolution_of op server in
      let k = rw (a_product, edits, there) at h in
      let recorded = if r.has_conflict then record_conflict caller op r.rejected server w else w in
      let (conflicts, shop) =
        resolved-cases services op server r recorded after r.accepted refl k in
      elim (Bool-cases r.has_conflict) [
        | inl e ↦ record {
          conflicts =
              inr
                (conflict_row caller op r.rejected server, e, refl, refl, refl, rw e at conflicts);
          shop = rw e at shop;
        }
        | inr e ↦ record { conflicts = inl (e, rw e at conflicts); shop = rw e at shop }
      ]
