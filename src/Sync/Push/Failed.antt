-- ===== src/Sync/Push/Failed.antt =====
-- Operations that fail or die on the way, and the claims that are left, apps/api/src/modules/sync/sync.service.ts.
use dukaano.Base.{
  ==_iff, All, Bool-cases, List, [], ap, err, inl, inr, none, refl, some, sym, true, ℕ, ◌++◌, ◌==◌,
  ◌∙◌, ◌∷◌, ◌≡◌,
}
use dukaano.Sync.Push.{
  Caller, OpResult, Processed, PushOperation, claim_operation, claim_row, claimed, find_op,
  in_progress, rejection, release_claim, retryable,
}
use dukaano.Sync.Push.Applied.{Applied, apply_one_operation-Applied, fails, repeats, settles}
use dukaano.Sync.Push.Apply.{SyncStore, apply_one_operation, is_allowed, push_all}
use dukaano.Sync.Push.Claims.{
  IsClaimed, IsEnded, claim_operation-cases, record_outcome-IsEnded, release_claim-IsEnded,
}
use dukaano.Sync.Push.Dispatch.{Services, dispatch}
use mathlib.Core.Path.{subst}

release_claim-new :
    {E : Type 0}
    → (id : ℕ) (row : Processed E) (rows : List (Processed E)) → row.op_id ≡ id
    → row.status ≡ in_progress
    → find_op id rows ≡ none
    → release_claim id (rows ++ row ∷ []) ≡ rows
unfolding release_claim find_op
release_claim-new id row [] same waits h = rw ((==_iff row.op_id id).1 same, waits) refl
release_claim-new id row (p ∷ rows) same waits h = elim (Bool-cases (p.op_id == id)) [
  | inl e ↦ let no : some p ≡ none = rw e at h in cc
  | inr e ↦ rw e (ap (λ t. p ∷ t) (release_claim-new id row rows same waits (rw e at h)))
]

module _ {V E : Type 0} where
  claimed_now :
      (caller : Caller) (op : PushOperation V) (rows : List (Processed E))
      (is : IsClaimed caller op rows)
      → claim_operation caller op is.rows_now ≡ claimed is.rows_now
  unfolding claim_operation
  claimed_now caller op rows is = rw (is.found, is.waits) refl

  claimed_again :
      (caller : Caller) (op : PushOperation V) (rows now : List (Processed E))
      → claim_operation caller op rows ≡ claimed now
      → claim_operation caller op now ≡ claimed now
  claimed_again caller op rows now h = elim (claim_operation-cases caller op rows) [
    | inl is ↦ let no = sym h ∙ is.again in cc
    | inr is ↦
        let both = sym h ∙ is.claims in
        let same : now ≡ is.rows_now = cc in
        subst (λ now. claim_operation caller op now ≡ claimed now) (sym same)
          (claimed_now caller op rows is)
  ]

module _ {S V E : Type 0} where
  Applied-IsEnded :
      (caller : Caller) (op : PushOperation V) (store : SyncStore S V E) (result : OpResult E)
      (after : SyncStore S V E)
      → Applied caller op store result after
      → All IsEnded store.processed
      → All IsEnded after.processed
  Applied-IsEnded caller op store result after (repeats is) h = h
  Applied-IsEnded caller op store result after (settles is answer work) h =
      record_outcome-IsEnded op.op_id answer is.rows_now (is.only h)
  Applied-IsEnded caller op store result after (fails is) h =
      release_claim-IsEnded op.op_id is.rows_now (is.only h)

module _ {S V E F : Type 0} where
  -- An operation that is new and allowed and whose services fail leaves all as it was, and is to be retried.
  pub apply_one_operation_fails :
      (services : Services S V E F) (caller : Caller) (op : PushOperation V)
      (store : SyncStore S V E) (thrown : F)
      → find_op op.op_id store.processed ≡ none
      → is_allowed caller op ≡ true
      → dispatch services caller op store.work ≡ err thrown
      → apply_one_operation services caller op store ≡ (rejection retryable op.op_id, store)
  unfolding apply_one_operation claim_operation
  apply_one_operation_fails services caller op store thrown new allowed failed =
      rw
        (
          new,
          allowed,
          failed,
          release_claim-new op.op_id (claim_row caller op) store.processed refl refl new,
        )
        refl

  -- An operation whose claim was committed and whose work was not, since the process died in between, is
  -- pushed again as if it were pushed for the first time.
  pub apply_one_operation_taken_over :
      (services : Services S V E F) (caller : Caller) (op : PushOperation V)
      (store : SyncStore S V E) (rows : List (Processed E))
      → claim_operation caller op store.processed ≡ claimed rows
      → apply_one_operation services caller op (record store { processed = rows })
        ≡ apply_one_operation services caller op store
  unfolding apply_one_operation
  apply_one_operation_taken_over services caller op store rows h =
      rw (h, claimed_again caller op store.processed rows h) refl

  -- A batch that starts with no claim held ends with none.
  pub push_all-IsEnded :
      (services : Services S V E F) (caller : Caller) (ops : List (PushOperation V))
      (store : SyncStore S V E)
      → All IsEnded store.processed
      → All IsEnded (push_all services caller ops store).1.processed
  push_all-IsEnded services caller [] store h = h
  push_all-IsEnded services caller (op ∷ ops) store h =
      let after = apply_one_operation services caller op store in
      push_all-IsEnded services caller ops after.1 (
        Applied-IsEnded caller op store after.0 after.1
          (apply_one_operation-Applied services caller op store) h)
