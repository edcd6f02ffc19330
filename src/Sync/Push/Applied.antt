-- ===== src/Sync/Push/Applied.antt =====
-- What one operation of a push does to the store, apps/api/src/modules/sync/sync.service.ts.
use dukaano.Base.{Bool-cases, Result, err, inl, inr, ok}
use dukaano.Sync.Push.{
  Caller, OpResult, PushOperation, as_duplicate, permission_lost, record_outcome, rejection,
  release_claim, retryable,
}
use dukaano.Sync.Push.Apply.{SyncStore, apply_one_operation, conclude, is_allowed}
use dukaano.Sync.Push.Claims.{IsClaimed, IsRepeated, claim_operation-cases}
use dukaano.Sync.Push.Dispatch.{Services, Work, dispatch}

module _ {S V E : Type 0} where
  -- Its answer is stored already; or it is settled, with the rows of its work; or it has failed.
  pub data Applied (caller : Caller) (op : PushOperation V) (store : SyncStore S V E)
      : OpResult E → SyncStore S V E → Type 0 where
    repeats :
        (is : IsRepeated caller op store.processed)
        → Applied caller op store (as_duplicate op.op_id is.stored) store
    settles :
        (is : IsClaimed caller op store.processed) (result : OpResult E) (work : Work S V)
        → Applied caller op store result
            (record { work = work; processed = record_outcome op.op_id result is.rows_now })
    fails :
        (is : IsClaimed caller op store.processed)
        → Applied caller op store
            (rejection retryable op.op_id)
            (record { work = store.work; processed = release_claim op.op_id is.rows_now })

module _ {S V E F : Type 0} where
  conclude-Applied :
      (caller : Caller) (op : PushOperation V) (store : SyncStore S V E)
      (is : IsClaimed caller op store.processed) (r : Result F (OpResult E × Work S V))
      → let after = conclude op is.rows_now store.work r in Applied caller op store after.0 after.1
  conclude-Applied caller op store is (ok (result, work)) = settles is result work
  conclude-Applied caller op store is (err thrown) = fails is

  pub apply_one_operation-Applied :
      (services : Services S V E F) (caller : Caller) (op : PushOperation V)
      (store : SyncStore S V E)
      → let after = apply_one_operation services caller op store in
        Applied caller op store after.0 after.1
  unfolding apply_one_operation
  apply_one_operation-Applied services caller op store =
      elim (claim_operation-cases caller op store.processed) [
        | inl is ↦ rw is.again (repeats is)
        | inr is ↦ rw is.claims (elim (Bool-cases (is_allowed caller op)) [
          | inl e ↦
              rw e (conclude-Applied caller op store is (dispatch services caller op store.work))
          | inr e ↦ rw e (settles is (rejection permission_lost op.op_id) store.work)
        ])
      ]
