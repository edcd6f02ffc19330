-- ===== src/Sync/Push/Apply.antt =====
-- One operation of a push and the loop over a batch, apps/api/src/modules/sync/sync.service.ts.
-- What is stored: the rows of the transactions, and those of the operations.
use dukaano.Base.{
  Bool, List, Option, Result, [], err, if◌then◌else◌, ltb, none, ok, some, ℕ, ◌==◌, ◌∷◌,
}
use dukaano.Base.Int.{magnitude, ℤ, ◌-ℤ◌}
use dukaano.Base.Text.{Text}
use dukaano.Sync.Conflict.{authorize_queued_operation}
use dukaano.Sync.Push.{
  Caller, Claim, OpResult, Processed, PushOperation, already_processed, as_duplicate,
  claim_operation, claimed, permission_for, permission_lost, record_outcome, rejection,
  release_claim, retryable,
}
use dukaano.Sync.Push.Dispatch.{Services, Work, dispatch, op_type_text}

pub record SyncStore (S V E : Type 0) : Type 0 where
  pub work : Work S V
  pub processed : List (Processed E)

module _ {V : Type 0} where
  abbrev pub is_allowed : Caller → PushOperation V → Bool
  is_allowed caller op =
      (authorize_queued_operation op.entity (op_type_text op.op_type)
        (caller.holds (permission_for op.entity))).allowed

module _ {S V E F : Type 0} where
  -- The outcome with the rows of the transaction; or, where it has failed, without them and unclaimed.
  abbrev pub conclude :
      PushOperation V
      → List (Processed E)
      → Work S V
      → Result F (OpResult E × Work S V)
      → OpResult E × SyncStore S V E
  conclude op rows w (ok (result, after)) =
      (result, record { work = after; processed = record_outcome op.op_id result rows })
  conclude op rows w (err thrown) =
      (rejection retryable op.op_id, record { work = w; processed = release_claim op.op_id rows })

  abbrev pub apply_claimed :
      Services S V E F
      → Caller
      → PushOperation V
      → SyncStore S V E
      → Claim E
      → OpResult E × SyncStore S V E
  apply_claimed services caller op store (already_processed stored) =
      (as_duplicate op.op_id stored, store)
  apply_claimed services caller op store (claimed rows) =
      if is_allowed caller op
      then conclude op rows store.work (dispatch services caller op store.work)
      else (
        rejection permission_lost op.op_id,
        record store {
          processed = record_outcome op.op_id (rejection permission_lost op.op_id) rows;
        },
      )

  unfoldable pub apply_one_operation :
      Services S V E F → Caller → PushOperation V → SyncStore S V E → OpResult E × SyncStore S V E
  unfolding claim_operation dispatch record_outcome release_claim authorize_queued_operation
  apply_one_operation services caller op store =
      apply_claimed services caller op store (claim_operation caller op store.processed)

  -- The loop over the batch: the answers in its order, and what is stored.
  abbrev pub push_all :
      Services S V E F
      → Caller
      → List (PushOperation V)
      → SyncStore S V E
      → List (OpResult E) × SyncStore S V E
  push_all services caller [] store = ([], store)
  push_all services caller (op ∷ ops) store =
      let first = apply_one_operation services caller op store in
      let rest = push_all services caller ops first.1 in (first.0 ∷ rest.0, rest.1)

-- The columns of device that a push writes.
pub record SeenDevice : Type 0 where
  pub id : ℕ
  pub last_seen_at : ℤ
  pub clock_skew_ms : Option ℕ
  pub app_version : Option Text

abbrev skew_of : ℤ → Option ℤ → Option ℕ → Option ℕ
skew_of now none stored = stored
skew_of now (some client_time) stored =
    let skew = magnitude (now -ℤ client_time) in
    some (if ltb 2_147_483_647 skew then 2_147_483_647 else skew)

abbrev version_of : Option Text → Option Text → Option Text
version_of none stored = stored
version_of (some []) stored = stored
version_of (some (c ∷ cs)) stored = some (c ∷ cs)

unfoldable pub touch_device : ℤ → ℕ → Option ℤ → Option Text → List SeenDevice → List SeenDevice
touch_device now id client_time app_version [] = []
touch_device now id client_time app_version (d ∷ devices) =
    let rest = touch_device now id client_time app_version devices in
    if d.id == id
    then record {
      id = id;
      last_seen_at = now;
      clock_skew_ms = skew_of now client_time d.clock_skew_ms;
      app_version = version_of app_version d.app_version;
    }
      ∷ rest
    else d ∷ rest

-- `push`: the answers and the time of the server, with what is stored and the devices.
unfoldable pub push :
    {S V E F : Type 0}
    → Services S V E F
    → Caller
    → ℤ
    → Option ℤ
    → Option Text
    → List (PushOperation V)
    → SyncStore S V E
    → List SeenDevice
    → (List (OpResult E) × ℤ) × (SyncStore S V E × List SeenDevice)
push services caller now client_time app_version ops store devices =
    let done_all = push_all services caller ops store in
    (
      (done_all.0, now),
      (done_all.1, touch_device now caller.device_id client_time app_version devices),
    )
