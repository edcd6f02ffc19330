-- ===== src/Sync/Push.antt =====
-- `push` of apps/api/src/modules/sync/sync.service.ts: a batch of queued operations. A shop is the state of
-- the services that own the rows; the services are those the constructor is given. The message key of an
-- answer, which its code determines, is left out. An answer that is stored is kept as it is given.
pub mod Dispatch
pub mod Apply
pub mod Once
pub mod Claims
pub mod Applied
pub mod Failed
pub mod Merge
pub mod Sale
pub mod Tests
use Prim.Native.String.{String}
use dukaano.Base.{
  Bool, List, Option, [], false, if◌then◌else◌, none, or_else, some, true, ℕ, ◌&&◌, ◌++◌, ◌==◌, ◌∷◌,
}
use dukaano.Base.Int.{ℤ}
use dukaano.Base.Keys.{eq_str}
use dukaano.Base.Table.{change_rows, find_row}
use dukaano.Rbac.{Permission}
use dukaano.Sync.Conflict.{RejectionReason}

pub data OpType : Type 0 where
  create update archive : OpType

pub data OpStatus : Type 0 where
  applied duplicate conflict rejected : OpStatus

pub data Resolution : Type 0 where
  server_wins client_wins partial : Resolution

pub data Refusal : Type 0 where
  permission_lost not_found unsupported_entity retryable : Refusal

-- `serverEntity` is of the type `E`.
pub record OpResult (E : Type 0) : Type 0 where
  pub op_id : ℕ
  pub status : OpStatus
  pub row_version : Option ℤ
  pub server_entity : Option E
  pub resolution : Option Resolution
  pub code : Option Refusal
  pub rejected_fields : Option (List (String × RejectionReason))

pub record PushOperation (V : Type 0) : Type 0 where
  pub op_id : ℕ
  pub entity : String
  pub entity_id : ℕ
  pub op_type : OpType
  pub base_version : Option ℤ
  pub client_updated_at : ℤ
  pub payload : List (String × Option V)

pub data ProcessedStatus : Type 0 where
  in_progress : ProcessedStatus
  done : OpStatus → ProcessedStatus

-- A row of processed_operation.
pub record Processed (E : Type 0) : Type 0 where
  pub op_id : ℕ
  pub device_id : ℕ
  pub user_id : Option ℕ
  pub entity : String
  pub entity_id : ℕ
  pub op_type : OpType
  pub status : ProcessedStatus
  pub result : Option (OpResult E)

-- What a call knows of its caller: the permissions as of now, and the identifier a conflict draws.
pub record Caller : Type 0 where
  pub device_id : ℕ
  pub user_id : Option ℕ
  pub holds : Permission → Bool
  pub draw : ℕ → ℕ

module _ {E : Type 0} where
  unfoldable pub find_op : ℕ → List (Processed E) → Option (Processed E)
  unfolding find_row
  find_op = find_row (λ p. p.op_id) (λ p. p)

  abbrev pub bare : OpStatus → ℕ → OpResult E
  bare status id = record {
    op_id = id;
    status = status;
    row_version = none;
    server_entity = none;
    resolution = none;
    code = none;
    rejected_fields = none;
  }

  abbrev pub rejection : Refusal → ℕ → OpResult E
  rejection why id = record (bare rejected id) { code = some why }

  -- `{ ...stored, opId, status: 'duplicate' }`
  abbrev pub as_duplicate : ℕ → OpResult E → OpResult E
  as_duplicate id stored = record stored { op_id = id; status = duplicate }

-- To be done, with the rows that hold the claim, or done before.
pub data Claim (E : Type 0) : Type 0 where
  claimed : List (Processed E) → Claim E
  already_processed : OpResult E → Claim E

module _ {E : Type 0} where
  abbrev pub claim_existing :
      List (Processed E) → ℕ → ProcessedStatus → Option (OpResult E) → Claim E
  claim_existing rows id in_progress result = claimed rows
  claim_existing rows id (done status) result =
      already_processed (or_else result (bare duplicate id))

module _ {E V : Type 0} where
  abbrev pub claim_row : Caller → PushOperation V → Processed E
  claim_row caller op = record {
    op_id = op.op_id;
    device_id = caller.device_id;
    user_id = caller.user_id;
    entity = op.entity;
    entity_id = op.entity_id;
    op_type = op.op_type;
    status = in_progress;
    result = none;
  }

  abbrev pub claim_found :
      Caller → PushOperation V → List (Processed E) → Option (Processed E) → Claim E
  claim_found caller op rows none = claimed (rows ++ claim_row caller op ∷ [])
  claim_found caller op rows (some p) = claim_existing rows op.op_id p.status p.result

  unfoldable pub claim_operation : Caller → PushOperation V → List (Processed E) → Claim E
  unfolding find_op
  claim_operation caller op rows = claim_found caller op rows (find_op op.op_id rows)

abbrev pub is_in_progress : ProcessedStatus → Bool
is_in_progress in_progress = true
is_in_progress (done status) = false

module _ {E : Type 0} where
  unfoldable pub release_claim : ℕ → List (Processed E) → List (Processed E)
  release_claim id [] = []
  release_claim id (p ∷ rows) =
      let rest = release_claim id rows in
      if p.op_id == id && is_in_progress p.status then rest else p ∷ rest

  abbrev pub with_outcome : OpResult E → Processed E → Processed E
  with_outcome r p = record p { status = done r.status; result = some r }

  -- The row is there, since the operation is claimed.
  unfoldable pub record_outcome : ℕ → OpResult E → List (Processed E) → List (Processed E)
  unfolding change_rows
  record_outcome id result = change_rows (λ p. p.op_id) id (with_outcome result)

-- `permissionFor`
abbrev pub permission_for : String → Permission
permission_for entity =
    if eq_str entity "product"
    then "product.write"
    else if eq_str entity "customer"
    then "customer.write"
    else if eq_str entity "inventory_transaction"
    then "inventory.adjust"
    else if eq_str entity "payment"
    then "customer.payment.receive"
    else "sale.create"
