-- ===== src/Sync/Push/Dispatch.antt =====
-- What an operation of a push does with the services, `dispatch` of apps/api/src/modules/sync/sync.service.ts.
use Prim.Native.String.{String}
use dukaano.Base.{
  Bool, List, Option, Result, [], false, if◌then◌else◌, is_empty, none, ok, or_else, some, true, ℕ,
  ◌&&◌, ◌++◌, ◌>>=◌, ◌∷◌,
}
use dukaano.Base.Int.{pos, ℤ}
use dukaano.Base.Keys.{eq_str}
use dukaano.Base.Text.{Text, codes}
use dukaano.Sync.Conflict.{RejectionReason, ResolutionResult, resolve_product_conflict}
use dukaano.Sync.Push.{
  Caller, OpResult, OpType, PushOperation, Resolution, applied, archive, bare, client_wins,
  conflict, create, not_found, partial, rejection, server_wins, unsupported_entity, update,
}

pub record ServerProduct : Type 0 where
  pub row_version : ℤ
  pub client_updated_at : Option ℤ
  pub updated_at : ℤ

-- The services that a push calls, on the state `S` of a shop, with faults `F`. A call that makes a row takes
-- the payload it parses, and answers what it made; a product comes with its row version.
pub record Services (S V E F : Type 0) : Type 0 where
  pub product_row : ℕ → S → Option ServerProduct
  pub products_find_by_id : ℕ → S → Result F E
  pub products_create : PushOperation V → S → Result F ((ℤ × E) × S)
  pub products_update : ℕ → List (String × V) → ℤ → S → Result F ((ℤ × E) × S)
  pub sales_create : PushOperation V → S → Result F (E × S)
  pub payments_record : PushOperation V → S → Result F (E × S)

-- A row of sync_conflict.
pub record ConflictRow (V : Type 0) : Type 0 where
  pub id : ℕ
  pub device_id : ℕ
  pub entity : String
  pub entity_id : ℕ
  pub patch : List (String × Option V)
  pub rejected : List (String × RejectionReason)
  pub server : ServerProduct
  pub resolution : Resolution

-- The rows that a transaction writes.
pub record Work (S V : Type 0) : Type 0 where
  pub shop : S
  pub conflicts : List (ConflictRow V)

abbrev pub op_type_text : OpType → Text
op_type_text create = codes "create"
op_type_text update = codes "update"
op_type_text archive = codes "archive"

abbrev pub is_create_op : OpType → Bool
is_create_op create = true
is_create_op update = false
is_create_op archive = false

module _ {V : Type 0} where
  abbrev pub resolution_of : PushOperation V → ServerProduct → ResolutionResult V
  resolution_of op server =
      resolve_product_conflict
        (record {
          patch = op.payload;
          client_updated_at = op.client_updated_at;
          base_version = op.base_version;
        })
        (record {
          row_version = server.row_version;
          effective_updated_at = or_else server.client_updated_at server.updated_at;
        })

module _ {V : Type 0} where
  abbrev pub conflict_row :
      Caller → PushOperation V → List (String × RejectionReason) → ServerProduct → ConflictRow V
  conflict_row caller op refused_fields server = record {
    id = caller.draw op.op_id;
    device_id = caller.device_id;
    entity = op.entity;
    entity_id = op.entity_id;
    patch = op.payload;
    rejected = refused_fields;
    server = server;
    resolution = server_wins;
  }

module _ {S V : Type 0} where
  abbrev pub record_conflict :
      Caller
      → PushOperation V
      → List (String × RejectionReason)
      → ServerProduct
      → Work S V
      → Work S V
  record_conflict caller op refused_fields server w = record w {
    conflicts = w.conflicts ++ conflict_row caller op refused_fields server ∷ [];
  }

module _ {S V E : Type 0} where
  abbrev pub made : ℕ → E × S → Work S V → OpResult E × Work S V
  made id (entity, shop) w = (
    record (bare applied id) { row_version = some (pos 1); server_entity = some entity },
    record w { shop = shop },
  )

module _ {S V E : Type 0} where
  abbrev pub server_wins_answer :
      PushOperation V → ServerProduct → ResolutionResult V → Work S V → E → OpResult E × Work S V
  server_wins_answer op server r w entity = (
    record (bare conflict op.op_id) {
      resolution = some server_wins;
      row_version = some server.row_version;
      server_entity = some entity;
      rejected_fields = some r.rejected;
    },
    w,
  )

  abbrev pub merged :
      PushOperation V → ResolutionResult V → Work S V → (ℤ × E) × S → OpResult E × Work S V
  merged op r w ((version, entity), shop) = (
    record (bare (if r.has_conflict then conflict else applied) op.op_id) {
      resolution = some (if r.has_conflict then partial else client_wins);
      row_version = some version;
      server_entity = some entity;
      rejected_fields = if r.has_conflict then some r.rejected else none;
    },
    record w { shop = shop },
  )

module _ {S V E F : Type 0} where
  abbrev pub create_unless :
      Services S V E F
      → PushOperation V
      → Work S V
      → Option ServerProduct
      → Result F (OpResult E × Work S V)
  create_unless services op w (some existing) =
      ok (record (bare applied op.op_id) { row_version = some existing.row_version }, w)
  create_unless services op w none = do
    ((version, entity), shop) ← services.products_create op w.shop
    ok (
      record (bare applied op.op_id) { row_version = some version; server_entity = some entity },
      record w { shop = shop },
    )

  abbrev pub apply_product_create :
      Services S V E F → PushOperation V → Work S V → Result F (OpResult E × Work S V)
  apply_product_create services op w =
      create_unless services op w (services.product_row op.entity_id w.shop)

  -- From the resolution on, in the work with its conflict recorded.
  abbrev pub update_resolved :
      Services S V E F
      → PushOperation V
      → ServerProduct
      → ResolutionResult V
      → Work S V
      → Result F (OpResult E × Work S V)
  update_resolved services op server r w =
      if is_empty r.accepted
      then (services.products_find_by_id op.entity_id w.shop >>= λ entity.
          ok (server_wins_answer op server r w entity))
      else (services.products_update op.entity_id r.accepted op.client_updated_at w.shop >>= λ made.
          ok (merged op r w made))

  abbrev pub update_found :
      Services S V E F
      → Caller
      → PushOperation V
      → Work S V
      → Option ServerProduct
      → Result F (OpResult E × Work S V)
  update_found services caller op w none = ok (rejection not_found op.op_id, w)
  update_found services caller op w (some server) =
      let r = resolution_of op server in
      update_resolved services op server r
        (if r.has_conflict then record_conflict caller op r.rejected server w else w)

  unfoldable pub apply_product_update :
      Services S V E F → Caller → PushOperation V → Work S V → Result F (OpResult E × Work S V)
  unfolding resolve_product_conflict
  apply_product_update services caller op w =
      update_found services caller op w (services.product_row op.entity_id w.shop)

  unfoldable pub dispatch :
      Services S V E F → Caller → PushOperation V → Work S V → Result F (OpResult E × Work S V)
  unfolding apply_product_update
  dispatch services caller op w =
      if eq_str op.entity "product"
      then (if is_create_op op.op_type
          then apply_product_create services op w
          else apply_product_update services caller op w)
      else if eq_str op.entity "sale" && is_create_op op.op_type
      then (do sale ← services.sales_create op w.shop; ok (made op.op_id sale w))
      else if eq_str op.entity "payment" && is_create_op op.op_type
      then (do payment ← services.payments_record op w.shop; ok (made op.op_id payment w))
      else ok (rejection unsupported_entity op.op_id, w)
