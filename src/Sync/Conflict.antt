-- ===== src/Sync/Conflict.antt =====
-- packages/business-logic/src/sync/conflict.ts: which fields of a client's edit the server applies.
-- A patch is the list of its entries, `none` for an undefined value; the values are of any type.
pub mod Refusal
pub mod Fields
pub mod Queued
use Prim.Native.String.{String}
use dukaano.Base.{
  Bool, List, Option, [], false, if◌then◌else◌, is_empty, map, none, not, some, true, ◌&&◌, ◌++◌,
  ◌∷◌,
}
use dukaano.Base.Int.{eqb_ℤ, ltb_ℤ, ℤ}
use dukaano.Base.Keys.{includes, put}
use dukaano.Base.Text.{Text, codes, eq_text, lower}

pub record ServerProductState : Type 0 where
  pub row_version : ℤ
  pub effective_updated_at : ℤ

pub record ClientEdit (V : Type 0) : Type 0 where
  pub patch : List (String × Option V)
  pub client_updated_at : ℤ
  pub base_version : Option ℤ

pub data RejectionReason : Type 0 where
  stale price_needs_current_version server_authoritative : RejectionReason

pub record ResolutionResult (V : Type 0) : Type 0 where
  pub accepted : List (String × V)
  pub rejected : List (String × RejectionReason)
  pub has_conflict : Bool

abbrev pub price_fields : List String
price_fields = "sellingPricePaise" ∷ "purchasePricePaise" ∷ []

abbrev pub server_authoritative_fields : List String
server_authoritative_fields =
    "archivedAt" ∷ "isActive" ∷ "rowVersion" ∷ "unitCode" ∷ "shopId" ∷ "masterProductId" ∷ []

unfoldable pub is_price_field : String → Bool
unfolding includes
is_price_field field = includes price_fields field

unfoldable pub is_server_authoritative : String → Bool
unfolding includes
is_server_authoritative field = includes server_authoritative_fields field

-- `edit.baseVersion === server.rowVersion`
abbrev pub same_version : Option ℤ → ℤ → Bool
same_version none version = false
same_version (some base) version = eqb_ℤ base version

-- The tests of the loop for one field, in their order; `none` where the field is accepted.
unfoldable pub refusal : Bool → Bool → String → Option RejectionReason
refusal newer current field =
    if is_server_authoritative field
    then some server_authoritative
    else if not newer
    then some stale
    else if is_price_field field && not current
    then some price_needs_current_version
    else none

pub record Sorted (V : Type 0) : Type 0 where
  pub accepted : List (String × V)
  pub rejected : List (String × RejectionReason)

module _ {V : Type 0} where
  -- `rejected.push(…)`, or `Object.assign(accepted, { [field]: value })`
  abbrev pub settle : Option RejectionReason → String → V → Sorted V → Sorted V
  settle (some reason) field value s = record s { rejected = s.rejected ++ (field, reason) ∷ [] }
  settle none field value s = record s { accepted = put field value s.accepted }

  -- The loop over the entries.
  pub sort_fields : Bool → Bool → List (String × Option V) → Sorted V → Sorted V
  sort_fields newer current [] s = s
  sort_fields newer current ((field, none) ∷ patch) s = sort_fields newer current patch s
  sort_fields newer current ((field, some value) ∷ patch) s =
      sort_fields newer current patch (settle (refusal newer current field) field value s)

  abbrev pub client_is_newer : ClientEdit V → ServerProductState → Bool
  client_is_newer edit server = ltb_ℤ server.effective_updated_at edit.client_updated_at

  abbrev pub is_current : ClientEdit V → ServerProductState → Bool
  is_current edit server = same_version edit.base_version server.row_version

  unfoldable pub resolve_product_conflict : ClientEdit V → ServerProductState → ResolutionResult V
  unfolding sort_fields refusal is_server_authoritative is_price_field put
  resolve_product_conflict edit server =
      let s =
        sort_fields (client_is_newer edit server) (is_current edit server) edit.patch
          (record { accepted = []; rejected = [] }) in
      record {
        accepted = s.accepted;
        rejected = s.rejected;
        has_conflict = not (is_empty s.rejected);
      }

abbrev pub append_only_entities : List String
append_only_entities =
    "sale" ∷ "sale_item" ∷ "payment" ∷ "payment_allocation" ∷ "customer_ledger_entry"
    ∷ "inventory_transaction" ∷ []

-- `opType.toLowerCase() === 'create'`. The letters of the word are the lower case of ASCII letters only.
unfoldable pub is_create : Text → Bool
unfolding lower eq_text
is_create op_type = eq_text (map lower op_type) (codes "create")

unfoldable pub is_append_only_fact : String → Text → Bool
unfolding includes is_create
is_append_only_fact entity op_type = includes append_only_entities entity && is_create op_type

-- `{ allowed, reason? }`; PERMISSION_REVOKED is the only reason.
pub record Authorization : Type 0 where
  pub allowed : Bool
  pub permission_revoked : Bool

unfoldable pub authorize_queued_operation : String → Text → Bool → Authorization
authorize_queued_operation entity op_type holds_permission_now =
    if holds_permission_now
    then record { allowed = true; permission_revoked = false }
    else if is_append_only_fact entity op_type
    then record { allowed = true; permission_revoked = false }
    else record { allowed = false; permission_revoked = true }
