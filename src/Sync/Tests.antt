-- ===== src/Sync/Tests.antt =====
-- Runs of packages/business-logic/src/sync.
use dukaano.Base.{[], arith, false, map, none, not, refl, some, true, ℕ, ◌↔◌, ◌∷◌, ◌≡◌, ◌⊎◌}
use dukaano.Base.Decimal.{is_digit, of_decimal}
use dukaano.Base.Int.{pos}
use dukaano.Base.Keys.{KeysDistinct, lookup}
use dukaano.Base.Text.{codes, lower}
use dukaano.Sync.Conflict.{
  ClientEdit, ServerProductState, append_only_entities, authorize_queued_operation,
  price_needs_current_version, resolve_product_conflict, server_authoritative,
}
use dukaano.Sync.Conflict.Fields.{resolve_product_conflict_accepts}
use dukaano.Sync.Conflict.Queued.{authorize_queued_operation_iff}
use dukaano.Sync.Conflict.Refusal.{Acceptable}
use dukaano.Sync.Cursor.{SyncCursor, check_range, format_cursor, match_cursor, parse_cursor}
use dukaano.Sync.Cursor.RoundTrip.{parse_cursor-format_cursor}
use mathlib.Core.List.{Mem}

abbrev here : SyncCursor
here = record { txid = 712; change_id = 45 }

parse_cursor-format_cursor_example : parse_cursor (format_cursor here) ≡ some here
parse_cursor-format_cursor_example = parse_cursor-format_cursor here (ground arith) (ground arith)

padded : parse_cursor (codes "0712:45") ≡ some here
unfolding parse_cursor match_cursor is_digit check_range of_decimal
padded = refl

over_range : parse_cursor (codes "18446744073709551616:0") ≡ none
unfolding parse_cursor match_cursor is_digit check_range of_decimal
over_range = refl

abbrev row : ServerProductState
row = record { row_version = pos 4; effective_updated_at = pos 1000 }

abbrev edit : ClientEdit ℕ
edit = record {
  patch =
      ("name", some 1)
      ∷ ("sellingPricePaise", some 2)
      ∷ ("barcode", none)
      ∷ ("unitCode", some 3)
      ∷ [];
  client_updated_at = pos 1001;
  base_version = some (pos 3);
}

edit-KeysDistinct : KeysDistinct edit.patch
unfolding lookup
edit-KeysDistinct = (refl, (refl, (refl, (refl, tt))))

edit_resolved : resolve_product_conflict edit row ≡ record {
  accepted = ("name", 1) ∷ [];
  rejected =
      ("sellingPricePaise", price_needs_current_version) ∷ ("unitCode", server_authoritative) ∷ [];
  has_conflict = true;
}
unfolding resolve_product_conflict
edit_resolved = refl

resolve_product_conflict_accepts_example :
    (lookup "name" (resolve_product_conflict edit row).accepted ≡ some 1)
    ↔ ((lookup "name" edit.patch ≡ some (some 1)) × Acceptable edit row "name")
resolve_product_conflict_accepts_example =
    resolve_product_conflict_accepts edit row "name" 1 edit-KeysDistinct

abbrev rename : ClientEdit ℕ
rename = record { patch = ("name", some 1) ∷ []; client_updated_at = pos 1001; base_version = none }

rename_clean : (resolve_product_conflict rename row).has_conflict ≡ false
unfolding resolve_product_conflict
rename_clean = refl

rename-KeysDistinct : KeysDistinct rename.patch
unfolding lookup
rename-KeysDistinct = (refl, tt)

rename_found : lookup "name" rename.patch ≡ some (some 1)
unfolding lookup
rename_found = refl

authorize_queued_operation_iff_example :
    (((authorize_queued_operation "sale" (codes "CREATE") false).allowed ≡ true) ↔ (
      (false ≡ true)
      ⊎ (Mem "sale" append_only_entities × (map lower (codes "CREATE") ≡ codes "create"))))
    × ((authorize_queued_operation "sale" (codes "CREATE") false).permission_revoked
        ≡ not (authorize_queued_operation "sale" (codes "CREATE") false).allowed)
authorize_queued_operation_iff_example =
    authorize_queued_operation_iff "sale" (codes "CREATE") false
