-- ===== src/Rbac/Tests.antt =====
-- Runs of packages/business-logic/src/rbac.
use dukaano.Base.{Option, [], not, refl, some, true, ◌&&◌, ◌||◌, ◌↔◌, ◌∷◌, ◌≡◌}
use dukaano.Base.Keys.{includes}
use dukaano.Rbac.{
  PermissionOverrides, cashier, granted, has_permission, is_grantable,
  resolve_effective_permissions, revoked, role_ceiling, role_defaults,
}
use dukaano.Rbac.Effective.{Distinct, has_permission_iff, is_grantable_iff}

abbrev overreach : Option PermissionOverrides
overreach = some (record {
  grant = some ("report.sales" ∷ "report.profit" ∷ []);
  revoke = some ("customer.write" ∷ []);
})

cashier_set : resolve_effective_permissions cashier overreach ≡ "sale.create" ∷ "report.sales" ∷ []
unfolding resolve_effective_permissions
cashier_set = refl

has_permission_iff_example :
    Distinct (resolve_effective_permissions cashier overreach)
    × (has_permission cashier "report.profit" overreach ≡ (
        (includes (role_defaults cashier) "report.profit"
          || includes (granted overreach) "report.profit")
        && not (includes (revoked overreach) "report.profit")
        && not (includes (role_ceiling cashier) "report.profit")))
has_permission_iff_example = has_permission_iff cashier "report.profit" overreach

is_grantable_iff_example : (is_grantable cashier "report.sales" ≡ true) ↔ (
    (overrides : Option PermissionOverrides) × (has_permission cashier "report.sales" overrides
      ≡ true))
is_grantable_iff_example = is_grantable_iff cashier "report.sales"
