-- ===== src/Rbac.antt =====
-- packages/business-logic/src/rbac/matrix.ts and packages/types/src/permissions.ts. A `Set` is the list of
-- its members in the order of insertion.
pub mod Effective
pub mod Fingerprint
mod Tests
use Prim.Native.String.{String}
use dukaano.Base.{Bool, List, Option, [], if◌then◌else◌, none, not, or_else, some, ◌++◌, ◌∷◌}
use dukaano.Base.Keys.{eq_str, includes}

-- SHOP_ROLES
pub data ShopRole : Type 0 where
  owner manager cashier : ShopRole

abbrev pub Permission : Type 0
Permission = String

abbrev pub permissions : List Permission
permissions =
    "sale.create" ∷ "sale.view.all" ∷ "sale.cancel" ∷ "sale.return" ∷ "sale.discount"
    ∷ "product.view.cost" ∷ "product.write" ∷ "product.price.write" ∷ "product.archive"
    ∷ "product.import" ∷ "inventory.adjust" ∷ "inventory.stocktake" ∷ "customer.write"
    ∷ "customer.credit.sell" ∷ "customer.payment.receive" ∷ "customer.ledger.adjust"
    ∷ "customer.remind" ∷ "customer.archive" ∷ "purchase.manage" ∷ "supplier.manage"
    ∷ "report.sales" ∷ "report.profit" ∷ "employee.manage" ∷ "settings.manage" ∷ "messaging.manage"
    ∷ "subscription.manage" ∷ "data.export" ∷ "audit.view" ∷ "device.revoke" ∷ []

unfoldable pub is_permission : String → Bool
unfolding includes
is_permission value = includes permissions value

-- A list that is not there has no members.
pub record PermissionOverrides : Type 0 where
  pub grant : Option (List Permission)
  pub revoke : Option (List Permission)

abbrev pub role_defaults : ShopRole → List Permission
role_defaults owner = permissions
role_defaults manager =
    "sale.create" ∷ "sale.view.all" ∷ "sale.cancel" ∷ "sale.return" ∷ "sale.discount"
    ∷ "product.view.cost" ∷ "product.write" ∷ "product.price.write" ∷ "product.archive"
    ∷ "product.import" ∷ "inventory.adjust" ∷ "inventory.stocktake" ∷ "customer.write"
    ∷ "customer.credit.sell" ∷ "customer.payment.receive" ∷ "customer.remind" ∷ "purchase.manage"
    ∷ "supplier.manage" ∷ "report.sales" ∷ []
role_defaults cashier = "sale.create" ∷ "customer.write" ∷ []

abbrev pub role_ceiling : ShopRole → List Permission
role_ceiling owner = []
role_ceiling manager = "subscription.manage" ∷ []
role_ceiling cashier =
    "product.view.cost" ∷ "customer.ledger.adjust" ∷ "customer.archive" ∷ "report.profit"
    ∷ "employee.manage" ∷ "settings.manage" ∷ "messaging.manage" ∷ "subscription.manage"
    ∷ "data.export" ∷ "audit.view" ∷ "device.revoke" ∷ []

-- `set.add(p)`
unfoldable pub add : List Permission → Permission → List Permission
unfolding includes
add set p = if includes set p then set else set ++ p ∷ []

-- `set.delete(p)`; the members of a set are distinct, so at most one goes.
unfoldable pub delete : List Permission → Permission → List Permission
delete [] p = []
delete (q ∷ set) p = if eq_str q p then set else q ∷ delete set p

-- `for (const p of ps) set.add(p)`, which is also how `new Set(ps)` fills the empty set
unfoldable pub add_all : List Permission → List Permission → List Permission
unfolding add
add_all set [] = set
add_all set (p ∷ ps) = add_all (add set p) ps

unfoldable pub delete_all : List Permission → List Permission → List Permission
unfolding delete
delete_all set [] = set
delete_all set (p ∷ ps) = delete_all (delete set p) ps

-- `overrides?.grant ?? []`
abbrev pub granted : Option PermissionOverrides → List Permission
granted none = []
granted (some o) = or_else o.grant []

abbrev pub revoked : Option PermissionOverrides → List Permission
revoked none = []
revoked (some o) = or_else o.revoke []

unfoldable pub resolve_effective_permissions :
    ShopRole → Option PermissionOverrides → List Permission
unfolding add_all delete_all
resolve_effective_permissions role overrides =
    let defaults = add_all [] (role_defaults role) in
    let with_grants = add_all defaults (granted overrides) in
    let without_revokes = delete_all with_grants (revoked overrides) in
    delete_all without_revokes (role_ceiling role)

unfoldable pub has_permission : ShopRole → Permission → Option PermissionOverrides → Bool
unfolding resolve_effective_permissions includes
has_permission role permission overrides =
    includes (resolve_effective_permissions role overrides) permission

unfoldable pub is_grantable : ShopRole → Permission → Bool
unfolding includes
is_grantable role permission = not (includes (role_ceiling role) permission)
