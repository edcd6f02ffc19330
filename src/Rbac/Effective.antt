-- ===== src/Rbac/Effective.antt =====
-- The members of an effective set, packages/business-logic/src/rbac/matrix.ts.
use Prim.Native.String.{String}
use dukaano.Base.{
  Bool, Bool-cases, List, Option, [], arith, false, inl, inr, none, not, refl, some, sym, true,
  ◌&&◌, ◌++◌, ◌||◌, ◌↔◌, ◌∙◌, ◌∷◌, ◌≡◌,
}
use dukaano.Base.Keys.{eq_str, includes}
use dukaano.Rbac.{
  Permission, PermissionOverrides, ShopRole, add, add_all, delete, delete_all, granted,
  has_permission, is_grantable, resolve_effective_permissions, revoked, role_ceiling, role_defaults,
}
use text.Mathlib.TextEquality.{eq_iff}

-- No member stands twice.
abbrev pub Distinct : List Permission → Type 0
Distinct [] = Unit
Distinct (p ∷ ps) = (includes ps p ≡ false) × Distinct ps

includes-append :
    (ps qs : List Permission) (x : Permission)
    → includes (ps ++ qs) x ≡ (includes ps x || includes qs x)
unfolding includes
includes-append [] qs x = refl
includes-append (p ∷ ps) qs x = ground (arith, includes-append ps qs x)

Distinct-append_one :
    (ps : List Permission) (p : Permission)
    → Distinct ps
    → includes ps p ≡ false
    → Distinct (ps ++ p ∷ [])
unfolding includes
Distinct-append_one [] p d new = (refl, tt)
Distinct-append_one (q ∷ ps) p d new = (
  rw (includes-append ps (p ∷ []) q) (ground (arith, d.0, eq_iff q p, eq_iff p q)),
  Distinct-append_one ps p d.1 (ground arith),
)

Distinct-add : (set : List Permission) (p : Permission) → Distinct set → Distinct (add set p)
unfolding add
Distinct-add set p d = elim (Bool-cases (includes set p)) [
  | inl member ↦ rw member d
  | inr new ↦ rw new (Distinct-append_one set p d new)
]

includes-add :
    (set : List Permission) (p x : Permission)
    → includes (add set p) x ≡ (includes set x || eq_str p x)
unfolding add includes
includes-add set p x = elim (Bool-cases (includes set p)) [
  | inl member ↦ rw member (grind (arith, eq_iff p x, member))
  | inr new ↦ rw (new, includes-append set (p ∷ []) x) (ground arith)
]

includes-delete_le :
    (set : List Permission) (p x : Permission)
    → includes set x ≡ false
    → includes (delete set p) x ≡ false
unfolding delete includes
includes-delete_le [] p x e = refl
includes-delete_le (q ∷ set) p x e = grind (arith, includes-delete_le set p x)

Distinct-delete : (set : List Permission) (p : Permission) → Distinct set → Distinct (delete set p)
unfolding delete
Distinct-delete [] p d = tt
Distinct-delete (q ∷ set) p d = elim (Bool-cases (eq_str q p)) [
  | inl same ↦ rw same (d.1)
  | inr other ↦ rw other (includes-delete_le set p q d.0, Distinct-delete set p d.1)
]

includes-delete :
    (set : List Permission) (p x : Permission)
    → Distinct set
    → includes (delete set p) x ≡ (includes set x && not (eq_str p x))
unfolding delete includes
includes-delete [] p x d = refl
includes-delete (q ∷ set) p x d =
    grind (arith, includes-delete set p x d.1, d.0, eq_iff q p, eq_iff q x, eq_iff p x)

Distinct-add_all : (set ps : List Permission) → Distinct set → Distinct (add_all set ps)
unfolding add_all
Distinct-add_all set [] d = d
Distinct-add_all set (p ∷ ps) d = Distinct-add_all (add set p) ps (Distinct-add set p d)

includes-add_all :
    (set ps : List Permission) (x : Permission)
    → includes (add_all set ps) x ≡ (includes set x || includes ps x)
unfolding add_all includes
includes-add_all set [] x = ground arith
includes-add_all set (p ∷ ps) x =
    rw (includes-add_all (add set p) ps x, includes-add set p x) (ground arith)

Distinct-delete_all : (set ps : List Permission) → Distinct set → Distinct (delete_all set ps)
unfolding delete_all
Distinct-delete_all set [] d = d
Distinct-delete_all set (p ∷ ps) d = Distinct-delete_all (delete set p) ps (Distinct-delete set p d)

includes-delete_all :
    (set ps : List Permission) (x : Permission)
    → Distinct set
    → includes (delete_all set ps) x ≡ (includes set x && not (includes ps x))
unfolding delete_all includes
includes-delete_all set [] x d = ground arith
includes-delete_all set (p ∷ ps) x d =
    rw
      (includes-delete_all (delete set p) ps x (Distinct-delete set p d), includes-delete set p x d)
      (ground arith)

-- The effective permissions are a set without repetition, and a permission is held exactly when it is a
-- default of the role or granted, is not revoked, and is not above the role's ceiling.
pub has_permission_iff :
    (role : ShopRole) (p : Permission) (overrides : Option PermissionOverrides)
    → Distinct (resolve_effective_permissions role overrides)
      × (has_permission role p overrides ≡ (
          (includes (role_defaults role) p || includes (granted overrides) p)
          && not (includes (revoked overrides) p)
          && not (includes (role_ceiling role) p)))
unfolding has_permission resolve_effective_permissions includes
has_permission_iff role p overrides =
    let defaults = add_all [] (role_defaults role) in
    let d1 = Distinct-add_all [] (role_defaults role) tt in
    let d2 = Distinct-add_all defaults (granted overrides) d1 in
    let d3 = Distinct-delete_all (add_all defaults (granted overrides)) (revoked overrides) d2 in
    let kept = delete_all (add_all defaults (granted overrides)) (revoked overrides) in
    (
      Distinct-delete_all kept (role_ceiling role) d3,
      rw
          (
            includes-delete_all kept (role_ceiling role) p d3,
            includes-delete_all (add_all defaults (granted overrides)) (revoked overrides) p d2,
            includes-add_all defaults (granted overrides) p,
            includes-add_all [] (role_defaults role) p,
          )
          (ground arith),
    )

under_ceiling : (a b c : Bool) → (a && b && not c) ≡ true → not c ≡ true
under_ceiling a b c e = ground arith

eq_str_self : (p : String) → eq_str p p ≡ true
eq_str_self p = (eq_iff p p).1 refl

abbrev granting : Permission → Option PermissionOverrides
granting p = some (record { grant = some (p ∷ []); revoke = none })

granted-granting : (p : Permission) → includes (granted (granting p)) p ≡ true
unfolding includes
granted-granting p = rw (eq_str_self p) refl

revoked-granting : (p : Permission) → includes (revoked (granting p)) p ≡ false
unfolding includes
revoked-granting p = refl

within :
    (a b c d : Bool) → b ≡ true → c ≡ false → not d ≡ true → ((a || b) && not c && not d) ≡ true
within a b c d g r e = ground arith

-- The ceiling cannot be passed, and nothing else is out of reach: a permission is grantable to a role
-- exactly when there are overrides that give it to the role.
pub is_grantable_iff :
    (role : ShopRole) (p : Permission)
    → (is_grantable role p ≡ true)
      ↔ ((overrides : Option PermissionOverrides) × (has_permission role p overrides ≡ true))
unfolding is_grantable
is_grantable_iff role p = (
  (λ e. (
    granting p,
    (has_permission_iff role p (granting p)).1
        ∙ within (includes (role_defaults role) p) (includes (granted (granting p)) p)
            (includes (revoked (granting p)) p) (includes (role_ceiling role) p)
            (granted-granting p) (revoked-granting p) e,
  )),
  (λ (overrides, held).
      under_ceiling (includes (role_defaults role) p || includes (granted overrides) p)
        (not (includes (revoked overrides) p)) (includes (role_ceiling role) p)
        (sym (has_permission_iff role p overrides).1 ∙ held)),
)
