-- ===== src/Rbac/Order.antt =====
-- backend/core/rbac.py: higher roles have what lower roles have.
use sphere_platform.Base.{
  ℕ, String, Bool, true, false, not, ◌&&◌, ◌||◌, Option, none, some, List, [], ◌∷◌, ◌==◌, leb,
  if◌then◌else◌, arith, ◌≡◌, refl, sym, ◌∙◌, ap, Bool-cases, inl, inr, eq_true, subst, ◌≤◌, ◌≢◌,
  ◌↔◌,
}
use sphere_platform.Base.Dict.{Dict, get}
use sphere_platform.Rbac.{
  Role, super_admin, org_owner, org_admin, device_manager, script_runner, viewer, api_user, value,
  role_of, find_role, permissions, has_role, allowed, permits, has_permission,
}

-- The order of the roles that the matrix keeps; an API user stands below all.
unfoldable pub rank : Role → ℕ
rank api_user = 0
rank viewer = 1
rank script_runner = 2
rank device_manager = 3
rank org_admin = 4
rank org_owner = 5
rank super_admin = 6

abbrev pub is_exception : String → Role → Role → Bool
is_exception p viewer script_runner = p == "vpn:read"
is_exception p r s = false

-- What the matrix keeps for two roles and one permission.
abbrev keeps : String × List Role → Role → Role → Bool
keeps row r s =
    not (leb (rank r) (rank s))
    || not (has_role row.1 r)
    || (if is_exception row.0 r s then not (has_role row.1 s) else has_role row.1 s)

abbrev every_role : (Role → Bool) → Bool
every_role f =
    f super_admin
    && f org_owner
    && f org_admin
    && f device_manager
    && f script_runner
    && f viewer
    && f api_user

every_role-holds : (f : Role → Bool) (r : Role) → every_role f ≡ true → f r ≡ true
every_role-holds f super_admin h = ground (arith, h)
every_role-holds f org_owner h = ground (arith, h)
every_role-holds f org_admin h = ground (arith, h)
every_role-holds f device_manager h = ground (arith, h)
every_role-holds f script_runner h = ground (arith, h)
every_role-holds f viewer h = ground (arith, h)
every_role-holds f api_user h = ground (arith, h)

abbrev every_row : (String × List Role → Bool) → Dict (List Role) → Bool
every_row f [] = true
every_row f (row ∷ d) = f row && every_row f d

every_row-holds :
    (f : String × List Role → Bool) (d : Dict (List Role)) (p : String) (roles : List Role)
    → every_row f d ≡ true
    → get d p ≡ some roles
    → f (p, roles) ≡ true
unfolding get
every_row-holds f [] p roles h e = ground (arith, e)
every_row-holds f ((q, rs) ∷ d) p roles h e = elim (Bool-cases (q == p)) [
  | inl k ↦
      let same : q ≡ p = eq_true q p k in
      let at : rs ≡ roles = ground (arith, e, k) in
      subst (λ x. f (x, roles) ≡ true) same (subst (λ x. f (q, x) ≡ true) at (ground (arith, h)))
  | inr k ↦ every_row-holds f d p roles (ground (arith, h)) (ground (arith, e, k))
]

matrix : every_row (λ row. every_role (λ r. every_role (λ s. keeps row r s))) permissions ≡ true
unfolding permissions has_role value rank
matrix = refl

role_of-value : (r : Role) → role_of (value r) ≡ some r
unfolding role_of find_role value
role_of-value super_admin = refl
role_of-value org_owner = refl
role_of-value org_admin = refl
role_of-value device_manager = refl
role_of-value script_runner = refl
role_of-value viewer = refl
role_of-value api_user = refl

has_permission-value :
    (r : Role) (p : String) → has_permission (value r) p ≡ has_role (allowed (get permissions p)) r
unfolding has_permission
has_permission-value r p = ap (permits (allowed (get permissions p))) (role_of-value r)

row-keeps :
    (r s : Role) (p : String) (roles : List Role)
    → get permissions p ≡ some roles
    → keeps (p, roles) r s ≡ true
row-keeps r s p roles e = every_role-holds (keeps (p, roles) r) s (
    every_role-holds (λ u. every_role (keeps (p, roles) u)) r
      (every_row-holds (λ row. every_role (λ u. every_role (keeps row u))) permissions p roles
        matrix e))

use_row :
    (r s : Role) (p : String) (roles : List Role)
    → keeps (p, roles) r s ≡ true
    → rank r ≤ rank s
    → has_role roles r ≡ true
    → has_role roles s ≡ not (is_exception p r s)
use_row r s p roles k le h = elim (Bool-cases (is_exception p r s)) [
  | inl e ↦ ground (arith, k, le, h, e)
  | inr e ↦ ground (arith, k, le, h, e)
]

-- A role has every permission that a lower one has, in the order API user, viewer, script runner,
-- device manager, organisation's admin, organisation's owner, super admin, but for one: where viewers
-- may read the VPN, script runners may not.
pub has_permission-order :
    (r s : Role) (p : String)
    → rank r ≤ rank s
    → has_permission (value r) p ≡ true
    → has_permission (value s) p ≡ not (is_exception p r s)
unfolding has_role
has_permission-order r s p le h = turn (get permissions p) refl
  where
    turn :
        (o : Option (List Role))
        → get permissions p ≡ o
        → has_permission (value s) p ≡ not (is_exception p r s)
    turn none e =
        absurd
          (ground (arith, sym h ∙ has_permission-value r p ∙ ap (λ x. has_role (allowed x) r) e))
    turn (some roles) e =
        let has : has_role roles r ≡ true =
          sym (has_permission-value r p ∙ ap (λ x. has_role (allowed x) r) e) ∙ h in
        has_permission-value s p
        ∙ ap (λ x. has_role (allowed x) s) e
        ∙ use_row r s p roles (row-keeps r s p roles e) le has

-- No list of the matrix names the API user, so that role may do nothing.
nobody : every_row (λ row. not (has_role row.1 api_user)) permissions ≡ true
unfolding permissions has_role value
nobody = refl

-- A permission is granted exactly where the matrix lists the role of that name for it: a text that is
-- no role has none, nor has the API user, and a permission that the matrix does not have is no one's.
pub has_permission-listed :
    (user p : String)
    → (has_permission user p ≡ true) ↔ (
        (r : Role) × (roles : List Role) × (role_of user ≡ some r)
        × (get permissions p ≡ some roles)
        × (has_role roles r ≡ true)
        × (r ≢ api_user))
unfolding has_permission has_role
has_permission-listed user p = (there (role_of user) (get permissions p) refl refl, back)
  where
    not_api :
        (r : Role) (roles : List Role)
        → get permissions p ≡ some roles
        → has_role roles r ≡ true
        → r ≢ api_user
    not_api r roles e h q = ground (
      arith,
      every_row-holds (λ row. not (has_role row.1 api_user)) permissions p roles nobody e,
      subst (λ x. has_role roles x ≡ true) q h,
    )

    there :
        (u : Option Role) (o : Option (List Role))
        → role_of user ≡ u
        → get permissions p ≡ o
        → permits (allowed o) u ≡ true
        → (r : Role) × (roles : List Role) × (role_of user ≡ some r)
          × (get permissions p ≡ some roles)
          × (has_role roles r ≡ true)
          × (r ≢ api_user)
    there none o e f h = ground (arith, h)
    there (some r) none e f h = ground (arith, h)
    there (some r) (some roles) e f h = (r, roles, e, f, h, not_api r roles f h)

    back :
        ((r : Role) × (roles : List Role) × (role_of user ≡ some r)
          × (get permissions p ≡ some roles)
          × (has_role roles r ≡ true)
          × (r ≢ api_user))
        → has_permission user p ≡ true
    back (r, roles, e, f, h, n) = rw (has_permission, e, f) h
