-- ===== src/Rbac.antt =====
-- backend/core/rbac.py: the roles, the matrix of permissions and `has_permission`.
pub mod Order
mod Tests
use sphere_platform.Base.{
  String, Bool, true, false, ◌||◌, Option, none, some, List, [], ◌∷◌, ◌==◌, if◌then◌else◌,
}
use sphere_platform.Base.Dict.{Dict, get}

pub data Role : Type 0 where
  super_admin org_owner org_admin device_manager script_runner viewer api_user : Role

-- `role.value`
unfoldable pub value : Role → String
value super_admin = "super_admin"
value org_owner = "org_owner"
value org_admin = "org_admin"
value device_manager = "device_manager"
value script_runner = "script_runner"
value viewer = "viewer"
value api_user = "api_user"

abbrev pub all_roles : List Role
all_roles =
    super_admin ∷ org_owner ∷ org_admin ∷ device_manager ∷ script_runner ∷ viewer ∷ api_user ∷ []

unfoldable pub find_role : List Role → String → Option Role
unfolding value
find_role [] s = none
find_role (r ∷ rs) s = let rest = find_role rs s in if value r == s then some r else rest

-- `Role(s)`, where a ValueError is `none`.
unfoldable pub role_of : String → Option Role
unfolding find_role
role_of s = find_role all_roles s

unfoldable pub permissions : Dict (List Role)
permissions =
    (
      "device:read",
      viewer ∷ script_runner ∷ device_manager ∷ org_admin ∷ org_owner ∷ super_admin ∷ [],
    )
    ∷ ("device:write", device_manager ∷ org_admin ∷ org_owner ∷ super_admin ∷ [])
    ∷ ("device:delete", org_admin ∷ org_owner ∷ super_admin ∷ [])
    ∷ ("device:bulk_action", device_manager ∷ org_admin ∷ org_owner ∷ super_admin ∷ [])
    ∷ (
      "script:read",
      viewer ∷ script_runner ∷ device_manager ∷ org_admin ∷ org_owner ∷ super_admin ∷ [],
    )
    ∷ ("script:write", device_manager ∷ org_admin ∷ org_owner ∷ super_admin ∷ [])
    ∷ ("script:execute", script_runner ∷ device_manager ∷ org_admin ∷ org_owner ∷ super_admin ∷ [])
    ∷ ("vpn:read", viewer ∷ device_manager ∷ org_admin ∷ org_owner ∷ super_admin ∷ [])
    ∷ ("vpn:write", org_admin ∷ org_owner ∷ super_admin ∷ [])
    ∷ ("vpn:mass_operation", org_admin ∷ org_owner ∷ super_admin ∷ [])
    ∷ ("user:read", org_admin ∷ org_owner ∷ super_admin ∷ [])
    ∷ ("user:write", org_owner ∷ super_admin ∷ [])
    ∷ (
      "monitoring:read",
      viewer ∷ script_runner ∷ device_manager ∷ org_admin ∷ org_owner ∷ super_admin ∷ [],
    )
    ∷ ("api_key:read", org_admin ∷ org_owner ∷ super_admin ∷ [])
    ∷ ("api_key:write", org_owner ∷ super_admin ∷ [])
    ∷ ("audit:read", org_admin ∷ org_owner ∷ super_admin ∷ [])
    ∷ (
      "stream:read",
      viewer ∷ script_runner ∷ device_manager ∷ org_admin ∷ org_owner ∷ super_admin ∷ [],
    )
    ∷ ("stream:control", device_manager ∷ org_admin ∷ org_owner ∷ super_admin ∷ [])
    ∷ (
      "pipeline:read",
      viewer ∷ script_runner ∷ device_manager ∷ org_admin ∷ org_owner ∷ super_admin ∷ [],
    )
    ∷ ("pipeline:write", device_manager ∷ org_admin ∷ org_owner ∷ super_admin ∷ [])
    ∷ (
      "pipeline:execute",
      script_runner ∷ device_manager ∷ org_admin ∷ org_owner ∷ super_admin ∷ [],
    )
    ∷ (
      "schedule:read",
      viewer ∷ script_runner ∷ device_manager ∷ org_admin ∷ org_owner ∷ super_admin ∷ [],
    )
    ∷ ("schedule:write", device_manager ∷ org_admin ∷ org_owner ∷ super_admin ∷ [])
    ∷ (
      "account:read",
      viewer ∷ script_runner ∷ device_manager ∷ org_admin ∷ org_owner ∷ super_admin ∷ [],
    )
    ∷ ("account:write", device_manager ∷ org_admin ∷ org_owner ∷ super_admin ∷ [])
    ∷ (
      "event:read",
      viewer ∷ script_runner ∷ device_manager ∷ org_admin ∷ org_owner ∷ super_admin ∷ [],
    )
    ∷ ("event:write", device_manager ∷ org_admin ∷ org_owner ∷ super_admin ∷ [])
    ∷ (
      "session:read",
      viewer ∷ script_runner ∷ device_manager ∷ org_admin ∷ org_owner ∷ super_admin ∷ [],
    )
    ∷ ("session:write", device_manager ∷ org_admin ∷ org_owner ∷ super_admin ∷ [])
    ∷ []

-- `role in roles`
unfoldable pub has_role : List Role → Role → Bool
unfolding value
has_role [] r = false
has_role (s ∷ rs) r = value s == value r || has_role rs r

abbrev pub allowed : Option (List Role) → List Role
allowed none = []
allowed (some roles) = roles

abbrev pub permits : List Role → Option Role → Bool
permits roles none = false
permits roles (some r) = has_role roles r

unfoldable pub has_permission : String → String → Bool
unfolding role_of has_role permissions
has_permission user_role permission =
    permits (allowed (get permissions permission)) (role_of user_role)
