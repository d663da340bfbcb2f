-- ===== src/Rbac/Tests.antt =====
-- rbac.py: some permissions, and the theorem on the order at one of them.
use sphere_platform.Base.{true, false, ◌≡◌, refl, arith, not}
use sphere_platform.Base.Dict.{get}
use sphere_platform.Rbac.{
  script_runner, value, has_permission, role_of, find_role, permissions, has_role, viewer,
}
use sphere_platform.Rbac.Order.{rank, is_exception, has_permission-order}

has_permission-order_example :
    has_permission (value script_runner) "vpn:read"
    ≡ not (is_exception "vpn:read" viewer script_runner)
unfolding has_permission role_of find_role permissions has_role value get rank
has_permission-order_example =
    has_permission-order viewer script_runner "vpn:read" (omega arith) refl

viewer_reads_vpn : has_permission "viewer" "vpn:read" ≡ true
unfolding has_permission role_of find_role permissions has_role value get
viewer_reads_vpn = refl

runner_does_not : has_permission "script_runner" "vpn:read" ≡ false
unfolding has_permission role_of find_role permissions has_role value get
runner_does_not = refl
