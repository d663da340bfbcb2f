-- ===== src/Dag/Whole.antt =====
-- backend/schemas/dag.py: `DAGScript` accepts exactly the scripts whose fields are in bounds, whose
-- nodes have proper actions, and whose graph is sound.
use sphere_platform.Base.{◌≤◌, String, List, [], ◌∷◌, length, All, ◌≡◌, ◌↔◌, refl, arith}
use sphere_platform.Dag.Node.{
  Node, Checked, valid, invalid, ◌then_check◌, check_fields, validate_action_has_type,
}
use sphere_platform.Dag.Validate.{
  Script, accepted, check_script_fields, of_checked, check_each_node, validate_dag, validate_script,
  IsSound,
}
use sphere_platform.Dag.Accepts.{and_then-accepted, validate_dag-IsSound}
use sphere_platform.Dag.ValidNode.{IsValidNode, node-valid}

module _ (lua : String → List String) where
  of_checked-accepted : (c : Checked) → (of_checked c ≡ accepted) ↔ (c ≡ valid)
  of_checked-accepted valid = (λ h. refl, λ h. refl)
  of_checked-accepted (invalid x) = (λ h. cc, λ h. cc)

  check_each_node-accepted :
      (ns : List Node) → (check_each_node lua ns ≡ accepted) ↔ All (IsValidNode lua) ns
  unfolding check_each_node
  check_each_node-accepted [] = (λ h. tt, λ h. refl)
  check_each_node-accepted (n ∷ ns) =
      let c = check_fields n then_check validate_action_has_type lua n in
      let both = and_then-accepted (of_checked c) (check_each_node lua ns) in
      let one = of_checked-accepted c in
      let node = node-valid lua n in
      let rest = check_each_node-accepted ns in
      (
        λ h. (node.0 (one.0 (both.0 h).0), rest.0 (both.0 h).1),
        λ h. both.1 (one.1 (node.1 h.0), rest.1 h.1),
      )

abbrev pub InBounds : Script → Type 0
InBounds s =
    (2 ≤ length s.nodes)
    × (length s.nodes ≤ 500)
    × (1000 ≤ s.timeout_ms)
    × (s.timeout_ms ≤ 86400000)

check_script_fields-accepted : (s : Script) → (check_script_fields s ≡ accepted) ↔ InBounds s
unfolding check_script_fields
check_script_fields-accepted s = (
  λ h. (ground (arith, h), ground (arith, h), ground (arith, h), ground (arith, h)),
  λ (a, b, c, d). ground (arith, a, b, c, d),
)

-- A script is accepted as a whole exactly when its graph is sound, it has from 2 to 500 nodes and a
-- timeout from a second to a day, and each node is valid: at most 5 retries, a timeout from 100 ms to
-- an hour, a known type of action, both targets that are not empty where it is a condition, and no
-- violation in the code, if there is some, of a Lua action or a condition.
pub validate_script-accepted :
    (lua : String → List String) (s : Script)
    → (validate_script lua s ≡ accepted) ↔ (All (IsValidNode lua) s.nodes × InBounds s × IsSound s)
unfolding validate_script
validate_script-accepted lua s =
    let outer = and_then-accepted (check_each_node lua s.nodes) _ in
    let inner = and_then-accepted (check_script_fields s) (validate_dag s) in
    let nodes = check_each_node-accepted lua s.nodes in
    let fields = check_script_fields-accepted s in
    let graph = validate_dag-IsSound s in
    (
      λ h.
          let rest = inner.0 (outer.0 h).1 in
          (nodes.0 (outer.0 h).0, fields.0 rest.0, graph.0 rest.1),
      λ (a, b, c). outer.1 (nodes.1 a, inner.1 (fields.1 b, graph.1 c)),
    )
