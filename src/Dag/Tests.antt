-- ===== src/Dag/Tests.antt =====
-- backend/schemas/dag.py: runs of the validator on small scripts, and its theorems at them.
use sphere_platform.Base.{String, true, Option, none, some, List, [], ◌∷◌, has, ◌≡◌, ◌↔◌, refl, All}
use sphere_platform.Dag.Node.{
  Node, plain_refs, condition_refs, invalid, unknown_type, missing_ref, bad_retry, check_fields,
  validate_action_has_type,
}
use sphere_platform.Base.Dict.{get, put}
use sphere_platform.Dag.Search.{build_adj, get_reachable}
use sphere_platform.Dag.Reachable.{Reach, get_reachable-Reach}
use sphere_platform.Dag.Validate.{
  Script, accepted, rejected, check_refs, check_nodes, validate_dag, validate_script,
  unreachable_nodes, unknown_ref, unknown_condition_ref, IsSound,
}
use sphere_platform.Dag.Accepts.{validate_dag-IsSound}
use sphere_platform.Dag.ValidNode.{IsValidNode}
use sphere_platform.Dag.Whole.{InBounds, validate_script-accepted}

abbrev node : String → String → Option String → Node
node id type next = record {
  id = id;
  action = ("type", type) ∷ [];
  on_success = next;
  on_failure = none;
  retry = 0;
  timeout_ms = 30000;
}

abbrev branching : String → String → Node
branching id target = record {
  id = id;
  action = ("type", "condition") ∷ ("on_true", target) ∷ ("on_false", id) ∷ [];
  on_success = none;
  on_failure = none;
  retry = 0;
  timeout_ms = 30000;
}

abbrev script : List Node → Script
script nodes = record { nodes = nodes; entry_node = "a"; timeout_ms = 60000 }

-- A loop that polls until its condition holds.
abbrev polling : Script
polling = script (node "a" "start" (some "b") ∷ branching "b" "c" ∷ node "c" "end" none ∷ [])

abbrev cut_off : Script
cut_off = script (node "a" "start" none ∷ node "b" "end" (some "a") ∷ [])

abbrev no_violation : String → List String
no_violation code = []

polling_accepted : validate_dag polling ≡ accepted
unfolding validate_dag check_nodes check_refs plain_refs condition_refs get_reachable get put
polling_accepted = refl

polling_script_accepted : validate_script no_violation polling ≡ accepted
unfolding validate_script validate_action_has_type check_fields validate_dag check_nodes check_refs
    plain_refs condition_refs get_reachable get put
polling_script_accepted = refl

cut_off_rejected : validate_dag cut_off ≡ rejected (unreachable_nodes ("b" ∷ []))
unfolding validate_dag check_nodes check_refs plain_refs condition_refs get_reachable get put
cut_off_rejected = refl

dangling : validate_dag (script (node "a" "start" (some "x") ∷ [])) ≡ rejected (unknown_ref "a" "x")
unfolding validate_dag check_nodes check_refs plain_refs condition_refs get_reachable get put
dangling = refl

dangling_condition :
    validate_dag (script (branching "a" "x" ∷ [])) ≡ rejected (unknown_condition_ref "a" "x")
unfolding validate_dag check_nodes check_refs plain_refs condition_refs get_reachable get put
dangling_condition = refl

unknown_action : validate_action_has_type no_violation (node "a" "fly" none) ≡ invalid unknown_type
unfolding validate_action_has_type get
unknown_action = refl

condition_without_target :
    validate_action_has_type no_violation (branching "a" "") ≡ invalid (missing_ref "on_true")
unfolding validate_action_has_type get
condition_without_target = refl

too_many_retries : check_fields (record (node "a" "tap" none) { retry = 6 }) ≡ invalid bad_retry
unfolding check_fields
too_many_retries = refl

validate_dag-IsSound_example : (validate_dag polling ≡ accepted) ↔ IsSound polling
validate_dag-IsSound_example = validate_dag-IsSound polling

get_reachable-Reach_example :
    (r : List String) × (get_reachable polling.nodes "a" ≡ some r)
    × ((x : String) → (has r x ≡ true) ↔ Reach (build_adj polling.nodes) "a" x)
get_reachable-Reach_example = get_reachable-Reach polling.nodes "a"

validate_script-accepted_example :
    (validate_script no_violation polling ≡ accepted)
    ↔ (All (IsValidNode no_violation) polling.nodes × InBounds polling × IsSound polling)
validate_script-accepted_example = validate_script-accepted no_violation polling
