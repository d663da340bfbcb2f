-- ===== src/Dag/Validate.antt =====
-- backend/schemas/dag.py: `DAGScript.validate_dag` and the checks that precede it. An error keeps
-- the ids that the message of the source names; `node_ids - reachable` is left unsorted.
use sphere_platform.Base.{
  ℕ, String, true, ◌&&◌, not, Option, none, some, List, [], ◌∷◌, map, has, length, leb, keep_if,
  All, ◌≡◌, if◌then◌else◌,
}
use sphere_platform.Dag.Node.{
  Node, NodeError, Checked, valid, invalid, plain_refs, condition_refs, refs, check_fields,
  validate_action_has_type, ◌then_check◌,
}
use sphere_platform.Dag.Search.{build_adj, get_reachable}
use sphere_platform.Dag.Reachable.{Reach}

pub record Script : Type 0 where
  pub nodes : List Node
  pub entry_node : String
  pub timeout_ms : ℕ

pub data DagError : Type 0 where
  bad_node : NodeError → DagError
  bad_size bad_timeout search_unfinished : DagError
  unknown_entry : String → DagError
  unknown_ref : String → String → DagError
  unknown_condition_ref : String → String → DagError
  unreachable_nodes : List String → DagError

pub data Verdict : Type 0 where
  accepted : Verdict
  rejected : DagError → Verdict

infixr 10 ◌and_then◌
abbrev pub ◌and_then◌ : Verdict → Verdict → Verdict
accepted and_then v = v
(rejected e) and_then v = rejected e

abbrev pub node_ids : List Node → List String
node_ids = map (λ n. n.id)

-- Raises at the first reference that names no node.
unfoldable pub check_refs : (String → DagError) → List String → List String → Verdict
check_refs error ids [] = accepted
check_refs error ids (r ∷ rs) =
    let rest = check_refs error ids rs in if has ids r then rest else rejected (error r)

unfoldable pub check_nodes : List String → List Node → Verdict
check_nodes ids [] = accepted
check_nodes ids (n ∷ ns) =
    check_refs (unknown_ref n.id) ids (plain_refs n)
    and_then check_refs (unknown_condition_ref n.id) ids (condition_refs n)
    and_then check_nodes ids ns

abbrev pub check_reachable : List String → Option (List String) → Verdict
check_reachable ids none = rejected search_unfinished
check_reachable ids (some reachable) = elim (keep_if (λ x. not (has reachable x)) ids) [
  | [] ↦ accepted
  | x ∷ xs ↦ rejected (unreachable_nodes (x ∷ xs))
]

unfoldable pub validate_dag : Script → Verdict
validate_dag s =
    (if has (node_ids s.nodes) s.entry_node
      then accepted
      else rejected (unknown_entry s.entry_node))
    and_then check_nodes (node_ids s.nodes) s.nodes
    and_then check_reachable (node_ids s.nodes) (get_reachable s.nodes s.entry_node)

-- The bounds that `Field` gives to `nodes` and to the script's `timeout_ms`.
unfoldable pub check_script_fields : Script → Verdict
check_script_fields s =
    if leb 2 (length s.nodes) && leb (length s.nodes) 500
    then if leb 1000 s.timeout_ms && leb s.timeout_ms 86400000
      then accepted
      else rejected bad_timeout
    else rejected bad_size

abbrev pub of_checked : Checked → Verdict
of_checked valid = accepted
of_checked (invalid e) = rejected (bad_node e)

module _ (lua_violations : String → List String) where
  unfoldable pub check_each_node : List Node → Verdict
  check_each_node [] = accepted
  check_each_node (n ∷ ns) =
      of_checked (check_fields n then_check validate_action_has_type lua_violations n)
      and_then check_each_node ns

  -- Building a `DAGScript`: each node, the fields, then the validator of the whole graph.
  unfoldable pub validate_script : Script → Verdict
  unfolding check_each_node check_script_fields
  validate_script s = check_each_node s.nodes and_then check_script_fields s and_then validate_dag s

-- What the docstring of `DAGScript` promises of an accepted graph.
pub record IsSound (s : Script) : Type 0 where
  pub entry_known : has (node_ids s.nodes) s.entry_node ≡ true
  pub refs_known : All (λ n. All (λ r. has (node_ids s.nodes) r ≡ true) (refs n)) s.nodes
  pub all_reached :
      (x : String) → has (node_ids s.nodes) x ≡ true → Reach (build_adj s.nodes) s.entry_node x
