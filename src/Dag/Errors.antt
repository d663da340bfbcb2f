-- ===== src/Dag/Errors.antt =====
-- backend/schemas/dag.py: the errors of `validate_dag` name what is wrong.
use sphere_platform.Base.{
  String, Bool, true, false, not, some, List, [], ◌∷◌, has, keep_if, ◌≡◌, ◌≢◌, ◌↔◌, ◌⊎◌, inl, inr,
  refl, Bool-cases, arith, eq_iff, ◌==◌, ◌&&◌, ap, if◌then◌else◌,
}
use sphere_platform.Dag.Node.{Node, plain_refs, condition_refs}
use sphere_platform.Dag.Search.{build_adj, get_reachable}
use sphere_platform.Dag.Reachable.{Reach, get_reachable-Reach}
use sphere_platform.Dag.Validate.{
  Script, Verdict, DagError, accepted, rejected, ◌and_then◌, node_ids, check_refs, check_nodes,
  check_reachable, validate_dag, unknown_ref, unknown_condition_ref, unknown_entry,
  unreachable_nodes,
}

filter_has :
    (p : String → Bool) (xs : List String) (x : String) → has (keep_if p xs) x ≡ (has xs x && p x)
filter_has p [] x = refl
filter_has p (y ∷ ys) x = elim (Bool-cases (y == x)) [
  | inl same ↦ let e = (eq_iff y x).0 same in ground (arith, filter_has p ys x, ap p e, same)
  | inr other ↦ ground (arith, filter_has p ys x, other)
]

check_refs-error :
    (e : String → DagError) (ids rs : List String) {d : DagError}
    → check_refs e ids rs ≡ rejected d
    → (r : String) × (d ≡ e r)
unfolding check_refs
check_refs-error e ids [] h = cc
check_refs-error e ids (r ∷ rs) {d} h = elim (Bool-cases (has ids r)) [
  | inl k ↦ check_refs-error e ids rs (rw k at h)
  | inr k ↦ (r, ground arith)
]

and_then-rejected :
    (v w : Verdict) {d : DagError}
    → (v and_then w) ≡ rejected d
    → (v ≡ rejected d) ⊎ (w ≡ rejected d)
and_then-rejected accepted w h = inr h
and_then-rejected (rejected e) w h = inl h

check_nodes-error :
    (ids : List String) (ns : List Node) (xs : List String)
    → check_nodes ids ns ≢ rejected (unreachable_nodes xs)
unfolding check_nodes
check_nodes-error ids [] xs h = cc
check_nodes-error ids (n ∷ ns) xs h =
    elim (and_then-rejected (check_refs (unknown_ref n.id) ids (plain_refs n)) _ h) [
      | inl p ↦ let (r, e) = check_refs-error (unknown_ref n.id) ids (plain_refs n) p in cc
      | inr q ↦
          elim (and_then-rejected (check_refs (unknown_condition_ref n.id) ids (condition_refs n)) _
            q) [
              | inl p ↦
                  let (r, e) =
                    check_refs-error (unknown_condition_ref n.id) ids (condition_refs n) p in
                  cc
              | inr t ↦ check_nodes-error ids ns xs t
            ]
    ]

entry_error :
    (b : Bool) (x : String) (xs : List String)
    → (if b then accepted else rejected (unknown_entry x)) ≢ rejected (unreachable_nodes xs)
entry_error true x xs h = cc
entry_error false x xs h = cc

validate_dag-search :
    (s : Script) (xs : List String)
    → validate_dag s ≡ rejected (unreachable_nodes xs)
    → check_reachable (node_ids s.nodes) (get_reachable s.nodes s.entry_node)
      ≡ rejected (unreachable_nodes xs)
unfolding validate_dag
validate_dag-search s xs h =
    elim (and_then-rejected
      (if has (node_ids s.nodes) s.entry_node
        then accepted
        else rejected (unknown_entry s.entry_node))
      _ h) [
        | inl p ↦ absurd (entry_error _ _ _ p)
        | inr q ↦ elim (and_then-rejected (check_nodes (node_ids s.nodes) s.nodes) _ q) [
          | inl p ↦ absurd (check_nodes-error _ _ _ p)
          | inr t ↦ t
        ]
      ]

left_over :
    (ids r xs : List String)
    → check_reachable ids (some r) ≡ rejected (unreachable_nodes xs)
    → keep_if (λ x. not (has r x)) ids ≡ xs
left_over ids r xs h = ground arith

-- When `validate_dag` reports unreachable nodes, the ids that it lists are exactly the ids of
-- nodes to which no path of references leads from the entry.
validate_dag-unreachable :
    (s : Script) (xs : List String)
    → validate_dag s ≡ rejected (unreachable_nodes xs)
    → (x : String)
    → (has xs x ≡ true)
      ↔ ((has (node_ids s.nodes) x ≡ true) × (¬ Reach (build_adj s.nodes) s.entry_node x))
validate_dag-unreachable s xs h x =
    let (r, found, paths) = get_reachable-Reach s.nodes s.entry_node in
    let ids = node_ids s.nodes in
    let listed = left_over ids r xs (rw found at (validate_dag-search s xs h)) in
    let kept = filter_has (λ y. not (has r y)) ids x in
    (
      λ m. (
        ground (arith, kept, listed),
        λ p. let old = (paths x).1 p in ground (arith, kept, listed, old),
      ),
      λ m. elim (Bool-cases (has r x)) [
        | inl old ↦ absurd (m.1 ((paths x).0 old))
        | inr new ↦ ground (arith, kept, listed, new, m.0)
      ],
    )
