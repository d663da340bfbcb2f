-- ===== src/Dag/Accepts.antt =====
-- backend/schemas/dag.py: `validate_dag` accepts exactly the sound scripts.
use sphere_platform.Base.{
  String, Bool, true, false, not, some, List, [], ◌∷◌, ◌++◌, has, keep_if, All, ◌≡◌, ◌↔◌, inl, inr,
  refl, Bool-cases, arith, eq_iff, subst, cases-or, ◌==◌, if◌then◌else◌,
}
use sphere_platform.Dag.Node.{Node, plain_refs, condition_refs, refs}
use sphere_platform.Dag.Reachable.{has_self, get_reachable-Reach}
use sphere_platform.Dag.Validate.{
  Script, Verdict, DagError, accepted, rejected, ◌and_then◌, node_ids, check_refs, check_nodes,
  check_reachable, validate_dag, IsSound, unknown_ref, unknown_condition_ref, unknown_entry,
}

abbrev Known : List String → List String → Type 0
Known ids = All (λ r. has ids r ≡ true)

check_refs-Known :
    (e : String → DagError) (ids rs : List String) → (check_refs e ids rs ≡ accepted) ↔ Known ids rs
unfolding check_refs
check_refs-Known e ids [] = (λ h. tt, λ h. refl)
check_refs-Known e ids (r ∷ rs) =
    let (to, from) = check_refs-Known e ids rs in
    (
      λ h. elim (Bool-cases (has ids r)) [ inl k ↦ (k, to (rw k at h)) | inr k ↦ cc (rw k at h) ],
      λ h. rw h.0 (from h.1),
    )

Known-append : (ids xs ys : List String) → Known ids (xs ++ ys) ↔ (Known ids xs × Known ids ys)
Known-append ids [] ys = (λ h. (tt, h), λ h. h.1)
Known-append ids (x ∷ xs) ys =
    let (to, from) = Known-append ids xs ys in
    (λ h. ((h.0, (to h.1).0), (to h.1).1), λ h. (h.0.0, from (h.0.1, h.1)))

pub and_then-accepted :
    (v w : Verdict) → ((v and_then w) ≡ accepted) ↔ ((v ≡ accepted) × (w ≡ accepted))
and_then-accepted accepted w = (λ h. (refl, h), λ h. h.1)
and_then-accepted (rejected e) w = (λ h. cc, λ h. cc (h.0))

check_nodes-Known :
    (ids : List String) (ns : List Node)
    → (check_nodes ids ns ≡ accepted) ↔ All (λ n. Known ids (refs n)) ns
unfolding check_nodes
check_nodes-Known ids [] = (λ h. tt, λ h. refl)
check_nodes-Known ids (n ∷ ns) =
    let plain = check_refs-Known (unknown_ref n.id) ids (plain_refs n) in
    let cond = check_refs-Known (unknown_condition_ref n.id) ids (condition_refs n) in
    let joined = Known-append ids (plain_refs n) (condition_refs n) in
    let tail = check_nodes-Known ids ns in
    let outer = and_then-accepted (check_refs (unknown_ref n.id) ids (plain_refs n)) _ in
    let inner =
      and_then-accepted (check_refs (unknown_condition_ref n.id) ids (condition_refs n))
        (check_nodes ids ns) in
    (
      λ h. (
        joined.1 (plain.0 (outer.0 h).0, cond.0 (inner.0 (outer.0 h).1).0),
        tail.0 (inner.0 (outer.0 h).1).1,
      ),
      λ h. outer.1 (plain.1 (joined.0 h.0).0, inner.1 (cond.1 (joined.0 h.0).1, tail.1 h.1)),
    )

none_left :
    (r xs : List String)
    → (keep_if (λ x. not (has r x)) xs ≡ []) ↔ ((x : String) → has xs x ≡ true → has r x ≡ true)
none_left r [] = (λ h x k. cc, λ h. refl)
none_left r (y ∷ ys) =
    let (to, from) = none_left r ys in
    (
      λ h x k. elim (Bool-cases (has r y)) [
        | inl old ↦ elim (cases-or (y == x) (has ys x) k) [
          | inl same ↦ subst (λ z. has r z ≡ true) ((eq_iff y x).0 same) old
          | inr later ↦ to (rw old at h) x later
        ]
        | inr new ↦ cc (rw new at h)
      ],
      λ h. rw (h y (has_self y ys)) (from (λ x k. h x (ground (arith, eq_iff y x)))),
    )

check_reachable-none_left :
    (ids r : List String)
    → (check_reachable ids (some r) ≡ accepted) ↔ ((x : String) → has ids x ≡ true → has r x ≡ true)
check_reachable-none_left ids r =
    let (to, from) = none_left r ids in (λ h. to (ground arith), λ h. rw (from h, check_reachable))

entry_accepted :
    (b : Bool) (e : DagError) → ((if b then accepted else rejected e) ≡ accepted) ↔ (b ≡ true)
entry_accepted true e = (λ h. refl, λ h. refl)
entry_accepted false e = (λ h. cc, λ h. cc)

-- `validate_dag` accepts a script exactly when its entry is one of the nodes, every reference of
-- every node names a node, and a path of references leads from the entry to each node. The search
-- never fails to end.
pub validate_dag-IsSound : (s : Script) → (validate_dag s ≡ accepted) ↔ IsSound s
unfolding validate_dag
validate_dag-IsSound s =
    let ids = node_ids s.nodes in
    let (r, found, paths) = get_reachable-Reach s.nodes s.entry_node in
    let entry = entry_accepted (has ids s.entry_node) (unknown_entry s.entry_node) in
    let nodes = check_nodes-Known ids s.nodes in
    let reached = check_reachable-none_left ids r in
    let outer =
      and_then-accepted
        (if has ids s.entry_node then accepted else rejected (unknown_entry s.entry_node)) _ in
    let inner = and_then-accepted (check_nodes ids s.nodes) (check_reachable ids (some r)) in
    rw found (
      λ h. record {
        entry_known = entry.0 (outer.0 h).0;
        refs_known = nodes.0 (inner.0 (outer.0 h).1).0;
        all_reached = λ x k. (paths x).0 (reached.0 (inner.0 (outer.0 h).1).1 x k);
      },
      λ h. outer.1 (
        entry.1 h.entry_known,
        inner.1 (nodes.1 h.refs_known, reached.1 (λ x k. (paths x).1 (h.all_reached x k))),
      ),
    )
