-- ===== src/Dag/Reachable.antt =====
-- backend/schemas/dag.py, `_get_reachable`: the search against paths in the graph.
use sphere_platform.Base.{
  ℕ, zero, suc, ◌+◌, ◌≤◌, ◌<◌, String, true, false, some, List, [], ◌∷◌, ◌++◌, reverse, has,
  has-append, has-reverse, length, length-append, length-reverse, ◌≡◌, ◌↔◌, inl, inr, refl,
  Bool-cases, arith, eq_iff, ◌==◌, if◌then◌else◌, ◌||◌, subst, cases-or,
}
use sphere_platform.Base.Dict.{get}
use sphere_platform.Dag.Node.{Node}
use sphere_platform.Dag.Search.{Adj, successors, edges, visit, build_adj, get_reachable}

-- There is a path from `s` along the references.
pub data Reach (adj : Adj) (s : String) : String → Type 0 where
  here : Reach adj s s
  next : {t u : String} → Reach adj s t → has (successors adj t) u ≡ true → Reach adj s u

-- The edges that leave nodes not yet visited.
pending : List String → Adj → ℕ
pending visited [] = 0
pending visited ((k, l) ∷ adj) = (if has visited k then 0 else length l) + pending visited adj

pending_mono :
    (n : String) (visited : List String) (adj : Adj)
    → pending (n ∷ visited) adj ≤ pending visited adj
unfolding pending
pending_mono n visited [] = omega arith
pending_mono n visited ((k, l) ∷ adj) = ground (arith, pending_mono n visited adj)

pending_drop :
    (n : String) (visited : List String) (adj : Adj)
    → has visited n ≡ false
    → pending (n ∷ visited) adj + length (successors adj n) ≤ pending visited adj
unfolding pending get
pending_drop n visited [] h = omega arith
pending_drop n visited ((k, l) ∷ adj) h =
    ground (arith, eq_iff k n, eq_iff n k, pending_mono n visited adj, pending_drop n visited adj h)

pending-le-edges : (adj : Adj) → pending [] adj ≤ edges adj
unfolding pending
pending-le-edges [] = omega arith
pending-le-edges ((k, l) ∷ adj) = omega (arith, pending-le-edges adj)

visit_total :
    (fuel : ℕ) (adj : Adj) (visited stack : List String)
    → length stack + pending visited adj < fuel
    → (r : List String) × (visit fuel adj visited stack ≡ some r)
unfolding visit
visit_total zero adj visited stack h = absurd (omega arith)
visit_total (suc fuel) adj visited [] h = (visited, refl)
visit_total (suc fuel) adj visited (n ∷ stack) h = elim (Bool-cases (has visited n)) [
  | inl old ↦ rw (old, visit) (visit_total fuel adj visited stack (omega arith))
  | inr new ↦
      rw (new, visit)
        (visit_total fuel adj (n ∷ visited) (reverse (successors adj n) ++ stack) (
          omega (
            arith,
            pending_drop n visited adj new,
            length-append (reverse (successors adj n)) stack,
            length-reverse (successors adj n),
          )))
]

visit_sound :
    (fuel : ℕ) (adj : Adj) (s : String) (visited stack : List String) {r : List String}
    → visit fuel adj visited stack ≡ some r
    → ((x : String) → has visited x ≡ true → Reach adj s x)
    → ((x : String) → has stack x ≡ true → Reach adj s x)
    → (x : String) → has r x ≡ true
    → Reach adj s x
unfolding visit
visit_sound zero adj s visited stack e hv hs x m = cc
visit_sound (suc fuel) adj s visited [] e hv hs x m = hv x (ground arith)
visit_sound (suc fuel) adj s visited (n ∷ stack) e hv hs x m = elim (Bool-cases (has visited n)) [
  | inl old ↦
      visit_sound fuel adj s visited stack (rw (old, visit) at e) hv (λ y h. hs y (ground arith)) x
        m
  | inr new ↦
      visit_sound fuel adj s (n ∷ visited) (reverse (successors adj n) ++ stack)
        (rw (new, visit) at e) grown pushed x m
]
  where
    at_n : Reach adj s n
    at_n = hs n (ground (arith, eq_iff n n))

    grown : (y : String) → has (n ∷ visited) y ≡ true → Reach adj s y
    grown y h = elim (cases-or (n == y) (has visited y) h) [
      | inl same ↦ subst (Reach adj s) ((eq_iff n y).0 same) at_n
      | inr old ↦ hv y old
    ]

    pushed : (y : String) → has (reverse (successors adj n) ++ stack) y ≡ true → Reach adj s y
    pushed y h =
        elim (cases-or (has (reverse (successors adj n)) y) (has stack y)
          (rw (has-append (reverse (successors adj n)) stack y) at h)) [
            | inl edge ↦ next at_n (rw (has-reverse (successors adj n) y) at edge)
            | inr old ↦ hs y (ground arith)
          ]

-- What a search has still to look at stands on the stack.
abbrev Closed : Adj → List String → List String → Type 0
Closed adj visited stack =
    (x u : String)
    → has visited x ≡ true
    → has (successors adj x) u ≡ true
    → (has visited u || has stack u) ≡ true

record Saturated (adj : Adj) (visited stack r : List String) : Type 0 where
  keeps : (x : String) → has visited x ≡ true → has r x ≡ true
  takes : (x : String) → has stack x ≡ true → has r x ≡ true
  closed : (x u : String) → has r x ≡ true → has (successors adj x) u ≡ true → has r u ≡ true

visit-Saturated :
    (fuel : ℕ) (adj : Adj) (visited stack : List String) {r : List String}
    → visit fuel adj visited stack ≡ some r
    → Closed adj visited stack
    → Saturated adj visited stack r
unfolding visit
visit-Saturated zero adj visited stack e c = cc
visit-Saturated (suc fuel) adj visited [] {r = r} e c = record {
  keeps = λ x h. ground arith;
  takes = λ x h. ground arith;
  closed = λ x u h k. ground (arith, c x u);
}
visit-Saturated (suc fuel) adj visited (n ∷ stack) {r = r} e c = elim (Bool-cases (has visited n)) [
  | inl old ↦
      let s : Saturated adj visited stack r =
        visit-Saturated fuel adj visited stack (rw (old, visit) at e)
          (λ x u h k. ground (arith, c x u, eq_iff n u)) in
      record {
        keeps = s.keeps;
        takes = λ x h. ground (arith, eq_iff n x, s.keeps x, s.takes x);
        closed = s.closed;
      }
  | inr new ↦
      let s : Saturated adj (n ∷ visited) (reverse (successors adj n) ++ stack) r =
        visit-Saturated fuel adj (n ∷ visited) (reverse (successors adj n) ++ stack)
          (rw (new, visit) at e)
          (λ x u h k. ground (
            arith,
            c x u,
            eq_iff n u,
            eq_iff n x,
            has-append (reverse (successors adj n)) stack u,
            has-reverse (successors adj n) u,
          )) in
      record {
        keeps = λ x h. ground (arith, s.keeps x);
        takes = λ x h.
            ground (arith, s.keeps x, s.takes x, has-append (reverse (successors adj n)) stack x);
        closed = s.closed;
      }
]

Saturated-Reach :
    {adj : Adj} {visited stack r : List String} {s x : String}
    → Saturated adj visited stack r
    → has stack s ≡ true
    → Reach adj s x
    → has r x ≡ true
Saturated-Reach sat h here = sat.takes _ h
Saturated-Reach sat h (next p e) = sat.closed _ _ (Saturated-Reach sat h p) e

pub has_self : (s : String) (xs : List String) → has (s ∷ xs) s ≡ true
has_self s xs = ground (arith, eq_iff s s)

get_reachable_total :
    (nodes : List Node) (entry : String) → (r : List String) × (get_reachable nodes entry ≡ some r)
unfolding get_reachable
get_reachable_total nodes entry =
    visit_total _ (build_adj nodes) [] (entry ∷ [])
      (omega (arith, pending-le-edges (build_adj nodes)))

-- The search returns for every script, and what it returns are exactly the nodes to which a path
-- of references leads from the entry.
pub get_reachable-Reach :
    (nodes : List Node) (entry : String)
    → (r : List String) × (get_reachable nodes entry ≡ some r)
      × ((x : String) → (has r x ≡ true) ↔ Reach (build_adj nodes) entry x)
unfolding get_reachable
get_reachable-Reach nodes entry =
    let (r, e) = get_reachable_total nodes entry in
    (
      r,
      e,
      λ x. (
        visit_sound _ (build_adj nodes) entry [] (entry ∷ []) e (λ y h. cc)
            (λ y h. subst (Reach _ entry) ((eq_iff entry y).0 (ground arith)) here) x,
        Saturated-Reach (visit-Saturated _ (build_adj nodes) [] (entry ∷ []) e (λ y u h k. cc))
            (has_self entry []),
      ),
    )
