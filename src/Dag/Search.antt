-- ===== src/Dag/Search.antt =====
-- backend/schemas/dag.py: `_build_adj` and `_get_reachable`. The head of `stack` is the end of the
-- Python list. The loop takes fuel: one unit for each `stack.pop()`.
use sphere_platform.Base.{
  ℕ, zero, suc, ◌+◌, String, true, false, Option, none, some, List, [], ◌∷◌, ◌++◌, reverse, has,
  length,
}
use sphere_platform.Base.Dict.{Dict, put, get_or}
use sphere_platform.Dag.Node.{Node, refs}

abbrev pub Adj : Type 0
Adj = Dict (List String)

-- `{n.id: [] for n in self.nodes}`
unfoldable pub empty_adj : List Node → Adj → Adj
empty_adj [] adj = adj
empty_adj (n ∷ ns) adj = empty_adj ns (put adj n.id [])

-- The loop that appends each node's references to the entry of its id.
unfoldable pub add_refs : List Node → Adj → Adj
add_refs [] adj = adj
add_refs (n ∷ ns) adj = add_refs ns (put adj n.id (get_or adj n.id [] ++ refs n))

unfoldable pub build_adj : List Node → Adj
unfolding empty_adj add_refs
build_adj nodes = add_refs nodes (empty_adj nodes [])

abbrev pub successors : Adj → String → List String
successors adj n = get_or adj n []

unfoldable pub visit : ℕ → Adj → List String → List String → Option (List String)
visit zero adj visited stack = none
visit (suc fuel) adj visited [] = some visited
visit (suc fuel) adj visited (n ∷ stack) = elim (has visited n) [
  | true ↦ visit fuel adj visited stack
  | false ↦ visit fuel adj (n ∷ visited) (reverse (successors adj n) ++ stack)
]

-- One pop for the entry and one for each edge, and the test that ends the loop.
abbrev pub edges : Adj → ℕ
edges [] = 0
edges ((k, l) ∷ adj) = length l + edges adj

unfoldable pub get_reachable : List Node → String → Option (List String)
unfolding build_adj visit
get_reachable nodes entry = let adj = build_adj nodes in visit (edges adj + 2) adj [] (entry ∷ [])
