-- ===== src/Policy/Lint/Cycle/Exact.antt =====
-- The search for a cycle decides whether there is one.
use truebearing.Base.{
  ℕ, ◌+◌, String, ◌≡◌, ◌≢◌, refl, inl, inr, true, List, [], ◌∷◌, ◌++◌, ◌==◌, arith, eq_iff,
  contains, length, lookup, Bool-cases,
}
use mathlib.Core.Path.{subst}
use truebearing.Policy.Lint.Cycle.{
  and_then, black, Color, color, Colors, dfs, find_cycle, finished, found, Graph, gray, names_of,
  neighbors, out_of_fuel, search_all, Visit, white,
}
use truebearing.Policy.Lint.Cycle.Walk.{HasEdge, IsCycle, IsWalk}
use truebearing.Policy.Lint.Cycle.Order.{black-IsAcyclic, IsBlack, IsOrdered}
use truebearing.Policy.Lint.Cycle.Explore.{
  BlackStays, contains-later, contains-nil, dfs-HasOutcome, HasOutcome,
}
use truebearing.Policy.Lint.Cycle.Terminates.{find_cycle_ends, nodes}

abbrev NoGray : Colors → Type 0
NoGray colors = (n : String) → color colors n ≢ gray

-- What the outer loop comes to, from a colouring on.
abbrev HasSearched : Graph → Graph → Colors → Visit → Type 0
HasSearched adj rest colors (found c) = IsCycle adj c
HasSearched adj rest colors (finished colors') =
    IsOrdered adj colors'
    × BlackStays colors colors'
    × ((n : String) → contains (nodes rest) n ≡ true → IsBlack colors' n)
HasSearched adj rest colors out_of_fuel = Unit

one_more :
    (adj rest : Graph) (n : String) (ns : List String) (colors colors₁ : Colors) (v : Visit)
    → BlackStays colors colors₁
    → IsBlack colors₁ n
    → HasSearched adj rest colors₁ v
    → HasSearched adj ((n, ns) ∷ rest) colors v
one_more adj rest n ns colors colors₁ (found c) stays b h = h
one_more adj rest n ns colors colors₁ (finished colors') stays b h =
    (h.0, (λ m k. h.1 m (stays m k)), λ m c. black_now m c)
  where
    black_now : (m : String) → contains (n ∷ nodes rest) m ≡ true → IsBlack colors' m
    black_now m c = elim (Bool-cases (n == m)) [
      | inl q ↦ subst (λ x. IsBlack colors' x) ((eq_iff n m).0 q) (h.1 n b)
      | inr q ↦ h.2 m (contains-later n m (nodes rest) q c)
    ]
one_more adj rest n ns colors colors₁ out_of_fuel stays b h = tt

from_node :
    (adj rest : Graph) (n : String) (ns : List String) (colors : Colors) (v : Visit)
    (k : Colors → Visit)
    → NoGray colors
    → HasOutcome adj n colors v
    → ((colors₁ : Colors)
        → IsOrdered adj colors₁
        → NoGray colors₁
        → HasSearched adj rest colors₁ (k colors₁))
    → HasSearched adj ((n, ns) ∷ rest) colors (and_then v k)
from_node adj rest n ns colors (found c) k g h f = h
from_node adj rest n ns colors (finished colors₁) k g h f =
    one_more adj rest n ns colors colors₁ (k colors₁) h.2 h.1
      (f colors₁ h.0 (λ m q. g m (h.3 m q).0))
from_node adj rest n ns colors out_of_fuel k g h f = tt

turn-HasSearched :
    (adj : Graph) (fuel : ℕ) (c : Color) (n : String) (ns : List String) (rest : Graph)
    (colors : Colors)
    → IsOrdered adj colors
    → NoGray colors
    → ((colors₁ : Colors)
        → IsOrdered adj colors₁
        → NoGray colors₁
        → HasSearched adj rest colors₁ (search_all adj fuel rest colors₁))
    → color colors n ≡ c
    → HasSearched adj ((n, ns) ∷ rest) colors (elim c [
      | white ↦ and_then (dfs adj fuel n [] colors) (λ colors₁. search_all adj fuel rest colors₁)
      | _ ↦ search_all adj fuel rest colors
    ])
turn-HasSearched adj fuel white n ns rest colors o g ih q =
    from_node adj rest n ns colors (dfs adj fuel n [] colors)
      (λ colors₁. search_all adj fuel rest colors₁) g
      (dfs-HasOutcome adj fuel n [] colors o q (λ m h. absurd (g m h)) tt) ih
turn-HasSearched adj fuel gray n ns rest colors o g ih q = absurd (g n q)
turn-HasSearched adj fuel black n ns rest colors o g ih q =
    one_more adj rest n ns colors colors (search_all adj fuel rest colors) (λ m b. b) q
      (ih colors o g)

search_all-HasSearched :
    (adj : Graph) (fuel : ℕ) (rest : Graph) (colors : Colors)
    → IsOrdered adj colors
    → NoGray colors
    → HasSearched adj rest colors (search_all adj fuel rest colors)
unfolding search_all
search_all-HasSearched adj fuel [] colors o g = (o, (λ n b. b), λ n c. absurd (contains-nil n c))
search_all-HasSearched adj fuel ((n, ns) ∷ rest) colors o g =
    turn-HasSearched adj fuel (color colors n) n ns rest colors o g
      (λ colors₁ o₁ g₁. search_all-HasSearched adj fuel rest colors₁ o₁ g₁) refl

-- A node with an edge out of it is a node of the graph.
node-HasEdge : (adj : Graph) (n m : String) → HasEdge adj n m → contains (nodes adj) n ≡ true
unfolding neighbors lookup contains
node-HasEdge [] n m e = absurd (contains-nil m e)
node-HasEdge ((k, ns) ∷ adj) n m e = elim (Bool-cases (k == n)) [
  | inl q ↦ ground (arith, q)
  | inr q ↦ ground (arith, q, node-HasEdge adj n m (ground (arith, q, e)))
]

-- No list of nodes is a cycle of the graph.
abbrev pub IsAcyclic : Graph → Type 0
IsAcyclic adj = (c : List String) → IsCycle adj c → ⊥

-- The right answer of a search for a cycle.
abbrev pub IsVerdict : Graph → Visit → Type 0
IsVerdict adj (found c) = IsCycle adj c
IsVerdict adj (finished colors) = IsAcyclic adj
IsVerdict adj out_of_fuel = ⊥

cycle-HasEdge :
    (adj : Graph) (n : String) (part : List String)
    → IsWalk adj (n ∷ (part ++ n ∷ []))
    → contains (nodes adj) n ≡ true
cycle-HasEdge adj n [] w = node-HasEdge adj n n w.0
cycle-HasEdge adj n (m ∷ part) w = node-HasEdge adj n m w.0

verdict : (adj : Graph) (v : Visit) → HasSearched adj adj [] v → v ≢ out_of_fuel → IsVerdict adj v
verdict adj (found c) h e = h
verdict adj (finished colors) h e = λ c cyc.
    let (n, part, q, w) = cyc in
    black-IsAcyclic adj colors n part h.0 (h.2 n (cycle-HasEdge adj n part w)) w
verdict adj out_of_fuel h e = absurd (e refl)

NoGray-nil : NoGray []
unfolding color lookup
NoGray-nil n h = cc

-- For every graph of dependencies, the search of L013 ends: with a list that is a walk along `only_after`
-- edges back to its first node, or having coloured all nodes, and then no such walk exists.
pub find_cycle-IsVerdict : (adj : Graph) → IsVerdict adj (find_cycle adj)
unfolding find_cycle
find_cycle-IsVerdict adj =
    verdict adj (find_cycle adj)
      (search_all-HasSearched adj (length (names_of adj) + 1) adj [] tt NoGray-nil)
      (find_cycle_ends adj)
