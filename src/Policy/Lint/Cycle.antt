-- ===== src/Policy/Lint/Cycle.antt =====
-- Rule L013 of internal/policy/lint.go: a three-colour depth-first search for a cycle of `only_after`
-- dependencies. The maps are association lists; `color` has the newest colour of a node first. Each
-- descent into a node takes one unit of fuel.
pub mod Whites
pub mod Terminates
pub mod Walk
pub mod Order
pub mod Explore
pub mod Exact
use truebearing.Base.{
  ℕ, zero, suc, ◌+◌, String, Bool, true, false, Option, none, some, List, [], ◌∷◌, ◌++◌, ◌==◌,
  if◌then◌else◌, length, lookup,
}
use truebearing.Go.{Runtime}
use truebearing.Policy.{Policy, ToolPolicy}
use truebearing.Policy.Lint.Results.{error, LintResult, result}

pub data Color : Type 0 where
  white gray black : Color

abbrev pub Colors : Type 0
Colors = List (String × Color)

abbrev pub or_white : Option Color → Color
or_white none = white
or_white (some c) = c

-- `color[node]`
unfoldable pub color : Colors → String → Color
color colors node = or_white (lookup colors node)

-- What the tools of a policy have in common with the search: the graph.
abbrev pub Graph : Type 0
Graph = List (String × List String)

unfoldable pub adjacency : List (String × ToolPolicy) → Graph
adjacency [] = []
adjacency ((name, tp) ∷ tools) = (name, tp.sequence.only_after) ∷ adjacency tools

abbrev pub or_no_names : Option (List String) → List String
or_no_names none = []
or_no_names (some names) = names

-- `adj[node]`
unfoldable pub neighbors : Graph → String → List String
neighbors adj node = or_no_names (lookup adj node)

-- What a search comes back with.
pub data Visit : Type 0 where
  found : List String → Visit
  finished : Colors → Visit
  out_of_fuel : Visit

-- The part of the path from the first place of the node on, or all of it.
unfoldable pub from_first : String → List String → Option (List String)
from_first node [] = none
from_first node (n ∷ path) =
    let rest = from_first node path in if n == node then some (n ∷ path) else rest

abbrev pub or_whole : Option (List String) → List String → List String
or_whole none path = path
or_whole (some part) path = part

unfoldable pub cycle_path : String → List String → List String
unfolding from_first
cycle_path neighbor path = or_whole (from_first neighbor path) path ++ neighbor ∷ []

abbrev pub and_then : Visit → (Colors → Visit) → Visit
and_then (found c) k = found c
and_then (finished colors) k = k colors
and_then out_of_fuel k = out_of_fuel

-- The loop over the neighbours of the last node of the path; `descend` is the search one level deeper.
unfoldable pub scan :
    (String → List String → Colors → Visit) → List String → String → List String → Colors → Visit
unfolding cycle_path color
scan descend [] node path colors = finished ((node, black) ∷ colors)
scan descend (n ∷ ns) node path colors = elim (color colors n) [
  | gray ↦ found (cycle_path n path)
  | black ↦ scan descend ns node path colors
  | white ↦ and_then (descend n path colors) (λ colors'. scan descend ns node path colors')
]

unfoldable pub dfs : Graph → ℕ → String → List String → Colors → Visit
unfolding scan neighbors
dfs adj zero node path colors = out_of_fuel
dfs adj (suc fuel) node path colors =
    scan (dfs adj fuel) (neighbors adj node) node (path ++ node ∷ []) ((node, gray) ∷ colors)

-- The outer loop, over the nodes of the graph that are left.
unfoldable pub search_all : Graph → ℕ → Graph → Colors → Visit
unfolding dfs color
search_all adj fuel [] colors = finished colors
search_all adj fuel ((node, ns) ∷ rest) colors = elim (color colors node) [
  | white ↦ and_then (dfs adj fuel node [] colors) (λ colors'. search_all adj fuel rest colors')
  | _ ↦ search_all adj fuel rest colors
]

-- One unit of fuel for each node that the search can meet, and one more.
unfoldable pub names_of : Graph → List String
names_of [] = []
names_of ((node, ns) ∷ rest) = node ∷ (ns ++ names_of rest)

unfoldable pub find_cycle : Graph → Visit
unfolding search_all names_of
find_cycle adj = search_all adj (length (names_of adj) + 1) adj []

unfoldable pub diagnose : Runtime → Visit → List LintResult
diagnose rt (found cycle) =
    result "L013" error (
      "circular sequence dependency: "
      ∷ rt.join cycle " → only_after → "
      ∷ "\nThis session can never satisfy both constraints simultaneously. The agent will permanently block."
      ∷ [])
    ∷ []
diagnose rt (finished colors) = []
diagnose rt out_of_fuel = []

unfoldable pub lint_l013 : Runtime → Policy → List LintResult
unfolding find_cycle adjacency diagnose
lint_l013 rt p = diagnose rt (find_cycle (adjacency p.tools))
