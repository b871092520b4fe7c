-- ===== src/Policy/Lint/Cycle/Terminates.antt =====
-- The search ends: the fuel that `find_cycle` gives is enough for every graph.
use truebearing.Base.{
  ℕ, zero, suc, ◌+◌, ◌≤◌, ◌<◌, String, ◌≡◌, ◌≢◌, refl, true, List, [], ◌∷◌, ◌++◌, arith, eq_iff,
  length, contains,
}
use truebearing.Policy.Lint.Cycle.{
  and_then, black, cycle_path, Color, color, Colors, dfs, find_cycle, finished, found, Graph, gray,
  names_of, neighbors, out_of_fuel, scan, search_all, Visit, white,
}
use truebearing.Policy.Lint.Cycle.Whites.{
  IsAmong, IsAmong-more, neighbors-IsAmong, whites, whites-bound, whites-paint, whites-paint_white,
}

-- A visit that ended, and left no more white names than there were.
abbrev HasEnded : List String → ℕ → Visit → Type 0
HasEnded ns k (found c) = Unit
HasEnded ns k (finished colors) = whites colors ns ≤ k
HasEnded ns k out_of_fuel = ⊥

and_then-HasEnded :
    (ns : List String) (j k : ℕ) (v : Visit) (f : Colors → Visit)
    → HasEnded ns j v
    → ((colors : Colors) → whites colors ns ≤ j → HasEnded ns k (f colors))
    → HasEnded ns k (and_then v f)
and_then-HasEnded ns j k (found c) f h g = tt
and_then-HasEnded ns j k (finished colors) f h g = g colors h
and_then-HasEnded ns j k out_of_fuel f h g = absurd h

-- A search that ends, one level deeper, on every colouring with fewer white names than the fuel.
abbrev Descends : List String → ℕ → (String → List String → Colors → Visit) → Type 0
Descends ns fuel descend =
    (n : String) (path : List String) (colors : Colors)
    → contains ns n ≡ true
    → color colors n ≡ white
    → whites colors ns ≤ fuel
    → HasEnded ns (whites colors ns) (descend n path colors)

HasEnded-le : (ns : List String) (j k : ℕ) (v : Visit) → j ≤ k → HasEnded ns j v → HasEnded ns k v
HasEnded-le ns j k (found c) h e = tt
HasEnded-le ns j k (finished colors) h e = omega arith
HasEnded-le ns j k out_of_fuel h e = absurd e

-- A visit and what follows it.
step-HasEnded :
    (ns : List String) (fuel : ℕ) (v : Visit) (k : Colors → Visit) (colors : Colors)
    → whites colors ns ≤ fuel
    → HasEnded ns (whites colors ns) v
    → ((colors' : Colors) → whites colors' ns ≤ fuel → HasEnded ns (whites colors' ns) (k colors'))
    → HasEnded ns (whites colors ns) (and_then v k)
step-HasEnded ns fuel v k colors w h rest =
    and_then-HasEnded ns (whites colors ns) (whites colors ns) v k h (λ colors' le.
      HasEnded-le ns (whites colors' ns) (whites colors ns) (k colors') le
        (rest colors' (omega arith)))

-- One round of the scan, when the rounds after it end.
round-HasEnded :
    (ns : List String) (fuel : ℕ) (descend : String → List String → Colors → Visit) (c : Color)
    (m : String) (ms : List String) (node : String) (path : List String) (colors : Colors)
    → Descends ns fuel descend
    → contains ns m ≡ true
    → whites colors ns ≤ fuel
    → ((colors' : Colors)
        → whites colors' ns ≤ fuel
        → HasEnded ns (whites colors' ns) (scan descend ms node path colors'))
    → color colors m ≡ c
    → HasEnded ns (whites colors ns) (elim c [
      | gray ↦ found (cycle_path m path)
      | black ↦ scan descend ms node path colors
      | white ↦ and_then (descend m path colors) (λ colors'. scan descend ms node path colors')
    ])
round-HasEnded ns fuel descend gray m ms node path colors d a w rest e = tt
round-HasEnded ns fuel descend black m ms node path colors d a w rest e = rest colors w
round-HasEnded ns fuel descend white m ms node path colors d a w rest e =
    step-HasEnded ns fuel (descend m path colors) (λ colors'. scan descend ms node path colors')
      colors w (d m path colors a e w) rest

scan-HasEnded :
    (ns : List String) (fuel : ℕ) (descend : String → List String → Colors → Visit)
    → Descends ns fuel descend
    → (ms : List String) (node : String) (path : List String) (colors : Colors) → IsAmong ns ms
    → whites colors ns ≤ fuel
    → HasEnded ns (whites colors ns) (scan descend ms node path colors)
unfolding scan
scan-HasEnded ns fuel descend d [] node path colors a w =
    whites-paint node black colors ns (λ h. cc)
scan-HasEnded ns fuel descend d (m ∷ ms) node path colors a w =
    round-HasEnded ns fuel descend (color colors m) m ms node path colors d a.0 w
      (λ colors'. scan-HasEnded ns fuel descend d ms node path colors' a.1) refl

-- A search that starts at a white name with as much fuel as there are white names.
dfs-HasEnded : (adj : Graph) (fuel : ℕ) → Descends (names_of adj) fuel (dfs adj fuel)
unfolding dfs
dfs-HasEnded adj zero n path colors a e w =
    absurd (omega (arith, whites-paint_white n gray colors (names_of adj) (λ h. cc) e a))
dfs-HasEnded adj (suc fuel) n path colors a e w =
    HasEnded-le (names_of adj) (whites ((n, gray) ∷ colors) (names_of adj))
      (whites colors (names_of adj)) (dfs adj (suc fuel) n path colors) (omega (arith, painted))
      (scan-HasEnded (names_of adj) fuel (dfs adj fuel) (dfs-HasEnded adj fuel) (neighbors adj n) n
        (path ++ n ∷ []) ((n, gray) ∷ colors) (neighbors-IsAmong adj n) (omega (arith, painted)))
  where
    painted : whites ((n, gray) ∷ colors) (names_of adj) < whites colors (names_of adj)
    painted = whites-paint_white n gray colors (names_of adj) (λ h. cc) e a

-- The nodes of a graph.
abbrev pub nodes : Graph → List String
nodes [] = []
nodes ((n, ns) ∷ rest) = n ∷ nodes rest

nodes-IsAmong : (adj : Graph) → IsAmong (names_of adj) (nodes adj)
unfolding names_of contains
nodes-IsAmong [] = tt
nodes-IsAmong ((n, ns) ∷ rest) = (
  ground (arith, eq_iff n n),
  IsAmong-more (n ∷ ns) (names_of rest) (nodes rest) (nodes-IsAmong rest),
)

-- One round of the outer loop, when the rounds after it end.
turn-HasEnded :
    (adj : Graph) (fuel : ℕ) (c : Color) (n : String) (rest : Graph) (colors : Colors)
    → contains (names_of adj) n ≡ true
    → whites colors (names_of adj) ≤ fuel
    → ((colors' : Colors)
        → whites colors' (names_of adj) ≤ fuel
        → HasEnded
            (names_of adj)
            (whites colors' (names_of adj))
            (search_all adj fuel rest colors'))
    → color colors n ≡ c
    → HasEnded (names_of adj) (whites colors (names_of adj)) (elim c [
      | white ↦ and_then (dfs adj fuel n [] colors) (λ colors'. search_all adj fuel rest colors')
      | _ ↦ search_all adj fuel rest colors
    ])
turn-HasEnded adj fuel white n rest colors a w ih e =
    step-HasEnded (names_of adj) fuel (dfs adj fuel n [] colors)
      (λ colors'. search_all adj fuel rest colors') colors w
      (dfs-HasEnded adj fuel n [] colors a e w) ih
turn-HasEnded adj fuel gray n rest colors a w ih e = ih colors w
turn-HasEnded adj fuel black n rest colors a w ih e = ih colors w

search_all-HasEnded :
    (adj : Graph) (fuel : ℕ) (rest : Graph) (colors : Colors)
    → IsAmong (names_of adj) (nodes rest)
    → whites colors (names_of adj) ≤ fuel
    → HasEnded (names_of adj) (whites colors (names_of adj)) (search_all adj fuel rest colors)
unfolding search_all
search_all-HasEnded adj fuel [] colors a w = omega arith
search_all-HasEnded adj fuel ((n, ns) ∷ rest) colors a w =
    turn-HasEnded adj fuel (color colors n) n rest colors a.0 w
      (λ colors'. search_all-HasEnded adj fuel rest colors' a.1) refl

ended : (ns : List String) (k : ℕ) (v : Visit) → HasEnded ns k v → v ≢ out_of_fuel
ended ns k (found c) h e = cc
ended ns k (finished colors) h e = cc
ended ns k out_of_fuel h e = absurd h

-- The search for a cycle ends on every graph: the fuel it is given is enough.
pub find_cycle_ends : (adj : Graph) → find_cycle adj ≢ out_of_fuel
unfolding find_cycle
find_cycle_ends adj = ended (names_of adj) (whites [] (names_of adj)) (find_cycle adj) (
    search_all-HasEnded adj (length (names_of adj) + 1) adj [] (nodes-IsAmong adj)
      (omega (arith, whites-bound [] (names_of adj))))
