-- ===== src/Policy/Lint/Cycle/Walk.antt =====
-- Walks along `only_after` edges, and the list that the search reports.
use truebearing.Base.{
  String, ◌≡◌, ap, inl, inr, true, false, some, List, [], ◌∷◌, ◌++◌, ◌==◌, arith, eq_iff, contains,
  Bool-cases,
}
use mathlib.Core.Path.{subst}
use truebearing.Policy.Lint.Cycle.{cycle_path, from_first, Graph, neighbors, or_whole}

abbrev pub HasEdge : Graph → String → String → Type 0
HasEdge adj n m = contains (neighbors adj n) m ≡ true

-- Each node of the list has an edge to the next one.
abbrev pub IsWalk : Graph → List String → Type 0
IsWalk adj [] = Unit
IsWalk adj (n ∷ []) = Unit
IsWalk adj (n ∷ m ∷ path) = HasEdge adj n m × IsWalk adj (m ∷ path)

-- A walk of at least one edge that ends where it starts.
abbrev pub IsCycle : Graph → List String → Type 0
IsCycle adj c =
    (n : String) × (part : List String) × (c ≡ n ∷ (part ++ n ∷ []))
    × IsWalk adj (n ∷ (part ++ n ∷ []))

pub IsWalk-extend :
    (adj : Graph) (path : List String) (node m : String)
    → IsWalk adj (path ++ node ∷ [])
    → HasEdge adj node m
    → IsWalk adj ((path ++ node ∷ []) ++ m ∷ [])
IsWalk-extend adj [] node m w e = (e, tt)
IsWalk-extend adj (x ∷ []) node m w e = (w.0, (e, tt))
IsWalk-extend adj (x ∷ y ∷ path) node m w e = (w.0, IsWalk-extend adj (y ∷ path) node m w.1 e)

IsWalk-rest :
    (adj : Graph) (x m : String) (path : List String)
    → IsWalk adj (x ∷ (path ++ m ∷ []))
    → IsWalk adj (path ++ m ∷ [])
IsWalk-rest adj x m [] w = tt
IsWalk-rest adj x m (y ∷ path) w = w.1

-- The first place of a node of the path.
from_first-contains :
    (adj : Graph) (m : String) (path : List String)
    → contains path m ≡ true
    → IsWalk adj (path ++ m ∷ [])
    → (part : List String) × (from_first m path ≡ some (m ∷ part))
      × IsWalk adj (m ∷ (part ++ m ∷ []))
unfolding contains from_first
from_first-contains adj m [] c w = absurd (ground arith)
from_first-contains adj m (x ∷ path) c w = elim (Bool-cases (x == m)) [
  | inl e ↦ (path, here e, subst (λ y. IsWalk adj (y ∷ (path ++ m ∷ []))) ((eq_iff x m).0 e) w)
  | inr e ↦
      let (part, found_there, walk) =
        from_first-contains adj m path (there e) (IsWalk-rest adj x m path w) in
      (part, rw e found_there, walk)
]
  where
    here : x == m ≡ true → from_first m (x ∷ path) ≡ some (m ∷ path)
    here e = rw e (ap (λ y. some (y ∷ path)) ((eq_iff x m).0 e))

    there : x == m ≡ false → contains path m ≡ true
    there e = ground (arith, c, e)

-- A node of the path that the walk comes back to closes a cycle.
pub cycle_path-IsCycle :
    (adj : Graph) (m : String) (path : List String)
    → contains path m ≡ true
    → IsWalk adj (path ++ m ∷ [])
    → IsCycle adj (cycle_path m path)
unfolding cycle_path
cycle_path-IsCycle adj m path c w =
    let (part, e, walk) = from_first-contains adj m path c w in
    (m, part, ap (λ o. or_whole o path ++ m ∷ []) e, walk)
