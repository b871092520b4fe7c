-- ===== src/Policy/Lint/Cycle/Explore.antt =====
-- What a search from one node comes to: a cycle, or a colouring in which that node is black, no node
-- has turned gray, and black nodes were finished after their neighbours.
use truebearing.Base.{
  ℕ, zero, suc, String, ◌≡◌, ◌≢◌, refl, ◌⊎◌, inl, inr, true, false, List, [], ◌∷◌, ◌++◌, ◌==◌,
  arith, eq_iff, contains, Bool-cases,
}
use mathlib.Core.Path.{subst}
use truebearing.Policy.Lint.Cycle.{
  and_then, black, Color, color, Colors, cycle_path, dfs, finished, found, Graph, gray, neighbors,
  out_of_fuel, scan, Visit, white,
}
use truebearing.Policy.Lint.Cycle.Walk.{cycle_path-IsCycle, HasEdge, IsCycle, IsWalk, IsWalk-extend}
use truebearing.Policy.Lint.Cycle.Order.{
  color-other, color-paint, IsBlack, IsBlack-paint, IsOrdered,
}

-- Each node that is gray is on the path.
abbrev GrayIsOn : List String → Colors → Type 0
GrayIsOn path colors = (n : String) → color colors n ≡ gray → contains path n ≡ true

abbrev pub BlackStays : Colors → Colors → Type 0
BlackStays colors colors' = (n : String) → IsBlack colors n → IsBlack colors' n

-- What a search from a node comes to: a cycle, or a colouring in order where the node is black.
abbrev pub HasOutcome : Graph → String → Colors → Visit → Type 0
HasOutcome adj node colors (found c) = IsCycle adj c
HasOutcome adj node colors (finished colors') =
    IsOrdered adj colors'
    × IsBlack colors' node
    × BlackStays colors colors'
    × ((n : String) → color colors' n ≡ gray → (color colors n ≡ gray) × (node == n ≡ false))
HasOutcome adj node colors out_of_fuel = Unit

abbrev Explores : Graph → (String → List String → Colors → Visit) → Type 0
Explores adj descend =
    (n : String) (path : List String) (colors : Colors)
    → IsOrdered adj colors
    → color colors n ≡ white
    → GrayIsOn path colors
    → IsWalk adj (path ++ n ∷ [])
    → HasOutcome adj n colors (descend n path colors)

-- Each neighbour is still to come or black.
abbrev LeavesBlack : Graph → String → List String → Colors → Type 0
LeavesBlack adj node ms colors =
    (m : String) → HasEdge adj node m → (contains ms m ≡ true) ⊎ IsBlack colors m

contains-snoc :
    (path : List String) (node n : String)
    → contains (path ++ node ∷ []) n ≡ true
    → node == n ≡ false
    → contains path n ≡ true
unfolding contains
contains-snoc [] node n c q = ground (arith, c, q)
contains-snoc (x ∷ path) node n c q = ground (arith, c, q, contains-snoc path node n)

contains-snoc_of :
    (path : List String) (node n : String)
    → (contains path n ≡ true) ⊎ (node == n ≡ true)
    → contains (path ++ node ∷ []) n ≡ true
unfolding contains
contains-snoc_of [] node n c = ground (arith, c)
contains-snoc_of (x ∷ path) node n c = ground (arith, c, contains-snoc_of path node n)

-- A step that keeps black nodes, adds no gray one, and leads to an outcome.
after-HasOutcome :
    (adj : Graph) (node m : String) (colors colors₁ : Colors) (v : Visit)
    → HasOutcome adj m colors (finished colors₁)
    → HasOutcome adj node colors₁ v
    → HasOutcome adj node colors v
after-HasOutcome adj node m colors colors₁ (found c) s h = h
after-HasOutcome adj node m colors colors₁ (finished colors') s h =
    (h.0, h.1, (λ n b. h.2 n (s.2 n b)), λ n g. ((s.3 n (h.3 n g).0).0, (h.3 n g).1))
after-HasOutcome adj node m colors colors₁ out_of_fuel s h = tt

and_then-HasOutcome :
    (adj : Graph) (node m : String) (colors : Colors) (v : Visit) (k : Colors → Visit)
    → HasOutcome adj m colors v
    → ((colors₁ : Colors)
        → HasOutcome adj m colors (finished colors₁)
        → HasOutcome adj node colors₁ (k colors₁))
    → HasOutcome adj node colors (and_then v k)
and_then-HasOutcome adj node m colors (found c) k h f = h
and_then-HasOutcome adj node m colors (finished colors₁) k h f =
    after-HasOutcome adj node m colors colors₁ (k colors₁) h (f colors₁ h)
and_then-HasOutcome adj node m colors out_of_fuel k h f = tt

pub contains-nil : (m : String) → contains [] m ≢ true
unfolding contains
contains-nil m c = ground (arith, c)

pub contains-later :
    (m n : String) (ms : List String)
    → m == n ≡ false
    → contains (m ∷ ms) n ≡ true
    → contains ms n ≡ true
unfolding contains
contains-later m n ms q c = ground (arith, q, c)

-- The neighbours that are left when the next one is black.
LeavesBlack-next :
    (adj : Graph) (node m : String) (ms : List String) (colors colors₁ : Colors)
    → LeavesBlack adj node (m ∷ ms) colors
    → BlackStays colors colors₁
    → IsBlack colors₁ m
    → LeavesBlack adj node ms colors₁
LeavesBlack-next adj node m ms colors colors₁ l stays b n e = next (l n e)
  where
    next :
        (contains (m ∷ ms) n ≡ true) ⊎ IsBlack colors n → (contains ms n ≡ true) ⊎ IsBlack colors₁ n
    next (inr old) = inr (stays n old)
    next (inl c) = elim (Bool-cases (m == n)) [
      | inl q ↦ inr (subst (λ x. IsBlack colors₁ x) ((eq_iff m n).0 q) b)
      | inr q ↦ inl (contains-later m n ms q c)
    ]

black-over :
    (adj : Graph) (node : String) (path : List String) (colors : Colors)
    → IsOrdered adj colors
    → LeavesBlack adj node [] colors
    → HasOutcome adj node colors (finished ((node, black) ∷ colors))
black-over adj node path colors o all = (
  ((λ m e. black_neighbor m (all m e)), o),
  ground (arith, color-paint node node black colors, eq_iff node node),
  (λ n b. IsBlack-paint node n colors b),
  gray_before,
)
  where
    black_neighbor : (m : String) → (contains [] m ≡ true) ⊎ IsBlack colors m → IsBlack colors m
    black_neighbor m (inl c) = absurd (contains-nil m c)
    black_neighbor m (inr b) = b

    gray_before :
        (n : String)
        → color ((node, black) ∷ colors) n ≡ gray
        → (color colors n ≡ gray) × (node == n ≡ false)
    gray_before n g = (
      ground (arith, color-paint node n black colors, g),
      ground (arith, color-paint node n black colors, g),
    )

-- The rounds of the scan that are left, given that those after the next one come to an outcome.
round-HasOutcome :
    (adj : Graph) (descend : String → List String → Colors → Visit) (c : Color) (m : String)
    (ms : List String) (node : String) (path : List String) (colors : Colors)
    → Explores adj descend
    → IsOrdered adj colors
    → GrayIsOn (path ++ node ∷ []) colors
    → IsWalk adj (path ++ node ∷ [])
    → HasEdge adj node m
    → LeavesBlack adj node (m ∷ ms) colors
    → ((colors₁ : Colors)
        → IsOrdered adj colors₁
        → GrayIsOn (path ++ node ∷ []) colors₁
        → LeavesBlack adj node ms colors₁
        → HasOutcome adj node colors₁ (scan descend ms node (path ++ node ∷ []) colors₁))
    → color colors m ≡ c
    → HasOutcome adj node colors (elim c [
      | gray ↦ found (cycle_path m (path ++ node ∷ []))
      | black ↦ scan descend ms node (path ++ node ∷ []) colors
      | white ↦
          and_then
            (descend m (path ++ node ∷ []) colors)
            (λ colors₁. scan descend ms node (path ++ node ∷ []) colors₁)
    ])
round-HasOutcome adj descend gray m ms node path colors d o g w e l rest q =
    cycle_path-IsCycle adj m (path ++ node ∷ []) (g m q) (IsWalk-extend adj path node m w e)
round-HasOutcome adj descend black m ms node path colors d o g w e l rest q =
    rest colors o g (LeavesBlack-next adj node m ms colors colors l (λ n b. b) q)
round-HasOutcome adj descend white m ms node path colors d o g w e l rest q =
    and_then-HasOutcome adj node m colors (descend m (path ++ node ∷ []) colors)
      (λ colors₁. scan descend ms node (path ++ node ∷ []) colors₁)
      (d m (path ++ node ∷ []) colors o q g (IsWalk-extend adj path node m w e))
      (λ colors₁ s.
        rest colors₁ s.0 (λ n h. g n (s.3 n h).0)
          (LeavesBlack-next adj node m ms colors colors₁ l s.2 s.1))

contains-first : (m : String) (ms : List String) → contains (m ∷ ms) m ≡ true
unfolding contains
contains-first m ms = ground (arith, eq_iff m m)

contains-rest :
    (m n : String) (ms : List String) → contains ms n ≡ true → contains (m ∷ ms) n ≡ true
unfolding contains
contains-rest m n ms c = ground (arith, c)

scan-HasOutcome :
    (adj : Graph) (descend : String → List String → Colors → Visit) (ms : List String)
    (node : String) (path : List String) (colors : Colors)
    → Explores adj descend
    → IsOrdered adj colors
    → GrayIsOn (path ++ node ∷ []) colors
    → IsWalk adj (path ++ node ∷ [])
    → ((m : String) → contains ms m ≡ true → HasEdge adj node m)
    → LeavesBlack adj node ms colors
    → HasOutcome adj node colors (scan descend ms node (path ++ node ∷ []) colors)
unfolding scan
scan-HasOutcome adj descend [] node path colors d o g w e l = black-over adj node path colors o l
scan-HasOutcome adj descend (m ∷ ms) node path colors d o g w e l =
    round-HasOutcome adj descend (color colors m) m ms node path colors d o g w
      (e m (contains-first m ms)) l
      (λ colors₁ o₁ g₁ l₁.
        scan-HasOutcome adj descend ms node path colors₁ d o₁ g₁ w
          (λ n c. e n (contains-rest m n ms c)) l₁)
      refl

-- Painting the node gray, before its scan, keeps the outcome.
gray-HasOutcome :
    (adj : Graph) (n : String) (colors : Colors) (v : Visit)
    → color colors n ≡ white
    → HasOutcome adj n ((n, gray) ∷ colors) v
    → HasOutcome adj n colors v
gray-HasOutcome adj n colors (found c) q h = h
gray-HasOutcome adj n colors (finished colors') q h = (
  h.0,
  h.1,
  (λ m b. h.2 m (still m b)),
  λ m g. (color-other n m gray gray colors (h.3 m g).1 (h.3 m g).0, (h.3 m g).1),
)
  where
    still : (m : String) → IsBlack colors m → IsBlack ((n, gray) ∷ colors) m
    still m b = ground (arith, color-paint n m gray colors, eq_iff n m, b, q)
gray-HasOutcome adj n colors out_of_fuel q h = tt

GrayIsOn-snoc :
    (path : List String) (n : String) (colors : Colors)
    → GrayIsOn path colors
    → GrayIsOn (path ++ n ∷ []) ((n, gray) ∷ colors)
GrayIsOn-snoc path n colors g m h = contains-snoc_of path n m (elim (Bool-cases (n == m)) [
  | inl e ↦ inr e
  | inr e ↦ inl (g m (color-other n m gray gray colors e h))
])

pub dfs-HasOutcome : (adj : Graph) (fuel : ℕ) → Explores adj (dfs adj fuel)
unfolding dfs
dfs-HasOutcome adj zero n path colors o q g w = tt
dfs-HasOutcome adj (suc fuel) n path colors o q g w =
    gray-HasOutcome adj n colors (dfs adj (suc fuel) n path colors) q (
      scan-HasOutcome adj (dfs adj fuel) (neighbors adj n) n path ((n, gray) ∷ colors)
        (dfs-HasOutcome adj fuel) ((λ b. cc), o) (GrayIsOn-snoc path n colors g) w (λ m c. c)
        (λ m e. inl e))
