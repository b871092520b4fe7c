-- ===== src/Policy/Lint/Cycle/Whites.antt =====
-- How many names of a graph are white, and that the search meets only those names.
use truebearing.Base.{
  ℕ, suc, ◌+◌, ◌≤◌, ◌<◌, String, ◌≡◌, ◌≢◌, refl, inl, inr, true, List, [], ◌∷◌, ◌++◌, ◌==◌, arith,
  eq_iff, length, lookup, contains, ◌||◌, Bool-cases,
}
use truebearing.Policy.Lint.Cycle.{
  black, Color, color, Colors, Graph, gray, names_of, neighbors, white,
}

abbrev pub is_white : Color → ℕ
is_white white = 1
is_white gray = 0
is_white black = 0

-- How many of the names are white.
abbrev pub whites : Colors → List String → ℕ
whites colors [] = 0
whites colors (n ∷ ns) = is_white (color colors n) + whites colors ns

pub whites-bound : (colors : Colors) (ns : List String) → whites colors ns ≤ length ns
whites-bound colors [] = omega arith
whites-bound colors (n ∷ ns) =
    elim (color colors n) as (λ c. is_white c + whites colors ns ≤ suc (length ns)) [
      | white ↦ omega (arith, whites-bound colors ns)
      | gray ↦ omega (arith, whites-bound colors ns)
      | black ↦ omega (arith, whites-bound colors ns)
    ]

-- Painting a node gray or black makes no name white.
pub whites-paint :
    (node : String) (c : Color) (colors : Colors) (ns : List String)
    → c ≢ white
    → whites ((node, c) ∷ colors) ns ≤ whites colors ns
unfolding color lookup
whites-paint node c colors [] h = omega arith
whites-paint node c colors (n ∷ ns) h = ground (arith, whites-paint node c colors ns h)

-- Painting a white node that is one of the names leaves one white name less.
pub whites-paint_white :
    (node : String) (c : Color) (colors : Colors) (ns : List String)
    → c ≢ white
    → color colors node ≡ white
    → contains ns node ≡ true
    → whites ((node, c) ∷ colors) ns < whites colors ns
unfolding color lookup contains
whites-paint_white node c colors [] h w m = ground arith
whites-paint_white node c colors (n ∷ ns) h w m = ground (
  arith,
  eq_iff n node,
  eq_iff node n,
  whites-paint node c colors ns h,
  whites-paint_white node c colors ns h w,
)

pub contains-append :
    (xs ys : List String) (x : String) → contains (xs ++ ys) x ≡ (contains xs x || contains ys x)
unfolding contains
contains-append [] ys x = refl
contains-append (z ∷ xs) ys x = ground (arith, contains-append xs ys x)

-- All the names of a list are among others.
abbrev pub IsAmong : List String → List String → Type 0
IsAmong ns [] = Unit
IsAmong ns (m ∷ ms) = (contains ns m ≡ true) × IsAmong ns ms

pub IsAmong-more : (xs ns ms : List String) → IsAmong ns ms → IsAmong (xs ++ ns) ms
IsAmong-more xs ns [] h = tt
IsAmong-more xs ns (m ∷ ms) h = (ground (arith, contains-append xs ns m), IsAmong-more xs ns ms h.1)

pub IsAmong-cons : (n : String) (ns ms : List String) → IsAmong ns ms → IsAmong (n ∷ ns) ms
IsAmong-cons n ns ms h = IsAmong-more (n ∷ []) ns ms h

pub IsAmong-append : (xs ns : List String) → IsAmong (xs ++ ns) xs
unfolding contains
IsAmong-append [] ns = tt
IsAmong-append (x ∷ xs) ns =
    (ground (arith, eq_iff x x), IsAmong-cons x (xs ++ ns) xs (IsAmong-append xs ns))

pub neighbors-IsAmong : (adj : Graph) (node : String) → IsAmong (names_of adj) (neighbors adj node)
unfolding neighbors names_of lookup
neighbors-IsAmong [] node = tt
neighbors-IsAmong ((n, ns) ∷ rest) node = elim (Bool-cases (n == node)) [
  | inl e ↦ rw e (IsAmong-cons n (ns ++ names_of rest) ns (IsAmong-append ns (names_of rest)))
  | inr e ↦
      rw e
        (IsAmong-more (n ∷ ns) (names_of rest) (neighbors rest node) (neighbors-IsAmong rest node))
]
