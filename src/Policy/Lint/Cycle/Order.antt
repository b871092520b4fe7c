-- ===== src/Policy/Lint/Cycle/Order.antt =====
-- The order in which the search finishes nodes: a node turns black when all its neighbours are black.
-- No black node of such a colouring is on a cycle.
use truebearing.Base.{
  String, ◌≡◌, refl, sym, ◌≢◌, inl, inr, false, List, [], ◌∷◌, ◌++◌, ◌==◌, arith, eq_iff,
  if◌then◌else◌, lookup, Bool-cases,
}
use mathlib.Core.Path.{subst}
use truebearing.Policy.Lint.Cycle.{black, Color, color, Colors, Graph, gray, white}
use truebearing.Policy.Lint.Cycle.Walk.{HasEdge, IsWalk}

abbrev pub IsBlack : Colors → String → Type 0
IsBlack colors n = color colors n ≡ black

abbrev pub IsOrdered : Graph → Colors → Type 0
IsOrdered adj [] = Unit
IsOrdered adj ((n, white) ∷ colors) = ⊥
IsOrdered adj ((n, gray) ∷ colors) = (color colors n ≢ black) × IsOrdered adj colors
IsOrdered adj ((n, black) ∷ colors) =
    ((m : String) → HasEdge adj n m → IsBlack colors m) × IsOrdered adj colors

pub color-paint :
    (n m : String) (c : Color) (colors : Colors)
    → color ((n, c) ∷ colors) m ≡ (if n == m then c else color colors m)
unfolding color lookup
color-paint n m c colors = elim (Bool-cases (n == m)) [ inl e ↦ rw e refl | inr e ↦ rw e refl ]

pub color-other :
    (k n : String) (c d : Color) (colors : Colors)
    → k == n ≡ false
    → color ((k, c) ∷ colors) n ≡ d
    → color colors n ≡ d
color-other k n c d colors q h = ground (arith, color-paint k n c colors, q, h)

pub IsBlack-paint :
    (k n : String) (colors : Colors) → IsBlack colors n → IsBlack ((k, black) ∷ colors) n
IsBlack-paint k n colors h = ground (arith, color-paint k n black colors, h)

pub blank-not-black : (n : String) → color [] n ≢ black
unfolding color lookup
blank-not-black n h = cc

-- Black nodes have black neighbours.
IsBlack-neighbor :
    (adj : Graph) (colors : Colors) (n m : String)
    → IsOrdered adj colors
    → IsBlack colors n
    → HasEdge adj n m
    → IsBlack colors m
IsBlack-neighbor adj [] n m o b e = absurd (blank-not-black n b)
IsBlack-neighbor adj ((k, white) ∷ colors) n m o b e = absurd o
IsBlack-neighbor adj ((k, gray) ∷ colors) n m o b e =
    gray_over (λ h. IsBlack-neighbor adj colors n m o.1 h e)
  where
    gray_over : (IsBlack colors n → IsBlack colors m) → IsBlack ((k, gray) ∷ colors) m
    gray_over ih =
        ground
          (arith, color-paint k m gray colors, color-paint k n gray colors, eq_iff k m, ih, o.0, b)
IsBlack-neighbor adj ((k, black) ∷ colors) n m o b e =
    black_over (λ h. IsBlack-neighbor adj colors n m o.1 h e)
  where
    black_over : (IsBlack colors n → IsBlack colors m) → IsBlack ((k, black) ∷ colors) m
    black_over ih = IsBlack-paint k m colors (elim (Bool-cases (k == n)) [
      | inl q ↦ o.0 m (subst (λ x. HasEdge adj x m) (sym ((eq_iff k n).0 q)) e)
      | inr q ↦ ih (color-other k n black black colors q b)
    ])

-- A walk that starts at a black node ends at one.
IsBlack-last :
    (adj : Graph) (colors : Colors) (m n : String) (part : List String)
    → IsOrdered adj colors
    → IsBlack colors m
    → IsWalk adj (m ∷ (part ++ n ∷ []))
    → IsBlack colors n
IsBlack-last adj colors m n [] o b w = IsBlack-neighbor adj colors m n o b w.0
IsBlack-last adj colors m n (k ∷ part) o b w =
    IsBlack-last adj colors k n part o (IsBlack-neighbor adj colors m k o b w.0) w.1

-- A cycle has a first step, to the node after which the rest of it comes back.
after_step :
    (adj : Graph) (colors : Colors) (n : String) (part : List String)
    → IsOrdered adj colors
    → ((m : String) → HasEdge adj n m → IsBlack colors m)
    → IsWalk adj (n ∷ (part ++ n ∷ []))
    → IsBlack colors n
after_step adj colors n [] o all w = all n w.0
after_step adj colors n (k ∷ part) o all w = IsBlack-last adj colors k n part o (all k w.0) w.1

-- No black node is on a cycle.
pub black-IsAcyclic :
    (adj : Graph) (colors : Colors) (n : String) (part : List String)
    → IsOrdered adj colors
    → IsBlack colors n
    → IsWalk adj (n ∷ (part ++ n ∷ []))
    → ⊥
black-IsAcyclic adj [] n part o b w = blank-not-black n b
black-IsAcyclic adj ((k, white) ∷ colors) n part o b w = o
black-IsAcyclic adj ((k, gray) ∷ colors) n part o b w =
    black-IsAcyclic adj colors n part o.1 (ground (arith, color-paint k n gray colors)) w
black-IsAcyclic adj ((k, black) ∷ colors) n part o b w =
    black-IsAcyclic adj colors n part o.1
      (elim (Bool-cases (k == n)) [
        | inl q ↦
            after_step adj colors n part o.1
              (λ m h. o.0 m (subst (λ x. HasEdge adj x m) (sym ((eq_iff k n).0 q)) h)) w
        | inr q ↦ color-other k n black black colors q b
      ])
      w
