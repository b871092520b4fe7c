-- ===== src/Base/Lists.antt =====
-- Lists of texts and association lists: the tests and lookups of the program, and their lemmas.
use Prim.Native.Nat.{ℕ, suc}
use Prim.Native.String.{String}
use mathlib.Core.Path.{◌≡◌, refl}
use mathlib.Core.Logic.{◌↔◌, inl, inr}
use mathlib.Core.Logic.Or
use mathlib.Core.Bool.{Bool, true, false, Bool-set}
use mathlib.Core.Option.{Option, none, some}
use mathlib.Core.List.{
  List, [], ◌∷◌, ◌++◌, map, Mem, mem-cons, mem-cons_self, mem-cons_of_mem, not-mem-nil,
}
use native.Mathlib.Omega.{arith}
use text.Mathlib.Text.{◌==◌}
use text.Mathlib.TextEquality.{eq_iff}
use truebearing.Base.Tests.{if◌then◌else◌, Bool-cases}

module _ {ℓ} {A : Type ℓ} where
  abbrev pub length : List A → ℕ
  length [] = 0
  length (x ∷ xs) = suc (length xs)

  abbrev pub is_empty : List A → Bool
  is_empty [] = true
  is_empty (x ∷ xs) = false

  -- `append` of the items that pass a test, in order.
  unfoldable pub keep : (A → Bool) → List A → List A
  keep p [] = []
  keep p (x ∷ xs) = let rest = keep p xs in if p x then x ∷ rest else rest

  -- The library's `map`, open.
  unfoldable pub any : (A → Bool) → List A → Bool
  any p [] = false
  any p (x ∷ xs) = let rest = any p xs in if p x then true else rest

-- A predicate of every item, by recursion: it computes to a tuple.
abbrev pub All {ℓ κ} : {A : Type ℓ} → (A → Type κ) → List A → Type κ
All P [] = Unit
All P (x ∷ xs) = P x × All P xs

-- `for _, t := range xs { if t == x { … } }`
unfoldable pub contains : List String → String → Bool
contains [] x = false
contains (t ∷ ts) x = let rest = contains ts x in if t == x then true else rest

unfoldable pub count : List String → String → ℕ
count [] x = 0
count (t ∷ ts) x = let rest = count ts x in if t == x then suc rest else rest

module _ {ℓ} {V : Type ℓ} where
  -- A Go map as an association list, the newest binding first.
  unfoldable pub lookup : List (String × V) → String → Option V
  lookup [] k = none
  lookup ((j, v) ∷ m) k = let rest = lookup m k in if j == k then some v else rest

  pub lookup-cons :
      (j k : String) (v : V) (m : List (String × V))
      → lookup ((j, v) ∷ m) k ≡ (if j == k then some v else lookup m k)
  unfolding lookup
  lookup-cons j k v m = refl

contains→mem : (ts : List String) (x : String) → contains ts x ≡ true → Mem x ts
unfolding contains
contains→mem [] x h = absurd (ground arith)
contains→mem (t ∷ ts) x h = elim (Bool-cases (t == x)) [
  | inl e ↦ rw (← (eq_iff t x).0 e) mem-cons_self
  | inr e ↦ mem-cons_of_mem t (contains→mem ts x (ground arith))
]

mem→contains : (ts : List String) (x : String) → Mem x ts → contains ts x ≡ true
unfolding contains
mem→contains [] x m = absurd (not-mem-nil m)
mem→contains (t ∷ ts) x m =
    Or.elim (Bool-set _ _) (mem-cons.0 m) (λ e. ground (arith, eq_iff t x))
      (λ r. ground (arith, mem→contains ts x r))

pub contains_iff : (ts : List String) (x : String) → (contains ts x ≡ true) ↔ Mem x ts
contains_iff ts x = (contains→mem ts x, mem→contains ts x)

pub contains-false_iff : (ts : List String) (x : String) → (contains ts x ≡ false) ↔ (¬ Mem x ts)
contains-false_iff ts x = (
  λ h m. cc (mem→contains ts x m),
  λ n. elim (Bool-cases (contains ts x)) [ inl e ↦ absurd (n (contains→mem ts x e)) | inr e ↦ e ],
)

module _ {ℓ} {A : Type ℓ} where
  pub is_empty-append :
      (xs ys : List A) → is_empty (xs ++ ys) ≡ (if is_empty xs then is_empty ys else false)
  is_empty-append [] ys = refl
  is_empty-append (x ∷ xs) ys = refl

  pub is_empty-map {κ} : {B : Type κ} (f : A → B) (xs : List A) → is_empty (map f xs) ≡ is_empty xs
  is_empty-map f [] = refl
  is_empty-map f (x ∷ xs) = refl

  keep_none :
      (p : A → Bool) (xs : List A) → is_empty (keep p xs) ≡ true → (x : A) → Mem x xs → p x ≡ false
  unfolding keep
  keep_none p [] h x m = absurd (not-mem-nil m)
  keep_none p (y ∷ ys) h x m =
      Or.elim (Bool-set _ _) (mem-cons.0 m) (λ e. rw e (ground arith))
        (λ r. keep_none p ys (ground arith) x r)

  none_keep :
      (p : A → Bool) (xs : List A)
      → ((x : A) → Mem x xs → p x ≡ false)
      → is_empty (keep p xs) ≡ true
  unfolding keep
  none_keep p [] h = refl
  none_keep p (y ∷ ys) h =
      ground (arith, h y mem-cons_self, none_keep p ys (λ x m. h x (mem-cons_of_mem y m)))

  -- Nothing is kept exactly if every item fails the test.
  pub is_empty-keep_iff :
      (p : A → Bool) (xs : List A)
      → (is_empty (keep p xs) ≡ true) ↔ ((x : A) → Mem x xs → p x ≡ false)
  is_empty-keep_iff p xs = (keep_none p xs, none_keep p xs)

  pub keep_congr : (p q : A → Bool) (xs : List A) → ((x : A) → p x ≡ q x) → keep p xs ≡ keep q xs
  unfolding keep
  keep_congr p q [] h = refl
  keep_congr p q (x ∷ xs) h = ground (arith, h x, keep_congr p q xs h)

  pub keep-append : (p : A → Bool) (xs ys : List A) → keep p (xs ++ ys) ≡ keep p xs ++ keep p ys
  unfolding keep
  keep-append p [] ys = refl
  keep-append p (x ∷ xs) ys = ground (arith, keep-append p xs ys)
