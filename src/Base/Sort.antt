-- ===== src/Base/Sort.antt =====
-- `ORDER BY key ASC`: a stable insertion sort, and the lists that it leaves alone.
use Prim.Native.Nat.{ℕ, suc, ◌+◌}
use mathlib.Core.Path.{◌≡◌, refl, ap, ◌∙◌}
use mathlib.Core.List.{List, [], ◌∷◌, ◌++◌}
use native.Mathlib.Omega.{arith}
use truebearing.Base.Tests.{leb, if◌then◌else◌}
use truebearing.Base.Lists.{length, is_empty}

module _ {ℓ} {A : Type ℓ} (key : A → ℕ) where
  insert_by : A → List A → List A
  insert_by x [] = x ∷ []
  insert_by x (y ∷ ys) =
      let later = insert_by x ys in if leb (key x) (key y) then x ∷ y ∷ ys else y ∷ later

  unfoldable pub order_by : List A → List A
  unfolding insert_by
  order_by [] = []
  order_by (x ∷ xs) = insert_by x (order_by xs)

  -- The keys are n + 1, n + 2 and so on.
  abbrev pub IsNumbered : ℕ → List A → Type 0
  IsNumbered n [] = Unit
  IsNumbered n (x ∷ xs) = (key x ≡ suc n) × IsNumbered (suc n) xs

  insert_first :
      (n : ℕ) (x : A) (xs : List A)
      → key x ≡ suc n
      → IsNumbered (suc n) xs
      → insert_by x xs ≡ x ∷ xs
  unfolding insert_by
  insert_first n x [] h k = refl
  insert_first n x (y ∷ ys) h k = ground arith

  pub order_by-numbered : (n : ℕ) (xs : List A) → IsNumbered n xs → order_by xs ≡ xs
  unfolding order_by
  order_by-numbered n [] h = refl
  order_by-numbered n (x ∷ xs) h =
      ap (insert_by x) (order_by-numbered (suc n) xs h.1) ∙ insert_first n x xs h.0 h.1

  -- `COALESCE(MAX(key), 0)`
  unfoldable pub max_key : List A → ℕ
  max_key [] = 0
  max_key (x ∷ xs) = let rest = max_key xs in if leb (key x) rest then rest else key x

  max_key_from :
      (n : ℕ) (xs : List A)
      → IsNumbered n xs
      → max_key xs ≡ (if is_empty xs then 0 else n + length xs)
  unfolding max_key
  max_key_from n [] h = refl
  max_key_from n (x ∷ []) h = ground arith
  max_key_from n (x ∷ y ∷ ys) h = ground (arith, max_key_from (suc n) (y ∷ ys) h.1)

  pub max_key-numbered : (xs : List A) → IsNumbered 0 xs → max_key xs ≡ length xs
  max_key-numbered [] h = max_key_from 0 [] h
  max_key-numbered (x ∷ xs) h = ground (arith, max_key_from 0 (x ∷ xs) h)

  pub IsNumbered-append :
      (n : ℕ) (xs : List A) (y : A)
      → IsNumbered n xs
      → key y ≡ suc (n + length xs)
      → IsNumbered n (xs ++ y ∷ [])
  IsNumbered-append n [] y h k = omega arith
  IsNumbered-append n (x ∷ xs) y h k = (h.0, IsNumbered-append (suc n) xs y h.1 (omega arith))
