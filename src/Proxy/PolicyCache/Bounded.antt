-- ===== src/Proxy/PolicyCache/Bounded.antt =====
-- The documented invariant of the cache: it never exceeds its capacity.
use mathlib.Core.Option.{some-injective}
use truebearing.Base.{
  ap, ℕ, ◌+◌, ◌-◌, ◌≤◌, ◌<◌, String, ◌≡◌, refl, Option, none, some, List, [], ◌∷◌, arith, length,
  lookup,
}
use truebearing.Policy.{Policy}
use truebearing.Proxy.PolicyCache.{
  LruEntry, PolicyLru, element, remove, to_front, move_to_front, assign, back, get, get_at,
  drop_back, evict, push_front, set_at, set,
}

length-assign : (n : ℕ) (pol : Policy) (es : List LruEntry) → length (assign n pol es) ≡ length es
unfolding assign
length-assign n pol [] = refl
length-assign n pol (e ∷ es) = ground (arith, length-assign n pol es)

-- Removing an element that is there takes one from the length.
length-remove :
    (n : ℕ) (e : LruEntry) (es : List LruEntry)
    → element n es ≡ some e
    → length (remove n es) + 1 ≡ length es
unfolding remove element
length-remove n e [] h = ground arith
length-remove n e (x ∷ es) h = ground (arith, length-remove n e es)

length-to_front :
    (n : ℕ) (found : Option LruEntry) (es : List LruEntry)
    → element n es ≡ found
    → length (to_front n found es) ≡ length es
unfolding to_front
length-to_front n none es h = refl
length-to_front n (some e) es h = ground (arith, length-remove n e es h)

length-move_to_front : (n : ℕ) (es : List LruEntry) → length (move_to_front n es) ≡ length es
unfolding move_to_front
length-move_to_front n es = length-to_front n (element n es) es refl

same_number : (x e : LruEntry) → some x ≡ some e → x.number ≡ e.number
same_number x e h = ap (λ (o : LruEntry). o.number) (some-injective _ _ h)

back-none : (es : List LruEntry) → back es ≡ none → length es ≡ 0
unfolding back
back-none [] h = refl
back-none (x ∷ []) h = ground arith
back-none (x ∷ y ∷ es) h = ground (arith, back-none (y ∷ es) h)

-- Some element has the number of the last one, and the list shrinks without it.
remove-back :
    (e : LruEntry) (es : List LruEntry)
    → back es ≡ some e
    → length (remove e.number es) + 1 ≡ length es
unfolding back remove
remove-back e [] h = ground arith
remove-back e (x ∷ []) h = ground (arith, same_number x e h)
remove-back e (x ∷ y ∷ es) h = ground (arith, remove-back e (y ∷ es) h)

length-drop_back :
    (last : Option LruEntry) (c : PolicyLru)
    → back c.list ≡ last
    → length (drop_back last c).1.list ≡ length c.list - 1
unfolding drop_back
length-drop_back none c h = ground (arith, back-none c.list h)
length-drop_back (some e) c h = ground (arith, remove-back e c.list h)

evict-room :
    (c : PolicyLru)
    → 0 < c.capacity
    → length c.list ≤ c.capacity
    → length (evict c).1.list < c.capacity
unfolding evict
evict-room c p h = ground (arith, length-drop_back (back c.list) c refl)

length-get_at : (at : Option ℕ) (c : PolicyLru) → length (get_at at c).1.list ≡ length c.list
unfolding get_at
length-get_at none c = refl
length-get_at (some n) c = length-move_to_front n c.list

-- A lookup leaves the number of entries as it is.
length-get : (fp : String) (c : PolicyLru) → length (get fp c).1.list ≡ length c.list
unfolding get
length-get fp c = length-get_at (lookup c.index fp) c

set_at-bounded :
    (at : Option ℕ) (fp : String) (pol : Policy) (c : PolicyLru)
    → 0 < c.capacity
    → length c.list ≤ c.capacity
    → length (set_at at fp pol c).1.list ≤ c.capacity
unfolding set_at push_front
set_at-bounded none fp pol c p h = ground (arith, evict-room c p h)
set_at-bounded (some n) fp pol c p h =
    ground (arith, length-assign n pol (move_to_front n c.list), length-move_to_front n c.list)

-- Neither a lookup nor an insertion takes a cache of positive capacity over its capacity.
pub get-set-bounded :
    (fp : String) (pol : Policy) (c : PolicyLru)
    → 0 < c.capacity
    → length c.list ≤ c.capacity
    → (length (get fp c).1.list ≤ c.capacity) × (length (set fp pol c).1.list ≤ c.capacity)
unfolding set
get-set-bounded fp pol c p h =
    (ground (arith, length-get fp c), set_at-bounded (lookup c.index fp) fp pol c p h)
