-- ===== src/Proxy/PolicyCache.antt =====
-- internal/proxy/policy_cache.go: the LRU cache of policy versions. An element of the `list.List` is
-- known by its number, `next` is the number of the next new element, and `index` maps a fingerprint
-- to the number that stands for the pointer. The front of the list comes first.
pub mod Bounded
pub mod Recency
pub mod Entries
pub mod Consistent
pub mod Refines
use Prim.Native.Nat.{compare, Ordering}
use truebearing.Base.{
  ℕ, suc, ◌+◌, String, Bool, true, false, not, Option, none, some, List, [], ◌∷◌, ◌==◌,
  if◌then◌else◌, keep, leb, length, lookup,
}
use truebearing.Policy.{Policy}

pub record LruEntry : Type 0 where
  pub number : ℕ
  pub fingerprint : String
  pub pol : Policy

pub record PolicyLru : Type 0 where
  pub capacity : ℕ
  pub list : List LruEntry
  pub index : List (String × ℕ)
  pub next : ℕ

abbrev pub lru_capacity : ℕ
lru_capacity = 16

unfoldable pub new_policy_lru : ℕ → PolicyLru
new_policy_lru capacity = record { capacity = capacity; list = []; index = []; next = 0 }

-- Whether an element is the one that a pointer points to.
abbrev pub is_element : ℕ → LruEntry → Bool
is_element n e = elim (compare e.number n) [ Ordering.eq ↦ true | _ ↦ false ]

unfoldable pub element : ℕ → List LruEntry → Option LruEntry
element n [] = none
element n (e ∷ es) = let rest = element n es in if is_element n e then some e else rest

-- `list.Remove`, of the first element with the number.
unfoldable pub remove : ℕ → List LruEntry → List LruEntry
remove n [] = []
remove n (e ∷ es) = let rest = remove n es in if is_element n e then es else e ∷ rest

unfoldable pub to_front : ℕ → Option LruEntry → List LruEntry → List LruEntry
unfolding remove
to_front n none es = es
to_front n (some e) es = e ∷ remove n es

unfoldable pub move_to_front : ℕ → List LruEntry → List LruEntry
unfolding element to_front
move_to_front n es = to_front n (element n es) es

-- `el.Value.(*lruEntry).pol = pol`
unfoldable pub assign : ℕ → Policy → List LruEntry → List LruEntry
assign n pol [] = []
assign n pol (e ∷ es) =
    let rest = assign n pol es in if is_element n e then record e { pol = pol } ∷ es else e ∷ rest

unfoldable pub back : List LruEntry → Option LruEntry
back [] = none
back (e ∷ []) = some e
back (e ∷ e' ∷ es) = back (e' ∷ es)

-- `delete(c.index, fp)`
unfoldable pub forget : String → List (String × ℕ) → List (String × ℕ)
forget fp index = keep (λ entry. not (entry.0 == fp)) index

value_of : Option LruEntry → Option Policy
value_of none = none
value_of (some e) = some e.pol

unfoldable pub get_at : Option ℕ → PolicyLru → Option Policy × PolicyLru
unfolding value_of move_to_front element
get_at none c = (none, c)
get_at (some n) c = (value_of (element n c.list), record c { list = move_to_front n c.list })

unfoldable pub get : String → PolicyLru → Option Policy × PolicyLru
unfolding get_at
get fp c = get_at (lookup c.index fp) c

unfoldable pub drop_back : Option LruEntry → PolicyLru → String × PolicyLru
unfolding forget remove
drop_back none c = ("", c)
drop_back (some e) c = (
  e.fingerprint,
  record c { index = forget e.fingerprint c.index; list = remove e.number c.list },
)

unfoldable pub evict : PolicyLru → String × PolicyLru
unfolding drop_back back
evict c = if leb c.capacity (length c.list) then drop_back (back c.list) c else ("", c)

unfoldable pub push_front : String → Policy → PolicyLru → PolicyLru
push_front fp pol c = record c {
  list = record { number = c.next; fingerprint = fp; pol = pol } ∷ c.list;
  index = (fp, c.next) ∷ c.index;
  next = c.next + 1;
}

unfoldable pub set_at : Option ℕ → String → Policy → PolicyLru → String × PolicyLru
unfolding move_to_front assign evict push_front
set_at (some n) fp pol c = ("", record c { list = assign n pol (move_to_front n c.list) })
set_at none fp pol c = let (evicted_fp, c') = evict c in (evicted_fp, push_front fp pol c')

-- The evicted fingerprint, empty if there is none, and the cache.
unfoldable pub set : String → Policy → PolicyLru → String × PolicyLru
unfolding set_at
set fp pol c = set_at (lookup c.index fp) fp pol c
