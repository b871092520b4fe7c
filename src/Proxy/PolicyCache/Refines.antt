-- ===== src/Proxy/PolicyCache/Refines.antt =====
-- The list and the index of the cache implement the list of policies by recency.
use mathlib.Core.Path.{subst}
use truebearing.Base.{
  ℕ, String, ◌≡◌, refl, sym, ap, ◌∙◌, Bool, true, false, Option, none, some, ◌∷◌, if◌then◌else◌,
  leb, length, lookup, arith, eq_iff,
}
use truebearing.Policy.{Policy}
use truebearing.Proxy.PolicyCache.{
  assign, back, drop_back, evict, get, get_at, LruEntry, move_to_front, new_policy_lru, PolicyLru,
  push_front, remove, set, set_at, to_front, value_of,
}
use truebearing.Proxy.PolicyCache.Consistent.{
  IsConsistent, number_of, front-IsConsistent, push-IsConsistent, view-push_front, length-view,
  back-nil, back-entry_of, oldest-view, drop_oldest-view, remove-IsConsistent,
}
use truebearing.Proxy.PolicyCache.Entries.{
  element-entry_of, entry_of, entry_of-fingerprint, entry_of-remove-none, lookup-view, pol_of,
  view-remove,
}
use truebearing.Proxy.PolicyCache.Recency.{
  drop_oldest, oldest, recall, Recency, remember, replace, used, view, without,
}

module _ (fp : String) (c : PolicyLru) where
  -- The answer and the cache of a lookup, against the list.
  abbrev Recalls : Option LruEntry → Option Policy × PolicyLru → Type 0
  Recalls o r =
      (r.0 ≡ pol_of o) × (view r.1.list ≡ used (pol_of o) fp (view c.list)) × IsConsistent r.1

  front-view :
      (e : LruEntry) (pol : Policy)
      → IsConsistent c
      → entry_of fp c.list ≡ some e
      → view (record e { pol = pol } ∷ remove e.number c.list)
        ≡ (fp, pol) ∷ without fp (view c.list)
  unfolding view
  front-view e pol k h =
      ap (λ s. (s, pol) ∷ view (remove e.number c.list))
        ((eq_iff e.fingerprint fp).0 (entry_of-fingerprint fp c.list e h))
      ∙ ap (λ rest. (fp, pol) ∷ rest) (view-remove fp c.list e k.distinct h)

  moved_list :
      (e : LruEntry)
      → IsConsistent c
      → entry_of fp c.list ≡ some e
      → move_to_front e.number c.list ≡ e ∷ remove e.number c.list
  unfolding move_to_front to_front
  moved_list e k h =
      ap (λ o. to_front e.number o c.list) (element-entry_of fp c.list e k.distinct h)

  get_at-Recalls :
      (o : Option LruEntry)
      → IsConsistent c
      → entry_of fp c.list ≡ o
      → Recalls o (get_at (number_of o) c)
  unfolding get_at value_of
  get_at-Recalls none k h = (refl, refl, k)
  get_at-Recalls (some e) k h = (
    ap value_of (element-entry_of fp c.list e k.distinct h),
    ap view (moved_list e k h) ∙ front-view e e.pol k h,
    subst (λ es. IsConsistent (record c { list = es })) (sym (moved_list e k h))
        (front-IsConsistent fp c e e.pol k h),
  )

  assigned_list :
      (e : LruEntry) (pol : Policy)
      → IsConsistent c
      → entry_of fp c.list ≡ some e
      → assign e.number pol (move_to_front e.number c.list)
        ≡ record e { pol = pol } ∷ remove e.number c.list
  unfolding assign
  assigned_list e pol k h = ap (assign e.number pol) (moved_list e k h) ∙ ground arith

  -- What an eviction comes to, against the list; the list is full or not.
  abbrev Evicts : Bool → String × PolicyLru → Type 0
  Evicts full r =
      (r.0 ≡ (if full then oldest (view c.list) else ""))
      × (view r.1.list ≡ (if full then drop_oldest (view c.list) else view c.list))
      × IsConsistent r.1
      × (entry_of fp r.1.list ≡ none)

  drop_back-Evicts :
      (o : Option LruEntry)
      → IsConsistent c
      → entry_of fp c.list ≡ none
      → back c.list ≡ o
      → Evicts true (drop_back o c)
  unfolding drop_back oldest view drop_oldest
  drop_back-Evicts none k h q = (
    ap (λ es. oldest (view es)) (sym (back-nil c.list q)),
    ap view (back-nil c.list q) ∙ ap (λ es. drop_oldest (view es)) (sym (back-nil c.list q)),
    k,
    h,
  )
  drop_back-Evicts (some e) k h q = (
    sym (oldest-view c.list e q),
    (view-remove e.fingerprint c.list e k.distinct (back-entry_of c.list e k.distinct q)
        ∙ sym (drop_oldest-view c.list e k.distinct q)),
    remove-IsConsistent c e k (back-entry_of c.list e k.distinct q),
    entry_of-remove-none fp e.number c.list h,
  )

  evict-Evicts :
      IsConsistent c
      → entry_of fp c.list ≡ none
      → Evicts (leb c.capacity (length (view c.list))) (evict c)
  unfolding evict
  evict-Evicts k h =
      subst (λ n. Evicts (leb c.capacity n) (evict c)) (sym (length-view c.list))
        (split (leb c.capacity (length c.list)))
    where
      split : (full : Bool) → Evicts full (if full then drop_back (back c.list) c else ("", c))
      split true = drop_back-Evicts (back c.list) k h refl
      split false = (refl, refl, k, h)

  -- The evicted fingerprint and the cache of an insertion, against the list.
  abbrev Remembers : Policy → String × Recency → String × PolicyLru → Type 0
  Remembers pol spec r = (r.0 ≡ spec.0) × (view r.1.list ≡ spec.1) × IsConsistent r.1

  set_at-Remembers :
      (o : Option LruEntry) (pol : Policy)
      → IsConsistent c
      → entry_of fp c.list ≡ o
      → Remembers pol
          (replace c.capacity (pol_of o) fp pol (view c.list))
          (set_at (number_of o) fp pol c)
  unfolding set_at
  set_at-Remembers none pol k h =
      let e = evict-Evicts k h in
      (
        e.0 ∙ first (leb c.capacity (length (view c.list))),
        (pushed (evict c).1
            ∙ ap (λ rest. (fp, pol) ∷ rest) e.1
            ∙ second (leb c.capacity (length (view c.list)))),
        push-IsConsistent fp pol (evict c).1 e.2 e.3,
      )
    where
      chosen : Bool → String × Recency
      chosen full =
          if full
          then (oldest (view c.list), (fp, pol) ∷ drop_oldest (view c.list))
          else ("", (fp, pol) ∷ view c.list)

      first : (full : Bool) → (if full then oldest (view c.list) else "") ≡ (chosen full).0
      first true = refl
      first false = refl

      second :
          (full : Bool)
          → (fp, pol) ∷ (if full then drop_oldest (view c.list) else view c.list) ≡ (chosen full).1
      second true = refl
      second false = refl

      pushed : (d : PolicyLru) → view (push_front fp pol d).list ≡ (fp, pol) ∷ view d.list
      pushed d = view-push_front fp pol d
  set_at-Remembers (some e) pol k h = (
    refl,
    ap view (assigned_list e pol k h) ∙ front-view e pol k h,
    subst (λ es. IsConsistent (record c { list = es })) (sym (assigned_list e pol k h))
        (front-IsConsistent fp c e pol k h),
  )

-- A new cache is consistent and stands for the empty list.
new-IsConsistent : (capacity : ℕ) → IsConsistent (new_policy_lru capacity)
unfolding new_policy_lru lookup entry_of
new-IsConsistent capacity = record { distinct = tt; below = tt; indexed = λ fp. refl }

module _ (fp : String) (c : PolicyLru) (k : IsConsistent c) where
  get-Recalls : Recalls fp c (entry_of fp c.list) (get fp c)
  unfolding get
  get-Recalls =
      subst (λ n. Recalls fp c (entry_of fp c.list) (get_at n c)) (sym (k.indexed fp))
        (get_at-Recalls fp c (entry_of fp c.list) k refl)

get_found : (fp : String) (d : PolicyLru) → IsConsistent d → (get fp d).0 ≡ lookup (view d.list) fp
get_found fp d j = (get-Recalls fp d j).0 ∙ sym (lookup-view fp d.list)

module _ (fp : String) (c : PolicyLru) (k : IsConsistent c) where
  set-Remembers :
      (pol : Policy)
      → Remembers fp c pol
          (replace c.capacity (pol_of (entry_of fp c.list)) fp pol (view c.list))
          (set fp pol c)
  unfolding set
  set-Remembers pol =
      subst
        (λ n.
          Remembers fp c pol (replace c.capacity (pol_of (entry_of fp c.list)) fp pol (view c.list))
            (set_at n fp pol c))
        (sym (k.indexed fp)) (set_at-Remembers fp c (entry_of fp c.list) pol k refl)

  -- On a cache whose index and list agree, which a new cache is, looking up and storing a policy answer
  -- as the list by recency does: the same policy, the same evicted fingerprint, which is the oldest one
  -- and only given if the list is full and the fingerprint is new, and the same list after it; and index
  -- and list still agree.
  pub get-set-Refines :
      (pol : Policy)
      → (((get fp c).0, view (get fp c).1.list) ≡ recall fp (view c.list))
        × (((set fp pol c).0, view (set fp pol c).1.list)
            ≡ remember c.capacity fp pol (view c.list))
        × IsConsistent (get fp c).1
        × IsConsistent (set fp pol c).1
        × IsConsistent (new_policy_lru c.capacity)
  unfolding recall remember
  get-set-Refines pol = (
    (λ i. ((get-Recalls fp c k).0 i, (get-Recalls fp c k).1 i))
        ∙ ap (λ o. (o, used o fp (view c.list))) (sym (lookup-view fp c.list)),
    ((λ i. ((set-Remembers pol).0 i, (set-Remembers pol).1 i))
        ∙ ap (λ o. replace c.capacity o fp pol (view c.list)) (sym (lookup-view fp c.list))),
    (get-Recalls fp c k).2,
    (set-Remembers pol).2,
    new-IsConsistent c.capacity,
  )

  lookup-replace :
      (o : Option Policy) (pol : Policy) (policies : Recency)
      → lookup (replace c.capacity o fp pol policies).1 fp ≡ some pol
  unfolding lookup
  lookup-replace none pol policies = ground (arith, eq_iff fp fp)
  lookup-replace (some old) pol policies = ground (arith, eq_iff fp fp)

  -- A policy that was stored is found.
  pub get-set : (pol : Policy) → (get fp (set fp pol c).1).0 ≡ some pol
  unfolding recall remember
  get-set pol =
      let stored = set-Remembers pol in
      get_found fp (set fp pol c).1 stored.2
      ∙ ap (λ policies. lookup policies fp) stored.1
      ∙ lookup-replace (pol_of (entry_of fp c.list)) pol (view c.list)
