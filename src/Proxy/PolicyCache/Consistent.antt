-- ===== src/Proxy/PolicyCache/Consistent.antt =====
-- The agreement of the list and the index of the cache, and what keeps it.
use mathlib.Core.Path.{subst}
use truebearing.Base.{
  ℕ, suc, ◌+◌, ◌<◌, String, ◌≡◌, ◌≢◌, inl, inr, refl, sym, ap, ◌∙◌, true, false, Option, none, some,
  List, [], ◌∷◌, ◌==◌, if◌then◌else◌, keep, length, lookup, arith, eq_iff, Bool-cases,
}
use truebearing.Policy.{Policy}
use truebearing.Proxy.PolicyCache.{
  back, element, forget, is_element, LruEntry, PolicyLru, push_front, remove,
}
use truebearing.Proxy.PolicyCache.Entries.{
  AreBelow, AreDistinct, AreDistinct-remove, element-removed, entry_of, entry_of-fingerprint,
  entry_of-remove, entry_of_cases, fresh, some_path,
}
use truebearing.Proxy.PolicyCache.Recency.{drop_oldest, oldest, view, without}

abbrev pub number_of : Option LruEntry → Option ℕ
number_of none = none
number_of (some e) = some e.number

-- Numbers and fingerprints of the list are distinct, numbers are below the next one, and the index maps a
-- fingerprint to the number of its element.
pub record IsConsistent (c : PolicyLru) : Type 0 where
  pub distinct : AreDistinct c.list
  pub below : AreBelow c.next c.list
  pub indexed : (fp : String) → lookup c.index fp ≡ number_of (entry_of fp c.list)

AreBelow-remove : (m n : ℕ) (es : List LruEntry) → AreBelow n es → AreBelow n (remove m es)
unfolding remove
AreBelow-remove m n [] h = h
AreBelow-remove m n (x ∷ es) h =
    elim (is_element m x) as (λ b. AreBelow n (if b then es else x ∷ remove m es)) [
      | true ↦ h.1
      | false ↦ (h.0, AreBelow-remove m n es h.1)
    ]

AreBelow-suc : (n : ℕ) (es : List LruEntry) → AreBelow n es → AreBelow (n + 1) es
AreBelow-suc n [] h = h
AreBelow-suc n (x ∷ es) h = (omega (arith, h.0), AreBelow-suc n es h.1)

AreBelow-element : (n : ℕ) (es : List LruEntry) → AreBelow n es → element n es ≡ none
unfolding element
AreBelow-element n [] h = refl
AreBelow-element n (x ∷ es) h = ground (arith, h.0, AreBelow-element n es h.1)

AreBelow-number :
    (n : ℕ) (fp : String) (es : List LruEntry) (e : LruEntry)
    → AreBelow n es
    → entry_of fp es ≡ some e
    → e.number < n
unfolding entry_of
AreBelow-number n fp [] e h q = absurd cc
AreBelow-number n fp (x ∷ es) e h q = elim (entry_of_cases fp x es e q) [
  | inl (k, p) ↦ subst (λ (y : LruEntry). y.number < n) p h.0
  | inr (k, p) ↦ AreBelow-number n fp es e h.1 p
]

-- The cache after an element was taken out of the list and put at its front, with any policy.
pub front-IsConsistent :
    (fp : String) (c : PolicyLru) (e : LruEntry) (pol : Policy)
    → IsConsistent c
    → entry_of fp c.list ≡ some e
    → IsConsistent (record c { list = record e { pol = pol } ∷ remove e.number c.list })
unfolding entry_of
front-IsConsistent fp c e pol k h = record {
  distinct = (
    element-removed e.number c.list k.distinct,
    (entry_of-remove fp e.fingerprint c.list e k.distinct h
        ∙ ground (arith, own, eq_iff e.fingerprint fp, eq_iff fp e.fingerprint)),
    AreDistinct-remove e.number c.list k.distinct,
  );
  below = (
    AreBelow-number c.next fp c.list e k.below h,
    AreBelow-remove e.number c.next c.list k.below,
  );
  indexed = λ j. k.indexed j ∙ moved j;
}
  where
    own : e.fingerprint == fp ≡ true
    own = entry_of-fingerprint fp c.list e h

    there : (j : String) → e.fingerprint == j ≡ true → entry_of j c.list ≡ some e
    there j q =
        ap (λ s. entry_of s c.list)
          (sym ((eq_iff e.fingerprint j).0 q) ∙ (eq_iff e.fingerprint fp).0 own)
        ∙ h

    moved :
        (j : String)
        → number_of (entry_of j c.list)
          ≡ number_of (entry_of j (record e { pol = pol } ∷ remove e.number c.list))
    moved j = ground (
      arith,
      there j,
      own,
      eq_iff e.fingerprint fp,
      eq_iff e.fingerprint j,
      eq_iff fp j,
      entry_of-remove fp j c.list e k.distinct h,
    )

-- The cache with a new element at the front.
pub push-IsConsistent :
    (fp : String) (pol : Policy) (c : PolicyLru)
    → IsConsistent c
    → entry_of fp c.list ≡ none
    → IsConsistent (push_front fp pol c)
unfolding push_front entry_of lookup
push-IsConsistent fp pol c k h = record {
  distinct = (AreBelow-element c.next c.list k.below, h, k.distinct);
  below = (omega arith, AreBelow-suc c.next c.list k.below);
  indexed = λ j. ground (arith, k.indexed j);
}

pub view-push_front :
    (fp : String) (pol : Policy) (d : PolicyLru)
    → view (push_front fp pol d).list ≡ (fp, pol) ∷ view d.list
unfolding view push_front
view-push_front fp pol d = refl

pub length-view : (es : List LruEntry) → length (view es) ≡ length es
unfolding view
length-view [] = refl
length-view (e ∷ es) = ap suc (length-view es)

cons_not_nil : (y : LruEntry) (es : List LruEntry) → y ∷ es ≢ []
cons_not_nil y es h = cc

pub back-nil : (es : List LruEntry) → back es ≡ none → es ≡ []
unfolding back
back-nil [] h = refl
back-nil (x ∷ []) h = absurd (ground (arith, h))
back-nil (x ∷ y ∷ es) h = absurd (cons_not_nil y es (back-nil (y ∷ es) h))

-- The first element has another fingerprint than an element of the rest.
other_fingerprint :
    (x e : LruEntry) (es : List LruEntry)
    → entry_of x.fingerprint es ≡ none
    → entry_of e.fingerprint es ≡ some e
    → x.fingerprint == e.fingerprint ≡ false
other_fingerprint x e es d h = elim (Bool-cases (x.fingerprint == e.fingerprint)) [
  | inl q ↦ absurd (none_some (sym (fresh e.fingerprint x es d q) ∙ h))
  | inr q ↦ q
]
  where
    none_some : none ≡ some e → ⊥
    none_some k = cc

pub back-entry_of :
    (es : List LruEntry) (e : LruEntry)
    → AreDistinct es
    → back es ≡ some e
    → entry_of e.fingerprint es ≡ some e
unfolding back entry_of
back-entry_of [] e d h = absurd cc
back-entry_of (x ∷ []) e d h =
    subst (λ (y : LruEntry). entry_of y.fingerprint (x ∷ []) ≡ some y) (some_path x e h)
      (ground (arith, eq_iff x.fingerprint x.fingerprint))
back-entry_of (x ∷ y ∷ es) e d h = ground (
  arith,
  back-entry_of (y ∷ es) e d.2 h,
  other_fingerprint x e (y ∷ es) d.1 (back-entry_of (y ∷ es) e d.2 h),
)

pub oldest-view :
    (es : List LruEntry) (e : LruEntry) → back es ≡ some e → oldest (view es) ≡ e.fingerprint
unfolding back oldest view
oldest-view [] e h = absurd cc
oldest-view (x ∷ []) e h = ap (λ (y : LruEntry). y.fingerprint) (some_path x e h)
oldest-view (x ∷ y ∷ es) e h = oldest-view (y ∷ es) e h

pub drop_oldest-view :
    (es : List LruEntry) (e : LruEntry)
    → AreDistinct es
    → back es ≡ some e
    → drop_oldest (view es) ≡ without e.fingerprint (view es)
unfolding back drop_oldest view keep
drop_oldest-view [] e d h = absurd cc
drop_oldest-view (x ∷ []) e d h = ground (
  arith,
  eq_iff x.fingerprint e.fingerprint,
  ap (λ (y : LruEntry). y.fingerprint) (some_path x e h),
)
drop_oldest-view (x ∷ y ∷ es) e d h = ground (
  arith,
  drop_oldest-view (y ∷ es) e d.2 h,
  other_fingerprint x e (y ∷ es) d.1 (back-entry_of (y ∷ es) e d.2 h),
)

-- `delete` takes one fingerprint out of the index.
lookup-forget :
    (fp k : String) (index : List (String × ℕ))
    → lookup (forget fp index) k ≡ (if fp == k then none else lookup index k)
unfolding forget lookup keep
lookup-forget fp k [] = ground arith
lookup-forget fp k ((j, n) ∷ index) =
    ground (arith, lookup-forget fp k index, eq_iff j fp, eq_iff fp k, eq_iff j k, eq_iff k j)

pub remove-IsConsistent :
    (c : PolicyLru) (e : LruEntry)
    → IsConsistent c
    → entry_of e.fingerprint c.list ≡ some e
    → IsConsistent
        (record c { index = forget e.fingerprint c.index; list = remove e.number c.list })
remove-IsConsistent c e k h = record {
  distinct = AreDistinct-remove e.number c.list k.distinct;
  below = AreBelow-remove e.number c.next c.list k.below;
  indexed = λ j. ground (
    arith,
    lookup-forget e.fingerprint j c.index,
    k.indexed j,
    entry_of-remove e.fingerprint j c.list e k.distinct h,
  );
}
