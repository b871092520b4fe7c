-- ===== src/Proxy/PolicyCache/Entries.antt =====
-- The elements of the list: distinct numbers and fingerprints, and what removing one does to the view.
use mathlib.Core.Option.{some-injective}
use mathlib.Core.Path.{subst}
use truebearing.Base.{
  ℕ, ◌<◌, String, ◌≡◌, ◌⊎◌, inl, inr, refl, sym, ap, ◌∙◌, true, false, Option, none, some, List, [],
  ◌∷◌, ◌==◌, if◌then◌else◌, keep, lookup, arith, eq_iff, Bool-cases,
}
use truebearing.Policy.{Policy}
use truebearing.Proxy.PolicyCache.{element, is_element, LruEntry, remove}
use truebearing.Proxy.PolicyCache.Recency.{view, without}

abbrev pub pol_of : Option LruEntry → Option Policy
pol_of none = none
pol_of (some e) = some e.pol

-- The first element with a fingerprint.
unfoldable pub entry_of : String → List LruEntry → Option LruEntry
entry_of fp [] = none
entry_of fp (e ∷ es) = let rest = entry_of fp es in if e.fingerprint == fp then some e else rest

abbrev pub AreDistinct : List LruEntry → Type 0
AreDistinct [] = Unit
AreDistinct (e ∷ es) =
    (element e.number es ≡ none) × (entry_of e.fingerprint es ≡ none) × AreDistinct es

abbrev pub AreBelow : ℕ → List LruEntry → Type 0
AreBelow n [] = Unit
AreBelow n (e ∷ es) = (e.number < n) × AreBelow n es

pub some_path : (x e : LruEntry) → some x ≡ some e → x ≡ e
some_path x e h = some-injective _ _ h

-- Where the first element with a fingerprint is.
pub entry_of_cases :
    (fp : String) (x : LruEntry) (es : List LruEntry) (e : LruEntry)
    → entry_of fp (x ∷ es) ≡ some e
    → ((x.fingerprint == fp ≡ true) × (x ≡ e))
      ⊎ ((x.fingerprint == fp ≡ false) × (entry_of fp es ≡ some e))
unfolding entry_of
entry_of_cases fp x es e h = elim (Bool-cases (x.fingerprint == fp)) [
  | inl q ↦ inl (q, some_path x e (ground (arith, q, h)))
  | inr q ↦ inr (q, ground (arith, q, h))
]

element_first : (x : LruEntry) (es : List LruEntry) → element x.number (x ∷ es) ≡ some x
unfolding element
element_first x es = ground arith

-- An element of the rest has another number than the first one.
pub other_number :
    (x e : LruEntry) (es : List LruEntry)
    → element x.number es ≡ none
    → element e.number es ≡ some e
    → is_element e.number x ≡ false
other_number x e es d h = elim (Bool-cases (is_element e.number x)) [
  | inr q ↦ q
  | inl q ↦ absurd (none_some (sym d ∙ ap (λ n. element n es) (same q) ∙ h))
]
  where
    same : is_element e.number x ≡ true → x.number ≡ e.number
    same q = ground (arith, q)

    none_some : none ≡ some e → ⊥
    none_some k = cc

pub entry_of-fingerprint :
    (fp : String) (es : List LruEntry) (e : LruEntry)
    → entry_of fp es ≡ some e
    → e.fingerprint == fp ≡ true
unfolding entry_of
entry_of-fingerprint fp [] e h = absurd cc
entry_of-fingerprint fp (x ∷ es) e h = elim (entry_of_cases fp x es e h) [
  | inl (q, p) ↦ subst (λ (y : LruEntry). y.fingerprint == fp ≡ true) p q
  | inr (q, p) ↦ entry_of-fingerprint fp es e p
]

-- The element with a fingerprint is the one with its number.
pub element-entry_of :
    (fp : String) (es : List LruEntry) (e : LruEntry)
    → AreDistinct es
    → entry_of fp es ≡ some e
    → element e.number es ≡ some e
unfolding entry_of element
element-entry_of fp [] e d h = absurd cc
element-entry_of fp (x ∷ es) e d h = elim (entry_of_cases fp x es e h) [
  | inl (q, p) ↦ subst (λ (y : LruEntry). element y.number (x ∷ es) ≡ some y) p (element_first x es)
  | inr (q, p) ↦
      let rest = element-entry_of fp es e d.2 p in
      ground (arith, rest, other_number x e es d.0 rest)
]

remove_first : (x : LruEntry) (es : List LruEntry) → remove x.number (x ∷ es) ≡ es
unfolding remove
remove_first x es = ground arith

pub fresh :
    (fp : String) (x : LruEntry) (es : List LruEntry)
    → entry_of x.fingerprint es ≡ none
    → x.fingerprint == fp ≡ true
    → entry_of fp es ≡ none
fresh fp x es d q = subst (λ k. entry_of k es ≡ none) ((eq_iff x.fingerprint fp).0 q) d

without-fresh :
    (fp : String) (es : List LruEntry) → entry_of fp es ≡ none → without fp (view es) ≡ view es
unfolding entry_of view keep
without-fresh fp [] h = refl
without-fresh fp (x ∷ es) h = ground (arith, h, without-fresh fp es)

-- Removing the element with a fingerprint takes the fingerprint out of the view.
pub view-remove :
    (fp : String) (es : List LruEntry) (e : LruEntry)
    → AreDistinct es
    → entry_of fp es ≡ some e
    → view (remove e.number es) ≡ without fp (view es)
unfolding entry_of view keep remove
view-remove fp [] e d h = absurd cc
view-remove fp (x ∷ es) e d h = elim (entry_of_cases fp x es e h) [
  | inl (q, p) ↦
      ap (λ (y : LruEntry). view (remove y.number (x ∷ es))) (sym p)
      ∙ ap view (remove_first x es)
      ∙ sym (ground (arith, q, without-fresh fp es (fresh fp x es d.1 q)))
  | inr (q, p) ↦ ground (
    arith,
    q,
    view-remove fp es e d.2 p,
    other_number x e es d.0 (element-entry_of fp es e d.2 p),
  )
]

pub lookup-view : (fp : String) (es : List LruEntry) → lookup (view es) fp ≡ pol_of (entry_of fp es)
unfolding entry_of view lookup
lookup-view fp [] = refl
lookup-view fp (x ∷ es) = ground (arith, lookup-view fp es)

element-remove-none :
    (m n : ℕ) (es : List LruEntry) → element m es ≡ none → element m (remove n es) ≡ none
unfolding element remove
element-remove-none m n [] h = refl
element-remove-none m n (x ∷ es) h = ground (arith, h, element-remove-none m n es)

pub entry_of-remove-none :
    (fp : String) (n : ℕ) (es : List LruEntry)
    → entry_of fp es ≡ none
    → entry_of fp (remove n es) ≡ none
unfolding entry_of remove
entry_of-remove-none fp n [] h = refl
entry_of-remove-none fp n (x ∷ es) h = ground (arith, h, entry_of-remove-none fp n es)

pub AreDistinct-remove : (n : ℕ) (es : List LruEntry) → AreDistinct es → AreDistinct (remove n es)
unfolding remove
AreDistinct-remove n [] d = d
AreDistinct-remove n (x ∷ es) d =
    elim (is_element n x) as (λ b. AreDistinct (if b then es else x ∷ remove n es)) [
      | true ↦ d.2
      | false ↦ (
        element-remove-none x.number n es d.0,
        entry_of-remove-none x.fingerprint n es d.1,
        AreDistinct-remove n es d.2,
      )
    ]

pub element-removed : (n : ℕ) (es : List LruEntry) → AreDistinct es → element n (remove n es) ≡ none
unfolding element remove
element-removed n [] d = refl
element-removed n (x ∷ es) d = ground (arith, element-removed n es d.2, same_number)
  where
    same_number : is_element n x ≡ true → element n es ≡ none
    same_number q = ap (λ m. element m es) (sym (ground (arith, q))) ∙ d.0

-- The elements that are left keep their fingerprints.
pub entry_of-remove :
    (fp k : String) (es : List LruEntry) (e : LruEntry)
    → AreDistinct es
    → entry_of fp es ≡ some e
    → entry_of k (remove e.number es) ≡ (if fp == k then none else entry_of k es)
unfolding entry_of remove
entry_of-remove fp k [] e d h = absurd cc
entry_of-remove fp k (x ∷ es) e d h = elim (entry_of_cases fp x es e h) [
  | inl (q, p) ↦
      ap (λ (y : LruEntry). entry_of k (remove y.number (x ∷ es))) (sym p)
      ∙ ap (entry_of k) (remove_first x es)
      ∙ ground
          (arith, q, eq_iff x.fingerprint fp, eq_iff fp k, eq_iff x.fingerprint k, fresh k x es d.1)
  | inr (q, p) ↦ ground (
    arith,
    q,
    eq_iff fp k,
    eq_iff x.fingerprint fp,
    eq_iff x.fingerprint k,
    entry_of-remove fp k es e d.2 p,
    other_number x e es d.0 (element-entry_of fp es e d.2 p),
  )
]
