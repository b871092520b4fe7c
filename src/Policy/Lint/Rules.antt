-- ===== src/Policy/Lint/Rules.antt =====
-- For each rule that reports ERRORs, what a policy is like when it reports none.
use truebearing.Base.{
  ℕ, ◌+◌, String, ◌≡◌, ◌↔◌, refl, Bool, true, false, not, List, [], ◌∷◌, ◌==◌, All, arith, contains,
  ℤ, pos, leb_ℤ, ◌<ℤ◌, leb_ℤ_iff, Option,
}
use truebearing.Go.{err, ok, Result, Runtime}
use truebearing.Policy.{
  ContentPredicate, EscalateRule, Policy, PriorNRule, RateLimitPolicy, ToolPolicy,
}
use truebearing.Policy.Lint.Tools.{
  bad_count, bad_escalate_operator, unlisted, unlisted_deps, valid_escalate_operators,
}
use truebearing.Policy.Lint.Content.{
  bad_max, bad_operators, bad_pattern, bad_patterns, bad_window, one_pattern,
  valid_content_operators,
}
use truebearing.Policy.Lint.Cycle.{
  adjacency, diagnose, find_cycle, finished, found, lint_l013, out_of_fuel, Visit,
}
use truebearing.Policy.Lint.Cycle.Exact.{find_cycle-IsVerdict, IsAcyclic, IsVerdict}
use truebearing.Policy.Lint.Clean.{
  both, IsClean-nil, error-not_clean, OnSome, option-IsClean, IsClean, report_if-IsClean,
}

abbrev pub IsPositive : ℤ → Type 0
IsPositive z = pos 0 <ℤ z

abbrev pub Compiles : Result (String → Bool) → Type 0
Compiles (ok re) = Unit
Compiles (err e) = ⊥

positive_iff : (z : ℤ) → (leb_ℤ z (pos 0) ≡ false) ↔ IsPositive z
positive_iff z = ground (arith, leb_ℤ_iff z (pos 0))

not_iff : (b : Bool) → (not b ≡ false) ↔ (b ≡ true)
not_iff true = ((λ h. refl), λ h. refl)
not_iff false = ((λ h. absurd (ground (arith, h))), λ h. absurd (ground (arith, h)))

compose : {P Q R : Type 0} → P ↔ Q → Q ↔ R → P ↔ R
compose f g = ((λ p. g.0 (f.0 p)), λ r. f.1 (g.1 r))

module _ (rt : Runtime) (p : Policy) where
  abbrev pub IsListed : String → Type 0
  IsListed name = contains p.may_use name ≡ true

  abbrev pub IsKnown : EscalateRule → Type 0
  IsKnown rule = contains valid_escalate_operators rule.operator ≡ true

  abbrev pub IsKnownPredicate : ContentPredicate → Type 0
  IsKnownPredicate pred = contains valid_content_operators pred.operator ≡ true

  -- If the predicate is a pattern, then its text compiles.
  abbrev pub HasPattern : ContentPredicate → Type 0
  HasPattern pred =
      pred.operator == "contains_pattern" ≡ true
      → Compiles (rt.regexp_compile (rt.trim_suffix (rt.trim_prefix pred.value "/") "/"))

  pub unlisted-IsClean :
      (name : String) (tp : ToolPolicy) → IsClean (unlisted rt p name tp) ↔ IsListed name
  unfolding unlisted
  unlisted-IsClean name tp =
      compose (report_if-IsClean _ _ refl) (not_iff (contains p.may_use name))

  pub unlisted_deps-IsClean :
      (code name field : String) (deps : List String)
      → IsClean (unlisted_deps rt p code name field deps) ↔ All IsListed deps
  unfolding unlisted_deps
  unlisted_deps-IsClean code name field [] = ((λ h. tt), λ h. IsClean-nil)
  unlisted_deps-IsClean code name field (dep ∷ deps) =
      both _ _ (compose (report_if-IsClean _ _ refl) (not_iff (contains p.may_use dep)))
        (unlisted_deps-IsClean code name field deps)

  pub bad_count-IsClean :
      (name : String) (o : Option PriorNRule)
      → IsClean (bad_count rt p name o) ↔ OnSome (λ rule. IsPositive rule.count) o
  unfolding bad_count
  bad_count-IsClean name =
      option-IsClean _ (bad_count rt p name) IsClean-nil
        (λ rule. compose (report_if-IsClean _ _ refl) (positive_iff rule.count))

  pub bad_window-IsClean :
      (name : String) (o : Option RateLimitPolicy)
      → IsClean (bad_window rt p name o) ↔ OnSome (λ rl. IsPositive rl.window_seconds) o
  unfolding bad_window
  bad_window-IsClean name =
      option-IsClean _ (bad_window rt p name) IsClean-nil
        (λ rl. compose (report_if-IsClean _ _ refl) (positive_iff rl.window_seconds))

  pub bad_max-IsClean :
      (name : String) (o : Option RateLimitPolicy)
      → IsClean (bad_max rt p name o) ↔ OnSome (λ rl. IsPositive rl.max_calls) o
  unfolding bad_max
  bad_max-IsClean name =
      option-IsClean _ (bad_max rt p name) IsClean-nil
        (λ rl. compose (report_if-IsClean _ _ refl) (positive_iff rl.max_calls))

  pub bad_escalate_operator-IsClean :
      (name : String) (o : Option EscalateRule)
      → IsClean (bad_escalate_operator rt p name o) ↔ OnSome IsKnown o
  unfolding bad_escalate_operator
  bad_escalate_operator-IsClean name =
      option-IsClean _ (bad_escalate_operator rt p name) IsClean-nil (λ rule.
        compose (report_if-IsClean _ _ refl)
          (not_iff (contains valid_escalate_operators rule.operator)))

  pub bad_operators-IsClean :
      (name : String) (i : ℕ) (preds : List ContentPredicate)
      → IsClean (bad_operators rt p name i preds) ↔ All IsKnownPredicate preds
  unfolding bad_operators
  bad_operators-IsClean name i [] = ((λ h. tt), λ h. IsClean-nil)
  bad_operators-IsClean name i (pred ∷ preds) =
      both _ _
        (compose (report_if-IsClean _ _ refl)
          (not_iff (contains valid_content_operators pred.operator)))
        (bad_operators-IsClean name (i + 1) preds)

  bad_pattern-IsClean :
      (name : String) (i : ℕ) (pred : ContentPredicate) (r : Result (String → Bool))
      → IsClean (bad_pattern rt p name i pred r) ↔ Compiles r
  unfolding bad_pattern
  bad_pattern-IsClean name i pred (ok re) = ((λ h. tt), λ h. IsClean-nil)
  bad_pattern-IsClean name i pred (err e) = (error-not_clean _ [] refl, λ h. absurd h)

  one_pattern-IsClean :
      (name : String) (i : ℕ) (pred : ContentPredicate)
      → IsClean (one_pattern rt p name i pred) ↔ HasPattern pred
  unfolding one_pattern
  one_pattern-IsClean name i pred =
      elim (pred.operator == "contains_pattern")
        as (λ b.
          IsClean (elim b [
            | false ↦ []
            | true ↦
                bad_pattern rt p name i pred
                  (rt.regexp_compile (rt.trim_suffix (rt.trim_prefix pred.value "/") "/"))
          ])
          ↔ (b ≡ true
              → Compiles
                  (rt.regexp_compile (rt.trim_suffix (rt.trim_prefix pred.value "/") "/")))) [
                    | false ↦ ((λ h e. absurd (ground (arith, e))), λ h. IsClean-nil)
                    | true ↦ (
                      (λ h e. (bad_pattern-IsClean name i pred _).0 h),
                      λ h. (bad_pattern-IsClean name i pred _).1 (h refl),
                    )
                  ]

  pub bad_patterns-IsClean :
      (name : String) (i : ℕ) (preds : List ContentPredicate)
      → IsClean (bad_patterns rt p name i preds) ↔ All HasPattern preds
  unfolding bad_patterns
  bad_patterns-IsClean name i [] = ((λ h. tt), λ h. IsClean-nil)
  bad_patterns-IsClean name i (pred ∷ preds) =
      both _ _ (one_pattern-IsClean name i pred) (bad_patterns-IsClean name (i + 1) preds)

  pub lint_l013-IsClean : IsClean (lint_l013 rt p) ↔ IsAcyclic (adjacency p.tools)
  unfolding lint_l013
  lint_l013-IsClean =
      decided (find_cycle (adjacency p.tools)) (find_cycle-IsVerdict (adjacency p.tools))
    where
      decided :
          (v : Visit)
          → IsVerdict (adjacency p.tools) v
          → IsClean (diagnose rt v) ↔ IsAcyclic (adjacency p.tools)
      decided (found c) cyc =
          ((λ h. absurd (error-not_clean _ [] refl h)), λ acyclic. absurd (acyclic c cyc))
      decided (finished colors) acyclic = ((λ h. acyclic), λ h. IsClean-nil)
      decided out_of_fuel h = absurd h
