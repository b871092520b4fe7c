-- ===== src/Proxy/Reload/Live.antt =====
-- What a reload of the policy leaves live.
use truebearing.Base.{
  ap, String, ◌≡◌, ◌≢◌, ◌⊎◌, inl, inr, refl, true, false, Option, none, some, List, [], ◌∷◌, ◌==◌,
  arith, eq_iff, any, Bool-cases,
}
use truebearing.Go.{err, GoError, ok, Result, Runtime}
use truebearing.Policy.{Policy}
use truebearing.Policy.Lint.{lint}
use truebearing.Policy.Lint.Results.{has_error, LintResult}
use truebearing.Policy.Lint.Sound.{IsSound, lint-IsSound}
use truebearing.Policy.Parse.{Files, parse_file}
use truebearing.Proxy.Reload.{accept, first_error, install, reload_from, reload_policy}
use truebearing.Proxy.PolicyCache.{get}
use truebearing.Proxy.PolicyCache.Consistent.{IsConsistent}
use truebearing.Proxy.PolicyCache.Recency.{Recency, remember, view}
use truebearing.Proxy.PolicyCache.Refines.{get-set, get-set-Refines}
use truebearing.Proxy.State.{Proxy}

first_error-none :
    (results : List LintResult) → first_error results ≡ none → has_error results ≡ false
unfolding first_error has_error any
first_error-none [] h = refl
first_error-none (r ∷ results) h = ground (arith, h, first_error-none results)

first_error-some :
    (results : List LintResult) (r : LintResult)
    → first_error results ≡ some r
    → has_error results ≡ true
unfolding first_error has_error any
first_error-some [] r h = absurd cc
first_error-some (x ∷ results) r h = ground (arith, h, first_error-some results r)

module _ (rt : Runtime) (files : Files) (p : Proxy) (k : IsConsistent p.pol_cache) where
  -- A reload that fails: there is no file, it does not parse, or the linter finds an ERROR.
  abbrev pub IsRefused : Type 0
  IsRefused =
      (p.live_pol.source_path ≡ "")
      ⊎ ((e : GoError) × (parse_file rt files p.live_pol.source_path ≡ err e))
      ⊎ ((pol : Policy) × (parse_file rt files p.live_pol.source_path ≡ ok pol)
          × (IsSound rt pol → ⊥))

  -- What a reload comes to, as an error and a state.
  abbrev pub IsReload : Option GoError × Proxy → Type 0
  IsReload (some e, p') = IsRefused × (p' ≡ p)
  IsReload (none, p') =
      (pol : Policy) × (p.live_pol.source_path ≢ "")
      × (parse_file rt files p.live_pol.source_path ≡ ok pol)
      × IsSound rt pol
      × (p' ≡ record p { live_pol = pol; pol_cache = p'.pol_cache })
      × (view p'.pol_cache.list
          ≡ (remember p.pol_cache.capacity pol.fingerprint pol (view p.pol_cache.list)).1)
      × ((get pol.fingerprint p'.pol_cache).0 ≡ some pol)
      × IsConsistent p'.pol_cache

  accepted :
      (o : Option LintResult) (pol : Policy)
      → first_error (lint rt pol) ≡ o
      → p.live_pol.source_path ≢ ""
      → parse_file rt files p.live_pol.source_path ≡ ok pol
      → IsReload (accept o pol p.live_pol.source_path p)
  unfolding accept install
  accepted (some r) pol q n e = (
    inr (
        inr (
          pol,
          e,
          λ s. ground (arith, first_error-some (lint rt pol) r q, (lint-IsSound rt pol).1 s),
        )),
    refl,
  )
  accepted none pol q n e = (
    pol,
    n,
    e,
    (lint-IsSound rt pol).0 (first_error-none (lint rt pol) q),
    refl,
    ap (λ (x : String × Recency). x.1) (get-set-Refines pol.fingerprint p.pol_cache k pol).1,
    get-set pol.fingerprint p.pol_cache k pol,
    (get-set-Refines pol.fingerprint p.pol_cache k pol).3,
  )

  reloaded :
      (r : Result Policy)
      → parse_file rt files p.live_pol.source_path ≡ r
      → p.live_pol.source_path ≢ ""
      → IsReload (reload_from rt r p.live_pol.source_path p)
  unfolding reload_from
  reloaded (err e) q n = (inr (inl (e, q)), refl)
  reloaded (ok pol) q n = accepted (first_error (lint rt pol)) pol refl n q

  -- If list and index of the cache agree, then a reload either reports an error and leaves the proxy as it
  -- was, and then the policy has no file, or the file does not parse, or its policy is not sound; or it
  -- reports none, and then the file of the live policy parsed to a sound policy, which is now the live
  -- one and the most recent one of the cache, in place of an older version or of the oldest policy of a
  -- full cache, and found there by its fingerprint; and only the live policy and the cache have changed.
  pub reload_policy-IsReload : IsReload (reload_policy rt files p)
  unfolding reload_policy
  reload_policy-IsReload = elim (Bool-cases (p.live_pol.source_path == "")) [
    | inl q ↦ rw q (inl ((eq_iff p.live_pol.source_path "").0 q), refl)
    | inr q ↦ rw q (
        reloaded (parse_file rt files p.live_pol.source_path) refl
          (λ e. ground (arith, q, eq_iff p.live_pol.source_path "", e)))
  ]
