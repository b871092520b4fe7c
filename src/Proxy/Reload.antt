-- ===== src/Proxy/Reload.antt =====
-- `New` and `ReloadPolicy` of internal/proxy/proxy.go: the live policy and the cache of its versions.
pub mod Live
use truebearing.Base.{
  pos, String, Bool, true, false, Option, none, some, List, [], ◌∷◌, ◌==◌, if◌then◌else◌,
}
use truebearing.Go.{err, errorf, GoError, ok, Result, Runtime, wrapf}
use truebearing.Policy.{Policy}
use truebearing.Policy.Lint.{lint}
use truebearing.Policy.Lint.Results.{is_error, LintResult}
use truebearing.Policy.Parse.{Files, parse_file}
use truebearing.Proxy.PolicyCache.{lru_capacity, new_policy_lru, set}
use truebearing.Proxy.State.{Proxy}
use truebearing.Store.Rows.{Store}

-- The state that the proxy starts with. `SetLogger`, `SetTracer` and the other setters come later.
unfoldable pub new : Store → Policy → Option String → Proxy
new store pol signing_key = record {
  store = store;
  live_pol = pol;
  pol_cache = (set pol.fingerprint pol (new_policy_lru lru_capacity)).1;
  signing_key = signing_key;
  audit_strict = false;
  audit_write_failures = pos 0;
  admin_port = pos 0;
  tracing = false;
  trace = [];
}

-- `for _, r := range results { if r.Severity == policy.SeverityError { return … } }`
unfoldable pub first_error : List LintResult → Option LintResult
first_error [] = none
first_error (r ∷ results) = let rest = first_error results in if is_error r then some r else rest

-- The cache comes before the live policy.
unfoldable pub install : Policy → Proxy → Proxy
install new_pol p = record p {
  pol_cache = (set new_pol.fingerprint new_pol p.pol_cache).1;
  live_pol = new_pol;
}

unfoldable pub accept : Option LintResult → Policy → String → Proxy → Option GoError × Proxy
unfolding install
accept (some r) new_pol source_path p = (
  some (
      errorf
        ("reload rejected — lint error in " ∷ source_path ∷ ": " ∷ r.code ∷ " " ∷ r.message ∷ [])),
  p,
)
accept none new_pol source_path p = (none, install new_pol p)

unfoldable pub reload_from : Runtime → Result Policy → String → Proxy → Option GoError × Proxy
unfolding accept first_error
reload_from rt (err e) source_path p =
    (some (wrapf ("reloading policy from " ∷ source_path ∷ ": " ∷ []) e), p)
reload_from rt (ok new_pol) source_path p =
    accept (first_error (lint rt new_pol)) new_pol source_path p

-- The error, if any, and the state that the reload leaves.
unfoldable pub reload_policy : Runtime → Files → Proxy → Option GoError × Proxy
unfolding reload_from
reload_policy rt files p =
    if p.live_pol.source_path == ""
    then (some (errorf ("policy was not loaded from a file; hot-reload is not supported" ∷ [])), p)
    else reload_from rt (parse_file rt files p.live_pol.source_path) p.live_pol.source_path p
