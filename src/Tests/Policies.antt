-- ===== src/Tests/Policies.antt =====
-- The linter, the parser, the reload and the admin handlers at concrete inputs.
use truebearing.Base.{
  arith, pos, String, ◌≡◌, ◌↔◌, inl, inr, refl, true, false, Option, none, some, List, [], ◌∷◌,
  ◌==◌, if◌then◌else◌, lookup, contains, any,
}
use truebearing.Engine.Content.{evaluate}
use truebearing.Engine.Content.Linted.{evaluate-IsOk, IsOk}
use truebearing.Engine.Types.{tool_policy}
use truebearing.Go.{ok, Runtime, zero_float}
use truebearing.Policy.{ContentPredicate, Policy, ToolPolicy}
use truebearing.Policy.Lint.{lint}
use truebearing.Policy.Lint.Cycle.{find_cycle, found, Graph}
use truebearing.Policy.Lint.Cycle.Exact.{find_cycle-IsVerdict, IsVerdict}
use truebearing.Policy.Lint.Fields.{
  lint_l001, lint_l005, lint_l006, lint_l007, lint_l009, lint_l011, lint_l016,
}
use truebearing.Policy.Lint.Tools.{lint_l002, lint_l003, lint_l004, lint_l008, lint_l010, lint_l012}
use truebearing.Policy.Lint.Content.{lint_l014, lint_l015, lint_l017, lint_l018, lint_l019}
use truebearing.Policy.Lint.Cycle.{lint_l013}
use truebearing.Policy.Lint.Results.{for_each, has_error}
use truebearing.Policy.Lint.Sound.{IsSound, lint-IsSound}
use truebearing.Policy.Parse.{
  fingerprint, policy_of, validate, Files, normalize, parse_bytes, RawPolicy, RawTool,
}
use truebearing.Policy.Parse.Normal.{parse_bytes-Same, Same}
use truebearing.Proxy.Admin.{field, handle_admin_approve_escalation, handle_admin_reject_escalation}
use truebearing.Proxy.Admin.Answers.{admin-IsAnswered, at, IsAnsweredTo}
use truebearing.Proxy.PolicyCache.{element, get, new_policy_lru, set}
use truebearing.Proxy.PolicyCache.Consistent.{IsConsistent}
use truebearing.Proxy.PolicyCache.Entries.{entry_of}
use truebearing.Proxy.PolicyCache.Recency.{recall, remember, view}
use truebearing.Proxy.PolicyCache.Refines.{get-set-Refines}
use truebearing.Proxy.Reload.{reload_policy}
use truebearing.Proxy.Reload.Live.{IsReload, reload_policy-IsReload}
use truebearing.Proxy.State.{Proxy}
use truebearing.Tests.World.{
  call_of_tool, fresh_session, no_taint, read_policy, session_row, test_policy, test_proxy,
  test_runtime,
}

-- "a" comes after "b", and "b" after "a".
abbrev ring : Graph
ring = ("c", "a" ∷ []) ∷ ("a", "b" ∷ []) ∷ ("b", "a" ∷ []) ∷ []

ring_is_found : find_cycle ring ≡ found ("a" ∷ "b" ∷ "a" ∷ [])
unfolding find_cycle lookup
ring_is_found = refl

find_cycle-IsVerdict_example : IsVerdict ring (find_cycle ring)
find_cycle-IsVerdict_example = find_cycle-IsVerdict ring

lint-IsSound_example :
    (has_error (lint test_runtime test_policy) ≡ false) ↔ IsSound test_runtime test_policy
lint-IsSound_example = lint-IsSound test_runtime test_policy

abbrev no_secrets : ContentPredicate
no_secrets = record { argument = "text"; operator = "contains_pattern"; value = "/secret/" }

abbrev send_policy : ToolPolicy
send_policy = record read_policy { never_when = no_secrets ∷ [] }

abbrev send_only : Policy
send_only = record test_policy { may_use = "send" ∷ []; tools = ("send", send_policy) ∷ [] }

-- Every argument is there.
abbrev present_runtime : Runtime
present_runtime = record test_runtime {
  gjson_get = λ json path. record { exists = true; text = "a secret"; number = zero_float };
}

send_is_clean : has_error (lint present_runtime send_only) ≡ false
unfolding has_error lint any for_each contains lookup lint_l001 lint_l005 lint_l006 lint_l007
    lint_l009 lint_l011 lint_l016 lint_l002 lint_l003 lint_l004 lint_l008 lint_l010 lint_l012
    lint_l014 lint_l015 lint_l017 lint_l018 lint_l019 lint_l013
send_is_clean = refl

send_is_there : tool_policy send_only "send" ≡ some send_policy
unfolding lookup
send_is_there = refl

evaluate-IsOk_example :
    IsOk (evaluate present_runtime (call_of_tool "send") fresh_session send_only)
evaluate-IsOk_example =
    evaluate-IsOk present_runtime send_only (call_of_tool "send") fresh_session send_policy
      send_is_clean send_is_there (inr (inl refl)) (refl, tt)

abbrev raw_tool : Option (List String) → RawTool
raw_tool only_after = record {
  enforcement_mode = "";
  sequence = record { only_after = only_after; never_after = none; requires_prior_n = none };
  taint = no_taint;
  escalate_when = none;
  never_when = none;
  never_when_match = "";
  rate_limit = none;
}

abbrev raw_policy : Option (List String) → RawPolicy
raw_policy only_after = record {
  version = "1";
  agent = "bot";
  enforcement_mode = "block";
  session = test_policy.session;
  budget = test_policy.budget;
  may_use = some ("read" ∷ []);
  tools = some (("read", raw_tool only_after) ∷ []);
  escalation = none;
}

-- The text "short" leaves out the empty `only_after`.
abbrev test_files : Files
test_files = record {
  read_file = λ path. ok "short";
  unmarshal = λ yaml. if yaml == "short" then ok (raw_policy none) else ok (raw_policy (some []));
  marshal = λ raw. ok "json";
}

abbrev parsed : Policy
parsed = record {
  version = "1";
  agent = "bot";
  enforcement_mode = "block";
  session = test_policy.session;
  budget = test_policy.budget;
  may_use = "read" ∷ [];
  tools =
      ("read", record read_policy { taint = no_taint; never_when_match = ""; rate_limit = none })
      ∷ [];
  escalation = none;
  fingerprint = "json";
  source_path = "a.yaml";
}

short_parses : parse_bytes test_runtime test_files "short" "a.yaml" ≡ ok parsed
unfolding parse_bytes validate fingerprint policy_of normalize
short_parses = refl

raw_policy-Same : Same (raw_policy none) (raw_policy (some []))
raw_policy-Same = record {
  version = refl;
  agent = refl;
  enforcement_mode = refl;
  session = refl;
  budget = refl;
  may_use = refl;
  tools = (
    refl,
    record {
      enforcement_mode = refl;
      only_after = refl;
      never_after = refl;
      requires_prior_n = refl;
      taint = refl;
      escalate_when = refl;
      never_when = refl;
      never_when_match = refl;
      rate_limit = refl;
    },
    tt,
  );
  escalation = refl;
}

parse_bytes-Same_example :
    parse_bytes test_runtime test_files "long" "b.yaml"
    ≡ ok (record parsed { source_path = "b.yaml" })
parse_bytes-Same_example =
    parse_bytes-Same test_runtime test_files "short" "long" "a.yaml" "b.yaml" (raw_policy none)
      (raw_policy (some [])) parsed refl refl raw_policy-Same short_parses

abbrev proxy : Proxy
proxy = test_proxy (session_row false)

cache-IsConsistent : IsConsistent proxy.pol_cache
unfolding lookup entry_of element
cache-IsConsistent = record {
  distinct = (refl, refl, tt);
  below = (omega arith, tt);
  indexed = λ fp. ground arith;
}

reload_policy-IsReload_example :
    IsReload test_runtime test_files proxy cache-IsConsistent
      (reload_policy test_runtime test_files proxy)
reload_policy-IsReload_example =
    reload_policy-IsReload test_runtime test_files proxy cache-IsConsistent

get-set-Refines_example :
    (((get "f2" proxy.pol_cache).0, view (get "f2" proxy.pol_cache).1.list)
      ≡ recall "f2" (view proxy.pol_cache.list))
    × ((
      (set "f2" test_policy proxy.pol_cache).0,
      view (set "f2" test_policy proxy.pol_cache).1.list,
    )
        ≡ remember 16 "f2" test_policy (view proxy.pol_cache.list))
    × IsConsistent (get "f2" proxy.pol_cache).1
    × IsConsistent (set "f2" test_policy proxy.pol_cache).1
    × IsConsistent (new_policy_lru 16)
get-set-Refines_example = get-set-Refines "f2" proxy.pol_cache cache-IsConsistent test_policy

-- The phrase is found everywhere.
abbrev finding_runtime : Runtime
finding_runtime = record test_runtime { has_substring = λ s t. true }

admin-IsAnswered_example :
    IsAnsweredTo finding_runtime (field "fine") (pos 9) "e1" "approved" proxy (
      handle_admin_approve_escalation finding_runtime
        (at (pos 9) (λ rows. rows))
        "e1"
        (field "fine")
        proxy)
    × IsAnsweredTo finding_runtime (field "fine") (pos 9) "e1" "rejected" proxy (
        handle_admin_reject_escalation finding_runtime
          (at (pos 9) (λ rows. rows))
          "e1"
          (field "fine")
          proxy)
admin-IsAnswered_example =
    admin-IsAnswered finding_runtime (λ before id current. refl) (pos 9) (λ rows. rows) "e1"
      (field "fine") proxy
