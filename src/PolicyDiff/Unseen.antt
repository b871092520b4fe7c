-- ===== src/PolicyDiff/Unseen.antt =====
-- What the diff does not look at.
use truebearing.Base.{
  String, ◌≡◌, refl, ap, ◌∙◌, true, false, Option, none, some, List, [], ◌∷◌, ◌++◌, ◌==◌,
  if◌then◌else◌, lookup,
}
use truebearing.Go.{Runtime}
use truebearing.Policy.{
  ContentMatchMode, ContentPredicate, EscalationConfig, Policy, RateLimitPolicy, ToolPolicy,
}
use truebearing.PolicyDiff.{
  diff_tool, diff_tools, distinct, keys, print_diff, Printing, sections, tool_changes, union_keys,
}

-- Other content predicates, match mode and rate limit for a tool.
pub record ToolChange : Type 0 where
  pub never_when : String → List ContentPredicate
  pub never_when_match : String → ContentMatchMode
  pub rate_limit : String → Option RateLimitPolicy

abbrev pub with_change : ToolChange → String → ToolPolicy → ToolPolicy
with_change c name tp = record tp {
  never_when = c.never_when name;
  never_when_match = c.never_when_match name;
  rate_limit = c.rate_limit name;
}

unfoldable pub change_tools : ToolChange → List (String × ToolPolicy) → List (String × ToolPolicy)
change_tools c [] = []
change_tools c ((name, tp) ∷ tools) = (name, with_change c name tp) ∷ change_tools c tools

-- The policy with these, another required environment and other escalation settings.
unfoldable pub change_policy : ToolChange → String → Option EscalationConfig → Policy → Policy
unfolding change_tools
change_policy c env escalation pol = record pol {
  session = record pol.session { require_env = env };
  tools = change_tools c pol.tools;
  escalation = escalation;
}

keys-change_tools :
    (c : ToolChange) (tools : List (String × ToolPolicy)) → keys (change_tools c tools) ≡ keys tools
unfolding change_tools
keys-change_tools c [] = refl
keys-change_tools c ((name, tp) ∷ tools) = ap (λ names. name ∷ names) (keys-change_tools c tools)

module _ (rt : Runtime) (out : Printing) where
  -- One tool: the diff of what is found in the changed policy.
  SameDiff : String → Option ToolPolicy → Option ToolPolicy → Type 0
  SameDiff name o o' =
      (p : Option ToolPolicy) → diff_tool rt out name p o' ≡ diff_tool rt out name p o

  SameDiff-with_change :
      (c : ToolChange) (n name : String) (tp : ToolPolicy)
      → SameDiff name (some tp) (some (with_change c n tp))
  unfolding SameDiff diff_tool tool_changes
  SameDiff-with_change c n name tp none = refl
  SameDiff-with_change c n name tp (some old) = refl

  lookup-SameDiff :
      (c : ToolChange) (tools : List (String × ToolPolicy)) (name : String)
      → SameDiff name (lookup tools name) (lookup (change_tools c tools) name)
  unfolding SameDiff change_tools lookup
  lookup-SameDiff c [] name p = refl
  lookup-SameDiff c ((n, tp) ∷ tools) name p =
      elim (n == name)
        as (λ b.
          diff_tool rt out name p
            (if b then some (with_change c n tp) else lookup (change_tools c tools) name)
          ≡ diff_tool rt out name p (if b then some tp else lookup tools name)) [
            | true ↦ SameDiff-with_change c n name tp p
            | false ↦ lookup-SameDiff c tools name p
          ]

  diff_tools-change_tools :
      (c : ToolChange) (old new : List (String × ToolPolicy)) (names : List String)
      → diff_tools rt out old (change_tools c new) names ≡ diff_tools rt out old new names
  unfolding diff_tools SameDiff
  diff_tools-change_tools c old new [] = refl
  diff_tools-change_tools c old new (name ∷ names) = λ i.
      lookup-SameDiff c new name (lookup old name) i ++ diff_tools-change_tools c old new names i

  union_keys-change_tools :
      (c : ToolChange) (old new : List (String × ToolPolicy))
      → union_keys rt out old (change_tools c new) ≡ union_keys rt out old new
  unfolding union_keys
  union_keys-change_tools c old new =
      ap (λ names. out.sort_strings (distinct [] (keys old ++ names))) (keys-change_tools c new)

  -- The diff prints the same for a new policy whatever its never_when predicates, match modes, rate limits,
  -- required environment and escalation settings are: a change of these alone is not detected.
  pub print_diff-change_policy :
      (c : ToolChange) (env : String) (escalation : Option EscalationConfig) (old new : Policy)
      → print_diff rt out old (change_policy c env escalation new) ≡ print_diff rt out old new
  unfolding print_diff change_policy
  print_diff-change_policy c env escalation old new =
      ap (λ lines. sections rt out lines old new)
        (diff_tools-change_tools c old.tools new.tools
            (union_keys rt out old.tools (change_tools c new.tools))
          ∙ ap (diff_tools rt out old.tools new.tools)
              (union_keys-change_tools c old.tools new.tools))
