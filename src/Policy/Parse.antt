-- ===== src/Policy/Parse.antt =====
-- internal/policy/parser.go and fingerprint.go: from YAML to a policy with its fingerprint. In what the
-- YAML parser fills in, a slice or a map may be nil, and `none` stands for that.
pub mod Normal
use truebearing.Base.{
  String, Bool, true, false, Option, none, some, List, [], ◌∷◌, ◌==◌, if◌then◌else◌,
}
use truebearing.Go.{err, GoError, ok, Result, Runtime, errorf, wrapf, ◌>>=◌}
use truebearing.Policy.{
  BudgetPolicy, ContentMatchMode, ContentPredicate, EnforcementMode, EscalateRule, EscalationConfig,
  Policy, PriorNRule, RateLimitPolicy, SequencePolicy, SessionPolicy, TaintPolicy, ToolPolicy,
}

pub record RawSequence : Type 0 where
  pub only_after : Option (List String)
  pub never_after : Option (List String)
  pub requires_prior_n : Option PriorNRule

pub record RawTool : Type 0 where
  pub enforcement_mode : EnforcementMode
  pub sequence : RawSequence
  pub taint : TaintPolicy
  pub escalate_when : Option EscalateRule
  pub never_when : Option (List ContentPredicate)
  pub never_when_match : ContentMatchMode
  pub rate_limit : Option RateLimitPolicy

pub record RawPolicy : Type 0 where
  pub version : String
  pub agent : String
  pub enforcement_mode : EnforcementMode
  pub session : SessionPolicy
  pub budget : BudgetPolicy
  pub may_use : Option (List String)
  pub tools : Option (List (String × RawTool))
  pub escalation : Option EscalationConfig

-- `os.ReadFile`, `yaml.Unmarshal` and `json.Marshal`, which leaves fingerprint and path out.
pub record Files : Type 0 where
  pub read_file : String → Result String
  pub unmarshal : String → Result RawPolicy
  pub marshal : RawPolicy → Result String

-- The loops over a nil slice or map do what they do over an empty one.
abbrev pub or_empty : {A : Type 0} → Option (List A) → List A
or_empty none = []
or_empty (some xs) = xs

unfoldable pub missing_field : String → String → String → Option GoError
missing_field version agent source_path =
    if version == ""
    then some (errorf ("policy from " ∷ source_path ∷ " is missing required field: version" ∷ []))
    else if agent == ""
    then some (errorf ("policy from " ∷ source_path ∷ " is missing required field: agent" ∷ []))
    else none

unfoldable pub validate : RawPolicy → String → Option GoError
unfolding missing_field
validate raw source_path = missing_field raw.version raw.agent source_path

unfoldable pub normalize_sequence : RawSequence → RawSequence
normalize_sequence seq = record seq {
  only_after = some (or_empty seq.only_after);
  never_after = some (or_empty seq.never_after);
}

unfoldable pub normalize_tools : List (String × RawTool) → List (String × RawTool)
unfolding normalize_sequence
normalize_tools [] = []
normalize_tools ((name, tp) ∷ tools) =
    (name, record tp { sequence = normalize_sequence tp.sequence }) ∷ normalize_tools tools

unfoldable pub normalize : RawPolicy → RawPolicy
unfolding normalize_tools
normalize raw = record raw {
  may_use = some (or_empty raw.may_use);
  tools = some (normalize_tools (or_empty raw.tools));
}

-- The policy as the rest of the program reads it.
abbrev pub sequence_of : RawSequence → SequencePolicy
sequence_of seq = record {
  only_after = or_empty seq.only_after;
  never_after = or_empty seq.never_after;
  requires_prior_n = seq.requires_prior_n;
}

abbrev pub tool_of : RawTool → ToolPolicy
tool_of tp = record {
  enforcement_mode = tp.enforcement_mode;
  sequence = sequence_of tp.sequence;
  taint = tp.taint;
  escalate_when = tp.escalate_when;
  never_when = or_empty tp.never_when;
  never_when_match = tp.never_when_match;
  rate_limit = tp.rate_limit;
}

unfoldable pub tools_of : List (String × RawTool) → List (String × ToolPolicy)
tools_of [] = []
tools_of ((name, tp) ∷ tools) = (name, tool_of tp) ∷ tools_of tools

unfoldable pub policy_of : RawPolicy → String → String → Policy
unfolding tools_of
policy_of raw fingerprint source_path = record {
  version = raw.version;
  agent = raw.agent;
  enforcement_mode = raw.enforcement_mode;
  session = raw.session;
  budget = raw.budget;
  may_use = or_empty raw.may_use;
  tools = tools_of (or_empty raw.tools);
  escalation = raw.escalation;
  fingerprint = fingerprint;
  source_path = source_path;
}

module _ (rt : Runtime) (files : Files) where
  unfoldable pub fingerprint_of : Result String → Result String
  fingerprint_of (ok json) = ok (rt.sha256_hex json)
  fingerprint_of (err e) = err (wrapf ("marshalling policy for fingerprinting: " ∷ []) e)

  unfoldable pub fingerprint : RawPolicy → Result String
  unfolding fingerprint_of
  fingerprint raw = fingerprint_of (files.marshal raw)

  unfoldable pub with_fingerprint : Result String → RawPolicy → String → Result Policy
  with_fingerprint (ok full) raw source_path = ok (policy_of raw full source_path)
  with_fingerprint (err e) raw source_path =
      err (wrapf ("computing fingerprint for " ∷ source_path ∷ ": " ∷ []) e)

  unfoldable pub checked : Option GoError → RawPolicy → String → Result Policy
  unfolding with_fingerprint
  checked (some e) raw source_path = err e
  checked none raw source_path =
      with_fingerprint (fingerprint (normalize raw)) (normalize raw) source_path

  unfoldable pub unmarshalled : Result RawPolicy → String → Result Policy
  unfolding checked
  unmarshalled (err e) source_path =
      err (wrapf ("parsing policy YAML from " ∷ source_path ∷ ": " ∷ []) e)
  unmarshalled (ok raw) source_path = checked (validate raw source_path) raw source_path

  unfoldable pub parse_bytes : String → String → Result Policy
  unfolding unmarshalled
  parse_bytes yaml source_path = unmarshalled (files.unmarshal yaml) source_path

  unfoldable pub contents : Result String → String → Result Policy
  contents (err e) path = err (wrapf ("reading policy file " ∷ path ∷ ": " ∷ []) e)
  contents (ok yaml) path = parse_bytes yaml path

  unfoldable pub parse_file : String → Result Policy
  unfolding contents
  parse_file path = contents (files.read_file path) path
