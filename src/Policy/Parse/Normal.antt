-- ===== src/Policy/Parse/Normal.antt =====
-- What parsing promises: required fields, the source path, and a fingerprint that does not depend on how
-- an empty collection is written.
use mathlib.Core.Path.{subst}
use truebearing.Base.{
  String, ◌≡◌, ◌≢◌, refl, sym, ap, ◌∙◌, Option, none, some, List, [], ◌∷◌, arith, eq_iff,
}
use truebearing.Go.{err, ok-injective, ok-not-err, GoError, ok, Result, Runtime}
use truebearing.Policy.{Policy}
use truebearing.Policy.Parse.{
  checked, Files, fingerprint, normalize, normalize_sequence, normalize_tools, missing_field,
  or_empty, parse_bytes, policy_of, RawPolicy, RawTool, unmarshalled, validate, with_fingerprint,
}

-- Two tools that differ at most in whether an empty `only_after` or `never_after` is written.
pub record SameTool (t u : RawTool) : Type 0 where
  pub enforcement_mode : t.enforcement_mode ≡ u.enforcement_mode
  pub only_after : or_empty t.sequence.only_after ≡ or_empty u.sequence.only_after
  pub never_after : or_empty t.sequence.never_after ≡ or_empty u.sequence.never_after
  pub requires_prior_n : t.sequence.requires_prior_n ≡ u.sequence.requires_prior_n
  pub taint : t.taint ≡ u.taint
  pub escalate_when : t.escalate_when ≡ u.escalate_when
  pub never_when : t.never_when ≡ u.never_when
  pub never_when_match : t.never_when_match ≡ u.never_when_match
  pub rate_limit : t.rate_limit ≡ u.rate_limit

abbrev pub SameTools : List (String × RawTool) → List (String × RawTool) → Type 0
SameTools [] [] = Unit
SameTools [] (t ∷ ts) = ⊥
SameTools (t ∷ ts) [] = ⊥
SameTools ((m, t) ∷ ts) ((n, u) ∷ us) = (m ≡ n) × SameTool t u × SameTools ts us

-- Two policies that differ at most in whether empty collections are written.
pub record Same (p q : RawPolicy) : Type 0 where
  pub version : p.version ≡ q.version
  pub agent : p.agent ≡ q.agent
  pub enforcement_mode : p.enforcement_mode ≡ q.enforcement_mode
  pub session : p.session ≡ q.session
  pub budget : p.budget ≡ q.budget
  pub may_use : or_empty p.may_use ≡ or_empty q.may_use
  pub tools : SameTools (or_empty p.tools) (or_empty q.tools)
  pub escalation : p.escalation ≡ q.escalation

normalize_tool-Same :
    (t u : RawTool)
    → SameTool t u
    → record t { sequence = normalize_sequence t.sequence }
      ≡ record u { sequence = normalize_sequence u.sequence }
unfolding normalize_sequence
normalize_tool-Same t u s = λ i. record {
  enforcement_mode = s.enforcement_mode i;
  sequence = record {
    only_after = some (s.only_after i);
    never_after = some (s.never_after i);
    requires_prior_n = s.requires_prior_n i;
  };
  taint = s.taint i;
  escalate_when = s.escalate_when i;
  never_when = s.never_when i;
  never_when_match = s.never_when_match i;
  rate_limit = s.rate_limit i;
}

normalize_tools-Same :
    (ts us : List (String × RawTool)) → SameTools ts us → normalize_tools ts ≡ normalize_tools us
unfolding normalize_tools
normalize_tools-Same [] [] s = refl
normalize_tools-Same [] (t ∷ ts) s = absurd s
normalize_tools-Same (t ∷ ts) [] s = absurd s
normalize_tools-Same ((m, t) ∷ ts) ((n, u) ∷ us) s =
    λ i. (s.0 i, normalize_tool-Same t u s.1 i) ∷ normalize_tools-Same ts us s.2 i

normalize-Same : (p q : RawPolicy) → Same p q → normalize p ≡ normalize q
unfolding normalize
normalize-Same p q s = λ i. record {
  version = s.version i;
  agent = s.agent i;
  enforcement_mode = s.enforcement_mode i;
  session = s.session i;
  budget = s.budget i;
  may_use = some (s.may_use i);
  tools = some (normalize_tools-Same (or_empty p.tools) (or_empty q.tools) s.tools i);
  escalation = s.escalation i;
}

-- Whether a field is missing does not depend on the path.
missing-none :
    (version agent path path' : String)
    → missing_field version agent path ≡ none
    → (missing_field version agent path' ≡ none) × (version ≢ "") × (agent ≢ "")
unfolding missing_field
missing-none version agent path path' h = (
  ground (arith, h),
  (λ e. ground (arith, h, eq_iff version "")),
  λ e. ground (arith, h, eq_iff agent ""),
)

module _ (rt : Runtime) (files : Files) where
  -- How a policy came to be parsed.
  pub record Parsed (raw : RawPolicy) (path : String) (pol : Policy) : Type 0 where
    pub fields : missing_field raw.version raw.agent path ≡ none
    pub full : String
    pub fingerprinted : fingerprint rt files (normalize raw) ≡ ok full
    pub parsed : pol ≡ policy_of (normalize raw) full path

  with_fingerprint-ok :
      (r : Result String) (raw : RawPolicy) (path : String) (pol : Policy)
      → with_fingerprint rt files r raw path ≡ ok pol
      → (full : String) × (r ≡ ok full) × (pol ≡ policy_of raw full path)
  unfolding with_fingerprint
  with_fingerprint-ok (ok full) raw path pol h = (full, refl, sym (ok-injective h))
  with_fingerprint-ok (err e) raw path pol h = absurd (ok-not-err h)

  checked-Parsed :
      (o : Option GoError) (raw : RawPolicy) (path : String) (pol : Policy)
      → missing_field raw.version raw.agent path ≡ o
      → checked rt files o raw path ≡ ok pol
      → Parsed raw path pol
  unfolding checked
  checked-Parsed (some e) raw path pol q h = absurd (ok-not-err h)
  checked-Parsed none raw path pol q h =
      let (full, e, p) =
        with_fingerprint-ok (fingerprint rt files (normalize raw)) (normalize raw) path pol h in
      record { fields = q; full = full; fingerprinted = e; parsed = p }

  pub parse_bytes-Parsed :
      (yaml path : String) (raw : RawPolicy) (pol : Policy)
      → files.unmarshal yaml ≡ ok raw
      → parse_bytes rt files yaml path ≡ ok pol
      → Parsed raw path pol
  unfolding parse_bytes unmarshalled validate
  parse_bytes-Parsed yaml path raw pol u h =
      checked-Parsed (missing_field raw.version raw.agent path) raw path pol refl
        (subst (λ r. unmarshalled rt files r path ≡ ok pol) u h)

  parsed-again :
      (yaml path : String) (raw : RawPolicy) (full : String)
      → files.unmarshal yaml ≡ ok raw
      → missing_field raw.version raw.agent path ≡ none
      → fingerprint rt files (normalize raw) ≡ ok full
      → parse_bytes rt files yaml path ≡ ok (policy_of (normalize raw) full path)
  unfolding parse_bytes unmarshalled validate checked with_fingerprint
  parsed-again yaml path raw full u m e = rw u (rw m (rw e refl))

  -- If a text parses to a policy, then a text whose YAML differs at most in whether empty collections
  -- (may_use, tools, only_after, never_after) are written parses too, from any path, to the same policy
  -- with the same fingerprint, apart from the path.
  pub parse_bytes-Same :
      (yaml yaml' path path' : String) (raw raw' : RawPolicy) (pol : Policy)
      → files.unmarshal yaml ≡ ok raw
      → files.unmarshal yaml' ≡ ok raw'
      → Same raw raw'
      → parse_bytes rt files yaml path ≡ ok pol
      → parse_bytes rt files yaml' path' ≡ ok (record pol { source_path = path' })
  unfolding policy_of
  parse_bytes-Same yaml yaml' path path' raw raw' pol u u' s h =
      let p = parse_bytes-Parsed yaml path raw pol u h in
      parsed-again yaml' path' raw' p.full u'
        (missing-none raw'.version raw'.agent path path' (
          ap (λ v. missing_field v raw'.agent path) (sym s.version)
          ∙ ap (λ a. missing_field raw.version a path) (sym s.agent)
          ∙ p.fields)).0
        (ap (fingerprint rt files) (sym (normalize-Same raw raw' s)) ∙ p.fingerprinted)
      ∙ ap (λ r. ok (policy_of r p.full path')) (sym (normalize-Same raw raw' s))
      ∙ ap (λ (a : Policy). ok (record a { source_path = path' })) (sym p.parsed)
