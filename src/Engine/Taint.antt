-- ===== src/Engine/Taint.antt =====
-- internal/engine/taint.go: a tainted session blocks the tools that are sensitive to the taint.
use mathlib.Core.Logic.Or
use mathlib.Core.HLevel.{⊥_prop}
use mathlib.Core.List.{mem-cons, mem-cons_self, mem-cons_of_mem, not-mem-nil}
use truebearing.Base.{
  String, ◌≡◌, ◌↔◌, ◌⊎◌, inl, inr, refl, Option, none, some, List, [], ◌∷◌, Mem, arith,
  if◌then◌else◌, contains, contains-false_iff, Bool, true, false, not, is_empty, Bool-cases,
}
use truebearing.Go.{Runtime, Result, ok, text}
use truebearing.Engine.Types.{deny, allowed, refusal, Decision, Evaluator, ToolCall, tool_policy}
use truebearing.Engine.Outcome.{Answers}
use truebearing.Policy.{Policy, ToolPolicy}
use truebearing.Session.{Session}

names_applying : List (String × ToolPolicy) → List String
names_applying [] = []
names_applying ((name, tp) ∷ tools) =
    let rest = names_applying tools in if tp.taint.applies then name ∷ rest else rest

-- The set that `taintApplyingTools` builds, as the list of its members.
unfoldable pub taint_applying_tools : Policy → List String
unfolding names_applying
taint_applying_tools pol = names_applying pol.tools

-- The loop over `never_after`: its first member that is a taint source.
unfoldable pub first_source : List String → List String → Option String
first_source sources [] = none
first_source sources (blocked ∷ rest) =
    let later = first_source sources rest in
    if contains sources blocked then some blocked else later

abbrev pub clears_taint : Option ToolPolicy → Bool
clears_taint none = false
clears_taint (some tp) = tp.taint.clears

abbrev pub never_after_of : Option ToolPolicy → List String
never_after_of none = []
never_after_of (some tp) = tp.sequence.never_after

module _ (rt : Runtime) where
  block_on : Option String → ToolCall → Result Decision
  block_on none call = ok allowed
  block_on (some blocked) call = ok (
      refusal deny
        (text (
          "session is tainted: tool "
          ∷ rt.quote call.tool_name
          ∷ " is blocked because "
          ∷ rt.quote blocked
          ∷ " (a taint-applying tool) appears in its never_after guard and the session taint flag is set"
          ∷ []))
        "taint.session_tainted" "taint_blocked" []
        (text (
          "Session is tainted by a previous call to "
          ∷ rt.quote blocked
          ∷ ". Call the designated taint-clearing tool first, then retry "
          ∷ rt.quote call.tool_name
          ∷ "."
          ∷ [])))

  unfoldable pub evaluate : Evaluator
  unfolding block_on
  evaluate call sess pol =
      let tp = tool_policy pol call.tool_name in
      let sources = taint_applying_tools pol in
      if not sess.tainted
      then ok allowed
      else if clears_taint tp
      then ok allowed
      else if is_empty sources
      then ok allowed
      else block_on (first_source sources (never_after_of tp)) call

  pub evaluate-Answers : Answers evaluate
  unfolding evaluate
  evaluate-Answers call sess pol = ground arith

first_source-none :
    (s xs : List String) → first_source s xs ≡ none → (f : String) → Mem f xs → ¬ Mem f s
unfolding first_source
first_source-none s [] h f m = absurd (not-mem-nil m)
first_source-none s (x ∷ xs) h f m =
    let e : contains s x ≡ false = ground arith in
    Or.elim (λ a b i k. ⊥_prop (a k) (b k) i) (mem-cons.0 m)
      (λ p k. (contains-false_iff s x).0 e (rw (← p) k))
      (λ r. first_source-none s xs (ground arith) f r)

first_source_miss :
    (s xs : List String) → ((f : String) → Mem f xs → ¬ Mem f s) → first_source s xs ≡ none
unfolding first_source
first_source_miss s [] h = refl
first_source_miss s (x ∷ xs) h = ground (
  arith,
  (contains-false_iff s x).1 (h x mem-cons_self),
  first_source_miss s xs (λ f m. h f (mem-cons_of_mem x m)),
)

-- No taint, a tool that clears it, or a tool whose `never_after` names no taint source.
abbrev pub IsUntainted : ToolCall → Session → Policy → Type 0
IsUntainted call sess pol =
    (sess.tainted ≡ false)
    ⊎ (clears_taint (tool_policy pol call.tool_name) ≡ true)
    ⊎ ((f : String)
        → Mem f (never_after_of (tool_policy pol call.tool_name))
        → ¬ Mem f (taint_applying_tools pol))

module _ (rt : Runtime) where
  block_on-allowed :
      (o : Option String) (call : ToolCall) → block_on rt o call ≡ ok allowed → o ≡ none
  unfolding block_on
  block_on-allowed o call h = ground arith

  no_source : (s xs : List String) → is_empty s ≡ true → first_source s xs ≡ none
  unfolding first_source contains
  no_source s [] h = refl
  no_source s (x ∷ xs) h = ground (arith, no_source s xs)

  -- Taint allows a call exactly if the session is clean, the tool clears taint, or the tool's never_after
  -- list names no tool that applies taint.
  pub evaluate-IsUntainted :
      (call : ToolCall) (sess : Session) (pol : Policy)
      → (evaluate rt call sess pol ≡ ok allowed) ↔ IsUntainted call sess pol
  unfolding evaluate
  evaluate-IsUntainted call sess pol =
      let guard = never_after_of (tool_policy pol call.tool_name) in
      let sources = taint_applying_tools pol in
      (
        λ h. elim (Bool-cases sess.tainted) [
          | inr clean ↦ inl clean
          | inl dirty ↦ elim (Bool-cases (clears_taint (tool_policy pol call.tool_name))) [
            | inl clears ↦ inr (inl clears)
            | inr stays ↦ inr (
                inr (
                  first_source-none sources guard (
                    ground (
                      arith,
                      no_source sources guard,
                      block_on-allowed (first_source sources guard) call,
                    ))))
          ]
        ],
        λ h. elim h [
          | inl clean ↦ ground arith
          | inr (inl clears) ↦ ground arith
          | inr (inr free) ↦ ground (arith, first_source_miss sources guard free)
        ],
      )
