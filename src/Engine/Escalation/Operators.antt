-- ===== src/Engine/Escalation/Operators.antt =====
-- The operators of an `escalate_when` rule of internal/engine/escalation.go.
use truebearing.Base.{String, ◌≡◌, ◌∙◌, ◌↔◌, ◌⊎◌, inl, inr, refl, sym, ap, Bool, not, arith, eq_iff}
use truebearing.Go.{
  Float64, float32, float64, GjsonResult, int, int64, ok, ok-injective, other, Result, Result-cases,
  Runtime, Value, zero_float,
}
use truebearing.Engine.Escalation.{apply_escalation_operator, apply_numeric_op, to_float64}

module _ (rt : Runtime) where
  -- The number that a threshold stands for; one of text stands for 0.
  abbrev pub number_of : Value → Float64
  number_of (float64 n) = n
  number_of (int n) = rt.float_of_int n
  number_of (int64 n) = rt.float_of_int n
  number_of (float32 n) = rt.float_of_float32 n
  number_of (other s) = zero_float

  -- The eight operators, with what each makes of an argument and a threshold.
  pub data Compares (found : GjsonResult) (op : String) (threshold : Value) (b : Bool)
      : Type 0 where
    above :
        op ≡ ">"
        → b ≡ rt.float_lt (number_of threshold) found.number
        → Compares found op threshold b
    below :
        op ≡ "<"
        → b ≡ rt.float_lt found.number (number_of threshold)
        → Compares found op threshold b
    at_least :
        op ≡ ">="
        → b ≡ rt.float_le (number_of threshold) found.number
        → Compares found op threshold b
    at_most :
        op ≡ "<="
        → b ≡ rt.float_le found.number (number_of threshold)
        → Compares found op threshold b
    equals :
        op ≡ "=="
        → b ≡ rt.float_eq found.number (number_of threshold)
        → Compares found op threshold b
    differs :
        op ≡ "!="
        → b ≡ not (rt.float_eq found.number (number_of threshold))
        → Compares found op threshold b
    contains :
        op ≡ "contains"
        → b ≡ rt.has_substring found.text (rt.show_value threshold)
        → Compares found op threshold b
    matches :
        op ≡ "matches"
        → (re : String → Bool) → rt.regexp_compile (rt.show_value threshold) ≡ ok re
        → b ≡ re found.text
        → Compares found op threshold b

  number_of_lem : (v : Value) → to_float64 rt v ≡ number_of v
  unfolding to_float64
  number_of_lem (float64 n) = refl
  number_of_lem (int n) = refl
  number_of_lem (int64 n) = refl
  number_of_lem (float32 n) = refl
  number_of_lem (other s) = refl

  module _ (found : GjsonResult) (threshold : Value) where
    result_of : String → Result Bool
    result_of op = apply_escalation_operator rt found op threshold

    numeric :
        (op : String)
        → apply_numeric_op rt found.number op (to_float64 rt threshold)
          ≡ apply_numeric_op rt found.number op (number_of threshold)
    numeric op = ap (apply_numeric_op rt found.number op) (number_of_lem threshold)

    applied : (op : String) {b : Bool} → Compares found op threshold b → result_of op ≡ ok b
    unfolding result_of apply_escalation_operator
    applied op (above e q) = ap result_of e ∙ numeric ">" ∙ ap ok (sym q)
    applied op (below e q) = ap result_of e ∙ numeric "<" ∙ ap ok (sym q)
    applied op (at_least e q) = ap result_of e ∙ numeric ">=" ∙ ap ok (sym q)
    applied op (at_most e q) = ap result_of e ∙ numeric "<=" ∙ ap ok (sym q)
    applied op (equals e q) = ap result_of e ∙ numeric "==" ∙ ap ok (sym q)
    applied op (differs e q) = ap result_of e ∙ numeric "!=" ∙ ap ok (sym q)
    applied op (contains e q) = ap result_of e ∙ ap ok (sym q)
    applied op (matches e re compiled q) = ap result_of e ∙ rw compiled (ap ok (sym q))

    -- Every other operator is an error.
    known :
        (op : String) (b : Bool)
        → result_of op ≡ ok b
        → (op ≡ ">")
          ⊎ (op ≡ "<")
          ⊎ (op ≡ ">=")
          ⊎ (op ≡ "<=")
          ⊎ (op ≡ "==")
          ⊎ (op ≡ "!=")
          ⊎ (op ≡ "contains")
          ⊎ (op ≡ "matches")
    unfolding result_of apply_escalation_operator
    known op b h = ground (
      arith,
      h,
      eq_iff op ">",
      eq_iff op "<",
      eq_iff op ">=",
      eq_iff op "<=",
      eq_iff op "==",
      eq_iff op "!=",
      eq_iff op "contains",
      eq_iff op "matches",
    )

    matched :
        (op : String) (b : Bool)
        → result_of op ≡ ok b
        → op ≡ "matches"
        → Compares found op threshold b
    unfolding result_of apply_escalation_operator
    matched op b h e = elim (Result-cases (rt.regexp_compile (rt.show_value threshold))) [
      | inl (re, q) ↦ matches e re q (ok-injective (sym h ∙ applied op (matches e re q refl)))
      | inr (fault, q) ↦ ground (arith, q, sym (ap result_of e) ∙ h)
    ]

    compared : (op : String) (b : Bool) → result_of op ≡ ok b → Compares found op threshold b
    compared op b h = sort (known op b h)
      where
        same : {c : Bool} → Compares found op threshold c → b ≡ c
        same x = ok-injective (sym h ∙ applied op x)

        sort :
            (op ≡ ">")
              ⊎ (op ≡ "<")
              ⊎ (op ≡ ">=")
              ⊎ (op ≡ "<=")
              ⊎ (op ≡ "==")
              ⊎ (op ≡ "!=")
              ⊎ (op ≡ "contains")
              ⊎ (op ≡ "matches")
            → Compares found op threshold b
        sort (inl e) = above e (same (above e refl))
        sort (inr (inl e)) = below e (same (below e refl))
        sort (inr (inr (inl e))) = at_least e (same (at_least e refl))
        sort (inr (inr (inr (inl e)))) = at_most e (same (at_most e refl))
        sort (inr (inr (inr (inr (inl e))))) = equals e (same (equals e refl))
        sort (inr (inr (inr (inr (inr (inl e)))))) = differs e (same (differs e refl))
        sort (inr (inr (inr (inr (inr (inr (inl e))))))) = contains e (same (contains e refl))
        sort (inr (inr (inr (inr (inr (inr (inr e))))))) = matched op b h e

    pub applied_iff :
        (op : String) (b : Bool)
        → (apply_escalation_operator rt found op threshold ≡ ok b) ↔ Compares found op threshold b
    unfolding result_of
    applied_iff op b = (compared op b, applied op)
