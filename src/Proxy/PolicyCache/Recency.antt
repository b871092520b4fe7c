-- ===== src/Proxy/PolicyCache/Recency.antt =====
-- What the cache promises: a list of policies by recency, the most recent first.
use truebearing.Base.{
  ℕ, String, not, Option, none, some, List, [], ◌∷◌, ◌==◌, if◌then◌else◌, keep, leb, length, lookup,
}
use truebearing.Policy.{Policy}
use truebearing.Proxy.PolicyCache.{LruEntry}

abbrev pub Recency : Type 0
Recency = List (String × Policy)

abbrev pub without : String → Recency → Recency
without fp policies = keep (λ item. not (item.0 == fp)) policies

abbrev pub used : Option Policy → String → Recency → Recency
used none fp policies = policies
used (some pol) fp policies = (fp, pol) ∷ without fp policies

-- A policy that is asked for becomes the most recent one.
unfoldable pub recall : String → Recency → Option Policy × Recency
recall fp policies = (lookup policies fp, used (lookup policies fp) fp policies)

unfoldable pub oldest : Recency → String
oldest [] = ""
oldest (item ∷ []) = item.0
oldest (item ∷ next ∷ policies) = oldest (next ∷ policies)

unfoldable pub drop_oldest : Recency → Recency
drop_oldest [] = []
drop_oldest (item ∷ []) = []
drop_oldest (item ∷ next ∷ policies) = item ∷ drop_oldest (next ∷ policies)

abbrev pub replace : ℕ → Option Policy → String → Policy → Recency → String × Recency
replace capacity (some old) fp pol policies = ("", (fp, pol) ∷ without fp policies)
replace capacity none fp pol policies =
    if leb capacity (length policies)
    then (oldest policies, (fp, pol) ∷ drop_oldest policies)
    else ("", (fp, pol) ∷ policies)

-- A policy that is stored becomes the most recent one, in place of its older version, or of the oldest
-- policy if the list is full.
unfoldable pub remember : ℕ → String → Policy → Recency → String × Recency
remember capacity fp pol policies = replace capacity (lookup policies fp) fp pol policies

-- The list that a cache stands for.
unfoldable pub view : List LruEntry → Recency
view [] = []
view (e ∷ es) = (e.fingerprint, e.pol) ∷ view es
