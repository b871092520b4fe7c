-- ===== src/Engine/History.antt =====
-- The history of a session as the evaluators read it: the loop of internal/engine/sequence.go that
-- builds the map of frequencies, and the tools that were executed.
use truebearing.Base.{
  ℕ, ◌+◌, String, ◌≡◌, Bool, true, false, ◌||◌, none, some, List, [], ◌∷◌, arith, ◌==◌, eq_iff,
  if◌then◌else◌, contains, count, lookup, lookup-cons,
}
use truebearing.Engine.Types.{SessionEventEntry, was_executed}

-- `type freq struct`
pub record Freq : Type 0 where
  pub seen : Bool
  pub count : ℕ

abbrev pub History : Type 0
History = List (String × Freq)

-- `history[t]`, the zero value where the key is missing.
unfoldable pub freq_of : History → String → Freq
freq_of history t = elim (lookup history t) [
  | none ↦ record { seen = false; count = 0 }
  | some f ↦ f
]

bump : History → String → History
bump history t = (t, record { seen = true; count = (freq_of history t).count + 1 }) ∷ history

record_events : History → List SessionEventEntry → History
record_events history [] = history
record_events history (ev ∷ events) =
    record_events (if was_executed ev.decision then bump history ev.tool_name else history) events

unfoldable pub history_of : List SessionEventEntry → History
unfolding record_events bump
history_of events = record_events [] events

-- The tools of the calls that reached the upstream server, in order.
unfoldable pub executed : List SessionEventEntry → List String
executed [] = []
executed (ev ∷ events) =
    let rest = executed events in if was_executed ev.decision then ev.tool_name ∷ rest else rest

bump_lem :
    (h : History) (t u : String)
    → freq_of (bump h t) u
      ≡ (if t == u then record { seen = true; count = (freq_of h u).count + 1 } else freq_of h u)
unfolding freq_of bump
bump_lem h t u =
    ground (
      arith,
      eq_iff t u,
      lookup-cons t u (record { seen = true; count = (freq_of h t).count + 1 }) h,
    )

record_events_lem :
    (h : History) (events : List SessionEventEntry) (t : String)
    → ((freq_of (record_events h events) t).seen
        ≡ ((freq_of h t).seen || contains (executed events) t))
      × ((freq_of (record_events h events) t).count
          ≡ (freq_of h t).count + count (executed events) t)
unfolding record_events executed contains count
record_events_lem h [] t = ground arith
record_events_lem h (ev ∷ events) t = ground (
  arith,
  record_events_lem (bump h ev.tool_name) events t,
  record_events_lem h events t,
  bump_lem h ev.tool_name t,
)

-- The map says of each tool whether, and how often, it was executed.
pub history_of_lem :
    (events : List SessionEventEntry) (t : String)
    → ((freq_of (history_of events) t).seen ≡ contains (executed events) t)
      × ((freq_of (history_of events) t).count ≡ count (executed events) t)
unfolding history_of freq_of lookup
history_of_lem events t = ground (arith, record_events_lem [] events t)
