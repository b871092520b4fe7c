-- ===== src/Tests/Queries.antt =====
-- The two backends on a concrete store.
use truebearing.Base.{pos, ◌≡◌, refl, false, none, [], ◌∷◌, keep}
use truebearing.Engine.Chain.Backends.{loaded, loaded-agrees, no_faults}
use truebearing.Engine.MemBackend.{mem_backend}
use truebearing.Engine.StoreBackend.{store_backend}
use truebearing.Engine.Types.{QueryBackend}
use truebearing.Go.{Runtime, ok}
use truebearing.Store.Agents.{agent_or_missing, allowed_tools, find_agent, get_agent}
use truebearing.Store.Events.Log.{IsLogged}
use truebearing.Store.Rows.{Store}
use truebearing.Tests.World.{bot, session_row, store_with, test_runtime}

abbrev store : Store
store = store_with (session_row false)

-- The same runtime, but every agent is registered with no tools.
abbrev toolless_runtime : Runtime
toolless_runtime = record test_runtime { decode_tools = λ s. ok [] }

log-IsLogged : IsLogged store
unfolding keep
log-IsLogged id = tt

bot_is_found : (rt : Runtime) → get_agent rt none "bot" store ≡ ok bot
unfolding get_agent find_agent agent_or_missing
bot_is_found rt = refl

bot_has_tools : allowed_tools test_runtime bot ≡ ok ("read" ∷ "write" ∷ [])
unfolding allowed_tools
bot_has_tools = refl

bot_has_no_tools : allowed_tools toolless_runtime bot ≡ ok []
unfolding allowed_tools
bot_has_no_tools = refl

abbrev memory : QueryBackend
memory = mem_backend (loaded test_runtime "s1" ("read" ∷ "write" ∷ []) store)

abbrev stored : QueryBackend
stored = store_backend test_runtime no_faults store

loaded-agrees_example :
    (memory.get_session_events "s1" ≡ stored.get_session_events "s1")
    × (memory.count_session_events_since "s1" "write" (pos 3)
        ≡ stored.count_session_events_since "s1" "write" (pos 3))
    × (memory.has_approved_escalation "s1" "write" "{}"
        ≡ stored.has_approved_escalation "s1" "write" "{}")
    × (memory.get_agent_allowed_tools "bot" ≡ stored.get_agent_allowed_tools "bot")
loaded-agrees_example =
    loaded-agrees test_runtime "s1" store ("read" ∷ "write" ∷ []) log-IsLogged "bot"
      (bot_is_found test_runtime) bot_has_tools refl "write" "{}" (pos 3)
