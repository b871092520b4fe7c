-- ===== src/Store/Escalations/Kept.antt =====
-- The insertion of internal/store/escalations.go touches no event and no audit record.
use truebearing.Base.{ℤ, Option, arith}
use truebearing.Go.{Runtime, GoError}
use truebearing.Store.Escalations.{create_escalation}
use truebearing.Store.Rows.{Store, Escalation}
use truebearing.Store.Sessions.Kept.{IsSameLog}

pub create_escalation-IsSameLog :
    (rt : Runtime) (fault : Option GoError) (duplicate : GoError) (now : ℤ) (e : Escalation)
    (s : Store)
    → IsSameLog s (create_escalation rt fault duplicate now e s).1
unfolding create_escalation
create_escalation-IsSameLog rt fault duplicate now e s = ground arith
