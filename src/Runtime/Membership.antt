-- ===== src/Runtime/Membership.antt =====
-- The test `v in SET` of a set of texts, which cannot hash a list or a dict.
use skill_centric_agent_syst.Base.{String, Bool, false, none, List, member, Json, str, arr, obj}
use skill_centric_agent_syst.Base.Outcome.{Outcome, ok, err}
use skill_centric_agent_syst.Runtime.Queue.{Error}

-- What a set raises of a list or a dict.
abbrev pub unhashable : Error
unhashable = record { class_name = "TypeError"; message = "unhashable type"; stop_reason = none }

-- `v in SET`
abbrev pub in_set : Json → List String → Outcome Error Bool
in_set (str s) xs = ok (member s xs)
in_set (arr vs) xs = err unhashable
in_set (obj fs) xs = err unhashable
in_set v xs = ok false
