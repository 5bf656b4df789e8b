-- ===== src/Runtime/Queue/Repeated.antt =====
-- What `enqueue` of runtime/queue.py does with an idempotency key that was used before.
use Prim.Native.Char.{Char}
use skill_centric_agent_syst.Base.{String, Option, List, map, values}
use skill_centric_agent_syst.Runtime.Store.{Store}
use skill_centric_agent_syst.Runtime.Store.Records.{QueueItem}
use skill_centric_agent_syst.Runtime.FlightRecorder.Desk.{Desk}

-- What nothing but an insertion gives an item: its id and its key.
abbrev pub ident : QueueItem → String × Option String
ident item = (item.id, item.idempotency_key)

abbrev pub idents : Store → List (String × Option String)
idents s = map ident (values s.runtime_queue_items)
