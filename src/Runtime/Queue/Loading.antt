-- ===== src/Runtime/Queue/Loading.antt =====
-- runtime/queue.py: the loads of the artifacts of an item.
use skill_centric_agent_syst.Base.{String, Option, none, some, Fields, as_mapping}
use skill_centric_agent_syst.Base.Outcome.{Outcome, ok, some_or, ◌>>=◌}
use skill_centric_agent_syst.Runtime.Store.Records.{QueueItem}
use skill_centric_agent_syst.Runtime.Queue.{Error, queue_error}
use skill_centric_agent_syst.Runtime.Artifacts.Chunks.{Files}
use skill_centric_agent_syst.Runtime.Artifacts.Reading.{Reader, read_json}
use skill_centric_agent_syst.Runtime.FlightRecorder.Desk.{Recorder}

module _ (r : Recorder) (reader : Reader) where
  abbrev load_object : String → String → Files → Outcome Error Fields
  load_object message uri files = read_json reader r.artifacts.uri_prefix files uri >>= λ v.
      some_or (as_mapping v) (queue_error message)

  -- `load_task`
  unfoldable pub load_task : QueueItem → Files → Outcome Error Fields
  unfolding read_json
  load_task item files =
      load_object "Runtime queue task artifact must be a JSON object." item.task_payload_uri files

  abbrev load_given : Option String → Files → Outcome Error (Option Fields)
  load_given none files = ok none
  load_given (some uri) files =
      load_object "Runtime queue composition context artifact must be a JSON object." uri files
      >>= λ context. ok (some context)

  -- `load_composition_context`
  unfoldable pub load_composition_context : QueueItem → Files → Outcome Error (Option Fields)
  unfolding read_json
  load_composition_context item files = load_given item.composition_context_uri files
