-- ===== src/Examples/Recording.antt =====
-- Event indices and repeated insertions (runtime/storage_memory.py).
use skill_centric_agent_syst.Base.{
  ℕ, ◌+◌, String, ◌≡◌, refl, none, List, [], ◌∷◌, get, insert, tally, ◌≤◌, All, arith,
}
use skill_centric_agent_syst.Runtime.Store.Records.{Event}
use skill_centric_agent_syst.Runtime.Store.{Store, empty}
use skill_centric_agent_syst.Runtime.Store.Events.{
  allocate_runtime_event_index, insert_runtime_event, next_free,
}
use skill_centric_agent_syst.Runtime.Store.Indices.{IndicesBelow, IsBefore, allocate_event_fresh}
use skill_centric_agent_syst.Runtime.Store.Recording.{
  Trace, start, allocated, recorded, is_at, is_pair, recorded_once,
}

abbrev make_event : String → ℕ → Event
make_event id index = record {
  id = id;
  run_id = "run";
  step_id = none;
  event_index = index;
  event_type = "step_started";
  actor_role = "planner";
  planned_action_uri = none;
  execution_uri = none;
  result_uri = none;
  stop_reason = none;
  idempotency_key = "key";
  created_at = "2026-01-01T00:00:00Z";
}

abbrev stored_one : Store
stored_one = record empty {
  runtime_events = make_event "e4" 4 ∷ [];
  event_indices = ("run", 7) ∷ [];
}

counted : IndicesBelow stored_one
counted = unfold get in (omega arith, tt)

allocate_event_fresh_example :
    All (IsBefore "run" (allocate_runtime_event_index "run" stored_one).0) stored_one.runtime_events
    × IndicesBelow (allocate_runtime_event_index "run" stored_one).1
    × ((allocate_runtime_event_index "run"
          (allocate_runtime_event_index "other"
            (allocate_runtime_event_index "run" stored_one).1).1).0
        ≡ (allocate_runtime_event_index "run" stored_one).0 + 1)
allocate_event_fresh_example = allocate_event_fresh "run" "other" stored_one counted refl

-- Two indices are handed out before the event with the second one is inserted.
abbrev mixed : Store
mixed =
    (insert_runtime_event (make_event "e1" 1)
      (allocate_runtime_event_index "run" (allocate_runtime_event_index "run" empty).1).1).1

abbrev left : List (String × ℕ)
left = ("run", 0) ∷ []

trace : Trace mixed left
unfolding allocate_runtime_event_index get insert next_free
trace = recorded [] left (make_event "e1" 1) (allocated "run" (allocated "run" start))

recorded_once_example :
    tally (is_at "run" 1) mixed.runtime_events + tally (is_pair "run" 1) left ≤ 1
recorded_once_example = recorded_once mixed left "run" 1 trace
