-- ===== src/Runtime/FlightRecorder/Events.antt =====
-- runtime/flight_recorder.py: `record_event` and `checkpoint`.
use skill_centric_agent_syst.Base.{
  ℕ, String, Bool, true, false, Option, none, some, List, [], ◌∷◌, member, join, if◌then◌else◌,
  Json, null, str, obj, field, end,
}
use skill_centric_agent_syst.Base.Exec.{Exec, ◌>>=◌, ◌>>◌, lift, pure}
use skill_centric_agent_syst.Runtime.Models.Slug.{slug_id, decimal}
use skill_centric_agent_syst.Runtime.Artifacts.Writing.{write_json}
use skill_centric_agent_syst.Runtime.Store.Records.{Event, Checkpoint}
use skill_centric_agent_syst.Runtime.Store.Events.{
  allocate_runtime_event_index, allocate_runtime_checkpoint_index, insert_runtime_event,
  insert_runtime_checkpoint,
}
use skill_centric_agent_syst.Runtime.Queue.{Error}
use skill_centric_agent_syst.Runtime.FlightRecorder.Desk.{
  Desk, Recorder, Report, event_types, actor_roles, phases, require_choice, require_reason, or_else,
  three_digits, within, reading, write,
}

-- `v is None`
abbrev pub is_null : Json → Bool
is_null null = true
is_null _ = false

module _ (r : Recorder) where
  abbrev pub payload_parts : String → ℕ → Report → String → List String
  payload_parts run_id event_index report slot =
      let name =
        join (three_digits event_index) (join "-" (join report.event_type (join "-" slot))) in
      "traces" ∷ run_id ∷ "events" ∷ name ∷ []

  -- A payload that is not `None`.
  unfoldable pub write_payload :
      String → ℕ → Report → String → Json → Exec Error Desk (Option String)
  unfolding write_json decimal
  write_payload run_id event_index report slot payload = do
    uri ← write r (payload_parts run_id event_index report slot) payload report.redact
    pure (some uri)

  -- `_write_event_payload`
  unfoldable pub write_event_payload :
      String → ℕ → Report → String → Json → Exec Error Desk (Option String)
  unfolding write_payload
  write_event_payload run_id event_index report slot payload =
      if is_null payload then pure none else write_payload run_id event_index report slot payload

  -- `_event_record`
  abbrev event_record :
      String → ℕ → Report → String → Option String → Option String → Option String → String → Event
  event_record run_id event_index report key planned execution result created_at = record {
    id =
        slug_id r.artifacts.casefold "event"
          (join run_id (join "-" (join report.event_type (join "-" (decimal event_index)))));
    run_id = run_id;
    step_id = report.step_id;
    event_index = event_index;
    event_type = report.event_type;
    actor_role = report.actor_role;
    planned_action_uri = planned;
    execution_uri = execution;
    result_uri = result;
    stop_reason = report.stop_reason;
    idempotency_key = key;
    created_at = created_at;
  }

  -- The checks of `record_event`.
  unfoldable pub check_report : Report → Exec Error Desk (Unit {0})
  unfolding require_choice
  check_report report = do
    lift (require_choice report.event_type event_types "event_type")
    lift (require_choice report.actor_role actor_roles "actor_role")
    lift (require_reason report.stop_reason)

  -- The part of `record_event` after its index is handed out.
  unfoldable pub store_event : String → Report → ℕ → Exec Error Desk Event
  unfolding write_event_payload slug_id decimal insert_runtime_event
  store_event run_id report event_index = do
    let key =
        or_else report.idempotency_key
          (join run_id (join ":event:" (join report.event_type (join ":" (decimal event_index)))))
    planned ← write_event_payload run_id event_index report "planned" report.planned_action
    execution ← write_event_payload run_id event_index report "execution" report.execution
    result ← write_event_payload run_id event_index report "result" report.result
    created_at ← reading r
    within (
        insert_runtime_event
          (event_record run_id event_index report key planned execution result created_at))

  unfoldable pub record_event : String → Report → Exec Error Desk Event
  unfolding check_report store_event allocate_runtime_event_index
  record_event run_id report = do
    check_report report
    event_index ← within (allocate_runtime_event_index run_id)
    store_event run_id report event_index

  -- The event of a checkpoint.
  abbrev pub checkpoint_report : Checkpoint → Option String → String → String → Bool → Report
  checkpoint_report stored step_id phase key redact = record {
    event_type = "checkpoint_created";
    actor_role = if member phase ("analysis" ∷ "composition" ∷ []) then "composer" else "executor";
    step_id = step_id;
    planned_action = null;
    execution = null;
    result = obj (field "checkpoint_id" (str stored.id) (field "phase" (str phase) end));
    stop_reason = none;
    idempotency_key = some key;
    redact = redact;
  }

  abbrev pub checkpoint_parts : String → String → ℕ → List String
  checkpoint_parts run_id phase checkpoint_index =
      "traces" ∷ run_id ∷ "checkpoints" ∷ join (three_digits checkpoint_index) (join "-" phase) ∷ []

  abbrev pub checkpoint_key : String → ℕ → String
  checkpoint_key run_id checkpoint_index =
      join run_id (join ":checkpoint:" (decimal checkpoint_index))

  -- The part of `checkpoint` before its event.
  unfoldable pub store_checkpoint :
      String → String → Json → Option String → ℕ → Bool → ℕ → Exec Error Desk Checkpoint
  unfolding write_json slug_id decimal insert_runtime_checkpoint
  store_checkpoint run_id phase state step_id tokens_used_total redact checkpoint_index = do
    state_uri ← write r (checkpoint_parts run_id phase checkpoint_index) state redact
    created_at ← reading r
    within (
        insert_runtime_checkpoint (record {
          id =
              slug_id r.artifacts.casefold "checkpoint"
                (join run_id (join "-" (join phase (join "-" (decimal checkpoint_index)))));
          run_id = run_id;
          step_id = step_id;
          checkpoint_index = checkpoint_index;
          phase = phase;
          state_uri = state_uri;
          tokens_used_total = tokens_used_total;
          created_at = created_at;
        }))

  unfoldable pub checkpoint :
      String → String → Json → Option String → ℕ → Bool → Exec Error Desk Checkpoint
  unfolding require_choice allocate_runtime_checkpoint_index store_checkpoint record_event decimal
  checkpoint run_id phase state step_id tokens_used_total redact = do
    lift (require_choice phase phases "phase")
    checkpoint_index ← within (allocate_runtime_checkpoint_index run_id)
    stored ← store_checkpoint run_id phase state step_id tokens_used_total redact checkpoint_index
    event ←
        record_event run_id
          (checkpoint_report stored step_id phase (checkpoint_key run_id checkpoint_index) redact)
    pure stored
