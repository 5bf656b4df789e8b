-- ===== src/Runtime/FlightRecorder/Runs.antt =====
-- runtime/flight_recorder.py: how a run and its steps start and end.
use skill_centric_agent_syst.Base.{
  ℕ, String, Option, none, some, join, after_head, Json, null, Fields, find, as_mapping, to_str,
}
use skill_centric_agent_syst.Base.Exec.{Exec, ◌>>=◌, ◌>>◌, lift}
use skill_centric_agent_syst.Runtime.Models.{RunStatus}
use skill_centric_agent_syst.Runtime.Models.Slug.{slug_id, decimal}
use skill_centric_agent_syst.Runtime.Store.{insert_runtime_run, update_runtime_run}
use skill_centric_agent_syst.Runtime.Store.Records.{Run, Step}
use skill_centric_agent_syst.Runtime.Store.Events.{insert_runtime_step, update_runtime_step}
use skill_centric_agent_syst.Runtime.Queue.{Error}
use skill_centric_agent_syst.Runtime.FlightRecorder.Desk.{
  Desk, Recorder, step_kinds, require_choice, require_reason, or_else, item, settle, within,
  reading,
}

-- Where the profile of a run comes from.
pub record Origin : Type 0 where
  pub profile_artifact_uri : Option String
  pub profile_sha256 : Option String
  pub profile_generation : Option ℕ
  pub parent_profile_id : Option String

-- `s.removeprefix("task-")`
abbrev without_task : String → String
without_task s = elim (after_head "task-" s) [ none ↦ s | some rest ↦ rest ]

-- `limits.get("max_tokens")` where the limits are a mapping; a profile without limits has an empty one
abbrev token_budget_total : Option Fields → Json
token_budget_total none = null
token_budget_total (some limits) = find "max_tokens" limits

abbrev complete_with : String → (Step → Step) → Exec Error Desk Step
complete_with step_id f d = settle step_id (update_runtime_step step_id f d.store) d

abbrev end_with : String → (Run → Run) → Exec Error Desk Run
end_with run_id f d = settle run_id (update_runtime_run run_id f d.store) d

module _ (r : Recorder) where
  unfoldable pub start_run :
      String → Fields → Option String → RunStatus → Origin → Exec Error Desk Run
  unfolding after_head slug_id to_str insert_runtime_run
  start_run task_id profile run_id status origin = do
    let identifier = or_else run_id (slug_id r.artifacts.casefold "run" (without_task task_id))
    profile_id ← lift (item "id" profile)
    profile_version ← lift (item "profile_version" profile)
    started_at ← reading r
    within (
        insert_runtime_run (record {
          id = identifier;
          task_id = task_id;
          profile_id = to_str r.builtins profile_id;
          profile_version = to_str r.builtins profile_version;
          status = status;
          started_at = started_at;
          completed_at = none;
          artifact_root_uri = r.artifacts.uri_prefix;
          token_budget_total = token_budget_total (as_mapping (find "limits" profile));
          tokens_used_total = 0;
          stop_reason = none;
          profile_artifact_uri = origin.profile_artifact_uri;
          profile_sha256 = origin.profile_sha256;
          profile_generation = origin.profile_generation;
          parent_profile_id = origin.parent_profile_id;
        }))

  unfoldable pub start_step : String → ℕ → String → Option ℕ → Option String → Exec Error Desk Step
  unfolding require_choice slug_id decimal insert_runtime_step
  start_step run_id step_index kind token_budget idempotency_key = do
    lift (require_choice kind step_kinds "kind")
    let number = decimal step_index
    let key = or_else idempotency_key (join run_id (join ":step:" (join number (join ":" kind))))
    started_at ← reading r
    within (
        insert_runtime_step (record {
          id =
              slug_id r.artifacts.casefold "step"
                (join run_id (join "-" (join kind (join "-" number))));
          run_id = run_id;
          step_index = step_index;
          kind = kind;
          status = RunStatus.running;
          started_at = started_at;
          completed_at = none;
          stop_reason = none;
          token_budget = token_budget;
          tokens_used = 0;
          idempotency_key = some key;
          attempt = 1;
        }))

  unfoldable pub complete_step : String → RunStatus → Option String → ℕ → Exec Error Desk Step
  unfolding require_choice update_runtime_step
  complete_step step_id status stop_reason tokens_used = do
    lift (require_reason stop_reason)
    completed_at ← reading r
    complete_with step_id (λ (t : Step). record t {
      status = status;
      completed_at = some completed_at;
      stop_reason = stop_reason;
      tokens_used = tokens_used;
    })

  unfoldable pub complete_run : String → RunStatus → String → ℕ → Exec Error Desk Run
  unfolding require_choice update_runtime_run
  complete_run run_id status stop_reason tokens_used_total = do
    lift (require_reason (some stop_reason))
    completed_at ← reading r
    end_with run_id (λ (x : Run). record x {
      status = status;
      completed_at = some completed_at;
      tokens_used_total = tokens_used_total;
      stop_reason = some stop_reason;
    })
