-- ===== src/Runtime/ToolGateway.antt =====
-- runtime/tool_gateway.py: `ToolGateway`. The state is the desk of the recorder, the enforcer, the
-- stored invocations, the count of invocations, and the world that adapters act on.
pub mod Policies
pub mod Hook
pub mod State
pub mod Denied
pub mod Keeps
pub mod Once
pub mod Returned
use skill_centric_agent_syst.Base.{
  ℕ, suc, String, Bool, true, false, Option, none, some, List, [], ◌∷◌, ◌++◌, if◌then◌else◌,
  is_empty, join, join_with, Dict, get, keys, Json, null, str, obj, object, texts, Fields,
}
use skill_centric_agent_syst.Base.Outcome.{Outcome, ok, err, some_or}
use skill_centric_agent_syst.Base.Exec.{Exec, ◌>>=◌, ◌>>◌, lift, raise, pure, puts, gets}
use skill_centric_agent_syst.Runtime.Models.Slug.{slug_id, decimal}
use skill_centric_agent_syst.Runtime.Artifacts.Writing.{uri_for}
use skill_centric_agent_syst.Runtime.Artifacts.Chunks.{Files}
use skill_centric_agent_syst.Runtime.Artifacts.Reading.{Reader}
use skill_centric_agent_syst.Runtime.Enforcement.Profile.{Failure, denied, Containers}
use skill_centric_agent_syst.Runtime.Enforcement.Enforcer.{Enforcer, record_tool_invocation}
use skill_centric_agent_syst.Runtime.Store.Records.{Event}
use skill_centric_agent_syst.Runtime.Queue.{Error}
use skill_centric_agent_syst.Runtime.FlightRecorder.Desk.{Desk, Recorder, Report, write, reading}
use skill_centric_agent_syst.Runtime.FlightRecorder.Events.{record_event}
use skill_centric_agent_syst.Runtime.CapabilityGaps.{capability_gap_from_enforcement_error}
use skill_centric_agent_syst.Runtime.ToolGateway.Policies.{
  tool_required_data_scopes, tool_required_policies, tool_risk_level,
}
use skill_centric_agent_syst.Runtime.ToolGateway.Hook.{ToolInvocation, Findings, Finished, evaluate}
use skill_centric_agent_syst.Runtime.ToolGateway.State.{
  GateError, tool_denied, tool_failed, unchecked, raised, Adapter, Gate, Gateway,
  ToolInvocationResult, Begun, Ran, ran_of, on_desk, enforced,
}
use skill_centric_agent_syst.Runtime.ToolGateway.Denied.{report, event, authorize}

module _ {W : Type 0} (c : Gateway W) where
  abbrev pub adapter_missing : String → GateError
  adapter_missing tool_name =
      tool_failed (join "No adapter is registered for tool: " tool_name) "tool_adapter_missing"
        "tool_error" []

  -- `self._invocation_index += 1`, and the id that was made before
  unfoldable pub next_invocation : String → Exec GateError (Gate W) String
  unfolding slug_id join decimal
  next_invocation tool_name g = (
    ok (
        slug_id c.recorder.artifacts.casefold "tool"
          (join c.run_id (join "-" (join tool_name (join "-" (decimal g.invocation_index)))))),
    record g { invocation_index = suc g.invocation_index },
  )

  abbrev planned : String → String → Json
  planned tool_name input_uri =
      obj (object (("tool_name", str tool_name) ∷ ("input_uri", str input_uri) ∷ []))

  -- The artifact of the input and the two events before the call.
  unfoldable pub begin : String → Fields → Exec GateError (Gate W) Begun
  unfolding next_invocation
  begin tool_name payload = do
    invocation_id ← next_invocation tool_name
    input_uri ← on_desk (
        write c.recorder ("tool_outputs" ∷ c.run_id ∷ join invocation_id "-input" ∷ [])
          (obj (object (("tool_name", str tool_name) ∷ ("payload", obj payload) ∷ [])))
          c.redact_sensitive_data)
    started_at ← on_desk (reading c.recorder)
    allowed ← event c (
        report c "access_attempted" "policy_engine" (planned tool_name input_uri) null
          (obj (
            object (
              ("effect", str "allow")
              ∷ ("risk_level", str (tool_risk_level tool_name))
              ∷ ("required_data_scopes", texts (tool_required_data_scopes tool_name))
              ∷ ("required_policies", texts (tool_required_policies tool_name))
              ∷ [])))
          none)
    started ←
        event c (
          report c "tool_invocation_started" "executor" (planned tool_name input_uri) null null
            none)
    pure (record { invocation_id = invocation_id; input_uri = input_uri; started_at = started_at })

  -- The call of the adapter.
  unfoldable pub run : Adapter W → Fields → Exec GateError (Gate W) Ran
  run adapter payload g =
      let (r, w) = adapter payload g.world in (ok (ran_of r), record g { world = w })

  -- `insert_tool_invocation`
  unfoldable pub insert_tool_invocation : ToolInvocation → Exec GateError (Gate W) ToolInvocation
  insert_tool_invocation i g =
      (ok i, record g { tool_invocations = g.tool_invocations ++ (i ∷ []) })

  -- The end of the hook: its event, and what it raises.
  unfoldable pub conclude : Finished → Findings → Exec GateError (Gate W) (Unit {0})
  unfolding join join_with
  conclude t f = do
    recorded ← event c (
        report c "runtime_after_tool_hook_evaluated" "policy_engine" null
          (obj (
            object (
              ("hook_id", str "runtime-after-tool")
              ∷ ("tool_invocation_id", str t.invocation.id)
              ∷ [])))
          (obj (object f.evidence)) (if is_empty f.violations then none else some "policy_denied"))
    if is_empty f.violations
        then pure tt
        else raise (
            tool_failed (join "runtime-after-tool hook failed: " (join_with ", " f.violations))
              "runtime_after_tool_hook_failed" "policy_denied" f.evidence)

  -- `_evaluate_runtime_after_tool_hook`
  unfoldable pub evaluate_hook : Finished → Exec GateError (Gate W) (Unit {0})
  unfolding evaluate
  evaluate_hook t g =
      conclude t
        (evaluate t c.containers.builtins c.reader c.recorder.artifacts.uri_prefix g.desk.files) g

  -- The artifact of the output and the stored invocation.
  unfoldable pub store_run : String → Begun → Ran → Exec GateError (Gate W) ToolInvocation
  unfolding insert_tool_invocation
  store_run tool_name b r = do
    output_uri ← on_desk (
        write c.recorder ("tool_outputs" ∷ c.run_id ∷ join b.invocation_id "-output" ∷ [])
          (obj (
            object (
              ("tool_name", str tool_name)
              ∷ ("status", str r.status)
              ∷ ("output", obj r.output)
              ∷ [])))
          c.redact_sensitive_data)
    completed_at ← on_desk (reading c.recorder)
    insert_tool_invocation (record {
      id = b.invocation_id;
      run_id = c.run_id;
      step_id = c.step_id;
      tool_name = tool_name;
      status = r.status;
      input_uri = b.input_uri;
      output_uri = output_uri;
      started_at = b.started_at;
      completed_at = completed_at;
    })

  abbrev error_details : Fields → Dict Json
  error_details Fields.end = []
  error_details (Fields.field k v fs) = (k, v) ∷ error_details fs

  abbrev pub result_of : String → ToolInvocation → Ran → ToolInvocationResult
  result_of tool_name i r = record {
    id = i.id;
    tool_name = tool_name;
    status = r.status;
    input_uri = i.input_uri;
    output_uri = i.output_uri;
    output = r.output;
  }

  -- The last test of `invoke`: only a call that succeeded has no stop reason.
  abbrev pub returned :
      String → ToolInvocation → Ran → Option String → Outcome GateError ToolInvocationResult
  returned tool_name i r none = ok (result_of tool_name i r)
  returned tool_name i r (some stop) = err (
      tool_failed (join "Tool " (join tool_name (join " failed: " r.error_text)))
        "tool_execution_failed" "tool_error" (error_details r.output))

  -- What the hook is told.
  abbrev pub finished : String → Begun → Ran → ToolInvocation → Event → Finished
  finished tool_name b r invocation completed = record {
    run_id = c.run_id;
    step_id = c.step_id;
    tool_name = tool_name;
    status = r.status;
    input_uri = b.input_uri;
    output_uri = invocation.output_uri;
    redact = c.redact_sensitive_data;
    invocation = invocation;
    completed = completed;
  }

  abbrev completed_report : String → Begun → Ran → ToolInvocation → Report
  completed_report tool_name b r invocation =
      report c "tool_invocation_completed" "executor" null
        (obj (object (("tool_invocation_id", str b.invocation_id) ∷ ("status", str r.status) ∷ [])))
        (obj
          (object (("tool_name", str tool_name) ∷ ("output_uri", str invocation.output_uri) ∷ [])))
        r.stop_reason

  -- The part of `invoke` after the call.
  unfoldable pub finish : String → Begun → Ran → Exec GateError (Gate W) ToolInvocationResult
  finish tool_name b r = do
    invocation ← store_run tool_name b r
    completed ← event c (completed_report tool_name b r invocation)
    evaluate_hook (finished tool_name b r invocation completed)
    lift (returned tool_name invocation r r.stop_reason)

  -- `invoke`
  unfoldable pub invoke : ℕ → String → Fields → Exec GateError (Gate W) ToolInvocationResult
  invoke now tool_name payload = do
    authorize c now tool_name payload
    adapter ← lift (some_or (get tool_name c.adapters) (adapter_missing tool_name))
    b ← begin tool_name payload
    r ← run adapter payload
    finish tool_name b r
