-- ===== src/Runtime/ToolGateway/Denied.antt =====
-- runtime/tool_gateway.py: what `invoke` does before a tool is called, and the record of a denial.
use skill_centric_agent_syst.Base.{
  ℕ, String, Option, none, some, [], ◌∷◌, join, keys, Json, null, str, obj, object, Fields,
}
use skill_centric_agent_syst.Base.Outcome.{Outcome, ok, err}
use skill_centric_agent_syst.Base.Exec.{Exec, ◌>>=◌, raise, pure}
use skill_centric_agent_syst.Runtime.Artifacts.Writing.{uri_for}
use skill_centric_agent_syst.Runtime.Artifacts.Chunks.{Files}
use skill_centric_agent_syst.Runtime.Enforcement.Profile.{Failure, denied}
use skill_centric_agent_syst.Runtime.Enforcement.Enforcer.{record_tool_invocation}
use skill_centric_agent_syst.Runtime.Store.Records.{Event}
use skill_centric_agent_syst.Runtime.Queue.{Error}
use skill_centric_agent_syst.Runtime.FlightRecorder.Desk.{Desk, Report}
use skill_centric_agent_syst.Runtime.FlightRecorder.Events.{record_event}
use skill_centric_agent_syst.Runtime.CapabilityGaps.{capability_gap_from_enforcement_error}
use skill_centric_agent_syst.Runtime.ToolGateway.Policies.{
  tool_required_data_scopes, tool_required_policies, tool_risk_level,
}
use skill_centric_agent_syst.Runtime.ToolGateway.State.{
  GateError, tool_denied, unchecked, Gate, Gateway, on_desk, enforced,
}

module _ {W : Type 0} (c : Gateway W) where
  abbrev pub report : String → String → Json → Json → Json → Option String → Report
  report event_type actor_role planned execution result stop_reason = record {
    event_type = event_type;
    actor_role = actor_role;
    step_id = some c.step_id;
    planned_action = planned;
    execution = execution;
    result = result;
    stop_reason = stop_reason;
    idempotency_key = none;
    redact = c.redact_sensitive_data;
  }

  abbrev pub event : Report → Exec GateError (Gate W) Event
  event r = on_desk (record_event c.recorder c.run_id r)

  abbrev captured :
      Desk → Outcome Error (Option String × Files) → Outcome Error (Option String) × Desk
  captured d (ok (uri, files)) = (ok uri, record d { files = files })
  captured d (err e) = (err e, d)

  -- `capability_gap_from_enforcement_error` of a denied tool
  unfoldable pub capture_gap : String → String → String → Exec Error Desk (Option String)
  unfolding capability_gap_from_enforcement_error join keys
  capture_gap tool_name stop code d =
      let evidence =
        uri_for c.recorder.artifacts (
          "events" ∷ c.run_id ∷ join c.step_id (join "-" (join tool_name "-access-denied")) ∷ []) in
      captured d (
        capability_gap_from_enforcement_error c.containers.builtins c.recorder.artifacts c.run_id
          c.profile c.step_id tool_name stop code (evidence ∷ []) (keys c.adapters) d.files)

  abbrev denied_result : String → Option String → Json
  denied_result code none = obj (object (("effect", str "deny") ∷ ("reason", str code) ∷ []))
  denied_result code (some uri) = obj (
      object (
        ("effect", str "deny")
        ∷ ("reason", str code)
        ∷ ("capability_gap_candidate_uri", str uri)
        ∷ []))

  -- `_record_denied_access`
  unfoldable pub record_denied_access :
      String → Fields → String → String → Exec GateError (Gate W) Event
  unfolding capture_gap
  record_denied_access tool_name payload stop code = do
    uri ← on_desk (capture_gap tool_name stop code)
    event (
        report "access_attempted" "policy_engine"
          (obj (object (("tool_name", str tool_name) ∷ ("payload", obj payload) ∷ []))) null
          (denied_result code uri) (some stop))

  -- What `invoke` does with what the enforcer said.
  abbrev pub decide :
      String → Fields → Outcome Failure (Unit {0}) → Exec GateError (Gate W) (Unit {0})
  decide tool_name payload (ok u) = pure tt
  decide tool_name payload (err (denied stop code)) =
      record_denied_access tool_name payload stop code >>= λ e. raise (tool_denied stop code)
  decide tool_name payload (err other) = raise (unchecked other)

  -- The first part of `invoke`; `now` is the clock of the enforcer.
  unfoldable pub authorize : ℕ → String → Fields → Exec GateError (Gate W) (Unit {0})
  unfolding record_denied_access record_tool_invocation
  authorize now tool_name payload g =
      let (said, after) = enforced g (
        record_tool_invocation c.containers now tool_name (tool_required_data_scopes tool_name)
          (tool_required_policies tool_name) (tool_risk_level tool_name) g.enforcer) in
      decide tool_name payload said after
