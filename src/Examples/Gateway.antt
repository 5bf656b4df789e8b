-- ===== src/Examples/Gateway.antt =====
-- A tool that runtime/tool_gateway.py invokes, in a world that counts the calls.
use skill_centric_agent_syst.Base.{
  ℕ, suc, Json, ◌≡◌, refl, false, some, [], ◌∷◌, ◌⊎◌, pos, int, str, obj, object, texts, Fields,
  get, member, missing, same, to_str, to_int, take, values, insert,
}
use skill_centric_agent_syst.Base.Outcome.{ok, for_each}
use skill_centric_agent_syst.Base.Exec
use skill_centric_agent_syst.Runtime.Enforcement.Profile.{
  risk_rank, contains, iterate, limit_of, require_tool, require_tool_risk, require_policy,
  require_data_scopes,
}
use skill_centric_agent_syst.Runtime.Enforcement.Enforcer.{
  check_duration, increment_limit, record_tool_invocation,
}
use skill_centric_agent_syst.Runtime.Artifacts.Chunks.{length}
use skill_centric_agent_syst.Runtime.FlightRecorder.Events.{record_event}
use skill_centric_agent_syst.Runtime.ToolGateway.Policies.{
  tool_required_data_scopes, tool_required_policies, tool_risk_level,
}
use skill_centric_agent_syst.Runtime.ToolGateway.State.{
  Adapter, Gate, Gateway, ToolInvocationResult, on_desk,
}
use skill_centric_agent_syst.Runtime.ToolGateway.{
  begin, next_invocation, run, store_run, conclude, evaluate_hook, finish, invoke,
}
use skill_centric_agent_syst.Runtime.ToolGateway.Denied.{authorize}
use skill_centric_agent_syst.Runtime.ToolGateway.Once.{Permitted, Called, invoke_once}
use skill_centric_agent_syst.Runtime.ToolGateway.Returned.{Succeeded, invoke-Succeeded}
use skill_centric_agent_syst.Examples.Runs.{plain}
use skill_centric_agent_syst.Examples.Recorder.{recorder, desk}

abbrev git_read : Adapter ℕ
git_read payload calls = (ok (object (("text", str "log") ∷ [])), suc calls)

abbrev profile : Fields
profile = object (
    ("tools", texts ("git-read" ∷ []))
    ∷ ("data_scopes", texts ("repository-readonly" ∷ []))
    ∷ (
      "limits",
      obj (
          object (
            ("max_tool_calls", int (pos 1))
            ∷ ("max_data_reads", int (pos 2))
            ∷ ("max_duration_seconds", int (pos 60))
            ∷ [])),
    )
    ∷ [])

abbrev gateway : Gateway ℕ
gateway = record {
  profile = profile;
  run_id = "run-1";
  step_id = "step-1";
  recorder = recorder;
  reader = record { below_root = λ s. some s; loads = λ bytes. ok Json.null };
  adapters = ("git-read", git_read) ∷ [];
  redact_sensitive_data = false;
  containers = plain;
}

abbrev gate : Gate ℕ
gate = record {
  desk = desk;
  enforcer = record {
    profile = profile;
    started_at = 0;
    tool_calls = 0;
    tokens_used = 0;
    data_reads = 0;
    memory_ops = 0;
    recomposition_requests = 0;
  };
  tool_invocations = [];
  invocation_index = 0;
  world = 0;
}

abbrev result : ToolInvocationResult
result = record {
  id = "tool-run-1-git-read-0";
  tool_name = "git-read";
  status = "succeeded";
  input_uri = "hetzner://runtime/tool-outputs/run-1/tool-run-1-git-read-0-input.json";
  output_uri = "hetzner://runtime/tool-outputs/run-1/tool-run-1-git-read-0-output.json";
  output = object (("text", str "log") ∷ []);
}

abbrev after : Gate ℕ
after = (invoke gateway 30 "git-read" Fields.end gate).1

invoked : invoke gateway 30 "git-read" Fields.end gate ≡ (ok result, after)
unfolding invoke authorize begin run finish on_desk record_tool_invocation Exec.◌>>=◌ check_duration
    require_tool require_tool_risk require_policy require_data_scopes for_each increment_limit
    limit_of contains iterate to_int same risk_rank to_str missing member evaluate_hook store_run
    conclude next_invocation record_event length tool_required_data_scopes tool_required_policies
    tool_risk_level values take get insert
invoked = refl

invoke-Succeeded_example : Succeeded gateway 30 "git-read" Fields.end gate after result
invoke-Succeeded_example =
    invoke-Succeeded gateway 30 "git-read" Fields.end gate after result invoked

invoke_once_example :
    (after.world ≡ gate.world)
    ⊎ (Permitted gateway 30 "git-read" Fields.end gate.enforcer
        × Called gateway 30 "git-read" Fields.end gate.world after.world)
invoke_once_example = invoke_once gateway 30 "git-read" Fields.end gate after (ok result) invoked
