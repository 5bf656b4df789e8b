-- ===== src/Runtime/ToolGateway/State.antt =====
-- runtime/tool_gateway.py: the state of a gateway, its errors, and what it is created with.
use skill_centric_agent_syst.Base.{
  ℕ, String, Bool, Option, none, some, List, [], ◌∷◌, Dict, Json, str, object, Fields,
}
use skill_centric_agent_syst.Base.Outcome.{Outcome, ok, err}
use skill_centric_agent_syst.Base.Exec.{Exec}
use skill_centric_agent_syst.Runtime.Artifacts.Reading.{Reader}
use skill_centric_agent_syst.Runtime.Enforcement.Profile.{Failure, Containers}
use skill_centric_agent_syst.Runtime.Enforcement.Enforcer.{Enforcer}
use skill_centric_agent_syst.Runtime.Queue.{Error}
use skill_centric_agent_syst.Runtime.FlightRecorder.Desk.{Desk, Recorder}
use skill_centric_agent_syst.Runtime.ToolGateway.Hook.{ToolInvocation}

-- `ToolDeniedError`, `ToolExecutionError`, what the enforcer raises otherwise, and what the
-- recorder, its artifacts and the capture of a gap raise.
pub data GateError : Type 0 where
  tool_denied : String → String → GateError
  tool_failed : String → String → String → Dict Json → GateError
  unchecked : Failure → GateError
  raised : Error → GateError

-- `adapter.invoke(payload)`, which may raise and may change the world.
abbrev pub Adapter : Type 0 → Type 0
Adapter W = Fields → W → Outcome Error Fields × W

pub record Gate (W : Type 0) : Type 0 where
  pub desk : Desk
  pub enforcer : Enforcer
  pub tool_invocations : List ToolInvocation
  pub invocation_index : ℕ
  pub world : W

-- What a gateway is created with.
pub record Gateway (W : Type 0) : Type 0 where
  pub profile : Fields
  pub run_id : String
  pub step_id : String
  pub recorder : Recorder
  pub reader : Reader
  pub adapters : Dict (Adapter W)
  pub redact_sensitive_data : Bool
  pub containers : Containers

pub record ToolInvocationResult : Type 0 where
  pub id : String
  pub tool_name : String
  pub status : String
  pub input_uri : String
  pub output_uri : String
  pub output : Fields

-- What is known when the adapter is about to be called.
pub record Begun : Type 0 where
  pub invocation_id : String
  pub input_uri : String
  pub started_at : String

-- What the call of an adapter gave.
pub record Ran : Type 0 where
  pub output : Fields
  pub status : String
  pub stop_reason : Option String
  pub error_text : String

abbrev pub ran_of : Outcome Error Fields → Ran
ran_of (ok output) = record {
  output = output;
  status = "succeeded";
  stop_reason = none;
  error_text = "";
}
ran_of (err e) = record {
  output = object (("error", str e.message) ∷ ("error_type", str e.class_name) ∷ []);
  status = "failed";
  stop_reason = some "tool_error";
  error_text = e.message;
}

abbrev from_desk : {W A : Type 0} → Gate W → Outcome Error A × Desk → Outcome GateError A × Gate W
from_desk g (ok a, d) = (ok a, record g { desk = d })
from_desk g (err e, d) = (err (raised e), record g { desk = d })

-- A call of the recorder.
unfoldable pub on_desk : {W A : Type 0} → Exec Error Desk A → Exec GateError (Gate W) A
on_desk m g = from_desk g (m g.desk)

-- What the enforcer left and said.
abbrev pub enforced :
    {W : Type 0}
    → Gate W
    → Outcome Failure (Unit {0}) × Enforcer
    → Outcome Failure (Unit {0}) × Gate W
enforced g (r, e) = (r, record g { enforcer = e })
