-- ===== src/Examples/Recorder.antt =====
-- A run that runtime/flight_recorder.py records, and a quota that runtime/quotas.py reserves.
use skill_centric_agent_syst.Base.{
  ◌≤◌, ◌≡◌, refl, true, none, List, [], ◌∷◌, tally, null, str, int, pos, obj, Fields, field, end,
  take, values,
}
use skill_centric_agent_syst.Base.Outcome.{ok}
use skill_centric_agent_syst.Base.Exec
use skill_centric_agent_syst.Runtime.Store.{empty}
use skill_centric_agent_syst.Runtime.Store.Records.{Reservation, ReservationStatus}
use skill_centric_agent_syst.Runtime.Store.Recording.{is_at}
use skill_centric_agent_syst.Runtime.FlightRecorder.Desk.{Desk, Recorder, Report}
use skill_centric_agent_syst.Runtime.FlightRecorder.Calls.{
  Call, step_starts, event, checkpoint_made, perform_all, perform_all-once,
}
use skill_centric_agent_syst.Runtime.Quotas.{RuntimeQuotaConfig, requested_of, reserve}
use skill_centric_agent_syst.Runtime.Quotas.Limits.{AreSound}
use skill_centric_agent_syst.Runtime.Quotas.Bounds.{reserve-AreSound}
use skill_centric_agent_syst.Runtime.Artifacts.Redaction.{is_sensitive_key, redact_sensitive_string}
use skill_centric_agent_syst.Runtime.Artifacts.Chunks.{length}
use skill_centric_agent_syst.Examples.Runs.{plain}
use skill_centric_agent_syst.Examples.Artifacts.{artifacts}

abbrev pub recorder : Recorder
recorder = record {
  artifacts = artifacts;
  clock = λ n. "2026-01-01T10:00:00Z";
  builtins = plain.builtins;
}

abbrev pub desk : Desk
desk = record { store = empty; files = []; readings = 0 }

abbrev started : Report
started = record {
  event_type = "runtime_started";
  actor_role = "runtime";
  step_id = none;
  planned_action = null;
  execution = null;
  result = str "ok";
  stop_reason = none;
  idempotency_key = none;
  redact = true;
}

abbrev unknown : Report
unknown = record started { event_type = "lunch" }

abbrev calls : List Call
calls =
    event "run-1" started
    ∷ step_starts "run-1" 0 "planner" none none
    ∷ event "run-1" unknown
    ∷ checkpoint_made "run-1" "planner" (str "state") none 5 true
    ∷ []

perform_all-once_example :
    tally (is_at "run-1" 1) (perform_all recorder calls desk).store.runtime_events ≤ 1
perform_all-once_example = perform_all-once recorder calls desk "run-1" 1 refl

abbrev profile : Fields
profile =
    field "limits"
      (obj (field "max_tokens" (int (pos 700)) (field "max_tool_calls" (int (pos 3)) end))) end

abbrev config : RuntimeQuotaConfig
config = record {
  tenant_token_limits_per_minute = ("acme", pos 1000) ∷ [];
  tenant_tool_call_limits_per_minute = [];
}

abbrev reservation : Reservation
reservation = record {
  id = "quota-q1-run-1-2026-01-01-10-00";
  queue_id = "q1";
  run_id = "run-1";
  tenant_id = "acme";
  quota_window = "2026-01-01T10:00";
  reserved_tokens = pos 700;
  reserved_tool_calls = pos 3;
  status = ReservationStatus.reserved;
  created_at = "2026-01-01T10:00:00Z";
  finalized_at = none;
}

abbrev after : Desk
after = (reserve recorder "q1" "run-1" "acme" profile config desk).1

made : reserve recorder "q1" "run-1" "acme" profile config desk ≡ (ok reservation, after)
unfolding reserve Exec.◌>>=◌ values is_sensitive_key length redact_sensitive_string
made = refl

reserve-AreSound_example :
    AreSound "acme" "2026-01-01T10:00" config after.store.runtime_quota_reservations
unfolding requested_of values take
reserve-AreSound_example =
    reserve-AreSound recorder "q1" "run-1" "acme" profile config 700 3 desk after reservation
      (tt, tt) refl refl made
