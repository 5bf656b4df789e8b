-- ===== src/Runtime/ToolGateway/Hook.antt =====
-- runtime/tool_gateway.py: the hook after a tool, which reads back what was written.
use skill_centric_agent_syst.Base.{
  String, Bool, true, false, not, ◌||◌, Option, none, some, List, [], ◌∷◌, ◌++◌, if◌then◌else◌,
  ◌==◌, is_empty, begins, join, Dict, insert, Json, null, bool, str, obj, object, texts, find,
  has_key, Builtins, same,
}
use skill_centric_agent_syst.Base.Outcome.{Outcome, ok, err}
use skill_centric_agent_syst.Runtime.Artifacts.Chunks.{Files}
use skill_centric_agent_syst.Runtime.Artifacts.Reading.{Reader, read_json}
use skill_centric_agent_syst.Runtime.Store.Records.{Event}
use skill_centric_agent_syst.Runtime.Queue.{Error}

-- A stored tool invocation.
pub record ToolInvocation : Type 0 where
  pub id : String
  pub run_id : String
  pub step_id : String
  pub tool_name : String
  pub status : String
  pub input_uri : String
  pub output_uri : String
  pub started_at : String
  pub completed_at : String

-- `violations` and `evidence`, which the hook adds to.
pub record Findings : Type 0 where
  pub violations : List String
  pub evidence : Dict Json

abbrev violate : String → Findings → Findings
violate v f = record f { violations = f.violations ++ (v ∷ []) }

abbrev violate_if : Bool → String → Findings → Findings
violate_if b v f = if b then violate v f else f

abbrev read_back : String → Findings → Outcome Error Json → Json × Findings
read_back label f (ok v) = (v, f)
read_back label f (err e) = (
  null,
  record {
    violations = f.violations ++ (join label "_artifact_unreadable" ∷ []);
    evidence = insert (join label "_artifact_error") (str e.class_name) f.evidence;
  },
)

module _ (reader : Reader) (uri_prefix : String) (files : Files) where
  -- `_read_hook_artifact`
  unfoldable pub read_hook_artifact : Option String → String → Findings → Json × Findings
  unfolding read_json join insert
  read_hook_artifact none label f = (null, violate (join label "_artifact_missing") f)
  read_hook_artifact (some String.[]) label f = (null, violate (join label "_artifact_missing") f)
  read_hook_artifact (some (String.◌∷◌ c s)) label f =
      read_back label f (read_json reader uri_prefix files (String.◌∷◌ c s))

abbrev is_mapping : Json → Bool
is_mapping (obj fs) = true
is_mapping v = false

abbrev any_begins : String → List String → Bool
any_begins p [] = false
any_begins p (v ∷ vs) = begins p v || any_begins p vs

-- `a != b` of two texts, one of which may be missing
abbrev differs : Option String → String → Bool
differs none s = true
differs (some t) s = not (t == s)

abbrev optional : Option String → Json
optional none = null
optional (some s) = str s

module _ (py : Builtins) where
  -- `_check_mapping_field`
  unfoldable pub check_mapping_field : Json → String → Json → String → Findings → Findings
  check_mapping_field (obj fs) name expected violation f =
      violate_if (not (same py (find name fs) expected)) violation f
  check_mapping_field payload name expected violation f = f

  abbrev lacks_output : Json → Bool
  lacks_output (obj fs) = not (has_key "output" fs)
  lacks_output v = false

-- What a hook is about.
pub record Finished : Type 0 where
  pub run_id : String
  pub step_id : String
  pub tool_name : String
  pub status : String
  pub input_uri : String
  pub output_uri : String
  pub redact : Bool
  pub invocation : ToolInvocation
  pub completed : Event

abbrev first_evidence : Finished → Dict Json
first_evidence t =
    ("hook_id", str "runtime-after-tool")
    ∷ ("tool_id", str t.tool_name)
    ∷ ("tool_invocation_id", str t.invocation.id)
    ∷ ("tool_invocation_status", str t.status)
    ∷ ("artifact_reference", str t.output_uri)
    ∷ ("audit_event_id", str t.completed.id)
    ∷ ("redaction_status", str (if t.redact then "applied" else "not_required"))
    ∷ ("checks", obj (object []))
    ∷ []

module _ (t : Finished) where
  -- The loop over `expected_invocation`.
  unfoldable pub check_invocation : Findings → Findings
  check_invocation f0 =
      let f1 =
        violate_if (not (t.invocation.run_id == t.run_id)) "tool_invocation_run_id_mismatch" f0 in
      let f2 =
        violate_if (not (t.invocation.step_id == t.step_id)) "tool_invocation_step_id_mismatch"
          f1 in
      let f3 =
        violate_if (not (t.invocation.tool_name == t.tool_name))
          "tool_invocation_tool_name_mismatch" f2 in
      let f4 =
        violate_if (not (t.invocation.status == t.status)) "tool_invocation_status_mismatch" f3 in
      let f5 =
        violate_if (not (t.invocation.input_uri == t.input_uri))
          "tool_invocation_input_uri_mismatch" f4 in
      violate_if (not (t.invocation.output_uri == t.output_uri))
        "tool_invocation_output_uri_mismatch" f5

  -- The checks of the completed event's own fields.
  unfoldable pub check_event : Findings → Findings
  check_event f0 =
      let f1 =
        violate_if (not (t.completed.event_type == "tool_invocation_completed"))
          "audit_event_type_mismatch" f0 in
      let f2 =
        violate_if (not (t.completed.actor_role == "executor")) "audit_event_actor_mismatch" f1 in
      violate_if (differs t.completed.step_id t.step_id) "audit_event_step_mismatch" f2

  module _ (py : Builtins) where
    -- The checks of the two artifacts of the tool.
    unfoldable pub check_artifacts : Json → Json → Findings → Findings
    unfolding check_mapping_field
    check_artifacts input_payload output_payload f0 =
        let f1 =
          check_mapping_field py input_payload "tool_name" (str t.tool_name)
            "input_artifact_tool_mismatch" f0 in
        let f2 =
          check_mapping_field py output_payload "tool_name" (str t.tool_name)
            "output_artifact_tool_mismatch" f1 in
        let f3 =
          check_mapping_field py output_payload "status" (str t.status)
            "output_artifact_status_mismatch" f2 in
        violate_if (lacks_output py output_payload) "output_artifact_payload_missing" f3

    -- The checks of the two artifacts of the completed event.
    unfoldable pub check_event_artifacts : Json → Json → Findings → Findings
    unfolding check_mapping_field
    check_event_artifacts execution_payload result_payload f0 =
        let f1 =
          check_mapping_field py execution_payload "tool_invocation_id" (str t.invocation.id)
            "audit_event_invocation_mismatch" f0 in
        let f2 =
          check_mapping_field py execution_payload "status" (str t.status)
            "audit_event_status_mismatch" f1 in
        let f3 =
          check_mapping_field py result_payload "tool_name" (str t.tool_name)
            "audit_event_tool_mismatch" f2 in
        check_mapping_field py result_payload "output_uri" (str t.output_uri)
          "audit_event_output_uri_mismatch" f3

    -- The last three entries of the evidence.
    abbrev concluded : Json → Json → Findings → Findings
    concluded input_payload output_payload f =
        let checks = obj (
          object (
            ("input_artifact_readable", bool (is_mapping input_payload))
            ∷ ("output_artifact_readable", bool (is_mapping output_payload))
            ∷ ("tool_invocation_persisted", bool (not (any_begins "tool_invocation_" f.violations)))
            ∷ ("audit_event_persisted", bool (not (any_begins "audit_event_" f.violations)))
            ∷ [])) in
        let status = str (if is_empty f.violations then "passed" else "failed") in
        record f {
          evidence =
              insert "violations" (texts f.violations)
                (insert "status" status (insert "checks" checks f.evidence));
        }

    module _ (reader : Reader) (uri_prefix : String) (files : Files) where
      -- What `_evaluate_runtime_after_tool_hook` finds, before it records it.
      unfoldable pub evaluate : Findings
      unfolding read_hook_artifact check_artifacts check_invocation check_event
          check_event_artifacts begins insert
      evaluate =
          let read = read_hook_artifact reader uri_prefix files in
          let (input_payload, f1) =
            read (some t.input_uri) "input"
              (record { violations = []; evidence = first_evidence t }) in
          let (output_payload, f2) = read (some t.output_uri) "output" f1 in
          let (execution_payload, f3) =
            read t.completed.execution_uri "completed_event_execution" f2 in
          let (result_payload, f4) = read t.completed.result_uri "completed_event_result" f3 in
          concluded input_payload output_payload (
            check_event_artifacts execution_payload result_payload
              (check_event (check_invocation (check_artifacts input_payload output_payload f4))))
