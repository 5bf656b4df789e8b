-- ===== src/Composition/ProfileComposer/Settings.antt =====
-- composition/profile_composer.py: the constants of a profile.
use skill_centric_agent_syst.Base.{
  String, List, [], ◌∷◌, ◌==◌, if◌then◌else◌, Dict, pos, int, str, object, Fields,
}

-- `DEFAULT_LIMITS`
abbrev pub default_limits : Fields
default_limits = object (
    ("max_tool_calls", int (pos 30))
    ∷ ("max_tokens", int (pos 60000))
    ∷ ("max_duration_seconds", int (pos 900))
    ∷ ("max_data_reads", int (pos 120))
    ∷ ("max_memory_ops", int (pos 10))
    ∷ ("max_recompositions", int (pos 1))
    ∷ [])

-- `HUMAN_REVIEW_LIMITS`
abbrev pub human_review_limits : Fields
human_review_limits = object (
    ("max_tool_calls", int (pos 0))
    ∷ ("max_tokens", int (pos 60000))
    ∷ ("max_duration_seconds", int (pos 900))
    ∷ ("max_data_reads", int (pos 0))
    ∷ ("max_memory_ops", int (pos 0))
    ∷ ("max_recompositions", int (pos 0))
    ∷ [])

-- `DEFAULT_FAILURE_POLICY`
abbrev pub default_failure_policy : Fields
default_failure_policy = object (
    ("on_composer_failure", str "request_clarification")
    ∷ ("on_validator_failure", str "fail_closed")
    ∷ ("on_policy_denial", str "return_error")
    ∷ ("on_budget_exhausted", str "return_error")
    ∷ [])

-- `HUMAN_REVIEW_FAILURE_POLICY`
abbrev pub human_review_failure_policy : Fields
human_review_failure_policy = object (
    ("on_composer_failure", str "fail_closed")
    ∷ ("on_validator_failure", str "fail_closed")
    ∷ ("on_policy_denial", str "fail_closed")
    ∷ ("on_budget_exhausted", str "return_error")
    ∷ [])

-- `DEFAULT_CAPTURE_EVENTS`
abbrev pub default_capture_events : List String
default_capture_events =
    "task_analyzed" ∷ "candidates_discovered" ∷ "candidates_scored" ∷ "policies_evaluated"
    ∷ "graph_validated" ∷ "profile_emitted" ∷ "profile_validated" ∷ "runtime_completed" ∷ []

-- `BASELINE_MODULE_VERSIONS`
abbrev pub baseline_module_versions : Dict String
baseline_module_versions = ("base-agent-rules", "0.1.0") ∷ ("runtime-profile-schema", "0.1.0") ∷ []

-- `TASK_INSTRUCTION_VERSIONS.get(task_type, {})`
abbrev pub task_instruction_versions : String → Dict String
task_instruction_versions task_type =
    if task_type == "code-review" then ("code-review-rules", "0.1.0") ∷ [] else []
