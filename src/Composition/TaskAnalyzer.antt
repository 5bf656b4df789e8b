-- ===== src/Composition/TaskAnalyzer.antt =====
-- composition/task_analyzer.py: `TaskAnalyzer.analyze`. `casefold` and the class `\w` are Python's.
pub mod Types
pub mod Signals
pub mod Intake
pub mod Claims
pub mod Identity
pub mod Routing
pub mod Risk
pub mod Request
use Prim.Native.Char.{Char}
use skill_centric_agent_syst.Base.{String, Bool, not, List, Fields, keep, member}
use skill_centric_agent_syst.Base.Outcome.{Outcome, ok, ◌>>=◌}
use skill_centric_agent_syst.Runtime.Enforcement.Profile.{Failure, Containers}
use Types.{AnalyzedTask, dedupe}
use Signals.{classify_task}
use Intake.{
  objective_of, task_id_of, repository_context, domains_of, required_inputs_of, available_inputs_of,
  capability_hints_of, constraints_of, risk_level_of,
}
use Claims.{auth_claims_of}

module _ (py : Containers) (casefold : String → String) (is_word : Char → Bool) where
  unfoldable pub analyze : Fields → Outcome Failure AnalyzedTask
  analyze task = do
    let objective = objective_of task
    let classification = classify_task is_word casefold objective
    let task_type = classification.task_type
    let repository = repository_context task
    let constraints = constraints_of py.builtins task classification
    let required = required_inputs_of casefold task_type objective repository
    let available = available_inputs_of casefold task_type objective repository task
    claims ← auth_claims_of py casefold task task_type
    ok (record {
      task_id = task_id_of casefold task objective;
      task_type = task_type;
      objective = objective;
      risk_level = risk_level_of casefold task_type objective constraints;
      domains = domains_of task_type repository;
      required_inputs = required;
      available_inputs = available;
      capability_hints = capability_hints_of casefold task_type objective;
      constraints = constraints;
      missing_information = keep (λ i. not (member i available)) required;
      auth_claims = claims;
      classification_confidence = classification.confidence;
      classification_reasons = classification.reasons;
      ambiguous_task_types = classification.ambiguous_task_types;
      requires_human_review = classification.requires_human_review;
    })
