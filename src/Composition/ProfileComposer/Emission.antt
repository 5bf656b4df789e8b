-- ===== src/Composition/ProfileComposer/Emission.antt =====
-- composition/profile_composer.py: the JSON object of a profile, from what was selected.
use skill_centric_agent_syst.Base.{
  ℕ, String, Option, List, [], ◌∷◌, ◌++◌, Dict, pos, Json, object, bool, int, str, obj, Fields,
  texts, true, false,
}
use skill_centric_agent_syst.Base.Outcome.{Outcome, ok, ◌>>=◌}
use skill_centric_agent_syst.Composition.TaskAnalyzer.Types.{AnalyzedTask}
use skill_centric_agent_syst.Composition.TaskAnalyzer.Request.{confidence_word}
use skill_centric_agent_syst.Composition.ProfileComposer.Settings.{default_capture_events}
use skill_centric_agent_syst.Composition.ProfileComposer.References.{CompositionError, SkillRoles}
use skill_centric_agent_syst.Composition.ProfileComposer.Context.{
  text_object, optional_text, risk_word, profile_id, trace_id, pins_from, auth_context,
  tenant_context, tenant_authority_snapshot,
}

-- What the two objects of `human_review` differ in.
abbrev review_object : AnalyzedTask → Json → String → String → List String → Fields
review_object task required status reason allowed = object (
    ("required", required)
    ∷ ("status", str status)
    ∷ ("reason", str reason)
    ∷ ("ambiguous_task_types", texts task.ambiguous_task_types)
    ∷ ("classification_confidence", str (confidence_word task.classification_confidence))
    ∷ ("classification_reasons", texts task.classification_reasons)
    ∷ ("allowed_before_approval", texts allowed)
    ∷ [])

-- `_human_review_required`
abbrev pub human_review_required : AnalyzedTask → Fields
human_review_required task =
    review_object task (bool true) "required"
      "Task classification matched multiple specialized task types; specialized runtime composition requires human approval."
      ("profile_validation" ∷ "audit_recording" ∷ "clarification_request" ∷ [])

-- `_human_review_not_required`
abbrev pub human_review_not_required : AnalyzedTask → Fields
human_review_not_required task =
    review_object task (bool false) "not_required" "Analyzer did not require human review." []

-- The modules that a profile selects, in the order of `selected_modules`.
pub record Selection : Type 0 where
  pub instructions : List String
  pub skills : List String
  pub tools : List String
  pub knowledge_scopes : List String
  pub data_scopes : List String
  pub memory_scopes : List String
  pub policies : List String
  pub validators : List String

abbrev pub all_selected : Selection → List String
all_selected s =
    s.instructions
    ++ (s.skills
        ++ (s.tools
            ++ (s.knowledge_scopes
                ++ (s.data_scopes ++ (s.memory_scopes ++ (s.policies ++ s.validators))))))

-- `selected_by_field`
abbrev pub selected_by_field : Selection → Dict (List String)
selected_by_field s =
    ("instructions", s.instructions)
    ∷ ("skills", s.skills)
    ∷ ("tools", s.tools)
    ∷ ("knowledge_scopes", s.knowledge_scopes)
    ∷ ("data_scopes", s.data_scopes)
    ∷ ("memory_scopes", s.memory_scopes)
    ∷ ("policies", s.policies)
    ∷ ("validators", s.validators)
    ∷ []

abbrev pub roles_object : SkillRoles → Fields
roles_object r = object (
    ("runtime_skills", texts r.runtime_skills)
    ∷ ("non_runtime_skills", texts r.non_runtime_skills)
    ∷ ("shared_skills", texts r.shared_skills)
    ∷ [])

-- How a profile came about.
pub record Lineage : Type 0 where
  pub generation : ℕ
  pub parent_profile_id : Option String
  pub recomposition_reason : Option String

-- What the profile of a task for a person's review has otherwise than that of any other task.
pub record Terms : Type 0 where
  pub human_review : Fields
  pub limits : Fields
  pub failure_policy : Fields

-- The object of a profile.
unfoldable pub profile_object :
    AnalyzedTask → Lineage → Terms → Json → Selection → SkillRoles → Dict String → Fields
unfolding profile_id trace_id
profile_object task lineage terms authority s roles pins = object (
    ("id", str (profile_id task.task_id lineage.generation))
    ∷ ("profile_version", str "0.6.0")
    ∷ ("profile_generation", int (pos lineage.generation))
    ∷ ("parent_profile_id", optional_text lineage.parent_profile_id)
    ∷ ("recomposition_reason", optional_text lineage.recomposition_reason)
    ∷ ("task_type", str task.task_type)
    ∷ ("objective", str task.objective)
    ∷ ("risk_level", str (risk_word task.risk_level))
    ∷ ("auth_context", obj (auth_context task.auth_claims))
    ∷ ("tenant_context", obj (tenant_context task.auth_claims))
    ∷ ("tenant_authority", authority)
    ∷ ("human_review", obj terms.human_review)
    ∷ ("instructions", texts s.instructions)
    ∷ ("skills", texts s.skills)
    ∷ ("skill_execution_roles", obj (roles_object roles))
    ∷ ("tools", texts s.tools)
    ∷ ("knowledge_scopes", texts s.knowledge_scopes)
    ∷ ("data_scopes", texts s.data_scopes)
    ∷ ("memory_scopes", texts s.memory_scopes)
    ∷ ("policies", texts s.policies)
    ∷ ("validators", texts s.validators)
    ∷ ("module_versions", obj (text_object pins))
    ∷ ("limits", obj terms.limits)
    ∷ ("failure_policy", obj terms.failure_policy)
    ∷ (
      "observability",
      obj (
          object (
            ("trace_id", str (trace_id task.task_id))
            ∷ ("log_level", str "info")
            ∷ ("capture_events", texts default_capture_events)
            ∷ ("redact_sensitive_data", bool true)
            ∷ [])),
    )
    ∷ [])

-- The dict display of a profile: its authority is read first, then its pins.
unfoldable pub emit :
    AnalyzedTask
    → Fields
    → Lineage
    → Terms
    → Dict String
    → Selection
    → SkillRoles
    → Outcome CompositionError Fields
unfolding tenant_authority_snapshot pins_from
emit task context_response lineage terms versions s roles = do
  authority ← tenant_authority_snapshot task.auth_claims context_response
  pins ← pins_from versions task.task_type (all_selected s) []
  ok (profile_object task lineage terms authority s roles pins)
