-- ===== src/Composition/ProfileComposer.antt =====
-- composition/profile_composer.py: `RuntimeProfileComposer`.
pub mod References
pub mod Checks
pub mod Settings
pub mod Context
pub mod Emission
use skill_centric_agent_syst.Base.{
  String, not, Option, List, [], ◌∷◌, ◌++◌, if◌then◌else◌, is_empty, Dict, ℤ, pos, negsuc, Fields,
  Builtins, keys, ℕ,
}
use skill_centric_agent_syst.Base.Outcome.{Outcome, ok, err, check, ◌>>=◌, ◌>>◌}
use skill_centric_agent_syst.Composition.TaskAnalyzer.Types.{AnalyzedTask}
use skill_centric_agent_syst.Composition.TenantAccess.{
  AccessError, refused, key_error, unhashable, validate,
}
use skill_centric_agent_syst.Composition.ProfileComposer.References.{
  CompositionError, rejected, type_error, references, graph_references, names, names_of,
  versions_from, unique, skill_execution_roles, SkillRoles,
}
use skill_centric_agent_syst.Composition.ProfileComposer.References
use skill_centric_agent_syst.Composition.ProfileComposer.Checks.{
  assert_recomposition_traceability, assert_composable,
}
use skill_centric_agent_syst.Composition.ProfileComposer.Settings.{
  default_limits, default_failure_policy, human_review_limits, human_review_failure_policy,
  task_instruction_versions,
}
use skill_centric_agent_syst.Composition.ProfileComposer.Emission.{
  Selection, Lineage, Terms, emit, selected_by_field, human_review_required,
  human_review_not_required,
}

-- `TenantAccessError` becomes a `CompositionError`; what else is raised goes on.
abbrev composition_error : AccessError → CompositionError
composition_error (refused message) = rejected message
composition_error (AccessError.key_error k) = CompositionError.key_error k
composition_error unhashable = type_error

abbrev as_composition : Outcome AccessError (Unit {0}) → Outcome CompositionError (Unit {0})
as_composition (ok u) = ok tt
as_composition (err e) = err (composition_error e)

abbrev pub generation_of : ℤ → ℕ
generation_of (pos n) = n
generation_of (negsuc n) = 0

abbrev pub lineage_of : ℤ → Option String → Option String → Lineage
lineage_of generation parent reason = record {
  generation = generation_of generation;
  parent_profile_id = parent;
  recomposition_reason = reason;
}

-- `version_by_name` in `compose`
unfoldable pub version_by_name : Fields → Dict String
unfolding versions_from
version_by_name context_response =
    versions_from
      (references context_response "candidate_modules"
        ++ (references context_response "applicable_policies"
            ++ (references context_response "allowed_knowledge_scopes"
                ++ (references context_response "allowed_data_scopes"
                    ++ (references context_response "allowed_memory_scopes"
                        ++ (references context_response "validation_requirements"
                            ++ graph_references context_response))))))
      []

abbrev pub no_roles : SkillRoles
no_roles = record { runtime_skills = []; non_runtime_skills = []; shared_skills = [] }

abbrev pub policies_of : Fields → List String
policies_of context_response = unique (names (references context_response "applicable_policies"))

abbrev pub review_selection : Fields → Selection
review_selection context_response = record {
  instructions = "base-agent-rules" ∷ [];
  skills = [];
  tools = [];
  knowledge_scopes = [];
  data_scopes = [];
  memory_scopes = [];
  policies = policies_of context_response;
  validators = "runtime-profile-schema" ∷ [];
}

abbrev pub review_terms : AnalyzedTask → Terms
review_terms task = record {
  human_review = human_review_required task;
  limits = human_review_limits;
  failure_policy = human_review_failure_policy;
}

abbrev pub default_terms : AnalyzedTask → Terms
default_terms task = record {
  human_review = human_review_not_required task;
  limits = default_limits;
  failure_policy = default_failure_policy;
}

abbrev pub require_policies : List String → Outcome CompositionError (Unit {0})
require_policies policies =
    check (not (is_empty policies)) (rejected "Control Plane returned no applicable policies.")

-- `_human_review_profile`
unfoldable pub human_review_profile :
    AnalyzedTask → Fields → Lineage → Outcome CompositionError Fields
unfolding emit version_by_name
human_review_profile task context_response lineage = do
  require_policies (policies_of context_response)
  emit task context_response lineage (review_terms task) (version_by_name context_response)
      (review_selection context_response) no_roles

module _ (py : Builtins) where
  abbrev pub candidates : Fields → List Fields
  candidates context_response = references context_response "candidate_modules"

  -- What `compose` selects for a task that no person has to review.
  unfoldable pub selection : AnalyzedTask → Fields → Selection
  unfolding names unique names_of
  selection task context_response = record {
    instructions = unique (
        "base-agent-rules"
        ∷ (keys (task_instruction_versions task.task_type)
            ++ names_of py "instruction" (candidates context_response)));
    skills = unique (names_of py "skill" (candidates context_response));
    tools = unique (
        names_of py "tool" (candidates context_response)
        ++ names_of py "tool" (graph_references context_response));
    knowledge_scopes = unique (names (references context_response "allowed_knowledge_scopes"));
    data_scopes = unique (names (references context_response "allowed_data_scopes"));
    memory_scopes = unique (names (references context_response "allowed_memory_scopes"));
    policies = policies_of context_response;
    validators =
        unique (
          "runtime-profile-schema" ∷ names (references context_response "validation_requirements"));
  }

  -- `_assert_tenant_access`
  unfoldable pub assert_tenant_access :
      AnalyzedTask → Fields → Selection → Outcome CompositionError (Unit {0})
  assert_tenant_access task context_response s =
      as_composition (validate py task.auth_claims context_response (selected_by_field s))

  -- `compose` of a task that a person has to review
  unfoldable pub compose_review : AnalyzedTask → Fields → Lineage → Outcome CompositionError Fields
  unfolding human_review_profile assert_tenant_access
  compose_review task context_response lineage = do
    profile ← human_review_profile task context_response lineage
    assert_tenant_access task context_response (review_selection context_response)
    ok profile

  -- `compose` of any other task
  unfoldable pub compose_default : AnalyzedTask → Fields → Lineage → Outcome CompositionError Fields
  unfolding selection emit version_by_name assert_tenant_access skill_execution_roles
  compose_default task context_response lineage = do
    let s = selection task context_response
    roles ← skill_execution_roles py (candidates context_response) s.skills
    require_policies s.policies
    assert_tenant_access task context_response s
    emit task context_response lineage (default_terms task) (version_by_name context_response) s
        roles

  -- `compose`
  unfoldable pub compose :
      AnalyzedTask → Fields → ℤ → Option String → Option String → Outcome CompositionError Fields
  unfolding compose_review compose_default assert_recomposition_traceability assert_composable
  compose task context_response generation parent reason = do
    assert_recomposition_traceability generation parent reason
    assert_composable py task context_response
    let lineage = lineage_of generation parent reason
    if task.requires_human_review
        then compose_review task context_response lineage
        else compose_default task context_response lineage
