-- ===== src/Examples/Profiles.antt =====
-- Profiles that composition/profile_composer.py puts together.
use skill_centric_agent_syst.Base.{
  ℕ, suc, String, ◌≡◌, ◌≢◌, refl, Bool, true, false, none, [], ◌∷◌, List, pos, Json, object, str,
  bool, obj, arr, nil, cons, Fields, get, insert, keys, member, keep, same, to_str,
}
use skill_centric_agent_syst.Base.Outcome.{ok, for_each}
use skill_centric_agent_syst.Composition.TaskAnalyzer.Types.{AnalyzedTask, RiskLevel, Confidence}
use skill_centric_agent_syst.Composition.TenantAccess.{validate, mappings}
use skill_centric_agent_syst.Composition.ProfileComposer.References.{
  references, graph_references, policy_decisions, names, versions_from, unique,
}
use skill_centric_agent_syst.Composition.ProfileComposer.Emission.{profile_object}
use skill_centric_agent_syst.Composition.ProfileComposer.{
  compose, selection, version_by_name, lineage_of, review_terms, review_selection, default_terms,
  no_roles,
}
use skill_centric_agent_syst.Composition.Profiles.Sealed.{compose_sealed}
use skill_centric_agent_syst.Composition.Profiles.Review.{compose-reviewed}
use skill_centric_agent_syst.Composition.Profiles.Policies.{PolicyAllowed, compose-PolicyAllowed}
use skill_centric_agent_syst.Runtime.Invariants.{
  assert_fail_closed_on_unknowns, assert_no_self_granting, assert_immutable_profile_after_seal,
}
use skill_centric_agent_syst.Runtime.Enforcement.Enforcer.{
  Enforcer, record_tool_invocation, record_data_read, record_memory_op,
  record_recomposition_request,
}
use skill_centric_agent_syst.Examples.Runs.{plain}
use skill_centric_agent_syst.Examples.Access.{claims}

abbrev task : Bool → AnalyzedTask
task review = record {
  task_id = "task-1";
  task_type = "code-review";
  objective = "Review the change";
  risk_level = RiskLevel.low;
  domains = [];
  required_inputs = [];
  available_inputs = [];
  capability_hints = [];
  constraints = [];
  missing_information = [];
  auth_claims = record claims { tenant_id = "global" };
  classification_confidence = Confidence.high;
  classification_reasons = [];
  ambiguous_task_types = [];
  requires_human_review = review;
}

abbrev reference : String → String → Json
reference kind name =
    obj (object (("kind", str kind) ∷ ("name", str name) ∷ ("version", str "1.0.0") ∷ []))

abbrev allowed : String → Json
allowed name =
    obj (object (("module", obj (object (("name", str name) ∷ []))) ∷ ("effect", str "allow") ∷ []))

abbrev response : Fields
response = object (
    ("composition_status", str "ready")
    ∷ (
      "graph_validation",
      obj (
          object (
            ("is_valid", bool true)
            ∷ ("reachable_modules", arr (cons (reference "tool" "git-read") nil))
            ∷ [])),
    )
    ∷ ("candidate_modules", arr (cons (reference "skill" "review") nil))
    ∷ ("applicable_policies", arr (cons (reference "policy" "read-only") nil))
    ∷ ("policy_decisions", arr (cons (allowed "git-read") nil))
    ∷ [])

abbrev made : Bool → Fields
made true =
    profile_object (task true) (lineage_of (pos 1) none none) (review_terms (task true)) Json.null
      (review_selection response) no_roles
      (("base-agent-rules", "0.1.0")
        ∷ ("read-only", "1.0.0")
        ∷ ("runtime-profile-schema", "0.1.0")
        ∷ [])
made false =
    profile_object (task false) (lineage_of (pos 1) none none) (default_terms (task false))
      Json.null (selection plain.builtins (task false) response)
      (record { runtime_skills = "review" ∷ []; non_runtime_skills = []; shared_skills = [] })
      (("base-agent-rules", "0.1.0")
        ∷ ("code-review-rules", "0.1.0")
        ∷ ("review", "1.0.0")
        ∷ ("git-read", "1.0.0")
        ∷ ("read-only", "1.0.0")
        ∷ ("runtime-profile-schema", "0.1.0")
        ∷ [])

composed_review : compose plain.builtins (task true) response (pos 1) none none ≡ ok (made true)
unfolding compose mappings version_by_name references graph_references unique names versions_from
    same to_str get insert member keep validate
composed_review = refl

composed_default : compose plain.builtins (task false) response (pos 1) none none ≡ ok (made false)
unfolding compose mappings version_by_name references graph_references unique names versions_from
    same to_str get insert member keep validate for_each selection policy_decisions keys
composed_default = refl

compose_sealed_example :
    (assert_fail_closed_on_unknowns (made false) ≡ [])
    × (assert_no_self_granting (made false) ≡ [])
    × (assert_immutable_profile_after_seal plain.builtins (made false) ≡ [])
compose_sealed_example =
    compose_sealed plain.builtins (task false) response (pos 1) none none (made false) refl
      composed_default

compose-PolicyAllowed_example : PolicyAllowed plain.builtins response (made false)
compose-PolicyAllowed_example =
    compose-PolicyAllowed plain.builtins (task false) response (pos 1) none none (made false) refl
      composed_default

abbrev enforcer : Enforcer
enforcer = record {
  profile = made true;
  started_at = 0;
  tool_calls = 0;
  tokens_used = 0;
  data_reads = 0;
  memory_ops = 0;
  recomposition_requests = 0;
}

compose-reviewed_example :
    ((now : ℕ) (tool_name : String) (scopes policies : List String) (risk : String) (f : Enforcer)
      → record_tool_invocation plain now tool_name scopes policies risk enforcer ≢ (ok tt, f))
    × ((n : ℕ) (f : Enforcer) → record_data_read plain (pos (suc n)) enforcer ≢ (ok tt, f))
    × ((n : ℕ) (f : Enforcer) → record_memory_op plain (pos (suc n)) enforcer ≢ (ok tt, f))
    × ((f : Enforcer) → record_recomposition_request plain enforcer ≢ (ok tt, f))
compose-reviewed_example =
    compose-reviewed plain (task true) response (pos 1) none none enforcer refl composed_review
