-- ===== src/Examples/Gaps.antt =====
-- A denial that runtime/capability_gaps.py captures, and an error that runtime/error_taxonomy.py judges.
use skill_centric_agent_syst.Base.{
  String, ◌≡◌, refl, true, none, some, [], ◌∷◌, if◌then◌else◌, ◌⊎◌, Json, str, object, obj, Fields,
  member, keep, sorted_set, sort, distinct, insert_sorted, same, truthy,
}
use skill_centric_agent_syst.Base.Outcome.{ok}
use skill_centric_agent_syst.Runtime.CapabilityGaps.{
  Denial, candidate_of, build_capability_gap_candidate, is_eligible_denial,
  validate_capability_gap_candidate,
}
use skill_centric_agent_syst.Runtime.CapabilityGaps.Captured.{
  Captured, build-Captured, build_returns,
}
use skill_centric_agent_syst.Runtime.ErrorTaxonomy.{
  ErrorClassification, apply_optional_llm_judge, judge_verdict,
}
use skill_centric_agent_syst.Runtime.ErrorTaxonomy.Judged.{IsKnown, judge-Judged}
use skill_centric_agent_syst.Examples.Runs.{plain}

abbrev same_text : String → String
same_text s = s

abbrev denial : Denial
denial = record {
  run_id = "run-1";
  profile_id = "profile-1";
  source_step_id = "step-1";
  blocking_predicate = "tool_not_in_runtime_profile";
  capability_kind = "tool";
  capability_id = "git-read";
  stop_reason = "policy_denied";
  evidence_uris = "hetzner://runtime/events/run-1.json" ∷ [];
  known_capability_ids = "git-read" ∷ [];
  sensitivity = "internal";
}

captured :
    build_capability_gap_candidate same_text plain.builtins denial
    ≡ ok (some (candidate_of same_text denial))
unfolding build_capability_gap_candidate is_eligible_denial validate_capability_gap_candidate
    candidate_of member keep sorted_set sort distinct insert_sorted same truthy
captured = refl

build-Captured_example : Captured same_text plain.builtins denial (candidate_of same_text denial)
build-Captured_example =
    build-Captured same_text plain.builtins denial (candidate_of same_text denial) captured

build_returns_example :
    build_capability_gap_candidate same_text plain.builtins denial
    ≡ ok
        (if is_eligible_denial same_text denial then some (candidate_of same_text denial) else none)
unfolding member keep
build_returns_example = build_returns same_text plain.builtins denial refl refl refl

abbrev base : ErrorClassification
base = record {
  error_class = "NONE";
  error_confidence = "low";
  classification_source = "rule_based_runtime_v1";
  error_evidence = [];
  runtime_playbook = "generic_runtime_error_path";
}

abbrev verdict : Fields → Json
verdict asked = obj (
    object (
      ("error_class", str "F1_INEFFICIENCY_PATH")
      ∷ ("error_confidence", str "medium")
      ∷ ("runtime_playbook", str "shorten")
      ∷ []))

abbrev judged : ErrorClassification
judged = record {
  error_class = "F1_INEFFICIENCY_PATH";
  error_confidence = "medium";
  classification_source = "llm_judge_v1";
  error_evidence = ("llm_judge_evidence", obj (object [])) ∷ [];
  runtime_playbook = "shorten";
}

asked : apply_optional_llm_judge base true (some verdict) Fields.end ≡ ok judged
unfolding apply_optional_llm_judge judge_verdict
asked = refl

judge-Judged_example :
    (judged ≡ base)
    ⊎ ((true ≡ true)
        × (base.error_confidence ≡ "low")
        × IsKnown judged
        × (judged.classification_source ≡ "llm_judge_v1"))
judge-Judged_example = judge-Judged base true (some verdict) Fields.end judged asked
