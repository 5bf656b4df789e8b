-- ===== src/Examples/Guards.antt =====
-- Learned context that runtime/safety_compiler.py holds back.
use skill_centric_agent_syst.Base.{
  String, ◌≡◌, refl, false, [], ◌∷◌, Json, str, arr, nil, cons, object, obj, texts, Fields, get,
  member, keep, same, sorted_set, sort, distinct, insert_sorted, to_str,
}
use skill_centric_agent_syst.Base.Outcome.{ok}
use skill_centric_agent_syst.Composition.TenantAccess.{mappings}
use skill_centric_agent_syst.Runtime.Invariants.{texts_in}
use skill_centric_agent_syst.Runtime.SafetyCompiler.Guard.{
  Match, create, pair_failures, strongest_gate, pairs_of, stronger,
}
use skill_centric_agent_syst.Runtime.SafetyCompiler.{
  SafetyCompilerDecision, compile_learned_authority_prior, matching_pairs,
}
use skill_centric_agent_syst.Runtime.SafetyCompiler.Promotion.{Decided, compile-Decided}
use skill_centric_agent_syst.Runtime.SafetyCompiler.Gates.{Strongest}
use skill_centric_agent_syst.Runtime.SafetyCompiler.Validated.{create-Strongest}
use skill_centric_agent_syst.Examples.Runs.{plain}

abbrev pair : Json
pair = obj (
    object (
      ("pair_id", str "staging-to-production")
      ∷ (
        "forbidden_generalization",
        obj (
            object (
              ("environment", str "production")
              ∷ ("authority_delta", texts ("tool_addition" ∷ []))
              ∷ [])),
      )
      ∷ ("expected_gate", str "reject")
      ∷ []))

abbrev guard : Fields
guard = object (
    ("guard_id", str "semantic-drift-guard")
    ∷ ("authority_invariant", str "learned_context_not_authority")
    ∷ ("default_on_match", str "needs_human_review")
    ∷ ("contrastive_pairs", arr (cons pair nil))
    ∷ [])

abbrev prior : Fields
prior = object (
    ("authority_delta", texts ("tool_addition" ∷ []))
    ∷ ("target_context", obj (object (("environment", str "production") ∷ [])))
    ∷ [])

abbrev matched : Match
matched = record { pair_id = "staging-to-production"; decision = "reject" }

abbrev decision : SafetyCompilerDecision
decision = record {
  decision = "reject";
  automatic_promotion_allowed = false;
  matched_pair_ids = "staging-to-production" ∷ [];
  authority_delta = "tool_addition" ∷ [];
  reviewed_policy_artifacts = [];
  reason = "Learned authority delta matches a forbidden contrastive boundary.";
}

compiled : compile_learned_authority_prior plain guard prior [] ≡ ok decision
unfolding compile_learned_authority_prior mappings texts_in same to_str member keep sorted_set sort
    distinct insert_sorted stronger get pairs_of
compiled = refl

compile-Decided_example : Decided plain guard prior [] decision
compile-Decided_example = compile-Decided plain guard prior [] decision compiled

created : create plain.builtins guard ≡ ok guard
unfolding create same member pair_failures
created = refl

found : matching_pairs plain guard prior ("tool_addition" ∷ []) ≡ ok (matched ∷ [])
unfolding matching_pairs mappings texts_in same to_str member keep pairs_of
found = refl

create-Strongest_example :
    (gate : String) × (strongest_gate (matched ∷ []) ≡ ok gate) × Strongest (matched ∷ []) gate
create-Strongest_example =
    create-Strongest plain guard prior ("tool_addition" ∷ []) matched [] created found
