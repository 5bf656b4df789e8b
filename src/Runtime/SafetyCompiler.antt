-- ===== src/Runtime/SafetyCompiler.antt =====
-- runtime/safety_compiler.py: the gate that learned context has to pass before it changes authority.
pub mod Guard
pub mod Gates
pub mod Validated
pub mod Promotion
use skill_centric_agent_syst.Base.{
  String, Bool, true, false, not, ◌&&◌, Option, none, some, List, [], ◌∷◌, ◌++◌, map, if◌then◌else◌,
  ◌==◌, member, missing, is_empty, keep, join, join_with, sorted_set, Json, object, null, str, bool,
  obj, Fields, end, field, find, as_mapping, as_list, as_text, texts, to_str, same, is_blank,
}
use skill_centric_agent_syst.Base.Outcome.{Outcome, ok, err, check, ◌>>=◌, ◌>>◌}
use skill_centric_agent_syst.Runtime.Enforcement.Profile.{Containers, find_or, empty_list}
use skill_centric_agent_syst.Runtime.Queue.{Error, key_error}
use skill_centric_agent_syst.Composition.TaskAnalyzer.Types.{strip}
use skill_centric_agent_syst.Runtime.SafetyCompiler.Guard.{
  mapping_or_empty, text_elements, item, authority_deltas, pairs_of, strongest_gate, Match,
}

pub record SafetyCompilerDecision : Type 0 where
  pub decision : String
  pub automatic_promotion_allowed : Bool
  pub matched_pair_ids : List String
  pub authority_delta : List String
  pub reviewed_policy_artifacts : List String
  pub reason : String

-- `{key: value for key, value in forbidden.items() if key != "authority_delta"}`
unfoldable pub without_delta : Fields → Fields
without_delta end = end
without_delta (field k v fs) =
    let rest = without_delta fs in if k == "authority_delta" then rest else field k v rest

-- `a & b` of two sets is not empty.
abbrev meets : List String → List String → Bool
meets xs ys = not (is_empty (keep (λ x. member x ys) xs))

abbrev ids_of : List Match → List String
ids_of [] = []
ids_of (m ∷ ms) = m.pair_id ∷ ids_of ms

-- The artifacts that were reviewed, without the blank ones.
unfoldable pub reviewed : List String → List String
unfolding sorted_set strip is_blank keep
reviewed artifacts = sorted_set (map strip (keep (λ a. not (is_blank a)) artifacts))

module _ (py : Containers) (guard_policy : Fields) where
  -- `_context_contains`
  unfoldable pub context_contains : Fields → Fields → Bool
  context_contains actual end = true
  context_contains actual (field k v fs) =
      same py.builtins (find k actual) v && context_contains actual fs

  -- The test of one pair in `_matching_pairs`.
  unfoldable pub is_match : Fields → List String → Fields → Outcome Error Bool
  unfolding text_elements context_contains without_delta keep member
  is_match prior delta pair = do
    let forbidden = mapping_or_empty (find "forbidden_generalization" pair)
    forbidden_deltas ← text_elements py (find_or "authority_delta" empty_list forbidden)
    ok (
        context_contains (mapping_or_empty (find "source_context" prior))
          (mapping_or_empty (find "positive_context" pair))
        && context_contains (mapping_or_empty (find "target_context" prior))
            (without_delta forbidden)
        && meets delta forbidden_deltas)

  abbrev pub match_of : Fields → Outcome Error Match
  match_of pair = do
    id ← item "pair_id" pair
    gate ← item "expected_gate" pair
    ok (record { pair_id = to_str py.builtins id; decision = to_str py.builtins gate })

  abbrev pub add_match : Bool → Fields → Outcome Error (List Match) → Outcome Error (List Match)
  add_match true pair later = match_of pair >>= λ m. (later >>= λ ms. ok (m ∷ ms))
  add_match false pair later = later

  unfoldable pub matches_from : Fields → List String → List Fields → Outcome Error (List Match)
  matches_from prior delta [] = ok []
  matches_from prior delta (pair ∷ pairs) = do
    found ← is_match prior delta pair
    let later = matches_from prior delta pairs
    add_match found pair later

  -- `_matching_pairs`
  unfoldable pub matching_pairs : Fields → List String → Outcome Error (List Match)
  unfolding matches_from is_match
  matching_pairs prior delta = matches_from prior delta (pairs_of guard_policy)

  abbrev pub ranking_only : List String → List String → String → SafetyCompilerDecision
  ranking_only delta artifacts reason = record {
    decision = "allow_ranking_only";
    automatic_promotion_allowed = true;
    matched_pair_ids = [];
    authority_delta = delta;
    reviewed_policy_artifacts = artifacts;
    reason = reason;
  }

  abbrev blocked :
      String → List String → List String → List String → String → SafetyCompilerDecision
  blocked gate ids delta artifacts reason = record {
    decision = gate;
    automatic_promotion_allowed = false;
    matched_pair_ids = ids;
    authority_delta = delta;
    reviewed_policy_artifacts = artifacts;
    reason = reason;
  }

  -- The decision on a delta that is not empty, from the pairs that match.
  unfoldable pub decide :
      List String → List String → List Match → Outcome Error SafetyCompilerDecision
  unfolding strongest_gate
  decide delta artifacts (m ∷ ms) = do
    gate ← strongest_gate (m ∷ ms)
    ok (
        blocked gate (ids_of (m ∷ ms)) delta artifacts
          "Learned authority delta matches a forbidden contrastive boundary.")
  decide delta [] [] =
      ok (blocked "reject" [] delta [] "Learned authority delta has no reviewed policy artifact.")
  decide delta (a ∷ artifacts) [] = ok (
      ranking_only delta (a ∷ artifacts)
        "Authority delta is bound to reviewed policy artifacts; learned context remains ranking-only.")

  -- The authority that a prior asks for.
  unfoldable pub delta_of : Fields → Outcome Error (List String)
  unfolding text_elements sorted_set
  delta_of prior = do
    asked ← text_elements py (find_or "authority_delta" empty_list prior)
    ok (sorted_set asked)

  -- `compile_learned_authority_prior`
  unfoldable pub compile_learned_authority_prior :
      Fields → List String → Outcome Error SafetyCompilerDecision
  unfolding delta_of matching_pairs decide reviewed
  compile_learned_authority_prior prior artifacts = do
    delta ← delta_of prior
    let none_asked =
        ranking_only [] (reviewed artifacts)
          "Learned context changes ranking only and carries no authority delta."
    let decided = matching_pairs prior delta >>= λ ms. decide delta (reviewed artifacts) ms
    if is_empty delta then ok none_asked else decided

  -- `SafetyCompilerDecision.as_dict`
  abbrev as_dict : SafetyCompilerDecision → Fields
  as_dict d = object (
      ("decision", str d.decision)
      ∷ ("automatic_promotion_allowed", bool d.automatic_promotion_allowed)
      ∷ ("matched_pair_ids", texts d.matched_pair_ids)
      ∷ ("authority_delta", texts d.authority_delta)
      ∷ ("reviewed_policy_artifacts", texts d.reviewed_policy_artifacts)
      ∷ ("reason", str d.reason)
      ∷ [])

  -- `compile_decision_report`
  unfoldable pub compile_decision_report : Fields → List String → Outcome Error Fields
  unfolding compile_learned_authority_prior
  compile_decision_report prior artifacts = do
    d ← compile_learned_authority_prior prior artifacts
    guard_id ← item "guard_id" guard_policy
    invariant ← item "authority_invariant" guard_policy
    ok (
        object (
          ("contract_version", str "0.1.0")
          ∷ ("report_kind", str "semantic_drift_guard_decision")
          ∷ ("guard_id", str (to_str py.builtins guard_id))
          ∷ ("authority_invariant", str (to_str py.builtins invariant))
          ∷ ("source_context", obj (mapping_or_empty (find "source_context" prior)))
          ∷ ("target_context", obj (mapping_or_empty (find "target_context" prior)))
          ∷ ("authority_delta", texts d.authority_delta)
          ∷ ("matched_contrastive_pair_ids", texts d.matched_pair_ids)
          ∷ ("final_gate", str d.decision)
          ∷ ("automatic_promotion_allowed", bool d.automatic_promotion_allowed)
          ∷ ("decision", obj (as_dict d))
          ∷ ("safe_for_release_evidence", bool true)
          ∷ ("raw_runtime_trace_included", bool false)
          ∷ []))
