-- ===== src/Composition/ProfileComposer/Checks.antt =====
-- composition/profile_composer.py: what has to hold before a profile is put together,
-- `_assert_recomposition_traceability` and `_assert_composable`.
use skill_centric_agent_syst.Base.{
  String, Bool, true, false, not, ◌&&◌, ◌||◌, Option, none, some, List, [], ◌∷◌, if◌then◌else◌,
  ◌==◌, member, is_empty, join, join_with, Dict, get, insert, ℤ, pos, negsuc, zero, suc, Json, null,
  str, bool, arr, obj, Fields, find, has_key, as_mapping, as_list, as_text, Builtins, to_str, same,
  truthy,
}
use skill_centric_agent_syst.Base.Outcome.{Outcome, ok, err, check, some_or, for_each, ◌>>=◌, ◌>>◌}
use skill_centric_agent_syst.Runtime.Enforcement.Profile.{find_or, empty_list}
use skill_centric_agent_syst.Composition.TaskAnalyzer.Types.{AnalyzedTask}
use skill_centric_agent_syst.Composition.ProfileComposer.References.{
  CompositionError, rejected, key_error, type_error, references, graph_references, policy_decisions,
  is_kind,
}

-- `RECOMPOSITION_REASONS`
abbrev pub recomposition_reasons : List String
recomposition_reasons =
    "task_reclassified" ∷ "missing_capability" ∷ "policy_change" ∷ "budget_exhausted"
    ∷ "validator_failure" ∷ []

abbrev is_none {ℓ} : {A : Type ℓ} → Option A → Bool
is_none none = true
is_none (some a) = false

-- The part of the check that is about a profile that was recomposed.
unfoldable pub check_recomposed :
    Option String → Option String → Outcome CompositionError (Unit {0})
check_recomposed none reason =
    err (rejected "Recomposed profiles require parent_profile_id and recomposition_reason.")
check_recomposed (some parent) none =
    err (rejected "Recomposed profiles require parent_profile_id and recomposition_reason.")
check_recomposed (some parent) (some reason) = check (member reason recomposition_reasons) (
    rejected (
      join
        "recomposition_reason must be one of: budget_exhausted, missing_capability, policy_change, task_reclassified, validator_failure. Got: "
        (join reason ".")))

-- `_assert_recomposition_traceability`
unfoldable pub assert_recomposition_traceability :
    ℤ → Option String → Option String → Outcome CompositionError (Unit {0})
unfolding check_recomposed
assert_recomposition_traceability (negsuc n) parent reason =
    err (rejected "profile_generation must be greater than zero.")
assert_recomposition_traceability (pos zero) parent reason =
    err (rejected "profile_generation must be greater than zero.")
assert_recomposition_traceability (pos (suc zero)) parent reason =
    check (is_none parent && is_none reason)
      (rejected "Initial profiles cannot include recomposition traceability.")
assert_recomposition_traceability (pos (suc (suc n))) parent reason = check_recomposed parent reason

-- `_requires_knowledge_context`
abbrev pub requires_knowledge_context : AnalyzedTask → Bool
requires_knowledge_context task =
    (task.task_type == "research") || member "retrieval" task.capability_hints

-- `v is True`
abbrev is_true : Json → Bool
is_true (bool true) = true
is_true _ = false

-- The texts that `"; ".join` takes; `none` where one of them is none.
unfoldable pub all_texts : List Json → Option (List String)
all_texts [] = some []
all_texts (v ∷ vs) =
    let rest = all_texts vs in
    elim (as_text v) [ none ↦ none | some s ↦ elim rest [ none ↦ none | some ss ↦ some (s ∷ ss) ] ]

abbrev graph_failed : CompositionError
graph_failed = rejected "Control Plane graph validation failed."

abbrev joined_errors : Option (List String) → CompositionError
joined_errors none = type_error
joined_errors (some errors) =
    rejected (join "Control Plane graph validation failed: " (join_with "; " errors))

-- What is raised where the graph is not valid.
unfoldable pub graph_error : Option (List Json) → CompositionError
unfolding all_texts
graph_error none = graph_failed
graph_error (some []) = graph_failed
graph_error (some (v ∷ vs)) = joined_errors (all_texts (v ∷ vs))

unfoldable pub check_graph : Json → Outcome CompositionError (Unit {0})
unfolding graph_error
check_graph v = do
  graph ← some_or (as_mapping v) (rejected "Control Plane response is missing graph validation.")
  check (is_true (find "is_valid" graph))
      (graph_error (as_list (find_or "errors" empty_list graph)))

-- `policy_effects[name] = effect`; only a text is ever looked up.
abbrev pub add_effect : Json → Json → Dict Json → Outcome CompositionError (Dict Json)
add_effect (str name) effect d = ok (insert name effect d)
add_effect (arr vs) effect d = err type_error
add_effect (obj fs) effect d = err type_error
add_effect v effect d = ok d

abbrev pub read_decision : Fields → Option Fields → Dict Json → Outcome CompositionError (Dict Json)
read_decision decision none d = ok d
read_decision decision (some m) d = do
  check (has_key "name" m) (key_error "name")
  check (has_key "effect" decision) (key_error "effect")
  add_effect (find "name" m) (find "effect" decision) d

unfoldable pub effects_from : List Fields → Dict Json → Outcome CompositionError (Dict Json)
effects_from [] d = ok d
effects_from (decision ∷ rest) d = do
  next ← read_decision decision (as_mapping (find "module" decision)) d
  effects_from rest next

module _ (py : Builtins) where
  -- `policy_effects.get(str(name))`
  abbrev pub effect_of : Json → Dict Json → Option Json
  effect_of name effects = get (to_str py name) effects

  -- A candidate may be used where no decision is about it, or one allows it.
  abbrev pub not_refused : Option Json → Bool
  not_refused none = true
  not_refused (some null) = true
  not_refused (some effect) = same py effect (str "allow")

  -- A tool of the graph has to be allowed.
  abbrev pub is_allowed : Option Json → Bool
  is_allowed none = false
  is_allowed (some effect) = same py effect (str "allow")

  abbrev effect_text : Option Json → String
  effect_text none = "None"
  effect_text (some effect) = to_str py effect

  abbrev effect_or_missing : Option Json → String
  effect_or_missing none = "missing"
  effect_or_missing (some effect) = if truthy py effect then to_str py effect else "missing"

  unfoldable pub check_candidate : Dict Json → Fields → Outcome CompositionError (Unit {0})
  check_candidate effects m = do
    check (has_key "name" m) (key_error "name")
    let effect = effect_of (find "name" m) effects
    check (not_refused effect) (
        rejected (
          join "Candidate module " (
            join (to_str py (find "name" m))
              (join " is not policy-allowed: " (join (effect_text effect) ".")))))

  unfoldable pub check_graph_tool : Dict Json → Fields → Outcome CompositionError (Unit {0})
  check_graph_tool effects m =
      if is_kind py "tool" m
      then check (has_key "name" m) (key_error "name")
        >> check (is_allowed (effect_of (find "name" m) effects)) (
            rejected (
              join "Selected tool " (
                join (to_str py (find "name" m)) (
                  join " is not policy-allowed: "
                    (join (effect_or_missing (effect_of (find "name" m) effects)) ".")))))
      else ok tt

  -- The last part of `_assert_composable`.
  unfoldable pub check_policies : Fields → Outcome CompositionError (Unit {0})
  unfolding effects_from check_candidate check_graph_tool for_each
  check_policies context_response = do
    effects ← effects_from (policy_decisions context_response) []
    for_each (check_candidate effects) (references context_response "candidate_modules")
    for_each (check_graph_tool effects) (graph_references context_response)

  unfoldable pub check_knowledge : AnalyzedTask → Fields → Outcome CompositionError (Unit {0})
  check_knowledge task context_response =
      check
        (not (
          requires_knowledge_context task
          && not (is_empty (references context_response "allowed_memory_scopes"))
          && is_empty (references context_response "allowed_knowledge_scopes")))
        (rejected
          "Memory scopes cannot substitute for knowledge scopes on research or retrieval tasks.")

  -- `_assert_composable`
  unfoldable pub assert_composable : AnalyzedTask → Fields → Outcome CompositionError (Unit {0})
  unfolding check_graph check_policies check_knowledge
  assert_composable task context_response = do
    check (is_empty task.missing_information) (
        rejected (
          join "Cannot compose profile; missing required inputs: "
            (join (join_with ", " task.missing_information) ".")))
    let status = find "composition_status" context_response
    check (same py status (str "ready")) (
        rejected
          (join "Control Plane composition status is not ready: " (join (to_str py status) ".")))
    check_graph (find "graph_validation" context_response)
    check
        (not (is_empty (references context_response "candidate_modules"))
          || task.requires_human_review)
        (rejected "Control Plane returned no candidate modules.")
    if task.requires_human_review
        then ok tt
        else check_knowledge task context_response >> check_policies context_response
