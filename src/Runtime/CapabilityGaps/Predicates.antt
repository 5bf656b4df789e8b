-- ===== src/Runtime/CapabilityGaps/Predicates.antt =====
-- runtime/capability_gaps.py: the predicates that block a run, and what each asks for.
use skill_centric_agent_syst.Base.{String, ◌||◌, List, [], ◌∷◌, if◌then◌else◌, ◌==◌, begins, occurs}

-- `ELIGIBLE_BLOCKING_PREDICATES`
abbrev pub eligible_blocking_predicates : List String
eligible_blocking_predicates =
    "tool_not_in_runtime_profile" ∷ "tool_risk_exceeds_profile" ∷ "policy_not_in_runtime_profile"
    ∷ "data_scope_not_in_runtime_profile" ∷ "knowledge_scope_not_in_runtime_profile"
    ∷ "memory_scope_not_in_runtime_profile" ∷ "max_tool_calls_exceeded" ∷ "max_tokens_exceeded"
    ∷ "max_data_reads_exceeded" ∷ "max_memory_ops_exceeded" ∷ "max_recompositions_exceeded"
    ∷ "validator_failed" ∷ "selected_module_version_missing" ∷ "module_version_mismatch" ∷ []

-- `EXCLUDED_BLOCKING_PREDICATES`
abbrev pub excluded_blocking_predicates : List String
excluded_blocking_predicates = "secret_candidate" ∷ "secret_scope_requested" ∷ "unknown_tool" ∷ []

-- `STOP_REASONS`
abbrev pub gap_stop_reasons : List String
gap_stop_reasons =
    "policy_denied" ∷ "max_tokens" ∷ "max_tool_calls" ∷ "max_data_reads" ∷ "max_memory_ops"
    ∷ "max_recompositions" ∷ "validator_failed" ∷ []

-- `_capability_kind_for_predicate`
unfoldable pub capability_kind_for_predicate : String → String
unfolding begins occurs
capability_kind_for_predicate predicate =
    if begins "max_" predicate
    then "budget"
    else if begins "policy_" predicate
    then "policy"
    else if begins "data_scope_" predicate
    then "data_scope"
    else if begins "knowledge_scope_" predicate
    then "knowledge_scope"
    else if begins "memory_scope_" predicate
    then "memory_scope"
    else if occurs "validator" predicate
    then "validator"
    else if occurs "module_version" predicate || (predicate == "selected_module_version_missing")
    then "module_version"
    else "tool"

-- `s.removesuffix("_exceeded")`
unfoldable pub without_exceeded : String → String
without_exceeded String.[] = String.[]
without_exceeded (String.◌∷◌ c s) =
    let rest = String.◌∷◌ c (without_exceeded s) in
    if String.◌∷◌ c s == "_exceeded" then String.[] else rest

-- `_capability_id_for_predicate`
unfoldable pub capability_id_for_predicate : String → String → String
unfolding begins without_exceeded
capability_id_for_predicate predicate requested_tool =
    if begins "max_" predicate then without_exceeded predicate else requested_tool
