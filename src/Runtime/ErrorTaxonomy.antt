-- ===== src/Runtime/ErrorTaxonomy.antt =====
-- runtime/error_taxonomy.py: the class of a runtime error, and the judge that may change it.
pub mod Judged
use skill_centric_agent_syst.Base.{
  ℕ, ◌*◌, ◌+◌, String, Bool, true, false, not, ◌&&◌, ◌||◌, Option, none, some, List, [], ◌∷◌, ◌++◌,
  if◌then◌else◌, ◌==◌, ltb, leb, member, occurs, Dict, get, insert, ℤ, pos, gt, Json, object, null,
  str, int, obj, Fields, find, as_mapping, as_list, as_text, to_int, Builtins,
}
use skill_centric_agent_syst.Base.Outcome.{Outcome, ok, err, some_or, ◌>>=◌}
use skill_centric_agent_syst.Runtime.Artifacts.Chunks.{length}
use skill_centric_agent_syst.Runtime.Enforcement.Profile.{find_or, empty_list}
use skill_centric_agent_syst.Runtime.Queue.{Error}
use skill_centric_agent_syst.Runtime.Membership.{in_set}

pub record ErrorClassification : Type 0 where
  pub error_class : String
  pub error_confidence : String
  pub classification_source : String
  pub error_evidence : Dict Json
  pub runtime_playbook : String

-- `ErrorClass`
abbrev pub error_classes : List String
error_classes =
    "F1_INEFFICIENCY_PATH" ∷ "F2_INTERFACE_CONTRACT_BREAKDOWN"
    ∷ "R8_POLICY_CONFLICT_CONTEXT_CONTAMINATION" ∷ "NONE" ∷ []

abbrev pub confidences : List String
confidences = "low" ∷ "medium" ∷ "high" ∷ []

-- What the code takes from Python: `str.casefold`, and `int(n * 0.75)`, a product of floats.
pub record Host : Type 0 where
  pub casefold : String → String
  pub three_quarters : ℤ → ℤ
  pub builtins : Builtins

abbrev or_blank : Option String → String
or_blank none = ""
or_blank (some s) = s

abbrev code_json : Option String → Json
code_json none = null
code_json (some s) = str s

abbrev count_in : String → Dict ℤ → ℤ
count_in k d = elim (get k d) [ none ↦ pos 0 | some n ↦ n ]

-- The evidence of every failure: why the run stopped, and what was raised.
abbrev failure_evidence : String → String → Option String → Dict Json
failure_evidence message stop_reason error_code =
    ("stop_reason", str stop_reason)
    ∷ ("error_code", code_json error_code)
    ∷ ("message", str message)
    ∷ []

abbrev rule_based : String → String → Dict Json → String → ErrorClassification
rule_based class confidence evidence playbook = record {
  error_class = class;
  error_confidence = confidence;
  classification_source = "rule_based_runtime_v1";
  error_evidence = evidence;
  runtime_playbook = playbook;
}

-- The size of a list, 0 for any other value.
abbrev size_of : Option (List Json) → ℕ
size_of none = 0
size_of (some vs) = length vs

-- `max(2, n)`
abbrev two_or_more : ℕ → ℕ
two_or_more n = if leb n 2 then 2 else n

abbrev one_if : Bool → ℕ
one_if b = if b then 1 else 0

module _ (host : Host) where
  -- `classify_runtime_failure`, of the text of an exception
  unfoldable pub classify_runtime_failure :
      String → String → Option String → Dict ℤ → ErrorClassification
  unfolding occurs get
  classify_runtime_failure error stop_reason error_code counters =
      let message = host.casefold error in
      let code = host.casefold (or_blank error_code) in
      let evidence = failure_evidence error stop_reason error_code in
      if (stop_reason == "policy_denied") || occurs "policy" code
      then rule_based "R8_POLICY_CONFLICT_CONTEXT_CONTAMINATION" "high"
          (evidence ++ (("signal", str "policy_denied_or_policy_gate") ∷ []))
          "fail_closed_and_emit_policy_conflict_event_then_request_policy_or_prompt_cleanup"
      else if (stop_reason == "validator_failed")
          || occurs "contract" message
          || occurs "schema" message
          || occurs "validation" message
      then rule_based "F2_INTERFACE_CONTRACT_BREAKDOWN" "medium"
          (evidence ++ (("signal", str "validator_or_contract_failure") ∷ []))
          "normalize_interface_retry_once_then_fail_closed"
      else rule_based "NONE" "low"
          (evidence
            ++ (("tool_calls", int (count_in "tool_calls" counters))
                ∷ ("tokens_used", int (count_in "tokens_used" counters))
                ∷ []))
          "generic_runtime_error_path"

  -- `int(v)`
  abbrev integer : Json → Outcome Error ℤ
  integer v = some_or (to_int host.builtins v) (record {
    class_name = "ValueError";
    message = "invalid literal for int()";
    stop_reason = none;
  })

  -- `is_inefficient`: two of three signals
  unfoldable pub is_inefficient : ℕ → ℕ → Dict ℤ → ℤ → Bool
  unfolding get
  is_inefficient actions tool_results counters max_tokens =
      let most = two_or_more (actions * 2) in
      let calls = one_if (gt (count_in "tool_calls" counters) (pos most)) in
      let results = one_if (ltb most tool_results) in
      let tokens = one_if (
        gt max_tokens (pos 0)
        && gt (count_in "tokens_used" counters) (host.three_quarters max_tokens)) in
      leb 2 (calls + (results + tokens))

  -- `classify_runtime_success`
  unfoldable pub classify_runtime_success :
      Fields → Fields → Dict ℤ → Fields → Outcome Error ErrorClassification
  unfolding is_inefficient length
  classify_runtime_success plan execution counters limits = do
    let actions = size_of (as_list (find_or "actions" empty_list plan))
    let tool_results = size_of (as_list (find_or "tool_results" empty_list execution))
    max_tokens ← integer (find_or "max_tokens" (int (pos 0)) limits)
    let calls = int (count_in "tool_calls" counters)
    let tokens = int (count_in "tokens_used" counters)
    ok (
        if is_inefficient actions tool_results counters max_tokens
        then rule_based "F1_INEFFICIENCY_PATH" "medium"
            (("action_count", int (pos actions))
              ∷ ("tool_calls", calls)
              ∷ ("tool_result_count", int (pos tool_results))
              ∷ ("tokens_used", tokens)
              ∷ ("max_tokens", int max_tokens)
              ∷ [])
            "optimize_plan_and_tool_selection_before_next_run"
        else rule_based "NONE" "high"
            (("action_count", int (pos actions))
              ∷ ("tool_calls", calls)
              ∷ ("tokens_used", tokens)
              ∷ [])
            "no_action_required")

-- `ErrorClassification.as_dict`
abbrev as_dict : ErrorClassification → Fields
as_dict c = object (
    ("error_class", str c.error_class)
    ∷ ("error_confidence", str c.error_confidence)
    ∷ ("classification_source", str c.classification_source)
    ∷ ("error_evidence", obj (object c.error_evidence))
    ∷ ("runtime_playbook", str c.runtime_playbook)
    ∷ [])

abbrev evidence_or_empty : Json → Json
evidence_or_empty (obj fs) = obj fs
evidence_or_empty v = obj (object [])

-- The classification that a judge makes.
abbrev pub judged_as : ErrorClassification → Fields → String → Json → String → ErrorClassification
judged_as base raw class (str confidence) playbook = record {
  error_class = class;
  error_confidence = confidence;
  classification_source = "llm_judge_v1";
  error_evidence =
      insert "llm_judge_evidence" (evidence_or_empty (find "error_evidence" raw))
        base.error_evidence;
  runtime_playbook = playbook;
}
judged_as base raw class confidence playbook = base

-- The checks of what a judge said, in their order.
abbrev pub check_playbook :
    ErrorClassification → Fields → String → Json → Option String → ErrorClassification
check_playbook base raw class confidence none = base
check_playbook base raw class confidence (some playbook) =
    judged_as base raw class confidence playbook

abbrev pub check_confidence : ErrorClassification → Fields → String → Bool → ErrorClassification
check_confidence base raw class allowed =
    if allowed
    then check_playbook base raw class (find "error_confidence" raw)
        (as_text (find "runtime_playbook" raw))
    else base

abbrev pub check_class :
    ErrorClassification → Fields → Option String → Outcome Error ErrorClassification
check_class base raw none = ok base
check_class base raw (some class) =
    let confidence = in_set (find "error_confidence" raw) confidences in
    if member class error_classes
    then (confidence >>= λ allowed. ok (check_confidence base raw class allowed))
    else ok base

unfoldable pub judge_verdict :
    ErrorClassification → Option Fields → Outcome Error ErrorClassification
unfolding member insert
judge_verdict base none = ok base
judge_verdict base (some raw) = check_class base raw (as_text (find "error_class" raw))

abbrev pub ask :
    ErrorClassification → Option (Fields → Json) → Fields → Outcome Error ErrorClassification
ask base none context = ok base
ask base (some judge) context = judge_verdict base (
    as_mapping (
      judge (object (("base_classification", obj (as_dict base)) ∷ ("context", obj context) ∷ []))))

-- `apply_optional_llm_judge`
unfoldable pub apply_optional_llm_judge :
    ErrorClassification → Bool → Option (Fields → Json) → Fields → Outcome Error ErrorClassification
unfolding member insert
apply_optional_llm_judge base enabled judge context =
    if not enabled || not (base.error_confidence == "low") then ok base else ask base judge context
