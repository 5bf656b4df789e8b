-- ===== src/Runtime/Invariants.antt =====
-- runtime/invariant_assertions.py: the checks of a sealed profile, each with the findings it makes.
use skill_centric_agent_syst.Base.{
  zero, suc, String, Bool, true, false, not, ◌&&◌, ◌||◌, Option, none, some, List, [], ◌∷◌, ◌++◌,
  if◌then◌else◌, member, missing, is_empty, join, join_with, Dict, get, sorted_set, ℤ, pos, negsuc,
  Json, null, bool, int, str, Fields, find, as_mapping, as_list, as_text, Builtins, to_str, truthy,
}
use skill_centric_agent_syst.Runtime.Enforcement.Profile.{find_or, field_names, selected_fields}

pub record InvariantFinding : Type 0 where
  pub invariant_id : String
  pub message : String

-- `TASK_TYPE_VALIDATOR_REQUIREMENTS`
abbrev pub task_type_validator_requirements : Dict String
task_type_validator_requirements =
    ("code-review", "review-findings-contract")
    ∷ ("research", "research-output-contract")
    ∷ ("task-execution", "task-execution-output-contract")
    ∷ ("general-task", "general-output-contract")
    ∷ []

unfoldable pub texts_in : List Json → List String
texts_in [] = []
texts_in (v ∷ vs) = let rest = texts_in vs in elim (as_text v) [ none ↦ rest | some s ↦ s ∷ rest ]

abbrev items_of : Option (List Json) → List String
items_of none = []
items_of (some vs) = texts_in vs

-- `_string_set` of a JSON value, as a list
unfoldable pub string_set : Json → List String
unfolding texts_in
string_set v = items_of (as_list v)

unfoldable pub selected_from : Fields → List String → List String
unfolding string_set
selected_from profile [] = []
selected_from profile (f ∷ fs) = string_set (find f profile) ++ selected_from profile fs

-- `_selected_modules`
unfoldable pub selected_modules : Fields → List String
unfolding selected_from
selected_modules profile = selected_from profile selected_fields

-- A finding that names what is left of one set without another, where that is anything.
unfoldable pub difference_finding :
    String → String → List String → List String → List InvariantFinding
unfolding join join_with
difference_finding id message xs ys =
    if is_empty (missing xs ys)
    then []
    else record {
      invariant_id = id;
      message = join message (join_with ", " (sorted_set (missing xs ys)));
    }
      ∷ []

-- One finding where a test holds.
abbrev pub finding_if : Bool → String → String → List InvariantFinding
finding_if b id m = if b then record { invariant_id = id; message = m } ∷ [] else []

abbrev unknowns : List String → Option Fields → List InvariantFinding
unknowns selected none =
    finding_if true "fail_closed_on_unknowns"
      "module_versions must be an object with explicit pins."
unknowns selected (some versions) =
    difference_finding "fail_closed_on_unknowns"
      "missing module version pins for selected modules: " selected (field_names versions)
    ++ difference_finding "fail_closed_on_unknowns"
        "unexpected module version pins without selection: " (field_names versions) selected

unfoldable pub assert_fail_closed_on_unknowns : Fields → List InvariantFinding
unfolding selected_modules
assert_fail_closed_on_unknowns profile =
    unknowns (selected_modules profile) (as_mapping (find "module_versions" profile))

-- `isinstance(human_review, Mapping) and human_review.get("required") is True`
abbrev is_true : Json → Bool
is_true (bool true) = true
is_true _ = false

abbrev required_in : Option Fields → Bool
required_in none = false
required_in (some review) = is_true (find "required" review)

abbrev pub review_required : Fields → Bool
review_required profile = required_in (as_mapping (find "human_review" profile))

unfoldable pub selection_findings : Fields → List String → List InvariantFinding
unfolding string_set join
selection_findings profile [] = []
selection_findings profile (f ∷ fs) =
    finding_if (not (is_empty (string_set (find f profile)))) "no_self_granting"
      (join "human-review-required profile must not select " (join f "."))
    ++ selection_findings profile fs

abbrev self_grants : Fields → Option Fields → List InvariantFinding
self_grants profile none =
    finding_if true "no_self_granting"
      "skill_execution_roles must be present for runtime skill enforcement."
self_grants profile (some roles) =
    difference_finding "no_self_granting" "skill_execution_roles references unselected skills: "
      (string_set (find "runtime_skills" roles) ++ string_set (find "shared_skills" roles))
      (string_set (find "skills" profile))
    ++ (if review_required profile
        then selection_findings profile
            ("skills" ∷ "tools" ∷ "knowledge_scopes" ∷ "data_scopes" ∷ "memory_scopes" ∷ [])
        else [])

unfoldable pub assert_no_self_granting : Fields → List InvariantFinding
unfolding selection_findings string_set
assert_no_self_granting profile =
    self_grants profile (as_mapping (find "skill_execution_roles" profile))

abbrev lacks : List String → Option String → Bool
lacks validators none = false
lacks validators (some v) = not (member v validators)

abbrev or_empty : Option String → String
or_empty none = ""
or_empty (some s) = s

module _ (py : Builtins) where
  unfoldable pub assert_mandatory_validators_per_change_type : Fields → List InvariantFinding
  unfolding string_set join
  assert_mandatory_validators_per_change_type profile =
      let validators = string_set (find "validators" profile) in
      let task_type = to_str py (find_or "task_type" (str "") profile) in
      let required = get task_type task_type_validator_requirements in
      finding_if (not (member "runtime-profile-schema" validators))
        "mandatory_validators_per_change_type"
        "runtime-profile-schema validator must always be selected."
      ++ finding_if (lacks validators required && not (review_required profile))
          "mandatory_validators_per_change_type"
          (join "missing task-type validator for " (join task_type (join ": " (or_empty required))))

  -- `isinstance(v, int)`; a bool is one.
  abbrev as_int : Json → Option ℤ
  as_int (int n) = some n
  as_int (bool true) = some (pos 1)
  as_int (bool false) = some (pos 0)
  as_int v = none

  abbrev not_null : Json → Bool
  not_null null = false
  not_null v = true

  abbrev sealing_finding : Bool → String → List InvariantFinding
  sealing_finding b m = finding_if b "immutable_profile_after_seal" m

  abbrev no_generation : List InvariantFinding
  no_generation = sealing_finding true "profile_generation must be an integer >= 1."

  abbrev generation_findings : Option ℤ → Json → Json → List InvariantFinding
  generation_findings none parent reason = no_generation
  generation_findings (some (negsuc n)) parent reason = no_generation
  generation_findings (some (pos zero)) parent reason = no_generation
  generation_findings (some (pos (suc zero))) parent reason =
      sealing_finding (not_null parent || not_null reason)
        "profile_generation 1 must not set parent_profile_id or recomposition_reason."
  generation_findings (some (pos (suc (suc n)))) parent reason =
      sealing_finding (not (truthy py parent) || not (truthy py reason))
        "recomposed profiles must set parent_profile_id and recomposition_reason."

  unfoldable pub assert_immutable_profile_after_seal : Fields → List InvariantFinding
  assert_immutable_profile_after_seal profile =
      generation_findings (as_int (find "profile_generation" profile))
        (find "parent_profile_id" profile) (find "recomposition_reason" profile)

  -- `assert_profile_sealing_invariants`
  unfoldable pub assert_profile_sealing_invariants : Fields → List InvariantFinding
  assert_profile_sealing_invariants profile =
      assert_fail_closed_on_unknowns profile
      ++ (assert_no_self_granting profile
          ++ (assert_mandatory_validators_per_change_type profile
              ++ assert_immutable_profile_after_seal profile))

unfoldable pub widened_from : Fields → Fields → List String → List InvariantFinding
unfolding string_set join
widened_from parent current [] = []
widened_from parent current (f ∷ fs) =
    difference_finding "scope_monotonicity" (join f " widened compared to parent profile: ")
      (string_set (find f current)) (string_set (find f parent))
    ++ widened_from parent current fs

-- `assert_scope_monotonicity`
unfoldable pub assert_scope_monotonicity : Fields → Fields → List InvariantFinding
unfolding widened_from
assert_scope_monotonicity parent current =
    widened_from parent current
      ("tools" ∷ "knowledge_scopes" ∷ "data_scopes" ∷ "memory_scopes" ∷ [])
