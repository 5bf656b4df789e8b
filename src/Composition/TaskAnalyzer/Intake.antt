-- ===== src/Composition/TaskAnalyzer/Intake.antt =====
-- composition/task_analyzer.py: the objective, the inputs, the constraints and the risk of a task.
use skill_centric_agent_syst.Base.{
  any_in, join_with, String, Bool, true, false, not, ◌&&◌, ◌||◌, Option, none, some, List, [], ◌∷◌,
  ◌++◌, if◌then◌else◌, ◌==◌, keep, map, join, is_blank, occurs, Json, elements, bool, arr, obj,
  Fields, find, as_mapping, as_list, as_text, Builtins, to_str,
}
use skill_centric_agent_syst.Composition.TaskAnalyzer.Types.{
  RiskLevel, TaskClassification, strip, dedupe, is_id, slugify,
}

-- The first of the keys with a text that is not blank.
unfoldable pub first_text : List String → Fields → String
unfolding strip is_blank
first_text [] task = "Process repository task."
first_text (k ∷ ks) task =
    let later = first_text ks task in
    elim (as_text (find k task)) [
      | none ↦ later
      | some value ↦ if is_blank value then later else strip value
    ]

-- `_objective`
unfoldable pub objective_of : Fields → String
unfolding first_text
objective_of task = first_text ("request" ∷ "objective" ∷ "description" ∷ []) task

abbrev id_or_slug : (String → String) → String → Option String → String
id_or_slug casefold objective none = join "task-" (slugify casefold objective)
id_or_slug casefold objective (some value) =
    if is_id value then value else join "task-" (slugify casefold objective)

-- `_task_id`
unfoldable pub task_id_of : (String → String) → Fields → String → String
unfolding is_id slugify join
task_id_of casefold task objective = id_or_slug casefold objective (as_text (find "id" task))

abbrev nested : String → Option Fields → Option Fields
nested k none = none
nested k (some fs) = as_mapping (find k fs)

-- `_repository_context`
unfoldable pub repository_context : Fields → Option Fields
repository_context task = nested "repository" (as_mapping (find "context" task))

abbrev pub given : Option Fields → Bool
given none = false
given (some fs) = true

-- `_domains`
unfoldable pub domains_of : String → Option Fields → List String
unfolding dedupe
domains_of task_type repository =
    let by_type : List String =
      if task_type == "code-review"
      then "software-engineering" ∷ "git" ∷ "code-review" ∷ []
      else if task_type == "research"
      then "research" ∷ "knowledge-retrieval" ∷ []
      else if task_type == "task-execution"
      then "task-execution" ∷ (if given repository then "software-engineering" ∷ [] else [])
      else [] in
    dedupe (by_type ++ (if given repository then "repository" ∷ [] else []))

-- `_objective_mentions_diff_source`
unfoldable pub mentions_diff_source : (String → String) → String → Bool
unfolding any_in
mentions_diff_source casefold objective =
    any_in (casefold objective) ("diff" ∷ "commit" ∷ "pull request" ∷ "pr" ∷ "changes" ∷ [])

-- `_required_inputs`
unfoldable pub required_inputs_of :
    (String → String) → String → String → Option Fields → List String
unfolding dedupe mentions_diff_source
required_inputs_of casefold task_type objective repository = dedupe (
    (if task_type == "code-review" || given repository then "repository" ∷ [] else [])
    ++ (if task_type == "code-review" && mentions_diff_source casefold objective
        then "diff" ∷ []
        else []))

abbrev has_items : Option (List Json) → Bool
has_items none = false
has_items (some []) = false
has_items (some (v ∷ vs)) = true

abbrev attachments_given : Option Fields → Bool
attachments_given none = false
attachments_given (some context) = has_items (as_list (find "attachments" context))

-- `_available_inputs`
unfoldable pub available_inputs_of :
    (String → String) → String → String → Option Fields → Fields → List String
unfolding dedupe mentions_diff_source
available_inputs_of casefold task_type objective repository task = dedupe (
    (if given repository then "repository" ∷ [] else [])
    ++ ((if given repository
            && task_type == "code-review"
            && mentions_diff_source casefold objective
          then "diff" ∷ []
          else [])
        ++ (if attachments_given (as_mapping (find "context" task))
            then "attachments" ∷ []
            else [])))

-- `_capability_hints`
unfoldable pub capability_hints_of : (String → String) → String → String → List String
unfolding dedupe occurs
capability_hints_of casefold task_type objective =
    let by_type : List String =
      if task_type == "code-review"
      then "analysis" ∷ []
      else if task_type == "research"
      then "retrieval" ∷ "analysis" ∷ []
      else if task_type == "task-execution"
      then "execution" ∷ []
      else [] in
    let text = casefold objective in
    dedupe (
      by_type
      ++ (if occurs "schema" text || occurs "contract" text then "schema-validation" ∷ [] else []))

abbrev pub is_false : Json → Bool
is_false (bool false) = true
is_false _ = false

abbrev pub is_true : Json → Bool
is_true (bool true) = true
is_true _ = false

abbrev pub when : Bool → String → List String
when b text = if b then text ∷ [] else []

-- The constraints that a mapping spells out.
unfoldable pub flags : Fields → List String
flags raw =
    when (is_false (find "write_access" raw)) "Do not grant write tools by default."
    ++ (when (is_false (find "destructive_actions" raw)) "Destructive actions are not allowed."
        ++ (when (is_true (find "write_access" raw)) "Write access was requested."
            ++ when (is_true (find "destructive_actions" raw))
                "Destructive actions were requested."))

abbrev pub or_default : List String → List String
or_default [] = "Do not grant broad capabilities by default." ∷ []
or_default (c ∷ cs) = c ∷ cs

abbrev pub review_note : String
review_note =
    "Task classification is ambiguous; do not route to a specialized runtime strategy without review."

module _ (py : Builtins) where
  unfoldable pub raw_constraints : Json → List String
  unfolding flags keep is_blank
  raw_constraints (obj raw) = flags raw
  raw_constraints (arr vs) = keep (λ s. not (is_blank s)) (map (to_str py) (elements vs))
  raw_constraints _ = []

  -- `_constraints`
  unfoldable pub constraints_of : Fields → TaskClassification → List String
  unfolding dedupe raw_constraints
  constraints_of task classification = dedupe (
      or_default (raw_constraints (find "constraints" task))
      ++ when classification.requires_human_review review_note)

-- `_risk_level`
unfoldable pub risk_level_of : (String → String) → String → String → List String → RiskLevel
unfolding join_with any_in
risk_level_of casefold task_type objective constraints =
    let text = casefold (join_with " " (objective ∷ constraints)) in
    if any_in text ("production" ∷ "delete" ∷ "destroy" ∷ "reset" ∷ "secret" ∷ [])
    then RiskLevel.high
    else if any_in text ("destructive actions were requested" ∷ "write access was requested" ∷ [])
    then RiskLevel.high
    else if task_type == "code-review"
    then RiskLevel.medium
    else RiskLevel.low
