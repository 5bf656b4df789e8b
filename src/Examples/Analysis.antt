-- ===== src/Examples/Analysis.antt =====
-- Tasks that composition/task_analyzer.py analyzes, and an identifier of runtime/models.py.
use Prim.Native.Char.{Char, code}
use skill_centric_agent_syst.Base.{
  ◌≤◌, String, ◌≡◌, refl, true, false, [], ◌∷◌, tally, str, bool, obj, Fields, field, end, count,
  all_of, member, occurs, keep, join, begins, if◌then◌else◌, nat_eq, ap,
}
use skill_centric_agent_syst.Base.Outcome.{ok}
use skill_centric_agent_syst.Runtime.Models.Slug.{slug_id}
use skill_centric_agent_syst.Runtime.Models.Slug.Alphabet.{is_slug_char, slug_id-safe}
use skill_centric_agent_syst.Composition.TaskAnalyzer.{analyze}
use skill_centric_agent_syst.Composition.TaskAnalyzer.Types.{
  AnalyzedTask, RiskLevel, Confidence, is_plain, is_id,
}
use skill_centric_agent_syst.Composition.TaskAnalyzer.Signals.{
  categories, classify_task, matched_terms,
}
use skill_centric_agent_syst.Composition.TaskAnalyzer.Intake.{
  task_id_of, objective_of, risk_level_of, domains_of, required_inputs_of, available_inputs_of,
  capability_hints_of, constraints_of, repository_context,
}
use skill_centric_agent_syst.Composition.TaskAnalyzer.Claims.{default_claims, auth_claims_of}
use skill_centric_agent_syst.Composition.TaskAnalyzer.Identity.{IsCanonical}
use skill_centric_agent_syst.Composition.TaskAnalyzer.Routing.{
  is_signalled, Routed, classify_task-Routed,
}
use skill_centric_agent_syst.Composition.Analysis.{
  write_access_high, analyze-IsCanonical, write_note,
}
use skill_centric_agent_syst.Examples.Runs.{plain}

-- A lower case of texts in which `W` is the only capital letter.
abbrev small : Char → Char
small c = if nat_eq (code c) 87 then "w" else c

abbrev fold : String → String
fold String.[] = String.[]
fold (String.◌∷◌ c s) = String.◌∷◌ (small c) (fold s)

fold-join : (s t : String) → fold (join s t) ≡ join (fold s) (fold t)
unfolding join
fold-join String.[] t = refl
fold-join (String.◌∷◌ c s) t = ap (String.◌∷◌ (small c)) (fold-join s t)

slug_id-safe_example :
    (all_of is_slug_char (slug_id fold "queue" "task_1: first  run!") ≡ true)
    × (count (slug_id fold "queue" "task_1: first  run!") ≤ 96)
slug_id-safe_example = slug_id-safe fold "queue" "task_1: first  run!" (unfold all_of in refl)

classify_task-Routed_example :
    Routed is_plain fold "fix the pr"
      (classify_task is_plain fold "fix the pr")
      (tally (is_signalled is_plain fold "fix the pr") categories)
classify_task-Routed_example = classify_task-Routed is_plain fold "fix the pr"

abbrev raw : Fields
raw = field "write_access" (bool true) end

abbrev task : Fields
task =
    field "id" (str "task-docs")
      (field "request" (str "update docs") (field "constraints" (obj raw) end))

abbrev analysis : AnalyzedTask
analysis = record {
  task_id = "task-docs";
  task_type = "task-execution";
  objective = "update docs";
  risk_level = RiskLevel.high;
  domains = "task-execution" ∷ [];
  required_inputs = [];
  available_inputs = [];
  capability_hints = "execution" ∷ [];
  constraints = write_note ∷ [];
  missing_information = [];
  auth_claims = default_claims "task-execution";
  classification_confidence = Confidence.high;
  classification_reasons = "Matched task-execution task signals: update." ∷ [];
  ambiguous_task_types = [];
  requires_human_review = false;
}

analyzed : analyze plain fold is_plain task ≡ ok analysis
unfolding analyze auth_claims_of task_id_of classify_task objective_of risk_level_of domains_of
    required_inputs_of available_inputs_of capability_hints_of constraints_of keep matched_terms
    repository_context
analyzed = refl

write_access_high_example :
    (analysis.risk_level ≡ RiskLevel.high) × (member write_note analysis.constraints ≡ true)
write_access_high_example =
    write_access_high plain fold is_plain fold-join (unfold occurs in unfold begins in refl) task
      raw analysis refl refl analyzed

analyze-IsCanonical_example : (is_id analysis.task_id ≡ true) × IsCanonical analysis.auth_claims
analyze-IsCanonical_example = analyze-IsCanonical plain fold is_plain task analysis analyzed
