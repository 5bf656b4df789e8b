-- ===== src/Runtime/SafetyCompiler/Guard.antt =====
-- runtime/safety_compiler.py: the guard policy, its validation, and the strongest gate of matches.
use skill_centric_agent_syst.Base.{
  ℕ, String, Bool, true, false, not, Option, none, some, List, [], ◌∷◌, ◌++◌, if◌then◌else◌, ltb,
  nil, is_empty, join, join_with, Dict, get, Json, str, obj, arr, Fields, end, find, has_key,
  as_mapping, as_list, elements, Builtins, to_str, same,
}
use skill_centric_agent_syst.Base.Outcome.{Outcome, ok, err, check, some_or, ◌>>=◌, ◌>>◌}
use skill_centric_agent_syst.Runtime.Enforcement.Profile.{Containers, find_or, field_names}
use skill_centric_agent_syst.Runtime.Queue.{Error, key_error}
use skill_centric_agent_syst.Runtime.Membership.{in_set}
use skill_centric_agent_syst.Composition.TenantAccess.{mappings}
use skill_centric_agent_syst.Runtime.Invariants.{texts_in}

-- `BLOCKING_GATES`
abbrev pub blocking_gates : List String
blocking_gates = "freeze_prior" ∷ "needs_human_review" ∷ "needs_more_evidence" ∷ "reject" ∷ []

-- `AUTHORITY_DELTAS`
abbrev pub authority_deltas : List String
authority_deltas =
    "tool_addition" ∷ "scope_expansion" ∷ "budget_increase" ∷ "validator_removal"
    ∷ "failure_mode_relaxation" ∷ "policy_exception" ∷ "data_access_expansion"
    ∷ "memory_scope_expansion" ∷ "knowledge_scope_expansion" ∷ []

abbrev pub compiler_error : String → Error
compiler_error m = record { class_name = "SafetyCompilerError"; message = m; stop_reason = none }

abbrev type_error : Error
type_error = record { class_name = "TypeError"; message = "not iterable"; stop_reason = none }

-- `_mapping`
abbrev pub mapping_or_empty : Json → Fields
mapping_or_empty (obj fs) = fs
mapping_or_empty v = end

-- `d[k]`
abbrev pub item : String → Fields → Outcome Error Json
item k fs = if has_key k fs then ok (find k fs) else err (key_error k)

-- The texts among what a loop over a value goes through.
unfoldable pub text_elements : Containers → Json → Outcome Error (List String)
unfolding texts_in
text_elements py (arr vs) = ok (texts_in (elements vs))
text_elements py (obj fs) = ok (field_names fs)
text_elements py v = some_or (py.iter_other v) type_error

-- The pairs of a guard policy that are mappings.
unfoldable pub pairs_of : Fields → List Fields
unfolding mappings
pairs_of guard = mappings (find_or "contrastive_pairs" (arr nil) guard)

-- A pair that matched, with its gate.
pub record Match : Type 0 where
  pub pair_id : String
  pub decision : String

-- `priority` of `_strongest_gate`
abbrev pub priority : Dict ℕ
priority =
    ("freeze_prior", 1)
    ∷ ("needs_more_evidence", 2)
    ∷ ("needs_human_review", 3)
    ∷ ("reject", 4)
    ∷ []

unfoldable pub rank_of : String → Outcome Error ℕ
unfolding get
rank_of gate = some_or (get gate priority) (key_error gate)

-- `max` over the rest of the matches, which keeps the first of the best.
unfoldable pub stronger : String → ℕ → List Match → Outcome Error String
unfolding rank_of
stronger best rank [] = ok best
stronger best rank (m ∷ ms) = rank_of m.decision >>= λ n.
    stronger (if ltb rank n then m.decision else best) (if ltb rank n then n else rank) ms

-- `_strongest_gate`; `max` of nothing raises
unfoldable pub strongest_gate : List Match → Outcome Error String
unfolding stronger
strongest_gate [] = err (record {
  class_name = "ValueError";
  message = "max() arg is an empty sequence";
  stop_reason = none;
})
strongest_gate (m ∷ ms) = rank_of m.decision >>= λ n. stronger m.decision n ms

abbrev pub failure_if : Bool → String → List String
failure_if b m = if b then m ∷ [] else []

-- `any(delta not in AUTHORITY_DELTAS for delta in deltas)`
unfoldable pub some_unknown : List Json → Outcome Error Bool
some_unknown [] = ok false
some_unknown (v ∷ vs) =
    let rest = some_unknown vs in
    in_set v authority_deltas >>= λ is_known. (if is_known then rest else ok true)

module _ (py : Builtins) where
  abbrev label : Fields → String
  label pair = to_str py (find_or "pair_id" (str "<unknown>") pair)

  -- `expected_gate` of a pair
  abbrev pub gate_failures : Fields → Outcome Error (List String)
  gate_failures pair = do
    blocking ← in_set (find "expected_gate" pair) blocking_gates
    ok (failure_if (not blocking) (join (label pair) ": non-blocking gate"))

  abbrev pub delta_failures : Fields → Option (List Json) → Outcome Error (List String)
  delta_failures pair none = ok (join (label pair) ": authority_delta missing" ∷ [])
  delta_failures pair (some []) = ok (join (label pair) ": authority_delta missing" ∷ [])
  delta_failures pair (some (v ∷ vs)) = do
    unknown ← some_unknown (v ∷ vs)
    ok (failure_if unknown (join (label pair) ": unknown authority_delta"))

  abbrev pub boundary_failures : Fields → Option Fields → Outcome Error (List String)
  boundary_failures pair none = ok (join (label pair) ": forbidden boundary missing" ∷ [])
  boundary_failures pair (some forbidden) = do
    deltas ← delta_failures pair (as_list (find "authority_delta" forbidden))
    gates ← gate_failures pair
    ok (deltas ++ gates)

  -- One pair of the loop of `_validate_guard_policy`.
  unfoldable pub pair_failures : Option Fields → Outcome Error (List String)
  unfolding some_unknown join
  pair_failures none = ok ("each contrastive pair must be an object" ∷ [])
  pair_failures (some pair) =
      boundary_failures pair (as_mapping (find "forbidden_generalization" pair))

  unfoldable pub all_failures : List Json → Outcome Error (List String)
  all_failures [] = ok []
  all_failures (v ∷ vs) = do
    here ← pair_failures (as_mapping v)
    rest ← all_failures vs
    ok (here ++ rest)

  abbrev pub pairs_failures : Option (List Json) → Outcome Error (List String)
  pairs_failures none = ok ("contrastive_pairs must be a non-empty array" ∷ [])
  pairs_failures (some []) = ok ("contrastive_pairs must be a non-empty array" ∷ [])
  pairs_failures (some (v ∷ vs)) = all_failures (v ∷ vs)

  -- `_validate_guard_policy`
  unfoldable pub validate_guard_policy : Fields → Outcome Error (List String)
  unfolding all_failures
  validate_guard_policy guard = do
    blocking ← in_set (find "default_on_match" guard) blocking_gates
    pairs ← pairs_failures (as_list (find "contrastive_pairs" guard))
    ok (
        failure_if (not (same py (find "guard_id" guard) (str "semantic-drift-guard")))
          "guard_id must be semantic-drift-guard"
        ++ (failure_if
              (not
                (same py (find "authority_invariant" guard) (str "learned_context_not_authority")))
              "authority_invariant must be learned_context_not_authority"
            ++ (failure_if (not blocking) "default_on_match must be a blocking gate" ++ pairs)))

  -- `SafetyCompiler.__init__`
  unfoldable pub create : Fields → Outcome Error Fields
  unfolding validate_guard_policy join_with join
  create guard = do
    failures ← validate_guard_policy guard
    check (is_empty failures)
        (compiler_error (join "Invalid semantic drift guard policy: " (join_with "; " failures)))
    ok guard
