-- ===== src/Runtime/Enforcement/Profile.antt =====
-- What enforcement.py reads from a profile, and the access checks that only read it. A profile is a
-- JSON object, read as the code reads it: a missing field, or one of another type, is a case.
use skill_centric_agent_syst.Base.{
  ℕ, ◌-◌, String, Bool, false, not, ◌||◌, Option, none, some, List, [], ◌∷◌, ◌++◌, map, ◌==◌,
  if◌then◌else◌, ltb, missing, is_empty, ℤ, pos, negsuc, Json, null, int, str, arr, obj, Items,
  Fields, end, field, elements, find, has_key, as_mapping, as_list, Builtins, to_str, same, to_int,
  exceeds,
}
use skill_centric_agent_syst.Base.Outcome.{Outcome, ok, check, some_or, ◌>>=◌}

-- The exceptions: `ProfileEnforcementError(…, stop_reason, code)`, and what `int(…)`, `in`, a
-- loop and `xs[0]` raise.
pub data Failure : Type 0 where
  denied : String → String → Failure
  value_error type_error index_error : Failure

-- `d.get(k, default)`
abbrev pub find_or : String → Json → Fields → Json
find_or k d end = d
find_or k d (field j v fs) = if k == j then v else find_or k d fs

abbrev pub empty_list : Json
empty_list = arr Items.nil

abbrev pub empty_object : Json
empty_object = obj end

abbrev pub field_names : Fields → List String
field_names end = []
field_names (field j v fs) = j ∷ field_names fs

-- What Python's `in` and `for` do on a value that is no list and no dict.
pub record Containers : Type 0 where
  pub builtins : Builtins
  pub in_other : String → Json → Option Bool
  pub iter_other : Json → Option (List String)
  -- `a - b > n` of two clock readings, which are floats
  pub elapsed_over : ℕ → ℕ → ℤ → Bool

-- `max(0, n - 1)`
abbrev pub before : ℤ → ℕ
before (pos n) = n - 1
before (negsuc n) = 0

-- `_risk_rank`
unfoldable pub risk_rank : String → ℕ
risk_rank level =
    if level == "low" then 0 else if level == "medium" then 1 else if level == "high" then 2 else 3

-- The fields that models.selected_modules goes through.
abbrev pub selected_fields : List String
selected_fields =
    "instructions" ∷ "skills" ∷ "tools" ∷ "knowledge_scopes" ∷ "data_scopes" ∷ "memory_scopes"
    ∷ "policies" ∷ "validators" ∷ []

module _ (py : Containers) where
  some_same : String → List Json → Bool
  some_same x [] = false
  some_same x (v ∷ rest) = same py.builtins (str x) v || some_same x rest

  -- `name in v`
  unfoldable pub contains : String → Json → Outcome Failure Bool
  unfolding some_same
  contains x (arr vs) = ok (some_same x (elements vs))
  contains x (obj fs) = ok (has_key x fs)
  contains x v = some_or (py.in_other x v) type_error

  -- `[str(x) for x in v]`
  unfoldable pub iterate : Json → Outcome Failure (List String)
  iterate (arr vs) = ok (map (to_str py.builtins) (elements vs))
  iterate (obj fs) = ok (field_names fs)
  iterate v = some_or (py.iter_other v) type_error

  -- `int(v)`
  unfoldable pub integer : Json → Outcome Failure ℤ
  integer v = some_or (to_int py.builtins v) value_error

  -- `_limit`
  raw_limit : String → Option Fields → Json
  raw_limit name none = int (pos 0)
  raw_limit name (some limits) = find_or name (int (pos 0)) limits

  unfoldable pub limit_of : Fields → String → Outcome Failure ℤ
  unfolding raw_limit integer
  limit_of profile name =
      integer (raw_limit name (as_mapping (find_or "limits" empty_object profile)))

  -- `if x not in profile.get(field, []): raise …`
  require_listed : String → String → String → Fields → Outcome Failure (Unit {0})
  require_listed field_name code x profile = do
    there ← contains x (find_or field_name empty_list profile)
    check there (denied "policy_denied" code)

  unfoldable pub require_tool : Fields → String → Outcome Failure (Unit {0})
  unfolding require_listed
  require_tool profile tool_name =
      require_listed "tools" "tool_not_in_runtime_profile" tool_name profile

  unfoldable pub require_skill : Fields → String → Outcome Failure (Unit {0})
  unfolding require_listed
  require_skill profile skill_name =
      require_listed "skills" "skill_not_in_runtime_profile" skill_name profile

  unfoldable pub require_policy : Fields → String → Outcome Failure (Unit {0})
  unfolding require_listed
  require_policy profile policy_id =
      require_listed "policies" "policy_not_in_runtime_profile" policy_id profile

  actual_version : String → Option Fields → Json
  actual_version name none = null
  actual_version name (some versions) = find name versions

  unfoldable pub require_module_version : Fields → String → String → Outcome Failure (Unit {0})
  unfolding actual_version
  require_module_version profile module_name expected =
      check
        (same py.builtins
          (actual_version module_name (as_mapping (find_or "module_versions" empty_object profile)))
          (str expected))
        (denied "policy_denied" "module_version_mismatch")

  unfoldable pub require_tool_risk : Fields → String → Outcome Failure (Unit {0})
  require_tool_risk profile tool_risk_level =
      check
        (not (
          ltb (risk_rank (to_str py.builtins (find_or "risk_level" (str "low") profile)))
            (risk_rank tool_risk_level)))
        (denied "policy_denied" "tool_risk_exceeds_profile")

  -- `_require_scopes`
  require_scopes : String → String → Fields → List String → Outcome Failure (Unit {0})
  require_scopes field_name code profile requested = do
    allowed ← iterate (find_or field_name empty_list profile)
    check (is_empty (missing requested allowed)) (denied "policy_denied" code)

  unfoldable pub require_knowledge_scopes : Fields → List String → Outcome Failure (Unit {0})
  unfolding require_scopes
  require_knowledge_scopes =
      require_scopes "knowledge_scopes" "knowledge_scope_not_in_runtime_profile"

  unfoldable pub require_data_scopes : Fields → List String → Outcome Failure (Unit {0})
  unfolding require_scopes
  require_data_scopes = require_scopes "data_scopes" "data_scope_not_in_runtime_profile"

  unfoldable pub require_memory_scopes : Fields → List String → Outcome Failure (Unit {0})
  unfolding require_scopes
  require_memory_scopes = require_scopes "memory_scopes" "memory_scope_not_in_runtime_profile"

  -- models.selected_modules
  listed : Option (List Json) → List String
  listed none = []
  listed (some vs) = map (to_str py.builtins) vs

  gather : Fields → List String → List String
  gather profile [] = []
  gather profile (f ∷ fs) = listed (as_list (find_or f empty_list profile)) ++ gather profile fs

  unfoldable pub selected_modules : Fields → List String
  unfolding gather listed
  selected_modules profile = gather profile selected_fields

  -- The modules that `module_versions` does not name.
  unfoldable pub unpinned : Json → List String → Outcome Failure (List String)
  unpinned versions [] = ok []
  unpinned versions (m ∷ ms) = do
    pinned ← contains m versions
    rest ← unpinned versions ms
    ok (if pinned then rest else m ∷ rest)

  -- The first half of `validate_profile_for_runtime`.
  unfoldable pub require_pinned : Fields → Outcome Failure (Unit {0})
  require_pinned profile = do
    bad ← unpinned (find_or "module_versions" empty_object profile) (selected_modules profile)
    check (is_empty bad) (denied "policy_denied" "selected_module_version_missing")

  -- The recomposition budget of `validate_profile_for_runtime`.
  unfoldable pub require_generation : Fields → Outcome Failure (Unit {0})
  require_generation profile = do
    generation ← integer (find_or "profile_generation" (int (pos 1)) profile)
    most ← limit_of profile "max_recompositions"
    check (not (exceeds (before generation) most))
        (denied "max_recompositions" "max_recompositions_exceeded")
