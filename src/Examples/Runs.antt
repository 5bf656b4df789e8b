-- ===== src/Examples/Runs.antt =====
-- An enforcer (runtime/enforcement.py) with a small profile, and tool invocations on it.
use skill_centric_agent_syst.Base.{
  ℕ, ◌-◌, String, ◌≡◌, refl, Bool, true, false, none, List, [], ◌∷◌, ltb, ℤ, pos, negsuc, Json, str,
  int, obj, Fields, field, end, texts, to_int, same, to_str, missing, member, ◌⊎◌, ◌≢◌,
}
use skill_centric_agent_syst.Base.Outcome.{ok, err, for_each}
use skill_centric_agent_syst.Base.Exec
use skill_centric_agent_syst.Runtime.Enforcement.Profile.{
  Containers, denied, risk_rank, contains, iterate, limit_of, require_tool, require_tool_risk,
  require_policy, require_data_scopes,
}
use skill_centric_agent_syst.Runtime.Enforcement.Enforcer.{
  Enforcer, check_duration, increment_limit, record_tool_invocation,
}
use skill_centric_agent_syst.Runtime.Enforcement.Budget.{
  Call, tokens, data_read, recomposition, tool, perform_all, Spends, perform_all-Spends,
}
use skill_centric_agent_syst.Runtime.Enforcement.Access.{
  Granted, charged, record_tool_invocation_sound,
}
use skill_centric_agent_syst.Runtime.Enforcement.Refusal.{
  record_tool_invocation_complete, record_tool_invocation_refused,
}

abbrev elapsed_over : ℕ → ℕ → ℤ → Bool
elapsed_over now started (pos n) = ltb n (now - started)
elapsed_over now started (negsuc n) = true

-- A Python in which nothing but a list or a dict can be searched.
abbrev pub plain : Containers
plain = record {
  builtins = record {
    str_other = λ v. "";
    eq_other = λ v w. false;
    is_zero = λ v. false;
    int_other = λ v. none;
  };
  in_other = λ x v. none;
  iter_other = λ v. none;
  elapsed_over = elapsed_over;
}

abbrev limits : Json
limits = obj (
    field "max_tool_calls" (int (pos 1))
      (field "max_data_reads" (int (pos 2)) (field "max_duration_seconds" (int (pos 60)) end)))

abbrev profile : Fields
profile = field "tools" (texts ("repo.read" ∷ [])) (
    field "policies" (texts ("read-only" ∷ [])) (
      field "data_scopes" (texts ("repo" ∷ []))
        (field "risk_level" (str "medium") (field "limits" limits end))))

abbrev enforcer : Enforcer
enforcer = record {
  profile = profile;
  started_at = 100;
  tool_calls = 0;
  tokens_used = 0;
  data_reads = 0;
  memory_ops = 0;
  recomposition_requests = 0;
}

abbrev repo_scope : List String
repo_scope = "repo" ∷ []

abbrev read_only : List String
read_only = "read-only" ∷ []

granted :
    record_tool_invocation plain 130 "repo.read" repo_scope read_only "low" enforcer
    ≡ (ok tt, charged repo_scope enforcer)
unfolding record_tool_invocation Exec.◌>>=◌ check_duration require_tool require_tool_risk
    require_policy require_data_scopes for_each increment_limit limit_of contains iterate to_int
    same risk_rank to_str missing member
granted = refl

-- The call is charged before the scope is refused.
abbrev secrets : List String
secrets = "secrets" ∷ []

refused :
    record_tool_invocation plain 130 "repo.read" secrets [] "low" enforcer
    ≡ (err (denied "policy_denied" "data_scope_not_in_runtime_profile"), charged [] enforcer)
unfolding record_tool_invocation Exec.◌>>=◌ check_duration require_tool require_tool_risk
    require_policy require_data_scopes for_each increment_limit limit_of contains iterate to_int
    same risk_rank to_str missing member
refused = refl

abbrev calls : List Call
calls =
    tokens 110 (pos 5)
    ∷ tool 120 "repo.read" repo_scope read_only "low"
    ∷ data_read (pos 1)
    ∷ recomposition
    ∷ []

perform_all-Spends_example : Spends plain enforcer (perform_all plain enforcer calls)
perform_all-Spends_example = perform_all-Spends plain enforcer calls

record_tool_invocation_sound_example :
    Granted plain 130 "repo.read" repo_scope read_only "low" enforcer
    × (charged repo_scope enforcer ≡ charged repo_scope enforcer)
record_tool_invocation_sound_example =
    record_tool_invocation_sound plain 130 "repo.read" repo_scope read_only "low" enforcer
      (charged repo_scope enforcer) granted

is_Granted : Granted plain 130 "repo.read" repo_scope read_only "low" enforcer
is_Granted =
    (record_tool_invocation_sound plain 130 "repo.read" repo_scope read_only "low" enforcer
      (charged repo_scope enforcer) granted).0

record_tool_invocation_complete_example :
    record_tool_invocation plain 130 "repo.read" repo_scope read_only "low" enforcer
    ≡ (ok tt, charged repo_scope enforcer)
record_tool_invocation_complete_example =
    record_tool_invocation_complete plain 130 "repo.read" repo_scope read_only "low" enforcer
      is_Granted

record_tool_invocation_refused_example :
    (charged [] enforcer ≡ enforcer)
    ⊎ ((secrets ≢ []) × (charged [] enforcer ≡ record enforcer { tool_calls = 1 }))
record_tool_invocation_refused_example =
    record_tool_invocation_refused plain 130 "repo.read" secrets [] "low" enforcer
      (charged [] enforcer) _ refused
