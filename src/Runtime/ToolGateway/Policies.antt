-- ===== src/Runtime/ToolGateway/Policies.antt =====
-- runtime/tool_policies.py: what each tool requires.
use skill_centric_agent_syst.Base.{
  String, List, [], ◌∷◌, Dict, get, Option, none, some, if◌then◌else◌, member, ◌==◌,
}

unfoldable pub tool_required_data_scopes : String → List String
unfolding member
tool_required_data_scopes tool_name =
    if member tool_name ("filesystem-read" ∷ "filesystem-list" ∷ "git-read" ∷ "test-runner" ∷ [])
    then "repository-readonly" ∷ []
    else if tool_name == "filesystem-write"
    then "repository-write" ∷ []
    else []

unfoldable pub tool_required_policies : String → List String
tool_required_policies tool_name =
    if tool_name == "filesystem-write" then "write-approval-required" ∷ [] else []

abbrev risk_levels : Dict String
risk_levels =
    ("filesystem-read", "low")
    ∷ ("filesystem-list", "low")
    ∷ ("filesystem-write", "high")
    ∷ ("git-read", "low")
    ∷ ("test-runner", "medium")
    ∷ []

abbrev or_high : Option String → String
or_high none = "high"
or_high (some level) = level

unfoldable pub tool_risk_level : String → String
unfolding get
tool_risk_level tool_name = or_high (get tool_name risk_levels)
