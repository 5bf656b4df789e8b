-- ===== src/Composition/ProfileComposer/Context.antt =====
-- composition/profile_composer.py: the ids and pins of a profile, and whom it acts for.
use skill_centric_agent_syst.Base.{
  ℕ, String, Option, none, some, List, [], ◌∷◌, if◌then◌else◌, leb, join, after_head, Dict, get,
  insert, Json, object, null, bool, str, obj, Fields, end, field, find, as_mapping, texts, ◌==◌,
  true, false,
}
use skill_centric_agent_syst.Base.Outcome.{Outcome, ok, some_or, ◌>>=◌}
use skill_centric_agent_syst.Runtime.Models.Slug.{decimal}
use skill_centric_agent_syst.Composition.TaskAnalyzer.Types.{AuthClaims, RiskLevel}
use skill_centric_agent_syst.Composition.ProfileComposer.Settings.{
  baseline_module_versions, task_instruction_versions,
}
use skill_centric_agent_syst.Composition.ProfileComposer.References.{CompositionError, rejected}

-- A JSON object of texts.
abbrev pub text_object : Dict String → Fields
text_object [] = end
text_object ((k, v) ∷ d) = field k (str v) (text_object d)

abbrev pub optional_text : Option String → Json
optional_text none = null
optional_text (some s) = str s

abbrev pub risk_word : RiskLevel → String
risk_word RiskLevel.low = "low"
risk_word RiskLevel.medium = "medium"
risk_word RiskLevel.high = "high"
risk_word RiskLevel.critical = "critical"

abbrev or_whole : String → Option String → String
or_whole s none = s
or_whole s (some rest) = rest

-- `task_id.removeprefix("task-")`
abbrev without_task : String → String
without_task task_id = or_whole task_id (after_head "task-" task_id)

-- `_profile_id`
unfoldable pub profile_id : String → ℕ → String
unfolding join after_head decimal
profile_id task_id generation =
    let id = join "profile-" (without_task task_id) in
    if leb generation 1 then id else join id (join "-g" (decimal generation))

-- `_trace_id`
unfoldable pub trace_id : String → String
unfolding join after_head
trace_id task_id = join "trace-" (without_task task_id)

-- `_version_for`
unfoldable pub version_for : String → Dict String → String → Outcome CompositionError String
version_for name version_by_name task_type = elim (get name version_by_name) [
  | some v ↦ ok v
  | none ↦ elim (get name baseline_module_versions) [
    | some v ↦ ok v
    | none ↦
        some_or (get name (task_instruction_versions task_type))
          (rejected (join "No version pin is available for selected module: " (join name ".")))
  ]
]

-- The comprehension of `module_versions`, one name after the other.
unfoldable pub pins_from :
    Dict String → String → List String → Dict String → Outcome CompositionError (Dict String)
unfolding version_for
pins_from version_by_name task_type [] d = ok d
pins_from version_by_name task_type (name ∷ rest) d =
    version_for name version_by_name task_type >>= λ v.
    pins_from version_by_name task_type rest (insert name v d)

abbrev display : Option String → Dict Json
display none = []
display (some name) = ("display_name", str name) ∷ []

-- `_auth_context`
abbrev pub auth_context : AuthClaims → Fields
auth_context claims = object (
    (
      "principal",
      obj (
          object (
            ("id", str claims.principal_id)
            ∷ ("type", str claims.principal_type)
            ∷ display claims.display_name)),
    )
    ∷ ("roles", texts claims.roles)
    ∷ ("authorization_policies", texts claims.authorization_policies)
    ∷ [])

abbrev role_derivation : Fields
role_derivation = object (
    ("grant_source", str "tenant-role-bundles")
    ∷ ("direct_user_grants_allowed", bool false)
    ∷ ("capabilities_derive_from_roles", bool true)
    ∷ ("data_sources_derive_from_roles", bool true)
    ∷ [])

-- `_tenant_context`
abbrev pub tenant_context : AuthClaims → Fields
tenant_context claims = object (
    ("tenant_id", str claims.tenant_id)
    ∷ ("area_id", str claims.area_id)
    ∷ ("hostname", optional_text claims.tenant_hostname)
    ∷ ("membership_id", optional_text claims.membership_id)
    ∷ ("role_ids", texts claims.roles)
    ∷ ("role_derivation", obj role_derivation)
    ∷ ("allowed_role_data_sources", texts claims.role_data_sources)
    ∷ ("allowed_role_capabilities", texts claims.role_capabilities)
    ∷ [])

-- `_tenant_authority_snapshot`
unfoldable pub tenant_authority_snapshot : AuthClaims → Fields → Outcome CompositionError Json
tenant_authority_snapshot claims context_response =
    if claims.tenant_id == "global"
    then ok null
    else some_or (as_mapping (find "tenant_authority" context_response))
        (rejected "Tenant authority is required for tenant-scoped profiles.")
      >>= λ authority. ok (obj authority)
