-- ===== src/Composition/TaskAnalyzer/Request.antt =====
-- composition/task_analyzer.py: the request to the control plane that an analyzed task becomes.
use skill_centric_agent_syst.Base.{
  String, Option, none, some, ◌==◌, if◌then◌else◌, texts, Json, null, bool, str, obj, Fields, end,
  field,
}
use skill_centric_agent_syst.Composition.TaskAnalyzer.Types.{
  RiskLevel, Confidence, AnalyzedTask, AuthClaims,
}

-- The JSON value of a text or of `None`.
abbrev pub text_or_null : Option String → Json
text_or_null none = null
text_or_null (some s) = str s

abbrev pub confidence_word : Confidence → String
confidence_word Confidence.high = "high"
confidence_word Confidence.medium = "medium"
confidence_word Confidence.low = "low"

-- `_control_plane_risk_level`, as the word of the level
abbrev control_plane_risk_level : RiskLevel → String
control_plane_risk_level RiskLevel.low = "low"
control_plane_risk_level RiskLevel.medium = "medium"
control_plane_risk_level RiskLevel.high = "high"
control_plane_risk_level RiskLevel.critical = "high"

abbrev signals : AnalyzedTask → Fields
signals a = field "domain_tags" (texts a.domains) (
    field "capability_hints" (texts a.capability_hints) (
      field "available_inputs" (texts a.available_inputs) (
        field "constraints" (texts a.constraints) (
          field "classification_confidence" (str (confidence_word a.classification_confidence)) (
            field "ambiguous_task_types" (texts a.ambiguous_task_types) (
              field "classification_reasons" (texts a.classification_reasons)
                (field "requires_human_review" (bool a.requires_human_review) end)))))))

abbrev task_fields : AnalyzedTask → Fields
task_fields a = field "id" (str a.task_id) (
    field "type" (str a.task_type) (
      field "objective" (str a.objective) (
        field "risk_level" (str (control_plane_risk_level a.risk_level))
          (field "signals" (obj (signals a)) end))))

abbrev pub tenant_fields : AuthClaims → Fields
tenant_fields c = field "tenant_id" (str c.tenant_id) (
    field "area_id" (str c.area_id) (
      field "hostname" (text_or_null c.tenant_hostname)
        (field "membership_id" (text_or_null c.membership_id) end)))

-- The entry of the tenant, which a global task does not have.
abbrev pub tenant_entry : AuthClaims → Fields
tenant_entry c =
    if c.tenant_id == "global" then end else field "tenant_context" (obj (tenant_fields c)) end

-- `AnalyzedTask.to_composition_context_request`
unfoldable pub to_composition_context_request :
    String → String → Option String → AnalyzedTask → Fields
to_composition_context_request environment generation_mode parent_profile_id a =
    let principal =
      field "kind" (str a.auth_claims.control_plane_principal_kind)
        (field "id" (str a.auth_claims.control_plane_principal_id) end) in
    let generation =
      field "mode" (str generation_mode)
        (field "parent_profile_id" (text_or_null parent_profile_id) end) in
    field "contract_version" (str "0.1.0") (
      field "environment" (str environment) (
        field "principal" (obj principal) (
          field "requested_profile_generation" (obj generation)
            (field "task" (obj (task_fields a)) (tenant_entry a.auth_claims)))))
