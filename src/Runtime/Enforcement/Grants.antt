-- ===== src/Runtime/Enforcement/Grants.antt =====
-- The second half of `_validate_tenant_authority`: what the roles of the profile grant, and the
-- whole of `validate_profile_for_runtime`.
use skill_centric_agent_syst.Base.{
  String, Bool, true, false, Option, none, some, List, [], ◌∷◌, ◌++◌, ◌==◌, if◌then◌else◌, missing,
  is_empty, Dict, get, insert, Json, null, str, Fields, find, as_mapping, as_list, as_text, to_str,
  same,
}
use skill_centric_agent_syst.Base.Outcome.{Outcome, ok, check, some_or, ◌>>=◌, ◌>>◌}
use skill_centric_agent_syst.Runtime.Enforcement.Profile.{
  Failure, Containers, find_or, empty_list, empty_object, require_pinned, require_generation,
}
use skill_centric_agent_syst.Runtime.Enforcement.Tenant.{
  deny, baseline_instructions, baseline_validators, mappings, mappings_of, string_set,
  validate_tenant_identity, validate_tenant_membership, tenant_role_bundles,
}

-- `d.get(k)` of a dict of JSON values
abbrev pub or_null : Option Json → Json
or_null none = null
or_null (some v) = v

-- `{source["id"]: source.get("tenant_id") for source in …}`
unfoldable pub source_tenants : List Fields → Dict Json → Dict Json
source_tenants [] d = d
source_tenants (s ∷ rest) d =
    source_tenants rest
      (elim (as_text (find "id" s)) [ none ↦ d | some id ↦ insert id (find "tenant_id" s) d ])

module _ (py : Containers) where
  -- The data sources that the grants of one role name, each of which is of the tenant.
  unfoldable pub granted_sources : String → Dict Json → List Fields → Outcome Failure (List String)
  granted_sources tenant_id tenants [] = ok []
  granted_sources tenant_id tenants (grant ∷ grants) = do
    source ←
        some_or (as_text (find "data_source_id" grant)) (deny "tenant_data_source_grant_invalid")
    check (same py.builtins (or_null (get source tenants)) (str tenant_id))
        (deny "tenant_data_source_grant_crosses_tenant")
    rest ← granted_sources tenant_id tenants grants
    ok (source ∷ rest)

  unfoldable pub all_granted_sources :
      String → Dict Json → List Fields → Outcome Failure (List String)
  all_granted_sources tenant_id tenants [] = ok []
  all_granted_sources tenant_id tenants (role ∷ roles) = do
    here ←
        granted_sources tenant_id tenants
          (mappings_of (find_or "data_source_grants" empty_list role))
    rest ← all_granted_sources tenant_id tenants roles
    ok (here ++ rest)

  unfoldable pub granted_capabilities : List Fields → List String
  granted_capabilities [] = []
  granted_capabilities (role ∷ roles) =
      string_set py (find_or "capability_grants" empty_list role) ++ granted_capabilities roles

  -- `_validate_tenant_role_grants`
  unfoldable pub validate_tenant_role_grants :
      Fields → Fields → List Fields → Outcome Failure (Unit {0})
  validate_tenant_role_grants tenant_context authority roles = do
    sources ←
        some_or (as_list (find_or "data_sources" empty_list authority))
          (deny "tenant_data_sources_invalid")
    let tenant_id = to_str py.builtins (find_or "tenant_id" (str "") tenant_context)
    granted ← all_granted_sources tenant_id (source_tenants (mappings sources) []) roles
    check
        (is_empty (
          missing (string_set py (find_or "allowed_role_capabilities" empty_list tenant_context))
            (granted_capabilities roles)))
        (deny "tenant_capability_not_role_derived")
    check
        (is_empty (
          missing (string_set py (find_or "allowed_role_data_sources" empty_list tenant_context))
            granted))
        (deny "tenant_data_source_not_role_derived")

  -- The modules of one kind that a role derives.
  abbrev pub derived_of : String → Fields → List String
  derived_of kind derived = string_set py (find_or kind empty_list derived)

  -- `allowed_runtime_modules[kind]` once the loop over the roles is done
  unfoldable pub derived_modules : String → List Fields → List String
  derived_modules kind [] = []
  derived_modules kind (d ∷ ds) = derived_of kind d ++ derived_modules kind ds

  -- `derived_runtime_modules` of each role
  unfoldable pub derivations : List Fields → Outcome Failure (List Fields)
  derivations [] = ok []
  derivations (role ∷ roles) = do
    here ←
        some_or (as_mapping (find_or "derived_runtime_modules" empty_object role))
          (deny "tenant_runtime_derivation_missing")
    rest ← derivations roles
    ok (here ∷ rest)

  -- One line of the table `checks`.
  unfoldable pub require_subset :
      String → List String → String → Fields → Outcome Failure (Unit {0})
  require_subset field_name allowed code profile =
      check (is_empty (missing (string_set py (find_or field_name empty_list profile)) allowed))
        (deny code)

  -- `_validate_tenant_selected_modules`
  unfoldable pub validate_tenant_selected_modules :
      Fields → Fields → List Fields → Outcome Failure (Unit {0})
  validate_tenant_selected_modules profile authority roles = do
    ds ← derivations roles
    require_subset "skills" (derived_modules "skills" ds) "tenant_skill_denied" profile
    require_subset "tools" (derived_modules "tools" ds) "tenant_tool_denied" profile
    require_subset "policies" (derived_modules "policies" ds) "tenant_policy_denied" profile
    require_subset "validators" (derived_modules "validators" ds ++ baseline_validators)
        "tenant_validator_denied" profile
    require_subset "knowledge_scopes"
        (string_set py (find_or "allowed_knowledge_scopes" empty_list authority))
        "tenant_knowledge_scope_denied" profile
    require_subset "data_scopes"
        (string_set py (find_or "allowed_data_scopes" empty_list authority))
        "tenant_data_scope_denied" profile
    require_subset "memory_scopes"
        (string_set py (find_or "allowed_memory_scopes" empty_list authority))
        "tenant_memory_scope_denied" profile
    require_subset "instructions" baseline_instructions "tenant_instruction_denied" profile

  -- The part of `_validate_tenant_authority` for a tenant that is not the global one.
  unfoldable pub validate_scoped : Fields → Fields → Outcome Failure (Unit {0})
  validate_scoped profile tenant_context = do
    authority ←
        some_or (as_mapping (find "tenant_authority" profile)) (deny "tenant_authority_missing")
    validate_tenant_identity py tenant_context authority
    role_ids ← validate_tenant_membership py profile tenant_context authority
    roles ← tenant_role_bundles py authority role_ids
    validate_tenant_role_grants tenant_context authority roles
    validate_tenant_selected_modules profile authority roles

  abbrev pub is_null : Json → Bool
  is_null null = true
  is_null _ = false

  -- `_validate_tenant_authority`
  unfoldable pub validate_tenant_authority : Fields → Outcome Failure (Unit {0})
  validate_tenant_authority profile = do
    tenant_context ←
        some_or (as_mapping (find "tenant_context" profile)) (deny "tenant_context_missing")
    let tenant_id = to_str py.builtins (find_or "tenant_id" (str "") tenant_context)
    if tenant_id == "global"
        then check (is_null (find "tenant_authority" profile))
            (deny "global_tenant_authority_present")
        else validate_scoped profile tenant_context

  unfoldable pub validate_profile_for_runtime : Fields → Outcome Failure (Unit {0})
  validate_profile_for_runtime profile = do
    require_pinned py profile
    require_generation py profile
    validate_tenant_authority profile
