-- ===== src/Examples/Tenants.antt =====
-- The profile of a tenant that the validation of runtime/enforcement.py accepts.
use skill_centric_agent_syst.Base.{
  ◌≡◌, refl, true, false, [], ◌∷◌, str, bool, obj, arr, nil, cons, Fields, field, end, texts,
  to_int, same, to_str, missing, member, is_blank, sorted_set, distinct, get, insert, keep,
  compare_lists, compare_texts, text_le, insert_sorted, sort, is_space,
}
use skill_centric_agent_syst.Base.Outcome.{ok, for_each}
use skill_centric_agent_syst.Runtime.Enforcement.Profile.{
  require_pinned, require_generation, selected_modules, unpinned, contains, limit_of, integer,
}
use skill_centric_agent_syst.Runtime.Enforcement.Tenant.{
  validate_tenant_identity, validate_tenant_membership, tenant_role_bundles, select_roles,
  string_set, mappings_of, index_by_id,
}
use skill_centric_agent_syst.Runtime.Enforcement.Grants.{
  validate_tenant_role_grants, all_granted_sources, granted_sources, granted_capabilities,
  source_tenants, derivations, derived_modules, require_subset, validate_tenant_selected_modules,
  validate_scoped, validate_tenant_authority, validate_profile_for_runtime,
}
use skill_centric_agent_syst.Runtime.Enforcement.TenantSafety.{
  IsIsolated, validate_profile-IsIsolated,
}
use skill_centric_agent_syst.Examples.Runs.{plain}

abbrev tenant_context : Fields
tenant_context = field "tenant_id" (str "acme") (
    field "area_id" (str "sales") (
      field "hostname" (str "acme.example") (
        field "membership_id" (str "m1") (
          field "role_ids" (texts ("reviewer" ∷ [])) (
            field "role_derivation"
              (obj (
                field "direct_user_grants_allowed" (bool false) (
                  field "capabilities_derive_from_roles" (bool true)
                    (field "data_sources_derive_from_roles" (bool true) end))))
              end)))))

abbrev membership : Fields
membership = field "id" (str "m1") (
    field "tenant_id" (str "acme") (
      field "principal_id" (str "ada")
        (field "status" (str "active") (field "role_ids" (texts ("reviewer" ∷ [])) end))))

abbrev bundle : Fields
bundle = field "id" (str "reviewer") (
    field "tenant_id" (str "acme")
      (field "derived_runtime_modules" (obj (field "tools" (texts ("repo.read" ∷ [])) end)) end))

abbrev pub authority : Fields
authority = field "tenant_id" (str "acme") (
    field "area_id" (str "sales") (
      field "hostname"
        (obj (field "tenant_id" (str "acme") (field "hostname" (str "acme.example") end)))
        (field "status" (str "active") (
          field "direct_user_grants_allowed" (bool false) (
            field "membership" (obj membership) (
              field "role_bundles" (arr (cons (obj bundle) nil))
                (field "data_sources" (arr nil) end)))))))

abbrev profile : Fields
profile = field "tenant_context" (obj tenant_context) (
    field "tenant_authority" (obj authority) (
      field "auth_context" (obj (field "principal" (obj (field "id" (str "ada") end)) end)) (
        field "tools" (texts ("repo.read" ∷ [])) (
          field "validators" (texts ("runtime-profile-schema" ∷ [])) (
            field "module_versions"
              (obj (
                field "repo.read" (str "1.0.0") (field "runtime-profile-schema" (str "1.0.0") end)))
              end)))))

accepted : validate_profile_for_runtime plain profile ≡ ok tt
unfolding validate_profile_for_runtime require_pinned require_generation validate_tenant_authority
    validate_scoped validate_tenant_identity validate_tenant_membership tenant_role_bundles
    validate_tenant_role_grants validate_tenant_selected_modules unpinned selected_modules contains
    to_str integer to_int limit_of same member missing string_set is_blank select_roles sorted_set
    distinct get index_by_id insert keep compare_lists compare_texts text_le for_each insert_sorted
    sort is_space all_granted_sources derivations derived_modules granted_capabilities
    granted_sources require_subset source_tenants mappings_of
accepted = refl

validate_profile-IsIsolated_example : IsIsolated plain profile tenant_context
validate_profile-IsIsolated_example =
    validate_profile-IsIsolated plain profile tenant_context refl (unfold to_str in refl) accepted
