-- ===== src/Examples/Access.antt =====
-- A task of a tenant that composition/tenant_access.py accepts.
use skill_centric_agent_syst.Base.{
  String, ◌≡◌, refl, none, some, List, [], ◌∷◌, Dict, obj, Fields, field, end, same, member,
  missing, is_blank, to_str, sorted_set, distinct, get, insert, keep, compare_lists, compare_texts,
  text_le, insert_sorted, sort, is_space,
}
use skill_centric_agent_syst.Base.Outcome.{ok, for_each}
use skill_centric_agent_syst.Composition.TaskAnalyzer.Types.{AuthClaims}
use skill_centric_agent_syst.Composition.TenantAccess.{
  validate, validate_authority, validate_tenant_identity, validate_membership, role_bundles,
  validate_role_grants, validate_selected_modules, string_set, select_roles, roles_by_id,
  all_granted_sources, granted_sources, mappings, derivations, derived_modules,
  granted_capabilities, require_allowed, source_tenants,
}
use skill_centric_agent_syst.Composition.TenantAccess.Membership.{Vetted, validate-Vetted}
use skill_centric_agent_syst.Examples.Runs.{plain}
use skill_centric_agent_syst.Examples.Tenants.{authority}

abbrev pub claims : AuthClaims
claims = record {
  principal_id = "ada";
  principal_type = "user";
  authorization_policies = [];
  control_plane_principal_kind = "user";
  control_plane_principal_id = "ada";
  display_name = none;
  roles = "reviewer" ∷ [];
  tenant_id = "acme";
  area_id = "sales";
  tenant_hostname = some "acme.example";
  membership_id = some "m1";
  role_data_sources = [];
  role_capabilities = [];
}

abbrev response : Fields
response = field "tenant_authority" (obj authority) end

abbrev chosen : Dict (List String)
chosen = ("tools", "repo.read" ∷ []) ∷ ("instructions", "base-agent-rules" ∷ []) ∷ []

accepted_task : validate plain.builtins claims response chosen ≡ ok tt
unfolding validate validate_authority validate_tenant_identity validate_membership role_bundles
    validate_role_grants validate_selected_modules same member missing string_set is_blank to_str
    select_roles sorted_set distinct get roles_by_id insert for_each all_granted_sources
    granted_sources mappings derivations keep compare_lists compare_texts text_le insert_sorted sort
    is_space derived_modules granted_capabilities require_allowed source_tenants
accepted_task = refl

validate-Vetted_example : Vetted plain.builtins claims response chosen
validate-Vetted_example = validate-Vetted plain.builtins claims response chosen refl accepted_task
