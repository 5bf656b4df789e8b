-- ===== src/Composition/TenantAccess.antt =====
-- composition/tenant_access.py: `TenantAccessValidator`, which checks the authority of a tenant for
-- the task that was analyzed before a profile is emitted.
pub mod Membership
use skill_centric_agent_syst.Base.{
  String, Bool, true, false, not, Option, none, some, List, [], ◌∷◌, ◌++◌, map, ◌==◌, if◌then◌else◌,
  keep, member, missing, is_empty, Dict, get, insert, sorted_set, Json, str, bool, arr, obj, Fields,
  find, has_key, as_mapping, as_list, as_text, Builtins, to_str, same, is_blank,
}
use skill_centric_agent_syst.Base.Outcome.{Outcome, ok, err, check, some_or, for_each, ◌>>=◌, ◌>>◌}
use skill_centric_agent_syst.Composition.TaskAnalyzer.Types.{AuthClaims}
use skill_centric_agent_syst.Runtime.Enforcement.Profile.{find_or, empty_list, empty_object}

-- `TenantAccessError(message)`, and what `d[k]` and a set raise.
pub data AccessError : Type 0 where
  refused : String → AccessError
  key_error : String → AccessError
  unhashable : AccessError

-- `v is False`
abbrev pub is_false : Json → Bool
is_false (bool false) = true
is_false _ = false

-- `v in frozenset(xs)`
abbrev pub in_statuses : Json → List String → Outcome AccessError Bool
in_statuses (str s) xs = ok (member s xs)
in_statuses (arr vs) xs = err unhashable
in_statuses (obj fs) xs = err unhashable
in_statuses v xs = ok false

abbrev pub all_mappings : List Json → List Fields
all_mappings [] = []
all_mappings (v ∷ vs) = elim (as_mapping v) [
  | none ↦ all_mappings vs
  | some fs ↦ fs ∷ all_mappings vs
]

abbrev entries : Option (List Json) → List Json
entries none = []
entries (some vs) = vs

-- `_mappings`
unfoldable pub mappings : Json → List Fields
mappings v = all_mappings (entries (as_list v))

-- The dictionary of the roles by their text ids.
unfoldable pub roles_by_id : List Fields → Dict Fields → Dict Fields
roles_by_id [] d = d
roles_by_id (r ∷ rs) d =
    roles_by_id rs (elim (as_text (find "id" r)) [ none ↦ d | some id ↦ insert id r d ])

abbrev tenant_of : Option Json → Json
tenant_of none = Json.null
tenant_of (some v) = v

unfoldable pub source_tenants : List Fields → Dict Json → Dict Json
source_tenants [] d = d
source_tenants (s ∷ rest) d =
    source_tenants rest
      (elim (as_text (find "id" s)) [ none ↦ d | some id ↦ insert id (find "tenant_id" s) d ])

abbrev or_none : Option (List String) → List String
or_none none = []
or_none (some xs) = xs

module _ (py : Builtins) where
  -- `_string_set`, as a list
  unfoldable pub string_set : Json → List String
  string_set v = keep (λ s. not (is_blank s)) (map (to_str py) (entries (as_list v)))

  abbrev is_text : String → Fields → String → Bool
  is_text k fs s = same py (find k fs) (str s)

  -- `_validate_tenant_identity`
  unfoldable pub validate_tenant_identity : AuthClaims → Fields → Outcome AccessError (Unit {0})
  validate_tenant_identity claims authority = do
    check (is_text "tenant_id" authority claims.tenant_id)
        (refused "Tenant authority does not match the analyzed tenant.")
    check (is_text "area_id" authority claims.area_id)
        (refused "Tenant authority does not match the analyzed area.")
    hostname ←
        some_or (as_mapping (find "hostname" authority))
          (refused "Tenant hostname authority is required.")
    check (is_text "tenant_id" hostname claims.tenant_id)
        (refused "Tenant hostname authority crosses tenant boundary.")
    expected ←
        some_or claims.tenant_hostname
          (refused "Tenant hostname is required for tenant-scoped profiles.")
    check (is_text "hostname" hostname expected)
        (refused "Tenant hostname authority does not match auth claims.")
    active ← in_statuses (find "status" authority) ("setup" ∷ "active" ∷ [])
    check active (refused "Tenant is not active for runtime composition.")
    check (is_false (find "direct_user_grants_allowed" authority))
        (refused "Direct user grants are not allowed for tenant profiles.")

  -- `_validate_membership`
  unfoldable pub validate_membership : AuthClaims → Fields → Outcome AccessError (List String)
  validate_membership claims authority = do
    membership ←
        some_or (as_mapping (find "membership" authority))
          (refused "Tenant membership is required for tenant-scoped profiles.")
    expected ←
        some_or claims.membership_id
          (refused "Tenant membership id is required for tenant-scoped profiles.")
    check (is_text "id" membership expected)
        (refused "Tenant membership does not match the analyzed task.")
    check (is_text "tenant_id" membership claims.tenant_id)
        (refused "Tenant membership crosses tenant boundary.")
    check (is_text "principal_id" membership claims.principal_id)
        (refused "Tenant membership principal does not match auth claims.")
    active ← in_statuses (find "status" membership) ("active" ∷ [])
    check active (refused "Tenant membership is not active.")
    check (is_empty (missing claims.roles (string_set (find_or "role_ids" empty_list membership))))
        (refused "Tenant roles are not granted by the active membership")
    ok (sorted_set claims.roles)

  unfoldable pub select_roles : Dict Fields → List String → Outcome AccessError (List Fields)
  select_roles by_id [] = ok []
  select_roles by_id (r ∷ rs) = do
    role ← some_or (get r by_id) (refused "Tenant roles are not present in tenant authority")
    rest ← select_roles by_id rs
    ok (role ∷ rest)

  -- `_role_bundles`
  unfoldable pub role_bundles : Fields → List String → Outcome AccessError (List Fields)
  role_bundles authority role_ids = do
    bundles ←
        some_or (as_list (find_or "role_bundles" empty_list authority))
          (refused "Tenant role bundles must be a list.")
    roles ← select_roles (roles_by_id (all_mappings bundles) []) role_ids
    check (has_key "tenant_id" authority) (key_error "tenant_id")
    let tenant_id = to_str py (find "tenant_id" authority)
    for_each
        (λ role.
          check (is_text "tenant_id" role tenant_id)
            (refused "Tenant role bundle crosses tenant boundary."))
        roles
    ok roles

  -- The sources of the grants of one role; a grant without a text id is skipped.
  unfoldable pub granted_sources :
      String → Dict Json → List Fields → Outcome AccessError (List String)
  granted_sources tenant_id tenants [] = ok []
  granted_sources tenant_id tenants (grant ∷ grants) =
      let rest = granted_sources tenant_id tenants grants in
      elim (as_text (find "data_source_id" grant)) [
        | none ↦ rest
        | some source ↦
            check (same py (tenant_of (get source tenants)) (str tenant_id))
              (refused "Tenant role data-source grant crosses tenant boundary.")
            >> (rest >>= λ found. ok (source ∷ found))
      ]

  unfoldable pub all_granted_sources :
      String → Dict Json → List Fields → Outcome AccessError (List String)
  all_granted_sources tenant_id tenants [] = ok []
  all_granted_sources tenant_id tenants (role ∷ roles) = do
    here ←
        granted_sources tenant_id tenants (mappings (find_or "data_source_grants" empty_list role))
    rest ← all_granted_sources tenant_id tenants roles
    ok (here ++ rest)

  unfoldable pub granted_capabilities : List Fields → List String
  granted_capabilities [] = []
  granted_capabilities (role ∷ roles) =
      string_set (find_or "capability_grants" empty_list role) ++ granted_capabilities roles

  -- `_validate_role_grants`
  unfoldable pub validate_role_grants :
      AuthClaims → Fields → List Fields → Outcome AccessError (Unit {0})
  validate_role_grants claims authority roles = do
    sources ←
        some_or (as_list (find_or "data_sources" empty_list authority))
          (refused "Tenant data sources must be a list.")
    granted ← all_granted_sources claims.tenant_id (source_tenants (all_mappings sources) []) roles
    check (is_empty (missing claims.role_capabilities (granted_capabilities roles)))
        (refused "Requested capabilities are not derived from tenant roles")
    check (is_empty (missing claims.role_data_sources granted))
        (refused "Requested data sources are not derived from tenant roles")

  unfoldable pub derivations : List Fields → Outcome AccessError (List Fields)
  derivations [] = ok []
  derivations (role ∷ roles) = do
    here ←
        some_or (as_mapping (find_or "derived_runtime_modules" empty_object role))
          (refused "Tenant role bundle is missing runtime module derivation.")
    rest ← derivations roles
    ok (here ∷ rest)

  unfoldable pub derived_modules : String → List Fields → List String
  derived_modules kind [] = []
  derived_modules kind (d ∷ ds) = string_set (find_or kind empty_list d) ++ derived_modules kind ds

  -- One line of `checks`: `set(selected_modules.get(field, ()))` is allowed.
  unfoldable pub require_allowed :
      String → List String → Dict (List String) → Outcome AccessError (Unit {0})
  require_allowed field_name allowed chosen =
      check (is_empty (missing (or_none (get field_name chosen)) allowed)) (refused field_name)

  -- `_validate_selected_modules`
  unfoldable pub validate_selected_modules :
      Fields → List Fields → Dict (List String) → Outcome AccessError (Unit {0})
  validate_selected_modules authority roles chosen = do
    ds ← derivations roles
    require_allowed "skills" (derived_modules "skills" ds) chosen
    require_allowed "tools" (derived_modules "tools" ds) chosen
    require_allowed "policies" (derived_modules "policies" ds) chosen
    require_allowed "validators"
        (derived_modules "validators" ds ++ ("runtime-profile-schema" ∷ [])) chosen
    require_allowed "knowledge_scopes"
        (string_set (find_or "allowed_knowledge_scopes" empty_list authority)) chosen
    require_allowed "data_scopes" (string_set (find_or "allowed_data_scopes" empty_list authority))
        chosen
    require_allowed "memory_scopes"
        (string_set (find_or "allowed_memory_scopes" empty_list authority)) chosen
    require_allowed "instructions" ("base-agent-rules" ∷ "code-review-rules" ∷ []) chosen

  unfoldable pub validate_authority :
      AuthClaims → Json → Dict (List String) → Outcome AccessError (Unit {0})
  validate_authority claims given chosen = do
    authority ←
        some_or (as_mapping given)
          (refused "Tenant authority is required for tenant-scoped profiles.")
    validate_tenant_identity claims authority
    role_ids ← validate_membership claims authority
    roles ← role_bundles authority role_ids
    validate_role_grants claims authority roles
    validate_selected_modules authority roles chosen

  -- `validate`
  unfoldable pub validate :
      AuthClaims → Fields → Dict (List String) → Outcome AccessError (Unit {0})
  validate claims context_response chosen =
      if claims.tenant_id == "global"
      then ok tt
      else validate_authority claims (find "tenant_authority" context_response) chosen
