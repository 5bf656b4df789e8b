-- ===== src/Runtime/Enforcement/Tenant.antt =====
-- `validate_profile_for_runtime` with `_validate_tenant_authority`: what a tenant-scoped profile has
-- to show before it runs. The exceptions are told apart by their codes.
use skill_centric_agent_syst.Base.{
  String, Bool, true, false, not, Option, none, some, List, [], ◌∷◌, map, member, keep, missing,
  is_empty, Dict, get, insert, Json, null, bool, str, arr, obj, Fields, find, as_mapping, as_list,
  as_text, to_str, same, is_blank, sorted_set,
}
use skill_centric_agent_syst.Base.Outcome.{Outcome, ok, err, check, some_or, for_each, ◌>>=◌, ◌>>◌}
use skill_centric_agent_syst.Runtime.Enforcement.Profile.{
  Failure, denied, type_error, Containers, find_or, empty_list, empty_object,
}

abbrev pub deny : String → Failure
deny code = denied "policy_denied" code

abbrev pub baseline_instructions : List String
baseline_instructions = "base-agent-rules" ∷ "code-review-rules" ∷ []

abbrev pub baseline_validators : List String
baseline_validators = "runtime-profile-schema" ∷ []

-- `v is False` and `v is True`
abbrev pub is_false : Json → Bool
is_false (bool false) = true
is_false _ = false

abbrev pub is_true : Json → Bool
is_true (bool true) = true
is_true _ = false

-- `v in frozenset(xs)`: a list or a dict cannot be hashed
abbrev pub in_set : Json → List String → Outcome Failure Bool
in_set (str s) xs = ok (member s xs)
in_set (arr vs) xs = err type_error
in_set (obj fs) xs = err type_error
in_set v xs = ok false

-- The mappings of a list.
abbrev pub mappings : List Json → List Fields
mappings [] = []
mappings (v ∷ vs) = elim (as_mapping v) [ none ↦ mappings vs | some fs ↦ fs ∷ mappings vs ]

abbrev pub or_empty {ℓ} : {A : Type ℓ} → Option (List A) → List A
or_empty none = []
or_empty (some xs) = xs

-- `_mappings`
unfoldable pub mappings_of : Json → List Fields
mappings_of v = mappings (or_empty (as_list v))

-- `{role["id"]: role for role in roles if isinstance(role, Mapping) and isinstance(role.get("id"), str)}`
unfoldable pub index_by_id : List Fields → Dict Fields → Dict Fields
index_by_id [] d = d
index_by_id (r ∷ rs) d =
    index_by_id rs (elim (as_text (find "id" r)) [ none ↦ d | some id ↦ insert id r d ])

module _ (py : Containers) where
  -- `_string_set`, as a list
  unfoldable pub string_set : Json → List String
  string_set v = keep (λ s. not (is_blank s)) (map (to_str py.builtins) (or_empty (as_list v)))

  abbrev pub same_field : String → Fields → Fields → Bool
  same_field k a b = same py.builtins (find k a) (find k b)

  -- `_validate_tenant_identity`
  unfoldable pub validate_tenant_identity : Fields → Fields → Outcome Failure (Unit {0})
  validate_tenant_identity tenant_context authority = do
    check (same_field "tenant_id" authority tenant_context)
        (deny "tenant_authority_tenant_mismatch")
    check (same_field "area_id" authority tenant_context) (deny "tenant_authority_area_mismatch")
    hostname ←
        some_or (as_mapping (find "hostname" authority)) (deny "tenant_hostname_authority_missing")
    check (same_field "tenant_id" hostname tenant_context)
        (deny "tenant_hostname_authority_tenant_mismatch")
    check (same_field "hostname" hostname tenant_context)
        (deny "tenant_hostname_authority_mismatch")
    active ← in_set (find "status" authority) ("setup" ∷ "active" ∷ [])
    check active (deny "tenant_not_active")
    derivation ←
        some_or (as_mapping (find "role_derivation" tenant_context))
          (deny "tenant_role_derivation_missing")
    check (is_false (find "direct_user_grants_allowed" derivation))
        (deny "tenant_direct_user_grants_enabled")
    check (is_true (find "capabilities_derive_from_roles" derivation))
        (deny "tenant_capability_derivation_invalid")
    check (is_true (find "data_sources_derive_from_roles" derivation))
        (deny "tenant_data_source_derivation_invalid")
    check (is_false (find "direct_user_grants_allowed" authority))
        (deny "tenant_authority_direct_user_grants_enabled")

  -- `auth_context.principal.id`, or null where a part is no mapping
  abbrev pub principal_id : Fields → Json
  principal_id profile = elim (as_mapping (find_or "auth_context" empty_object profile)) [
    | none ↦ null
    | some auth ↦ elim (as_mapping (find_or "principal" empty_object auth)) [
      | none ↦ null
      | some principal ↦ find "id" principal
    ]
  ]

  -- `_validate_tenant_membership`: the roles of the profile, in order
  unfoldable pub validate_tenant_membership :
      Fields → Fields → Fields → Outcome Failure (List String)
  validate_tenant_membership profile tenant_context authority = do
    membership ←
        some_or (as_mapping (find "membership" authority)) (deny "tenant_membership_missing")
    check (same py.builtins (find "id" membership) (find "membership_id" tenant_context))
        (deny "tenant_membership_mismatch")
    check (same_field "tenant_id" membership tenant_context)
        (deny "tenant_membership_crosses_tenant")
    check (same py.builtins (find "principal_id" membership) (principal_id profile))
        (deny "tenant_membership_principal_mismatch")
    active ← in_set (find "status" membership) ("active" ∷ [])
    check active (deny "tenant_membership_not_active")
    let profile_roles = string_set (find_or "role_ids" empty_list tenant_context)
    check (is_empty (missing profile_roles (string_set (find_or "role_ids" empty_list membership))))
        (deny "tenant_role_not_in_membership")
    ok (sorted_set profile_roles)

  -- The bundle of each role, and that each is of the tenant.
  unfoldable pub select_roles : Dict Fields → List String → Outcome Failure (List Fields)
  select_roles by_id [] = ok []
  select_roles by_id (r ∷ rs) = do
    role ← some_or (get r by_id) (deny "tenant_role_bundle_missing")
    rest ← select_roles by_id rs
    ok (role ∷ rest)

  -- `_tenant_role_bundles`
  unfoldable pub tenant_role_bundles : Fields → List String → Outcome Failure (List Fields)
  tenant_role_bundles authority role_ids = do
    bundles ←
        some_or (as_list (find_or "role_bundles" empty_list authority))
          (deny "tenant_role_bundles_invalid")
    roles ← select_roles (index_by_id (mappings bundles) []) role_ids
    let tenant_id = to_str py.builtins (find_or "tenant_id" (str "") authority)
    for_each
        (λ role.
          check (same py.builtins (find "tenant_id" role) (str tenant_id))
            (deny "tenant_role_bundle_crosses_tenant"))
        roles
    ok roles
