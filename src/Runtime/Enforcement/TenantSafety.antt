-- ===== src/Runtime/Enforcement/TenantSafety.antt =====
-- The guarantee of tenant isolation: what follows when `validate_profile_for_runtime` returns for a
-- profile of a tenant.
use skill_centric_agent_syst.Base.{
  String, ◌≡◌, sym, ap, subst, ◌∙◌, ◌⊎◌, inl, inr, Bool, true, false, some, List, [], ◌++◌, ◌==◌,
  member, member-append, missing-none, Json, str, Fields, find, as_mapping, as_list, to_str, same,
  All, Any, Bool-cases,
}
use skill_centric_agent_syst.Base.Outcome.{
  ok, check, some_or, for_each, bind_inv, check_ok, seq_inv,
}
use skill_centric_agent_syst.Runtime.Enforcement.Profile.{
  Containers, find_or, empty_list, require_pinned, require_generation,
}
use skill_centric_agent_syst.Runtime.Enforcement.Tenant.{
  deny, baseline_instructions, baseline_validators, mappings, index_by_id, string_set,
  validate_tenant_identity, validate_tenant_membership, tenant_role_bundles, select_roles,
}
use skill_centric_agent_syst.Runtime.Enforcement.Grants.{
  derived_modules, derivations, require_subset, validate_tenant_role_grants,
  validate_tenant_selected_modules, validate_scoped, validate_tenant_authority,
  validate_profile_for_runtime,
}
use skill_centric_agent_syst.Runtime.Enforcement.Isolation.{
  Derives, Vouched, Owned, selected, some_or_inv, ok_inv, derivations-Any, select-Any, Any-with,
  for_each_inv, identity_inv, membership_inv,
}

module _ (py : Containers) where
  -- Where every module of an accepted tenant profile comes from.
  pub record Sourced (profile tenant_context authority membership : Fields) : Type 0 where
    pub skills :
        (x : String)
        → member x (selected py "skills" profile) ≡ true
        → Vouched py tenant_context authority membership (Derives py "skills" x)
    pub tools :
        (x : String)
        → member x (selected py "tools" profile) ≡ true
        → Vouched py tenant_context authority membership (Derives py "tools" x)
    pub policies :
        (x : String)
        → member x (selected py "policies" profile) ≡ true
        → Vouched py tenant_context authority membership (Derives py "policies" x)
    pub validators :
        (x : String)
        → member x (selected py "validators" profile) ≡ true
        → Vouched py tenant_context authority membership (Derives py "validators" x)
          ⊎ (member x baseline_validators ≡ true)
    pub knowledge_scopes :
        (x : String)
        → member x (selected py "knowledge_scopes" profile) ≡ true
        → member x (selected py "allowed_knowledge_scopes" authority) ≡ true
    pub data_scopes :
        (x : String)
        → member x (selected py "data_scopes" profile) ≡ true
        → member x (selected py "allowed_data_scopes" authority) ≡ true
    pub memory_scopes :
        (x : String)
        → member x (selected py "memory_scopes" profile) ≡ true
        → member x (selected py "allowed_memory_scopes" authority) ≡ true
    pub instructions :
        (x : String)
        → member x (selected py "instructions" profile) ≡ true
        → member x baseline_instructions ≡ true

  abbrev of_tenant : Fields → Fields → Bool
  of_tenant authority role =
      same py.builtins (find "tenant_id" role)
        (str (to_str py.builtins (find_or "tenant_id" (str "") authority)))

  bundles_inv :
      (authority : Fields) (ids : List String) (roles : List Fields)
      → tenant_role_bundles py authority ids ≡ ok roles
      → (bundles : List Json) × (as_list (find_or "role_bundles" empty_list authority)
          ≡ some bundles)
        × (select_roles py (index_by_id (mappings bundles) []) ids ≡ ok roles)
        × All (λ role. of_tenant authority role ≡ true) roles
  unfolding tenant_role_bundles
  bundles_inv a ids roles h =
      let (bundles, given, h1) =
        bind_inv (some_or (as_list (find_or "role_bundles" empty_list a)) _) _ roles h in
      let (rs, chosen, h2) =
        bind_inv (select_roles py (index_by_id (mappings bundles) []) ids) _ roles h1 in
      let (u, all_same, h3) =
        bind_inv
          (for_each (λ role. check (of_tenant a role) (deny "tenant_role_bundle_crosses_tenant"))
            rs)
          _ roles h2 in
      let same_roles : roles ≡ rs = ok_inv py rs roles h3 in
      (
        bundles,
        some_or_inv py _ _ bundles given,
        chosen ∙ ap ok (sym same_roles),
        subst (All (λ role. of_tenant a role ≡ true)) (sym same_roles)
            (for_each_inv py (of_tenant a) _ rs all_same),
      )

  subset_inv :
      (kind code : String) (allowed : List String) (profile : Fields)
      → require_subset py kind allowed code profile ≡ ok tt
      → (x : String) → member x (selected py kind profile) ≡ true
      → member x allowed ≡ true
  unfolding require_subset
  subset_inv kind code allowed profile h =
      missing-none (selected py kind profile) allowed (check_ok _ _ h)

  module _ (profile tc a m : Fields) (ids : List String) (roles : List Fields)
      (chosen : tenant_role_bundles py a ids ≡ ok roles)
      (known : (id : String)
        → member id ids ≡ true
        → (member id (string_set py (find_or "role_ids" empty_list tc)) ≡ true)
          × (member id (string_set py (find_or "role_ids" empty_list m)) ≡ true)) where
    -- What some selected role bundle satisfies, a role of the profile vouches for.
    vouched : (P : Fields → Type 0) → Any P roles → Vouched py tc a m P
    vouched P some_role =
        let (bundles, given, selected_roles, all_same) = bundles_inv a ids roles chosen in
        let (id, listed_id, role, indexed, (vouches, tenant)) =
          select-Any py (λ r. P r × (of_tenant a r ≡ true)) _ ids roles selected_roles
            (Any-with py P (λ r. of_tenant a r ≡ true) roles all_same some_role) in
        record {
          role_id = id;
          of_profile = (known id listed_id).0;
          of_membership = (known id listed_id).1;
          bundles = bundles;
          listed = given;
          role = role;
          indexed = indexed;
          of_tenant = tenant;
          vouches = vouches;
        }

    module _ (ds : List Fields) (derive : derivations py roles ≡ ok ds) where
      derived_vouched :
          (kind code x : String)
          → require_subset py kind (derived_modules py kind ds) code profile ≡ ok tt
          → member x (selected py kind profile) ≡ true
          → Vouched py tc a m (Derives py kind x)
      derived_vouched kind code x h s =
          vouched (Derives py kind x)
            (derivations-Any py kind x roles ds derive (subset_inv kind code _ profile h x s))

      validator_vouched :
          (x : String)
          → member x (derived_modules py "validators" ds ++ baseline_validators) ≡ true
          → Vouched py tc a m (Derives py "validators" x) ⊎ (member x baseline_validators ≡ true)
      validator_vouched x h = elim (Bool-cases (member x (derived_modules py "validators" ds))) [
        | inl found ↦ inl (
            vouched (Derives py "validators" x)
              (derivations-Any py "validators" x roles ds derive found))
        | inr absent ↦ inr (rw (member-append x (derived_modules py "validators" ds), absent) at h)
      ]

    modules_inv :
        validate_tenant_selected_modules py profile a roles ≡ ok tt → Sourced profile tc a m
    unfolding validate_tenant_selected_modules
    modules_inv h =
        let (ds, derive, h0) = bind_inv (derivations py roles) _ tt h in
        let (c_skills, h1) =
          seq_inv
            (require_subset py "skills" (derived_modules py "skills" ds) "tenant_skill_denied"
              profile)
            _ tt h0 in
        let (c_tools, h2) =
          seq_inv
            (require_subset py "tools" (derived_modules py "tools" ds) "tenant_tool_denied" profile)
            _ tt h1 in
        let (c_policies, h3) =
          seq_inv
            (require_subset py "policies" (derived_modules py "policies" ds) "tenant_policy_denied"
              profile)
            _ tt h2 in
        let (c_validators, h4) =
          seq_inv
            (require_subset py "validators"
              (derived_modules py "validators" ds ++ baseline_validators) "tenant_validator_denied"
              profile)
            _ tt h3 in
        let (c_knowledge_scopes, h5) =
          seq_inv
            (require_subset py "knowledge_scopes" (selected py "allowed_knowledge_scopes" a)
              "tenant_knowledge_scope_denied" profile)
            _ tt h4 in
        let (c_data_scopes, h6) =
          seq_inv
            (require_subset py "data_scopes" (selected py "allowed_data_scopes" a)
              "tenant_data_scope_denied" profile)
            _ tt h5 in
        let (c_memory_scopes, h7) =
          seq_inv
            (require_subset py "memory_scopes" (selected py "allowed_memory_scopes" a)
              "tenant_memory_scope_denied" profile)
            _ tt h6 in
        record {
          skills = λ x. derived_vouched ds derive "skills" _ x c_skills;
          tools = λ x. derived_vouched ds derive "tools" _ x c_tools;
          policies = λ x. derived_vouched ds derive "policies" _ x c_policies;
          validators = λ x s.
              validator_vouched ds derive x (subset_inv "validators" _ _ profile c_validators x s);
          knowledge_scopes = subset_inv "knowledge_scopes" _ _ profile c_knowledge_scopes;
          data_scopes = subset_inv "data_scopes" _ _ profile c_data_scopes;
          memory_scopes = subset_inv "memory_scopes" _ _ profile c_memory_scopes;
          instructions = subset_inv "instructions" _ _ profile h7;
        }

  -- The owner of the profile, and the sources of its modules.
  pub IsIsolated : Fields → Fields → Type 0
  IsIsolated profile tenant_context =
      (authority : Fields) × (membership : Fields) × Owned py profile tenant_context authority
        membership
      × Sourced profile tenant_context authority membership

  scoped_inv : (profile tc : Fields) → validate_scoped py profile tc ≡ ok tt → IsIsolated profile tc
  unfolding validate_scoped IsIsolated
  scoped_inv profile tc h =
      let (a, given, h1) =
        bind_inv (some_or (as_mapping (find "tenant_authority" profile)) _) _ tt h in
      let (identity, h2) = seq_inv (validate_tenant_identity py tc a) _ tt h1 in
      let (own, runs, no_grants) = identity_inv py tc a identity in
      let (ids, membership, h3) = bind_inv (validate_tenant_membership py profile tc a) _ tt h2 in
      let (m, m_given, m_tenant, m_principal, m_active, known) =
        membership_inv py profile tc a ids membership in
      let (roles, chosen, h4) = bind_inv (tenant_role_bundles py a ids) _ tt h3 in
      let (grants, h5) = seq_inv (validate_tenant_role_grants py tc a roles) _ tt h4 in
      (
        a,
        m,
        record {
          authority_given = some_or_inv py _ _ a given;
          own_tenant = own;
          tenant_runs = runs;
          no_direct_grants = no_grants;
          membership_given = m_given;
          member_of_tenant = m_tenant;
          member_is_principal = m_principal;
          member_active = m_active;
        },
        modules_inv profile tc a m ids roles chosen known h5,
      )

  -- A profile of a tenant that passes the validation is that tenant's own: its authority names the
  -- same tenant, which is set up or active, grants nothing to users directly, and holds an active
  -- membership of the profile's principal in that tenant; each skill, tool and policy, and each
  -- validator but the baseline one, is derived by the bundle, of the authority's tenant, of a role
  -- that both the profile and the membership hold; each scope is one that the authority allows, and
  -- each instruction is a baseline one.
  pub validate_profile-IsIsolated :
      (profile tenant_context : Fields)
      → as_mapping (find "tenant_context" profile) ≡ some tenant_context
      → (to_str py.builtins (find_or "tenant_id" (str "") tenant_context) == "global") ≡ false
      → validate_profile_for_runtime py profile ≡ ok tt
      → IsIsolated profile tenant_context
  unfolding validate_profile_for_runtime validate_tenant_authority
  validate_profile-IsIsolated profile tc given scoped h =
      let (pinned, h1) = seq_inv (require_pinned py profile) _ tt h in
      let (generation, h2) = seq_inv (require_generation py profile) _ tt h1 in
      scoped_inv profile tc (rw (given, scoped) at h2)
