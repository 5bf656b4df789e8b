-- ===== src/Composition/TenantAccess/Membership.antt =====
-- Whose authority an accepted task has, and what its profile may select.
use skill_centric_agent_syst.Base.{
  String, ◌≡◌, true, false, Option, none, some, List, [], ◌∷◌, ◌++◌, ◌==◌, member, missing,
  is_empty, missing-none, Dict, get, Fields, find, as_mapping, Builtins, ◌∙◌, ap,
}
use skill_centric_agent_syst.Base.Outcome.{
  Outcome, ok, check, some_or, check_inv, check_ok, seq_inv, bind_inv,
}
use skill_centric_agent_syst.Runtime.Enforcement.Profile.{find_or, empty_list}
use skill_centric_agent_syst.Composition.TaskAnalyzer.Types.{AuthClaims}
use skill_centric_agent_syst.Composition.TenantAccess.{
  AccessError, is_false, in_statuses, or_none, is_text, string_set, validate_tenant_identity,
  validate_membership, role_bundles, derivations, derived_modules, require_allowed,
  validate_role_grants, validate_selected_modules, validate_authority, validate,
}

module _ (py : Builtins) where
  -- The authority and the membership of an accepted task.
  pub record Vetted (claims : AuthClaims) (context_response : Fields) (chosen : Dict (List String))
      : Type 0 where
    pub authority : Fields
    pub authority_given : as_mapping (find "tenant_authority" context_response) ≡ some authority
    pub own_tenant : is_text py "tenant_id" authority claims.tenant_id ≡ true
    pub own_area : is_text py "area_id" authority claims.area_id ≡ true
    pub tenant_runs : in_statuses (find "status" authority) ("setup" ∷ "active" ∷ []) ≡ ok true
    pub no_direct_grants : is_false (find "direct_user_grants_allowed" authority) ≡ true
    pub membership : Fields
    pub membership_given : as_mapping (find "membership" authority) ≡ some membership
    pub member_of_tenant : is_text py "tenant_id" membership claims.tenant_id ≡ true
    pub member_is_principal : is_text py "principal_id" membership claims.principal_id ≡ true
    pub member_active : in_statuses (find "status" membership) ("active" ∷ []) ≡ ok true
    pub roles_held :
        (r : String)
        → member r claims.roles ≡ true
        → member r (string_set py (find_or "role_ids" empty_list membership)) ≡ true
    pub instructions_baseline :
        (x : String)
        → member x (or_none (get "instructions" chosen)) ≡ true
        → member x ("base-agent-rules" ∷ "code-review-rules" ∷ []) ≡ true

  given_inv :
      {A : Type 0} (o : Option A) (e : AccessError) (a : A) → some_or o e ≡ ok a → o ≡ some a
  given_inv none e a h = cc
  given_inv (some b) e a h = cc

  held_inv :
      (xs ys : List String) (e : AccessError)
      → check (is_empty (missing xs ys)) e ≡ ok tt
      → (x : String) → member x xs ≡ true
      → member x ys ≡ true
  held_inv xs ys e h = missing-none xs ys (check_ok _ _ h)

  identity_inv :
      (claims : AuthClaims) (a : Fields)
      → validate_tenant_identity py claims a ≡ ok tt
      → (is_text py "tenant_id" a claims.tenant_id ≡ true)
        × (is_text py "area_id" a claims.area_id ≡ true)
        × (in_statuses (find "status" a) ("setup" ∷ "active" ∷ []) ≡ ok true)
        × (is_false (find "direct_user_grants_allowed" a) ≡ true)
  unfolding validate_tenant_identity
  identity_inv claims a h =
      let (tenant, h1) = check_inv _ _ _ tt h in
      let (area, h2) = check_inv _ _ _ tt h1 in
      let (host, host_given, h3) = bind_inv (some_or (as_mapping (find "hostname" a)) _) _ tt h2 in
      let (host_tenant, h4) = check_inv (is_text py "tenant_id" host claims.tenant_id) _ _ tt h3 in
      let (expected, e_given, h5) = bind_inv (some_or claims.tenant_hostname _) _ tt h4 in
      let (host_name, h6) = check_inv (is_text py "hostname" host expected) _ _ tt h5 in
      let (active, status, h7) =
        bind_inv (in_statuses (find "status" a) ("setup" ∷ "active" ∷ [])) _ tt h6 in
      let (runs, h8) = check_inv active _ _ tt h7 in
      (tenant, area, status ∙ ap ok runs, check_ok _ _ h8)

  membership_inv :
      (claims : AuthClaims) (a : Fields) (ids : List String)
      → validate_membership py claims a ≡ ok ids
      → (m : Fields) × (as_mapping (find "membership" a) ≡ some m)
        × (is_text py "tenant_id" m claims.tenant_id ≡ true)
        × (is_text py "principal_id" m claims.principal_id ≡ true)
        × (in_statuses (find "status" m) ("active" ∷ []) ≡ ok true)
        × ((r : String)
            → member r claims.roles ≡ true
            → member r (string_set py (find_or "role_ids" empty_list m)) ≡ true)
  unfolding validate_membership
  membership_inv claims a ids h =
      let (m, given, h1) = bind_inv (some_or (as_mapping (find "membership" a)) _) _ ids h in
      let (expected, e_given, h2) = bind_inv (some_or claims.membership_id _) _ ids h1 in
      let (own_id, h3) = check_inv (is_text py "id" m expected) _ _ ids h2 in
      let (tenant, h4) = check_inv _ _ _ ids h3 in
      let (principal, h5) = check_inv _ _ _ ids h4 in
      let (active, status, h6) =
        bind_inv (in_statuses (find "status" m) ("active" ∷ [])) _ ids h5 in
      let (runs, h7) = check_inv active _ _ ids h6 in
      let (subset, h8) = check_inv _ _ _ ids h7 in
      (
        m,
        given_inv _ _ m given,
        tenant,
        principal,
        status ∙ ap ok runs,
        missing-none claims.roles _ subset,
      )

  allowed_inv :
      (kind : String) (allowed : List String) (chosen : Dict (List String))
      → require_allowed py kind allowed chosen ≡ ok tt
      → (x : String) → member x (or_none (get kind chosen)) ≡ true
      → member x allowed ≡ true
  unfolding require_allowed
  allowed_inv kind allowed chosen h = held_inv (or_none (get kind chosen)) allowed _ h

  instructions_inv :
      (a : Fields) (roles : List Fields) (chosen : Dict (List String))
      → validate_selected_modules py a roles chosen ≡ ok tt
      → (x : String) → member x (or_none (get "instructions" chosen)) ≡ true
      → member x ("base-agent-rules" ∷ "code-review-rules" ∷ []) ≡ true
  unfolding validate_selected_modules
  instructions_inv a roles chosen h =
      let scopes : String → List String = λ k. string_set py (find_or k empty_list a) in
      let (ds, derived, h1) = bind_inv (derivations py roles) _ tt h in
      let needs : String → List String → Outcome AccessError (Unit {0}) =
        λ k allowed. require_allowed py k allowed chosen in
      let (c1, h2) = seq_inv (needs "skills" (derived_modules py "skills" ds)) _ tt h1 in
      let (c2, h3) = seq_inv (needs "tools" (derived_modules py "tools" ds)) _ tt h2 in
      let (c3, h4) = seq_inv (needs "policies" (derived_modules py "policies" ds)) _ tt h3 in
      let (c4, h5) =
        seq_inv
          (needs "validators"
            (derived_modules py "validators" ds ++ ("runtime-profile-schema" ∷ [])))
          _ tt h4 in
      let (c5, h6) =
        seq_inv (needs "knowledge_scopes" (scopes "allowed_knowledge_scopes")) _ tt h5 in
      let (c6, h7) = seq_inv (needs "data_scopes" (scopes "allowed_data_scopes")) _ tt h6 in
      let (c7, h8) = seq_inv (needs "memory_scopes" (scopes "allowed_memory_scopes")) _ tt h7 in
      allowed_inv "instructions" ("base-agent-rules" ∷ "code-review-rules" ∷ []) chosen h8

  -- A task of a tenant that `validate` accepts has the authority of its own tenant and area, which is
  -- set up or active and grants nothing to users directly; the authority holds an active membership
  -- of the task's principal in that tenant; the membership holds every role that the task claims; and
  -- each selected instruction is a baseline one.
  pub validate-Vetted :
      (claims : AuthClaims) (context_response : Fields) (chosen : Dict (List String))
      → (claims.tenant_id == "global") ≡ false
      → validate py claims context_response chosen ≡ ok tt
      → Vetted claims context_response chosen
  unfolding validate validate_authority
  validate-Vetted claims context chosen scoped h =
      let h0 = rw scoped at h in
      let (a, given, h1) =
        bind_inv (some_or (as_mapping (find "tenant_authority" context)) _) _ tt h0 in
      let (identity, h2) = seq_inv (validate_tenant_identity py claims a) _ tt h1 in
      let (tenant, area, runs, no_grants) = identity_inv claims a identity in
      let (ids, membership, h3) = bind_inv (validate_membership py claims a) _ tt h2 in
      let (m, m_given, m_tenant, m_principal, m_active, held) =
        membership_inv claims a ids membership in
      let (roles, bundles, h4) = bind_inv (role_bundles py a ids) _ tt h3 in
      let (grants, h5) = seq_inv (validate_role_grants py claims a roles) _ tt h4 in
      record {
        authority = a;
        authority_given = given_inv _ _ a given;
        own_tenant = tenant;
        own_area = area;
        tenant_runs = runs;
        no_direct_grants = no_grants;
        membership = m;
        membership_given = m_given;
        member_of_tenant = m_tenant;
        member_is_principal = m_principal;
        member_active = m_active;
        roles_held = held;
        instructions_baseline = instructions_inv a roles chosen h5;
      }
