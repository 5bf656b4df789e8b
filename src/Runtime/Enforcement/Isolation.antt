-- ===== src/Runtime/Enforcement/Isolation.antt =====
-- What a tenant-scoped profile that passes has shown: whose it is, and where each module comes from.
use skill_centric_agent_syst.Base.{
  String, ◌≡◌, ap, subst, ◌∙◌, ◌⊎◌, inl, inr, Bool, true, ◌||◌, Option, none, some, List, [], ◌∷◌,
  arith, member, member-append, missing-none, Dict, get, Json, str, Fields, find, as_mapping,
  as_list, to_str, same, sorted_set, member-sorted_set, All, Any, Bool-cases, eq_refl,
}
use mathlib.Core.Bool.{false≢true}
use skill_centric_agent_syst.Base.Outcome.{
  Outcome, ok, check, some_or, for_each, bind_inv, check_inv, check_ok,
}
use skill_centric_agent_syst.Runtime.Enforcement.Profile.{
  Failure, Containers, find_or, empty_list, empty_object,
}
use skill_centric_agent_syst.Runtime.Enforcement.Tenant.{
  deny, in_set, is_false, is_true, mappings, index_by_id, string_set, principal_id, same_field,
  validate_tenant_identity, validate_tenant_membership, select_roles,
}
use skill_centric_agent_syst.Runtime.Enforcement.Grants.{derived_of, derived_modules, derivations}

module _ (py : Containers) where
  -- A role bundle derives the module of that kind.
  abbrev pub Derives : String → String → Fields → Type 0
  Derives kind x role =
      (derived : Fields) × (as_mapping (find_or "derived_runtime_modules" empty_object role)
        ≡ some derived)
      × (member x (derived_of py kind derived) ≡ true)

  pub some_or_inv :
      {A : Type 0} (o : Option A) (e : Failure) (a : A) → some_or o e ≡ ok a → o ≡ some a
  some_or_inv none e a h = cc
  some_or_inv (some b) e a h = ground arith

  pub ok_inv : {A : Type 0} (a b : A) → ◌≡◌ {A = Outcome Failure A} (ok a) (ok b) → b ≡ a
  ok_inv a b h = ground arith

  pub derivations-Any :
      (kind x : String) (roles ds : List Fields)
      → derivations py roles ≡ ok ds
      → member x (derived_modules py kind ds) ≡ true
      → Any (Derives kind x) roles
  unfolding derivations derived_modules member
  derivations-Any kind x [] ds h m = absurd (false≢true (rw (ok_inv [] ds h) at m))
  derivations-Any kind x (role ∷ roles) ds h m =
      let o = as_mapping (find_or "derived_runtime_modules" empty_object role) in
      let (d, h1, g1) = bind_inv (some_or o _) _ ds h in
      let (rest, h2, g2) = bind_inv (derivations py roles) _ ds g1 in
      let m1 : (member x (derived_of py kind d) || member x (derived_modules py kind rest)) ≡ true =
        rw (← member-append x (derived_of py kind d) (derived_modules py kind rest))
          (subst (λ l. member x (derived_modules py kind l) ≡ true) (ok_inv (d ∷ rest) ds g2) m) in
      elim (Bool-cases (member x (derived_of py kind d))) [
        | inl found ↦ inl (d, some_or_inv o _ d h1, found)
        | inr absent ↦ inr (derivations-Any kind x roles rest h2 (ground arith))
      ]

  pub select-Any :
      (P : Fields → Type 0) (by_id : Dict Fields) (ids : List String) (roles : List Fields)
      → select_roles py by_id ids ≡ ok roles
      → Any P roles
      → (id : String) × (member id ids ≡ true)
        × (role : Fields) × (get id by_id ≡ some role)
        × P role
  unfolding select_roles member
  select-Any P by_id [] roles h a = absurd (subst (Any P) (ok_inv [] roles h) a)
  select-Any P by_id (i ∷ is) roles h a =
      let (role, h1, g1) = bind_inv (some_or (get i by_id) _) _ roles h in
      let (rest, h2, g2) = bind_inv (select_roles py by_id is) _ roles g1 in
      go role rest h1 h2 (subst (Any P) (ok_inv (role ∷ rest) roles g2) a)
        (select-Any P by_id is rest h2)
    where
      go :
          (role : Fields) (rest : List Fields)
          → some_or (get i by_id) (deny "tenant_role_bundle_missing") ≡ ok role
          → select_roles py by_id is ≡ ok rest
          → P role ⊎ Any P rest
          → (Any P rest
              → (id : String) × (member id is ≡ true)
                × (r : Fields) × (get id by_id ≡ some r)
                × P r)
          → (id : String) × (member id (i ∷ is) ≡ true)
            × (r : Fields) × (get id by_id ≡ some r)
            × P r
      go role rest h1 h2 (inl p) later =
          (i, ground (arith, eq_refl i), role, some_or_inv _ _ role h1, p)
      go role rest h1 h2 (inr q) later =
          let (id, m, r, e, p) = later q in (id, ground arith, r, e, p)

  -- The same, with what holds of every role beside it.
  pub Any-with :
      (P Q : Fields → Type 0) (roles : List Fields)
      → All Q roles
      → Any P roles
      → Any (λ r. P r × Q r) roles
  Any-with P Q [] h a = a
  Any-with P Q (r ∷ rs) h (inl p) = inl (p, h.0)
  Any-with P Q (r ∷ rs) h (inr a) = inr (Any-with P Q rs h.1 a)

  pub for_each_inv :
      (test : Fields → Bool) (e : Failure) (roles : List Fields)
      → for_each (λ r. check (test r) e) roles ≡ ok tt
      → All (λ r. test r ≡ true) roles
  unfolding for_each
  for_each_inv test e [] h = tt
  for_each_inv test e (r ∷ rs) h =
      let (p, rest) = check_inv (test r) e _ tt h in (p, for_each_inv test e rs rest)

  abbrev pub SameTenant : Fields → Fields → Type 0
  SameTenant a b = same py.builtins (find "tenant_id" a) (find "tenant_id" b) ≡ true

  -- A role of the profile that its membership holds, with a bundle of the tenant, vouches for `P`.
  pub record Vouched (tenant_context authority membership : Fields) (P : Fields → Type 0)
      : Type 0 where
    pub role_id : String
    pub of_profile :
        member role_id (string_set py (find_or "role_ids" empty_list tenant_context)) ≡ true
    pub of_membership :
        member role_id (string_set py (find_or "role_ids" empty_list membership)) ≡ true
    pub bundles : List Json
    pub listed : as_list (find_or "role_bundles" empty_list authority) ≡ some bundles
    pub role : Fields
    pub indexed : get role_id (index_by_id (mappings bundles) []) ≡ some role
    pub of_tenant :
        same py.builtins
          (find "tenant_id" role)
          (str (to_str py.builtins (find_or "tenant_id" (str "") authority)))
        ≡ true
    pub vouches : P role

  -- The selected modules of a field of the profile.
  abbrev pub selected : String → Fields → List String
  selected kind profile = string_set py (find_or kind empty_list profile)

  -- The authority of an accepted tenant profile.
  pub record Owned (profile tenant_context authority membership : Fields) : Type 0 where
    pub authority_given : as_mapping (find "tenant_authority" profile) ≡ some authority
    pub own_tenant : SameTenant authority tenant_context
    pub tenant_runs : in_set (find "status" authority) ("setup" ∷ "active" ∷ []) ≡ ok true
    pub no_direct_grants : is_false (find "direct_user_grants_allowed" authority) ≡ true
    pub membership_given : as_mapping (find "membership" authority) ≡ some membership
    pub member_of_tenant : SameTenant membership tenant_context
    pub member_is_principal :
        same py.builtins (find "principal_id" membership) (principal_id py profile) ≡ true
    pub member_active : in_set (find "status" membership) ("active" ∷ []) ≡ ok true

  pub identity_inv :
      (tenant_context authority : Fields)
      → validate_tenant_identity py tenant_context authority ≡ ok tt
      → SameTenant authority tenant_context
        × (in_set (find "status" authority) ("setup" ∷ "active" ∷ []) ≡ ok true)
        × (is_false (find "direct_user_grants_allowed" authority) ≡ true)
  unfolding validate_tenant_identity
  identity_inv tc a h =
      let (tenant, h1) = check_inv _ _ _ tt h in
      let (area, h2) = check_inv _ _ _ tt h1 in
      let (host, host_given, h3) = bind_inv (some_or (as_mapping (find "hostname" a)) _) _ tt h2 in
      let (host_tenant, h4) = check_inv (same_field py "tenant_id" host tc) _ _ tt h3 in
      let (host_name, h5) = check_inv (same_field py "hostname" host tc) _ _ tt h4 in
      let (active, status, h6) =
        bind_inv (in_set (find "status" a) ("setup" ∷ "active" ∷ [])) _ tt h5 in
      let (runs, h7) = check_inv active _ _ tt h6 in
      let (derivation, derivation_given, h8) =
        bind_inv (some_or (as_mapping (find "role_derivation" tc)) _) _ tt h7 in
      let (d1, h9) =
        check_inv (is_false (find "direct_user_grants_allowed" derivation)) _ _ tt h8 in
      let (d2, h10) =
        check_inv (is_true (find "capabilities_derive_from_roles" derivation)) _ _ tt h9 in
      let (d3, h11) =
        check_inv (is_true (find "data_sources_derive_from_roles" derivation)) _ _ tt h10 in
      (tenant, status ∙ ap ok runs, check_ok _ _ h11)

  pub membership_inv :
      (profile tc a : Fields) (ids : List String)
      → validate_tenant_membership py profile tc a ≡ ok ids
      → (m : Fields) × (as_mapping (find "membership" a) ≡ some m)
        × SameTenant m tc
        × (same py.builtins (find "principal_id" m) (principal_id py profile) ≡ true)
        × (in_set (find "status" m) ("active" ∷ []) ≡ ok true)
        × ((id : String)
            → member id ids ≡ true
            → (member id (string_set py (find_or "role_ids" empty_list tc)) ≡ true)
              × (member id (string_set py (find_or "role_ids" empty_list m)) ≡ true))
  unfolding validate_tenant_membership
  membership_inv profile tc a ids h =
      let (m, given, h1) = bind_inv (some_or (as_mapping (find "membership" a)) _) _ ids h in
      let (own_id, h2) = check_inv _ _ _ ids h1 in
      let (tenant, h3) = check_inv _ _ _ ids h2 in
      let (principal, h4) = check_inv _ _ _ ids h3 in
      let (active, status, h5) = bind_inv (in_set (find "status" m) ("active" ∷ [])) _ ids h4 in
      let (runs, h6) = check_inv active _ _ ids h5 in
      let (subset, h7) = check_inv _ _ _ ids h6 in
      let roles = string_set py (find_or "role_ids" empty_list tc) in
      let same_ids : ids ≡ sorted_set roles = ok_inv (sorted_set roles) ids h7 in
      (
        m,
        some_or_inv _ _ m given,
        tenant,
        principal,
        status ∙ ap ok runs,
        λ id i.
            (let known = member-sorted_set id roles (subst (λ l. member id l ≡ true) same_ids i) in
              (known, missing-none roles _ subset id known)),
      )
