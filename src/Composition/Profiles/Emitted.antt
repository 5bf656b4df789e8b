-- ===== src/Composition/Profiles/Emitted.antt =====
-- The way to a profile that is composed: what it selects, and the pins of its modules.
use skill_centric_agent_syst.Base.{
  String, ◌≡◌, sym, ◌∙◌, subst, Bool, true, false, Option, List, [], ◌++◌, if◌then◌else◌, keep,
  member, member-append, Dict, Json, Fields, ℤ, Builtins, inl, inr,
}
use skill_centric_agent_syst.Base.Outcome.{ok, seq_inv, bind_inv}
use skill_centric_agent_syst.Composition.TaskAnalyzer.Types.{AnalyzedTask}
use skill_centric_agent_syst.Composition.ProfileComposer.References.{
  SkillRoles, split_roles, roles_from, skill_execution_roles,
}
use skill_centric_agent_syst.Composition.ProfileComposer.Checks.{
  assert_recomposition_traceability, assert_composable,
}
use skill_centric_agent_syst.Composition.ProfileComposer.Emission.{
  Selection, Lineage, Terms, emit, all_selected, profile_object,
}
use skill_centric_agent_syst.Composition.ProfileComposer.Context.{
  pins_from, tenant_authority_snapshot,
}
use skill_centric_agent_syst.Composition.ProfileComposer.{
  lineage_of, version_by_name, review_selection, review_terms, default_terms, no_roles, selection,
  human_review_profile, compose_review, compose_default, compose, assert_tenant_access, policies_of,
  require_policies, candidates,
}
use skill_centric_agent_syst.Composition.Profiles.Pins.{member-keep, either}

-- The roles give no skill that is not selected.
abbrev pub RolesSelected : SkillRoles → List String → Type 0
RolesSelected roles skills =
    (x : String)
    → member x (roles.runtime_skills ++ roles.shared_skills) ≡ true
    → member x skills ≡ true

member-two_keeps :
    (p q : String → Bool) (xs : List String) (x : String)
    → member x (keep p xs ++ keep q xs) ≡ true
    → member x xs ≡ true
member-two_keeps p q xs x h =
    elim (either _ (member x (keep q xs)) (sym (member-append x (keep p xs) (keep q xs)) ∙ h)) [
      | inl first ↦ member-keep p xs x first
      | inr second ↦ member-keep q xs x second
    ]

split-RolesSelected :
    (d : Dict String) (skills : List String) → RolesSelected (split_roles d skills) skills
unfolding split_roles
split-RolesSelected d skills x h = member-two_keeps _ _ skills x h

-- What a profile of a task selects, and on which terms.
abbrev pub selection_by : Builtins → AnalyzedTask → Fields → Bool → Selection
selection_by py task context_response true = review_selection context_response
selection_by py task context_response false = selection py task context_response

abbrev pub terms_by : AnalyzedTask → Bool → Terms
terms_by task true = review_terms task
terms_by task false = default_terms task

-- A profile that was composed for a task, from a selection on terms.
pub record Composed (py : Builtins) (task : AnalyzedTask) (context_response : Fields)
    (lineage : Lineage) (terms : Terms) (chosen : Selection) (profile : Fields) : Type 0 where
  pub roles : SkillRoles
  pub pins : Dict String
  pub authority : Json
  pub is_profile : profile ≡ profile_object task lineage terms authority chosen roles pins
  pub pinned :
      pins_from (version_by_name context_response) task.task_type (all_selected chosen) [] ≡ ok pins
  pub snapshot : tenant_authority_snapshot task.auth_claims context_response ≡ ok authority
  pub roles_selected : RolesSelected roles chosen.skills
  pub vetted : assert_tenant_access py task context_response chosen ≡ ok tt

module _ (py : Builtins) (task : AnalyzedTask) (context_response : Fields) (lineage : Lineage) where
  abbrev Emits : Terms → Selection → SkillRoles → Fields → Type 0
  Emits terms chosen roles profile =
      emit task context_response lineage terms (version_by_name context_response) chosen roles
      ≡ ok profile

  emit_inv :
      (terms : Terms) (chosen : Selection) (roles : SkillRoles) (profile : Fields)
      → RolesSelected roles chosen.skills
      → assert_tenant_access py task context_response chosen ≡ ok tt
      → Emits terms chosen roles profile
      → Composed py task context_response lineage terms chosen profile
  unfolding emit
  emit_inv terms chosen roles profile held vetted h =
      let (authority, snapshot, h1) =
        bind_inv (tenant_authority_snapshot task.auth_claims context_response) _ profile h in
      let (pins, pinned, h2) = bind_inv (pins_from _ _ (all_selected chosen) []) _ profile h1 in
      record {
        roles = roles;
        pins = pins;
        authority = authority;
        is_profile = cc;
        pinned = pinned;
        snapshot = snapshot;
        roles_selected = held;
        vetted = vetted;
      }

  review_inv :
      (profile : Fields)
      → compose_review py task context_response lineage ≡ ok profile
      → Composed py task context_response lineage
          (review_terms task)
          (review_selection context_response)
          profile
  unfolding compose_review human_review_profile
  review_inv profile h =
      let (p, made, h1) =
        bind_inv (human_review_profile task context_response lineage) _ profile h in
      let (vetted, h2) = seq_inv (assert_tenant_access py task context_response _) _ profile h1 in
      let same : p ≡ profile = cc in
      let (some_policies, emitted) =
        seq_inv (require_policies (policies_of context_response))
          (emit task context_response lineage (review_terms task) (version_by_name context_response)
            (review_selection context_response) no_roles)
          p made in
      emit_inv (review_terms task) (review_selection context_response) no_roles profile (λ x m. m)
        vetted (rw same at emitted)

  default_inv :
      (profile : Fields)
      → compose_default py task context_response lineage ≡ ok profile
      → Composed py task context_response lineage
          (default_terms task)
          (selection py task context_response)
          profile
  unfolding compose_default skill_execution_roles
  default_inv profile h =
      let (roles, split, h1) =
        bind_inv
          (skill_execution_roles py (candidates py context_response)
            (selection py task context_response).skills)
          _ profile h in
      let (some_policies, h2) =
        seq_inv (require_policies (policies_of context_response)) _ profile h1 in
      let (vetted, emitted) =
        seq_inv (assert_tenant_access py task context_response (selection py task context_response))
          _ profile h2 in
      let (by_name, read, same) =
        bind_inv (roles_from py (candidates py context_response) []) _ roles split in
      let is_split : split_roles by_name (selection py task context_response).skills ≡ roles = cc in
      emit_inv (default_terms task) (selection py task context_response) roles profile
        (subst (λ r. RolesSelected r (selection py task context_response).skills) is_split
          (split-RolesSelected by_name (selection py task context_response).skills))
        vetted emitted

-- A composition that returned kept to the rules of recomposition, passed the checks of the response,
-- and is the object of what the code selects for such a task.
pub compose_inv :
    (py : Builtins) (task : AnalyzedTask) (context_response : Fields) (generation : ℤ)
    (parent reason : Option String) (profile : Fields)
    → compose py task context_response generation parent reason ≡ ok profile
    → (assert_recomposition_traceability generation parent reason ≡ ok tt)
      × (assert_composable py task context_response ≡ ok tt)
      × Composed py task context_response
          (lineage_of generation parent reason)
          (terms_by task task.requires_human_review)
          (selection_by py task context_response task.requires_human_review)
          profile
unfolding compose
compose_inv py task context_response generation parent reason profile h =
    let (traced, h1) =
      seq_inv (assert_recomposition_traceability generation parent reason) _ profile h in
    let (composable, h2) = seq_inv (assert_composable py task context_response) _ profile h1 in
    (traced, composable, by_review task.requires_human_review h2)
  where
    by_review :
        (b : Bool)
        → (if b
            then compose_review py task context_response (lineage_of generation parent reason)
            else compose_default py task context_response (lineage_of generation parent reason))
          ≡ ok profile
        → Composed py task context_response
            (lineage_of generation parent reason)
            (terms_by task b)
            (selection_by py task context_response b)
            profile
    by_review true k = review_inv py task context_response _ profile k
    by_review false k = default_inv py task context_response _ profile k
