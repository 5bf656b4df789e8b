-- ===== src/Composition/Profiles/Policies.antt =====
-- The modules of a composed profile, and the policy decisions of the control plane about them.
use skill_centric_agent_syst.Base.{
  String, ◌≡◌, sym, ◌∙◌, subst, Bool, true, false, not, is_empty, ◌||◌, Option, [], ◌++◌, member,
  member-append, Dict, Json, str, Fields, find, Builtins, same, ◌⊎◌, inl, inr, ℤ,
}
use skill_centric_agent_syst.Base.Outcome.{ok, for_each, seq_inv, bind_inv, check_inv}
use skill_centric_agent_syst.Runtime.Invariants.{string_set}
use skill_centric_agent_syst.Composition.TaskAnalyzer.Types.{AnalyzedTask}
use skill_centric_agent_syst.Composition.ProfileComposer.References.{
  SkillRoles, references, graph_references, policy_decisions, names_of, unique,
}
use skill_centric_agent_syst.Composition.ProfileComposer.Checks.{
  assert_composable, check_policies, check_candidate, effects_from, not_refused, is_allowed,
  check_knowledge, check_graph,
}
use skill_centric_agent_syst.Composition.ProfileComposer.Emission.{profile_object, Lineage, Terms}
use skill_centric_agent_syst.Composition.ProfileComposer.{compose, candidates, selection}
use skill_centric_agent_syst.Composition.Profiles.Emitted.{compose_inv, selection_by}
use skill_centric_agent_syst.Composition.Profiles.Pins.{texts_in-texts, either}
use skill_centric_agent_syst.Composition.Profiles.Effects.{last_effect, effects-last}
use skill_centric_agent_syst.Composition.Profiles.Decisions.{
  candidates_allowed, tools_allowed, unique-member,
}

module _ (py : Builtins) where
  -- What a composable response has passed where no person has to review the task.
  policies_checked :
      (task : AnalyzedTask) (context_response : Fields)
      → task.requires_human_review ≡ false
      → assert_composable py task context_response ≡ ok tt
      → check_policies py context_response ≡ ok tt
  unfolding assert_composable
  policies_checked task context_response unreviewed h =
      let (complete, h1) = check_inv (is_empty task.missing_information) _ _ tt h in
      let (ready, h2) =
        check_inv (same py (find "composition_status" context_response) (str "ready")) _ _ tt h1 in
      let (graph, h3) = seq_inv (check_graph (find "graph_validation" context_response)) _ tt h2 in
      let (some_candidates, h4) =
        check_inv
          (not (is_empty (references context_response "candidate_modules"))
            || task.requires_human_review)
          _ _ tt h3 in
      (seq_inv (check_knowledge py task context_response) (check_policies py context_response) tt
        (rw unreviewed at h4)).1

  -- The lists of skills and tools in a profile that is not for review.
  selected_lists :
      (task : AnalyzedTask) (context_response : Fields) (lineage : Lineage) (terms : Terms)
      (authority : Json) (roles : SkillRoles) (pins : Dict String) (b : Bool) (profile : Fields)
      → b ≡ false
      → profile
        ≡ profile_object task lineage terms authority
            (selection_by py task context_response b)
            roles
            pins
      → (string_set (find "skills" profile)
          ≡ unique (names_of py "skill" (candidates py context_response)))
        × (string_set (find "tools" profile)
            ≡ unique (
                names_of py "tool" (candidates py context_response)
                ++ names_of py "tool" (graph_references context_response)))
  unfolding profile_object string_set selection
  selected_lists task context_response lineage terms authority roles pins true profile unreviewed
        e =
      cc
  selected_lists task context_response lineage terms authority roles pins false profile unreviewed
        e =
      (
        subst
            (λ p.
              string_set (find "skills" p)
              ≡ unique (names_of py "skill" (candidates py context_response)))
            (sym e) (texts_in-texts _),
        subst
            (λ p.
              string_set (find "tools" p)
              ≡ unique (
                  names_of py "tool" (candidates py context_response)
                  ++ names_of py "tool" (graph_references context_response)))
            (sym e) (texts_in-texts _),
      )

  -- What the decisions have to say of the skills and the tools that a profile selects.
  pub record PolicyAllowed (context_response profile : Fields) : Type 0 where
    pub skills_offered :
        (x : String)
        → member x (string_set (find "skills" profile)) ≡ true
        → (member x (names_of py "skill" (candidates py context_response)) ≡ true)
          × (not_refused py (last_effect x (policy_decisions context_response)) ≡ true)
    pub tools_offered :
        (x : String)
        → member x (string_set (find "tools" profile)) ≡ true
        → ((member x (names_of py "tool" (candidates py context_response)) ≡ true)
            × (not_refused py (last_effect x (policy_decisions context_response)) ≡ true))
          ⊎ ((member x (names_of py "tool" (graph_references context_response)) ≡ true)
              × (is_allowed py (last_effect x (policy_decisions context_response)) ≡ true))
    pub graph_tools_allowed :
        (x : String)
        → member x (names_of py "tool" (graph_references context_response)) ≡ true
        → is_allowed py (last_effect x (policy_decisions context_response)) ≡ true

  -- The profile of a task that no person has to review selects only skills and tools that were offered
  -- and not refused, where of several decisions about one name the last one counts: a skill is that of a
  -- candidate, and no decision is about its name, or the effect of the last one is null or "allow"; a
  -- tool is such a candidate's, or one that the graph reaches and the last decision about its name
  -- allows; and that decision allows every tool that the graph reaches.
  pub compose-PolicyAllowed :
      (task : AnalyzedTask) (context_response : Fields) (generation : ℤ)
      (parent reason : Option String) (profile : Fields)
      → task.requires_human_review ≡ false
      → compose py task context_response generation parent reason ≡ ok profile
      → PolicyAllowed context_response profile
  unfolding check_policies
  compose-PolicyAllowed task context_response generation parent reason profile unreviewed h =
      let (traced, composable, c) =
        compose_inv py task context_response generation parent reason profile h in
      let (effects, read, h1) =
        bind_inv (effects_from (policy_decisions context_response) []) _ tt
          (policies_checked task context_response unreviewed composable) in
      let (all_candidates, all_tools) =
        seq_inv (for_each (check_candidate py effects) (candidates py context_response)) _ tt h1 in
      let (skills, tools) =
        selected_lists task context_response _ _ c.authority c.roles c.pins
          task.requires_human_review profile unreviewed c.is_profile in
      let refused_none =
        λ (kind x : String)
            (m : member x (names_of py kind (candidates py context_response)) ≡ true).
          subst (λ o. not_refused py o ≡ true)
            (effects-last x (policy_decisions context_response) effects read)
            (candidates_allowed py effects (candidates py context_response) kind x all_candidates
              m) in
      let graph_allowed =
        λ (x : String)
            (m : member x (names_of py "tool" (graph_references context_response)) ≡ true).
          subst (λ o. is_allowed py o ≡ true)
            (effects-last x (policy_decisions context_response) effects read)
            (tools_allowed py effects (graph_references context_response) x all_tools m) in
      record {
        skills_offered = λ x m.
            let here = unique-member _ x (subst (λ l. member x l ≡ true) skills m) in
            (here, refused_none "skill" x here);
        tools_offered = λ x m.
            elim (either _ _ (
              sym (member-append x _ _)
              ∙ unique-member _ x (subst (λ l. member x l ≡ true) tools m))) [
                | inl here ↦ inl (here, refused_none "tool" x here)
                | inr there ↦ inr (there, graph_allowed x there)
              ];
        graph_tools_allowed = graph_allowed;
      }
