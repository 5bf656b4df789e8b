-- ===== src/Composition/Profiles/Sealed.antt =====
-- A composed profile passes the assertions of runtime/invariant_assertions.py on a sealed profile,
-- and the check of pins with which the enforcer starts.
use mathlib.Core.List.{append-nil}
use skill_centric_agent_syst.Base.{
  ◌≢◌, subst, String, ◌≡◌, refl, sym, ◌∙◌, Bool, true, false, Option, none, some, List, [], arith,
  member, none-missing, Dict, keys, ℤ, pos, negsuc, zero, suc, Json, Fields, Builtins, truthy,
}
use skill_centric_agent_syst.Base.Outcome.{ok}
use skill_centric_agent_syst.Runtime.Invariants.{
  difference_finding, selected_modules, texts_in, assert_fail_closed_on_unknowns,
  assert_no_self_granting, assert_immutable_profile_after_seal,
}
use skill_centric_agent_syst.Composition.TaskAnalyzer.Types.{AnalyzedTask}
use skill_centric_agent_syst.Composition.ProfileComposer.References.{SkillRoles}
use skill_centric_agent_syst.Composition.ProfileComposer.Checks.{
  assert_recomposition_traceability, check_recomposed,
}
use skill_centric_agent_syst.Composition.ProfileComposer.Emission.{
  Selection, Lineage, Terms, all_selected, profile_object,
}
use skill_centric_agent_syst.Composition.ProfileComposer.Context.{pins_from}
use skill_centric_agent_syst.Composition.ProfileComposer.{lineage_of, compose}
use skill_centric_agent_syst.Composition.Profiles.Emitted.{
  compose_inv, selection_by, terms_by, RolesSelected,
}
use skill_centric_agent_syst.Composition.Profiles.Pins.{
  member-pins_from, field_names-text_object, texts_in-texts,
}

difference-none :
    (id message : String) (xs ys : List String)
    → ((x : String) → member x xs ≡ true → member x ys ≡ true)
    → difference_finding id message xs ys ≡ []
unfolding difference_finding
difference-none id message xs ys h = rw (none-missing xs ys h)

module _ (task : AnalyzedTask) (lineage : Lineage) (terms : Terms) (authority : Json)
    (s : Selection) (roles : SkillRoles) (pins : Dict String) where
  abbrev emitted : Fields
  emitted = profile_object task lineage terms authority s roles pins

  selected-emitted : selected_modules emitted ≡ all_selected s
  unfolding selected_modules profile_object
  selected-emitted = simp (texts_in-texts, append-nil)

  closed :
      ((x : String) → member x (keys pins) ≡ member x (all_selected s))
      → assert_fail_closed_on_unknowns emitted ≡ []
  unfolding assert_fail_closed_on_unknowns profile_object
  closed same =
      rw
        (
          selected-emitted,
          field_names-text_object pins,
          difference-none _ _ (all_selected s) (keys pins) (λ x m. same x ∙ m),
          difference-none _ _ (keys pins) (all_selected s) (λ x m. sym (same x) ∙ m),
        )
        refl

module _ (py : Builtins) (task : AnalyzedTask) (context_response : Fields) (lineage : Lineage)
    (authority : Json) (roles : SkillRoles) (pins : Dict String) where
  grants_nothing :
      (b : Bool)
      → RolesSelected roles (selection_by py task context_response b).skills
      → assert_no_self_granting (
          profile_object task lineage
            (terms_by task b)
            authority
            (selection_by py task context_response b)
            roles
            pins)
        ≡ []
  unfolding assert_no_self_granting profile_object texts_in
  grants_nothing true held = simp (texts_in-texts, difference-none _ _ _ _ held)
  grants_nothing false held = simp (texts_in-texts, difference-none _ _ _ _ held)

-- No reason is the empty text.
reason_stated : (parent : String) → check_recomposed (some parent) (some String.[]) ≢ ok tt
unfolding check_recomposed member
reason_stated parent h = cc

-- `truthy` of the profile that a recomposed one names.
abbrev pub names_parent : Option String → Bool
names_parent none = true
names_parent (some String.[]) = false
names_parent (some s) = true

module _ (py : Builtins) (task : AnalyzedTask) (terms : Terms) (authority : Json) (s : Selection)
    (roles : SkillRoles) (pins : Dict String) where
  generation_sealed :
      (generation : ℤ) (parent reason : Option String)
      → names_parent parent ≡ true
      → assert_recomposition_traceability generation parent reason ≡ ok tt
      → assert_immutable_profile_after_seal py
          (profile_object task (lineage_of generation parent reason) terms authority s roles pins)
        ≡ []
  unfolding assert_immutable_profile_after_seal profile_object assert_recomposition_traceability
      truthy
  generation_sealed (negsuc n) parent reason named h = cc
  generation_sealed (pos zero) parent reason named h = cc
  generation_sealed (pos (suc zero)) none none named h = refl
  generation_sealed (pos (suc zero)) none (some r) named h = cc
  generation_sealed (pos (suc zero)) (some p) reason named h = cc
  generation_sealed (pos (suc (suc n))) none reason named h = cc
  generation_sealed (pos (suc (suc n))) (some p) none named h = cc
  generation_sealed (pos (suc (suc n))) (some p) (some String.[]) named h =
      absurd (reason_stated p h)
  generation_sealed (pos (suc (suc n))) (some String.[]) (some (String.◌∷◌ c r)) named h = cc
  generation_sealed (pos (suc (suc n))) (some (String.◌∷◌ d p)) (some (String.◌∷◌ c r)) named h =
      refl

pinned_once :
    (versions : Dict String) (task_type : String) (names : List String) (pins : Dict String)
    (x : String)
    → pins_from versions task_type names [] ≡ ok pins
    → member x (keys pins) ≡ member x names
unfolding member keys
pinned_once versions task_type names pins x h =
    ground (arith, member-pins_from versions task_type names [] pins x h)

-- A profile that is composed pins exactly the modules that it selects, lets no skill run that it does
-- not select, selects nothing to run where a person has to review it, and is sealed as its generation
-- asks: the three assertions on a sealed profile that do not look at the type of the task find
-- nothing, where the profile it is recomposed from, if one is named, has a text that is not empty.
pub compose_sealed :
    (py : Builtins) (task : AnalyzedTask) (context_response : Fields) (generation : ℤ)
    (parent reason : Option String) (profile : Fields)
    → names_parent parent ≡ true
    → compose py task context_response generation parent reason ≡ ok profile
    → (assert_fail_closed_on_unknowns profile ≡ [])
      × (assert_no_self_granting profile ≡ [])
      × (assert_immutable_profile_after_seal py profile ≡ [])
compose_sealed py task context_response generation parent reason profile named h =
    let (traced, composable, c) =
      compose_inv py task context_response generation parent reason profile h in
    let terms = terms_by task task.requires_human_review in
    let chosen = selection_by py task context_response task.requires_human_review in
    subst
      (λ p.
        (assert_fail_closed_on_unknowns p ≡ [])
        × (assert_no_self_granting p ≡ [])
        × (assert_immutable_profile_after_seal py p ≡ []))
      (sym c.is_profile)
      (
        closed task _ terms c.authority chosen c.roles c.pins
            (λ x. pinned_once _ _ _ c.pins x c.pinned),
        grants_nothing py task context_response _ c.authority c.roles c.pins
            task.requires_human_review c.roles_selected,
        generation_sealed py task terms c.authority chosen c.roles c.pins generation parent reason
            named traced,
      )
