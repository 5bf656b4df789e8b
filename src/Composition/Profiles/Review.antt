-- ===== src/Composition/Profiles/Review.antt =====
-- Under the profile of a task that a person has to review, runtime/enforcement.py grants nothing.
use skill_centric_agent_syst.Base.{
  ℕ, suc, ◌+◌, String, ◌≡◌, ◌≢◌, refl, sym, subst, Bool, true, false, Option, List, arith, ℤ, pos,
  Json, Dict, Fields, to_int, exceeds,
}
use skill_centric_agent_syst.Base.Outcome.{ok}
use skill_centric_agent_syst.Runtime.Enforcement.Profile.{
  Containers, find_or, empty_list, contains, limit_of,
}
use skill_centric_agent_syst.Runtime.Enforcement.Enforcer.{
  Enforcer, Counter, read, record_tool_invocation, record_data_read, record_memory_op,
  record_recomposition_request, increment_limit, limit_name,
}
use skill_centric_agent_syst.Runtime.Enforcement.Access.{
  record_tool_invocation_sound, increment_inv,
}
use skill_centric_agent_syst.Composition.TaskAnalyzer.Types.{AnalyzedTask}
use skill_centric_agent_syst.Composition.ProfileComposer.Emission.{profile_object, Lineage}
use skill_centric_agent_syst.Composition.ProfileComposer.References.{SkillRoles}
use skill_centric_agent_syst.Composition.ProfileComposer.{compose}
use skill_centric_agent_syst.Composition.Profiles.Emitted.{compose_inv, selection_by, terms_by}

module _ (py : Containers) where
  -- What the profile says of the counters and the tools.
  record GrantsNothing (profile : Fields) : Type 0 where
    no_tool : (name : String) → contains py name (find_or "tools" empty_list profile) ≡ ok false
    no_reads : limit_of py profile "max_data_reads" ≡ ok (pos 0)
    no_memory : limit_of py profile "max_memory_ops" ≡ ok (pos 0)
    no_recomposition : limit_of py profile "max_recompositions" ≡ ok (pos 0)

  module _ (task : AnalyzedTask) (context_response : Fields) (lineage : Lineage) (authority : Json)
      (roles : SkillRoles) (pins : Dict String) where
    abbrev made : Bool → Fields
    made b =
        profile_object task lineage (terms_by task b) authority
          (selection_by py.builtins task context_response b) roles pins

    made-GrantsNothing : GrantsNothing (made true)
    unfolding profile_object contains limit_of to_int
    made-GrantsNothing = record {
      no_tool = λ name. refl;
      no_reads = refl;
      no_memory = refl;
      no_recomposition = refl;
    }

    reviewed-GrantsNothing : (b : Bool) → b ≡ true → GrantsNothing (made b)
    reviewed-GrantsNothing b review =
        subst (λ c. GrantsNothing (made c)) (sym review) made-GrantsNothing

  -- No counter may grow where its limit is zero.
  stays :
      (c : Counter) (n : ℕ) (e f : Enforcer)
      → limit_of py e.profile (limit_name c) ≡ ok (pos 0)
      → increment_limit py c (pos (suc n)) e ≢ (ok tt, f)
  stays c n e f zero_limit h =
      let ((most, found, within), same) = increment_inv py c (suc n) e f h in
      let is_zero : most ≡ pos 0 = cc in
      let over : exceeds (read c e + suc n) (pos 0) ≡ false =
        subst (λ m. exceeds (read c e + suc n) m ≡ false) is_zero within in
      ground arith

  -- Where a person has to review a task, an enforcer of the profile that is composed for it grants no
  -- invocation of any tool, no data read and no memory operation above zero, and no recomposition.
  pub compose-reviewed :
      (task : AnalyzedTask) (context_response : Fields) (generation : ℤ)
      (parent reason : Option String) (e : Enforcer)
      → task.requires_human_review ≡ true
      → compose py.builtins task context_response generation parent reason ≡ ok e.profile
      → ((now : ℕ) (tool_name : String) (scopes policies : List String) (risk : String)
            (f : Enforcer)
          → record_tool_invocation py now tool_name scopes policies risk e ≢ (ok tt, f))
        × ((n : ℕ) (f : Enforcer) → record_data_read py (pos (suc n)) e ≢ (ok tt, f))
        × ((n : ℕ) (f : Enforcer) → record_memory_op py (pos (suc n)) e ≢ (ok tt, f))
        × ((f : Enforcer) → record_recomposition_request py e ≢ (ok tt, f))
  unfolding record_data_read record_memory_op record_recomposition_request limit_name
  compose-reviewed task context_response generation parent reason e review h =
      let (traced, composable, c) =
        compose_inv py.builtins task context_response generation parent reason e.profile h in
      let g : GrantsNothing e.profile = subst GrantsNothing (sym c.is_profile) (
        reviewed-GrantsNothing task context_response _ c.authority c.roles c.pins
          task.requires_human_review review) in
      (
        λ now tool_name scopes policies risk f k.
            let granted =
              record_tool_invocation_sound py now tool_name scopes policies risk e f k in
            cc (g.no_tool tool_name, granted.0.tool_listed),
        λ n f k. stays Counter.data_reads n e f g.no_reads k,
        λ n f k. stays Counter.memory_ops n e f g.no_memory k,
        λ f k. stays Counter.recomposition_requests 0 e f g.no_recomposition k,
      )
