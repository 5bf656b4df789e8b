-- ===== src/Composition/Analysis.antt =====
-- composition/task_analyzer.py: what every analysis that `TaskAnalyzer.analyze` returns keeps to.
use Prim.Native.Char.{Char}
use skill_centric_agent_syst.Base.{
  String, ◌≡◌, refl, sym, ap, subst, ◌∙◌, Bool, true, false, Option, none, some, List, [], ◌∷◌,
  ◌++◌, arith, join, occurs, member, strip_by, drop_while, reverse_onto, is_space, obj, arr, nil,
  Fields, find, as_mapping, has_key, ◌==◌, truthy, texts,
}
use skill_centric_agent_syst.Base.Outcome.{Outcome, ok, err, bind_inv}
use skill_centric_agent_syst.Runtime.Enforcement.Profile.{
  Failure, index_error, Containers, find_or, iterate,
}
use skill_centric_agent_syst.Composition.TaskAnalyzer.{analyze}
use skill_centric_agent_syst.Composition.TaskAnalyzer.Types.{
  RiskLevel, AuthClaims, AnalyzedTask, TaskClassification, is_id, dedupe, dedupe_from, strip,
  is_empty_text,
}
use skill_centric_agent_syst.Composition.TaskAnalyzer.Signals.{classify_task}
use skill_centric_agent_syst.Composition.TaskAnalyzer.Intake.{
  objective_of, constraints_of, raw_constraints, flags, when, or_default, review_note, is_true,
  given,
}
use skill_centric_agent_syst.Composition.TaskAnalyzer.Claims.{
  auth_claims_of, claims_of, claims_or_default, principal_text, texts_of, default_claims, stated,
  first_of,
}
use skill_centric_agent_syst.Composition.TaskAnalyzer.Identity.{
  claims_inj, task_id_of-is_id, IsCanonical, auth_claims_of-IsCanonical,
}
use skill_centric_agent_syst.Composition.TaskAnalyzer.Request.{
  to_composition_context_request, tenant_entry,
}
use skill_centric_agent_syst.Composition.TaskAnalyzer.Risk.{member-dedupe_from, requested_high}

abbrev pub write_note : String
write_note = "Write access was requested."

flags-member :
    (raw : Fields) → is_true (find "write_access" raw) ≡ true → member write_note (flags raw) ≡ true
unfolding flags member
flags-member raw h = ground arith

member-append : (v : String) (xs ys : List String) → member v xs ≡ true → member v (xs ++ ys) ≡ true
unfolding member
member-append v [] ys h = cc
member-append v (x ∷ xs) ys h = ground (arith, member-append v xs ys)

noted :
    (xs ys : List String)
    → member write_note xs ≡ true
    → member write_note (or_default xs ++ ys) ≡ true
unfolding member
noted [] ys h = cc
noted (x ∷ xs) ys h = member-append write_note (x ∷ xs) ys h

write_note_plain : (strip write_note ≡ write_note) × (is_empty_text write_note ≡ false)
unfolding strip strip_by drop_while reverse_onto is_space
write_note_plain = (refl, refl)

or_given : AnalyzedTask → Outcome Failure AnalyzedTask → AnalyzedTask
or_given a (ok b) = b
or_given a (err e) = a

ok_inj : (a b : AnalyzedTask) (r : Outcome Failure AnalyzedTask) → r ≡ ok a → r ≡ ok b → a ≡ b
unfolding or_given
ok_inj a b r e f = sym (ap (or_given a) e) ∙ ap (or_given a) f

module _ (py : Containers) (casefold : String → String) (is_word : Char → Bool) where
  stated_constraint :
      (task raw : Fields) (c : TaskClassification)
      → find "constraints" task ≡ obj raw
      → is_true (find "write_access" raw) ≡ true
      → member write_note (constraints_of py.builtins task c) ≡ true
  unfolding constraints_of raw_constraints dedupe
  stated_constraint task raw c e h = rw e (
      member-dedupe_from write_note []
        (or_default (flags raw) ++ when c.requires_human_review review_note) write_note_plain.0
        write_note_plain.1
        (noted (flags raw) (when c.requires_human_review review_note) (flags-member raw h)))

  -- What an analysis says of a task that asks for write access.
  pub write_access_high :
      (folds : (s t : String) → casefold (join s t) ≡ join (casefold s) (casefold t))
      → occurs "write access was requested" (casefold write_note) ≡ true
      → (task raw : Fields) (a : AnalyzedTask) → find "constraints" task ≡ obj raw
      → is_true (find "write_access" raw) ≡ true
      → analyze py casefold is_word task ≡ ok a
      → (a.risk_level ≡ RiskLevel.high) × (member write_note a.constraints ≡ true)
  unfolding analyze
  write_access_high folds phrase task raw a e h done =
      let c = classify_task is_word casefold (objective_of task) in
      let (claims, got, made) = bind_inv (auth_claims_of py casefold task c.task_type) _ a done in
      let there = stated_constraint task raw c e h in
      let same = ok_inj _ a _ refl made in
      subst
        (λ (b : AnalyzedTask).
          (b.risk_level ≡ RiskLevel.high) × (member write_note b.constraints ≡ true))
        same (requested_high casefold folds c.task_type (objective_of task) _ phrase there, there)

  -- The identifiers of an analysis: the task's is of the grammar of `_is_id`, those of the claims are like a slug.
  pub analyze-IsCanonical :
      (task : Fields) (a : AnalyzedTask)
      → analyze py casefold is_word task ≡ ok a
      → (is_id a.task_id ≡ true) × IsCanonical a.auth_claims
  unfolding analyze
  analyze-IsCanonical task a done =
      let c = classify_task is_word casefold (objective_of task) in
      let (claims, got, made) = bind_inv (auth_claims_of py casefold task c.task_type) _ a done in
      subst (λ (b : AnalyzedTask). (is_id b.task_id ≡ true) × IsCanonical b.auth_claims)
        (ok_inj _ a _ refl made)
        (
          task_id_of-is_id casefold task (objective_of task),
          auth_claims_of-IsCanonical py casefold task c.task_type claims got,
        )

  -- A task whose claims name no role and no principal of the control plane is not analyzed.
  pub no_roles :
      (task context auth : Fields)
      → find "context" task ≡ obj context
      → find "auth" context ≡ obj auth
      → find_or "roles" (texts ("repository-maintainer" ∷ [])) auth ≡ arr nil
      → truthy py.builtins (find "control_plane_principal_id" auth) ≡ false
      → analyze py casefold is_word task ≡ err index_error
  unfolding analyze auth_claims_of claims_of texts_of principal_text iterate dedupe dedupe_from
      first_of
  no_roles task context auth c r n p = simp (c, r, n, p)

  entered :
      (c : AuthClaims)
      → has_key "tenant_context" (tenant_entry c) ≡ true
      → (c.tenant_id == "global") ≡ false
  entered c there = ground arith

  unless_global :
      (task_type : String) (o : Option Fields) (c : AuthClaims)
      → claims_or_default py casefold task_type o ≡ ok c
      → has_key "tenant_context" (tenant_entry c) ≡ true
      → given o ≡ true
  unfolding default_claims
  unless_global task_type none c h there =
      subst (λ (b : AuthClaims). has_key "tenant_context" (tenant_entry b) ≡ true)
        (sym (claims_inj (default_claims task_type) c _ refl h)) there
  unless_global task_type (some auth) c h there = refl

  -- Where the request of an analyzed task speaks of a tenant, the task stated claims, and the tenant is
  -- not the global one.
  pub request_of_tenant :
      (environment mode : String) (parent : Option String) (task : Fields) (a : AnalyzedTask)
      → analyze py casefold is_word task ≡ ok a
      → has_key "tenant_context" (to_composition_context_request environment mode parent a) ≡ true
      → (given (stated py casefold (as_mapping (find "context" task))) ≡ true)
        × ((a.auth_claims.tenant_id == "global") ≡ false)
  unfolding analyze to_composition_context_request auth_claims_of
  request_of_tenant environment mode parent task a done there =
      let c = classify_task is_word casefold (objective_of task) in
      let (claims, got, made) = bind_inv (auth_claims_of py casefold task c.task_type) _ a done in
      let own = entered a.auth_claims there in
      (
        unless_global c.task_type (stated py casefold (as_mapping (find "context" task))) claims got
            (subst
              (λ (b : AnalyzedTask). has_key "tenant_context" (tenant_entry b.auth_claims) ≡ true)
              (sym (ok_inj _ a _ refl made)) there),
        own,
      )
