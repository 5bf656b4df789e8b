-- ===== src/Runtime/ErrorTaxonomy/Judged.antt =====
-- What the judge of runtime/error_taxonomy.py cannot do.
use skill_centric_agent_syst.Base.{
  String, ◌≡◌, refl, sym, subst, Bool, true, false, not, Option, none, some, ◌==◌, if◌then◌else◌,
  member, eq_iff, ℤ, Dict, Json, str, null, bool, int, float, arr, obj, Fields, find, as_text, inl,
  inr, ◌⊎◌,
}
use skill_centric_agent_syst.Base.Outcome.{Outcome, ok, bind_inv, ◌>>=◌}
use skill_centric_agent_syst.Runtime.Queue.{Error}
use skill_centric_agent_syst.Runtime.Membership.{in_set}
use skill_centric_agent_syst.Runtime.ErrorTaxonomy.{
  ErrorClassification, error_classes, confidences, Host, classify_runtime_failure,
  apply_optional_llm_judge, judge_verdict, check_class, check_playbook, check_confidence, ask,
}

-- A run that a policy stopped is classified as a conflict with a policy, with high confidence, and no
-- judge changes that, whatever it says.
pub denial_stays :
    (host : Host) (error : String) (error_code : Option String) (counters : Dict ℤ) (enabled : Bool)
    (judge : Option (Fields → Json)) (context : Fields)
    → ((classify_runtime_failure host error "policy_denied" error_code counters).error_class
        ≡ "R8_POLICY_CONFLICT_CONTEXT_CONTAMINATION")
      × (apply_optional_llm_judge
            (classify_runtime_failure host error "policy_denied" error_code counters)
            enabled
            judge
            context
          ≡ ok (classify_runtime_failure host error "policy_denied" error_code counters))
unfolding classify_runtime_failure apply_optional_llm_judge
denial_stays host error error_code counters true judge context = (refl, refl)
denial_stays host error error_code counters false judge context = (refl, refl)

-- A classification of the words of the code.
pub record IsKnown (c : ErrorClassification) : Type 0 where
  pub class_known : member c.error_class error_classes ≡ true
  pub confidence_known : member c.error_confidence confidences ≡ true

-- What a judge may have made of a classification.
abbrev pub Judged : ErrorClassification → ErrorClassification → Type 0
Judged base c = (c ≡ base) ⊎ (IsKnown c × (c.classification_source ≡ "llm_judge_v1"))

module _ (base : ErrorClassification) where
  playbook_cases :
      (raw : Fields) (class : String) (v : Json) (playbook : Option String)
      → member class error_classes ≡ true
      → in_set v confidences ≡ ok true
      → Judged base (check_playbook base raw class v playbook)
  playbook_cases raw class v none known allowed = inl refl
  playbook_cases raw class (str s) (some playbook) known allowed =
      inr (record { class_known = known; confidence_known = cc }, refl)
  playbook_cases raw class null (some playbook) known allowed = inl refl
  playbook_cases raw class (bool b) (some playbook) known allowed = inl refl
  playbook_cases raw class (int n) (some playbook) known allowed = inl refl
  playbook_cases raw class (float f) (some playbook) known allowed = inl refl
  playbook_cases raw class (arr vs) (some playbook) known allowed = inl refl
  playbook_cases raw class (obj fs) (some playbook) known allowed = inl refl

  inside :
      {a b : ErrorClassification}
      → ◌≡◌ {A = Outcome Error ErrorClassification} (ok a) (ok b)
      → a ≡ b
  inside e = cc

  class_cases :
      (raw : Fields) (o : Option String) (c : ErrorClassification)
      → check_class base raw o ≡ ok c
      → Judged base c
  class_cases raw none c h = inl (sym (inside h))
  class_cases raw (some class) c h = by_class (member class error_classes) refl h
    where
      by_allowed :
          (b : Bool)
          → in_set (find "error_confidence" raw) confidences ≡ ok b
          → member class error_classes ≡ true
          → Judged base (check_confidence base raw class b)
      by_allowed true e known = playbook_cases raw class _ _ known e
      by_allowed false e known = inl refl

      by_class :
          (b : Bool)
          → member class error_classes ≡ b
          → (if b
              then (in_set (find "error_confidence" raw) confidences >>= λ allowed.
                  ok (check_confidence base raw class allowed))
              else ok base)
            ≡ ok c
          → Judged base c
      by_class false e k = inl (sym (inside k))
      by_class true e k =
          let (allowed, tested, made) =
            bind_inv (in_set (find "error_confidence" raw) confidences) _ c k in
          subst (λ x. Judged base x) (inside made) (by_allowed allowed tested e)

  verdict_cases :
      (o : Option Fields) (c : ErrorClassification) → judge_verdict base o ≡ ok c → Judged base c
  unfolding judge_verdict
  verdict_cases none c h = inl (sym (inside h))
  verdict_cases (some raw) c h = class_cases raw (as_text (find "error_class" raw)) c h

  ask_cases :
      (judge : Option (Fields → Json)) (context : Fields) (c : ErrorClassification)
      → ask base judge context ≡ ok c
      → Judged base c
  ask_cases none context c h = inl (sym (inside h))
  ask_cases (some judge) context c h = verdict_cases _ c h

  -- A judge leaves a classification as it is, or, where it was asked for and the confidence was low,
  -- gives one with a class and a confidence of the code's and its own source.
  pub judge-Judged :
      (enabled : Bool) (judge : Option (Fields → Json)) (context : Fields) (c : ErrorClassification)
      → apply_optional_llm_judge base enabled judge context ≡ ok c
      → (c ≡ base)
        ⊎ ((enabled ≡ true)
            × (base.error_confidence ≡ "low")
            × IsKnown c
            × (c.classification_source ≡ "llm_judge_v1"))
  unfolding apply_optional_llm_judge
  judge-Judged false judge context c h = inl (sym (inside h))
  judge-Judged true judge context c h = by_low (base.error_confidence == "low") refl h
    where
      by_low :
          (b : Bool)
          → (base.error_confidence == "low") ≡ b
          → (if not b then ok base else ask base judge context) ≡ ok c
          → (c ≡ base)
            ⊎ ((◌≡◌ {A = Bool} true true)
                × (base.error_confidence ≡ "low")
                × IsKnown c
                × (c.classification_source ≡ "llm_judge_v1"))
      by_low false e k = inl (sym (inside k))
      by_low true e k = elim (ask_cases judge context c k) [
        | inl same ↦ inl same
        | inr (known, source) ↦ inr (refl, (eq_iff _ _).0 e, known, source)
      ]
