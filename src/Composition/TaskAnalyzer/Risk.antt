-- ===== src/Composition/TaskAnalyzer/Risk.antt =====
-- What raises the risk of a task, and the error that a claim of no roles leads to.
use skill_centric_agent_syst.Base.{
  any_in, join_with, String, ◌≡◌, refl, subst, true, false, ◌||◌, List, [], ◌∷◌, arith, ◌==◌, join,
  begins, occurs, member, eq_iff, eq_refl, Bool-cases, inl, inr,
}
use skill_centric_agent_syst.Composition.TaskAnalyzer.Types.{
  RiskLevel, strip, is_empty_text, dedupe_from,
}
use skill_centric_agent_syst.Composition.TaskAnalyzer.Intake.{risk_level_of}

-- Texts that a text begins with or that stand in it.
begins-join : (p s t : String) → begins p s ≡ true → begins p (join s t) ≡ true
unfolding begins join
begins-join String.[] s t h = refl
begins-join (String.◌∷◌ c p) String.[] t h = cc
begins-join (String.◌∷◌ c p) (String.◌∷◌ d s) t h = ground (arith, begins-join p s t)

occurs_of-begins : (p s : String) → begins p s ≡ true → occurs p s ≡ true
unfolding occurs
occurs_of-begins p String.[] h = h
occurs_of-begins p (String.◌∷◌ c s) h = rw h refl

occurs-join_left : (p s t : String) → occurs p s ≡ true → occurs p (join s t) ≡ true
unfolding occurs join
occurs-join_left p String.[] t h = occurs_of-begins p t (begins-join p String.[] t h)
occurs-join_left p (String.◌∷◌ c s) t h = elim (Bool-cases (begins p (String.◌∷◌ c s))) [
  | inl here ↦ rw (begins-join p (String.◌∷◌ c s) t here) refl
  | inr later ↦ ground (arith, occurs-join_left p s t)
]

occurs-join_right : (p s t : String) → occurs p t ≡ true → occurs p (join s t) ≡ true
unfolding occurs join
occurs-join_right p String.[] t h = h
occurs-join_right p (String.◌∷◌ c s) t h = ground (arith, occurs-join_right p s t)

at_head :
    (v : String) (seen xs : List String)
    → strip v ≡ v
    → is_empty_text v ≡ false
    → (member v seen || member v (dedupe_from seen (v ∷ xs))) ≡ true
unfolding dedupe_from member
at_head v seen xs clean full = elim (Bool-cases (member v seen)) [
  | inl old ↦ rw old refl
  | inr new ↦ rw clean (rw full (rw new (rw (eq_refl v) refl)))
]

-- A text without space around it that is in a list is in the list without repetitions too.
pub member-dedupe_from :
    (v : String) (seen xs : List String)
    → strip v ≡ v
    → is_empty_text v ≡ false
    → member v xs ≡ true
    → (member v seen || member v (dedupe_from seen xs)) ≡ true
unfolding dedupe_from member
member-dedupe_from v seen [] clean full h = cc
member-dedupe_from v seen (x ∷ xs) clean full h = elim (Bool-cases (v == x)) [
  | inl same ↦
      subst (λ y. (member v seen || member v (dedupe_from seen (y ∷ xs))) ≡ true)
        ((eq_iff v x).0 same) (at_head v seen xs clean full)
  | inr other ↦ ground (
    arith,
    member-dedupe_from v seen xs clean full (ground arith),
    member-dedupe_from v (strip x ∷ seen) xs clean full (ground arith),
  )
]

module _ (casefold : String → String)
    (folds : (s t : String) → casefold (join s t) ≡ join (casefold s) (casefold t)) where
  -- A phrase of one of the texts is a phrase of all of them joined.
  occurs-join_with :
      (p c sep : String) (xs : List String)
      → occurs p (casefold c) ≡ true
      → member c xs ≡ true
      → occurs p (casefold (join_with sep xs)) ≡ true
  unfolding join_with member
  occurs-join_with p c sep [] h m = cc
  occurs-join_with p c sep (x ∷ []) h m =
      subst (λ y. occurs p (casefold y) ≡ true) ((eq_iff c x).0 (ground arith)) h
  occurs-join_with p c sep (x ∷ y ∷ rest) h m = elim (Bool-cases (c == x)) [
    | inl same ↦ rw folds (
        occurs-join_left p (casefold x) _
          (subst (λ z. occurs p (casefold z) ≡ true) ((eq_iff c x).0 same) h))
    | inr other ↦ rw folds (
        occurs-join_right p (casefold x) _ (
          rw folds (
            occurs-join_right p (casefold sep) _
              (occurs-join_with p c sep (y ∷ rest) h (ground arith)))))
  ]

  any_in-second : (text p q : String) → occurs q text ≡ true → any_in text (p ∷ q ∷ []) ≡ true
  unfolding any_in
  any_in-second text p q h = ground arith

  -- A constraint that asks for write access makes the risk high.
  pub requested_high :
      (task_type objective : String) (constraints : List String)
      → occurs "write access was requested" (casefold "Write access was requested.") ≡ true
      → member "Write access was requested." constraints ≡ true
      → risk_level_of casefold task_type objective constraints ≡ RiskLevel.high
  unfolding risk_level_of
  requested_high task_type objective constraints phrase m =
      let text = casefold (join_with " " (objective ∷ constraints)) in
      let there : occurs "write access was requested" text ≡ true =
        occurs-join_with "write access was requested" "Write access was requested." " "
          (objective ∷ constraints) phrase (unfold member in ground arith) in
      elim (Bool-cases
        (any_in text ("production" ∷ "delete" ∷ "destroy" ∷ "reset" ∷ "secret" ∷ []))) [
          | inl grave ↦ rw grave refl
          | inr mild ↦
              rw
                (
                  mild,
                  any_in-second text "destructive actions were requested"
                      "write access was requested" there,
                )
                refl
        ]
