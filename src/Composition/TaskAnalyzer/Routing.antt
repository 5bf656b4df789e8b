-- ===== src/Composition/TaskAnalyzer/Routing.antt =====
-- How the number of categories that match decides the route of a task.
use Prim.Native.Char.{Char}
use skill_centric_agent_syst.Base.{
  ℕ, String, ◌≡◌, refl, sym, ap, ◌∙◌, Bool, false, not, ◌&&◌, ◌||◌, arith, keep, Bool-cases, inl,
  inr, List, [], ◌∷◌, if◌then◌else◌, ◌==◌, leb, nat_eq, is_empty, tally, All,
}
use skill_centric_agent_syst.Composition.TaskAnalyzer.Types.{TaskClassification, Confidence}
use skill_centric_agent_syst.Composition.TaskAnalyzer.Signals.{
  categories, matched_terms, contains_task_term, is_information_request,
  filter_information_request_execution_terms, decide, classify_task, review_terms, research_terms,
  execution_terms,
}

-- The categories in front of `rest` whose terms are found.
abbrev pick : String → List String → List (String × List String) → List (String × List String)
pick task_type found rest = if is_empty found then rest else (task_type, found) ∷ rest

abbrev FromTerms : List String → List String → List String → Type 0
FromTerms x y z =
    let r = decide (pick "code-review" x (pick "research" y (pick "task-execution" z []))) in
    let found = ("code-review", x) ∷ ("research", y) ∷ ("task-execution", z) ∷ [] in
    let n = tally (λ (c : String × List String). not (is_empty c.1)) found in
    (r.requires_human_review ≡ leb 2 n)
    × (if nat_eq n 1
        then (r.confidence ≡ Confidence.high)
          × All (λ c. not (is_empty c.1) ≡ (c.0 == r.task_type)) found
        else r.task_type ≡ "general-task")

from_terms : (x y z : List String) → FromTerms x y z
unfolding decide tally
from_terms [] [] [] = (refl, refl)
from_terms (a ∷ x) [] [] = (refl, (refl, (refl, (refl, (refl, tt)))))
from_terms [] (b ∷ y) [] = (refl, (refl, (refl, (refl, (refl, tt)))))
from_terms [] [] (c ∷ z) = (refl, (refl, (refl, (refl, (refl, tt)))))
from_terms (a ∷ x) (b ∷ y) [] = (refl, refl)
from_terms (a ∷ x) [] (c ∷ z) = (refl, refl)
from_terms [] (b ∷ y) (c ∷ z) = (refl, refl)
from_terms (a ∷ x) (b ∷ y) (c ∷ z) = (refl, refl)

-- Some text of the list passes the test.
abbrev pub some_passes : (String → Bool) → List String → Bool
some_passes p [] = false
some_passes p (x ∷ xs) = p x || some_passes p xs

kept_some : (p : String → Bool) (xs : List String) → not (is_empty (keep p xs)) ≡ some_passes p xs
unfolding keep
kept_some p [] = refl
kept_some p (x ∷ xs) = elim (Bool-cases (p x)) [
  | inl holds ↦ rw holds refl
  | inr fails ↦ rw fails (kept_some p xs)
]

kept_twice :
    (p q : String → Bool) (xs : List String) → keep q (keep p xs) ≡ keep (λ x. p x && q x) xs
unfolding keep
kept_twice p q [] = refl
kept_twice p q (x ∷ xs) = elim (Bool-cases (p x)) [
  | inl holds ↦ elim (Bool-cases (q x)) [
    | inl also ↦ rw (holds, also) (ap (λ l. x ∷ l) (kept_twice p q xs))
    | inr not_also ↦ rw (holds, not_also) (kept_twice p q xs)
  ]
  | inr fails ↦ rw fails (kept_twice p q xs)
]

kept_ext :
    (p q : String → Bool) (xs : List String) → ((x : String) → p x ≡ q x) → keep p xs ≡ keep q xs
unfolding keep
kept_ext p q [] h = refl
kept_ext p q (x ∷ xs) h = rw (h x, kept_ext p q xs h) refl

module _ (is_word : Char → Bool) (casefold : String → String) where
  -- The term speaks for a type: it is found in the text, and is not the word "fix" for the execution
  -- of a task where the text asks for information.
  abbrev pub is_signal : String → String → String → Bool
  is_signal text task_type term =
      contains_task_term is_word text term
      && not ((task_type == "task-execution") && is_information_request text && (term == "fix"))

  -- Some term of the category speaks for it.
  abbrev pub is_signalled : String → (String × List String) → Bool
  is_signalled objective c = some_passes (is_signal (casefold objective) c.0) c.1

  -- The terms that the code finds of a category are its signals.
  matched-signals :
      (text task_type : String) (terms : List String)
      → matched_terms is_word text task_type terms ≡ keep (is_signal text task_type) terms
  unfolding matched_terms filter_information_request_execution_terms
  matched-signals text task_type terms = elim (Bool-cases (task_type == "task-execution")) [
    | inl execution ↦ elim (Bool-cases (is_information_request text)) [
      | inl asks ↦
          rw (execution, asks)
            (kept_twice (contains_task_term is_word text) (λ term. not (term == "fix")) terms
              ∙ kept_ext (λ x. contains_task_term is_word text x && not (x == "fix"))
                  (is_signal text task_type) terms (λ x. rw (execution, asks) refl))
      | inr tells ↦
          rw (execution, tells)
            (kept_ext (contains_task_term is_word text) (is_signal text task_type) terms
              (λ x. ground arith))
    ]
    | inr other ↦ rw other (
        kept_ext (contains_task_term is_word text) (is_signal text task_type) terms
          (λ x. ground arith))
  ]

  matched_some :
      (text task_type : String) (terms : List String)
      → not (is_empty (matched_terms is_word text task_type terms))
        ≡ some_passes (is_signal text task_type) terms
  matched_some text task_type terms =
      ap (λ l. not (is_empty l)) (matched-signals text task_type terms)
      ∙ kept_some (is_signal text task_type) terms

  -- A classification by the number `n` of categories that are signalled.
  pub Routed : String → TaskClassification → ℕ → Type 0
  Routed objective r n =
      (r.requires_human_review ≡ leb 2 n)
      × (if nat_eq n 1
          then (r.confidence ≡ Confidence.high)
            × All (λ c. is_signalled objective c ≡ (c.0 == r.task_type)) categories
          else r.task_type ≡ "general-task")

  -- A term speaks for its category where it is found in the objective, but for the word "fix" of an
  -- objective that asks for information. Where some term speaks for exactly one category the task is of
  -- that type, with high confidence; otherwise it is a general task; and a person has to review it
  -- exactly when terms speak for two or more.
  pub classify_task-Routed :
      (objective : String)
      → Routed objective
          (classify_task is_word casefold objective)
          (tally (is_signalled objective) categories)
  unfolding Routed classify_task tally
  classify_task-Routed objective =
      let text = casefold objective in
      rw
        (
          sym (matched_some text "code-review" review_terms),
          sym (matched_some text "research" research_terms),
          sym (matched_some text "task-execution" execution_terms),
        )
        (from_terms (matched_terms is_word text "code-review" review_terms)
          (matched_terms is_word text "research" research_terms)
          (matched_terms is_word text "task-execution" execution_terms))
