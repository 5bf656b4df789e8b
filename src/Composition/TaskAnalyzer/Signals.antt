-- ===== src/Composition/TaskAnalyzer/Signals.antt =====
-- composition/task_analyzer.py: which type a task is of, by the terms of its objective.
use Prim.Native.Char.{Char}
use skill_centric_agent_syst.Base.{
  any_in, join_with, ℕ, zero, suc, String, Bool, true, false, not, ◌&&◌, ◌||◌, List, [], ◌∷◌, ◌++◌,
  map, if◌then◌else◌, ◌==◌, keep, is_empty, join, begins, occurs, count, all_of,
}
use skill_centric_agent_syst.Composition.TaskAnalyzer.Types.{
  TaskClassification, Confidence, is_plain, is_empty_text,
}

abbrev pub review_terms : List String
review_terms =
    "review" ∷ "pull request" ∷ "pr" ∷ "diff" ∷ "commit" ∷ "regression" ∷ "missing tests" ∷ []

abbrev pub research_terms : List String
research_terms =
    "research" ∷ "investigate" ∷ "compare" ∷ "summarize" ∷ "find information" ∷ "look up" ∷ "survey"
    ∷ "diagnose" ∷ "debug" ∷ "troubleshoot" ∷ "explain" ∷ "what causes" ∷ "why does" ∷ "how do i"
    ∷ "how should" ∷ "stack overflow" ∷ "error" ∷ "exception" ∷ []

abbrev pub execution_terms : List String
execution_terms =
    "implement" ∷ "build" ∷ "fix" ∷ "update" ∷ "change" ∷ "create" ∷ "refactor" ∷ "migrate" ∷ "add"
    ∷ "remove" ∷ []

abbrev pub information_signals : List String
information_signals =
    "how do i" ∷ "how should" ∷ "why does" ∷ "why do" ∷ "what causes" ∷ "what is" ∷ "explain" ∷ []

-- `s[n:]`
unfoldable pub drop : ℕ → String → String
drop zero s = s
drop (suc n) String.[] = String.[]
drop (suc n) (String.◌∷◌ c s) = drop n s

-- `_is_information_request`
unfoldable pub is_information_request : String → Bool
unfolding any_in
is_information_request text = any_in text information_signals

-- `_filter_information_request_execution_terms`
unfoldable pub filter_information_request_execution_terms : String → List String → List String
unfolding is_information_request keep
filter_information_request_execution_terms text terms =
    if is_information_request text then keep (λ term. not (term == "fix")) terms else terms

abbrev pub categories : List (String × List String)
categories =
    ("code-review", review_terms)
    ∷ ("research", research_terms)
    ∷ ("task-execution", execution_terms)
    ∷ []

abbrev pub reason : String × List String → String
reason m = join "Matched " (join m.0 (join " task signals: " (join (join_with ", " m.1) ".")))

-- The classification by how many categories match.
unfoldable pub decide : List (String × List String) → TaskClassification
decide [] = record {
  task_type = "general-task";
  confidence = Confidence.medium;
  reasons = "No specialized task signals matched; using general-task fallback." ∷ [];
  ambiguous_task_types = [];
  requires_human_review = false;
}
decide (m ∷ []) = record {
  task_type = m.0;
  confidence = Confidence.high;
  reasons = reason m ∷ [];
  ambiguous_task_types = [];
  requires_human_review = false;
}
decide (m ∷ n ∷ rest) = record {
  task_type = "general-task";
  confidence = Confidence.low;
  reasons =
      map reason (m ∷ n ∷ rest)
      ++ ("Fell back to general-task because multiple specialized task types matched." ∷ []);
  ambiguous_task_types = map (λ x. x.0) (m ∷ n ∷ rest);
  requires_human_review = true;
}

-- `is_word` is the class `\w` of Python's `re`.
module _ (is_word : Char → Bool) where
  abbrev ends_word : String → Bool
  ends_word String.[] = true
  ends_word (String.◌∷◌ c s) = not (is_word c)

  -- `re.search(rf"\b{term}\b", text)` of a term of word characters; the flag tells that the character
  -- before is one too
  unfoldable pub word_from : Bool → String → String → Bool
  unfolding begins count drop
  word_from after_word term String.[] = false
  word_from after_word term (String.◌∷◌ c s) =
      let here =
        not after_word
        && begins term (String.◌∷◌ c s)
        && ends_word (drop (count term) (String.◌∷◌ c s)) in
      let later = word_from (is_word c) term s in here || later

  -- `_contains_task_term`
  unfoldable pub contains_task_term : String → String → Bool
  unfolding word_from occurs all_of
  contains_task_term text term =
      if not (is_empty_text term) && all_of is_plain term
      then word_from false term text
      else occurs term text

  -- The terms of each category that are found.
  unfoldable pub matched_terms : String → String → List String → List String
  unfolding keep contains_task_term filter_information_request_execution_terms
  matched_terms text task_type terms =
      let found = keep (contains_task_term text) terms in
      if task_type == "task-execution"
      then filter_information_request_execution_terms text found
      else found

  -- The categories with a term that is found, with those terms.
  unfoldable pub match_categories :
      String → List (String × List String) → List (String × List String)
  match_categories text [] = []
  match_categories text ((task_type, terms) ∷ rest) =
      let found = matched_terms text task_type terms in
      let others = match_categories text rest in
      if is_empty found then others else (task_type, found) ∷ others

  -- `_classify_task`
  unfoldable pub classify_task : (String → String) → String → TaskClassification
  unfolding match_categories decide
  classify_task casefold objective = decide (match_categories (casefold objective) categories)
