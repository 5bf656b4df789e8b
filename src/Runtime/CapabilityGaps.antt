-- ===== src/Runtime/CapabilityGaps.antt =====
-- runtime/capability_gaps.py: the candidate that is made of a denial, for a person to review.
pub mod Captured
pub mod Predicates
use skill_centric_agent_syst.Base.{
  String, Bool, true, false, not, ◌&&◌, ◌||◌, Option, none, some, List, [], ◌∷◌, map, if◌then◌else◌,
  ◌==◌, member, missing, is_empty, keep, join, join_with, begins, occurs, sorted_set, Json, object,
  str, bool, arr, obj, Items, nil, cons, Fields, find, has_key, as_mapping, texts, Builtins, to_str,
  same, truthy,
}
use skill_centric_agent_syst.Base.Outcome.{Outcome, ok, err, check, some_or, ◌>>=◌, ◌>>◌}
use skill_centric_agent_syst.Runtime.Models.Slug.{slug_id}
use skill_centric_agent_syst.Runtime.Artifacts.Chunks.{Files}
use skill_centric_agent_syst.Runtime.Artifacts.Writing.{ArtifactStore, is_nonempty, write_json}
use skill_centric_agent_syst.Runtime.Enforcement.Profile.{find_or}
use skill_centric_agent_syst.Runtime.Queue.{Error}
use skill_centric_agent_syst.Runtime.Membership.{unhashable, in_set}
use skill_centric_agent_syst.Runtime.CapabilityGaps.Predicates.{
  eligible_blocking_predicates, excluded_blocking_predicates, gap_stop_reasons,
  capability_kind_for_predicate, without_exceeded, capability_id_for_predicate,
}

-- `CapabilityGapCandidateError`
abbrev pub gap_error : String → Error
gap_error m = record { class_name = "CapabilityGapCandidateError"; message = m; stop_reason = none }

-- A denial: `build_capability_gap_candidate`'s arguments.
pub record Denial : Type 0 where
  pub run_id : String
  pub profile_id : String
  pub source_step_id : String
  pub blocking_predicate : String
  pub capability_kind : String
  pub capability_id : String
  pub stop_reason : String
  pub evidence_uris : List String
  pub known_capability_ids : List String
  pub sensitivity : String

abbrev is_false : Json → Bool
is_false (bool false) = true
is_false _ = false

-- A list that is not empty; `not isinstance(v, tuple | list) or not v` is its negation.
abbrev pub some_items : Json → Bool
some_items (arr nil) = false
some_items (arr (cons v vs)) = true
some_items _ = false

abbrev pub required_fields : List String
required_fields =
    "contract_version" ∷ "candidate_kind" ∷ "id" ∷ "source_run_id" ∷ "source_profile_id"
    ∷ "source_step_id" ∷ "blocking_predicate" ∷ "requested_capability" ∷ "stop_reason"
    ∷ "evidence_uris" ∷ "learning_status" ∷ "executable" ∷ []

module _ (py : Builtins) where
  -- `validate_capability_gap_candidate`
  unfoldable pub validate_capability_gap_candidate : Fields → Outcome Error (Unit {0})
  unfolding keep
  validate_capability_gap_candidate candidate = do
    let missing_fields = keep (λ f. not (has_key f candidate)) required_fields
    check (is_empty missing_fields)
        (gap_error (join "missing fields: " (join_with ", " (sorted_set missing_fields))))
    check (same py (find "contract_version" candidate) (str "0.1.0"))
        (gap_error "contract_version must be 0.1.0")
    check (same py (find "candidate_kind" candidate) (str "capability_gap_candidate"))
        (gap_error "candidate_kind must be capability_gap_candidate")
    eligible ← in_set (find "blocking_predicate" candidate) eligible_blocking_predicates
    check eligible (gap_error "blocking_predicate is not eligible")
    stops ← in_set (find "stop_reason" candidate) gap_stop_reasons
    check stops (gap_error "stop_reason is not eligible")
    capability ←
        some_or (as_mapping (find "requested_capability" candidate))
          (gap_error "requested_capability must be an object")
    check (truthy py (find "kind" capability) && truthy py (find "id" capability))
        (gap_error "requested_capability requires kind and id")
    check (same py (find "learning_status" candidate) (str "review_required"))
        (gap_error "learning_status must be review_required")
    check (is_false (find "executable" candidate))
        (gap_error "capability gap candidates must be non-executable")
    check (some_items (find "evidence_uris" candidate))
        (gap_error "evidence_uris must be non-empty")

module _ (casefold : String → String) where
  abbrev pub slug : String → String
  slug s = slug_id casefold "" s

  -- `_is_eligible_denial`, with the id as a slug
  unfoldable pub is_eligible_denial : Denial → Bool
  unfolding slug_id
  is_eligible_denial d =
      not (d.sensitivity == "secret")
      && (not (member d.blocking_predicate excluded_blocking_predicates)
          && (member d.blocking_predicate eligible_blocking_predicates
              && (if d.capability_kind == "tool"
                  then member (slug d.capability_id) (map slug d.known_capability_ids)
                  else true)))

  -- The candidate of an eligible denial.
  unfoldable pub candidate_of : Denial → Fields
  unfolding slug_id join sorted_set keep
  candidate_of d = object (
      ("contract_version", str "0.1.0")
      ∷ ("candidate_kind", str "capability_gap_candidate")
      ∷ (
        "id",
        str (
            slug_id casefold "cgc" (
              join d.run_id (
                join "-" (
                  join d.source_step_id
                    (join "-" (join d.blocking_predicate (join "-" (slug d.capability_id)))))))),
      )
      ∷ ("source_run_id", str (slug d.run_id))
      ∷ ("source_profile_id", str (slug d.profile_id))
      ∷ ("source_step_id", str (slug d.source_step_id))
      ∷ ("blocking_predicate", str d.blocking_predicate)
      ∷ (
        "requested_capability",
        obj (object (("kind", str d.capability_kind) ∷ ("id", str (slug d.capability_id)) ∷ [])),
      )
      ∷ ("stop_reason", str d.stop_reason)
      ∷ ("evidence_uris", texts (sorted_set (keep is_nonempty d.evidence_uris)))
      ∷ ("learning_status", str "review_required")
      ∷ ("executable", bool false)
      ∷ [])

  module _ (py : Builtins) where
    -- `build_capability_gap_candidate`
    unfoldable pub build_capability_gap_candidate : Denial → Outcome Error (Option Fields)
    unfolding is_eligible_denial candidate_of validate_capability_gap_candidate
    build_capability_gap_candidate d =
        if is_eligible_denial d
        then validate_capability_gap_candidate py (candidate_of d) >> ok (some (candidate_of d))
        else ok none

module _ (py : Builtins) (a : ArtifactStore) where
  -- `capture_capability_gap_candidate`: the URI of the candidate's artifact, and the files
  abbrev wrote : Files → Option (String × Files) → Outcome Error (Option String × Files)
  wrote files none = err (record {
    class_name = "ValueError";
    message = "range() arg 3 must not be zero";
    stop_reason = none;
  })
  wrote files (some (uri, after)) = ok (some uri, after)

  abbrev write_candidate : String → Files → Option Fields → Outcome Error (Option String × Files)
  write_candidate run_id files none = ok (none, files)
  write_candidate run_id files (some candidate) = wrote files (
      write_json a
        ("artifacts" ∷ run_id ∷ "capability-gap-candidates" ∷ to_str py (find "id" candidate) ∷ [])
        (obj candidate) true files)

  unfoldable pub capture_capability_gap_candidate :
      Denial → Files → Outcome Error (Option String × Files)
  unfolding build_capability_gap_candidate write_json
  capture_capability_gap_candidate d files = do
    candidate ← build_capability_gap_candidate a.casefold py d
    write_candidate d.run_id files candidate

  -- The denial of a tool by the enforcer, with its stop reason and its code.
  unfoldable pub denial_of :
      String → Fields → String → String → String → String → List String → List String → Denial
  unfolding capability_kind_for_predicate capability_id_for_predicate
  denial_of run_id profile source_step_id requested_tool stop_reason code evidence_uris known =
      record {
        run_id = run_id;
        profile_id = to_str py (find_or "id" (str "unknown-profile") profile);
        source_step_id = source_step_id;
        blocking_predicate = code;
        capability_kind = capability_kind_for_predicate code;
        capability_id = capability_id_for_predicate code requested_tool;
        stop_reason = stop_reason;
        evidence_uris = evidence_uris;
        known_capability_ids = known;
        sensitivity = "internal";
      }

  -- `capability_gap_from_enforcement_error`
  unfoldable pub capability_gap_from_enforcement_error :
      String
      → Fields
      → String
      → String
      → String
      → String
      → List String
      → List String
      → Files
      → Outcome Error (Option String × Files)
  unfolding capture_capability_gap_candidate denial_of
  capability_gap_from_enforcement_error run_id profile step tool stop code evidence known files =
      capture_capability_gap_candidate (denial_of run_id profile step tool stop code evidence known)
        files
