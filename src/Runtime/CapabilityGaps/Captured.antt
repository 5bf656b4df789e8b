-- ===== src/Runtime/CapabilityGaps/Captured.antt =====
-- What a captured candidate is, and when a denial is captured.
use skill_centric_agent_syst.Base.{
  String, ◌≡◌, refl, ◌∙◌, Bool, true, false, not, ◌&&◌, none, some, List, [], ◌∷◌, map,
  if◌then◌else◌, ◌==◌, eq_iff, arith, is_empty, keep, member, sorted_set, distinct, sort,
  insert_sorted, text_le, Fields, str, bool, find, Builtins, same, truthy, texts, Bool-cases, inl,
  inr, &&-split,
}
use skill_centric_agent_syst.Base.Outcome.{ok, check_inv, check_ok, seq_inv, ◌>>◌}
use skill_centric_agent_syst.Runtime.Artifacts.Writing.{is_nonempty}
use skill_centric_agent_syst.Runtime.Models.Slug.Nonempty.{stated, slug_id-stated}
use skill_centric_agent_syst.Runtime.CapabilityGaps.{
  Denial, candidate_of, build_capability_gap_candidate, validate_capability_gap_candidate,
  is_eligible_denial, slug, some_items,
}
use skill_centric_agent_syst.Runtime.CapabilityGaps.Predicates.{
  eligible_blocking_predicates, gap_stop_reasons,
}

-- The URIs that a candidate has as its evidence.
abbrev evidence_of : Denial → List String
evidence_of d = sorted_set (keep is_nonempty d.evidence_uris)

truthy-stated : (py : Builtins) (s : String) → truthy py (str s) ≡ stated s
unfolding truthy
truthy-stated py String.[] = refl
truthy-stated py (String.◌∷◌ c s) = refl

some_items-texts : (xs : List String) → some_items (texts xs) ≡ not (is_empty xs)
some_items-texts [] = refl
some_items-texts (x ∷ xs) = refl

insert_sorted-some : (x : String) (xs : List String) → is_empty (insert_sorted text_le x xs) ≡ false
unfolding insert_sorted
insert_sorted-some x [] = refl
insert_sorted-some x (y ∷ ys) = ground arith

sort-some : (xs : List String) → is_empty (sort text_le xs) ≡ is_empty xs
unfolding sort
sort-some [] = refl
sort-some (x ∷ xs) = insert_sorted-some x _

distinct-some : (xs : List String) → is_empty (distinct xs) ≡ is_empty xs
unfolding distinct member
distinct-some [] = refl
distinct-some (x ∷ xs) = ground (arith, distinct-some xs, member-some x xs)
  where
    member-some : (y : String) (ys : List String) → member y ys ≡ true → is_empty ys ≡ false
    member-some y [] h = cc
    member-some y (z ∷ zs) h = refl

sorted_set-some : (xs : List String) → is_empty (sorted_set xs) ≡ is_empty xs
unfolding sorted_set
sorted_set-some xs = sort-some _ ∙ distinct-some xs

module _ (casefold : String → String) (py : Builtins) (d : Denial) where
  -- What a candidate that was validated has passed.
  validated_inv :
      validate_capability_gap_candidate py (candidate_of casefold d) ≡ ok tt
      → (member d.stop_reason gap_stop_reasons ≡ true) × (is_empty (evidence_of d) ≡ false)
  unfolding validate_capability_gap_candidate candidate_of same
  validated_inv h =
      let (eligible, h1) =
        check_inv (member d.blocking_predicate eligible_blocking_predicates) _ _ tt h in
      let (stops, h2) = check_inv (member d.stop_reason gap_stop_reasons) _ _ tt h1 in
      let (kind_and_id, h3) =
        check_inv
          (truthy py (str d.capability_kind) && truthy py (str (slug casefold d.capability_id))) _ _
          tt h2 in
      let shown = check_ok (some_items (texts (evidence_of d))) _ h3 in
      (stops, ground (arith, some_items-texts (evidence_of d)))

  -- A candidate of such parts passes.
  validated :
      member d.blocking_predicate eligible_blocking_predicates ≡ true
      → member d.stop_reason gap_stop_reasons ≡ true
      → stated d.capability_kind ≡ true
      → is_empty (evidence_of d) ≡ false
      → validate_capability_gap_candidate py (candidate_of casefold d) ≡ ok tt
  unfolding validate_capability_gap_candidate candidate_of same
  validated eligible stops kind evidence =
      rw
        (
          eligible,
          stops,
          truthy-stated py d.capability_kind,
          kind,
          truthy-stated py (slug casefold d.capability_id),
          slug_id-stated casefold d.capability_id,
          some_items-texts (evidence_of d),
          evidence,
        )
        refl

  eligible_inv :
      is_eligible_denial casefold d ≡ true
      → (member d.blocking_predicate eligible_blocking_predicates ≡ true)
        × (d.capability_kind ≡ "tool"
            → member (slug casefold d.capability_id) (map (slug casefold) d.known_capability_ids)
              ≡ true)
  unfolding is_eligible_denial
  eligible_inv h =
      let (not_secret, h1) = &&-split _ _ h in
      let (not_excluded, h2) = &&-split _ _ h1 in
      let (eligible, h3) = &&-split _ _ h2 in
      (eligible, λ is_tool. tool_case (d.capability_kind == "tool") ((eq_iff _ _).1 is_tool) h3)
    where
      tool_case :
          (b : Bool)
          → b ≡ true
          → (if b
              then member
                  (slug casefold d.capability_id)
                  (map (slug casefold) d.known_capability_ids)
              else true)
            ≡ true
          → member (slug casefold d.capability_id) (map (slug casefold) d.known_capability_ids)
            ≡ true
      tool_case true t k = k
      tool_case false t k = cc

  -- What a candidate is.
  pub record Captured (candidate : Fields) : Type 0 where
    pub is_candidate : candidate ≡ candidate_of casefold d
    pub predicate_eligible : member d.blocking_predicate eligible_blocking_predicates ≡ true
    pub stop_eligible : member d.stop_reason gap_stop_reasons ≡ true
    pub tool_known :
        d.capability_kind ≡ "tool"
        → member (slug casefold d.capability_id) (map (slug casefold) d.known_capability_ids) ≡ true
    pub has_evidence : is_empty (evidence_of d) ≡ false
    pub not_executable : find "executable" candidate ≡ bool false
    pub for_review : find "learning_status" candidate ≡ str "review_required"

  -- A candidate that is made is of a predicate and a stop reason that may be learned from, of a known
  -- tool where it is about a tool, has evidence, is not executable, and waits for a review.
  pub build-Captured :
      (candidate : Fields)
      → build_capability_gap_candidate casefold py d ≡ ok (some candidate)
      → Captured candidate
  unfolding build_capability_gap_candidate
  build-Captured candidate h = by_case (is_eligible_denial casefold d) refl h
    where
      by_case :
          (b : Bool)
          → is_eligible_denial casefold d ≡ b
          → (if b
              then validate_capability_gap_candidate py (candidate_of casefold d)
                >> ok (some (candidate_of casefold d))
              else ok none)
            ≡ ok (some candidate)
          → Captured candidate
      by_case false e k = cc
      by_case true e k =
          let (passed, same_one) =
            seq_inv (validate_capability_gap_candidate py (candidate_of casefold d)) _ _ k in
          let is_candidate : candidate ≡ candidate_of casefold d = cc in
          let (stops, evidence) = validated_inv passed in
          record {
            is_candidate = is_candidate;
            predicate_eligible = (eligible_inv e).0;
            stop_eligible = stops;
            tool_known = (eligible_inv e).1;
            has_evidence = evidence;
            not_executable = unfold candidate_of in rw is_candidate refl;
            for_review = unfold candidate_of in rw is_candidate refl;
          }

  -- Where the stop reason may be learned from, the kind is stated and some evidence is not empty,
  -- nothing is raised: an eligible denial gives its candidate, any other none.
  pub build_returns :
      member d.stop_reason gap_stop_reasons ≡ true
      → stated d.capability_kind ≡ true
      → is_empty (keep is_nonempty d.evidence_uris) ≡ false
      → build_capability_gap_candidate casefold py d
        ≡ ok (if is_eligible_denial casefold d then some (candidate_of casefold d) else none)
  unfolding build_capability_gap_candidate
  build_returns stops kind evidence = elim (Bool-cases (is_eligible_denial casefold d)) [
    | inl e ↦ rw e (
        rw
          (validated (eligible_inv e).0 stops kind
            (sorted_set-some (keep is_nonempty d.evidence_uris) ∙ evidence))
          refl)
    | inr e ↦ rw e refl
  ]
