-- ===== src/Runtime/SafetyCompiler/Validated.antt =====
-- The pairs of a guard policy that was validated have gates that block.
use skill_centric_agent_syst.Base.{
  String, ◌≡◌, refl, ap, ◌∙◌, subst, Bool, true, false, not, Option, none, some, List, [], ◌∷◌, nil,
  ◌==◌, Bool-cases, ◌++◌, arith, member, is_empty, All, Json, str, obj, arr, Fields, find,
  as_mapping, as_list, to_str, Builtins, inl, inr, null, bool, int, float,
}
use skill_centric_agent_syst.Base.Outcome.{Outcome, ok, bind_inv, check_inv}
use skill_centric_agent_syst.Runtime.Queue.{Error}
use skill_centric_agent_syst.Runtime.Enforcement.Profile.{Containers, find_or}
use skill_centric_agent_syst.Runtime.Membership.{in_set}
use skill_centric_agent_syst.Composition.TenantAccess.{mappings, all_mappings}
use skill_centric_agent_syst.Runtime.SafetyCompiler.Guard.{
  Match, blocking_gates, pair_failures, all_failures, boundary_failures, delta_failures,
  gate_failures, failure_if, validate_guard_policy, pairs_failures, create, item, strongest_gate,
  pairs_of,
}
use skill_centric_agent_syst.Runtime.SafetyCompiler.{
  is_match, match_of, add_match, matches_from, matching_pairs,
}
use skill_centric_agent_syst.Runtime.SafetyCompiler.Gates.{
  Blocks, Strongest, strongest_gate-Strongest,
}

append_none : (xs ys : List String) → xs ++ ys ≡ [] → (xs ≡ []) × (ys ≡ [])
append_none [] ys h = (refl, h)
append_none (x ∷ xs) ys h = cc

inside : {xs ys : List String} → ◌≡◌ {A = Outcome Error (List String)} (ok xs) (ok ys) → xs ≡ ys
inside e = cc

blocks : (b : Bool) (message : String) → failure_if (not b) message ≡ [] → b ≡ true
blocks true message e = refl
blocks false message e = cc

-- A pair with a gate that blocks.
abbrev Gated : Fields → Type 0
Gated pair = in_set (find "expected_gate" pair) blocking_gates ≡ ok true

find_or-find :
    (k : String) (d : Json) (fs : Fields) (vs : List Json)
    → as_list (find k fs) ≡ some vs
    → find_or k d fs ≡ find k fs
find_or-find k d Fields.end vs h = cc
find_or-find k d (Fields.field j v fs) vs h = elim (Bool-cases (k == j)) [
  | inl here ↦ rw here refl
  | inr there ↦ rw there (find_or-find k d fs vs (rw there at h))
]

module _ (py : Builtins) where
  boundary_inv :
      (pair : Fields) (o : Option Fields) → boundary_failures py pair o ≡ ok [] → Gated pair
  boundary_inv pair none h = cc
  boundary_inv pair (some forbidden) h =
      let (deltas, found, h1) =
        bind_inv (delta_failures py pair (as_list (find "authority_delta" forbidden))) _ [] h in
      let (gates, blocking, h2) = bind_inv (gate_failures py pair) _ [] h1 in
      let (no_deltas, no_gates) = append_none deltas gates (inside h2) in
      let (b, is_b, h3) =
        bind_inv (in_set (find "expected_gate" pair) blocking_gates) _ gates blocking in
      is_b ∙ ap ok (blocks b _ (inside h3 ∙ no_gates))

  add :
      (v : Json) (vs : List Json)
      → pair_failures py (as_mapping v) ≡ ok []
      → All Gated (all_mappings vs)
      → All Gated (all_mappings (v ∷ vs))
  unfolding pair_failures
  add (obj fs) vs k all = (boundary_inv fs (as_mapping (find "forbidden_generalization" fs)) k, all)
  add null vs k all = all
  add (bool b) vs k all = all
  add (int n) vs k all = all
  add (float f) vs k all = all
  add (str t) vs k all = all
  add (arr xs) vs k all = all

  pairs-Gated : (vs : List Json) → all_failures py vs ≡ ok [] → All Gated (all_mappings vs)
  unfolding all_failures
  pairs-Gated [] h = tt
  pairs-Gated (v ∷ vs) h =
      let (here, found, h1) = bind_inv (pair_failures py (as_mapping v)) _ [] h in
      let (rest, later, h2) = bind_inv (all_failures py vs) _ [] h1 in
      let (no_here, no_rest) = append_none here rest (inside h2) in
      add v vs (found ∙ ap ok no_here) (pairs-Gated vs (later ∙ ap ok no_rest))

  guard_inv : (guard : Fields) → validate_guard_policy py guard ≡ ok [] → All Gated (pairs_of guard)
  unfolding validate_guard_policy pairs_of mappings
  guard_inv guard h =
      let (b, found, h1) =
        bind_inv (in_set (find "default_on_match" guard) blocking_gates) _ [] h in
      let (pairs, made, h2) =
        bind_inv (pairs_failures py (as_list (find "contrastive_pairs" guard))) _ [] h1 in
      let nothing = inside h2 in
      let no_pairs : pairs ≡ [] = ground arith in
      by_list (as_list (find "contrastive_pairs" guard)) refl (made ∙ ap ok no_pairs)
    where
      by_list :
          (o : Option (List Json))
          → as_list (find "contrastive_pairs" guard) ≡ o
          → pairs_failures py o ≡ ok []
          → All Gated (pairs_of guard)
      by_list none e k = cc
      by_list (some []) e k = cc
      by_list (some (v ∷ vs)) e k =
          rw (find_or-find "contrastive_pairs" (arr nil) guard (v ∷ vs) e, e)
            (pairs-Gated (v ∷ vs) k)

module _ (py : Containers) (guard prior : Fields) (delta : List String) where
  item_inv : (k : String) (fs : Fields) (v : Json) → item k fs ≡ ok v → find k fs ≡ v
  item_inv k fs v h = ground arith

  gate_text :
      (v : Json)
      → in_set v blocking_gates ≡ ok true
      → member (to_str py.builtins v) blocking_gates ≡ true
  unfolding to_str
  gate_text (str s) h = cc
  gate_text null h = cc
  gate_text (bool b) h = cc
  gate_text (int n) h = cc
  gate_text (float f) h = cc
  gate_text (arr xs) h = cc
  gate_text (obj fs) h = cc

  inside_match : {a b : Match} → ◌≡◌ {A = Outcome Error Match} (ok a) (ok b) → a ≡ b
  inside_match e = cc

  inside_matches : {a b : List Match} → ◌≡◌ {A = Outcome Error (List Match)} (ok a) (ok b) → a ≡ b
  inside_matches e = cc

  gate-Blocks : (pair : Fields) (m : Match) → Gated pair → match_of py guard pair ≡ ok m → Blocks m
  unfolding to_str
  gate-Blocks pair m gated h =
      let (id, got, h1) = bind_inv (item "pair_id" pair) _ m h in
      let (gate, is_gate, h2) = bind_inv (item "expected_gate" pair) _ m h1 in
      let decided : to_str py.builtins gate ≡ m.decision = ap (λ x. x.decision) (inside_match h2) in
      let same_gate : find "expected_gate" pair ≡ gate =
        item_inv "expected_gate" pair gate is_gate in
      subst (λ s. member s blocking_gates ≡ true) decided
        (gate_text gate (subst (λ v. in_set v blocking_gates ≡ ok true) same_gate gated))

  matches_block :
      (pairs : List Fields) (ms : List Match)
      → All Gated pairs
      → matches_from py guard prior delta pairs ≡ ok ms
      → All Blocks ms
  unfolding matches_from
  matches_block [] ms all h = subst (λ l. All Blocks l) (inside_matches h) tt
  matches_block (pair ∷ pairs) ms all h =
      let (found, tested, h1) = bind_inv (is_match py guard prior delta pair) _ ms h in
      by_match (λ l k. matches_block pairs l all.1 k) found h1
    where
      by_match :
          ((l : List Match) → matches_from py guard prior delta pairs ≡ ok l → All Blocks l)
          → (b : Bool) → add_match py guard b pair (matches_from py guard prior delta pairs) ≡ ok ms
          → All Blocks ms
      by_match later false k = later ms k
      by_match later true k =
          let (m, made, k1) = bind_inv (match_of py guard pair) _ ms k in
          let (rest, others, k2) = bind_inv (matches_from py guard prior delta pairs) _ ms k1 in
          subst (λ l. All Blocks l) (inside_matches k2)
            (gate-Blocks pair m all.0 made, later rest others)

  -- Where a compiler was created from a guard policy and some pair of it matches, a strongest gate is
  -- found: nothing is raised, it is one of the gates that block, and no match has a gate of a higher
  -- priority.
  pub create-Strongest :
      (m : Match) (ms : List Match)
      → create py.builtins guard ≡ ok guard
      → matching_pairs py guard prior delta ≡ ok (m ∷ ms)
      → (gate : String) × (strongest_gate (m ∷ ms) ≡ ok gate) × Strongest (m ∷ ms) gate
  unfolding create matching_pairs
  create-Strongest m ms created found =
      let (failures, validated, h1) =
        bind_inv (validate_guard_policy py.builtins guard) _ guard created in
      let (none_failed, h2) = check_inv (is_empty failures) _ _ guard h1 in
      let no_failures : failures ≡ [] = empty_inv failures none_failed in
      let gated = guard_inv py.builtins guard (validated ∙ ap ok no_failures) in
      let blocking = matches_block (pairs_of guard) (m ∷ ms) gated found in
      strongest_gate-Strongest m ms blocking.0 blocking.1
    where
      empty_inv : (xs : List String) → is_empty xs ≡ true → xs ≡ []
      empty_inv [] e = refl
      empty_inv (x ∷ xs) e = cc
