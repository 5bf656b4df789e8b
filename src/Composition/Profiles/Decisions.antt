-- ===== src/Composition/Profiles/Decisions.antt =====
-- The names of references, and what the checks of the policy decisions leave of them.
use skill_centric_agent_syst.Base.{
  String, ◌≡◌, refl, sym, ap, subst, Bool, true, false, Option, none, some, List, [], ◌∷◌, ◌==◌,
  arith, eq_iff, keep, member, Dict, get, Json, str, Fields, find, has_key, as_text, Builtins,
  to_str, Bool-cases, ◌⊎◌, inl, inr,
}
use skill_centric_agent_syst.Base.Outcome.{ok, for_each, seq_inv, check_inv, check_ok}
use skill_centric_agent_syst.Composition.ProfileComposer.References.{
  names, names_of, is_kind, prepend, unique, unseen_from,
}
use skill_centric_agent_syst.Composition.ProfileComposer.Checks.{
  check_candidate, check_graph_tool, not_refused, is_allowed, effect_of,
}

unseen-member :
    (seen xs : List String) (x : String)
    → member x (unseen_from seen xs) ≡ true
    → member x xs ≡ true
unfolding unseen_from member
unseen-member seen [] x h = h
unseen-member seen (v ∷ vs) x h =
    ground (arith, unseen-member seen vs x, unseen-member (v ∷ seen) vs x)

pub unique-member :
    (xs : List String) (x : String) → member x (unique xs) ≡ true → member x xs ≡ true
unfolding unique
unique-member xs x h = unseen-member [] xs x h

module _ (py : Builtins) (effects : Dict Json) where
  candidate_step :
      (r : Fields) (v : Json) (t : String)
      → find "name" r ≡ v
      → check_candidate py effects r ≡ ok tt
      → as_text v ≡ some t
      → not_refused py (get t effects) ≡ true
  unfolding check_candidate to_str
  candidate_step r (str s) t e h same_text =
      let (named, allowed) = check_inv (has_key "name" r) _ _ tt h in
      let found = check_ok (not_refused py (effect_of py (find "name" r) effects)) _ allowed in
      let is_t : s ≡ t = cc in
      subst (λ x. not_refused py (get x effects) ≡ true) is_t
        (subst (λ w. not_refused py (effect_of py w effects) ≡ true) e found)
  candidate_step r v t e h same_text = cc

  tool_step :
      (r : Fields) (v : Json) (t : String)
      → find "name" r ≡ v
      → is_kind py "tool" r ≡ true
      → check_graph_tool py effects r ≡ ok tt
      → as_text v ≡ some t
      → is_allowed py (get t effects) ≡ true
  unfolding check_graph_tool to_str
  tool_step r (str s) t e kind h same_text =
      let (named, allowed) = check_inv (has_key "name" r) _ _ tt (rw kind at h) in
      let found = check_ok (is_allowed py (effect_of py (find "name" r) effects)) _ allowed in
      let is_t : s ≡ t = cc in
      subst (λ x. is_allowed py (get x effects) ≡ true) is_t
        (subst (λ w. is_allowed py (effect_of py w effects) ≡ true) e found)
  tool_step r v t e kind h same_text = cc

module _ (py : Builtins) where
  -- A name of a list is that of the first reference or of another.
  names_head :
      (t : String) (o : Option String) (rest : List String)
      → member t (prepend o rest) ≡ true
      → (o ≡ some t) ⊎ (member t rest ≡ true)
  unfolding member
  names_head t none rest h = inr h
  names_head t (some name) rest h = elim (Bool-cases (t == name)) [
    | inl is_name ↦ inl (ap some (sym ((eq_iff t name).0 is_name)))
    | inr other ↦ inr (ground arith)
  ]

  kind_head :
      (kind : String) (r : Fields) (rs : List Fields) (t : String) (b : Bool)
      → is_kind py kind r ≡ b
      → member t (names_of py kind (r ∷ rs)) ≡ true
      → ((is_kind py kind r ≡ true) × (as_text (find "name" r) ≡ some t))
        ⊎ (member t (names_of py kind rs) ≡ true)
  unfolding names_of names keep
  kind_head kind r rs t true e h =
      elim (names_head t (as_text (find "name" r)) (names (keep (is_kind py kind) rs))
        (rw (e, names) at h)) [ inl here ↦ inl (e, here) | inr later ↦ inr later ]
  kind_head kind r rs t false e h = inr (rw (e, names) at h)

  module _ (effects : Dict Json) where
    pub candidates_allowed :
        (rs : List Fields) (kind t : String)
        → for_each (check_candidate py effects) rs ≡ ok tt
        → member t (names_of py kind rs) ≡ true
        → not_refused py (get t effects) ≡ true
    unfolding for_each
    candidates_allowed [] kind t h m = unfold names_of names keep member in cc
    candidates_allowed (r ∷ rs) kind t h m =
        let (first, rest) = seq_inv (check_candidate py effects r) _ tt h in
        elim (kind_head kind r rs t _ refl m) [
          | inl (is, named) ↦ candidate_step py effects r _ t refl first named
          | inr later ↦ candidates_allowed rs kind t rest later
        ]

    pub tools_allowed :
        (rs : List Fields) (t : String)
        → for_each (check_graph_tool py effects) rs ≡ ok tt
        → member t (names_of py "tool" rs) ≡ true
        → is_allowed py (get t effects) ≡ true
    unfolding for_each
    tools_allowed [] t h m = unfold names_of names keep member in cc
    tools_allowed (r ∷ rs) t h m =
        let (first, rest) = seq_inv (check_graph_tool py effects r) _ tt h in
        elim (kind_head "tool" r rs t _ refl m) [
          | inl (is, named) ↦ tool_step py effects r _ t refl is first named
          | inr later ↦ tools_allowed rs t rest later
        ]
