-- ===== src/Runtime/SafetyCompiler/Promotion.antt =====
-- When learned context is promoted without a person.
use skill_centric_agent_syst.Base.{
  String, ◌≡◌, ◌≢◌, refl, subst, true, false, List, [], ◌∷◌, is_empty, if◌then◌else◌, Fields, ◌⊎◌,
  inl, inr,
}
use skill_centric_agent_syst.Base.Outcome.{Outcome, ok, bind_inv, ◌>>=◌}
use skill_centric_agent_syst.Runtime.Queue.{Error}
use skill_centric_agent_syst.Runtime.Enforcement.Profile.{Containers}
use skill_centric_agent_syst.Runtime.SafetyCompiler.Guard.{Match, strongest_gate}
use skill_centric_agent_syst.Runtime.SafetyCompiler.{
  SafetyCompilerDecision, compile_learned_authority_prior, delta_of, matching_pairs, decide,
  reviewed, ranking_only,
}

module _ (py : Containers) (guard_policy prior : Fields) (artifacts : List String) where
  -- A decision, and the delta and the matches that it rests on.
  pub record Decided (d : SafetyCompilerDecision) : Type 0 where
    pub delta : List String
    pub is_asked : delta_of py guard_policy prior ≡ ok delta
    pub promoted :
        d.automatic_promotion_allowed ≡ true
        → (d.decision ≡ "allow_ranking_only")
          × ((delta ≡ [])
              ⊎ ((matching_pairs py guard_policy prior delta ≡ ok []) × (reviewed artifacts ≢ [])))
    pub blocked :
        d.automatic_promotion_allowed ≡ false
        → (delta ≢ [])
          × (((m : Match) × ((ms : List Match) × (matching_pairs py guard_policy prior delta
                    ≡ ok (m ∷ ms))
                  × (strongest_gate (m ∷ ms) ≡ ok d.decision)))
              ⊎ ((matching_pairs py guard_policy prior delta ≡ ok [])
                  × (reviewed artifacts ≡ [])
                  × (d.decision ≡ "reject")))

  decide-Decided :
      (delta reviewed_ones : List String) (ms : List Match) (d : SafetyCompilerDecision)
      → delta ≢ []
      → delta_of py guard_policy prior ≡ ok delta
      → reviewed artifacts ≡ reviewed_ones
      → matching_pairs py guard_policy prior delta ≡ ok ms
      → decide py guard_policy delta reviewed_ones ms ≡ ok d
      → Decided d
  unfolding decide
  decide-Decided delta reviewed_ones (m ∷ ms) d some_delta asked same found h =
      let (gate, strongest, same_d) = bind_inv (strongest_gate (m ∷ ms)) _ d h in
      let gates : d.decision ≡ gate = cc in
      record {
        delta = delta;
        is_asked = asked;
        promoted = λ p. cc;
        blocked = λ p. (some_delta, inl (m, (ms, found, cc)));
      }
  decide-Decided delta [] [] d some_delta asked same found h = record {
    delta = delta;
    is_asked = asked;
    promoted = λ p. cc;
    blocked = λ p. (some_delta, inr (found, same, cc));
  }
  decide-Decided delta (a ∷ as_) [] d some_delta asked same found h = record {
    delta = delta;
    is_asked = asked;
    promoted = λ p. (cc, inr (found, λ e. cc));
    blocked = λ p. cc;
  }

  inner :
      {a b : SafetyCompilerDecision}
      → ◌≡◌ {A = Outcome Error SafetyCompilerDecision} (ok a) (ok b)
      → a ≡ b
  inner h = cc

  nothing_asked :
      delta_of py guard_policy prior ≡ ok []
      → Decided (
          ranking_only py guard_policy []
            (reviewed artifacts)
            "Learned context changes ranking only and carries no authority delta.")
  nothing_asked asked = record {
    delta = [];
    is_asked = asked;
    promoted = λ p. (refl, inl refl);
    blocked = λ p. cc;
  }

  -- A decision promotes learned context only as a ranking, and only where no authority is asked for, or
  -- where no forbidden pair matches and some artifact of a policy was reviewed. Any other one asks for
  -- authority, and is the strongest gate of the pairs that match, or, where none matches and nothing was
  -- reviewed, the gate "reject".
  pub compile-Decided :
      (d : SafetyCompilerDecision)
      → compile_learned_authority_prior py guard_policy prior artifacts ≡ ok d
      → Decided d
  unfolding compile_learned_authority_prior
  compile-Decided d h =
      let (delta, asked, h1) = bind_inv (delta_of py guard_policy prior) _ d h in
      by_delta delta asked h1
    where
      by_delta :
          (delta : List String)
          → delta_of py guard_policy prior ≡ ok delta
          → (if is_empty delta
              then ok (
                  ranking_only py guard_policy []
                    (reviewed artifacts)
                    "Learned context changes ranking only and carries no authority delta.")
              else matching_pairs py guard_policy prior delta >>= λ ms.
                  decide py guard_policy delta (reviewed artifacts) ms)
            ≡ ok d
          → Decided d
      by_delta [] asked k = subst Decided (inner k) (nothing_asked asked)
      by_delta (x ∷ xs) asked k =
          let (ms, found, decided) =
            bind_inv (matching_pairs py guard_policy prior (x ∷ xs)) _ d k in
          decide-Decided (x ∷ xs) (reviewed artifacts) ms d (λ e. cc) asked refl found decided
