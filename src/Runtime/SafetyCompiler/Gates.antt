-- ===== src/Runtime/SafetyCompiler/Gates.antt =====
-- The gate of several matches, under a guard policy that was validated.
use skill_centric_agent_syst.Base.{
  ℕ, ◌≤◌, String, ◌≡◌, refl, true, Option, none, some, List, [], ◌∷◌, arith, eq_iff, ltb, member,
  get, Bool-cases, inl, inr, All,
}
use skill_centric_agent_syst.Base.Outcome.{ok}
use skill_centric_agent_syst.Runtime.SafetyCompiler.Guard.{
  Match, blocking_gates, priority, rank_of, stronger, strongest_gate,
}

-- The rank of a gate, 0 where it has none.
abbrev or_zero : Option ℕ → ℕ
or_zero none = 0
or_zero (some n) = n

abbrev pub rank : String → ℕ
rank gate = or_zero (get gate priority)

-- A blocking gate has a rank.
ranked : (gate : String) → member gate blocking_gates ≡ true → rank_of gate ≡ ok (rank gate)
unfolding rank_of member get
ranked gate h = ground (
  arith,
  eq_iff gate "freeze_prior",
  eq_iff gate "needs_human_review",
  eq_iff gate "needs_more_evidence",
  eq_iff gate "reject",
)

abbrev pub Blocks : Match → Type 0
Blocks m = member m.decision blocking_gates ≡ true

-- What the strongest gate of matches has to be.
pub record Strongest (ms : List Match) (gate : String) : Type 0 where
  pub blocking : member gate blocking_gates ≡ true
  pub strongest : All (λ m. rank m.decision ≤ rank gate) ms

stronger-Strongest :
    (best : String) (ms : List Match)
    → member best blocking_gates ≡ true
    → All Blocks ms
    → (gate : String) × (stronger best (rank best) ms ≡ ok gate)
      × (member gate blocking_gates ≡ true)
      × (rank best ≤ rank gate)
      × All (λ m. rank m.decision ≤ rank gate) ms
unfolding stronger
stronger-Strongest best [] h all = (best, refl, h, omega arith, tt)
stronger-Strongest best (m ∷ ms) h all = elim (Bool-cases (ltb (rank best) (rank m.decision))) [
  | inl above ↦
      (let (gate, run, blocks, most, rest) = stronger-Strongest m.decision ms all.0 all.1 in
        (gate, rw (ranked m.decision all.0) (rw above run), blocks, ground arith, (most, rest)))
  | inr below ↦
      (let (gate, run, blocks, most, rest) = stronger-Strongest best ms h all.1 in
        (gate, rw (ranked m.decision all.0) (rw below run), blocks, most, (ground arith, rest)))
]

-- Matches with blocking gates, of which there is one at least, have a strongest one: nothing is raised,
-- the result is a blocking gate, and no match has a gate of a higher rank.
pub strongest_gate-Strongest :
    (m : Match) (ms : List Match)
    → Blocks m
    → All Blocks ms
    → (gate : String) × (strongest_gate (m ∷ ms) ≡ ok gate) × Strongest (m ∷ ms) gate
unfolding strongest_gate
strongest_gate-Strongest m ms h all =
    let (gate, run, blocks, most, rest) = stronger-Strongest m.decision ms h all in
    (gate, rw (ranked m.decision h) run, record { blocking = blocks; strongest = (most, rest) })
