-- ===== src/Runtime/Enforcement/Budget.antt =====
-- The budgets of enforcement.py: no sequence of calls spends more than the profile allows.
use skill_centric_agent_syst.Base.{
  ℕ, ◌+◌, ◌≤◌, String, ◌≡◌, refl, sym, false, List, [], ◌∷◌, arith, ℤ, pos, negsuc, exceeds, Fields,
  ◌⊎◌, inl, inr, Bool-cases, ◌∙◌, subst,
}
use skill_centric_agent_syst.Base.Outcome.{Outcome, ok, err}
use skill_centric_agent_syst.Base.Exec
use skill_centric_agent_syst.Base.Exec.{Exec}
use skill_centric_agent_syst.Runtime.Enforcement.Profile.{
  Failure, denied, value_error, Containers, limit_of,
}
use skill_centric_agent_syst.Runtime.Enforcement.Enforcer.{
  Enforcer, Counter, read, write, limit_name, increment_limit, check_duration, consume_tokens,
  record_data_read, record_memory_op, record_recomposition_request, record_tool_invocation, reads,
  spend_within, exceeded_code, read_scopes,
}

-- A call of one of the methods that count.
pub data Call : Type 0 where
  tokens : ℕ → ℤ → Call
  data_read memory_op : ℤ → Call
  recomposition : Call
  tool : ℕ → String → List String → List String → String → Call

module _ (py : Containers) where
  pub perform : Call → Exec Failure Enforcer (Unit {0})
  perform (tokens now n) = consume_tokens py now n
  perform (data_read n) = record_data_read py n
  perform (memory_op n) = record_memory_op py n
  perform recomposition = record_recomposition_request py
  perform (tool now name scopes policies risk) =
      record_tool_invocation py now name scopes policies risk

  -- The calls of one run, each of which may raise; the object stays as the call left it.
  pub perform_all : Enforcer → List Call → Enforcer
  perform_all e [] = e
  perform_all e (c ∷ cs) = perform_all (perform c e).1 cs

  -- A number that the limit of the counter allows.
  abbrev pub Allowed : Fields → Counter → ℕ → Type 0
  Allowed profile c n =
      (most : ℤ) × (limit_of py profile (limit_name c) ≡ ok most) × (exceeds n most ≡ false)

  -- From `e` to `f` the profile stays, and each counter stays or has grown to what is allowed.
  pub record Spends (e f : Enforcer) : Type 0 where
    pub sealed : f.profile ≡ e.profile
    pub started : f.started_at ≡ e.started_at
    pub grows : (c : Counter) → read c e ≤ read c f
    pub bounded : (c : Counter) → (read c f ≡ read c e) ⊎ Allowed e.profile c (read c f)

  Spends-refl : (e : Enforcer) → Spends e e
  Spends-refl e = record {
    sealed = refl;
    started = refl;
    grows = λ c. omega arith;
    bounded = λ c. inl refl;
  }

  bounded_trans :
      (e f g : Enforcer) (c : Counter)
      → f.profile ≡ e.profile
      → (read c f ≡ read c e) ⊎ Allowed e.profile c (read c f)
      → (read c g ≡ read c f) ⊎ Allowed f.profile c (read c g)
      → (read c g ≡ read c e) ⊎ Allowed e.profile c (read c g)
  bounded_trans e f g c s (inl p) (inl q) = inl (q ∙ p)
  bounded_trans e f g c s (inr p) (inl q) = inr (subst (Allowed e.profile c) (sym q) p)
  bounded_trans e f g c s p (inr q) = inr (subst (λ x. Allowed x c (read c g)) s q)

  Spends-trans : {e f g : Enforcer} → Spends e f → Spends f g → Spends e g
  Spends-trans {e} {f} {g} p q = record {
    sealed = q.sealed ∙ p.sealed;
    started = q.started ∙ p.started;
    grows = λ c. omega (arith, p.grows c, q.grows c);
    bounded = λ c. bounded_trans e f g c p.sealed (p.bounded c) (q.bounded c);
  }

  abbrev Increments : Counter → ℤ → Enforcer → Outcome Failure (Unit {0}) × Enforcer → Type 0
  Increments c a e r =
      ((f : Failure) × (r ≡ (err f, e)))
      ⊎ ((n : ℕ) × (a ≡ pos n)
          × Allowed e.profile c (read c e + n)
          × (r ≡ (ok tt, write c (read c e + n) e)))

  spend_cases :
      (c : Counter) (n : ℕ) (limit : Outcome Failure ℤ) (e : Enforcer)
      → limit_of py e.profile (limit_name c) ≡ limit
      → Increments c (pos n) e (spend_within py c n limit e)
  unfolding spend_within
  spend_cases c n (err f) e h = inl (f, refl)
  spend_cases c n (ok most) e h = elim (Bool-cases (exceeds (read c e + n) most)) [
    | inl over ↦ inl (denied (limit_name c) (exceeded_code c), rw over)
    | inr within ↦ inr (n, refl, (most, h, within), rw within)
  ]

  -- A charge is refused and changes nothing, or fits the limit and is made in full.
  pub increment_cases :
      (c : Counter) (a : ℤ) (e : Enforcer) → Increments c a e (increment_limit py c a e)
  unfolding increment_limit
  increment_cases c (negsuc n) e = inl (value_error, refl)
  increment_cases c (pos n) e = spend_cases c n _ e refl

  write-bounded :
      (c d : Counter) (n : ℕ) (e : Enforcer)
      → Allowed e.profile c (read c e + n)
      → (read d (write c (read c e + n) e) ≡ read d e)
        ⊎ Allowed e.profile d (read d (write c (read c e + n) e))
  unfolding read write
  write-bounded Counter.tool_calls Counter.tool_calls n e a = inr a
  write-bounded Counter.tokens_used Counter.tokens_used n e a = inr a
  write-bounded Counter.data_reads Counter.data_reads n e a = inr a
  write-bounded Counter.memory_ops Counter.memory_ops n e a = inr a
  write-bounded Counter.recomposition_requests Counter.recomposition_requests n e a = inr a
  write-bounded _ _ n e a = inl refl

  write-grows :
      (c d : Counter) (n : ℕ) (e : Enforcer) → read d e ≤ read d (write c (read c e + n) e)
  unfolding read write
  write-grows Counter.tool_calls Counter.tool_calls n e = omega arith
  write-grows Counter.tokens_used Counter.tokens_used n e = omega arith
  write-grows Counter.data_reads Counter.data_reads n e = omega arith
  write-grows Counter.memory_ops Counter.memory_ops n e = omega arith
  write-grows Counter.recomposition_requests Counter.recomposition_requests n e = omega arith
  write-grows _ _ n e = omega arith

  write-sealed : (c : Counter) (n : ℕ) (e : Enforcer) → (write c n e).profile ≡ e.profile
  unfolding write
  write-sealed Counter.tool_calls n e = refl
  write-sealed _ n e = refl

  write-started : (c : Counter) (n : ℕ) (e : Enforcer) → (write c n e).started_at ≡ e.started_at
  unfolding write
  write-started Counter.tool_calls n e = refl
  write-started _ n e = refl

  write-Spends :
      (c : Counter) (n : ℕ) (e : Enforcer)
      → Allowed e.profile c (read c e + n)
      → Spends e (write c (read c e + n) e)
  write-Spends c n e a = record {
    sealed = write-sealed c _ e;
    started = write-started c _ e;
    grows = λ d. write-grows c d n e;
    bounded = λ d. write-bounded c d n e a;
  }

  Increments-Spends :
      (c : Counter) (a : ℤ) (e : Enforcer) (r : Outcome Failure (Unit {0}) × Enforcer)
      → Increments c a e r
      → Spends e r.1
  Increments-Spends c a e r (inl (f, h)) = rw h (Spends-refl e)
  Increments-Spends c a e r (inr (n, _, w, h)) = rw h (write-Spends c n e w)

  -- A method that, whether it returns or raises, spends within the limits.
  pub record IsFrugal (m : Exec Failure Enforcer (Unit {0})) : Type 0 where
    pub at : (e : Enforcer) → Spends e (m e).1

  pure-IsFrugal : IsFrugal (Exec.pure tt)
  pure-IsFrugal = record { at = Spends-refl }

  raise-IsFrugal : (f : Failure) → IsFrugal (Exec.raise f)
  raise-IsFrugal f = record { at = Spends-refl }

  reads-IsFrugal : (f : Fields → Outcome Failure (Unit {0})) → IsFrugal (reads py f)
  reads-IsFrugal f = record { at = Spends-refl }

  check_duration-IsFrugal : (now : ℕ) → IsFrugal (check_duration py now)
  unfolding check_duration
  check_duration-IsFrugal now = record { at = Spends-refl }

  increment-IsFrugal : (c : Counter) (a : ℤ) → IsFrugal (increment_limit py c a)
  increment-IsFrugal c a = record { at = λ e. Increments-Spends c a e _ (increment_cases c a e) }

  continue-Spends :
      (n : Exec Failure Enforcer (Unit {0})) (e x : Enforcer) (r : Outcome Failure (Unit {0}))
      → Spends e x
      → IsFrugal n
      → Spends e (Exec.continue r (λ _. n) x).1
  continue-Spends n e x (ok u) p k = Spends-trans p (k.at x)
  continue-Spends n e x (err f) p k = p

  then-IsFrugal :
      (m n : Exec Failure Enforcer (Unit {0})) → IsFrugal m → IsFrugal n → IsFrugal (Exec.◌>>◌ m n)
  unfolding Exec.◌>>=◌
  then-IsFrugal m n h k = record { at = λ e. continue-Spends n e (m e).1 (m e).0 (h.at e) k }

  ruleset frugal_rules = (
    pure-IsFrugal, raise-IsFrugal, reads-IsFrugal, check_duration-IsFrugal, increment-IsFrugal,
    then-IsFrugal,
  )

  read_scopes-IsFrugal : (scopes : List String) → IsFrugal (read_scopes py scopes)
  unfolding read_scopes record_data_read
  read_scopes-IsFrugal [] = search frugal_rules
  read_scopes-IsFrugal (s ∷ rest) = search frugal_rules

  perform-IsFrugal : (call : Call) → IsFrugal (perform call)
  unfolding perform consume_tokens record_data_read record_memory_op record_recomposition_request
      record_tool_invocation
  perform-IsFrugal (tokens now (pos n)) = search frugal_rules
  perform-IsFrugal (tool now name scopes policies risk) =
      search (frugal_rules, read_scopes-IsFrugal) depth 7
  perform-IsFrugal _ = search frugal_rules

  -- Whatever is called in a run and whichever calls raise, the profile stays as it was sealed, no
  -- counter falls, and each counter has its first value or one that the limit of the profile allows.
  pub perform_all-Spends : (e : Enforcer) (calls : List Call) → Spends e (perform_all e calls)
  unfolding perform_all
  perform_all-Spends e [] = Spends-refl e
  perform_all-Spends e (c ∷ cs) =
      Spends-trans ((perform-IsFrugal c).at e) (perform_all-Spends (perform c e).1 cs)
