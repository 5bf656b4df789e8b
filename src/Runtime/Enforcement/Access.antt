-- ===== src/Runtime/Enforcement/Access.antt =====
-- What a granted tool invocation has passed, and what a refused one costs.
use skill_centric_agent_syst.Base.{
  ℕ, ◌+◌, ◌≤◌, String, ◌≡◌, refl, sym, true, false, not, List, [], ◌∷◌, arith, ap, ℤ, pos, str,
  Fields, ◌⊎◌, inl, inr, ◌∙◌, subst, member, missing-none, eq_iff, to_str,
}
use skill_centric_agent_syst.Base.Outcome.{Outcome, ok, for_each, bind_inv, check_ok}
use skill_centric_agent_syst.Base.Exec
use skill_centric_agent_syst.Base.Exec.{Exec, then_inv, continue_inv}
use skill_centric_agent_syst.Runtime.Enforcement.Profile.{
  Failure, Containers, find_or, empty_list, contains, iterate, limit_of, risk_rank, require_tool,
  require_tool_risk, require_policy, require_data_scopes,
}
use skill_centric_agent_syst.Runtime.Enforcement.Enforcer.{
  Enforcer, Counter, read, write, increment_limit, check_duration, record_data_read,
  record_tool_invocation, reads, read_scopes,
}
use skill_centric_agent_syst.Runtime.Enforcement.Budget.{Allowed, increment_cases}

-- The charges of a granted invocation.
abbrev pub charged : List String → Enforcer → Enforcer
charged [] e = record e { tool_calls = e.tool_calls + 1 }
charged (s ∷ rest) e = record e { tool_calls = e.tool_calls + 1; data_reads = e.data_reads + 1 }

module _ (py : Containers) where
  -- What a profile has to say for an invocation to be granted.
  pub record Granted (now : ℕ) (tool_name : String) (scopes policies : List String) (risk : String)
      (e : Enforcer) : Type 0 where
    pub in_time :
        (most : ℤ) × (limit_of py e.profile "max_duration_seconds" ≡ ok most)
        × (py.elapsed_over now e.started_at most ≡ false)
    pub tool_listed : contains py tool_name (find_or "tools" empty_list e.profile) ≡ ok true
    pub risk_within :
        risk_rank risk ≤ risk_rank (to_str py.builtins (find_or "risk_level" (str "low") e.profile))
    pub policies_listed :
        (p : String)
        → member p policies ≡ true
        → contains py p (find_or "policies" empty_list e.profile) ≡ ok true
    pub call_allowed : Allowed py e.profile Counter.tool_calls (e.tool_calls + 1)
    pub scopes_allowed :
        (scopes ≡ [])
        ⊎ ((allowed : List String) × (iterate py (find_or "data_scopes" empty_list e.profile)
              ≡ ok allowed)
            × ((x : String) → member x scopes ≡ true → member x allowed ≡ true)
            × Allowed py e.profile Counter.data_reads (e.data_reads + 1))

  reads_inv :
      (f : Fields → Outcome Failure (Unit {0})) (n : Exec Failure Enforcer (Unit {0}))
      (e t : Enforcer)
      → Exec.◌>>◌ (reads py f) n e ≡ (ok tt, t)
      → (f e.profile ≡ ok tt) × (n e ≡ (ok tt, t))
  unfolding Exec.◌>>=◌
  reads_inv f n e t h = continue_inv (f e.profile) n e t tt h

  abbrev pub InTime : ℕ → Enforcer → Type 0
  InTime now e =
      (most : ℤ) × (limit_of py e.profile "max_duration_seconds" ≡ ok most)
      × (py.elapsed_over now e.started_at most ≡ false)

  duration_inv :
      (now : ℕ) (n : Exec Failure Enforcer (Unit {0})) (e t : Enforcer)
      → Exec.◌>>◌ (check_duration py now) n e ≡ (ok tt, t)
      → InTime now e × (n e ≡ (ok tt, t))
  unfolding check_duration Exec.◌>>=◌
  duration_inv now n e t h =
      let (checked, rest) = continue_inv (check_duration py now e).0 n e t tt h in
      let (most, found, passed) =
        bind_inv (limit_of py e.profile "max_duration_seconds") _ tt checked in
      let within = check_ok (not (py.elapsed_over now e.started_at most)) _ passed in
      ((most, found, ground arith), rest)

  tool_inv :
      (p : Fields) (name : String)
      → require_tool py p name ≡ ok tt
      → contains py name (find_or "tools" empty_list p) ≡ ok true
  unfolding require_tool
  tool_inv p name h = ground arith

  policies_inv :
      (profile : Fields) (policies : List String)
      → for_each (require_policy py profile) policies ≡ ok tt
      → (p : String) → member p policies ≡ true
      → contains py p (find_or "policies" empty_list profile) ≡ ok true
  unfolding for_each require_policy member
  policies_inv profile [] h p m = cc
  policies_inv profile (q ∷ qs) h p m =
      ground (arith, eq_iff p q, policies_inv profile qs (ground arith) p)

  risk_inv :
      (p : Fields) (risk : String)
      → require_tool_risk py p risk ≡ ok tt
      → risk_rank risk ≤ risk_rank (to_str py.builtins (find_or "risk_level" (str "low") p))
  unfolding require_tool_risk
  risk_inv p risk h = ground arith

  data_scopes_inv :
      (p : Fields) (scopes : List String)
      → require_data_scopes py p scopes ≡ ok tt
      → (allowed : List String) × (iterate py (find_or "data_scopes" empty_list p) ≡ ok allowed)
        × ((x : String) → member x scopes ≡ true → member x allowed ≡ true)
  unfolding require_data_scopes
  data_scopes_inv p scopes h =
      let (allowed, found, passed) =
        bind_inv (iterate py (find_or "data_scopes" empty_list p)) _ tt h in
      (allowed, found, missing-none scopes allowed (check_ok _ _ passed))

  -- A charge that returned fits the limit and was made in full.
  pub increment_inv :
      (c : Counter) (n : ℕ) (e f : Enforcer)
      → increment_limit py c (pos n) e ≡ (ok tt, f)
      → Allowed py e.profile c (read c e + n) × (f ≡ write c (read c e + n) e)
  increment_inv c n e f h = elim (increment_cases py c (pos n) e) [
    | inl (failure, g) ↦ cc
    | inr (m, same_n, allowed, g) ↦
        (let same : m ≡ n = cc in
          let state : f ≡ write c (read c e + m) e = sym (ap (λ r. r.1) h) ∙ ap (λ r. r.1) g in
          (
            subst (λ k. Allowed py e.profile c (read c e + k)) same allowed,
            subst (λ k. f ≡ write c (read c e + k) e) same state,
          ))
  ]

  scopes_inv :
      (scopes : List String) (e f : Enforcer)
      → read_scopes py scopes (write Counter.tool_calls (e.tool_calls + 1) e) ≡ (ok tt, f)
      → ((scopes ≡ [])
          ⊎ ((allowed : List String) × (iterate py (find_or "data_scopes" empty_list e.profile)
                ≡ ok allowed)
              × ((x : String) → member x scopes ≡ true → member x allowed ≡ true)
              × Allowed py e.profile Counter.data_reads (e.data_reads + 1)))
        × (f ≡ charged scopes e)
  unfolding read_scopes write read record_data_read
  scopes_inv [] e f h = (inl refl, sym (ap (λ r. r.1) h))
  scopes_inv (s ∷ rest) e f h =
      let (passed, counted) = reads_inv (λ p. require_data_scopes py p (s ∷ rest)) _ _ f h in
      let (allowed, found, all_in) = data_scopes_inv e.profile (s ∷ rest) passed in
      let (within, done) = increment_inv Counter.data_reads 1 _ f counted in
      (inr (allowed, found, all_in, within), done)

  charge_inv :
      (scopes : List String) (e f : Enforcer)
      → Exec.◌>>◌ (increment_limit py Counter.tool_calls (pos 1)) (read_scopes py scopes) e
        ≡ (ok tt, f)
      → Allowed py e.profile Counter.tool_calls (e.tool_calls + 1)
        × (read_scopes py scopes (write Counter.tool_calls (e.tool_calls + 1) e) ≡ (ok tt, f))
  unfolding read
  charge_inv scopes e f h =
      let (x, paid, rest) = then_inv (increment_limit py Counter.tool_calls (pos 1)) _ e f tt h in
      let (within, same) = increment_inv Counter.tool_calls 1 e x paid in
      (within, subst (λ y. read_scopes py scopes y ≡ (ok tt, f)) same rest)

  -- An invocation that returns has been granted by the profile: the run is in time, the tool and
  -- every required policy are listed, the risk of the tool is not above that of the profile, every
  -- required data scope is listed, and the charges, one tool call and one data read where a scope
  -- is required, fit the limits and are all that changes.
  pub record_tool_invocation_sound :
      (now : ℕ) (tool_name : String) (scopes policies : List String) (risk : String)
      (e f : Enforcer)
      → record_tool_invocation py now tool_name scopes policies risk e ≡ (ok tt, f)
      → Granted now tool_name scopes policies risk e × (f ≡ charged scopes e)
  unfolding record_tool_invocation
  record_tool_invocation_sound now tool_name scopes policies risk e f h =
      let (timely, h1) = duration_inv now _ e f h in
      let (tool_ok, h2) = reads_inv (λ p. require_tool py p tool_name) _ e f h1 in
      let (risk_ok, h3) = reads_inv (λ p. require_tool_risk py p risk) _ e f h2 in
      let (rules_ok, h4) = reads_inv (λ p. for_each (require_policy py p) policies) _ e f h3 in
      let (call_ok, h5) = charge_inv scopes e f h4 in
      let (scopes_ok, done) = scopes_inv scopes e f h5 in
      (
        record {
          in_time = timely;
          tool_listed = tool_inv e.profile tool_name tool_ok;
          risk_within = risk_inv e.profile risk risk_ok;
          policies_listed = policies_inv e.profile policies rules_ok;
          call_allowed = call_ok;
          scopes_allowed = scopes_ok;
        },
        done,
      )
