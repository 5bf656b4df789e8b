-- ===== src/Runtime/Enforcement/Refusal.antt =====
-- The other direction of Access: what is granted goes through; and what a refusal costs.
use skill_centric_agent_syst.Base.{
  ℕ, ◌+◌, ◌≤◌, String, ◌≡◌, refl, sym, true, List, [], ◌∷◌, arith, ap, ℤ, pos, str, Fields, ◌⊎◌,
  inl, inr, ◌≢◌, ◌∙◌, member, none-missing, eq_refl, to_str,
}
use skill_centric_agent_syst.Base.Outcome.{Outcome, ok, err, for_each}
use skill_centric_agent_syst.Base.Exec
use skill_centric_agent_syst.Base.Exec.{Exec}
use skill_centric_agent_syst.Runtime.Enforcement.Profile.{
  Failure, Containers, find_or, empty_list, contains, iterate, risk_rank, require_tool,
  require_tool_risk, require_policy, require_data_scopes,
}
use skill_centric_agent_syst.Runtime.Enforcement.Enforcer.{
  Enforcer, Counter, read, write, increment_limit, spend_within, check_duration, record_data_read,
  record_tool_invocation, reads, read_scopes,
}
use skill_centric_agent_syst.Runtime.Enforcement.Budget.{Allowed, increment_cases}
use skill_centric_agent_syst.Runtime.Enforcement.Access.{Granted, charged, InTime}

module _ (py : Containers) where
  timely : (now : ℕ) (e : Enforcer) → InTime py now e → check_duration py now e ≡ (ok tt, e)
  unfolding check_duration
  timely now e (most, found, within) = rw (found, within)

  listed :
      (p : Fields) (name : String)
      → contains py name (find_or "tools" empty_list p) ≡ ok true
      → require_tool py p name ≡ ok tt
  unfolding require_tool
  listed p name h = rw h

  risk_ok :
      (p : Fields) (risk : String)
      → risk_rank risk ≤ risk_rank (to_str py.builtins (find_or "risk_level" (str "low") p))
      → require_tool_risk py p risk ≡ ok tt
  unfolding require_tool_risk
  risk_ok p risk h = ground arith

  policies_ok :
      (profile : Fields) (policies : List String)
      → ((p : String)
          → member p policies ≡ true
          → contains py p (find_or "policies" empty_list profile) ≡ ok true)
      → for_each (require_policy py profile) policies ≡ ok tt
  unfolding for_each require_policy member
  policies_ok profile [] h = refl
  policies_ok profile (q ∷ qs) h =
      rw (h q (ground (arith, eq_refl q))) (policies_ok profile qs (λ p m. h p (ground (arith, m))))

  paid :
      (c : Counter) (n : ℕ) (e : Enforcer)
      → Allowed py e.profile c (read c e + n)
      → increment_limit py c (pos n) e ≡ (ok tt, write c (read c e + n) e)
  unfolding increment_limit
  paid c n e (most, found, within) = rw (found, spend_within, within)

  data_scopes_ok :
      (p : Fields) (scopes allowed : List String)
      → iterate py (find_or "data_scopes" empty_list p) ≡ ok allowed
      → ((x : String) → member x scopes ≡ true → member x allowed ≡ true)
      → require_data_scopes py p scopes ≡ ok tt
  unfolding require_data_scopes
  data_scopes_ok p scopes allowed found all_in = rw (found, none-missing scopes allowed all_in)

  read_ok :
      (scopes : List String) (e : Enforcer)
      → (scopes ≡ [])
        ⊎ ((allowed : List String) × (iterate py (find_or "data_scopes" empty_list e.profile)
              ≡ ok allowed)
            × ((x : String) → member x scopes ≡ true → member x allowed ≡ true)
            × Allowed py e.profile Counter.data_reads (e.data_reads + 1))
      → read_scopes py scopes (write Counter.tool_calls (e.tool_calls + 1) e)
        ≡ (ok tt, charged scopes e)
  unfolding read_scopes record_data_read read write Exec.◌>>=◌
  read_ok [] e h = refl
  read_ok (s ∷ rest) e (inl none_required) = cc
  read_ok (s ∷ rest) e (inr (allowed, found, all_in, within)) =
      rw (data_scopes_ok e.profile (s ∷ rest) allowed found all_in)
        (paid Counter.data_reads 1 (record e { tool_calls = e.tool_calls + 1 }) within)

  -- What the profile grants goes through: with no check failing the invocation returns, and has made
  -- the charges of the soundness theorem.
  pub record_tool_invocation_complete :
      (now : ℕ) (tool_name : String) (scopes policies : List String) (risk : String) (e : Enforcer)
      → Granted py now tool_name scopes policies risk e
      → record_tool_invocation py now tool_name scopes policies risk e ≡ (ok tt, charged scopes e)
  unfolding record_tool_invocation Exec.◌>>=◌ read
  record_tool_invocation_complete now tool_name scopes policies risk e g =
      rw
        (
          timely now e g.in_time,
          listed e.profile tool_name g.tool_listed,
          risk_ok e.profile risk g.risk_within,
          policies_ok e.profile policies g.policies_listed,
          paid Counter.tool_calls 1 e g.call_allowed,
        )
        (read_ok scopes e g.scopes_allowed)

  continue_err :
      (r : Outcome Failure (Unit {0})) (n : Exec Failure Enforcer (Unit {0})) (s t : Enforcer)
      (x : Failure)
      → Exec.continue r (λ _. n) s ≡ (err x, t)
      → (t ≡ s) ⊎ (n s ≡ (err x, t))
  continue_err (ok u) n s t x h = inr h
  continue_err (err f) n s t x h = inl (sym (ap (λ r. r.1) h))

  reads_err :
      (f : Fields → Outcome Failure (Unit {0})) (n : Exec Failure Enforcer (Unit {0}))
      (e t : Enforcer) (x : Failure)
      → Exec.◌>>◌ (reads py f) n e ≡ (err x, t)
      → (t ≡ e) ⊎ (n e ≡ (err x, t))
  unfolding Exec.◌>>=◌
  reads_err f n e t x h = continue_err (f e.profile) n e t x h

  -- The state after a charge that was refused, or that was made before a later refusal.
  abbrev AfterRefusal : List String → Enforcer → Enforcer → Type 0
  AfterRefusal scopes e t =
      (t ≡ e) ⊎ ((scopes ≢ []) × (t ≡ record e { tool_calls = e.tool_calls + 1 }))

  duration_err :
      (now : ℕ) (n : Exec Failure Enforcer (Unit {0})) (e t : Enforcer) (x : Failure)
      → Exec.◌>>◌ (check_duration py now) n e ≡ (err x, t)
      → (t ≡ e) ⊎ (n e ≡ (err x, t))
  unfolding check_duration Exec.◌>>=◌
  duration_err now n e t x h = continue_err (check_duration py now e).0 n e t x h

  increment_err :
      (c : Counter) (a : ℤ) (e t : Enforcer) (x : Failure)
      → increment_limit py c a e ≡ (err x, t)
      → t ≡ e
  increment_err c a e t x h = elim (increment_cases py c a e) [
    | inl (failure, g) ↦ sym (ap (λ r. r.1) h) ∙ ap (λ r. r.1) g
    | inr (m, same_n, allowed, g) ↦ cc
  ]

  scopes_err :
      (scopes : List String) (e t : Enforcer) (x : Failure)
      → read_scopes py scopes e ≡ (err x, t)
      → (scopes ≢ []) × (t ≡ e)
  unfolding read_scopes record_data_read
  scopes_err [] e t x h = cc
  scopes_err (s ∷ rest) e t x h =
      elim (reads_err (λ p. require_data_scopes py p (s ∷ rest)) _ e t x h) [
        | inl same ↦ (λ q. cc, same)
        | inr counted ↦ (λ q. cc, increment_err Counter.data_reads (pos 1) e t x counted)
      ]

  charge_err :
      (scopes : List String) (e t : Enforcer) (x : Failure)
      → Exec.◌>>◌ (increment_limit py Counter.tool_calls (pos 1)) (read_scopes py scopes) e
        ≡ (err x, t)
      → AfterRefusal scopes e t
  unfolding Exec.◌>>=◌ read write
  charge_err scopes e t x h = elim (increment_cases py Counter.tool_calls (pos 1) e) [
    | inl (failure, g) ↦ inl (sym (ap (λ r. r.1) (rw g at h)))
    | inr (m, same_n, allowed, g) ↦
        (let one : m ≡ 1 = ground arith in
          let (required, same) = scopes_err scopes _ t x (rw g at h) in
          inr (required, same ∙ ap (λ k. record e { tool_calls = e.tool_calls + k }) one))
  ]

  or_later :
      {Q : Type 0} {scopes : List String} {e t : Enforcer}
      → (t ≡ e) ⊎ Q
      → (Q → AfterRefusal scopes e t)
      → AfterRefusal scopes e t
  or_later (inl same) k = inl same
  or_later (inr later) k = k later

  -- An invocation that raises leaves the enforcer as it was, but where a data scope is required: then
  -- the refusal may come after the tool call was charged, and that charge of one is all that changes.
  pub record_tool_invocation_refused :
      (now : ℕ) (tool_name : String) (scopes policies : List String) (risk : String)
      (e t : Enforcer) (x : Failure)
      → record_tool_invocation py now tool_name scopes policies risk e ≡ (err x, t)
      → (t ≡ e) ⊎ ((scopes ≢ []) × (t ≡ record e { tool_calls = e.tool_calls + 1 }))
  unfolding record_tool_invocation
  record_tool_invocation_refused now tool_name scopes policies risk e t x h =
      or_later (duration_err now _ e t x h) λ h1.
        or_later (reads_err (λ p. require_tool py p tool_name) _ e t x h1) λ h2.
          or_later (reads_err (λ p. require_tool_risk py p risk) _ e t x h2) λ h3.
            or_later (reads_err (λ p. for_each (require_policy py p) policies) _ e t x h3)
              λ h4. charge_err scopes e t x h4
