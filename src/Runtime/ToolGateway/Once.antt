-- ===== src/Runtime/ToolGateway/Once.antt =====
-- What runtime/tool_gateway.py does to the world, and what it returns.
use skill_centric_agent_syst.Base.{
  ℕ, String, ◌≡◌, refl, sym, ap, ◌∙◌, subst, Option, none, some, get, ◌⊎◌, inl, inr, Fields,
}
use skill_centric_agent_syst.Base.Outcome.{Outcome, ok, err, some_or}
use skill_centric_agent_syst.Base.Exec
use skill_centric_agent_syst.Base.Exec.{Exec, ◌>>=◌, lift, bind_cases, bind_inv, lift_inv}
use skill_centric_agent_syst.Runtime.Enforcement.Profile.{Failure, denied}
use skill_centric_agent_syst.Runtime.Enforcement.Enforcer.{Enforcer, record_tool_invocation}
use skill_centric_agent_syst.Runtime.Enforcement.Access.{
  Granted, charged, record_tool_invocation_sound,
}
use skill_centric_agent_syst.Runtime.ToolGateway.Policies.{
  tool_required_data_scopes, tool_required_policies, tool_risk_level,
}
use skill_centric_agent_syst.Runtime.ToolGateway.State.{
  GateError, Adapter, Gate, Gateway, Begun, ToolInvocationResult,
}
use skill_centric_agent_syst.Runtime.ToolGateway.{begin, run, finish, invoke, adapter_missing}
use skill_centric_agent_syst.Runtime.ToolGateway.Denied.{decide, authorize}
use skill_centric_agent_syst.Runtime.ToolGateway.Keeps.{decide-keeps, begin-keeps, finish-keeps}

module _ {W : Type 0} (c : Gateway W) (now : ℕ) (tool_name : String) (payload : Fields) where
  -- What the profile of an enforcer says of the tool.
  abbrev pub Permitted : Enforcer → Type 0
  Permitted e =
      Granted c.containers now tool_name (tool_required_data_scopes tool_name)
        (tool_required_policies tool_name) (tool_risk_level tool_name) e

  abbrev said : Enforcer → Outcome Failure (Unit {0}) × Enforcer
  said e =
      record_tool_invocation c.containers now tool_name (tool_required_data_scopes tool_name)
        (tool_required_policies tool_name) (tool_risk_level tool_name) e

  abbrev pub paid : Gate W → Gate W
  paid g = record g { enforcer = charged (tool_required_data_scopes tool_name) g.enforcer }

  decide_ok :
      (r : Outcome Failure (Unit {0})) (g t : Gate W)
      → decide c tool_name payload r g ≡ (ok tt, t)
      → (r ≡ ok tt) × (t ≡ g)
  decide_ok (ok u) g t h = (refl, sym (ap (λ z. z.1) h))
  decide_ok (err (denied stop code)) g t h =
      let (e, (x, first, second)) = bind_inv _ _ g t tt h in cc
  decide_ok (err Failure.value_error) g t h = cc
  decide_ok (err Failure.type_error) g t h = cc
  decide_ok (err Failure.index_error) g t h = cc

  pub authorize_ok :
      (g t : Gate W)
      → authorize c now tool_name payload g ≡ (ok tt, t)
      → Permitted g.enforcer × (t ≡ paid g)
  unfolding authorize
  authorize_ok g t h =
      let (granted, same) = decide_ok (said g.enforcer).0 _ t h in
      let pair : said g.enforcer ≡ (ok tt, (said g.enforcer).1) =
        ap (λ r. (r, (said g.enforcer).1)) granted in
      let (permitted, left) =
        record_tool_invocation_sound c.containers now tool_name _ _ _ g.enforcer _ pair in
      (permitted, same ∙ ap (λ e. record g { enforcer = e }) left)

  authorize_world : (g : Gate W) → (authorize c now tool_name payload g).1.world ≡ g.world
  unfolding authorize
  authorize_world g =
      decide-keeps c (λ x. x.world) (λ x d n. refl) tool_name payload (said g.enforcer).0
        (record g { enforcer = (said g.enforcer).1 })

  -- The world after one call of the adapter that is registered for the tool.
  abbrev pub Called : W → W → Type 0
  Called w w' =
      (adapter : Adapter W) × (get tool_name c.adapters ≡ some adapter)
      × (w' ≡ (adapter payload w).1)

  call_world :
      (adapter : Adapter W) (b : Begun) (g t : Gate W)
      (out : Outcome GateError ToolInvocationResult)
      → (run c adapter payload >>= finish c tool_name b) g ≡ (out, t)
      → t.world ≡ (adapter payload g.world).1
  unfolding run Exec.◌>>=◌
  call_world adapter b g t out h =
      ap (λ z. z.1.world) (sym h)
      ∙ finish-keeps c (λ x. x.world) (λ x d n. refl) (λ x l. refl) tool_name b _ _

  pub registered :
      (o : Option (Adapter W)) (a : Adapter W) (x s : Gate W)
      → lift (some_or o (adapter_missing c tool_name)) s ≡ (ok a, x)
      → (o ≡ some a) × (x ≡ s)
  registered none a x s k = cc
  registered (some b) a x s k = (cc, sym (ap (λ z. z.1) k))

  after_world :
      (g t : Gate W) (out : Outcome GateError ToolInvocationResult)
      → (lift (some_or (get tool_name c.adapters) (adapter_missing c tool_name)) >>= λ adapter.
            begin c tool_name payload >>= λ b. run c adapter payload >>= finish c tool_name b)
          g
        ≡ (out, t)
      → (t.world ≡ g.world) ⊎ Called g.world t.world
  after_world g t out h = elim (bind_cases _ _ g t out h) [
    | inl (e, missed, failed) ↦ inl (ap (λ z. z.1.world) (sym missed))
    | inr (adapter, (x, found, h1)) ↦
        (let known = (registered (get tool_name c.adapters) adapter x g found).0 in
          let here : x.world ≡ g.world = ap (λ z. z.1.world) (sym found) in
          elim (bind_cases _ _ x t out h1) [
            | inl (e, stopped, failed) ↦ inl (ap (λ z. z.1.world) (sym stopped) ∙ begun x ∙ here)
            | inr (b, (y, started, h2)) ↦
                (let there : y.world ≡ g.world =
                    ap (λ z. z.1.world) (sym started) ∙ begun x ∙ here in
                  inr (
                    adapter,
                    known,
                    call_world adapter b y t out h2 ∙ ap (λ w. (adapter payload w).1) there,
                  ))
          ])
  ]
    where
      begun : (x : Gate W) → (begin c tool_name payload x).1.world ≡ x.world
      begun x = begin-keeps c (λ y. y.world) (λ y d n. refl) tool_name payload x

  -- Whatever `invoke` returns or raises: the world is as it was, or the profile of the enforcer
  -- permitted the tool, by its listed policies, scopes and risk, and the world is what one call of the
  -- adapter of that tool on the payload leaves.
  pub invoke_once :
      (g t : Gate W) (out : Outcome GateError ToolInvocationResult)
      → invoke c now tool_name payload g ≡ (out, t)
      → (t.world ≡ g.world) ⊎ (Permitted g.enforcer × Called g.world t.world)
  unfolding invoke
  invoke_once g t out h = elim (bind_cases (authorize c now tool_name payload) _ g t out h) [
    | inl (e, stopped, failed) ↦ inl (ap (λ z. z.1.world) (sym stopped) ∙ authorize_world g)
    | inr (u, (x, passed, h1)) ↦
        (let (permitted, same) = authorize_ok g x passed in
          let here : x.world ≡ g.world = ap (λ y. y.world) same in
          elim (after_world x t out h1) [
            | inl still ↦ inl (still ∙ here)
            | inr called ↦ inr (permitted, subst (λ w. Called w t.world) here called)
          ])
  ]
