-- ===== src/Runtime/ToolGateway/Returned.antt =====
-- What a call of runtime/tool_gateway.py that returns has done.
use skill_centric_agent_syst.Base.{
  ℕ, String, ◌≡◌, refl, sym, ap, ◌∙◌, subst, Option, none, some, List, [], ◌∷◌, ◌++◌, get, Fields,
}
use skill_centric_agent_syst.Base.Outcome.{Outcome, ok, err}
use skill_centric_agent_syst.Base.Exec.{bind_inv}
use skill_centric_agent_syst.Runtime.Queue.{Error}
use skill_centric_agent_syst.Runtime.FlightRecorder.Desk.{Desk}
use skill_centric_agent_syst.Runtime.Enforcement.Access.{charged}
use skill_centric_agent_syst.Runtime.ToolGateway.Policies.{tool_required_data_scopes}
use skill_centric_agent_syst.Runtime.ToolGateway.Hook.{ToolInvocation}
use skill_centric_agent_syst.Runtime.ToolGateway.State.{
  GateError, Adapter, Gate, Gateway, Begun, Ran, ran_of, ToolInvocationResult,
}
use skill_centric_agent_syst.Runtime.ToolGateway.{
  begin, run, store_run, insert_tool_invocation, finish, invoke, result_of, returned,
}
use skill_centric_agent_syst.Runtime.ToolGateway.Denied.{authorize}
use skill_centric_agent_syst.Runtime.ToolGateway.Keeps.{
  on_desk-keeps, begin-keeps, finish-keeps, hook-keeps,
}
use skill_centric_agent_syst.Runtime.ToolGateway.Once.{Permitted, authorize_ok, registered}

module _ {W : Type 0} (c : Gateway W) (now : ℕ) (tool_name : String) (payload : Fields) where
  abbrev stored : Gate W → List ToolInvocation
  stored g = g.tool_invocations

  -- The invocation that a run leaves in the store.
  abbrev Recorded : Begun → Ran → Gate W → Gate W → ToolInvocation → Type 0
  Recorded b r g t i =
      (stored t ≡ stored g ++ (i ∷ []))
      × (i.id ≡ b.invocation_id)
      × (i.status ≡ r.status)
      × (i.run_id ≡ c.run_id)
      × (i.tool_name ≡ tool_name)

  both :
      {A : Type 0} (a b : A) (x y : Gate W)
      → ◌≡◌ {A = Outcome GateError A × Gate W} (ok a, x) (ok b, y)
      → (a ≡ b) × (x ≡ y)
  both a b x y h = (cc, ap (λ z. z.1) h)

  parts :
      {A : Type 0} (o : Outcome GateError A) (a : A) (x y : Gate W)
      → ◌≡◌ {A = Outcome GateError A × Gate W} (o, x) (ok a, y)
      → (o ≡ ok a) × (x ≡ y)
  parts o a x y h = (ap (λ z. z.0) h, ap (λ z. z.1) h)

  store_run_ok :
      (b : Begun) (r : Ran) (g t : Gate W) (i : ToolInvocation)
      → store_run c tool_name b r g ≡ (ok i, t)
      → Recorded b r g t i
  unfolding store_run insert_tool_invocation
  store_run_ok b r g t i h =
      let (uri, (x, wrote, h1)) = bind_inv _ _ g t i h in
      let (at, (y, read, h2)) = bind_inv _ _ x t i h1 in
      let kept_x : stored x ≡ stored g =
        ap (λ z. stored z.1) (sym wrote) ∙ on_desk-keeps c stored (λ s d n. refl) _ g in
      let kept_y : stored y ≡ stored g =
        ap (λ z. stored z.1) (sym read) ∙ (on_desk-keeps c stored (λ s d n. refl) _ x ∙ kept_x) in
      let (same_i, same_t) = both _ i _ t h2 in
      (
        sym (ap stored same_t) ∙ ap2 kept_y same_i,
        ap (λ j. j.id) (sym same_i),
        ap (λ j. j.status) (sym same_i),
        ap (λ j. j.run_id) (sym same_i),
        ap (λ j. j.tool_name) (sym same_i),
      )
    where
      ap2 :
          {l m : List ToolInvocation} {x y : ToolInvocation}
          → l ≡ m
          → x ≡ y
          → l ++ (x ∷ []) ≡ m ++ (y ∷ [])
      ap2 p q = cc

  returned_inv :
      (i : ToolInvocation) (r : Ran) (o : Option String) (result : ToolInvocationResult)
      → returned c tool_name i r o ≡ ok result
      → (o ≡ none) × (result ≡ result_of c tool_name i r)
  returned_inv i r none result h = (refl, cc)
  returned_inv i r (some stop) result h = cc

  finish_ok :
      (b : Begun) (r : Ran) (g t : Gate W) (result : ToolInvocationResult)
      → finish c tool_name b r g ≡ (ok result, t)
      → (i : ToolInvocation) × Recorded b r g t i
        × (r.stop_reason ≡ none)
        × (result ≡ result_of c tool_name i r)
  unfolding finish
  finish_ok b r g t result h =
      let (i, (x, stored_i, h1)) = bind_inv _ _ g t result h in
      let (completed, (y, logged, h2)) = bind_inv _ _ x t result h1 in
      let (u, (z, checked, h3)) = bind_inv _ _ y t result h2 in
      let (kept, id, status, run, tool) = store_run_ok b r g x i stored_i in
      let (said, same_t) = parts (returned c tool_name i r r.stop_reason) result z t h3 in
      let (no_stop, same) = returned_inv i r r.stop_reason result said in
      let kept_y : stored y ≡ stored x =
        ap (λ s. stored s.1) (sym logged) ∙ on_desk-keeps c stored (λ s d n. refl) _ x in
      let kept_z : stored z ≡ stored y =
        ap (λ s. stored s.1) (sym checked) ∙ hook-keeps c stored (λ s d n. refl) _ y in
      (
        i,
        (sym (ap stored same_t) ∙ (kept_z ∙ (kept_y ∙ kept)), id, status, run, tool),
        no_stop,
        same,
      )

  ran_inv : (q : Outcome Error Fields) → (ran_of q).stop_reason ≡ none → q ≡ ok (ran_of q).output
  ran_inv (ok output) h = refl
  ran_inv (err e) h = cc

  -- A call that returned.
  pub record Succeeded (g t : Gate W) (result : ToolInvocationResult) : Type 0 where
    pub permitted : Permitted c now tool_name payload g.enforcer
    pub spent : t.enforcer ≡ charged (tool_required_data_scopes tool_name) g.enforcer
    pub adapter : Adapter W
    pub is_registered : get tool_name c.adapters ≡ some adapter
    pub output_given : adapter payload g.world ≡ (ok result.output, t.world)
    pub invocation : ToolInvocation
    pub is_recorded : t.tool_invocations ≡ g.tool_invocations ++ (invocation ∷ [])
    pub same_id : result.id ≡ invocation.id
    pub of_run : invocation.run_id ≡ c.run_id
    pub of_tool : invocation.tool_name ≡ tool_name
    pub succeeded : invocation.status ≡ "succeeded"

  begun_keeps :
      {B : Type 0} (p : Gate W → B)
      → ((g : Gate W) (d : Desk) (n : ℕ) → p (record g { desk = d; invocation_index = n }) ≡ p g)
      → (g t : Gate W) (b : Begun) → begin c tool_name payload g ≡ (ok b, t)
      → p t ≡ p g
  begun_keeps p aside g t b h = ap (λ z. p z.1) (sym h) ∙ begin-keeps c p aside tool_name payload g

  finished_keeps :
      {B : Type 0} (p : Gate W → B)
      → ((g : Gate W) (d : Desk) (n : ℕ) → p (record g { desk = d; invocation_index = n }) ≡ p g)
      → ((g : Gate W) (l : List ToolInvocation) → p (record g { tool_invocations = l }) ≡ p g)
      → (b : Begun) (r : Ran) (g t : Gate W) (result : ToolInvocationResult)
      → finish c tool_name b r g ≡ (ok result, t)
      → p t ≡ p g
  finished_keeps p aside unstored b r g t result h =
      ap (λ z. p z.1) (sym h) ∙ finish-keeps c p aside unstored tool_name b r g

  -- A call that returns was permitted by the profile and spent what the tool requires; its output is
  -- what the adapter of the tool returned on the payload; and one invocation that succeeded, of this
  -- run and tool and with the id that is returned, was added to those that are stored.
  pub invoke-Succeeded :
      (g t : Gate W) (result : ToolInvocationResult)
      → invoke c now tool_name payload g ≡ (ok result, t)
      → Succeeded g t result
  unfolding invoke run
  invoke-Succeeded g t result h =
      let (u, (x, passed, h1)) = bind_inv (authorize c now tool_name payload) _ g t result h in
      let (adapter, (x', found, h2)) = bind_inv _ _ x t result h1 in
      let (b, (y, begun, h3)) = bind_inv (begin c tool_name payload) _ x' t result h2 in
      let (r, (z, ran, h4)) = bind_inv (run c adapter payload) _ y t result h3 in
      let (permitted, same_x) = authorize_ok c now tool_name payload g x passed in
      let (known, same_x') = registered c now tool_name payload _ adapter x' x found in
      let (is_r, is_z) = both _ r _ z ran in
      let (i, (kept, id, status, of_run, of_tool), no_stop, same) = finish_ok b r z t result h4 in
      let world_y : y.world ≡ g.world =
        begun_keeps (λ s. s.world) (λ s d n. refl) x' y b begun
        ∙ ap (λ s. s.world) (same_x' ∙ same_x) in
      let stored_z : stored z ≡ stored g =
        sym (ap stored is_z)
        ∙ (begun_keeps stored (λ s d n. refl) x' y b begun ∙ ap stored (same_x' ∙ same_x)) in
      let enforcer_z : z.enforcer ≡ charged (tool_required_data_scopes tool_name) g.enforcer =
        sym (ap (λ s. s.enforcer) is_z)
        ∙ (begun_keeps (λ s. s.enforcer) (λ s d n. refl) x' y b begun
            ∙ ap (λ s. s.enforcer) (same_x' ∙ same_x)) in
      let q : Outcome Error Fields × W = adapter payload y.world in
      let said : q.0 ≡ ok (ran_of q.0).output =
        ran_inv q.0 (ap (λ s. s.stop_reason) is_r ∙ no_stop) in
      let outputs : result.output ≡ (ran_of q.0).output =
        ap (λ s. s.output) same ∙ ap (λ s. s.output) (sym is_r) in
      let left : t.world ≡ q.1 =
        finished_keeps (λ s. s.world) (λ s d n. refl) (λ s l. refl) b r z t result h4
        ∙ ap (λ s. s.world) (sym is_z) in
      record {
        permitted = permitted;
        spent =
            finished_keeps (λ s. s.enforcer) (λ s d n. refl) (λ s l. refl) b r z t result h4
            ∙ enforcer_z;
        adapter = adapter;
        is_registered = known;
        output_given =
            ap (adapter payload) (sym world_y) ∙ pair q (said ∙ ap ok (sym outputs)) (sym left);
        invocation = i;
        is_recorded = subst (λ l. stored t ≡ l ++ (i ∷ [])) stored_z kept;
        same_id = ap (λ s. s.id) same;
        of_run = of_run;
        of_tool = of_tool;
        succeeded = status ∙ status_of r q.0 is_r no_stop;
      }
    where
      pair :
          (p : Outcome Error Fields × W) {o : Outcome Error Fields} {w : W}
          → p.0 ≡ o
          → p.1 ≡ w
          → p ≡ (o, w)
      pair p e k i = (e i, k i)

      status_of :
          (r : Ran) (q : Outcome Error Fields)
          → ran_of q ≡ r
          → r.stop_reason ≡ none
          → r.status ≡ "succeeded"
      status_of r (ok output) e n = ap (λ s. s.status) (sym e)
      status_of r (err e') e n = cc (ap (λ s. s.stop_reason) e)
