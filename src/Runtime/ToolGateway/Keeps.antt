-- ===== src/Runtime/ToolGateway/Keeps.antt =====
-- What the parts of runtime/tool_gateway.py leave as it is.
use skill_centric_agent_syst.Base.{
  ℕ, suc, String, ◌≡◌, refl, List, is_empty, Bool-cases, inl, inr, Fields,
}
use skill_centric_agent_syst.Base.Outcome.{Outcome, ok, err}
use skill_centric_agent_syst.Base.Exec.{Exec, bind-keeps}
use skill_centric_agent_syst.Runtime.Queue.{Error}
use skill_centric_agent_syst.Runtime.FlightRecorder.Desk.{Desk, Report}
use skill_centric_agent_syst.Runtime.Enforcement.Profile.{Failure, denied}
use skill_centric_agent_syst.Runtime.ToolGateway.Hook.{ToolInvocation, Finished, Findings}
use skill_centric_agent_syst.Runtime.ToolGateway.State.{Gate, Gateway, Begun, Ran, on_desk}
use skill_centric_agent_syst.Runtime.ToolGateway.{
  next_invocation, begin, insert_tool_invocation, store_run, conclude, evaluate_hook, finish,
}
use skill_centric_agent_syst.Runtime.ToolGateway.Denied.{event, record_denied_access, decide}

-- A view of the state that the desk and the count of invocations are no part of.
module _ {W B : Type 0} (c : Gateway W) (p : Gate W → B)
    (aside : (g : Gate W) (d : Desk) (n : ℕ)
      → p (record g { desk = d; invocation_index = n }) ≡ p g) where
  pub on_desk-keeps : {A : Type 0} (m : Exec Error Desk A) (g : Gate W) → p (on_desk m g).1 ≡ p g
  unfolding on_desk
  on_desk-keeps {A} m g = go (m g.desk)
    where
      go : (r : Outcome Error A × Desk) → p (on_desk (λ d. r) g).1 ≡ p g
      go (ok a, d) = aside g d g.invocation_index
      go (err e, d) = aside g d g.invocation_index

  event-keeps : (r : Report) (g : Gate W) → p (event c r g).1 ≡ p g
  event-keeps r g = on_desk-keeps _ g

  pub decide-keeps :
      (tool_name : String) (payload : Fields) (r : Outcome Failure (Unit {0})) (g : Gate W)
      → p (decide c tool_name payload r g).1 ≡ p g
  unfolding record_denied_access
  decide-keeps tool_name payload (ok u) g = refl
  decide-keeps tool_name payload (err (denied stop code)) g =
      bind-keeps p _ _ g (bind-keeps p _ _ g (on_desk-keeps _ g) (λ uri t. event-keeps _ t))
        (λ e t. refl)
  decide-keeps tool_name payload (err Failure.value_error) g = refl
  decide-keeps tool_name payload (err Failure.type_error) g = refl
  decide-keeps tool_name payload (err Failure.index_error) g = refl

  next-keeps : (tool_name : String) (g : Gate W) → p (next_invocation c tool_name g).1 ≡ p g
  unfolding next_invocation
  next-keeps tool_name g = aside g g.desk (suc g.invocation_index)

  pub begin-keeps :
      (tool_name : String) (payload : Fields) (g : Gate W) → p (begin c tool_name payload g).1 ≡ p g
  unfolding begin
  begin-keeps tool_name payload g = bind-keeps p _ _ g (next-keeps tool_name g) λ id t.
      bind-keeps p _ _ t (on_desk-keeps _ t) λ uri t1.
        bind-keeps p _ _ t1 (on_desk-keeps _ t1) λ at t2.
          bind-keeps p _ _ t2 (event-keeps _ t2)
            λ allowed t3. bind-keeps p _ _ t3 (event-keeps _ t3) λ started t4. refl

  conclude-keeps : (t : Finished) (f : Findings) (g : Gate W) → p (conclude c t f g).1 ≡ p g
  unfolding conclude
  conclude-keeps t f g = bind-keeps p _ _ g (event-keeps _ g) λ recorded x.
      elim (Bool-cases (is_empty f.violations)) [
        | inl passed ↦ rw passed refl
        | inr failed ↦ rw failed refl
      ]

  pub hook-keeps : (t : Finished) (g : Gate W) → p (evaluate_hook c t g).1 ≡ p g
  unfolding evaluate_hook
  hook-keeps t g = conclude-keeps t _ g

  -- The same where the stored invocations are no part of the view either.
  module _
      (unstored : (g : Gate W) (l : List ToolInvocation)
        → p (record g { tool_invocations = l }) ≡ p g) where
    store_run-keeps :
        (tool_name : String) (b : Begun) (r : Ran) (g : Gate W)
        → p (store_run c tool_name b r g).1 ≡ p g
    unfolding store_run insert_tool_invocation
    store_run-keeps tool_name b r g =
        bind-keeps p _ _ g (on_desk-keeps _ g)
          λ uri t. bind-keeps p _ _ t (on_desk-keeps _ t) λ at t1. unstored t1 _

    pub finish-keeps :
        (tool_name : String) (b : Begun) (r : Ran) (g : Gate W)
        → p (finish c tool_name b r g).1 ≡ p g
    unfolding finish
    finish-keeps tool_name b r g = bind-keeps p _ _ g (store_run-keeps tool_name b r g) λ i t.
        bind-keeps p _ _ t (event-keeps _ t)
          λ completed t1. bind-keeps p _ _ t1 (hook-keeps _ t1) λ u t2. refl
