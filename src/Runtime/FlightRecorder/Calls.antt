-- ===== src/Runtime/FlightRecorder/Calls.antt =====
-- Whatever is asked of a recorder, one call after the other.
use skill_centric_agent_syst.Base.{
  ℕ, ◌≤◌, String, Bool, ◌≡◌, refl, sym, subst, Dict, Option, none, some, List, [], ◌∷◌, tally, Json,
  Fields, arith,
}
use skill_centric_agent_syst.Runtime.Models.{RunStatus}
use skill_centric_agent_syst.Runtime.Store.{
  Store, empty, insert_runtime_run, update_runtime_run, update_record, put_back,
}
use skill_centric_agent_syst.Runtime.Store.Records.{Run, Step}
use skill_centric_agent_syst.Runtime.Store.Events.{
  insert_runtime_step, update_runtime_step, put_step,
}
use skill_centric_agent_syst.Runtime.Store.Recording.{Trace, is_at, recorded_once}
use skill_centric_agent_syst.Runtime.FlightRecorder.Desk.{Desk, Recorder, Report, settle}
use skill_centric_agent_syst.Runtime.FlightRecorder.Runs.{
  Origin, start_run, start_step, complete_step, complete_run,
}
use skill_centric_agent_syst.Runtime.FlightRecorder.Events.{record_event, checkpoint}
use skill_centric_agent_syst.Runtime.FlightRecorder.Keeps.{Leads, then_leads}
use skill_centric_agent_syst.Runtime.FlightRecorder.Once.{
  Pends, IsTraced, record_event-IsTraced, checkpoint-IsTraced,
}

-- A call of a recorder, with its arguments.
pub data Call : Type 0 where
  run_starts : String → Fields → Option String → RunStatus → Origin → Call
  step_starts : String → ℕ → String → Option ℕ → Option String → Call
  step_ends : String → RunStatus → Option String → ℕ → Call
  run_ends : String → RunStatus → String → ℕ → Call
  event : String → Report → Call
  checkpoint_made : String → String → Json → Option String → ℕ → Bool → Call

module _ (pending : List (String × ℕ)) where
  settled-Pends :
      {V : Type 0} (key : String) (put : Dict V → Store) (o : Option (V × Dict V)) (d : Desk)
      → ((x : Dict V) → Trace (put x) pending)
      → Pends pending d
      → Pends pending (settle key (put_back put o) d).1
  settled-Pends key put none d f t = t
  settled-Pends key put (some x) d f t = f x.1

  put_step-Pends :
      (new : Step) (s : Store) (o : Option Step)
      → Trace s pending
      → Trace (put_step new s o).1 pending
  put_step-Pends new s none t = Trace.elsewhere _ refl refl t
  put_step-Pends new s (some old) t = t

module _ (r : Recorder) where
  -- What a call leaves behind, whether it returns or raises.
  unfoldable pub perform : Call → Desk → Desk
  unfolding start_run start_step complete_step complete_run record_event checkpoint
  perform (run_starts task profile run status origin) d =
      (start_run r task profile run status origin d).1
  perform (step_starts run i kind budget key) d = (start_step r run i kind budget key d).1
  perform (step_ends step status reason tokens) d = (complete_step r step status reason tokens d).1
  perform (run_ends run status reason tokens) d = (complete_run r run status reason tokens d).1
  perform (event run report) d = (record_event r run report d).1
  perform (checkpoint_made run phase state step tokens redact) d =
      (checkpoint r run phase state step tokens redact d).1

  unfoldable pub perform_all : List Call → Desk → Desk
  unfolding perform
  perform_all [] d = d
  perform_all (c ∷ cs) d = perform_all cs (perform c d)

  start_run-Pends :
      (pending : List (String × ℕ)) (task : String) (profile : Fields) (run : Option String)
      (status : RunStatus) (origin : Origin)
      → Leads (Pends pending) (start_run r task profile run status origin) (Pends pending)
  unfolding start_run insert_runtime_run
  start_run-Pends pending task profile run status origin =
      let P = Pends pending in
      then_leads P P P _ _ (λ d t. t) (λ x t. t)
        (λ profile_id.
          then_leads P P P _ _ (λ d t. t) (λ x t. t)
            (λ profile_version.
              then_leads P P P _ _ (λ d t. t) (λ x t. t)
                (λ started_at d t. Trace.elsewhere _ refl refl t)))

  start_step-Pends :
      (pending : List (String × ℕ)) (run : String) (i : ℕ) (kind : String) (budget : Option ℕ)
      (key : Option String)
      → Leads (Pends pending) (start_step r run i kind budget key) (Pends pending)
  unfolding start_step insert_runtime_step
  start_step-Pends pending run i kind budget key =
      let P = Pends pending in
      then_leads P P P _ _ (λ d t. t) (λ x t. t)
        (λ _.
          then_leads P P P _ _ (λ d t. t) (λ x t. t)
            (λ started_at d t. put_step-Pends pending _ d.store _ t))

  complete_step-Pends :
      (pending : List (String × ℕ)) (step : String) (status : RunStatus) (reason : Option String)
      (tokens : ℕ)
      → Leads (Pends pending) (complete_step r step status reason tokens) (Pends pending)
  unfolding complete_step update_runtime_step
  complete_step-Pends pending step status reason tokens =
      let P = Pends pending in
      then_leads P P P _ _ (λ d t. t) (λ x t. t)
        (λ _.
          then_leads P P P _ _ (λ d t. t) (λ x t. t)
            (λ completed_at d t.
              settled-Pends pending step (λ steps. record (d.store) { runtime_steps = steps })
                (update_record step
                  (λ (x : Step). record x {
                    status = status;
                    completed_at = some completed_at;
                    stop_reason = reason;
                    tokens_used = tokens;
                  })
                  d.store.runtime_steps)
                d (λ steps. Trace.elsewhere _ refl refl t) t))

  complete_run-Pends :
      (pending : List (String × ℕ)) (run : String) (status : RunStatus) (reason : String)
      (tokens : ℕ)
      → Leads (Pends pending) (complete_run r run status reason tokens) (Pends pending)
  unfolding complete_run update_runtime_run
  complete_run-Pends pending run status reason tokens =
      let P = Pends pending in
      then_leads P P P _ _ (λ d t. t) (λ x t. t)
        (λ _.
          then_leads P P P _ _ (λ d t. t) (λ x t. t)
            (λ completed_at d t.
              settled-Pends pending run (λ runs. record (d.store) { runtime_runs = runs })
                (update_record run
                  (λ (x : Run). record x {
                    status = status;
                    completed_at = some completed_at;
                    tokens_used_total = tokens;
                    stop_reason = some reason;
                  })
                  d.store.runtime_runs)
                d (λ runs. Trace.elsewhere _ refl refl t) t))

  perform-IsTraced : (c : Call) (d : Desk) → IsTraced d → IsTraced (perform c d)
  unfolding perform
  perform-IsTraced (run_starts task profile run status origin) d (pending, t) =
      (pending, start_run-Pends pending task profile run status origin d t)
  perform-IsTraced (step_starts run i kind budget key) d (pending, t) =
      (pending, start_step-Pends pending run i kind budget key d t)
  perform-IsTraced (step_ends step status reason tokens) d (pending, t) =
      (pending, complete_step-Pends pending step status reason tokens d t)
  perform-IsTraced (run_ends run status reason tokens) d (pending, t) =
      (pending, complete_run-Pends pending run status reason tokens d t)
  perform-IsTraced (event run report) d t = record_event-IsTraced r run report d t
  perform-IsTraced (checkpoint_made run phase state step tokens redact) d t =
      checkpoint-IsTraced r run phase state step tokens redact d t

  perform_all-IsTraced : (cs : List Call) (d : Desk) → IsTraced d → IsTraced (perform_all cs d)
  unfolding perform_all
  perform_all-IsTraced [] d t = t
  perform_all-IsTraced (c ∷ cs) d t = perform_all-IsTraced cs (perform c d) (perform-IsTraced c d t)

  -- Whatever is asked of a recorder whose store is empty at first, one call after the other, and whether
  -- the calls return or raise: no two events in the store are of one run and have the same index.
  pub perform_all-once :
      (cs : List Call) (d : Desk) (run : String) (i : ℕ)
      → d.store ≡ empty
      → tally (is_at run i) (perform_all cs d).store.runtime_events ≤ 1
  perform_all-once cs d run i e =
      let (pending, t) =
        perform_all-IsTraced cs d ([], subst (λ s. Trace s []) (sym e) Trace.start) in
      omega (arith, recorded_once (perform_all cs d).store pending run i t)
