-- ===== src/Runtime/FlightRecorder/Once.antt =====
-- The events that a recorder leaves in the store: each index of a run is used at most once.
use skill_centric_agent_syst.Base.{ℕ, String, Bool, refl, Option, none, some, List, [], ◌∷◌, Json}
use skill_centric_agent_syst.Base.Exec
use skill_centric_agent_syst.Base.Exec.{Exec, continue, lift}
use skill_centric_agent_syst.Runtime.Artifacts.Writing.{write_json}
use skill_centric_agent_syst.Runtime.Store.Records.{Checkpoint}
use skill_centric_agent_syst.Runtime.Store.Events.{
  allocate_runtime_event_index, allocate_runtime_checkpoint_index, insert_runtime_checkpoint,
  append_checkpoint,
}
use skill_centric_agent_syst.Runtime.Store.Recording.{Trace}
use skill_centric_agent_syst.Runtime.FlightRecorder.Desk.{Desk, Recorder, Report, within}
use skill_centric_agent_syst.Runtime.FlightRecorder.Keeps.{
  Leads, then_leads, wrote_keeps, payload_keeps, check_keeps,
}
use skill_centric_agent_syst.Runtime.FlightRecorder.Events.{
  store_event, record_event, store_checkpoint, checkpoint, checkpoint_parts, checkpoint_report,
  checkpoint_key,
}

-- The calls of the store so far are a trace, with these indices handed out and not used.
abbrev pub Pends : List (String × ℕ) → Desk → Type 0
Pends pending d = Trace d.store pending

abbrev pub IsTraced : Desk → Type 0
IsTraced d = (pending : List (String × ℕ)) × Trace d.store pending

module _ (r : Recorder) where
  store_event-IsTraced :
      (run : String) (report : Report) (i : ℕ) (pending : List (String × ℕ))
      → Leads (Pends ((run, i) ∷ pending)) (store_event r run report i) IsTraced
  unfolding store_event
  store_event-IsTraced run report i pending =
      let P = Pends ((run, i) ∷ pending) in
      let wide : (x : Desk) → P x → IsTraced x = λ x t. ((run, i) ∷ pending, t) in
      let slot = payload_keeps r (λ s. Trace s ((run, i) ∷ pending)) run i report in
      then_leads P P IsTraced _ _ (slot "planned" report.planned_action) wide (λ planned.
        then_leads P P IsTraced _ _ (slot "execution" report.execution) wide (λ execution.
          then_leads P P IsTraced _ _ (slot "result" report.result) wide (λ result.
            then_leads P P IsTraced _ _ (λ d t. t) wide
              (λ created_at d t. (pending, Trace.recorded [] pending _ t)))))

  allocated_first :
      (run : String) (report : Report) (pending : List (String × ℕ))
      → Leads
          (Pends pending)
          (Exec.◌>>=◌ (within (allocate_runtime_event_index run)) (store_event r run report))
          IsTraced
  unfolding Exec.◌>>=◌
  allocated_first run report pending d t =
      store_event-IsTraced run report (allocate_runtime_event_index run d.store).0 pending _
        (Trace.allocated run t)

  -- However it ends, `record_event` is calls of the store that make a trace.
  pub record_event-IsTraced :
      (run : String) (report : Report) → Leads IsTraced (record_event r run report) IsTraced
  unfolding record_event
  record_event-IsTraced run report d (pending, t) =
      then_leads (Pends pending) (Pends pending) IsTraced _ _
        (check_keeps r (λ s. Trace s pending) report) (λ x u. (pending, u))
        (λ _. allocated_first run report pending) d t

  counted-Pends :
      (pending : List (String × ℕ)) (run : String)
      → Leads (Pends pending) (within (allocate_runtime_checkpoint_index run)) (Pends pending)
  unfolding allocate_runtime_checkpoint_index
  counted-Pends pending run d t = Trace.elsewhere _ refl refl t

  put_checkpoint-Pends :
      (pending : List (String × ℕ)) (c : Checkpoint) (d : Desk) (o : Option Checkpoint)
      → Pends pending d
      → Trace (append_checkpoint c d.store o).1 pending
  put_checkpoint-Pends pending c d none t = Trace.elsewhere _ refl refl t
  put_checkpoint-Pends pending c d (some old) t = t

  store_checkpoint-Pends :
      (pending : List (String × ℕ)) (run phase : String) (state : Json) (step_id : Option String)
      (tokens : ℕ) (redact : Bool) (i : ℕ)
      → Leads
          (Pends pending)
          (store_checkpoint r run phase state step_id tokens redact i)
          (Pends pending)
  unfolding store_checkpoint insert_runtime_checkpoint
  store_checkpoint-Pends pending run phase state step_id tokens redact i =
      let P = Pends pending in
      then_leads P P P _ _
        (λ d.
          wrote_keeps r (λ s. Trace s pending)
            (write_json r.artifacts (checkpoint_parts r run phase i) state redact d.files) d)
        (λ x u. u)
        (λ uri.
          then_leads P P P _ _ (λ d t. t) (λ x u. u)
            (λ created_at d t. put_checkpoint-Pends pending _ d _ t))

  -- The same of `checkpoint`, which records an event too.
  pub checkpoint-IsTraced :
      (run phase : String) (state : Json) (step_id : Option String) (tokens : ℕ) (redact : Bool)
      → Leads IsTraced (checkpoint r run phase state step_id tokens redact) IsTraced
  unfolding checkpoint
  checkpoint-IsTraced run phase state step_id tokens redact d (pending, t) =
      let P = Pends pending in
      let wide : (x : Desk) → P x → IsTraced x = λ x u. (pending, u) in
      then_leads P P IsTraced _ _ (λ x u. u) wide
        (λ _. then_leads P P IsTraced _ _ (counted-Pends pending run) wide (λ i.
          then_leads P P IsTraced _ _
            (store_checkpoint-Pends pending run phase state step_id tokens redact i) wide
            (λ stored. λ x u.
              then_leads IsTraced IsTraced IsTraced _ _
                (record_event-IsTraced run
                  (checkpoint_report r stored step_id phase (checkpoint_key r run i) redact))
                (λ y v. v) (λ event y v. v) x (pending, u))))
        d t
