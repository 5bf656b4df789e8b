-- ===== src/Runtime/Store/Events.antt =====
-- Steps, events and checkpoints of a run (runtime/storage_memory.py): insertions under a key that
-- is there already return the stored record, and each run counts its events and checkpoints.
use skill_centric_agent_syst.Base.{
  ℕ, suc, ◌+◌, String, ◌&&◌, Option, none, some, List, [], ◌∷◌, ◌++◌, ◌==◌, if◌then◌else◌, leb,
  nat_eq, keep, first_fit, get, insert, values,
}
use skill_centric_agent_syst.Runtime.Store.Records.{Step, Event, Checkpoint}
use skill_centric_agent_syst.Runtime.Store.{Store, has_text, update_record, put_back}

-- `max(indices, default=-1) + 1` of the records of one run
module _ {R : Type 0} (run_of : R → String) (index_of : R → ℕ) where
  unfoldable pub next_free : String → List R → ℕ
  next_free run [] = 0
  next_free run (r ∷ rs) =
      let rest = next_free run rs in
      if run_of r == run then (if leb rest (index_of r) then suc (index_of r) else rest) else rest

-- The index that was handed out last and one more, or the first that is free.
abbrev pub next_index : Option ℕ → ℕ → ℕ
next_index none free = free
next_index (some n) free = n

unfoldable pub allocate_runtime_event_index : String → Store → ℕ × Store
unfolding get next_free
allocate_runtime_event_index run_id s =
    let n = next_index (get run_id s.event_indices) (
      next_free (λ (e : Event). e.run_id) (λ (e : Event). e.event_index) run_id s.runtime_events) in
    (n, record s { event_indices = insert run_id (n + 1) s.event_indices })

unfoldable pub allocate_runtime_checkpoint_index : String → Store → ℕ × Store
unfolding get next_free
allocate_runtime_checkpoint_index run_id s =
    let n = next_index (get run_id s.checkpoint_indices) (
      next_free (λ (c : Checkpoint). c.run_id) (λ (c : Checkpoint). c.checkpoint_index) run_id
        s.runtime_checkpoints) in
    (n, record s { checkpoint_indices = insert run_id (n + 1) s.checkpoint_indices })

-- `_find_by_run_idempotency` of the events
unfoldable pub find_event : String → String → List Event → Option Event
unfolding first_fit
find_event run_id key events =
    first_fit (λ e. e.run_id == run_id && e.idempotency_key == key) events

abbrev pub append_event : Event → Store → Option Event → Event × Store
append_event e s (some existing) = (existing, s)
append_event e s none = (e, record s { runtime_events = s.runtime_events ++ (e ∷ []) })

unfoldable pub insert_runtime_event : Event → Store → Event × Store
unfolding find_event
insert_runtime_event e s = append_event e s (find_event e.run_id e.idempotency_key s.runtime_events)

-- `_find_by_run_index` of the checkpoints
unfoldable pub find_checkpoint : String → ℕ → List Checkpoint → Option Checkpoint
unfolding first_fit
find_checkpoint run_id index checkpoints =
    first_fit (λ c. c.run_id == run_id && nat_eq c.checkpoint_index index) checkpoints

abbrev pub append_checkpoint : Checkpoint → Store → Option Checkpoint → Checkpoint × Store
append_checkpoint c s (some existing) = (existing, s)
append_checkpoint c s none =
    (c, record s { runtime_checkpoints = s.runtime_checkpoints ++ (c ∷ []) })

unfoldable pub insert_runtime_checkpoint : Checkpoint → Store → Checkpoint × Store
unfolding find_checkpoint
insert_runtime_checkpoint c s =
    append_checkpoint c s (find_checkpoint c.run_id c.checkpoint_index s.runtime_checkpoints)

-- `_find_by_run_idempotency` of the steps, where the new step has a key
abbrev find_step : String → Option String → List Step → Option Step
find_step run_id none steps = none
find_step run_id (some key) steps =
    first_fit (λ t. t.run_id == run_id && has_text t.idempotency_key key) steps

abbrev pub put_step : Step → Store → Option Step → Step × Store
put_step t s (some existing) = (existing, s)
put_step t s none = (t, record s { runtime_steps = insert t.id t s.runtime_steps })

unfoldable pub insert_runtime_step : Step → Store → Step × Store
unfolding first_fit values
insert_runtime_step t s =
    put_step t s (find_step t.run_id t.idempotency_key (values s.runtime_steps))

unfoldable pub update_runtime_step : String → (Step → Step) → Store → Option (Step × Store)
unfolding update_record
update_runtime_step step_id f s =
    put_back (λ d. record s { runtime_steps = d }) (update_record step_id f s.runtime_steps)

unfoldable pub events_for_run : String → Store → List Event
unfolding keep
events_for_run run_id s = keep (λ e. e.run_id == run_id) s.runtime_events

unfoldable pub checkpoints_for_run : String → Store → List Checkpoint
unfolding keep
checkpoints_for_run run_id s = keep (λ c. c.run_id == run_id) s.runtime_checkpoints
