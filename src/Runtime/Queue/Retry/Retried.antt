-- ===== src/Runtime/Queue/Retry/Retried.antt =====
-- What a retry puts into the queue, and that it is put there once.
use Prim.Native.Char.{Char}
use skill_centric_agent_syst.Base.{String, ◌≡◌, Bool, true, Option, some, none, Fields}
use skill_centric_agent_syst.Base.Outcome.{ok, check, check_ok, some_or}
use skill_centric_agent_syst.Base.Exec
use skill_centric_agent_syst.Base.Exec.{Exec, lift_inv, bind_inv}
use skill_centric_agent_syst.Runtime.Models.{is_retryable}
use skill_centric_agent_syst.Runtime.Store.{get_runtime_queue_item}
use skill_centric_agent_syst.Runtime.Store.Records.{QueueItem}
use skill_centric_agent_syst.Runtime.Artifacts.Reading.{Reader}
use skill_centric_agent_syst.Runtime.Enforcement.Profile.{Containers}
use skill_centric_agent_syst.Runtime.FlightRecorder.Desk.{Desk, Recorder}
use skill_centric_agent_syst.Runtime.Queue.{Error}
use skill_centric_agent_syst.Runtime.Queue.Admission.{Admitted, enqueue-Admitted}
use skill_centric_agent_syst.Runtime.Queue.Loading.{load_task, load_composition_context}
use skill_centric_agent_syst.Runtime.Queue.Retry.{RetryOptions, retry_options, retry_item, retry}

module _ (r : Recorder) (reader : Reader) (py : Containers) (is_word : Char → Bool) where
  -- A retry that was made: the item that was stored, the task and the response that were read from
  -- the artifacts of that item, and how the task was let in.
  pub record Retried (queue_id : String) (o : RetryOptions) (d t : Desk) (new : QueueItem)
      : Type 0 where
    pub old : QueueItem
    pub task : Fields
    pub response : Option Fields
    pub stored : get_runtime_queue_item queue_id d.store ≡ some old
    pub retryable : is_retryable old.status ≡ true
    pub task_read : load_task r reader old d.files ≡ ok task
    pub response_read : load_composition_context r reader old d.files ≡ ok response
    pub admitted :
        Admitted r py is_word task (retry_options queue_id old o response) d.store new t.store

  found_inv : (m : Option QueueItem) (e : Error) (i : QueueItem) → some_or m e ≡ ok i → m ≡ some i
  found_inv none e i h = cc
  found_inv (some j) e i h = cc

  -- A retry that returns was of a stored item that failed, was cancelled or was dead-lettered; it let
  -- in the task of the artifact of that item, with the response of its other artifact, and the item
  -- that it returns is the one that the insertion under the key of the retry returns.
  pub retry-Retried :
      (queue_id : String) (o : RetryOptions) (d t : Desk) (new : QueueItem)
      → retry r reader py is_word queue_id o d ≡ (ok new, t)
      → Retried queue_id o d t new
  unfolding retry retry_item Exec.◌>>=◌
  retry-Retried queue_id o d t new h =
      let (old, found, h1) =
        lift_inv (some_or (get_runtime_queue_item queue_id d.store) _) _ d t new h in
      let (u, allowed, h2) = lift_inv (check (is_retryable old.status) _) _ d t new h1 in
      let (task, read, h3) = lift_inv (load_task r reader old d.files) _ d t new h2 in
      let (response, given, h4) =
        lift_inv (load_composition_context r reader old d.files) _ d t new h3 in
      record {
        old = old;
        task = task;
        response = response;
        stored = found_inv _ _ old found;
        retryable = check_ok _ _ allowed;
        task_read = read;
        response_read = given;
        admitted =
            enqueue-Admitted r py is_word task (retry_options queue_id old o response) d t new h4;
      }
