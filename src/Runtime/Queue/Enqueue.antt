-- ===== src/Runtime/Queue/Enqueue.antt =====
-- runtime/queue.py: `RuntimeQueueManager.enqueue`. The task is analyzed, its payload is written as an
-- artifact, and the item is inserted. The state is that of a flight recorder: store, files and clock.
use Prim.Native.Char.{Char}
use skill_centric_agent_syst.Base.{
  ℕ, String, Bool, true, false, not, ◌&&◌, Option, none, some, List, [], ◌∷◌, if◌then◌else◌, ◌==◌,
  ltb, member, join, Dict, get, count_values, ℤ, Json, null, obj, Fields, find,
}
use skill_centric_agent_syst.Base.Outcome.{Outcome, ok, err, check}
use skill_centric_agent_syst.Base.Exec.{Exec, ◌>>=◌, ◌>>◌, lift, pure}
use skill_centric_agent_syst.Runtime.Models.{QueueStatus, is_waiting}
use skill_centric_agent_syst.Runtime.Models.Slug.{slug_id}
use skill_centric_agent_syst.Runtime.Store.{Store, insert_runtime_queue_item}
use skill_centric_agent_syst.Runtime.Store.Records.{QueueItem}
use skill_centric_agent_syst.Runtime.Queue.{Error, queue_error}
use skill_centric_agent_syst.Runtime.TenantStatus.{assert_runtime_tenant_is_startable}
use skill_centric_agent_syst.Runtime.Artifacts.Writing.{write_json}
use skill_centric_agent_syst.Runtime.Enforcement.Profile.{Containers, Failure}
use skill_centric_agent_syst.Runtime.FlightRecorder.Desk.{
  Desk, Recorder, within, reading, write, or_else,
}
use skill_centric_agent_syst.Composition.TaskAnalyzer.{analyze}
use skill_centric_agent_syst.Composition.TaskAnalyzer.Types.{AnalyzedTask}

-- The keyword arguments.
pub record Options : Type 0 where
  pub composition_context_response : Option Fields
  pub priority : ℤ
  pub scheduled_at : Option String
  pub max_attempts : ℕ
  pub idempotency_key : Option String
  pub environment : String
  pub queue_name : String
  pub tenant_queued_limits : Dict ℕ
  pub disabled_tenant_ids : List String

-- The exception of an analysis; its message is left out.
abbrev as_error : Failure → Error
as_error Failure.index_error = record {
  class_name = "IndexError";
  message = "";
  stop_reason = none;
}
as_error Failure.value_error = record {
  class_name = "ValueError";
  message = "";
  stop_reason = none;
}
as_error f = record { class_name = "TypeError"; message = ""; stop_reason = none }

abbrev pub analysis_or_error : Outcome Failure AnalyzedTask → Outcome Error AnalyzedTask
analysis_or_error (ok a) = ok a
analysis_or_error (err f) = err (as_error f)

-- `_tenant_queued_count`
unfoldable pub tenant_queued_count : String → Store → ℕ
unfolding count_values
tenant_queued_count tenant_id s =
    count_values (λ item. item.tenant_id == tenant_id && is_waiting item.status)
      s.runtime_queue_items

-- The tenant has no limit, or fewer waiting items.
abbrev pub has_room : Option ℕ → ℕ → Bool
has_room none n = true
has_room (some limit) n = ltb n limit

abbrev pub is_null : Json → Bool
is_null null = true
is_null v = false

-- The item that `enqueue` inserts.
abbrev pub new_item :
    AnalyzedTask → Options → String → String → String → String → Option String → QueueItem
new_item a o queue_id key now task_uri context_uri = record {
  id = queue_id;
  task_id = a.task_id;
  tenant_id = a.auth_claims.tenant_id;
  area_id = a.auth_claims.area_id;
  environment = o.environment;
  queue_name = o.queue_name;
  status = QueueStatus.queued;
  priority = o.priority;
  scheduled_at = or_else o.scheduled_at now;
  attempts = 0;
  max_attempts = o.max_attempts;
  claimed_by = none;
  claimed_at = none;
  claimed_until = none;
  lease_expires_at = none;
  heartbeat_at = none;
  attempt_id = none;
  task_payload_uri = task_uri;
  composition_context_uri = context_uri;
  run_id = none;
  last_error = none;
  idempotency_key = some key;
  created_at = now;
  updated_at = now;
}

module _ (r : Recorder) (py : Containers) (is_word : Char → Bool) where
  -- The check of the tenant, where the response has an authority.
  abbrev pub check_startable : Fields → Option Fields → Outcome Error (Unit {0})
  check_startable task none = ok tt
  check_startable task (some response) =
      if is_null (find "tenant_authority" response)
      then ok tt
      else assert_runtime_tenant_is_startable r.builtins task response

  abbrev pub check_room : AnalyzedTask → Options → Exec Error Desk (Unit {0})
  check_room a o d = (
    check
        (has_room (get a.auth_claims.tenant_id o.tenant_queued_limits)
          (tenant_queued_count a.auth_claims.tenant_id d.store))
        (queue_error "Tenant queued backlog limit exceeded."),
    d,
  )

  -- What is checked of an analyzed task.
  unfoldable pub check_task : Fields → Options → AnalyzedTask → Exec Error Desk (Unit {0})
  unfolding tenant_queued_count assert_runtime_tenant_is_startable
  check_task task o a = do
    lift (
        check (not (a.auth_claims.tenant_id == "global"))
          (queue_error "Runtime queue items require an explicit tenant_id."))
    lift (
        check (not (member a.auth_claims.tenant_id o.disabled_tenant_ids))
          (queue_error "Disabled or archived tenants cannot enqueue runtime work."))
    lift (check_startable task o.composition_context_response)
    check_room a o

  abbrev pub write_context : String → Option Fields → Exec Error Desk (Option String)
  write_context queue_id none = pure none
  write_context queue_id (some response) =
      write r ("queue" ∷ queue_id ∷ "composition-context-response" ∷ []) (obj response) false
      >>= λ uri. pure (some uri)

  abbrev pub key_of : AnalyzedTask → Options → String
  key_of a o = or_else o.idempotency_key (join a.task_id ":initial")

  -- The part of `enqueue` after its checks.
  unfoldable pub store_task : Fields → Options → AnalyzedTask → Exec Error Desk QueueItem
  unfolding write_json slug_id insert_runtime_queue_item
  store_task task o a = do
    now ← reading r
    let queue_id = slug_id r.artifacts.casefold "queue" (key_of a o)
    task_uri ← write r ("queue" ∷ queue_id ∷ "task-payload" ∷ []) (obj task) false
    context_uri ← write_context queue_id o.composition_context_response
    within (insert_runtime_queue_item (new_item a o queue_id (key_of a o) now task_uri context_uri))

  -- `enqueue`
  unfoldable pub enqueue : Fields → Options → Exec Error Desk QueueItem
  unfolding analyze check_task store_task
  enqueue task o = do
    a ← lift (analysis_or_error (analyze py r.artifacts.casefold is_word task))
    check_task task o a
    store_task task o a
