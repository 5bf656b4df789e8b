-- ===== src/Examples/Enqueue.antt =====
-- A task that is put into the queue twice under one key and retried, and the authority of its tenant.
use skill_centric_agent_syst.Base.{
  ◌≡◌, refl, none, some, [], ◌∷◌, pos, Json, str, obj, Fields, field, end, member, get, join,
  join_with, insert,
}
use skill_centric_agent_syst.Base.Outcome.{ok}
use skill_centric_agent_syst.Base.Exec
use skill_centric_agent_syst.Runtime.Models.{QueueStatus}
use skill_centric_agent_syst.Runtime.Store.Records.{QueueItem}
use skill_centric_agent_syst.Runtime.Queue.Enqueue.{Options, enqueue}
use skill_centric_agent_syst.Runtime.Queue.Admission.{Admitted, enqueue-Admitted}
use skill_centric_agent_syst.Runtime.Queue.Retry.{RetryOptions, retry}
use skill_centric_agent_syst.Runtime.Queue.Retry.Retried.{Retried, retry-Retried}
use skill_centric_agent_syst.Runtime.Artifacts.Reading.{Reader}
use skill_centric_agent_syst.Runtime.TenantStatus.{assert_runtime_tenant_is_startable}
use skill_centric_agent_syst.Runtime.TenantStatus.Authority.{MayStart, startable-MayStart}
use skill_centric_agent_syst.Composition.TaskAnalyzer.Types.{is_plain}
use skill_centric_agent_syst.Composition.TaskAnalyzer.Claims.{auth_claims_of}
use skill_centric_agent_syst.Composition.TaskAnalyzer.Intake.{task_id_of}
use skill_centric_agent_syst.Runtime.Models.Slug.{slug_id, decimal}
use skill_centric_agent_syst.Runtime.Artifacts.Writing.{relative_path, json_parts, write_json}
use skill_centric_agent_syst.Runtime.Artifacts.Chunks.{length}
use skill_centric_agent_syst.Runtime.FlightRecorder.Desk.{Desk}
use skill_centric_agent_syst.Examples.Runs.{plain}
use skill_centric_agent_syst.Examples.Recorder.{recorder, desk}

abbrev auth : Fields
auth = field "tenant_id" (str "acme") (field "area_id" (str "sales") end)

abbrev task : Fields
task =
    field "id" (str "task-docs") (
      field "request" (str "update docs") (field "context" (obj (field "auth" (obj auth) end)) end))

abbrev authority : Fields
authority =
    field "tenant_id" (str "acme")
      (field "area_id" (str "sales") (field "status" (str "active") end))

abbrev response : Fields
response = field "tenant_authority" (obj authority) end

abbrev options : Options
options = record {
  composition_context_response = some response;
  priority = pos 0;
  scheduled_at = none;
  max_attempts = 3;
  idempotency_key = some "k1";
  environment = "dev";
  queue_name = "default";
  tenant_queued_limits = ("acme", 1) ∷ [];
  disabled_tenant_ids = [];
}

startable : assert_runtime_tenant_is_startable plain.builtins task response ≡ ok tt
unfolding assert_runtime_tenant_is_startable member
startable = refl

startable-MayStart_example : MayStart plain.builtins task response
startable-MayStart_example = startable-MayStart plain.builtins task response startable

abbrev item : QueueItem
item = record {
  id = "queue-k1";
  task_id = "task-docs";
  tenant_id = "acme";
  area_id = "sales";
  environment = "dev";
  queue_name = "default";
  status = QueueStatus.queued;
  priority = pos 0;
  scheduled_at = "2026-01-01T10:00:00Z";
  attempts = 0;
  max_attempts = 3;
  claimed_by = none;
  claimed_at = none;
  claimed_until = none;
  lease_expires_at = none;
  heartbeat_at = none;
  attempt_id = none;
  task_payload_uri = "hetzner://runtime/queue/queue-k1/task-payload.json";
  composition_context_uri =
      some "hetzner://runtime/queue/queue-k1/composition-context-response.json";
  run_id = none;
  last_error = none;
  idempotency_key = some "k1";
  created_at = "2026-01-01T10:00:00Z";
  updated_at = "2026-01-01T10:00:00Z";
}

abbrev after : Desk
after = (enqueue recorder plain is_plain task options desk).1

enqueued : enqueue recorder plain is_plain task options desk ≡ (ok item, after)
unfolding enqueue Exec.◌>>=◌ auth_claims_of task_id_of get length member slug_id relative_path
    json_parts write_json join join_with
enqueued = refl

enqueue-Admitted_example : Admitted recorder plain is_plain task options desk.store item after.store
enqueue-Admitted_example =
    enqueue-Admitted recorder plain is_plain task options desk after item enqueued

abbrev unlimited : Options
unlimited = record options { tenant_queued_limits = []; priority = pos 9 }

-- The item has been claimed since, and another one was added.
abbrev claimed : QueueItem
claimed = record item { status = QueueStatus.claiming; claimed_by = some "w1"; attempts = 1 }

abbrev other : QueueItem
other = record item { id = "queue-k2"; idempotency_key = some "k2" }

abbrev changed : Desk
changed = record after {
  store = record after.store {
    runtime_queue_items = ("queue-k1", claimed) ∷ ("queue-k2", other) ∷ [];
  };
}

abbrev later : Desk
later = (enqueue recorder plain is_plain task unlimited changed).1

abbrev reader : Reader
reader = record { below_root = λ s. some s; loads = λ bytes. ok Json.null }

-- The item has failed.
abbrev failed : Desk
failed = record after {
  store = record after.store {
    runtime_queue_items = ("queue-k1", record item { status = QueueStatus.failed }) ∷ [];
  };
}

abbrev once_more : RetryOptions
once_more = record { scheduled_at = none; idempotency_key = none; max_attempts = none }

abbrev new_item : QueueItem
new_item = record item {
  id = "queue-k1-manual-retry-1";
  task_payload_uri = "hetzner://runtime/queue/queue-k1-manual-retry-1/task-payload.json";
  composition_context_uri =
      some "hetzner://runtime/queue/queue-k1-manual-retry-1/composition-context-response.json";
  idempotency_key = some "k1:manual-retry:1";
}

abbrev tried : Desk
tried = (retry recorder reader plain is_plain "queue-k1" once_more failed).1

retried : retry recorder reader plain is_plain "queue-k1" once_more failed ≡ (ok new_item, tried)
unfolding retry enqueue Exec.◌>>=◌ auth_claims_of task_id_of get length member slug_id relative_path
    json_parts write_json join join_with insert decimal
retried = refl

retry-Retried_example :
    Retried recorder reader plain is_plain "queue-k1" once_more failed tried new_item
retry-Retried_example =
    retry-Retried recorder reader plain is_plain "queue-k1" once_more failed tried new_item retried
