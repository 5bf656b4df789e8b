-- ===== src/Examples/Manager.antt =====
-- A cancellation, a failure and a start through the manager of runtime/queue.py.
use skill_centric_agent_syst.Base.{◌+◌, [], ◌≡◌, refl, none, some, pos, get}
use skill_centric_agent_syst.Runtime.Models.{QueueStatus}
use skill_centric_agent_syst.Runtime.Store.Records.{QueueItem}
use skill_centric_agent_syst.Runtime.Queue.{Runtime, Host, QueueConfig, Error}
use skill_centric_agent_syst.Runtime.Queue.Status.{mark_cancelled}
use skill_centric_agent_syst.Runtime.Queue.Lifecycle.{CancelOutcome, mark_cancelled_lem}
use skill_centric_agent_syst.Examples.Claims.{fold, make_item, store}

abbrev host : Host
host = record {
  casefold = fold;
  clock = λ n. n;
  iso = λ n. "2026-01-01T00:00:00Z";
  backoff = λ n. n + 1;
  randint = λ seed most. most;
}

abbrev runtime : Runtime
runtime = record { store = store; readings = 0 }

abbrev item : QueueItem
item = make_item "a" "acme" (pos 1)

found : get "a" runtime.store.runtime_queue_items ≡ some item
unfolding get
found = refl

mark_cancelled_lem_example :
    CancelOutcome "a" runtime item (mark_cancelled host "a" none runtime) QueueStatus.queued
mark_cancelled_lem_example = mark_cancelled_lem host "a" none runtime item found

abbrev config : QueueConfig
config = record {
  lease_seconds = 300;
  global_running_limit = none;
  tenant_running_limits = [];
  allowed_tenant_ids = [];
  disabled_tenant_ids = [];
  environment = "dev";
  queue_name = "default";
  retry_jitter_seconds = 5;
}

abbrev timeout_error : Error
timeout_error = record { class_name = "TimeoutError"; message = "too late"; stop_reason = none }
