-- ===== src/Runtime/Queue.antt =====
-- runtime/queue.py: `RuntimeQueueManager`. The state is the store and the number of clock readings
-- made; each call of `clock()` takes the next reading.

pub mod Status
pub mod Lifecycle
pub mod Failures
pub mod Enqueue
pub mod Insertion
pub mod Admission
pub mod Repeated
pub mod Loading
pub mod Retry
use skill_centric_agent_syst.Base.{ℕ, suc, ◌+◌, ◌*◌, String, Option, none, some, List, Dict}
use skill_centric_agent_syst.Base.Outcome.{Outcome, ok, err}
use skill_centric_agent_syst.Base.Exec.{Exec, ◌>>=◌}
use skill_centric_agent_syst.Runtime.Store.Records.{QueueItem}
use skill_centric_agent_syst.Runtime.Store.{Store}
use skill_centric_agent_syst.Runtime.Store.Claims.{
  ClaimRequest, ClaimBundle, claim_next_runtime_queue_attempt, claim_next_runtime_queue_item,
}
use skill_centric_agent_syst.Runtime.Store.Leases.{
  Heartbeat, heartbeat_runtime_queue_item, recover_stale_runtime_queue_items,
}

-- An exception: its class, its text, and its `stop_reason` where it has one.
pub record Error : Type 0 where
  pub class_name : String
  pub message : String
  pub stop_reason : Option String

abbrev pub queue_error : String → Error
queue_error m = record { class_name = "RuntimeQueueError"; message = m; stop_reason = none }

abbrev pub key_error : String → Error
key_error k = record { class_name = "KeyError"; message = k; stop_reason = none }

pub record Runtime : Type 0 where
  pub store : Store
  pub readings : ℕ

-- The fields of `RuntimeQueueConfig` that the methods here use; the two that a float product is
-- made of are in `Host.backoff`.
pub record QueueConfig : Type 0 where
  pub lease_seconds : ℕ
  pub global_running_limit : Option ℕ
  pub tenant_running_limits : Dict ℕ
  pub allowed_tenant_ids : List String
  pub disabled_tenant_ids : List String
  pub environment : String
  pub queue_name : String
  pub retry_jitter_seconds : ℕ

-- What the manager uses of the standard library.
pub record Host : Type 0 where
  -- `str.casefold`
  pub casefold : String → String
  -- the readings of the clock, in microseconds
  pub clock : ℕ → ℕ
  -- `iso_timestamp`
  pub iso : ℕ → String
  -- `retry_delay_seconds * retry_backoff_multiplier ** n`, a float, in microseconds
  pub backoff : ℕ → ℕ
  -- `Random(seed).randint(0, most)`
  pub randint : String → ℕ → ℕ

-- The update of a queue item that may be missing.
abbrev pub stored_or_key_error :
    String → Runtime → Option (QueueItem × Store) → Outcome Error QueueItem × Runtime
stored_or_key_error k w none = (err (key_error k), w)
stored_or_key_error k w (some (item, s)) = (ok item, record w { store = s })

module _ (host : Host) where
  -- `self.clock()`
  unfoldable pub now : Exec Error Runtime ℕ
  now w = (ok (host.clock w.readings), record w { readings = suc w.readings })

  abbrev pub seconds : ℕ → ℕ
  seconds n = n * 1000000

  abbrev request : String → ℕ → QueueConfig → ClaimRequest
  request worker_id claimed_at config = record {
    worker_id = worker_id;
    claimed_at = host.iso claimed_at;
    lease_expires_at = host.iso (claimed_at + seconds config.lease_seconds);
    tenant_running_limits = config.tenant_running_limits;
    global_running_limit = config.global_running_limit;
    allowed_tenant_ids = config.allowed_tenant_ids;
    disabled_tenant_ids = config.disabled_tenant_ids;
    environment = some config.environment;
    queue_name = some config.queue_name;
  }

  -- A call of the store that cannot raise.
  abbrev pub on_store : {A : Type 0} → (Store → A × Store) → Exec Error Runtime A
  on_store f w = let (a, s) = f w.store in (ok a, record w { store = s })

  unfoldable pub claim_next_attempt : String → QueueConfig → Exec Error Runtime (Option ClaimBundle)
  claim_next_attempt worker_id config = do
    claimed_at ← now
    on_store (claim_next_runtime_queue_attempt host.casefold (request worker_id claimed_at config))

  unfoldable pub claim_next : String → QueueConfig → Exec Error Runtime (Option QueueItem)
  claim_next worker_id config = do
    claimed_at ← now
    on_store (claim_next_runtime_queue_item host.casefold (request worker_id claimed_at config))

  unfoldable pub heartbeat : String → QueueConfig → Exec Error Runtime QueueItem
  heartbeat queue_id config = do
    at ← now
    let until = host.iso (at + seconds config.lease_seconds)
    let beat : Heartbeat = record {
      heartbeat_at = host.iso at;
      claimed_until = until;
      lease_expires_at = until;
      updated_at = host.iso at;
    }
    λ w. stored_or_key_error queue_id w (heartbeat_runtime_queue_item queue_id beat w.store)

  unfoldable pub recover_stale_claims : Exec Error Runtime (List QueueItem)
  recover_stale_claims = do at ← now; on_store (recover_stale_runtime_queue_items (host.iso at))
