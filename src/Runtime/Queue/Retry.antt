-- ===== src/Runtime/Queue/Retry.antt =====
-- runtime/queue.py: `RuntimeQueueManager.retry`.
pub mod Retried
use Prim.Native.Char.{Char}
use skill_centric_agent_syst.Base.{
  ℕ, suc, String, Bool, Option, none, some, join, Fields, as_mapping, not, [],
}
use skill_centric_agent_syst.Base.Outcome.{Outcome, ok, err, check, some_or}
use skill_centric_agent_syst.Base.Exec.{Exec, lift, ◌>>=◌, ◌>>◌}
use skill_centric_agent_syst.Runtime.Models.{is_retryable}
use skill_centric_agent_syst.Runtime.Models.Slug.{decimal}
use skill_centric_agent_syst.Runtime.Store.{get_runtime_queue_item}
use skill_centric_agent_syst.Runtime.Store.Records.{QueueItem}
use skill_centric_agent_syst.Runtime.Queue.{Error, queue_error}
use skill_centric_agent_syst.Runtime.Queue.Enqueue.{Options, enqueue}
use skill_centric_agent_syst.Runtime.Artifacts.Chunks.{Files}
use skill_centric_agent_syst.Runtime.Artifacts.Reading.{Reader}
use skill_centric_agent_syst.Runtime.Queue.Loading.{load_task, load_composition_context}
use skill_centric_agent_syst.Runtime.Enforcement.Profile.{Containers}
use skill_centric_agent_syst.Runtime.FlightRecorder.Desk.{Desk, Recorder, or_else}

-- The keyword arguments.
pub record RetryOptions : Type 0 where
  pub scheduled_at : Option String
  pub idempotency_key : Option String
  pub max_attempts : Option ℕ

-- `given or default`
abbrev or_default : Option ℕ → ℕ → ℕ
or_default none d = d
or_default (some ℕ.zero) d = d
or_default (some (ℕ.suc n)) d = suc n

-- The key of the new item.
abbrev pub retry_key : String → QueueItem → Option String → String
retry_key queue_id item given = or_else given (
    join (or_else item.idempotency_key queue_id)
      (join ":manual-retry:" (decimal (suc item.attempts))))

-- What `retry` gives to `enqueue`: no limit and no disabled tenant.
abbrev pub retry_options : String → QueueItem → RetryOptions → Option Fields → Options
retry_options queue_id item o response = record {
  composition_context_response = response;
  priority = item.priority;
  scheduled_at = o.scheduled_at;
  max_attempts = or_default o.max_attempts item.max_attempts;
  idempotency_key = some (retry_key queue_id item o.idempotency_key);
  environment = or_else (some item.environment) "dev";
  queue_name = or_else (some item.queue_name) "default";
  tenant_queued_limits = [];
  disabled_tenant_ids = [];
}

module _ (r : Recorder) (reader : Reader) (py : Containers) (is_word : Char → Bool) where
  -- `retry` of a stored item
  unfoldable pub retry_item : String → QueueItem → RetryOptions → Exec Error Desk QueueItem
  unfolding load_task load_composition_context enqueue
  retry_item queue_id item o d =
      (do
        lift (
            check (is_retryable item.status) (
              queue_error
                "Only failed, cancelled, or dead-lettered runtime queue items can be retried."))
        task ← lift (load_task r reader item d.files)
        response ← lift (load_composition_context r reader item d.files)
        enqueue r py is_word task (retry_options queue_id item o response))
        d

  -- `retry`
  unfoldable pub retry : String → RetryOptions → Exec Error Desk QueueItem
  unfolding retry_item get_runtime_queue_item
  retry queue_id o d =
      (lift (
            some_or (get_runtime_queue_item queue_id d.store)
              (queue_error (join "Runtime queue item not found: " queue_id)))
          >>= λ item. retry_item queue_id item o)
        d
