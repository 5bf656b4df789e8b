-- ===== src/Runtime/Models.antt =====
-- runtime/models.py: the status words, and `slug_id`, the identifier made of a text.
pub mod Slug
use skill_centric_agent_syst.Base.{String, Bool, true, false}

-- `RuntimeQueueStatus`
pub data QueueStatus : Type 0 where
  queued claiming running succeeded failed cancelled retry_scheduled dead_lettered : QueueStatus

-- `RuntimeStatus`
pub data RunStatus : Type 0 where
  queued running succeeded failed cancelled : RunStatus

-- The word of a status.
abbrev pub status_word : QueueStatus → String
status_word QueueStatus.queued = "queued"
status_word QueueStatus.claiming = "claiming"
status_word QueueStatus.running = "running"
status_word QueueStatus.succeeded = "succeeded"
status_word QueueStatus.failed = "failed"
status_word QueueStatus.cancelled = "cancelled"
status_word QueueStatus.retry_scheduled = "retry_scheduled"
status_word QueueStatus.dead_lettered = "dead_lettered"

-- `status in {"queued", "retry_scheduled"}`: the item waits for a worker
abbrev pub is_waiting : QueueStatus → Bool
is_waiting QueueStatus.queued = true
is_waiting QueueStatus.retry_scheduled = true
is_waiting _ = false

-- `status in {"claiming", "running"}`: a worker holds the item
abbrev pub is_held : QueueStatus → Bool
is_held QueueStatus.claiming = true
is_held QueueStatus.running = true
is_held _ = false

-- `status in {"succeeded", "failed", "dead_lettered"}`, which `mark_cancelled` refuses
abbrev pub is_settled : QueueStatus → Bool
is_settled QueueStatus.succeeded = true
is_settled QueueStatus.failed = true
is_settled QueueStatus.dead_lettered = true
is_settled _ = false

-- `status in {"failed", "cancelled", "dead_lettered"}`, which `retry` takes
abbrev pub is_retryable : QueueStatus → Bool
is_retryable QueueStatus.failed = true
is_retryable QueueStatus.cancelled = true
is_retryable QueueStatus.dead_lettered = true
is_retryable _ = false

-- `status in {"succeeded", "failed", "cancelled"}` of a run
abbrev pub run_is_over : RunStatus → Bool
run_is_over RunStatus.succeeded = true
run_is_over RunStatus.failed = true
run_is_over RunStatus.cancelled = true
run_is_over _ = false
