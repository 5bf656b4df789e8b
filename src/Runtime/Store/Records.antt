-- ===== src/Runtime/Store/Records.antt =====
-- The records of the runtime store. Times are ISO texts, as the store compares them.
use skill_centric_agent_syst.Base.{ℕ, String, Option, ℤ, Json}
use skill_centric_agent_syst.Runtime.Models.{QueueStatus, RunStatus}

-- `runtime_queue_items`
pub record QueueItem : Type 0 where
  pub id : String
  pub task_id : String
  pub tenant_id : String
  pub area_id : String
  pub environment : String
  pub queue_name : String
  pub status : QueueStatus
  pub priority : ℤ
  pub scheduled_at : String
  pub attempts : ℕ
  pub max_attempts : ℕ
  pub claimed_by : Option String
  pub claimed_at : Option String
  pub claimed_until : Option String
  pub lease_expires_at : Option String
  pub heartbeat_at : Option String
  pub attempt_id : Option String
  pub task_payload_uri : String
  pub composition_context_uri : Option String
  pub run_id : Option String
  pub last_error : Option String
  pub idempotency_key : Option String
  pub created_at : String
  pub updated_at : String

-- `runtime_run_attempts`
pub record RunAttempt : Type 0 where
  pub id : String
  pub queue_id : String
  pub run_id : String
  pub tenant_id : String
  pub attempt_number : ℕ
  pub status : QueueStatus
  pub started_at : String
  pub completed_at : Option String
  pub stop_reason : Option String
  pub profile_id : Option String
  pub profile_sha256 : Option String

-- `runtime_run_claims`
pub record RunClaim : Type 0 where
  pub id : String
  pub queue_id : String
  pub worker_id : String
  pub tenant_id : String
  pub claimed_at : String
  pub claimed_until : String
  pub heartbeat_at : String
  pub released_at : Option String
  pub release_reason : Option String

-- `runtime_dead_letters`
pub record DeadLetter : Type 0 where
  pub id : String
  pub queue_id : String
  pub run_id : Option String
  pub attempt_id : Option String
  pub tenant_id : String
  pub error_type : String
  pub error_message : String
  pub created_at : String

pub data ReservationStatus : Type 0 where
  reserved finalized refunded : ReservationStatus

-- `runtime_quota_reservations`
pub record Reservation : Type 0 where
  pub id : String
  pub queue_id : String
  pub run_id : String
  pub tenant_id : String
  pub quota_window : String
  pub reserved_tokens : ℤ
  pub reserved_tool_calls : ℤ
  pub status : ReservationStatus
  pub created_at : String
  pub finalized_at : Option String

-- `runtime_runs`
pub record Run : Type 0 where
  pub id : String
  pub task_id : String
  pub profile_id : String
  pub profile_version : String
  pub status : RunStatus
  pub started_at : String
  pub completed_at : Option String
  pub artifact_root_uri : String
  pub token_budget_total : Json
  pub tokens_used_total : ℕ
  pub stop_reason : Option String
  pub profile_artifact_uri : Option String
  pub profile_sha256 : Option String
  pub profile_generation : Option ℕ
  pub parent_profile_id : Option String

-- `runtime_steps`
pub record Step : Type 0 where
  pub id : String
  pub run_id : String
  pub step_index : ℕ
  pub kind : String
  pub status : RunStatus
  pub started_at : String
  pub completed_at : Option String
  pub stop_reason : Option String
  pub token_budget : Option ℕ
  pub tokens_used : ℕ
  pub idempotency_key : Option String
  pub attempt : ℕ

-- `runtime_events`
pub record Event : Type 0 where
  pub id : String
  pub run_id : String
  pub step_id : Option String
  pub event_index : ℕ
  pub event_type : String
  pub actor_role : String
  pub planned_action_uri : Option String
  pub execution_uri : Option String
  pub result_uri : Option String
  pub stop_reason : Option String
  pub idempotency_key : String
  pub created_at : String

-- `runtime_checkpoints`
pub record Checkpoint : Type 0 where
  pub id : String
  pub run_id : String
  pub step_id : Option String
  pub checkpoint_index : ℕ
  pub phase : String
  pub state_uri : String
  pub tokens_used_total : ℕ
  pub created_at : String
