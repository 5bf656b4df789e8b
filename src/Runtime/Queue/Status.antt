-- ===== src/Runtime/Queue/Status.antt =====
-- runtime/queue.py: `_update_status` and the `mark_…` methods of `RuntimeQueueManager`.
use skill_centric_agent_syst.Base.{
  join, ℕ, ◌+◌, ◌-◌, String, Bool, true, false, Option, none, some, if◌then◌else◌, ltb,
}
use skill_centric_agent_syst.Base.Exec.{Exec, pure, raise, puts, ◌>>=◌, ◌>>◌}
use skill_centric_agent_syst.Runtime.Models.{QueueStatus, RunStatus, run_is_over}
use skill_centric_agent_syst.Runtime.Models.Slug.{slug_id, decimal}
use skill_centric_agent_syst.Runtime.Store.Records.{QueueItem, Run, DeadLetter}
use skill_centric_agent_syst.Runtime.Store.{
  Store, get_runtime_queue_item, update_runtime_queue_item, get_runtime_run, update_runtime_run,
  insert_runtime_dead_letter,
}
use skill_centric_agent_syst.Runtime.Store.Leases.{text_or, release_runtime_queue_claims}
use skill_centric_agent_syst.Runtime.Queue.{
  Runtime, Host, QueueConfig, seconds, Error, queue_error, stored_or_key_error, now,
}

-- The keyword arguments of `_update_status`; an argument that is not given is `none`.
pub record StatusChange : Type 0 where
  pub run_id : Option String
  pub attempt_id : Option String
  pub scheduled_at : Option String
  pub last_error : Option String
  pub clear_claim : Bool

-- `if new is not None: fields[k] = new`
abbrev pub given : Option String → Option String → Option String
given none old = old
given (some new) old = some new

abbrev pub given_text : Option String → String → String
given_text none old = old
given_text (some new) old = new

-- `if last_error is not None or status == "succeeded": fields["last_error"] = last_error`
unfoldable pub error_after : QueueStatus → Option String → Option String → Option String
error_after QueueStatus.succeeded new old = new
error_after status new old = given new old

-- The item once the fields are written.
unfoldable pub changed : QueueStatus → StatusChange → String → QueueItem → QueueItem
changed status c at item =
    let gone : Option String → Option String = λ old. if c.clear_claim then none else old in
    record item {
      status = status;
      updated_at = at;
      run_id = given c.run_id item.run_id;
      attempt_id = given c.attempt_id item.attempt_id;
      scheduled_at = given_text c.scheduled_at item.scheduled_at;
      last_error = error_after status c.last_error item.last_error;
      claimed_by = gone item.claimed_by;
      claimed_at = gone item.claimed_at;
      claimed_until = gone item.claimed_until;
      lease_expires_at = gone item.lease_expires_at;
      heartbeat_at = gone item.heartbeat_at;
    }

-- The update of the run by `mark_cancelled`.
abbrev cancel_run : String → Run → Run
cancel_run at r = record r {
  status = RunStatus.cancelled;
  stop_reason = some "cancelled";
  completed_at = some at;
}

abbrev kept_or_new : Store → Option (Run × Store) → Store
kept_or_new s none = s
kept_or_new s (some (r, t)) = t

-- The run that is found is cancelled, unless it is over.
abbrev cancel_found_run : String → String → Option Run → Store → Store
cancel_found_run run_id at none s = s
cancel_found_run run_id at (some r) s =
    if run_is_over r.status then s else kept_or_new s (update_runtime_run run_id (cancel_run at) s)

unfoldable pub cancel_effective_run : Option String → String → Store → Store
cancel_effective_run none at s = s
cancel_effective_run (some run_id) at s = cancel_found_run run_id at (get_runtime_run run_id s) s

-- `f"{type(error).__name__}: {error}"`
abbrev pub described : Error → String
described e = join e.class_name (join ": " e.message)

-- The status after a failure.
unfoldable pub status_after_failure : QueueItem → QueueStatus
status_after_failure item =
    if ltb item.attempts item.max_attempts
    then QueueStatus.retry_scheduled
    else QueueStatus.dead_lettered

module _ (host : Host) where
  -- `_update_status`
  unfoldable pub update_status : String → QueueStatus → StatusChange → Exec Error Runtime QueueItem
  update_status queue_id status c = do
    at ← now host
    λ w.
        stored_or_key_error queue_id w
          (update_runtime_queue_item queue_id (changed status c (host.iso at)) w.store)

  unfoldable pub mark_running : String → String → Option String → Exec Error Runtime QueueItem
  unfolding update_status
  mark_running queue_id run_id attempt_id = update_status queue_id QueueStatus.running (record {
    run_id = some run_id;
    attempt_id = attempt_id;
    scheduled_at = none;
    last_error = none;
    clear_claim = false;
  })

  unfoldable pub mark_succeeded : String → String → Exec Error Runtime QueueItem
  unfolding update_status
  mark_succeeded queue_id run_id = update_status queue_id QueueStatus.succeeded (record {
    run_id = some run_id;
    attempt_id = none;
    scheduled_at = none;
    last_error = none;
    clear_claim = false;
  })

  -- `mark_cancelled` once the status of the item allows it. The item that was read is the stored
  -- object, so that its `run_id` is read after the update.
  unfoldable pub cancel_item : String → Option String → Exec Error Runtime QueueItem
  unfolding update_status
  cancel_item queue_id run_id = do
    at ← now host
    stored ← update_status queue_id QueueStatus.cancelled (record {
      run_id = run_id;
      attempt_id = none;
      scheduled_at = none;
      last_error = none;
      clear_claim = true;
    })
    puts (λ w. record w {
      store = (release_runtime_queue_claims queue_id (host.iso at) "cancelled" w.store).1;
    })
    puts (λ w. record w {
      store = cancel_effective_run (text_or run_id stored.run_id) (host.iso at) w.store;
    })
    pure stored

  abbrev cancel_found : String → Option String → Option QueueItem → Exec Error Runtime QueueItem
  cancel_found queue_id run_id none =
      raise (queue_error (join "Runtime queue item not found: " queue_id))
  cancel_found queue_id run_id (some item) = elim item.status [
    | QueueStatus.cancelled ↦ pure item
    | QueueStatus.succeeded ↦
        raise (queue_error "Terminal runtime queue items cannot be cancelled.")
    | QueueStatus.failed ↦ raise (queue_error "Terminal runtime queue items cannot be cancelled.")
    | QueueStatus.dead_lettered ↦
        raise (queue_error "Terminal runtime queue items cannot be cancelled.")
    | _ ↦ cancel_item queue_id run_id
  ]

  unfoldable pub mark_cancelled : String → Option String → Exec Error Runtime QueueItem
  unfolding cancel_item
  mark_cancelled queue_id run_id w =
      cancel_found queue_id run_id (get_runtime_queue_item queue_id w.store) w

  abbrev pub dead_letter : QueueItem → Error → Option String → String → DeadLetter
  dead_letter item e run_id at = record {
    id = slug_id host.casefold "dlq" (join item.id (join "-" (decimal item.attempts)));
    queue_id = item.id;
    run_id = run_id;
    attempt_id = item.attempt_id;
    tenant_id = item.tenant_id;
    error_type = e.class_name;
    error_message = e.message;
    created_at = at;
  }

  unfoldable pub insert_dead_letter :
      QueueItem → Error → Option String → Exec Error Runtime (Unit {0})
  insert_dead_letter item e run_id = do
    at ← now host
    puts (λ w. record w {
      store = (insert_runtime_dead_letter (dead_letter item e run_id (host.iso at)) w.store).1;
    })

  -- The delay before the next attempt, in microseconds.
  unfoldable pub retry_delay : QueueConfig → QueueItem → ℕ
  retry_delay config item =
      let jitter = seconds host (host.randint item.id config.retry_jitter_seconds) in
      host.backoff (item.attempts - 1) + (if ltb 0 config.retry_jitter_seconds then jitter else 0)

  unfoldable pub mark_failed_or_retry :
      QueueItem → Error → QueueConfig → Option String → Exec Error Runtime QueueItem
  unfolding update_status insert_dead_letter
  mark_failed_or_retry item e config run_id = do
    at ← now host
    stored ← update_status item.id (status_after_failure item) (record {
      run_id = run_id;
      attempt_id = none;
      scheduled_at = some (host.iso (at + retry_delay config item));
      last_error = some (described e);
      clear_claim = true;
    })
    if ltb item.attempts item.max_attempts then pure tt else insert_dead_letter item e run_id
    pure stored
