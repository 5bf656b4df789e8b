-- ===== src/Runtime/Queue/Failures.antt =====
-- What starting an attempt and failing it leave behind.
use skill_centric_agent_syst.Base.{
  ◌+◌, String, ◌≡◌, refl, true, false, Option, none, some, ◌==◌, if◌then◌else◌, ltb, get,
}
use skill_centric_agent_syst.Base.Outcome.{Outcome, ok}
use skill_centric_agent_syst.Base.Exec
use skill_centric_agent_syst.Runtime.Models.{QueueStatus}
use skill_centric_agent_syst.Runtime.Store.Records.{QueueItem, DeadLetter}
use skill_centric_agent_syst.Runtime.Queue.{Runtime, Host, QueueConfig, Error}
use skill_centric_agent_syst.Runtime.Queue.Status.{
  StatusChange, changed, described, mark_running, retry_delay,
}
use skill_centric_agent_syst.Runtime.Queue.Lifecycle.{items, update_status_found, get-modify_found}

-- The item `q` became `stored`, and no other item changed.
abbrev Replaced : String → Runtime → QueueItem → Runtime → Type 0
Replaced q w stored t =
    (k : String) → get k (items t) ≡ (if k == q then some stored else get k (items w))

abbrev to_run : String → Option String → StatusChange
to_run run_id attempt_id = record {
  run_id = some run_id;
  attempt_id = attempt_id;
  scheduled_at = none;
  last_error = none;
  clear_claim = false;
}

-- The item `q` runs under the run, with the worker and the lease that it had.
pub record Started (q run_id : String) (w : Runtime) (item : QueueItem)
    (r : Outcome Error QueueItem × Runtime) : Type 0 where
  pub stored : QueueItem
  pub returned : r.0 ≡ ok stored
  pub is_running : stored.status ≡ QueueStatus.running
  pub of_run : stored.run_id ≡ some run_id
  pub same_worker : stored.claimed_by ≡ item.claimed_by
  pub same_lease : stored.claimed_until ≡ item.claimed_until
  pub replaced : Replaced q w stored r.1

-- `mark_running` starts a stored item whatever its status is, also one that was cancelled after it
-- was claimed: the item becomes running under the run, it keeps its worker and its lease, and no
-- other item changes.
pub mark_running_lem :
    (host : Host) (q run_id : String) (attempt_id : Option String) (w : Runtime) (item : QueueItem)
    → get q w.store.runtime_queue_items ≡ some item
    → Started q run_id w item (mark_running host q run_id attempt_id w)
unfolding mark_running changed
mark_running_lem host q run_id attempt_id w item h =
    rw (update_status_found host q QueueStatus.running (to_run run_id attempt_id) w item h)
      (record {
        stored =
            changed QueueStatus.running (to_run run_id attempt_id)
              (host.iso (host.clock w.readings)) item;
        returned = refl;
        is_running = refl;
        of_run = refl;
        same_worker = refl;
        same_lease = refl;
        replaced = λ k. get-modify_found q k _ (items w) item h;
      })

abbrev to_fail : Host → QueueConfig → QueueItem → Error → Option String → Runtime → StatusChange
to_fail host config item e run_id w = record {
  run_id = run_id;
  attempt_id = none;
  scheduled_at = some (host.iso (host.clock w.readings + retry_delay host config item));
  last_error = some (described e);
  clear_claim = true;
}

-- What becomes of an item whose attempt failed: while it has attempts left it waits until the delay
-- is over and no dead letter is written, else it is dead-lettered with a letter that names the item
-- and the error.
pub Settled : Host → QueueConfig → QueueItem → Error → Runtime → QueueItem → Runtime → Type 0
Settled host config item e w stored t =
    if ltb item.attempts item.max_attempts
    then (stored.status ≡ QueueStatus.retry_scheduled)
      × (stored.scheduled_at ≡ host.iso (host.clock w.readings + retry_delay host config item))
      × (t.store.runtime_dead_letters ≡ w.store.runtime_dead_letters)
    else (stored.status ≡ QueueStatus.dead_lettered)
      × (letter : DeadLetter) × (letter.queue_id ≡ item.id)
      × (letter.error_type ≡ e.class_name)
      × (letter.error_message ≡ e.message)
      × (get letter.id t.store.runtime_dead_letters ≡ some letter)

-- The common part: the item is stored with the error and without a worker or a lease.
pub record Failed (host : Host) (config : QueueConfig) (item : QueueItem) (e : Error) (w : Runtime)
    (r : Outcome Error QueueItem × Runtime) : Type 0 where
  pub stored : QueueItem
  pub returned : r.0 ≡ ok stored
  pub error_kept : stored.last_error ≡ some (described e)
  pub no_worker : stored.claimed_by ≡ none
  pub no_lease : (stored.claimed_until ≡ none) × (stored.lease_expires_at ≡ none)
  pub replaced : Replaced item.id w stored r.1
  pub settled : Settled host config item e w stored r.1
