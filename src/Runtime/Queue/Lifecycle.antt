-- ===== src/Runtime/Queue/Lifecycle.antt =====
-- What cancelling, failing and starting a queue item leave behind.
use skill_centric_agent_syst.Base.{
  suc, String, ◌≡◌, refl, true, Option, none, some, arith, ◌==◌, if◌then◌else◌, Dict, get, modify,
  get-modify, eq_iff,
}
use skill_centric_agent_syst.Base.Outcome.{Outcome, ok, err}
use skill_centric_agent_syst.Base.Exec
use skill_centric_agent_syst.Runtime.Models.{QueueStatus, is_settled}
use skill_centric_agent_syst.Runtime.Store.Records.{QueueItem, RunClaim}
use skill_centric_agent_syst.Runtime.Store.{
  Store, get_runtime_queue_item, update_runtime_queue_item, update_record, get_runtime_run,
  update_runtime_run, active_claim_for_queue,
}
use skill_centric_agent_syst.Runtime.Store.Leases.{text_or, release_runtime_queue_claims}
use skill_centric_agent_syst.Runtime.Store.Recovery.{release_claims_lem}
use skill_centric_agent_syst.Runtime.Queue.{Runtime, Host, Error, queue_error, now}
use skill_centric_agent_syst.Runtime.Queue.Status.{
  StatusChange, changed, update_status, cancel_effective_run, cancel_item, mark_cancelled,
}

abbrev pub items : Runtime → Dict QueueItem
items w = w.store.runtime_queue_items

abbrev pub claims : Runtime → Dict RunClaim
claims w = w.store.runtime_run_claims

-- The runtime after the status of an item is written.
abbrev pub written : String → (QueueItem → QueueItem) → Runtime → Runtime
written q f w = record w {
  store = record w.store { runtime_queue_items = modify q f (items w) };
  readings = suc w.readings;
}

-- An item that is there gets its new status, and the clock is read once.
pub update_status_found :
    (host : Host) (q : String) (status : QueueStatus) (c : StatusChange) (w : Runtime)
    (item : QueueItem)
    → get q (items w) ≡ some item
    → let f = changed status c (host.iso (host.clock w.readings)) in
      update_status host q status c w ≡ (ok (f item), written q f w)
unfolding update_status Exec.◌>>=◌ now update_runtime_queue_item update_record
update_status_found host q status c w item h = rw h refl

-- The effect on the run changes neither the items nor the claims.
cancel_run-items :
    (o : Option String) (at : String) (s : Store)
    → (cancel_effective_run o at s).runtime_queue_items ≡ s.runtime_queue_items
unfolding cancel_effective_run update_runtime_run update_record get_runtime_run
cancel_run-items none at s = refl
cancel_run-items (some r) at s = ground arith

cancel_run-claims :
    (o : Option String) (at : String) (s : Store)
    → (cancel_effective_run o at s).runtime_run_claims ≡ s.runtime_run_claims
unfolding cancel_effective_run update_runtime_run update_record get_runtime_run
cancel_run-claims none at s = refl
cancel_run-claims (some r) at s = ground arith

abbrev to_cancel : Option String → StatusChange
to_cancel run_id = record {
  run_id = run_id;
  attempt_id = none;
  scheduled_at = none;
  last_error = none;
  clear_claim = true;
}

-- The change that a cancellation makes of an item.
abbrev cancelling : Option String → String → QueueItem → QueueItem
cancelling run_id at = changed QueueStatus.cancelled (to_cancel run_id) at

-- The runtime after an item is cancelled.
abbrev after_cancel : Host → String → Option String → QueueItem → Runtime → Runtime
after_cancel host q run_id item w =
    let at = host.iso (host.clock w.readings) in
    let f = cancelling run_id (host.iso (host.clock (suc w.readings))) in
    let w1 : Runtime = written q f (record w { readings = suc w.readings }) in
    record w1 {
      store =
          cancel_effective_run (text_or run_id (f item).run_id) at
            (release_runtime_queue_claims q at "cancelled" w1.store).1;
    }

cancel_item_found :
    (host : Host) (q : String) (run_id : Option String) (w : Runtime) (item : QueueItem)
    → get q (items w) ≡ some item
    → cancel_item host q run_id w ≡ (
      ok (cancelling run_id (host.iso (host.clock (suc w.readings))) item),
      after_cancel host q run_id item w,
    )
unfolding cancel_item Exec.◌>>=◌ now
cancel_item_found host q run_id w item h =
    rw
      (update_status_found host q QueueStatus.cancelled (to_cancel run_id)
        (record w { readings = suc w.readings }) item h)
      refl

-- What `mark_cancelled` promises of an item that waits or is held: it is stored as cancelled, with
-- no worker and no lease, none of its claims is active, and every other item is as it was.
pub record Cancelled (q : String) (w : Runtime) (stored : QueueItem) (t : Runtime) : Type 0 where
  pub is_cancelled : stored.status ≡ QueueStatus.cancelled
  pub no_worker : stored.claimed_by ≡ none
  pub no_lease : (stored.claimed_until ≡ none) × (stored.lease_expires_at ≡ none)
  pub no_claim : active_claim_for_queue q (claims t) ≡ none
  pub stored_items :
      (k : String) → get k (items t) ≡ (if k == q then some stored else get k (items w))

after_cancel-items :
    (host : Host) (q : String) (run_id : Option String) (w : Runtime) (item : QueueItem)
    → items (after_cancel host q run_id item w)
      ≡ modify q (cancelling run_id (host.iso (host.clock (suc w.readings)))) (items w)
unfolding release_runtime_queue_claims
after_cancel-items host q run_id w item =
    let at = host.iso (host.clock w.readings) in
    let f = cancelling run_id (host.iso (host.clock (suc w.readings))) in
    cancel_run-items (text_or run_id (f item).run_id) at
      (release_runtime_queue_claims q at "cancelled" (written q f w).store).1

after_cancel-claims :
    (host : Host) (q : String) (run_id : Option String) (w : Runtime) (item : QueueItem)
    → active_claim_for_queue q (claims (after_cancel host q run_id item w)) ≡ none
after_cancel-claims host q run_id w item =
    let at = host.iso (host.clock w.readings) in
    let f = cancelling run_id (host.iso (host.clock (suc w.readings))) in
    let s = (written q f w).store in
    rw
      (cancel_run-claims (text_or run_id (f item).run_id) at
        (release_runtime_queue_claims q at "cancelled" s).1)
      (release_claims_lem q at "cancelled" s).0

-- An item that is there is replaced by its new form, and no other item changes.
pub get-modify_found :
    {V : Type 0} (q k : String) (f : V → V) (d : Dict V) (v : V)
    → get q d ≡ some v
    → get k (modify q f d) ≡ (if k == q then some (f v) else get k d)
get-modify_found q k f d v h = rw get-modify (ground (arith, eq_iff k q))

after_cancel-Cancelled :
    (host : Host) (q : String) (run_id : Option String) (w : Runtime) (item : QueueItem)
    → get q (items w) ≡ some item
    → Cancelled q w
        (cancelling run_id (host.iso (host.clock (suc w.readings))) item)
        (after_cancel host q run_id item w)
unfolding changed
after_cancel-Cancelled host q run_id w item h =
    let f = cancelling run_id (host.iso (host.clock (suc w.readings))) in
    record {
      is_cancelled = refl;
      no_worker = refl;
      no_lease = (refl, refl);
      no_claim = after_cancel-claims host q run_id w item;
      stored_items = λ k.
          rw (after_cancel-items host q run_id w item) (get-modify_found q k f (items w) item h);
    }

-- What `mark_cancelled` does with each status of a stored item: it returns a cancelled item as it is,
-- refuses a succeeded, failed or dead-lettered one, both without a write, and cancels every other.
pub CancelOutcome :
    (q : String) (w : Runtime) (item : QueueItem) (r : Outcome Error QueueItem × Runtime)
    → QueueStatus
    → Type 0
CancelOutcome q w item r QueueStatus.cancelled = r ≡ (ok item, w)
CancelOutcome q w item r status =
    if is_settled status
    then r ≡ (err (queue_error "Terminal runtime queue items cannot be cancelled."), w)
    else (stored : QueueItem) × (r.0 ≡ ok stored) × Cancelled q w stored r.1

-- For a stored item `mark_cancelled` returns a cancelled item as it is and refuses a succeeded,
-- failed or dead-lettered one, both without any write. It cancels every other item: the item is
-- stored as cancelled, with no worker and no lease, none of its claims is active, and every other
-- item is as it was.
pub mark_cancelled_lem :
    (host : Host) (q : String) (run_id : Option String) (w : Runtime) (item : QueueItem)
    → get q w.store.runtime_queue_items ≡ some item
    → CancelOutcome q w item (mark_cancelled host q run_id w) item.status
unfolding mark_cancelled get_runtime_queue_item CancelOutcome
mark_cancelled_lem host q run_id w item h = go item.status refl
  where
    did :
        (stored : QueueItem) × ((cancel_item host q run_id w).0 ≡ ok stored)
        × Cancelled q w stored (cancel_item host q run_id w).1
    did =
        rw (cancel_item_found host q run_id w item h)
          (_, refl, after_cancel-Cancelled host q run_id w item h)

    go :
        (st : QueueStatus)
        → item.status ≡ st
        → CancelOutcome q w item (mark_cancelled host q run_id w) st
    go QueueStatus.cancelled e = simp (h, e) refl
    go QueueStatus.succeeded e = simp (h, e) refl
    go QueueStatus.failed e = simp (h, e) refl
    go QueueStatus.dead_lettered e = simp (h, e) refl
    go QueueStatus.queued e = simp (h, e) did
    go QueueStatus.claiming e = simp (h, e) did
    go QueueStatus.running e = simp (h, e) did
    go QueueStatus.retry_scheduled e = simp (h, e) did
