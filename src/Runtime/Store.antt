-- ===== src/Runtime/Store.antt =====
-- runtime/storage_memory.py: `InMemoryRuntimeStore`, a dictionary or a list for each kind of record.
-- Each method runs under the lock of the store or is one assignment, so a call is one step. A method
-- that changes a record takes the change as a function of the record; a missing key is a `KeyError`.
pub mod Records
pub mod Claims
pub mod Claiming
pub mod Limits
pub mod Leases
pub mod Recovery
pub mod Freed
pub mod Progress
pub mod Events
pub mod Indices
pub mod Recording
use skill_centric_agent_syst.Base.{
  ℕ, String, Bool, true, false, ◌&&◌, Option, none, some, List, [], ◌==◌, first_fit, Dict, get,
  insert, modify, values, count_values,
}
use Records.{QueueItem, RunAttempt, RunClaim, DeadLetter, Reservation, Run, Step, Event, Checkpoint}
use skill_centric_agent_syst.Runtime.Models.{is_held}

pub record Store : Type 0 where
  pub runtime_runs : Dict Run
  pub runtime_queue_items : Dict QueueItem
  pub runtime_run_attempts : Dict RunAttempt
  pub runtime_run_claims : Dict RunClaim
  pub runtime_dead_letters : Dict DeadLetter
  pub runtime_quota_reservations : Dict Reservation
  pub runtime_steps : Dict Step
  pub runtime_events : List Event
  pub runtime_checkpoints : List Checkpoint
  pub event_indices : Dict ℕ
  pub checkpoint_indices : Dict ℕ

abbrev pub empty : Store
empty = record {
  runtime_runs = [];
  runtime_queue_items = [];
  runtime_run_attempts = [];
  runtime_run_claims = [];
  runtime_dead_letters = [];
  runtime_quota_reservations = [];
  runtime_steps = [];
  runtime_events = [];
  runtime_checkpoints = [];
  event_indices = [];
  checkpoint_indices = [];
}

-- `existing.get("idempotency_key") == key`
abbrev pub has_text : Option String → String → Bool
has_text none k = false
has_text (some j) k = j == k

-- The record that an insertion returns and the store that it leaves.
abbrev pub insert_new : QueueItem → Store → Option QueueItem → QueueItem × Store
insert_new item s (some existing) = (existing, s)
insert_new item s none =
    (item, record s { runtime_queue_items = insert item.id item s.runtime_queue_items })

-- The first item with the idempotency key of the new one, if that has one.
abbrev pub find_same_key : Option String → List QueueItem → Option QueueItem
find_same_key none items = none
find_same_key (some key) items = first_fit (λ existing. has_text existing.idempotency_key key) items

unfoldable pub insert_runtime_queue_item : QueueItem → Store → QueueItem × Store
unfolding first_fit values
insert_runtime_queue_item item s =
    insert_new item s (find_same_key item.idempotency_key (values s.runtime_queue_items))

unfoldable pub get_runtime_queue_item : String → Store → Option QueueItem
unfolding get
get_runtime_queue_item queue_id s = get queue_id s.runtime_queue_items

-- `stored = d[key]; stored.update(…); return stored`: the new record and the new dictionary, or
-- nothing where the key is missing.
module _ {V : Type 0} where
  abbrev updated : String → (V → V) → Dict V → Option V → Option (V × Dict V)
  updated k f d none = none
  updated k f d (some v) = some (f v, modify k f d)

  unfoldable pub update_record : String → (V → V) → Dict V → Option (V × Dict V)
  unfolding modify get
  update_record k f d = updated k f d (get k d)

-- The new record beside the store with the new dictionary in it.
abbrev pub put_back : {V : Type 0} → (Dict V → Store) → Option (V × Dict V) → Option (V × Store)
put_back put none = none
put_back put (some (v, d)) = some (v, put d)

unfoldable pub update_runtime_queue_item :
    String → (QueueItem → QueueItem) → Store → Option (QueueItem × Store)
unfolding update_record
update_runtime_queue_item queue_id f s =
    put_back (λ d. record s { runtime_queue_items = d })
      (update_record queue_id f s.runtime_queue_items)

unfoldable pub update_runtime_run_attempt :
    String → (RunAttempt → RunAttempt) → Store → Option (RunAttempt × Store)
unfolding update_record
update_runtime_run_attempt attempt_id f s =
    put_back (λ d. record s { runtime_run_attempts = d })
      (update_record attempt_id f s.runtime_run_attempts)

unfoldable pub update_runtime_run_claim :
    String → (RunClaim → RunClaim) → Store → Option (RunClaim × Store)
unfolding update_record
update_runtime_run_claim claim_id f s =
    put_back (λ d. record s { runtime_run_claims = d })
      (update_record claim_id f s.runtime_run_claims)

unfoldable pub update_runtime_quota_reservation :
    String → (Reservation → Reservation) → Store → Option (Reservation × Store)
unfolding update_record
update_runtime_quota_reservation reservation_id f s =
    put_back (λ d. record s { runtime_quota_reservations = d })
      (update_record reservation_id f s.runtime_quota_reservations)

unfoldable pub update_runtime_run : String → (Run → Run) → Store → Option (Run × Store)
unfolding update_record
update_runtime_run run_id f s =
    put_back (λ d. record s { runtime_runs = d }) (update_record run_id f s.runtime_runs)

unfoldable pub get_runtime_run : String → Store → Option Run
unfolding get
get_runtime_run run_id s = get run_id s.runtime_runs

unfoldable pub insert_runtime_run : Run → Store → Run × Store
insert_runtime_run r s = (r, record s { runtime_runs = insert r.id r s.runtime_runs })

unfoldable pub insert_runtime_dead_letter : DeadLetter → Store → DeadLetter × Store
insert_runtime_dead_letter r s =
    (r, record s { runtime_dead_letters = insert r.id r s.runtime_dead_letters })

unfoldable pub insert_runtime_quota_reservation : Reservation → Store → Reservation × Store
insert_runtime_quota_reservation r s =
    (r, record s { runtime_quota_reservations = insert r.id r s.runtime_quota_reservations })

unfoldable pub insert_runtime_run_attempt : RunAttempt → Store → RunAttempt × Store
insert_runtime_run_attempt r s =
    (r, record s { runtime_run_attempts = insert r.id r s.runtime_run_attempts })

unfoldable pub insert_runtime_run_claim : RunClaim → Store → RunClaim × Store
insert_runtime_run_claim r s =
    (r, record s { runtime_run_claims = insert r.id r s.runtime_run_claims })

-- `claim.get("released_at") is None`
abbrev pub is_unreleased : RunClaim → Bool
is_unreleased c = elim c.released_at [ none ↦ true | some t ↦ false ]

-- `_active_claim_for_queue`
unfoldable pub active_claim_for_queue : String → Dict RunClaim → Option RunClaim
unfolding first_fit values
active_claim_for_queue queue_id claims =
    first_fit (λ c. c.queue_id == queue_id && is_unreleased c) (values claims)

-- `_tenant_running_count`
unfoldable pub tenant_running_count : String → Store → ℕ
tenant_running_count tenant s =
    count_values (λ item. item.tenant_id == tenant && is_held item.status) s.runtime_queue_items

-- `_global_running_count`
unfoldable pub global_running_count : Store → ℕ
global_running_count s = count_values (λ item. is_held item.status) s.runtime_queue_items
