-- ===== src/Runtime/Store/Claims.antt =====
-- `claim_next_runtime_queue_attempt` of runtime/storage_memory.py: which waiting item a worker gets,
-- and the attempt and the claim that are recorded with it.
use Prim.Native.Nat.{Ordering}
use skill_centric_agent_syst.Base.{
  join, ℕ, ◌+◌, String, Bool, true, not, ◌&&◌, ◌||◌, Option, none, some, List, ◌==◌, if◌then◌else◌,
  leb, keep, first_fit, sort, member, is_empty, Dict, get, insert, modify, values, text_le,
  compare_texts, compare_int, then_by, not_gt,
}
use skill_centric_agent_syst.Runtime.Models.{QueueStatus, is_waiting}
use skill_centric_agent_syst.Runtime.Models.Slug.{slug_id, decimal}
use skill_centric_agent_syst.Runtime.Store.Records.{QueueItem, RunAttempt, RunClaim}
use skill_centric_agent_syst.Runtime.Store.{Store, tenant_running_count, global_running_count}

-- The arguments of a claim.
pub record ClaimRequest : Type 0 where
  pub worker_id : String
  pub claimed_at : String
  pub lease_expires_at : String
  pub tenant_running_limits : Dict ℕ
  pub global_running_limit : Option ℕ
  pub allowed_tenant_ids : List String
  pub disabled_tenant_ids : List String
  pub environment : Option String
  pub queue_name : Option String

-- What a claim returns: copies of the three records.
pub record ClaimBundle : Type 0 where
  pub queue_item : QueueItem
  pub attempt : RunAttempt
  pub claim : RunClaim

-- `wanted is None or value == wanted`
abbrev pub matches : Option String → String → Bool
matches none value = true
matches (some wanted) value = value == wanted

-- The filter of the candidates.
unfoldable pub is_candidate : ClaimRequest → QueueItem → Bool
is_candidate r item =
    is_waiting item.status
    && text_le item.scheduled_at r.claimed_at
    && (is_empty r.allowed_tenant_ids || member item.tenant_id r.allowed_tenant_ids)
    && not (member item.tenant_id r.disabled_tenant_ids)
    && matches r.environment item.environment
    && matches r.queue_name item.queue_name

-- The sort key: priority from the highest, then the times, then the identifier.
unfoldable pub compare_items : QueueItem → QueueItem → Ordering
compare_items a b = then_by (compare_int b.priority a.priority) (
    then_by (compare_texts a.scheduled_at b.scheduled_at)
      (then_by (compare_texts a.created_at b.created_at) (compare_texts a.id b.id)))

abbrev pub item_le : QueueItem → QueueItem → Bool
item_le a b = not_gt (compare_items a b)

unfoldable pub candidates : ClaimRequest → Store → List QueueItem
unfolding keep sort values
candidates r s = sort item_le (keep (is_candidate r) (values s.runtime_queue_items))

-- `limit is None or running < limit`
abbrev pub below : ℕ → Option ℕ → Bool
below running none = true
below running (some limit) = not (leb limit running)

-- The tenant of the item may run one more.
unfoldable pub tenant_has_room : ClaimRequest → Store → QueueItem → Bool
tenant_has_room r s item =
    below (tenant_running_count item.tenant_id s) (get item.tenant_id r.tenant_running_limits)

module _ (casefold : String → String) where
  -- The identifiers, the updated item, the attempt and the claim.
  unfoldable pub claim_item : ClaimRequest → QueueItem → QueueItem
  claim_item r item =
      let attempts = item.attempts + 1 in
      record item {
        status = QueueStatus.claiming;
        attempts = attempts;
        claimed_by = some r.worker_id;
        claimed_at = some r.claimed_at;
        lease_expires_at = some r.lease_expires_at;
        claimed_until = some r.lease_expires_at;
        heartbeat_at = some r.claimed_at;
        attempt_id =
            some (slug_id casefold "attempt" (join item.id (join "-attempt-" (decimal attempts))));
        run_id =
            some (slug_id casefold "run" (join item.task_id (join "-attempt-" (decimal attempts))));
        updated_at = r.claimed_at;
      }

  unfoldable pub claim_attempt : ClaimRequest → QueueItem → RunAttempt
  claim_attempt r item =
      let attempts = item.attempts + 1 in
      record {
        id = slug_id casefold "attempt" (join item.id (join "-attempt-" (decimal attempts)));
        queue_id = item.id;
        run_id = slug_id casefold "run" (join item.task_id (join "-attempt-" (decimal attempts)));
        tenant_id = item.tenant_id;
        attempt_number = attempts;
        status = QueueStatus.running;
        started_at = r.claimed_at;
        completed_at = none;
        stop_reason = none;
        profile_id = none;
        profile_sha256 = none;
      }

  unfoldable pub claim_record : ClaimRequest → QueueItem → RunClaim
  claim_record r item = record {
    id =
        slug_id casefold "claim"
          (join item.id (join "-" (join r.worker_id (join "-" (decimal (item.attempts + 1))))));
    queue_id = item.id;
    worker_id = r.worker_id;
    tenant_id = item.tenant_id;
    claimed_at = r.claimed_at;
    claimed_until = r.lease_expires_at;
    heartbeat_at = r.claimed_at;
    released_at = none;
    release_reason = none;
  }

  -- The store once `item` is claimed.
  unfoldable pub store_claim : ClaimRequest → QueueItem → Store → Store
  store_claim r item s =
      let attempt = claim_attempt r item in
      let claim = claim_record r item in
      record s {
        runtime_queue_items = modify item.id (claim_item r) s.runtime_queue_items;
        runtime_run_attempts = insert attempt.id attempt s.runtime_run_attempts;
        runtime_run_claims = insert claim.id claim s.runtime_run_claims;
      }

  unfoldable pub claim_chosen : ClaimRequest → Store → Option QueueItem → Option ClaimBundle × Store
  claim_chosen r s none = (none, s)
  claim_chosen r s (some item) = (
    some (record {
      queue_item = claim_item r item;
      attempt = claim_attempt r item;
      claim = claim_record r item;
    }),
    store_claim r item s,
  )

  unfoldable pub claim_next_runtime_queue_attempt :
      ClaimRequest → Store → Option ClaimBundle × Store
  unfolding claim_chosen
  claim_next_runtime_queue_attempt r s =
      if below (global_running_count s) r.global_running_limit
      then claim_chosen r s (first_fit (tenant_has_room r s) (candidates r s))
      else (none, s)

  -- `claim_next_runtime_queue_item`
  unfoldable pub claim_next_runtime_queue_item : ClaimRequest → Store → Option QueueItem × Store
  claim_next_runtime_queue_item r s =
      let (bundle, s') = claim_next_runtime_queue_attempt r s in
      (elim bundle [ none ↦ none | some b ↦ some b.queue_item ], s')
