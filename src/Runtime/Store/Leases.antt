-- ===== src/Runtime/Store/Leases.antt =====
-- The methods of runtime/storage_memory.py that extend, recover and release what workers hold.
use skill_centric_agent_syst.Base.{
  String, Bool, false, ◌&&◌, Option, none, some, List, [], ◌∷◌, ◌==◌, if◌then◌else◌, Dict, modify,
  text_le,
}
use skill_centric_agent_syst.Runtime.Models.{QueueStatus, is_held}
use skill_centric_agent_syst.Runtime.Store.Records.{QueueItem, RunClaim}
use skill_centric_agent_syst.Runtime.Store.{
  Store, is_unreleased, active_claim_for_queue, update_runtime_queue_item,
}

-- `claim.update({"released_at": …, "release_reason": …})`
abbrev pub release : String → String → RunClaim → RunClaim
release at reason c = record c { released_at = some at; release_reason = some reason }

-- The update of the claim that is found, if one is.
abbrev pub update_found_claim :
    (RunClaim → RunClaim) → Option RunClaim → Dict RunClaim → Dict RunClaim
update_found_claim f none claims = claims
update_found_claim f (some c) claims = modify c.id f claims

-- The fields of a heartbeat.
pub record Heartbeat : Type 0 where
  pub heartbeat_at : String
  pub claimed_until : String
  pub lease_expires_at : String
  pub updated_at : String

abbrev pub beat_item : Heartbeat → QueueItem → QueueItem
beat_item h item = record item {
  heartbeat_at = some h.heartbeat_at;
  claimed_until = some h.claimed_until;
  lease_expires_at = some h.lease_expires_at;
  updated_at = h.updated_at;
}

abbrev pub beat_claim : Heartbeat → RunClaim → RunClaim
beat_claim h c = record c { heartbeat_at = h.heartbeat_at; claimed_until = h.claimed_until }

abbrev beat_claims : String → Heartbeat → Option (QueueItem × Store) → Option (QueueItem × Store)
beat_claims queue_id h none = none
beat_claims queue_id h (some (item, s)) = some (
  item,
  record s {
    runtime_run_claims =
        update_found_claim (beat_claim h) (active_claim_for_queue queue_id s.runtime_run_claims)
          s.runtime_run_claims;
  },
)

unfoldable pub heartbeat_runtime_queue_item :
    String → Heartbeat → Store → Option (QueueItem × Store)
heartbeat_runtime_queue_item queue_id h s =
    beat_claims queue_id h (update_runtime_queue_item queue_id (beat_item h) s)

-- `a or b` of two optional texts
abbrev pub text_or : Option String → Option String → Option String
text_or none b = b
text_or (some a) b = if a == "" then b else some a

-- The lease of the item, if it has one, has run out: `not (str(claimed_until) > now)`.
abbrev pub lease_over : String → Option String → Bool
lease_over now none = false
lease_over now (some until) = text_le until now

-- The item is held under a lease that has run out.
unfoldable pub is_stale : String → QueueItem → Bool
is_stale now item =
    is_held item.status && lease_over now (text_or item.claimed_until item.lease_expires_at)

abbrev pub recover_item : String → QueueItem → QueueItem
recover_item now item = record item {
  status = QueueStatus.retry_scheduled;
  claimed_by = none;
  claimed_at = none;
  claimed_until = none;
  lease_expires_at = none;
  heartbeat_at = none;
  updated_at = now;
  last_error = some "Stale runtime queue claim recovered.";
}

-- The loop over the items: those recovered, the items and the claims after it.
unfoldable pub recover_items :
    String → Dict QueueItem → Dict RunClaim → List QueueItem × Dict QueueItem × Dict RunClaim
recover_items now [] claims = ([], [], claims)
recover_items now ((k, item) ∷ rest) claims =
    let stale = is_stale now item in
    let claims' =
      if stale
      then update_found_claim (release now "stale_recovered")
          (active_claim_for_queue item.id claims) claims
      else claims in
    let after = recover_items now rest claims' in
    if stale
    then (recover_item now item ∷ after.0, (k, recover_item now item) ∷ after.1, after.2)
    else (after.0, (k, item) ∷ after.1, after.2)

unfoldable pub recover_stale_runtime_queue_items : String → Store → List QueueItem × Store
unfolding recover_items
recover_stale_runtime_queue_items now s =
    let after = recover_items now s.runtime_queue_items s.runtime_run_claims in
    (after.0, record s { runtime_queue_items = after.1; runtime_run_claims = after.2 })

-- The claims that are released, and all claims after.
unfoldable pub release_claims :
    String → String → String → Dict RunClaim → List RunClaim × Dict RunClaim
release_claims queue_id at reason [] = ([], [])
release_claims queue_id at reason ((k, c) ∷ rest) =
    let after = release_claims queue_id at reason rest in
    if c.queue_id == queue_id && is_unreleased c
    then (release at reason c ∷ after.0, (k, release at reason c) ∷ after.1)
    else (after.0, (k, c) ∷ after.1)

unfoldable pub release_runtime_queue_claims :
    String → String → String → Store → List RunClaim × Store
unfolding release_claims
release_runtime_queue_claims queue_id at reason s =
    let after = release_claims queue_id at reason s.runtime_run_claims in
    (after.0, record s { runtime_run_claims = after.1 })
