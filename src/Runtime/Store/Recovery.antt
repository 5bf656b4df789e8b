-- ===== src/Runtime/Store/Recovery.antt =====
-- What the recovery of stale claims and the release of claims leave behind.
use skill_centric_agent_syst.Base.{
  String, ◌≡◌, refl, subst, true, false, ◌&&◌, ◌⊎◌, text_le, Option, none, some, [], ◌∷◌, arith,
  ◌==◌, if◌then◌else◌, Dict, get, values, update_found, first_fit, Bool-cases, inl, inr,
}
use skill_centric_agent_syst.Runtime.Models.{QueueStatus}
use skill_centric_agent_syst.Runtime.Store.Records.{QueueItem, RunClaim}
use skill_centric_agent_syst.Runtime.Store.{Store, is_unreleased, active_claim_for_queue}
use skill_centric_agent_syst.Runtime.Store.Leases.{
  text_or, is_stale, recover_item, recover_items, recover_stale_runtime_queue_items, release,
  release_claims, release_runtime_queue_claims,
}

-- What recovery makes of one item.
abbrev pub recovered : String → QueueItem → QueueItem
recovered now item = if is_stale now item then recover_item now item else item

recover_items-get :
    (now k : String) (d : Dict QueueItem) (claims : Dict RunClaim)
    → get k (recover_items now d claims).1 ≡ update_found (recovered now) (get k d)
unfolding get recover_items
recover_items-get now k [] claims = refl
recover_items-get now k ((j, item) ∷ d) claims = elim (Bool-cases (is_stale now item)) [
  | inl stale ↦ elim (Bool-cases (k == j)) [
    | inl here ↦ rw (stale, here) (rw stale)
    | inr there ↦ rw (stale, there) (recover_items-get now k d _)
  ]
  | inr fresh ↦ elim (Bool-cases (k == j)) [
    | inl here ↦ rw (fresh, here) (rw fresh)
    | inr there ↦ rw (fresh, there) (recover_items-get now k d claims)
  ]
]

-- What is stored of an item after a recovery.
pub recover_stale-get :
    (now k : String) (s : Store)
    → get k (recover_stale_runtime_queue_items now s).1.runtime_queue_items
      ≡ update_found (recovered now) (get k s.runtime_queue_items)
unfolding recover_stale_runtime_queue_items
recover_stale-get now k s = recover_items-get now k s.runtime_queue_items s.runtime_run_claims

-- The item is claimed or running, and the end of its lease is not after `now`.
pub record RunOut (now : String) (item : QueueItem) : Type 0 where
  pub held : (item.status ≡ QueueStatus.claiming) ⊎ (item.status ≡ QueueStatus.running)
  pub until : String
  pub lease : text_or item.claimed_until item.lease_expires_at ≡ some until
  pub over : text_le until now ≡ true

-- The item waits for another attempt, with no worker and no lease, and is otherwise the old one.
pub record Waits (old new : QueueItem) : Type 0 where
  pub waits : new.status ≡ QueueStatus.retry_scheduled
  pub no_worker : (new.claimed_by ≡ none) × (new.claimed_at ≡ none)
  pub no_lease :
      (new.claimed_until ≡ none) × (new.lease_expires_at ≡ none) × (new.heartbeat_at ≡ none)
  pub same_task :
      (new.id ≡ old.id)
      × (new.tenant_id ≡ old.tenant_id)
      × (new.task_payload_uri ≡ old.task_payload_uri)
      × (new.idempotency_key ≡ old.idempotency_key)
  pub same_turn :
      (new.priority ≡ old.priority)
      × (new.scheduled_at ≡ old.scheduled_at)
      × (new.attempts ≡ old.attempts)
      × (new.max_attempts ≡ old.max_attempts)

pub RunOut-stale : (now : String) (item : QueueItem) → RunOut now item → is_stale now item ≡ true
unfolding is_stale
RunOut-stale now item h = elim h.held [
  | inl claiming ↦ rw (claiming, h.lease, h.over) refl
  | inr running ↦ rw (running, h.lease, h.over) refl
]

-- What a recovery does to an item.
abbrev pub Recovers : String → QueueItem → QueueItem → Type 0
Recovers now old new = (RunOut now old × Waits old new) ⊎ ((¬ RunOut now old) × (new ≡ old))

recovered_fresh : (now : String) (item : QueueItem) → is_stale now (recovered now item) ≡ false
unfolding is_stale
recovered_fresh now item = ground arith

fresh_of :
    (now : String) (item : QueueItem) (o : Option QueueItem)
    → update_found (recovered now) o ≡ some item
    → is_stale now item ≡ false
fresh_of now item none h = cc
fresh_of now item (some i) h =
    subst (λ x. is_stale now x ≡ false) (ground arith) (recovered_fresh now i)

-- After a recovery no item is stale, so a second one at the same time recovers nothing.
pub recover_stale_none_left :
    (now k : String) (s : Store) (item : QueueItem)
    → get k (recover_stale_runtime_queue_items now s).1.runtime_queue_items ≡ some item
    → is_stale now item ≡ false
recover_stale_none_left now k s item h =
    fresh_of now item (get k s.runtime_queue_items) (rw recover_stale-get at h)

release-get :
    (queue_id at reason : String) (claims : Dict RunClaim)
    → active_claim_for_queue queue_id (release_claims queue_id at reason claims).1 ≡ none
unfolding active_claim_for_queue release_claims first_fit values
release-get q at reason [] = refl
release-get q at reason ((k, c) ∷ rest) = ground (arith, release-get q at reason rest)

release-others :
    (queue_id at reason k : String) (claims : Dict RunClaim)
    → get k (release_claims queue_id at reason claims).1
      ≡ update_found
          (λ c. if c.queue_id == queue_id && is_unreleased c then release at reason c else c)
          (get k claims)
unfolding release_claims get
release-others q at reason k [] = refl
release-others q at reason k ((j, c) ∷ rest) = ground (arith, release-others q at reason k rest)

-- Once the claims of an item are released none is active; and every claim of another item, and
-- every claim released before, is as it was.
pub release_claims_lem :
    (queue_id at reason : String) (s : Store)
    → let t = (release_runtime_queue_claims queue_id at reason s).1 in
      (active_claim_for_queue queue_id t.runtime_run_claims ≡ none)
      × ((k : String)
          → get k t.runtime_run_claims
            ≡ update_found
                (λ c. if c.queue_id == queue_id && is_unreleased c then release at reason c else c)
                (get k s.runtime_run_claims))
unfolding release_runtime_queue_claims
release_claims_lem q at reason s = (
  release-get q at reason s.runtime_run_claims,
  λ k. release-others q at reason k s.runtime_run_claims,
)
