-- ===== src/Examples/Claims.antt =====
-- Claims, recoveries and releases on a queue of three items (runtime/storage_memory.py).
use skill_centric_agent_syst.Base.{
  String, ◌≡◌, refl, false, none, some, [], ◌∷◌, ℤ, pos, get, ◌⊎◌, arith, ◌+◌, unit, ◌==◌, text_le,
  compare_int, count_values, first_fit, modify, ◌≢◌, member, inl,
}
use skill_centric_agent_syst.Runtime.Models.{QueueStatus}
use skill_centric_agent_syst.Runtime.Store.Records.{QueueItem}
use skill_centric_agent_syst.Runtime.Store.{
  Store, empty, global_running_count, tenant_running_count,
}
use skill_centric_agent_syst.Runtime.Store.Claims.{
  ClaimRequest, ClaimBundle, claim_item, claim_attempt, claim_record, store_claim,
  claim_next_runtime_queue_attempt, tenant_has_room, candidates, is_candidate, compare_items, below,
}
use skill_centric_agent_syst.Runtime.Store.Claiming.{
  ItemsKeyed, Claimable, Claimed, claim_next_sound, claim_next_complete,
}
use skill_centric_agent_syst.Runtime.Store.Limits.{
  WithinLimits, claim_next-WithinLimits, claim_next_exclusive,
}
use skill_centric_agent_syst.Runtime.Store.Leases.{recover_stale_runtime_queue_items}
use skill_centric_agent_syst.Runtime.Store.Progress.{Serves, Wanted, recovered_is_served}
use skill_centric_agent_syst.Runtime.Store.Recovery.{RunOut}

abbrev pub fold : String → String
fold s = s

abbrev pub make_item : String → String → ℤ → QueueItem
make_item id tenant_id priority = record {
  id = id;
  task_id = "task";
  tenant_id = tenant_id;
  area_id = "area";
  environment = "dev";
  queue_name = "default";
  status = QueueStatus.queued;
  priority = priority;
  scheduled_at = "2026-01-01T00:00:00Z";
  attempts = 0;
  max_attempts = 3;
  claimed_by = none;
  claimed_at = none;
  claimed_until = none;
  lease_expires_at = none;
  heartbeat_at = none;
  attempt_id = none;
  task_payload_uri = "uri";
  composition_context_uri = none;
  run_id = none;
  last_error = none;
  idempotency_key = none;
  created_at = "2026-01-01T00:00:00Z";
  updated_at = "2026-01-01T00:00:00Z";
}

abbrev a : QueueItem
a = make_item "a" "acme" (pos 1)

abbrev b : QueueItem
b = make_item "b" "beta" (pos 5)

abbrev pub store : Store
store = record empty { runtime_queue_items = ("a", a) ∷ ("b", b) ∷ [] }

abbrev request : ClaimRequest
request = record {
  worker_id = "w1";
  claimed_at = "2026-01-01T00:01:00Z";
  lease_expires_at = "2026-01-01T00:06:00Z";
  tenant_running_limits = ("beta", 1) ∷ [];
  global_running_limit = some 2;
  allowed_tenant_ids = [];
  disabled_tenant_ids = [];
  environment = some "dev";
  queue_name = some "default";
}

-- The bundle and the store of a claim of an item.
abbrev bundle_of : QueueItem → ClaimBundle
bundle_of item = record {
  queue_item = claim_item fold request item;
  attempt = claim_attempt fold request item;
  claim = claim_record fold request item;
}

abbrev after_b : Store
after_b = store_claim fold request b store

abbrev after_a : Store
after_a = store_claim fold request a after_b

keyed : ItemsKeyed store
keyed = unfold get in (refl, refl, (refl, refl, tt))

first_claim : claim_next_runtime_queue_attempt fold request store ≡ (some (bundle_of b), after_b)
unfolding claim_next_runtime_queue_attempt global_running_count count_values first_fit candidates
    is_candidate text_le member compare_items compare_int tenant_has_room get tenant_running_count
first_claim = refl

second_claim : claim_next_runtime_queue_attempt fold request after_b ≡ (some (bundle_of a), after_a)
unfolding claim_next_runtime_queue_attempt store_claim global_running_count count_values modify
    claim_item first_fit candidates is_candidate text_le member tenant_has_room get
second_claim = refl

third_claim : claim_next_runtime_queue_attempt fold request after_a ≡ (none, after_a)
unfolding claim_next_runtime_queue_attempt store_claim global_running_count count_values modify
    claim_item
third_claim = refl

claim_next_sound_example : Claimed fold request store (bundle_of b) after_b
claim_next_sound_example =
    claim_next_sound fold request store after_b (bundle_of b) keyed first_claim

claim_next_complete_example :
    (after_a ≡ after_a)
    × ((below (global_running_count after_a) (some 2) ≡ false)
        ⊎ ((k : String) (item : QueueItem)
            → get k after_a.runtime_queue_items ≡ some item
            → ¬ Claimable request after_a item))
claim_next_complete_example = claim_next_complete fold request after_a after_a third_claim

claim_next_exclusive_example : (bundle_of b).queue_item.id ≢ (bundle_of a).queue_item.id
claim_next_exclusive_example =
    claim_next_exclusive fold request request store after_b after_a (bundle_of b) (bundle_of a)
      keyed first_claim second_claim

within : WithinLimits fold request store
unfolding global_running_count tenant_running_count count_values
within = record {
  all_tenants = λ limit e. ground arith;
  each_tenant = λ tenant limit e. ground arith;
}

claim_next-WithinLimits_example :
    (global_running_count after_b ≡ global_running_count store + 1)
    × ((tenant : String)
        → tenant_running_count tenant after_b
          ≡ tenant_running_count tenant store + unit ((bundle_of b).queue_item.tenant_id == tenant))
    × WithinLimits fold request after_b
claim_next-WithinLimits_example =
    claim_next-WithinLimits fold request store after_b (bundle_of b) keyed first_claim within

abbrev later : String
later = "2026-01-01T00:10:00Z"

abbrev held_b : QueueItem
held_b = claim_item fold request b

stored_b : get "b" after_b.runtime_queue_items ≡ some held_b
unfolding store_claim get modify
stored_b = refl

held_b-RunOut : RunOut later held_b
unfolding claim_item text_le
held_b-RunOut = record {
  held = inl refl;
  until = "2026-01-01T00:06:00Z";
  lease = refl;
  over = refl;
}

abbrev late : ClaimRequest
late = record request { claimed_at = later }

held_b-Wanted : Wanted fold late held_b
unfolding claim_item text_le member
held_b-Wanted = record {
  due = refl;
  allowed = refl;
  enabled = refl;
  environment = refl;
  queue_name = refl;
}

within_late : WithinLimits fold late after_b
within_late =
    let claimed =
      claim_next-WithinLimits fold request store after_b (bundle_of b) keyed first_claim within in
    record { all_tenants = claimed.2.all_tenants; each_tenant = claimed.2.each_tenant }

recovered_is_served_example :
    Serves (
      claim_next_runtime_queue_attempt fold late
        (recover_stale_runtime_queue_items later after_b).1)
recovered_is_served_example =
    recovered_is_served fold later "b" late after_b held_b stored_b held_b-RunOut held_b-Wanted
      within_late
