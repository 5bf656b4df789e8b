-- ===== src/Runtime/Queue/Insertion.antt =====
-- The item that `enqueue` inserts, and what the insertion does to the number of waiting items.
use Prim.Native.Char.{Char}
use skill_centric_agent_syst.Base.{
  suc, ◌+◌, ◌≤◌, String, ◌≡◌, refl, sym, ap, ◌∙◌, Bool, false, Option, none, some, List, [], ◌∷◌,
  Dict, insert, count_values, tally, values, arith, Json, obj, Fields,
}
use skill_centric_agent_syst.Base.Outcome.{Outcome, ok, err}
use skill_centric_agent_syst.Base.Exec
use skill_centric_agent_syst.Base.Exec.{Exec, bind_inv, lift_inv}
use skill_centric_agent_syst.Runtime.Models.{QueueStatus}
use skill_centric_agent_syst.Runtime.Models.Slug.{slug_id}
use skill_centric_agent_syst.Runtime.Store.{
  Store, insert_runtime_queue_item, insert_new, find_same_key,
}
use skill_centric_agent_syst.Runtime.Store.Records.{QueueItem}
use skill_centric_agent_syst.Runtime.Queue.{Error}
use skill_centric_agent_syst.Runtime.Enforcement.Profile.{Containers}
use skill_centric_agent_syst.Runtime.Artifacts.Writing.{write_json}
use skill_centric_agent_syst.Runtime.FlightRecorder.Desk.{Desk, Recorder, within, write}
use skill_centric_agent_syst.Runtime.FlightRecorder.Keeps.{wrote_keeps}
use skill_centric_agent_syst.Composition.TaskAnalyzer.Types.{AnalyzedTask}
use skill_centric_agent_syst.Runtime.Queue.Enqueue.{
  Options, tenant_queued_count, new_item, write_context, key_of, store_task,
}

count_values-insert_le :
    (p : QueueItem → Bool) (k : String) (v : QueueItem) (d : Dict QueueItem)
    → count_values p (insert k v d) ≤ count_values p d + 1
unfolding count_values tally values insert
count_values-insert_le p k v [] = ground arith
count_values-insert_le p k v ((j, w) ∷ d) = ground (arith, count_values-insert_le p k v d)

-- An insertion adds at most one waiting item of a tenant.
pub queued_le :
    (tenant : String) (new : QueueItem) (s : Store)
    → tenant_queued_count tenant (insert_runtime_queue_item new s).1
      ≤ tenant_queued_count tenant s + 1
unfolding tenant_queued_count insert_runtime_queue_item
queued_le tenant new s = go (find_same_key new.idempotency_key (values s.runtime_queue_items))
  where
    go :
        (o : Option QueueItem)
        → tenant_queued_count tenant (insert_new new s o).1 ≤ tenant_queued_count tenant s + 1
    go none = count_values-insert_le _ new.id new s.runtime_queue_items
    go (some old) = omega arith

item_or : QueueItem → Outcome Error QueueItem → QueueItem
item_or item (ok x) = x
item_or item (err e) = item

returned_of :
    (new item : QueueItem) (y t : Desk) (s : Store)
    → y.store ≡ s
    → within (insert_runtime_queue_item new) y ≡ (ok item, t)
    → (item, t.store) ≡ insert_runtime_queue_item new s
unfolding item_or
returned_of new item y t s same h =
    ap (λ (p : Outcome Error QueueItem × Desk). (item_or item p.0, p.1.store)) (sym h)
    ∙ ap (insert_runtime_queue_item new) same

module _ (r : Recorder) (py : Containers) (is_word : Char → Bool) where
  -- The store after a write of artifacts.
  write_store :
      (parts : List String) (payload : Json) (redact : Bool) (d x : Desk) (uri : String)
      → write r parts payload redact d ≡ (ok uri, x)
      → x.store ≡ d.store
  write_store parts payload redact d x uri h =
      ap (λ (p : Outcome Error String × Desk). p.1.store) (sym h)
      ∙ wrote_keeps r (λ s. s ≡ d.store) (write_json r.artifacts parts payload redact d.files) d
          refl

  context_store :
      (queue_id : String) (o : Option Fields) (d x : Desk) (uri : Option String)
      → write_context r py is_word queue_id o d ≡ (ok uri, x)
      → x.store ≡ d.store
  unfolding Exec.◌>>=◌
  context_store queue_id none d x uri h =
      ap (λ (p : Outcome Error (Option String) × Desk). p.1.store) (sym h)
  context_store queue_id (some response) d x uri h =
      let (u, (y, wrote, last)) =
        bind_inv
          (write r ("queue" ∷ queue_id ∷ "composition-context-response" ∷ []) (obj response) false)
          _ d x uri h in
      ap (λ (p : Outcome Error (Option String) × Desk). p.1.store) (sym last)
      ∙ write_store ("queue" ∷ queue_id ∷ "composition-context-response" ∷ []) (obj response) false
          d y u wrote

  -- The item that the insertion was asked for.
  pub record Inserted (a : AnalyzedTask) (o : Options) (s : Store) (item : QueueItem) (t : Store)
      : Type 0 where
    pub new : QueueItem
    pub is_queued : new.status ≡ QueueStatus.queued
    pub of_tenant : new.tenant_id ≡ a.auth_claims.tenant_id
    pub under_key : new.idempotency_key ≡ some (key_of r py is_word a o)
    pub returned : (item, t) ≡ insert_runtime_queue_item new s

  -- Where `store_task` returns, its item was inserted.
  pub store_task-Inserted :
      (task : Fields) (o : Options) (a : AnalyzedTask) (d t : Desk) (item : QueueItem)
      → store_task r py is_word task o a d ≡ (ok item, t)
      → Inserted a o d.store item t.store
  unfolding store_task Exec.◌>>=◌
  store_task-Inserted task o a d t item h =
      let key = key_of r py is_word a o in
      let queue_id = slug_id r.artifacts.casefold "queue" key in
      let now = r.clock d.readings in
      let d1 = record d { readings = suc d.readings } in
      let (u, (x, wrote, h1)) =
        bind_inv (write r ("queue" ∷ queue_id ∷ "task-payload" ∷ []) (obj task) false) _ d1 t item
          h in
      let (c, (y, context, h2)) =
        bind_inv (write_context r py is_word queue_id o.composition_context_response) _ x t item
          h1 in
      let same =
        context_store queue_id o.composition_context_response x y c context
        ∙ write_store ("queue" ∷ queue_id ∷ "task-payload" ∷ []) (obj task) false d1 x u wrote in
      let new = new_item a o queue_id key now u c in
      record {
        new = new;
        is_queued = refl;
        of_tenant = refl;
        under_key = refl;
        returned = returned_of new item y t d.store same h2;
      }
