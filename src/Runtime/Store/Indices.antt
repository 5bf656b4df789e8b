-- ===== src/Runtime/Store/Indices.antt =====
-- Indices are never handed out twice, and an insertion under a key that is there changes nothing.
use skill_centric_agent_syst.Base.{
  ℕ, ◌+◌, ◌<◌, ◌≤◌, String, ◌≡◌, refl, Bool, true, false, ◌&&◌, Option, none, some, List, [], ◌∷◌,
  ◌++◌, arith, ◌==◌, if◌then◌else◌, first_fit, Dict, get, insert, get-insert, values, eq_iff,
  eq_refl, eq_sym, Bool-cases, inl, inr, All,
}
use skill_centric_agent_syst.Runtime.Store.Records.{QueueItem, Event}
use skill_centric_agent_syst.Runtime.Store.{
  Store, has_text, insert_runtime_queue_item, find_same_key,
}
use skill_centric_agent_syst.Runtime.Store.Events.{
  next_free, next_index, allocate_runtime_event_index, find_event, insert_runtime_event,
}

-- An index that is below the counter of the run, where the run has one.
abbrev pub Below : Option ℕ → ℕ → Type 0
Below none i = Unit {0}
Below (some n) i = i < n

-- Every stored event has an index below the counter of its run.
abbrev pub IndicesBelow : Store → Type 0
IndicesBelow s =
    All (λ (e : Event). Below (get e.run_id s.event_indices) e.event_index) s.runtime_events

-- An event of the run has a smaller index.
abbrev pub IsBefore : String → ℕ → Event → Type 0
IsBefore run n e = if e.run_id == run then e.event_index < n else Unit {0}

free : String → List Event → ℕ
unfolding next_free
free run events = next_free (λ (e : Event). e.run_id) (λ (e : Event). e.event_index) run events

IsBefore-up :
    (run : String) (n m : ℕ) (events : List Event)
    → n ≤ m
    → All (IsBefore run n) events
    → All (IsBefore run m) events
IsBefore-up run n m [] le h = tt
IsBefore-up run n m (e ∷ es) le h = elim (Bool-cases (e.run_id == run)) [
  | inl same ↦ rw same (omega (arith, le, rw same at h.0), IsBefore-up run n m es le h.1)
  | inr other ↦ rw other (tt, IsBefore-up run n m es le h.1)
]

rest_le : (run : String) (e : Event) (es : List Event) → free run es ≤ free run (e ∷ es)
unfolding free
rest_le run e es = ground arith

head-IsBefore : (run : String) (e : Event) (es : List Event) → IsBefore run (free run (e ∷ es)) e
unfolding free
head-IsBefore run e es = elim (Bool-cases (e.run_id == run)) [
  | inl same ↦ rw same (ground arith)
  | inr other ↦ rw other tt
]

free_above : (run : String) (events : List Event) → All (IsBefore run (free run events)) events
free_above run [] = tt
free_above run (e ∷ es) = (
  head-IsBefore run e es,
  IsBefore-up run (free run es) (free run (e ∷ es)) es (rest_le run e es) (free_above run es),
)

known_above :
    (run : String) (n : ℕ) (indices : Dict ℕ) (events : List Event)
    → get run indices ≡ some n
    → All (λ (e : Event). Below (get e.run_id indices) e.event_index) events
    → All (IsBefore run n) events
known_above run n indices [] g h = tt
known_above run n indices (e ∷ es) g h = elim (Bool-cases (e.run_id == run)) [
  | inl same ↦
      rw same (rw ((eq_iff e.run_id run).0 same, g) at h.0, known_above run n indices es g h.1)
  | inr other ↦ rw other (tt, known_above run n indices es g h.1)
]

next_above :
    (run : String) (indices : Dict ℕ) (events : List Event)
    → All (λ (e : Event). Below (get e.run_id indices) e.event_index) events
    → All (IsBefore run (next_index (get run indices) (free run events))) events
next_above run indices events h = go (get run indices) refl
  where
    go :
        (o : Option ℕ)
        → get run indices ≡ o
        → All (IsBefore run (next_index o (free run events))) events
    go none e = free_above run events
    go (some n) e = known_above run n indices events e h

-- Counting one run on keeps the events of every run below their counters.
stays-Below :
    (run : String) (n : ℕ) (indices : Dict ℕ) (events : List Event)
    → All (λ (e : Event). Below (get e.run_id indices) e.event_index) events
    → All (IsBefore run n) events
    → All (λ (e : Event). Below (get e.run_id (insert run (n + 1) indices)) e.event_index) events
stays-Below run n indices [] h b = tt
stays-Below run n indices (e ∷ es) h b = (
  rw get-insert (elim (Bool-cases (e.run_id == run)) [
    | inl same ↦ rw same (omega (arith, rw same at b.0))
    | inr other ↦ rw other h.0
  ]),
  stays-Below run n indices es h.1 b.1,
)

-- The index that is handed out is above every index of the stored events of the run; the next one
-- of the run is the successor, whatever another run is given in between; and every stored event
-- stays below the counter of its run.
pub allocate_event_fresh :
    (run other : String) (s : Store)
    → IndicesBelow s
    → (other == run) ≡ false
    → let (n, t) = allocate_runtime_event_index run s in
      All (IsBefore run n) s.runtime_events
      × IndicesBelow t
      × ((allocate_runtime_event_index run (allocate_runtime_event_index other t).1).0 ≡ n + 1)
unfolding allocate_runtime_event_index free
allocate_event_fresh run other s h ne =
    let n = next_index (get run s.event_indices) (free run s.runtime_events) in
    let above = next_above run s.event_indices s.runtime_events h in
    (
      above,
      stays-Below run n s.event_indices s.runtime_events h above,
      rw (get-insert, eq_sym run other, ne, get-insert, eq_refl) refl,
    )

module _ {A : Type 0} (p : A → Bool) where
  first_fit-append :
      (xs : List A) (a : A)
      → first_fit p xs ≡ none
      → p a ≡ true
      → first_fit p (xs ++ (a ∷ [])) ≡ some a
  unfolding first_fit
  first_fit-append [] a n h = rw h refl
  first_fit-append (x ∷ xs) a n h = ground (arith, first_fit-append xs a)

  first_fit-insert :
      (k : String) (d : Dict A) (a : A)
      → first_fit p (values d) ≡ none
      → p a ≡ true
      → first_fit p (values (insert k a d)) ≡ some a
  unfolding first_fit values insert
  first_fit-insert k [] a n h = rw h refl
  first_fit-insert k ((j, v) ∷ d) a n h = ground (arith, first_fit-insert k d a)

find_event-append :
    (a : Event) (events : List Event)
    → find_event a.run_id a.idempotency_key events ≡ none
    → find_event a.run_id a.idempotency_key (events ++ (a ∷ [])) ≡ some a
unfolding find_event
find_event-append a events n =
    first_fit-append (λ e. e.run_id == a.run_id && e.idempotency_key == a.idempotency_key) events a
      n (rw (eq_refl, eq_refl) refl)

-- An event that is inserted under the run and the key of an event inserted before is the earlier
-- one, and nothing changes.
pub insert_event_twice :
    (a b : Event) (s : Store)
    → b.run_id ≡ a.run_id
    → b.idempotency_key ≡ a.idempotency_key
    → let (stored, t) = insert_runtime_event a s in insert_runtime_event b t ≡ (stored, t)
unfolding insert_runtime_event
insert_event_twice a b s run key = go (find_event a.run_id a.idempotency_key s.runtime_events) refl
  where
    go :
        (o : Option Event)
        → find_event a.run_id a.idempotency_key s.runtime_events ≡ o
        → insert_runtime_event b (insert_runtime_event a s).1 ≡ insert_runtime_event a s
    go none e = simp (run, key, e, find_event-append a s.runtime_events e) refl
    go (some x) e = simp (run, key, e) refl

pub find_same_key-insert :
    (a : QueueItem) (key : String) (d : Dict QueueItem)
    → a.idempotency_key ≡ some key
    → find_same_key (some key) (values d) ≡ none
    → find_same_key (some key) (values (insert a.id a d)) ≡ some a
find_same_key-insert a key d ka n =
    first_fit-insert (λ x. has_text x.idempotency_key key) a.id d a n (rw ka (eq_refl key))

-- The same of queue items with an idempotency key: the second is not enqueued.
pub insert_queue_item_twice :
    (a b : QueueItem) (key : String) (s : Store)
    → a.idempotency_key ≡ some key
    → b.idempotency_key ≡ some key
    → let (stored, t) = insert_runtime_queue_item a s in insert_runtime_queue_item b t ≡ (stored, t)
unfolding insert_runtime_queue_item
insert_queue_item_twice a b key s ka kb =
    go (find_same_key (some key) (values s.runtime_queue_items)) refl
  where
    go :
        (o : Option QueueItem)
        → find_same_key (some key) (values s.runtime_queue_items) ≡ o
        → insert_runtime_queue_item b (insert_runtime_queue_item a s).1
          ≡ insert_runtime_queue_item a s
    go none e = simp (ka, kb, e, find_same_key-insert a key s.runtime_queue_items ka e) refl
    go (some x) e = simp (ka, kb, e) refl
