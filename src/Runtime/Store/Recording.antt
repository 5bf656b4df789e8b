-- ===== src/Runtime/Store/Recording.antt =====
-- Workers that record events at the same time. To record an event is two calls of the store, each
-- under its lock: one hands out an index, a later one inserts the event, so the calls of several
-- workers mix. A trace is any such sequence from the empty store.
use skill_centric_agent_syst.Base.{
  ℕ, ◌+◌, ◌≤◌, String, ◌≡◌, refl, Bool, ◌&&◌, Option, none, some, List, [], ◌∷◌, ◌++◌, arith, ◌==◌,
  ltb, nat_eq, tally, tally-append, get, insert, get-insert, eq_iff, eq_sym, eq_refl, unit, Dict,
  Bool-cases, inl, inr,
}
use skill_centric_agent_syst.Runtime.Store.Records.{Event}
use skill_centric_agent_syst.Runtime.Store.{Store, empty}
use skill_centric_agent_syst.Runtime.Store.Events.{
  next_index, next_free, allocate_runtime_event_index, find_event, insert_runtime_event,
}

-- The store after some calls, and the indices that were handed out and not yet used.
pub data Trace : Store → List (String × ℕ) → Type 0 where
  start : Trace empty []
  allocated :
      {s : Store} {pending : List (String × ℕ)} (run : String)
      → Trace s pending
      → Trace
          (allocate_runtime_event_index run s).1
          ((run, (allocate_runtime_event_index run s).0) ∷ pending)
  recorded :
      {s : Store} (before after : List (String × ℕ)) (e : Event)
      → Trace s (before ++ ((e.run_id, e.event_index) ∷ after))
      → Trace (insert_runtime_event e s).1 (before ++ after)
  -- a call that touches neither the events nor their counters
  elsewhere :
      {s : Store} {pending : List (String × ℕ)} (t : Store)
      → t.runtime_events ≡ s.runtime_events
      → t.event_indices ≡ s.event_indices
      → Trace s pending
      → Trace t pending

abbrev pub is_at : String → ℕ → Event → Bool
is_at run i e = e.run_id == run && nat_eq e.event_index i

abbrev pub is_pair : String → ℕ → (String × ℕ) → Bool
is_pair run i x = x.0 == run && nat_eq x.1 i

-- How often an index is stored or handed out, and how often it may be.
abbrev uses : String → ℕ → Store → List (String × ℕ) → ℕ
uses run i s pending = tally (is_at run i) s.runtime_events + tally (is_pair run i) pending

abbrev room : Option ℕ → ℕ → ℕ
room none i = 0
room (some n) i = unit (ltb i n)

insert-uses :
    (run : String) (i : ℕ) (e : Event) (s : Store)
    → tally (is_at run i) (insert_runtime_event e s).1.runtime_events
      ≤ tally (is_at run i) s.runtime_events + unit (is_at run i e)
unfolding insert_runtime_event tally
insert-uses run i e s = go (find_event e.run_id e.idempotency_key s.runtime_events) refl
  where
    go :
        (o : Option Event)
        → find_event e.run_id e.idempotency_key s.runtime_events ≡ o
        → tally (is_at run i) (insert_runtime_event e s).1.runtime_events
          ≤ tally (is_at run i) s.runtime_events + unit (is_at run i e)
    go none h = rw (h, tally-append) (ground arith)
    go (some x) h = rw h (omega arith)

insert-indices :
    (e : Event) (s : Store) → (insert_runtime_event e s).1.event_indices ≡ s.event_indices
unfolding insert_runtime_event
insert-indices e s = ground arith

next_room :
    (o : Option ℕ) (free i m : ℕ)
    → m ≤ room o i
    → m + unit (nat_eq (next_index o free) i) ≤ room (some (next_index o free + 1)) i
next_room none free i m h = ground arith
next_room (some n) free i m h = ground arith

allocated-room :
    (run other : String) (i free m : ℕ) (indices : Dict ℕ)
    → m ≤ room (get run indices) i
    → let n = next_index (get other indices) free in
      m + unit (is_pair run i (other, n)) ≤ room (get run (insert other (n + 1) indices)) i
allocated-room run other i free m indices h =
    rw (get-insert, eq_sym run other)
      (elim (Bool-cases (other == run)) [
        | inl same ↦
            rw ((eq_iff other run).0 same, eq_refl) (next_room (get run indices) free i m h)
        | inr apart ↦ rw apart (omega (arith, h))
      ])

-- An index that leaves the pending ones makes room for the event that has it.
tally-moved :
    (p : String × ℕ → Bool) (x : String × ℕ) (before after : List (String × ℕ))
    → tally p (before ++ after) + unit (p x) ≡ tally p (before ++ (x ∷ after))
unfolding tally
tally-moved p x before after = rw (tally-append, tally-append) (ground arith)

bounded :
    {s : Store} {pending : List (String × ℕ)} (run : String) (i : ℕ)
    → Trace s pending
    → uses run i s pending ≤ room (get run s.event_indices) i
unfolding allocate_runtime_event_index tally get
bounded run i start = omega arith
bounded run i (allocated {s} {pending} other t) =
    let first =
      next_free (λ (e : Event). e.run_id) (λ (e : Event). e.event_index) other s.runtime_events in
    let grown =
      allocated-room run other i first (uses run i s pending) s.event_indices (bounded run i t) in
    ground (arith, grown)
bounded run i (recorded {s} before after e t) = rw (insert-indices e s) (
    omega (
      arith,
      bounded run i t,
      insert-uses run i e s,
      tally-moved (is_pair run i) (e.run_id, e.event_index) before after,
    ))
bounded run i (elsewhere t events indices h) = rw (events, indices) (bounded run i h)

room_one : (o : Option ℕ) (i : ℕ) → room o i ≤ 1
room_one none i = omega arith
room_one (some n) i = ground arith

-- However the calls of several workers mix, no two stored events of one run have the same index,
-- and no index that is handed out and not yet used is that of a stored event.
pub recorded_once :
    (s : Store) (pending : List (String × ℕ)) (run : String) (i : ℕ)
    → Trace s pending
    → tally (is_at run i) s.runtime_events + tally (is_pair run i) pending ≤ 1
recorded_once s pending run i t =
    omega (arith, bounded run i t, room_one (get run s.event_indices) i)
