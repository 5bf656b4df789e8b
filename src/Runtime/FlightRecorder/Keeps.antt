-- ===== src/Runtime/FlightRecorder/Keeps.antt =====
-- What the methods of a recorder keep: any property of the store that the store's own methods keep.
use skill_centric_agent_syst.Base.{ℕ, String, Bool-cases, inl, inr, Option, none, some, Json}
use skill_centric_agent_syst.Base.Outcome.{Outcome, ok, err}
use skill_centric_agent_syst.Base.Exec
use skill_centric_agent_syst.Base.Exec.{Exec, continue, lift}
use skill_centric_agent_syst.Runtime.Artifacts.Chunks.{Files}
use skill_centric_agent_syst.Runtime.Artifacts.Writing.{write_json}
use skill_centric_agent_syst.Runtime.Store.{Store}
use skill_centric_agent_syst.Runtime.Queue.{Error}
use skill_centric_agent_syst.Runtime.FlightRecorder.Desk.{Desk, Recorder, Report, write, wrote}
use skill_centric_agent_syst.Runtime.FlightRecorder.Events.{
  is_null, payload_parts, write_payload, write_event_payload, check_report,
}

-- What holds before a method holds in another form after it, whether it returns or raises.
abbrev pub Leads : {A : Type 0} → (Desk → Type 0) → Exec Error Desk A → (Desk → Type 0) → Type 0
Leads P m Q = (d : Desk) → P d → Q (m d).1

module _ {A B : Type 0} (P Q R : Desk → Type 0) where
  continue-Leads :
      (f : A → Exec Error Desk B) (r : Outcome Error A) (d : Desk)
      → ((x : Desk) → Q x → R x)
      → ((a : A) → Leads Q (f a) R)
      → Q d
      → R (continue r f d).1
  continue-Leads f (ok a) d wide next q = next a d q
  continue-Leads f (err e) d wide next q = wide d q

  -- A sequence; the first part may raise.
  pub then_leads :
      (m : Exec Error Desk A) (f : A → Exec Error Desk B)
      → Leads P m Q
      → ((x : Desk) → Q x → R x)
      → ((a : A) → Leads Q (f a) R)
      → Leads P (Exec.◌>>=◌ m f) R
  unfolding Exec.◌>>=◌
  then_leads m f first wide next d p = continue-Leads f (m d).0 (m d).1 wide next (first d p)

-- A property of the store of a desk.
abbrev pub On : (Store → Type 0) → Desk → Type 0
On P d = P d.store

module _ (r : Recorder) (P : Store → Type 0) where
  pub wrote_keeps : (o : Option (String × Files)) → Leads (On P) (wrote o) (On P)
  wrote_keeps none d t = t
  wrote_keeps (some w) d t = t

  pub payload_keeps :
      (run : String) (i : ℕ) (report : Report) (slot : String) (payload : Json)
      → Leads (On P) (write_event_payload r run i report slot payload) (On P)
  unfolding write_event_payload write_payload
  payload_keeps run i report slot payload d t = elim (Bool-cases (is_null payload)) [
    | inl absent ↦ rw absent t
    | inr present ↦ rw present (
        then_leads (On P) (On P) (On P)
          (write r (payload_parts r run i report slot) payload report.redact) _
          (λ e.
            wrote_keeps
              (write_json r.artifacts (payload_parts r run i report slot) payload report.redact
                e.files)
              e)
          (λ e u. u) (λ uri e u. u) d t)
  ]

  pub check_keeps : (report : Report) → Leads (On P) (check_report r report) (On P)
  unfolding check_report
  check_keeps report =
      then_leads _ (On P) _ _ _ (λ d t. t) (λ d t. t)
        (λ _. then_leads _ (On P) _ _ _ (λ d t. t) (λ d t. t) (λ _ d t. t))
