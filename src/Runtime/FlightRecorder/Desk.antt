-- ===== src/Runtime/FlightRecorder/Desk.antt =====
-- runtime/flight_recorder.py: `FlightRecorder`. The state is the runtime store, the files of the artifact
-- store and the number of clock readings made; each call of `clock()` takes the next reading. A status is
-- one of the words by its type, so `require_choice` of one always passes.
use skill_centric_agent_syst.Base.{
  ℕ, suc, String, Bool, Option, none, some, List, [], ◌∷◌, if◌then◌else◌, ltb, member, join,
  join_with, sorted_set, Json, Fields, find, has_key, Builtins,
}
use skill_centric_agent_syst.Base.Outcome.{Outcome, ok, err, check}
use skill_centric_agent_syst.Base.Exec.{Exec}
use skill_centric_agent_syst.Runtime.Models.Slug.{decimal}
use skill_centric_agent_syst.Runtime.Artifacts.Chunks.{Files}
use skill_centric_agent_syst.Runtime.Artifacts.Writing.{ArtifactStore, write_json}
use skill_centric_agent_syst.Runtime.Store.{Store}
use skill_centric_agent_syst.Runtime.Queue.{Error, key_error}

pub record Desk : Type 0 where
  pub store : Store
  pub files : Files
  pub readings : ℕ

-- The artifact store of a recorder, and what Python does for it; `clock n` is the text of reading `n`.
pub record Recorder : Type 0 where
  pub artifacts : ArtifactStore
  pub clock : ℕ → String
  pub builtins : Builtins

abbrev pub value_error : String → Error
value_error m = record { class_name = "ValueError"; message = m; stop_reason = none }

abbrev pub step_kinds : List String
step_kinds = "context" ∷ "planner" ∷ "executor" ∷ "validator" ∷ []

abbrev pub stop_reasons : List String
stop_reasons =
    "completed" ∷ "max_tokens" ∷ "max_duration" ∷ "max_tool_calls" ∷ "max_data_reads"
    ∷ "max_memory_ops" ∷ "max_recompositions" ∷ "policy_denied" ∷ "validator_failed" ∷ "tool_error"
    ∷ "cancelled" ∷ "needs_recomposition" ∷ "composer_failure" ∷ "runtime_error" ∷ []

abbrev pub event_types : List String
event_types =
    "task_intake_normalized" ∷ "task_analyzed" ∷ "candidates_discovered" ∷ "candidates_scored"
    ∷ "policies_evaluated" ∷ "graph_validated" ∷ "profile_emitted" ∷ "profile_validated"
    ∷ "runtime_started" ∷ "access_attempted" ∷ "validator_executed" ∷ "runtime_completed"
    ∷ "runtime_failed" ∷ "runtime_cancelled" ∷ "tenant_throttled" ∷ "quota_reserved"
    ∷ "quota_exhausted" ∷ "step_started" ∷ "step_completed" ∷ "tool_invocation_started"
    ∷ "tool_invocation_completed" ∷ "runtime_after_tool_hook_evaluated" ∷ "budget_exhausted"
    ∷ "checkpoint_created" ∷ "recomposition_requested" ∷ []

abbrev pub actor_roles : List String
actor_roles =
    "context_manager" ∷ "planner" ∷ "executor" ∷ "validator" ∷ "policy_engine" ∷ "quota_manager"
    ∷ "runtime" ∷ "composer" ∷ []

abbrev pub phases : List String
phases =
    "task_intake" ∷ "analysis" ∷ "composition" ∷ "context" ∷ "planner" ∷ "executor" ∷ "validator"
    ∷ "finalization" ∷ []

-- `require_choice`
unfoldable pub require_choice : String → List String → String → Outcome Error (Unit {0})
unfolding member
require_choice value allowed name =
    let choices = join_with ", " (sorted_set allowed) in
    check (member value allowed) (
      value_error
        (join name (join " must be one of: " (join choices (join ". Got: " (join value "."))))))

-- The same of a reason that may be missing.
abbrev pub require_reason : Option String → Outcome Error (Unit {0})
require_reason none = ok tt
require_reason (some reason) = require_choice reason stop_reasons "stop_reason"

-- `given or default`
abbrev pub or_else : Option String → String → String
or_else none d = d
or_else (some String.[]) d = d
or_else (some (String.◌∷◌ c s)) d = String.◌∷◌ c s

-- `f"{n:03d}"`
abbrev pub three_digits : ℕ → String
three_digits n =
    if ltb n 10
    then join "00" (decimal n)
    else if ltb n 100
    then join "0" (decimal n)
    else decimal n

-- `d[k]`
abbrev pub item : String → Fields → Outcome Error Json
item k fs = if has_key k fs then ok (find k fs) else err (key_error k)

-- What an event says besides the run it is of.
pub record Report : Type 0 where
  pub event_type : String
  pub actor_role : String
  pub step_id : Option String
  pub planned_action : Json
  pub execution : Json
  pub result : Json
  pub stop_reason : Option String
  pub idempotency_key : Option String
  pub redact : Bool

-- What a method of the store returns and leaves, or the `KeyError` of a missing key.
abbrev pub settle : {A : Type 0} → String → Option (A × Store) → Exec Error Desk A
settle key none d = (err (key_error key), d)
settle key (some r) d = (ok r.0, record d { store = r.1 })

abbrev pub within : {A : Type 0} → (Store → A × Store) → Exec Error Desk A
within f d = let r = f d.store in (ok r.0, record d { store = r.1 })

-- `iso_timestamp(self.clock())`
abbrev pub reading : Recorder → Exec Error Desk String
reading r d = (ok (r.clock d.readings), record d { readings = suc d.readings })

-- What `write_json` returns and leaves; its `ValueError` here is that of a chunk size of 0.
abbrev pub wrote : Option (String × Files) → Exec Error Desk String
wrote none d = (err (value_error "range() arg 3 must not be zero"), d)
wrote (some w) d = (ok w.0, record d { files = w.1 })

abbrev pub write : Recorder → List String → Json → Bool → Exec Error Desk String
write r parts payload redact d = wrote (write_json r.artifacts parts payload redact d.files) d
