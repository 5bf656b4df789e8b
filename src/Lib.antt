-- ===== src/Lib.antt =====
-- Verification of the agent runtime in src/skill_centric_agent_system.
--
-- The parts and how they meet. A task waits in the queue of the runtime store. A worker claims it
-- through the queue manager, which reads the clock, asks the store for the next item and gets
-- copies of the item, of a new attempt and of a new claim. The run that follows is held to its
-- profile by the enforcer, which validates the profile once and then counts tokens, tool calls,
-- data reads, memory operations and recompositions. The manager records the end of the run: the
-- item succeeds, is cancelled, waits for another attempt, or gets a dead letter. Before that, the
-- analyzer makes of the task a request to the control plane. The composer makes of the analyzed
-- task and of the response of the control plane a profile, once the validator of tenant access has
-- checked the authority of the task's tenant; the assertions on a sealed profile look at the
-- result. In a run the tool gateway asks the enforcer before it calls the adapter of a tool, and a
-- denial may become a candidate for a capability that is missing. The steps, events and
-- checkpoints of a run go through the flight recorder: it takes an index from the store, writes
-- the payloads as redacted artifacts, and inserts a record with their URIs. The quota manager sums
-- the reservations of a tenant in the minute, and records an event of each reservation or refusal.
--
-- Which file is about what:
--   Base             texts (Texts), numbers, JSON values, dictionaries in insertion order, sorting, and the
--                    two ways code may raise (Outcome: writes nothing; Exec: writes and may raise)
--   Composition      composition/task_analyzer.py: TaskAnalyzer is `analyze`, over Types, Signals
--                    (_classify_task), Intake (objective, inputs, constraints, risk), Claims
--                    (_auth_claims) and Request; Identity, Routing, Risk and Analysis prove.
--                    composition/tenant_access.py: TenantAccess, and Membership proves
--                    composition/profile_composer.py: ProfileComposer is `compose`, over References
--                    (modules, names, roles), Checks (_assert_composable, the traceability of a
--                    recomposition), Settings (the constants), Context (ids, pins, whom a
--                    profile acts for) and Emission (the profile); below Profiles, Pins, Emitted,
--                    Sealed, Review, Decisions, Effects and Policies prove
--   Runtime/Models   runtime/models.py: status words; Slug is slug_id; Slug/Alphabet and
--                    Slug/Nonempty prove
--   Runtime/Artifacts   runtime/artifacts.py: Redaction, Chunks (_write_chunked_text) and Writing
--                    (write_json), Reading (read_json); Secrecy, Slices, Reassembly and Short prove
--   Runtime/FlightRecorder   runtime/flight_recorder.py: Desk has the state, the words and the
--                    checks, Runs and Events the methods; Keeps, Once, Calls and Refused prove
--   Runtime/Quotas   runtime/quotas.py; Sums, Limits and Bounds prove
--   Runtime/Enforcement   runtime/enforcement.py: Profile has the checks of a profile, Enforcer the
--                    counters and the methods that charge them, Tenant and Grants the validation of
--                    a tenant's authority; Budget, Access, Refusal, Isolation and TenantSafety prove
--   Runtime/Store    runtime/storage_memory.py: Records, then Claims (claim_next_…) and Leases
--                    (heartbeat, recovery, release), and Events for steps, events and checkpoints;
--                    Claiming, Limits, Recovery, Freed, Progress, Indices and Recording prove
--   Runtime/Queue    runtime/queue.py: the manager; Status has _update_status and the mark_…
--                    methods, Enqueue has enqueue, Retry has retry and Loading the reads of an
--                    item's artifacts; Lifecycle, Failures, Insertion, Admission,
--                    Repeated and Retry/Retried prove
--   Runtime/TenantStatus   runtime/tenant_status.py; Authority proves
--   Runtime/Invariants   runtime/invariant_assertions.py: the assertions on a profile
--   Runtime/ToolGateway   runtime/tool_gateway.py is `invoke`, over State (the gateway and what it may
--                    raise), Policies (runtime/tool_policies.py), Denied (what the enforcer says) and
--                    Hook (the hook after a tool); Keeps, Once and Returned prove
--   Runtime/CapabilityGaps   runtime/capability_gaps.py; Predicates has its tables; Captured proves
--   Runtime/SafetyCompiler   runtime/safety_compiler.py; Guard has the guard policy and its
--                    validation; Gates, Validated and Promotion prove
--   Runtime/ErrorTaxonomy   runtime/error_taxonomy.py; Judged proves
--   Runtime/Membership   the test of a value in a set of texts, which several parts use
--   Examples         concrete runs
--
-- A dictionary of the store is a list of pairs in the order of insertion; a record is its fields.
-- Where the code returns the stored object itself, the model returns its value after the last
-- write of the method. A method that takes a lock is one step. Times are the texts that the code
-- compares, and the clock of the manager is a sequence of readings.
--
-- Python outside of texts, booleans, integers, lists and dicts is a parameter (Values.Builtins,
-- Profile.Containers), and so are str.casefold, iso_timestamp, the float product in the delay of a
-- retry, its random jitter, the word characters of `re`, the substitutions of the four patterns of
-- secrets, the UTF-8 encoding, the file name of a chunk, and int(n * 0.75). The adapter of a tool
-- is a parameter, a function on a world that only adapters change, which returns an object or
-- raises; so is the judge of error classes, and so are Path.resolve and json.loads where an
-- artifact is read back. The texts of numbers are made on fuel, one more than the number, which
-- has at most that many digits; a range of Python is made on fuel, as much as the bytes, since
-- each step is at least one.
--
-- Not modelled: the durable stores (SQL), the HTTP service and the command line (input and output),
-- the clients and workers in other languages, and the scripts. The agent loop, the candidates of
-- memory, the worker of the queue, the denials of a run, the coverage report of
-- the safety compiler and the tool adapters are not modelled here. A JSON file is the value that it is
-- the dump of, and reading it gives that value back.
pub mod Base
pub mod Composition
pub mod Examples
pub mod Runtime
