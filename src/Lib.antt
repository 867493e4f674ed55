-- ===== src/Lib.antt =====
-- A verification library for k8s-ops, the control plane that turns cluster alerts into incidents,
-- root causes, recovery plans and pull requests, with one event bus between its services. The
-- paths below are from the repository's root; those in the other files' comments start below its
-- src directory.
--
-- Runtime: how a service handles one message of the bus.
--   Runtime/Envelope: `EventEnvelope` and `event` (src/packages/contracts/event_bus/interfaces.py,
--   src/packages/events/envelope.py).
--   Runtime/Ledger: the processing ledger of src/packages/storage/repositories/event.py. A table
--   is an association list by event and consumer; one upsert or update is one function on it.
--   Runtime/World: the tables that a delivery reads and writes, and what clocks, exceptions,
--   timeouts and crashes decide (`Faults`).
--   Runtime/Processor: `EventProcessor.process` and `fail` and the message loop of
--   `WorkerRuntime.consume_subject` (src/packages/runtime/worker.py), with the outbox, the ledger
--   and the dead letters that they call. A unit of work is a pure function whose result is kept or dropped as a whole. The
--   handler, the codec and the broker's redeliveries are parameters; `Atomicity`, `Delivery`,
--   `Runs` and `Settlement` hold the proofs.
--   Runtime/Relay: `OutboxRelay.run_once` (src/packages/runtime/relay.py) with the outbox queries of
--   src/packages/storage/repositories/outbox.py; what the broker answers is a parameter.
--
-- Bus: the in-memory bus of src/packages/events/in_memory.py. Bus/Subject is its wildcard match,
--   Bus/Subscription one subscription as a state with an operation per method; a delayed requeue
--   is a task in a list, and a step of its own when its timer runs out; any of the waiting tasks may
--   be the next. Bus/Exchange is the bus with its subscriptions.
--
-- Recovery: src/domains/rca/recovery_verification.py. Recovery/Decision is the state machine of
--   `evaluate_recovery_evidence` with the worker that persists its decisions
--   (src/services/ai/rca-feedback-worker/app.py), Recovery/Checks the fifteen verdicts on a window,
--   Recovery/Continuity and Recovery/Alerts the comparisons of workloads, sessions and alerts.
--   Times are whole microseconds; Python's floats and `str.casefold` are parameters. JSON is read
--   before the model starts: a text that is missing is empty, a number that does not parse is
--   absent.
--
-- Causes: src/services/ai/agent/causes. Causes/Signals matches the signal groups (signals.py),
--   Causes/Evaluation scores the candidates, Causes/Merge plans and merges them, Causes/Selection
--   selects the root cause (engine.py). Scores are floats in Python; their division and order are a
--   parameter with the laws of a total preorder.
--
-- Limits: src/services/target/cluster-agent/providers/collection_limits.py. Limits/Selection is
--   `limit_list` with its round robin over groups, Limits/Payload the loop that halves the largest
--   list. Both `while` loops run on fuel: one turn for each item is enough, since a turn takes or
--   drops an item at least.
--
-- Sessions: `MemorySessionStore` of src/packages/storage/sessions.py. Sessions/State is its data,
--   Sessions/Store the sessions and verification tokens, Sessions/Limiter the sliding window and the
--   escalating locks. A method is a function from a store to an answer, a value or the exception,
--   and the store after it. Every reading of `time.monotonic` and every drawn token is an argument;
--   times are whole microseconds with exact sums and comparisons, where Python has doubles, and
--   limits and windows are whole seconds. The seconds that a full window tells a caller hang on how
--   the doubles round; they are a parameter (`Floats`). Sessions/Store/Leases is the abstract
--   authority.
--
-- Manifest: what src/domains/gitops/source_patch.py does to a parsed manifest at a field path
--   (`object_value_at` and `set_object_value` in Manifest/Path, on the segments of the path), and
--   `projected_parent_value` of src/domains/gitops/recovery_merge.py with its approved changes
--   (Manifest/Change). A change in place is a new manifest; the relative paths are read into
--   segments, and those that lie below the parent chosen, before the model starts. Manifest/Value
--   carries a float of the manifest by its text; no approved value is a float.
--
-- Timeline: src/domains/timeline/coverage.py. Timeline/Coverage is the loop over the observations
--   of one cluster and the loop over a cursor of all clusters, from observations to intervals in the
--   order in which they are found. The conversion of a moment to milliseconds, which Python does
--   with floats, is a parameter.
--
-- Access: `resolve_allowed_cluster_ids` and `resolve_allowed_application_ids` of
--   src/domains/identity/dependencies.py. What the database answers is a parameter; a set is a list
--   read by membership. Access/Strip is Python's `str.strip`.
--
-- All other loops are structural recursion on a list.
--
-- Not modelled: the HTTP gateway, the web front end, the agent's Kubernetes and Prometheus
-- clients, the GitHub provider, the database engine and its sessions, the Redis session store,
-- the YAML spans of a patch and its source kinds, credentials, deployment files and scripts.
-- Concurrency of several workers enters the model through the ledger's rows that a delivery finds,
-- not as an interleaving of two deliveries.
pub mod Prelude
pub mod Runtime
pub mod Bus
pub mod Recovery
pub mod Causes
pub mod Limits
pub mod Sessions
pub mod Manifest
pub mod Timeline
pub mod Access
