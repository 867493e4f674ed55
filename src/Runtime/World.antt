-- ===== src/Runtime/World.antt =====
-- The state and the surroundings of one delivery in packages/runtime/worker.py: the tables that
-- `EventProcessor` reads and writes, its service, and what the clocks, exceptions and crashes
-- decide.
use k8s_ops.Prelude.{ℕ, String, Bool, true, false, Option, List}
use k8s_ops.Runtime.Envelope.{Envelope}
use k8s_ops.Runtime.Ledger.{Rows}

pub record DeadLetter (P : Type 0) : Type 0 where
  pub original_event_id : String
  pub original_subject : String
  pub consumer : String
  pub correlation_id : String
  pub attempts : ℕ
  pub error : String
  pub payload : P

-- The tables that a delivery reads and writes. `business` is whatever the handlers write in
-- their unit of work.
pub record World (P D : Type 0) : Type 0 where
  pub events : List String
  pub ledger : Rows
  pub outbox : List (Envelope P)
  pub dead_letters : List (DeadLetter P)
  pub business : D

-- The handler returns the new business state and the events to stage, or it raises (a timeout is
-- a raise too).
pub data Handled (P D : Type 0) : Type 0 where
  returned : D → List (Envelope P) → Handled P D
  raised : String → Handled P D

-- A worker's service: its name, handler, codec and retry policy, and the constants of storage.
pub record Service (P D B : Type 0) : Type 0 where
  pub service_name : String
  pub handler : Envelope P → D → Handled P D
  pub decode : B → Option (Envelope P)
  pub raw_payload : B → P
  pub raw_subject : String
  pub max_attempts : ℕ
  pub stale_seconds : ℕ
  pub error_limit : ℕ

-- How far a capture gets: the row and the notice are separate writes.
pub data SinkOutcome : Type 0 where
  captured not_recorded not_emitted notice_not_recorded : SinkOutcome

pub data Crash : Type 0 where
  no_crash after_claim after_commit after_capture : Crash

pub record Faults : Type 0 where
  pub claim_now : ℕ
  pub end_now : ℕ
  pub elapsed : ℕ
  pub claim_raises : Bool
  pub commit_raises : Option String
  pub decode_error : String
  pub raw_id : String
  pub sink : SinkOutcome
  pub notice_id : String
  pub mark_raises : Bool
  pub ack_raises : Bool
  pub crash : Crash

-- What the broker sees of a delivery; `escaped` is an exception out of `process`.
pub data Settled : Type 0 where
  acked nacked escaped crashed : Settled

abbrev pub is_after_claim : Crash → Bool
is_after_claim after_claim = true
is_after_claim _ = false

abbrev pub is_after_commit : Crash → Bool
is_after_commit after_commit = true
is_after_commit _ = false

abbrev pub is_after_capture : Crash → Bool
is_after_capture after_capture = true
is_after_capture _ = false
