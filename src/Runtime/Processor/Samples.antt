-- ===== src/Runtime/Processor/Samples.antt =====
-- A small service, and the theorems about deliveries at concrete inputs.
use k8s_ops.Prelude.{
  String, true, false, none, some, ◌≡◌, refl, ◌⊎◌, List, [], ◌∷◌, ◌++◌, arith, lookup, put, ◌==◌,
  string_eq, pair_eq, pair_beq, if◌then◌else◌, count, ◌≤◌,
}
use k8s_ops.Runtime.Envelope.{Envelope}
use k8s_ops.Runtime.Ledger.{
  processed, record_event, take_text, begin_event_processing, finish_event_processing,
}
use k8s_ops.Runtime.Ledger.Laws.{status_of, terminal_in}
use k8s_ops.Runtime.World.{
  World, returned, raised, Service, Faults, captured, no_crash, after_commit, acked,
}
use k8s_ops.Runtime.Processor.{process, consume_one}
use k8s_ops.Runtime.Processor.Atomicity.{Unchanged, Committed}
use k8s_ops.Runtime.Processor.Delivery.{process-atomic}
use k8s_ops.Runtime.Processor.Runs.{Delivery, consume_all, LogMatches, exactly_once}
use k8s_ops.Runtime.Processor.Settlement.{redelivery_of_closed, acked_is_safe, AckIsSafe}

abbrev image_pull : Envelope String
image_pull = record {
  event_id = "e1";
  subject = "cluster.evidence.received";
  source = "agent";
  correlation_id = "c1";
  causation_id = none;
  created_at = "2026-07-08T00:00:00+00:00";
  payload = "ImagePullBackOff";
  schema_version = 1;
  workspace_id = some "w1";
}

-- It logs the event's id, emits nothing, and raises on the payload "bad".
abbrev worker : Service String (List String) String
worker = record {
  service_name = "incident-worker";
  handler = λ evt log.
      if evt.payload == "bad" then raised "bad payload" else returned (log ++ evt.event_id ∷ []) [];
  decode = λ raw. if raw == "" then none else some (record image_pull { payload = raw });
  raw_payload = λ raw. raw;
  raw_subject = "raw";
  max_attempts = 3;
  stale_seconds = 90;
  error_limit = 2000;
}

abbrev calm : Faults
calm = record {
  claim_now = 100;
  end_now = 101;
  elapsed = 12;
  claim_raises = false;
  commit_raises = none;
  decode_error = "no json";
  raw_id = "decode-failure:1";
  sink = captured;
  notice_id = "n1";
  mark_raises = false;
  ack_raises = false;
  crash = no_crash;
}

abbrev empty_world : World String (List String)
empty_world = record { events = []; ledger = []; outbox = []; dead_letters = []; business = [] }

-- A commit whose ack is lost, a redelivery, bytes that do not decode, and a second redelivery.
abbrev rough_day : List (Delivery String)
rough_day =
    (record calm { crash = after_commit }, false, "ok")
    ∷ (calm, false, "ok")
    ∷ (calm, false, "")
    ∷ (calm, true, "ok")
    ∷ (calm, false, "ok")
    ∷ []

rough_day_log : (consume_all worker empty_world rough_day).business ≡ "e1" ∷ []
unfolding consume_all consume_one lookup put pair_beq take_text begin_event_processing
    finish_event_processing
rough_day_log = refl

worker_logs :
    (evt : Envelope String) (before after : List String) (out : List (Envelope String))
    → worker.handler evt before ≡ returned after out
    → after ≡ before ++ evt.event_id ∷ []
worker_logs evt before after out h = ground arith

empty_world_matches : LogMatches worker (λ log. log) worker_logs empty_world
unfolding status_of lookup
empty_world_matches id = refl

exactly_once_example :
    LogMatches worker (λ log. log) worker_logs (consume_all worker empty_world rough_day)
    × ((id : String) → count id (consume_all worker empty_world rough_day).business ≤ 1)
exactly_once_example =
    exactly_once worker (λ log. log) worker_logs empty_world rough_day empty_world_matches

-- The event's row is PROCESSED.
abbrev done_world : World String (List String)
done_world = record {
  events = "e1" ∷ [];
  ledger =
      (
        ("e1", "incident-worker"),
        record {
          subject = "cluster.evidence.received";
          correlation_id = "c1";
          status = processed;
          attempts = 1;
          last_error = none;
          updated_at = 50;
          duration_ms = some 3;
        },
      )
      ∷ [];
  outbox = [];
  dead_letters = [];
  business = "e1" ∷ [];
}

done_world_closed : terminal_in (status_of ("e1", "incident-worker") done_world.ledger) ≡ true
unfolding status_of lookup pair_beq
done_world_closed = refl

redelivery_of_closed_example : process worker calm "ok" done_world ≡ (
  record done_world {
    events = record_event (record image_pull { payload = "ok" }) done_world.events;
  },
  acked,
)
redelivery_of_closed_example =
    redelivery_of_closed worker calm (record image_pull { payload = "ok" }) "ok" done_world refl
      refl refl done_world_closed

ok_acked : (process worker calm "ok" empty_world).1 ≡ acked
unfolding process lookup put pair_beq take_text begin_event_processing
ok_acked = refl

acked_is_safe_example :
    AckIsSafe worker calm "ok" empty_world
      (some (record image_pull { payload = "ok" }))
      (process worker calm "ok" empty_world).0
acked_is_safe_example = acked_is_safe worker calm "ok" empty_world ok_acked

process-atomic_example :
    Unchanged worker empty_world (process worker calm "bad" empty_world).0
    ⊎ ((evt : Envelope String) × (worker.decode "bad" ≡ some evt)
        × Committed worker evt empty_world (process worker calm "bad" empty_world).0)
process-atomic_example = process-atomic worker calm "bad" empty_world
