-- ===== src/Runtime/Relay/Samples.antt =====
-- Passes of the relay over three staged events.
use k8s_ops.Prelude.{String, true, false, none, some, List, [], ◌∷◌, ◌==◌, string_eq, if◌then◌else◌}
use k8s_ops.Runtime.Envelope.{Envelope}
use k8s_ops.Runtime.Relay.{OutboxRow, Tables, Attempt, took, too_large, broke, Relay}
use k8s_ops.Runtime.Relay.Safety.{SentSafe, Pass, relay_all, sent_means_delivered}

abbrev staged : String → OutboxRow String
staged id = record {
  evt = record {
    event_id = id;
    subject = "incident.created";
    source = "incident-worker";
    correlation_id = "c1";
    causation_id = none;
    created_at = "2025-01-01T00:00:00Z";
    payload = "{}";
    schema_version = 1;
    workspace_id = some "w1";
  };
  sent = false;
  leased_until = none;
}

abbrev three_staged : Tables String
three_staged = record {
  outbox = staged "e1" ∷ staged "e2" ∷ staged "e3" ∷ [];
  dead_letters = [];
  broker = [];
}

abbrev small_relay : Relay
small_relay = record {
  source = none;
  batch = 2;
  lease = 60;
  consumer_name = "outbox-relay:all";
  error_limit = 500;
}

-- the second event is refused for its size, the third times out
abbrev picky : Envelope String → Attempt
picky e =
    if e.event_id == "e1"
    then took
    else if e.event_id == "e2"
    then too_large "MaxPayloadError"
    else broke false

abbrev two_passes : List (Pass String)
two_passes = (picky, (100, false)) ∷ (picky, (200, true)) ∷ []

sent_means_delivered_example :
    SentSafe
      (relay_all small_relay three_staged two_passes)
      (relay_all small_relay three_staged two_passes).outbox
sent_means_delivered_example =
    sent_means_delivered small_relay three_staged two_passes
      ((λ h. absurd (cc h)), ((λ h. absurd (cc h)), ((λ h. absurd (cc h)), tt)))
