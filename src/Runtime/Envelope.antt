-- ===== src/Runtime/Envelope.antt =====
-- packages/events/envelope.py and the envelope of packages/contracts/event_bus/interfaces.py.
-- The payload is a type parameter; a new uuid, the clock and the workspace of the calling
-- context are arguments.
use k8s_ops.Prelude.{String, ℕ, Option, none, some, ◌==◌, string_eq, if◌then◌else◌}

pub record Envelope (P : Type 0) : Type 0 where
  pub event_id : String
  pub subject : String
  pub source : String
  pub correlation_id : String
  pub causation_id : Option String
  pub created_at : String
  pub payload : P
  pub schema_version : ℕ
  pub workspace_id : Option String

-- Python's `a or b` where `a` may be None or the empty text.
abbrev pub or_text : Option String → String → String
or_text none b = b
or_text (some a) b = if a == "" then b else a

abbrev pub or_option : Option String → Option String → Option String
or_option none b = b
or_option (some a) b = if a == "" then b else some a

-- What `event` reads of its surroundings.
pub record Ambient : Type 0 where
  pub new_id : String
  pub now_iso : String
  pub current_workspace : Option String
  pub schema : ℕ

-- `normalized_workspace_id` of packages/events/context.py; `strip` is the text's own method.
abbrev pub normalized_workspace_id : (String → String) → Option String → Option String
normalized_workspace_id strip none = none
normalized_workspace_id strip (some w) = if strip w == "" then none else some (strip w)

module _ {P : Type 0} (strip : String → String) (payload_correlation : P → Option String) where
  -- `correlation_id or payload.get("correlation_id") or event_id`
  unfoldable pub event :
      Ambient → String → String → P → Option String → Option String → Option String → Envelope P
  event env subject source payload correlation_id causation_id workspace_id = record {
    event_id = env.new_id;
    subject = subject;
    source = source;
    correlation_id = or_text correlation_id (or_text (payload_correlation payload) env.new_id);
    causation_id = causation_id;
    created_at = env.now_iso;
    payload = payload;
    schema_version = env.schema;
    workspace_id =
        or_option (normalized_workspace_id strip workspace_id)
          (normalized_workspace_id strip env.current_workspace);
  }
