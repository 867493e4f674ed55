-- ===== src/Runtime/Ledger.antt =====
-- packages/runtime/ledger.py, packages/contracts/event_bus/processing.py and the processing
-- table of packages/storage/repositories/event.py. Each statement runs in one transaction, so a
-- statement is one function of the table. Times are whole seconds of the database's clock.
pub mod Laws
use k8s_ops.Prelude.{
  ℕ, zero, suc, ◌+◌, String, Bool, true, false, not, ◌&&◌, ◌||◌, Option, none, some, string_eq,
  pair_eq, if◌then◌else◌, Table, lookup, put, ltb, List, [], ◌∷◌, contains, ◌++◌,
}
use k8s_ops.Runtime.Envelope.{Envelope}

pub data Status : Type 0 where
  processing processed retrying dead_lettered : Status

-- `EventProcessingRecord.status`: a stored status, or one of two signals that are not stored.
pub data ClaimStatus : Type 0 where
  stored : Status → ClaimStatus
  claim_blocked unknown : ClaimStatus

-- `status in TERMINAL_STATUSES`
abbrev pub is_terminal : Status → Bool
is_terminal processed = true
is_terminal dead_lettered = true
is_terminal _ = false

abbrev pub is_processing : Status → Bool
is_processing processing = true
is_processing _ = false

pub record Row : Type 0 where
  pub subject : String
  pub correlation_id : String
  pub status : Status
  pub attempts : ℕ
  pub last_error : Option String
  pub updated_at : ℕ
  pub duration_ms : Option ℕ

-- The unique index: the event's id and the consumer.
abbrev pub Key : Type 0
Key = String × String

abbrev pub Rows : Type 0
Rows = Table Key Row

abbrev pub key_of : {P : Type 0} → Envelope P → String → Key
key_of evt consumer = (evt.event_id, consumer)

-- `EventProcessingRecord`
pub record Claim : Type 0 where
  pub status : ClaimStatus
  pub attempts : ℕ

-- `error[:ERROR_MESSAGE_LIMIT]`
unfoldable pub take_text : ℕ → String → String
take_text zero s = String.[]
take_text (suc n) String.[] = String.[]
take_text (suc n) (String.◌∷◌ c s) = String.◌∷◌ c (take_text n s)

abbrev pub compact_error : ℕ → String → String
compact_error limit error = take_text limit error

-- The WHERE of the upsert. `updated_at < now - stale` has the interval on the other side, since
-- `-` stops at 0.
abbrev pub may_claim : ℕ → ℕ → Row → Bool
may_claim stale now row =
    not (is_terminal row.status)
    && (not (is_processing row.status) || ltb (row.updated_at + stale) now)

abbrev pub claimed_row : ℕ → Row → Row
claimed_row now row = record row {
  attempts = row.attempts + 1;
  status = processing;
  last_error = none;
  updated_at = now;
}

-- A PROCESSING row that refused the claim is another instance's, which is a signal of its own.
abbrev pub refused_claim : Option Row → Claim
refused_claim none = record { status = unknown; attempts = 0 }
refused_claim (some row) = record {
  status = if is_processing row.status then claim_blocked else stored row.status;
  attempts = row.attempts;
}

abbrev pub claim_record : Option (Status × ℕ) → Option Row → Claim
claim_record (some (status, attempts)) row = record { status = stored status; attempts = attempts }
claim_record none row = refused_claim row

-- UPDATE … WHERE event_id and consumer: no row, no change.
abbrev pub update_found : Key → (Row → Row) → Rows → Option Row → Rows
update_found k f rows none = rows
update_found k f rows (some row) = put k (f row) rows

unfoldable pub update_row : Key → (Row → Row) → Rows → Rows
update_row k f rows = update_found k f rows (lookup k rows)

abbrev pub new_duration : Option ℕ → Row → Option ℕ
new_duration none row = row.duration_ms
new_duration (some d) row = some d

module _ {P : Type 0} where
  abbrev pub fresh_row : ℕ → Envelope P → Row
  fresh_row now evt = record {
    subject = evt.subject;
    correlation_id = evt.correlation_id;
    status = processing;
    attempts = 1;
    last_error = none;
    updated_at = now;
    duration_ms = none;
  }

  abbrev pub claim_found :
      ℕ → ℕ → Envelope P → String → Rows → Option Row → Rows × Option (Status × ℕ)
  claim_found stale now evt consumer rows none =
      (put (key_of evt consumer) (fresh_row now evt) rows, some (processing, 1))
  claim_found stale now evt consumer rows (some row) =
      if may_claim stale now row
      then (
        put (key_of evt consumer) (claimed_row now row) rows,
        some (processing, row.attempts + 1),
      )
      else (rows, none)

  -- INSERT … ON CONFLICT DO UPDATE … WHERE … RETURNING: no row comes back where the WHERE fails.
  unfoldable pub claim_event_processing :
      ℕ → ℕ → Envelope P → String → Rows → Rows × Option (Status × ℕ)
  claim_event_processing stale now evt consumer rows =
      claim_found stale now evt consumer rows (lookup (key_of evt consumer) rows)

  unfoldable pub begin_event_processing : ℕ → ℕ → Envelope P → String → Rows → Rows × Claim
  unfolding claim_event_processing
  begin_event_processing stale now evt consumer rows =
      let (rows', row) = claim_event_processing stale now evt consumer rows in
      (rows', claim_record row (lookup (key_of evt consumer) rows'))

  unfoldable pub finish_event_processing : ℕ → Envelope P → String → Option ℕ → Rows → Rows
  unfolding update_row
  finish_event_processing now evt consumer duration rows =
      update_row (key_of evt consumer)
        (λ row. record row {
          status = processed;
          last_error = none;
          updated_at = now;
          duration_ms = new_duration duration row;
        })
        rows

  unfoldable pub fail_event_processing :
      ℕ → ℕ → Envelope P → String → String → Status → Option ℕ → Rows → Rows
  unfolding update_row
  fail_event_processing limit now evt consumer error status duration rows =
      update_row (key_of evt consumer)
        (λ row. record row {
          status = status;
          last_error = some (compact_error limit error);
          updated_at = now;
          duration_ms = new_duration duration row;
        })
        rows

  -- INSERT … ON CONFLICT (event_id) DO NOTHING into the events table, which is kept as its ids.
  unfoldable pub record_event : Envelope P → List String → List String
  record_event evt events =
      if contains events evt.event_id then events else events ++ evt.event_id ∷ []
