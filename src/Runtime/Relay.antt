-- ===== src/Runtime/Relay.antt =====
-- `OutboxRelay.run_once` of packages/runtime/relay.py with the outbox queries that it calls in
-- packages/storage/repositories/outbox.py. The broker is a list of the ids that it took; an
-- attempt to publish ends as `Attempt` says, and a timeout may have reached the broker or not. The
-- update that leases rows returns them in the order of their ids here, which SQL does not promise.
pub mod Safety
pub mod Drain
pub mod Due
mod Samples
use k8s_ops.Prelude.{
  ℕ, zero, suc, ◌+◌, String, Bool, true, false, not, ◌&&◌, ◌||◌, Option, none, some, List, [], ◌∷◌,
  ◌++◌, map, if◌then◌else◌, ◌==◌, string_eq, ltb, contains, is_empty, length,
}
use k8s_ops.Runtime.Envelope.{Envelope}
use k8s_ops.Runtime.Ledger.{compact_error, take_text}
use k8s_ops.Runtime.World.{DeadLetter}

-- A row of the outbox, in the order of its ids; `leased_until` is absent where no lease is held.
pub record OutboxRow (P : Type 0) : Type 0 where
  pub evt : Envelope P
  pub sent : Bool
  pub leased_until : Option ℕ

pub record Tables (P : Type 0) : Type 0 where
  pub outbox : List (OutboxRow P)
  pub dead_letters : List (DeadLetter P)
  pub broker : List String

pub data Attempt : Type 0 where
  took : Attempt
  too_large : String → Attempt
  too_large_unrecorded : String → Attempt
  broke : Bool → Attempt

-- The relay's source filter, batch and lease, its name as a consumer, and the length of an error.
pub record Relay : Type 0 where
  pub source : Option String
  pub batch : ℕ
  pub lease : ℕ
  pub consumer_name : String
  pub error_limit : ℕ

abbrev pub lease_over : ℕ → Option ℕ → Bool
lease_over now none = true
lease_over now (some until) = ltb until now

abbrev pub from_source : Option String → String → Bool
from_source none s = true
from_source (some wanted) s = s == wanted

module _ {P : Type 0} (r : Relay) where
  -- the filters of `unsent_events`
  abbrev pub claimable : ℕ → OutboxRow P → Bool
  claimable now row =
      not row.sent && lease_over now row.leased_until && from_source r.source row.evt.source

  -- `unsent_events`: at most `limit` claimable rows get a lease; they are the rows to publish.
  unfoldable pub unsent_events : ℕ → ℕ → List (OutboxRow P) → List (OutboxRow P) × List (Envelope P)
  unsent_events now zero rows = (rows, [])
  unsent_events now (suc limit) [] = ([], [])
  unsent_events now (suc limit) (row ∷ rows) =
      let taken = unsent_events now limit rows in
      let passed = unsent_events now (suc limit) rows in
      if claimable now row
      then (record row { leased_until = some (now + r.lease) } ∷ taken.0, row.evt ∷ taken.1)
      else (row ∷ passed.0, passed.1)

  -- `sent_at=func.now(), lease_id=None, leased_until=None` on the rows of these events
  abbrev pub close_row : List String → OutboxRow P → OutboxRow P
  close_row ids row =
      if contains ids row.evt.event_id then record row { sent = true; leased_until = none } else row

  abbrev pub mark_rows : List String → List (OutboxRow P) → List (OutboxRow P)
  mark_rows ids [] = []
  mark_rows ids (row ∷ rows) = close_row ids row ∷ mark_rows ids rows

  unfoldable pub mark_events_sent : List String → Tables P → Tables P
  mark_events_sent ids t = record t { outbox = mark_rows ids t.outbox }

  abbrev pub letter_of : Envelope P → String → DeadLetter P
  letter_of evt error = record {
    original_event_id = evt.event_id;
    original_subject = evt.subject;
    consumer = r.consumer_name;
    correlation_id = evt.correlation_id;
    attempts = 1;
    error = compact_error r.error_limit error;
    payload = evt.payload;
  }

  -- for the one event of a refused publish
  unfoldable pub mark_events_dead_lettered : Envelope P → String → Tables P → Tables P
  mark_events_dead_lettered evt error t = record t {
    dead_letters = t.dead_letters ++ letter_of evt error ∷ [];
    outbox = mark_rows (evt.event_id ∷ []) t.outbox;
  }

  abbrev pub publish : Envelope P → Tables P → Tables P
  publish evt t = record t { broker = t.broker ++ evt.event_id ∷ [] }

  -- One turn of the loop: the tables, the ids published so far, and whether an exception ends it.
  unfoldable pub turn :
      Envelope P → List String → Tables P → Attempt → Tables P × List String × Bool
  unfolding mark_events_dead_lettered
  turn evt published t took = (publish evt t, published ++ evt.event_id ∷ [], false)
  turn evt published t (too_large error) = (mark_events_dead_lettered evt error t, published, false)
  turn evt published t (too_large_unrecorded error) = (t, published, true)
  turn evt published t (broke reached) = (if reached then publish evt t else t, published, true)

  unfoldable pub publish_all :
      (Envelope P → Attempt)
      → List (Envelope P)
      → List String
      → Tables P
      → Tables P × List String × Bool
  unfolding turn
  publish_all attempt [] published t = (t, published, false)
  publish_all attempt (evt ∷ evts) published t =
      let (t', published', raised) = turn evt published t (attempt evt) in
      let rest = publish_all attempt evts published' t' in
      if raised then (t', published', true) else rest

  -- the `finally` block; its own write may raise or be lost in a crash
  unfoldable pub settle : Bool → Tables P × List String × Bool → Tables P × Option ℕ
  unfolding mark_events_sent
  settle mark_raises (t, published, raised) =
      let t' = if is_empty published || mark_raises then t else mark_events_sent published t in
      (
        t',
        if raised || (mark_raises && not (is_empty published))
            then none
            else some (length published),
      )

  -- the tables, and the count that is returned or an exception
  unfoldable pub run_once : (Envelope P → Attempt) → ℕ → Bool → Tables P → Tables P × Option ℕ
  unfolding unsent_events publish_all settle
  run_once attempt now mark_raises t =
      let claimed = unsent_events now r.batch t.outbox in
      settle mark_raises (publish_all attempt claimed.1 [] (record t { outbox = claimed.0 }))
