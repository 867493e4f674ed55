-- ===== src/Sessions/Limiter.antt =====
-- `check_rate_limit` and `check_escalating_rate_limit` of `MemorySessionStore`
-- (packages/storage/sessions.py). Every reading of `time.monotonic` is an argument; a deque of
-- events is a list, oldest first.
pub mod Admissions
pub mod Window
pub mod Waiting
pub mod Locks
pub mod Indexing
use Prim.Native.String.{◌++◌ as text_append}
use k8s_ops.Prelude.{
  ℕ, zero, suc, ◌+◌, ◌-◌, ◌/◌, String, Bool, true, false, Option, none, some, List, [], ◌∷◌, ◌++◌,
  if◌then◌else◌, leb, ltb, length, min, max, Table, lookup, put, string_eq,
}
use k8s_ops.Sessions.State.{
  Config, Store, Answer, returns, not_connected, rate_limit_exceeded, index_error, seconds,
}
use k8s_ops.Sessions.Store.{require_connected}

-- `table.get(key, default)`, and `table[key]` on a defaultdict
unfoldable pub or_else {ℓ} : {A : Type ℓ} → Option A → A → A
or_else none default = default
or_else (some value) default = value

unfoldable pub events_of : String → Store → List ℕ
unfolding or_else
events_of key store = or_else (lookup key store.rate_events) []

unfoldable pub set_events : String → List ℕ → Store → Store
set_events key events store = record store { rate_events = put key events store.rate_events }

-- `while events and events[0] <= now - window: events.popleft()`
unfoldable pub drop_expired : ℕ → ℕ → List ℕ → List ℕ
drop_expired now window [] = []
drop_expired now window (event ∷ events) =
    let rest = drop_expired now window events in
    if leb (event + window) now then rest else event ∷ events

-- `ceil(events[0] + window - now)` in the doubles of the clock: the seconds that a refusal tells,
-- of the oldest event, the window and the time. How they round is no part of the model.
pub record Floats : Type 0 where
  pub ceil_seconds : ℕ → ℕ → ℕ → ℕ

module _ ⦃floats : Floats⦄ where
  -- The exception of a full window; `events[0]` fails where the threshold is 0.
  unfoldable pub refusal : ℕ → ℕ → List ℕ → Answer Unit
  refusal now window [] = index_error
  refusal now window (oldest ∷ events) =
      rate_limit_exceeded (max 1 (floats.ceil_seconds oldest window now))

  unfoldable pub count_event : ℕ → String → ℕ → ℕ → Store → Answer Unit × Store
  unfolding events_of drop_expired refusal set_events
  count_event now key threshold window store =
      let events = drop_expired now window (events_of key store) in
      if leb threshold (length events)
      then (refusal now window events, set_events key events store)
      else (returns tt, set_events key (events ++ now ∷ []) store)

  unfoldable pub check_rate_limit : ℕ → String → Option ℕ → Option ℕ → Store → Answer Unit × Store
  unfolding require_connected count_event or_else
  check_rate_limit now key limit window store =
      let threshold = or_else limit store.config.rate_limit in
      let width = seconds (or_else window store.config.rate_limit_window_seconds) in
      require_connected store (count_event now key threshold width store)

-- `steps[index]`
unfoldable pub item : List ℕ → ℕ → Option ℕ
item [] index = none
item (step ∷ steps) zero = some step
item (step ∷ steps) (suc index) = item steps index

unfoldable pub lock_for : ℕ → String → Option ℕ → Store → Answer Unit × Store
lock_for now key none store = (index_error, store)
lock_for now key (some lock_seconds) store = (
  rate_limit_exceeded lock_seconds,
  record store { locks = put key (now + seconds lock_seconds) store.locks },
)

-- How many strikes stand against a key, this one included.
unfoldable pub next_strike : ℕ → ℕ × ℕ → ℕ
next_strike now (strike_expires_at, strike_count) =
    if leb strike_expires_at now then 1 else strike_count + 1

unfoldable pub strike : ℕ → String → List ℕ → ℕ → Store → Answer Unit × Store
unfolding lock_for item or_else next_strike
strike now key lock_steps_seconds strike_ttl_seconds store =
    let strike_count = next_strike now (or_else (lookup key store.strikes) (0, 0)) in
    lock_for now key (item lock_steps_seconds (min strike_count (length lock_steps_seconds) - 1))
      (record store {
        strikes = put key (now + seconds strike_ttl_seconds, strike_count) store.strikes;
      })

-- `except RateLimitExceeded`
unfoldable pub escalate : ℕ → String → List ℕ → ℕ → Answer Unit × Store → Answer Unit × Store
unfolding strike
escalate now key lock_steps_seconds strike_ttl_seconds (rate_limit_exceeded retry_after, store) =
    strike now key lock_steps_seconds strike_ttl_seconds store
escalate now key lock_steps_seconds strike_ttl_seconds (returns done, store) = (returns done, store)
escalate now key lock_steps_seconds strike_ttl_seconds (not_connected, store) =
    (not_connected, store)
escalate now key lock_steps_seconds strike_ttl_seconds (index_error, store) = (index_error, store)

module _ ⦃floats : Floats⦄ where
  unfoldable pub check_unlocked : ℕ → ℕ → String → ℕ → ℕ → List ℕ → ℕ → Store → Answer Unit × Store
  unfolding or_else escalate check_rate_limit
  check_unlocked now inner key limit window_seconds lock_steps_seconds strike_ttl_seconds store =
      let locked_until = or_else (lookup key store.locks) 0 in
      if ltb now locked_until
      then (rate_limit_exceeded (max 1 ((locked_until - now) / 1000000)), store)
      else escalate now key lock_steps_seconds strike_ttl_seconds (
          check_rate_limit inner (text_append "escalating:" key) (some limit) (some window_seconds)
            store)

  -- The second reading of the clock is that of `check_rate_limit`.
  unfoldable pub check_escalating_rate_limit :
      ℕ → ℕ → String → ℕ → ℕ → List ℕ → ℕ → Store → Answer Unit × Store
  unfolding require_connected check_unlocked
  check_escalating_rate_limit now inner key limit window_seconds lock_steps_seconds
        strike_ttl_seconds store =
      require_connected store (
        check_unlocked now inner key limit window_seconds lock_steps_seconds strike_ttl_seconds
          store)
