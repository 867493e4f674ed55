-- ===== src/Sessions/Limiter/Locks.antt =====
-- The locks of `check_escalating_rate_limit` (packages/storage/sessions.py).
use Prim.Native.String.{◌++◌ as text_append}
use k8s_ops.Prelude.{
  ℕ, ◌+◌, ◌-◌, ◌/◌, ◌≤◌, ◌<◌, String, true, false, some, List, leb, ltb, length, min, max, lookup,
  lookup-put_self, string_eq, ◌≡◌, refl, ◌∙◌, arith, Bool-cases, inl, inr,
}
use k8s_ops.Sessions.State.{Store, Answer, rate_limit_exceeded, seconds}
use k8s_ops.Sessions.Store.{require_connected}
use k8s_ops.Sessions.Limiter.{
  Floats, or_else, item, lock_for, next_strike, strike, escalate, check_unlocked, check_rate_limit,
  check_escalating_rate_limit, count_event, events_of, drop_expired, set_events,
}

-- A lock that is held for the key until a time.
unfoldable pub locked_until : String → Store → ℕ
unfolding or_else
locked_until key store = or_else (lookup key store.locks) 0

-- The strike that a refusal at a time is, with those before it.
unfoldable pub strikes_with : ℕ → String → Store → ℕ
unfolding next_strike or_else
strikes_with now key store = next_strike now (or_else (lookup key store.strikes) (0, 0))

module _ ⦃floats : Floats⦄ where
  -- A locked key is refused without a trace.
  pub refused_while_locked :
      (now inner : ℕ) (key : String) (limit window : ℕ) (steps : List ℕ) (ttl : ℕ) (store : Store)
      → store.connected ≡ true
      → now < locked_until key store
      → check_escalating_rate_limit now inner key limit window steps ttl store
        ≡ (rate_limit_exceeded (max 1 ((locked_until key store - now) / 1000000)), store)
  unfolding check_escalating_rate_limit check_unlocked require_connected locked_until
  refused_while_locked now inner key limit window steps ttl store up h =
      let locked : ltb now (or_else (lookup key store.locks) 0) ≡ true = ground (arith, h) in
      simp (up, locked) refl

-- A strike locks its key with the step for its number.
pub struck :
    (now : ℕ) (key : String) (steps : List ℕ) (ttl step : ℕ) (store : Store)
    → item steps (min (strikes_with now key store) (length steps) - 1) ≡ some step
    → let (answer, after) = strike now key steps ttl store in
      (answer ≡ rate_limit_exceeded step)
      × (after.connected ≡ store.connected)
      × (locked_until key after ≡ now + seconds step)
unfolding strike lock_for locked_until strikes_with or_else
struck now key steps ttl step store h = simp (h, lookup-put_self) (refl, refl, refl)

module _ ⦃floats : Floats⦄ where
  -- Counting an event touches neither strikes nor locks.
  counting_keeps :
      (now time : ℕ) (key other : String) (limit window : ℕ) (store : Store)
      → let after = (check_rate_limit now other (some limit) (some window) store).1 in
        (after.connected ≡ store.connected)
        × (strikes_with time key after ≡ strikes_with time key store)
  unfolding check_rate_limit require_connected count_event strikes_with set_events or_else
  counting_keeps now time key other limit window store =
      let events = drop_expired now (seconds window) (events_of other store) in
      elim (Bool-cases store.connected) [
        | inl up ↦ elim (Bool-cases (leb limit (length events))) [
          | inl e ↦ simp (up, e) (refl, refl)
          | inr e ↦ simp (up, e) (refl, refl)
        ]
        | inr down ↦ simp down (refl, refl)
      ]

  pub escalated :
      (now inner : ℕ) (key : String) (limit window : ℕ) (steps : List ℕ) (ttl : ℕ) (store : Store)
      → store.connected ≡ true
      → locked_until key store ≤ now
      → check_escalating_rate_limit now inner key limit window steps ttl store
        ≡ escalate now key steps ttl (
            check_rate_limit inner (text_append "escalating:" key) (some limit) (some window) store)
  unfolding check_escalating_rate_limit check_unlocked require_connected locked_until
  escalated now inner key limit window steps ttl store up h =
      let free : ltb now (or_else (lookup key store.locks) 0) ≡ false = ground (arith, h) in
      simp (up, free) refl

escalated_strike :
    (now : ℕ) (key : String) (steps : List ℕ) (ttl retry : ℕ) (answer : Answer Unit) (store : Store)
    → answer ≡ rate_limit_exceeded retry
    → escalate now key steps ttl (answer, store) ≡ strike now key steps ttl store
unfolding escalate
escalated_strike now key steps ttl retry answer store e = rw e refl

module _ ⦃floats : Floats⦄ where
  -- A call on a key that is not locked and that the window refuses is a strike: it answers with the
  -- step for the number of strikes, and until that many seconds are over every call on the key is
  -- refused with the seconds that remain, at least one, and leaves the store as it is.
  pub a_strike_locks :
      (now inner later inner' : ℕ) (key : String) (limit window : ℕ) (steps : List ℕ)
      (ttl retry step : ℕ) (store : Store)
      → store.connected ≡ true
      → locked_until key store ≤ now
      → (check_rate_limit inner (text_append "escalating:" key) (some limit) (some window) store).0
        ≡ rate_limit_exceeded retry
      → item steps (min (strikes_with now key store) (length steps) - 1) ≡ some step
      → later < now + seconds step
      → let (answer, after) =
          check_escalating_rate_limit now inner key limit window steps ttl store in
        (answer ≡ rate_limit_exceeded step)
        × (check_escalating_rate_limit later inner' key limit window steps ttl after
            ≡ (rate_limit_exceeded (max 1 ((now + seconds step - later) / 1000000)), after))
  a_strike_locks now inner later inner' key limit window steps ttl retry step store up free refused
        numbered soon =
      let other = text_append "escalating:" key in
      let (answer, counted) = check_rate_limit inner other (some limit) (some window) store in
      let (same, strikes) = counting_keeps inner now key other limit window store in
      let (told, same', ends) = struck now key steps ttl step counted (rw strikes numbered) in
      let after = (strike now key steps ttl counted).1 in
      let held : later < locked_until key after = rw ends soon in
      let refusing =
        refused_while_locked later inner' key limit window steps ttl after (same' ∙ same ∙ up)
          held in
      rw
        (
          escalated now inner key limit window steps ttl store up free,
          escalated_strike now key steps ttl retry answer counted refused,
        )
        (told, rw ends at refusing)
