-- ===== src/Sessions/Limiter/Indexing.antt =====
-- The sequences that the limits of packages/storage/sessions.py index.
use Prim.Native.String.{◌++◌ as text_append}
use k8s_ops.Prelude.{
  ℕ, zero, suc, ◌-◌, ◌≤◌, ◌<◌, String, some, List, [], ◌∷◌, leb, ltb, length, min, string_eq, ◌≡◌,
  refl, sym, ◌∙◌, ◌≢◌, ap, arith, Bool-cases, inl, inr,
}
use k8s_ops.Sessions.State.{
  Store, Answer, returns, not_connected, rate_limit_exceeded, index_error, seconds,
}
use k8s_ops.Sessions.Store.{require_connected}
use k8s_ops.Sessions.Limiter.{
  Floats, or_else, item, strike, escalate, check_unlocked, check_rate_limit,
  check_escalating_rate_limit, count_event, events_of, drop_expired, refusal,
}
use k8s_ops.Sessions.Limiter.Locks.{
  locked_until, strikes_with, struck, escalated, refused_while_locked,
}

item-in_range :
    (steps : List ℕ) (index : ℕ)
    → index < length steps
    → (step : ℕ) × (item steps index ≡ some step)
unfolding item
item-in_range [] index h = absurd (omega (arith, h))
item-in_range (step ∷ steps) zero h = (step, refl)
item-in_range (step ∷ steps) (suc index) h = item-in_range steps index (omega (arith, h))

module _ ⦃floats : Floats⦄ where
  refusal_has_oldest :
      (now width limit : ℕ) (events : List ℕ)
      → 1 ≤ limit
      → limit ≤ length events
      → refusal now width events ≢ index_error
  unfolding refusal
  refusal_has_oldest now width limit [] positive full e = absurd (omega (arith, positive, full))
  refusal_has_oldest now width limit (oldest ∷ events) positive full e = absurd (cc e)

  check_has_oldest :
      (now : ℕ) (key : String) (limit window : ℕ) (store : Store)
      → 1 ≤ limit
      → (check_rate_limit now key (some limit) (some window) store).0 ≢ index_error
  unfolding check_rate_limit require_connected count_event or_else
  check_has_oldest now key limit window store positive e =
      let events = drop_expired now (seconds window) (events_of key store) in
      elim (Bool-cases store.connected) [
        | inl up ↦ elim (Bool-cases (leb limit (length events))) [
          | inl full ↦
              refusal_has_oldest now (seconds window) limit events positive (ground (arith, full))
                (simp (up, full) at e)
          | inr free ↦ absurd (cc (simp (up, free) at e))
        ]
        | inr down ↦ absurd (cc (simp down at e))
      ]

strike_has_step :
    (now : ℕ) (key : String) (steps : List ℕ) (ttl : ℕ) (store : Store)
    → 1 ≤ length steps
    → (strike now key steps ttl store).0 ≢ index_error
strike_has_step now key steps ttl store some_step e =
    let number = strikes_with now key store in
    let (step, found) =
      item-in_range steps (min number (length steps) - 1) (omega (arith, some_step)) in
    let (told, _, _) = struck now key steps ttl step store found in absurd (cc (sym told ∙ e))

escalate_has_step :
    (now : ℕ) (key : String) (steps : List ℕ) (ttl : ℕ) (answer : Answer Unit) (store : Store)
    → 1 ≤ length steps
    → answer ≢ index_error
    → (escalate now key steps ttl (answer, store)).0 ≢ index_error
unfolding escalate
escalate_has_step now key steps ttl (returns done) store some_step fine e = absurd (cc e)
escalate_has_step now key steps ttl not_connected store some_step fine e = absurd (cc e)
escalate_has_step now key steps ttl index_error store some_step fine e = fine refl
escalate_has_step now key steps ttl (rate_limit_exceeded retry) store some_step fine e =
    strike_has_step now key steps ttl store some_step e

module _ ⦃floats : Floats⦄ where
  -- With a positive limit and at least one lock step, neither an empty deque nor an empty tuple of
  -- steps is ever indexed.
  pub checks_never_index_nothing :
      (now inner : ℕ) (key : String) (limit window : ℕ) (steps : List ℕ) (ttl : ℕ) (store : Store)
      → 1 ≤ limit
      → 1 ≤ length steps
      → ((check_rate_limit now key (some limit) (some window) store).0 ≢ index_error)
        × ((check_escalating_rate_limit now inner key limit window steps ttl store).0 ≢ index_error)
  unfolding check_escalating_rate_limit check_unlocked require_connected
  checks_never_index_nothing now inner key limit window steps ttl store positive some_step = (
    check_has_oldest now key limit window store positive,
    λ e.
        let other = text_append "escalating:" key in
        let (answer, counted) = check_rate_limit inner other (some limit) (some window) store in
        elim (Bool-cases store.connected) [
          | inl up ↦ elim (Bool-cases (ltb now (locked_until key store))) [
            | inl locked ↦ absurd (
                cc (
                  sym (
                    ap (λ p. p.0)
                      (refused_while_locked now inner key limit window steps ttl store up
                        (ground (arith, locked))))
                  ∙ e))
            | inr free ↦
                escalate_has_step now key steps ttl answer counted some_step
                  (check_has_oldest inner other limit window store positive)
                  (rw
                    (escalated now inner key limit window steps ttl store up (ground (arith, free)))
                    at e)
          ]
          | inr down ↦ absurd (cc (simp down at e))
        ],
  )
