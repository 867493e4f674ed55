-- ===== src/Sessions/Limiter/Window.antt =====
-- The sliding window of `check_rate_limit` (packages/storage/sessions.py).
use k8s_ops.Prelude.{
  ℕ, ◌+◌, ◌≤◌, ◌<◌, String, Bool, true, false, List, [], ◌∷◌, ◌++◌, if◌then◌else◌, leb, length,
  length-append, ◌==◌, string_eq, ◌≡◌, refl, ◌∙◌, arith, Bool-cases, inl, inr, beq_true, beq_self,
}
use k8s_ops.Sessions.State.{Store, seconds}
use k8s_ops.Sessions.Limiter.{Floats, events_of, drop_expired}
use k8s_ops.Sessions.Limiter.Admissions.{
  is_admitted, call, admissions, Ordered, within, events_within, events_within-append,
  events_within-drop_expired, events_within-le, length-drop_expired, counted, counted_elsewhere,
  call-count_event, late_admissions,
}

past_window : (start width now : ℕ) → start + width ≤ now → events_within start width (now ∷ []) ≡ 0
unfolding events_within within
past_window start width now h = ground (arith, h)

-- One call's share of a window, with what the later calls add to it.
window_step :
    (limit start width now later : ℕ) (events : List ℕ)
    → length events ≤ limit
    → (start + width ≤ now → later ≡ 0)
    → let kept = drop_expired now width events in
      let full = leb limit (length kept) in
      let after = if full then kept else kept ++ now ∷ [] in
      (length after ≤ limit → events_within start width after + later ≤ limit)
      → events_within start width events
          + (if full then later else events_within start width (now ∷ []) + later)
        ≤ limit
window_step limit start width now later events bounded late more =
    let kept = drop_expired now width events in
    let shorter = length-drop_expired now width events in
    let held = events_within-le start width events in
    elim (Bool-cases (leb (start + width) now)) [
      | inl past ↦
          let over : start + width ≤ now = ground (arith, past) in
          let nothing = late over in
          let none_now = past_window start width now over in
          ground (arith, bounded, held, nothing, none_now)
      | inr reaching ↦
          let over : now < start + width = ground (arith, reaching) in
          let same = events_within-drop_expired start width now events over in
          let split = events_within-append start width kept (now ∷ []) in
          let longer = length-append kept (now ∷ []) in
          elim (Bool-cases (leb limit (length kept))) [
            | inl e ↦
                let more' = rw e at more in
                rw e (omega (arith, same, more' (omega (arith, shorter, bounded))))
            | inr e ↦
                let room : length kept < limit = ground (arith, e) in
                let more' = rw e at more in
                rw e (omega (arith, same, split, more' (omega (arith, longer, room))))
          ]
    ]

share :
    (start width now : ℕ) (rest : List ℕ) (full : Bool)
    → events_within start width (if (if full then false else true) then now ∷ rest else rest) ≡ (
        if full
        then events_within start width rest
        else events_within start width (now ∷ []) + events_within start width rest)
share start width now rest true = refl
share start width now rest false = events_within-append start width (now ∷ []) rest

module _ ⦃floats : Floats⦄ where
  -- A call on the key itself.
  pub called :
      (policy : String → ℕ × ℕ) (now : ℕ) (key : String) (store : Store)
      → store.connected ≡ true
      → let kept = drop_expired now (seconds (policy key).1) (events_of key store) in
        let full = leb (policy key).0 (length kept) in
        let (answer, after) = call policy now key store in
        (after.connected ≡ true)
        × (events_of key after ≡ (if full then kept else kept ++ now ∷ []))
        × (is_admitted answer ≡ (if full then false else true))
  called policy now key store up =
      let (same, events, admits) = counted now key (policy key).0 (seconds (policy key).1) store in
      rw (call-count_event policy now key store up) (same ∙ up, events, admits)

  pub called_elsewhere :
      (policy : String → ℕ × ℕ) (now : ℕ) (key other : String) (store : Store)
      → store.connected ≡ true
      → (other == key) ≡ false
      → let after = (call policy now other store).1 in
        (after.connected ≡ true) × (events_of key after ≡ events_of key store)
  called_elsewhere policy now key other store up e =
      let (same, events) =
        counted_elsewhere now key other (policy other).0 (seconds (policy other).1) store e in
      rw (call-count_event policy now other store up) (same ∙ up, events)

  -- A first call on the key, then the others.
  own_call_bound :
      (policy : String → ℕ × ℕ) (key : String) (start now : ℕ) (calls : List (ℕ × String))
      (store : Store)
      → store.connected ≡ true
      → Ordered now calls
      → length (events_of key store) ≤ (policy key).0
      → (let width = seconds (policy key).1 in
          let after = (call policy now key store).1 in
          length (events_of key after) ≤ (policy key).0
          → events_within start width (events_of key after)
              + events_within start width (admissions policy key calls after)
            ≤ (policy key).0)
      → events_within start (seconds (policy key).1) (events_of key store)
          + events_within start
              (seconds (policy key).1)
              (admissions policy key ((now, key) ∷ calls) store)
        ≤ (policy key).0
  unfolding admissions
  own_call_bound policy key start now calls store up ordered bounded more =
      let width = seconds (policy key).1 in
      let (answer, after) = call policy now key store in
      let rest = admissions policy key calls after in
      let (up', events, admits) = called policy now key store up in
      let full = leb (policy key).0 (length (drop_expired now width (events_of key store))) in
      rw (beq_self key, admits, share start width now rest full)
        (window_step (policy key).0 start width now (events_within start width rest)
          (events_of key store) bounded
          (λ over. late_admissions policy key start width now calls after over ordered)
          (rw events at more))

  -- However calls on this key and on others mix, where their times never run back and the key holds
  -- no more events than its limit at first: in any window of the policy's width, the events held
  -- and the calls that are admitted do not exceed the limit.
  pub admissions_within_limit :
      (policy : String → ℕ × ℕ) (key : String) (start clock : ℕ) (calls : List (ℕ × String))
      (store : Store)
      → store.connected ≡ true
      → Ordered clock calls
      → length (events_of key store) ≤ (policy key).0
      → events_within start (seconds (policy key).1) (events_of key store)
          + events_within start (seconds (policy key).1) (admissions policy key calls store)
        ≤ (policy key).0
  unfolding admissions Ordered
  admissions_within_limit policy key start clock [] store up ordered bounded =
      let width = seconds (policy key).1 in
      let held = events_within-le start width (events_of key store) in
      let nothing = events_within-le start width [] in omega (arith, held, nothing, bounded)
  admissions_within_limit policy key start clock ((now, other) ∷ calls) store up (le, ordered)
        bounded =
      elim (Bool-cases (other == key)) [
        | inl e ↦
            let after = (call policy now key store).1 in
            let (up', _, _) = called policy now key store up in
            rw (beq_true other key e) (
              own_call_bound policy key start now calls store up ordered bounded
                (admissions_within_limit policy key start now calls after up' ordered))
        | inr e ↦
            let after = (call policy now other store).1 in
            let (up', same) = called_elsewhere policy now key other store up e in
            let more = admissions_within_limit policy key start now calls after up' ordered in
            rw e (rw same at more bounded)
      ]
