-- ===== src/Sessions/Limiter/Waiting.antt =====
-- When a key of `check_rate_limit` (packages/storage/sessions.py) is admitted again.
use k8s_ops.Prelude.{
  ℕ, ◌+◌, ◌≤◌, String, Bool, true, false, List, [], ◌∷◌, ◌++◌, if◌then◌else◌, leb, length, ◌==◌,
  string_eq, ◌≡◌, refl, arith, Bool-cases, inl, inr, beq_true, beq_self,
}
use k8s_ops.Sessions.State.{Store, seconds}
use k8s_ops.Sessions.Limiter.{Floats, events_of, drop_expired}
use k8s_ops.Sessions.Limiter.Admissions.{is_admitted, call, admissions}
use k8s_ops.Sessions.Limiter.Window.{called, called_elsewhere}

-- A window that opens at any of these times is over.
unfoldable pub AllOver : ℕ → ℕ → List ℕ → Type 0
AllOver width later [] = Unit {0}
AllOver width later (time ∷ times) = (time + width ≤ later) × AllOver width later times

drop_expired-nothing :
    (later width : ℕ) (events : List ℕ)
    → AllOver width later events
    → drop_expired later width events ≡ []
unfolding AllOver drop_expired
drop_expired-nothing later width [] h = refl
drop_expired-nothing later width (event ∷ events) (over, rest) =
    let gone : leb (event + width) later ≡ true = ground (arith, over) in
    rw gone (drop_expired-nothing later width events rest)

drop_expired-AllOver :
    (now later width : ℕ) (events : List ℕ)
    → AllOver width later events
    → AllOver width later (drop_expired now width events)
unfolding AllOver drop_expired
drop_expired-AllOver now later width [] h = h
drop_expired-AllOver now later width (event ∷ events) (over, rest) =
    elim (Bool-cases (leb (event + width) now)) [
      | inl dropped ↦ rw dropped (drop_expired-AllOver now later width events rest)
      | inr kept ↦ rw kept (over, rest)
    ]

append-AllOver :
    (later width now : ℕ) (events : List ℕ)
    → AllOver width later events
    → now + width ≤ later
    → AllOver width later (events ++ now ∷ [])
unfolding AllOver
append-AllOver later width now [] h over = (over, tt)
append-AllOver later width now (event ∷ events) (first, rest) over =
    (first, append-AllOver later width now events rest over)

-- One call on the key: its event and what later calls add.
call-AllOver :
    (later width now : ℕ) (kept rest : List ℕ) (full : Bool)
    → AllOver width later kept
    → AllOver width later (if (if full then false else true) then now ∷ rest else rest)
    → AllOver width later (if full then kept else kept ++ now ∷ []) × AllOver width later rest
unfolding AllOver
call-AllOver later width now kept rest true held more = (held, more)
call-AllOver later width now kept rest false held (over, more) =
    (append-AllOver later width now kept held over, more)

module _ ⦃floats : Floats⦄ where
  unfoldable pub after_calls : (String → ℕ × ℕ) → List (ℕ × String) → Store → Store
  after_calls policy [] store = store
  after_calls policy ((now, key) ∷ calls) store =
      after_calls policy calls (call policy now key store).1

  free_again :
      (policy : String → ℕ × ℕ) (key : String) (later : ℕ) (store : Store)
      → 1 ≤ (policy key).0
      → store.connected ≡ true
      → AllOver (seconds (policy key).1) later (events_of key store)
      → is_admitted (call policy later key store).0 ≡ true
  free_again policy key later store positive up over =
      let (_, _, admits) = called policy later key store up in
      let open_again : leb (policy key).0 0 ≡ false = ground (arith, positive) in
      rw (admits, drop_expired-nothing later (seconds (policy key).1) (events_of key store) over)
        (rw open_again refl)

  -- Where the limit is positive and the store connected: whatever calls on this key and on others
  -- came before, a call on the key is admitted at a time at which a whole window is over since
  -- each event that the key held at first and since each of its calls that was admitted. Calls
  -- that were refused do not prolong the wait.
  pub a_window_suffices :
      (policy : String → ℕ × ℕ) (key : String) (later : ℕ) (calls : List (ℕ × String))
      (store : Store)
      → 1 ≤ (policy key).0
      → store.connected ≡ true
      → AllOver (seconds (policy key).1) later (events_of key store)
      → AllOver (seconds (policy key).1) later (admissions policy key calls store)
      → is_admitted (call policy later key (after_calls policy calls store)).0 ≡ true
  unfolding admissions after_calls
  a_window_suffices policy key later [] store positive up held admitted =
      free_again policy key later store positive up held
  a_window_suffices policy key later ((now, other) ∷ calls) store positive up held admitted =
      elim (Bool-cases (other == key)) [
        | inl e ↦
            let width = seconds (policy key).1 in
            let kept = drop_expired now width (events_of key store) in
            let after = (call policy now key store).1 in
            let (up', events, admits) = called policy now key store up in
            let (held', admitted') =
              call-AllOver later width now kept (admissions policy key calls after)
                (leb (policy key).0 (length kept))
                (drop_expired-AllOver now later width (events_of key store) held)
                (rw (beq_true other key e, beq_self key, admits) at admitted) in
            rw (beq_true other key e) (
              a_window_suffices policy key later calls after positive up' (rw events held')
                admitted')
        | inr e ↦
            let (up', same) = called_elsewhere policy now key other store up e in
            a_window_suffices policy key later calls (call policy now other store).1 positive up'
              (rw same held) (rw e at admitted)
      ]
