-- ===== src/Sessions/Limiter/Admissions.antt =====
-- The calls of `check_rate_limit` (packages/storage/sessions.py) on several keys, and what each
-- does to the events of a key.
use k8s_ops.Prelude.{
  ℕ, ◌+◌, ◌≤◌, ◌<◌, String, Bool, true, false, ◌&&◌, some, List, [], ◌∷◌, ◌++◌, if◌then◌else◌, leb,
  ltb, length, length-select-le, select, lookup-put, lookup-put_self, ◌==◌, string_eq, ◌≡◌, refl,
  arith, Bool-cases, inl, inr,
}
use k8s_ops.Sessions.State.{Store, Answer, returns, seconds}
use k8s_ops.Sessions.Store.{require_connected}
use k8s_ops.Sessions.Limiter.{
  Floats, or_else, events_of, set_events, drop_expired, refusal, count_event, check_rate_limit,
}

unfoldable pub is_admitted : Answer Unit → Bool
is_admitted (returns done) = true
is_admitted _ = false

module _ ⦃floats : Floats⦄ where
  -- The calls of a time and a key, each with the limit and the window that the policy has for the
  -- key.
  unfoldable pub call : (String → ℕ × ℕ) → ℕ → String → Store → Answer Unit × Store
  call policy now key store =
      let (limit, window_seconds) = policy key in
      check_rate_limit now key (some limit) (some window_seconds) store

  unfoldable pub admissions : (String → ℕ × ℕ) → String → List (ℕ × String) → Store → List ℕ
  admissions policy key [] store = []
  admissions policy key ((now, other) ∷ calls) store =
      let (answer, after) = call policy now other store in
      let rest = admissions policy key calls after in
      if (other == key) && is_admitted answer then now ∷ rest else rest

unfoldable pub Ordered : ℕ → List (ℕ × String) → Type 0
Ordered clock [] = Unit {0}
Ordered clock ((now, key) ∷ calls) = (clock ≤ now) × Ordered now calls

unfoldable pub within : ℕ → ℕ → ℕ → Bool
within start width time = leb start time && ltb time (start + width)

unfoldable pub events_within : ℕ → ℕ → List ℕ → ℕ
events_within start width events = length (select (within start width) events)

pub events_within-append :
    (start width : ℕ) (xs ys : List ℕ)
    → events_within start width (xs ++ ys)
      ≡ events_within start width xs + events_within start width ys
unfolding events_within within
events_within-append start width [] ys = omega arith
events_within-append start width (x ∷ xs) ys =
    ground (arith, events_within-append start width xs ys)

-- What a window that reaches past `now` holds is not dropped.
pub events_within-drop_expired :
    (start width now : ℕ) (events : List ℕ)
    → now < start + width
    → events_within start width (drop_expired now width events) ≡ events_within start width events
unfolding events_within within drop_expired
events_within-drop_expired start width now [] h = refl
events_within-drop_expired start width now (event ∷ events) h =
    ground (arith, h, events_within-drop_expired start width now events h)

pub events_within-le :
    (start width : ℕ) (events : List ℕ) → events_within start width events ≤ length events
unfolding events_within
events_within-le start width events = length-select-le (within start width) events

pub length-drop_expired :
    (now width : ℕ) (events : List ℕ) → length (drop_expired now width events) ≤ length events
unfolding drop_expired
length-drop_expired now width [] = omega arith
length-drop_expired now width (event ∷ events) =
    ground (arith, length-drop_expired now width events)

module _ ⦃floats : Floats⦄ where
  refusal_admits_nothing :
      (now width : ℕ) (events : List ℕ) → is_admitted (refusal now width events) ≡ false
  unfolding refusal is_admitted
  refusal_admits_nothing now width [] = refl
  refusal_admits_nothing now width (event ∷ events) = refl

  -- What one call does to the events of its key, and to those of another.
  pub counted :
      (now : ℕ) (key : String) (limit width : ℕ) (store : Store)
      → let events = drop_expired now width (events_of key store) in
        let (answer, after) = count_event now key limit width store in
        (after.connected ≡ store.connected)
        × (events_of key after ≡ (if leb limit (length events) then events else events ++ now ∷ []))
        × (is_admitted answer ≡ (if leb limit (length events) then false else true))
  unfolding count_event events_of set_events or_else is_admitted
  counted now key limit width store =
      let events = drop_expired now width (events_of key store) in
      elim (Bool-cases (leb limit (length events))) [
        | inl e ↦ simp (e, lookup-put_self) (refl, refl, refusal_admits_nothing now width events)
        | inr e ↦ simp (e, lookup-put_self) (refl, refl, refl)
      ]

  pub counted_elsewhere :
      (now : ℕ) (key other : String) (limit width : ℕ) (store : Store)
      → (other == key) ≡ false
      → let after = (count_event now other limit width store).1 in
        (after.connected ≡ store.connected) × (events_of key after ≡ events_of key store)
  unfolding count_event events_of set_events
  counted_elsewhere now key other limit width store h =
      let events = drop_expired now width (events_of other store) in
      elim (Bool-cases (leb limit (length events))) [
        | inl e ↦ simp (e, lookup-put, h) (refl, refl)
        | inr e ↦ simp (e, lookup-put, h) (refl, refl)
      ]

  pub call-count_event :
      (policy : String → ℕ × ℕ) (now : ℕ) (key : String) (store : Store)
      → store.connected ≡ true
      → call policy now key store
        ≡ count_event now key (policy key).0 (seconds (policy key).1) store
  unfolding call check_rate_limit require_connected or_else
  call-count_event policy now key store up = simp up refl

  -- Calls that come later than a window has ended admit nothing in it.
  pub late_admissions :
      (policy : String → ℕ × ℕ) (key : String) (start width clock : ℕ) (calls : List (ℕ × String))
      (store : Store)
      → start + width ≤ clock
      → Ordered clock calls
      → events_within start width (admissions policy key calls store) ≡ 0
  unfolding admissions Ordered events_within within
  late_admissions policy key start width clock [] store le ordered = refl
  late_admissions policy key start width clock ((now, other) ∷ calls) store le (later, ordered) =
      let (answer, after) = call policy now other store in
      let rest =
        late_admissions policy key start width now calls after (omega (arith, le, later)) ordered in
      ground (arith, le, later, rest)
