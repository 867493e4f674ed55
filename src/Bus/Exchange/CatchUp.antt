-- ===== src/Bus/Exchange/CatchUp.antt =====
-- Publishing and subscribing in any order, in packages/events/in_memory.py.
use k8s_ops.Prelude.{
  String, Bool, true, false, Option, none, some, List, [], ◌∷◌, ◌++◌, map, select, if◌then◌else◌,
  ◌==◌, string_eq, pair_eq, Table, lookup, put, ◌≡◌, refl, ap, sym, ◌∙◌, Bool-cases, inl, inr,
}
use k8s_ops.Bus.Subscription.{Queued, Subscription, empty, enqueue}
use k8s_ops.Bus.Exchange.{
  StoredEvent, Key, Exchange, fresh_exchange, connect, matches, offer, offer_all, publish_envelope,
  catch_up, subscribed, subscribe,
}

abbrev pub fresh : StoredEvent → Queued
fresh stored = record { data_of = stored.data_of; redelivery = false }

append_nil : {A : Type 0} (xs : List A) → xs ++ [] ≡ xs
append_nil [] = refl
append_nil (x ∷ xs) = ap (λ rest. x ∷ rest) (append_nil xs)

append_two : {A : Type 0} (xs ys zs : List A) → (xs ++ ys) ++ zs ≡ xs ++ (ys ++ zs)
append_two [] ys zs = refl
append_two (x ∷ xs) ys zs = ap (λ rest. x ∷ rest) (append_two xs ys zs)

if_connected : {A : Type 0} (b : Bool) (x : A) → b ≡ true → (if b then some x else none) ≡ some x
if_connected b x h = rw h refl

module _ (tokens : String → List String) where
  -- the items of the events that the subject matches, in the order of the events
  abbrev pub matching : String → List StoredEvent → List Queued
  matching subject events = map fresh (select (λ e. matches tokens subject e) events)

  -- an open subscription that no client has touched, with these items
  abbrev pub Holds : List Queued → Subscription → Type 0
  Holds items s = (s.closed ≡ false) × (s.queue ≡ items)

  -- every subscription holds the matching events
  abbrev pub InSync : List StoredEvent → Table Key Subscription → Type 0
  InSync events [] = Unit
  InSync events ((key, s) ∷ rest) = Holds (matching key.0 events) s × InSync events rest

  enqueue-Holds :
      (items : List Queued) (stored : StoredEvent) (s : Subscription)
      → Holds items s
      → Holds (items ++ fresh stored ∷ []) (enqueue s stored.data_of)
  unfolding enqueue
  enqueue-Holds items stored s (is_open, queue) =
      simp is_open (refl, ap (λ (q : List Queued). q ++ fresh stored ∷ []) queue)

  matching_one : String → StoredEvent → List Queued
  matching_one subject stored = if matches tokens subject stored then fresh stored ∷ [] else []

  offer-Holds :
      (subject : String) (items : List Queued) (stored : StoredEvent) (s : Subscription)
      → Holds items s
      → Holds (items ++ matching_one subject stored) (offer tokens subject stored s)
  unfolding matching_one
  offer-Holds subject items stored s h = elim (Bool-cases (matches tokens subject stored)) [
    | inl hit ↦ rw hit (enqueue-Holds items stored s h)
    | inr miss ↦ rw (miss, append_nil items) h
  ]

  matching-append :
      (subject : String) (events : List StoredEvent) (stored : StoredEvent)
      → matching subject (events ++ stored ∷ [])
        ≡ matching subject events ++ matching_one subject stored
  unfolding matching_one
  matching-append subject [] stored = elim (Bool-cases (matches tokens subject stored)) [
    | inl hit ↦ rw hit refl
    | inr miss ↦ rw miss refl
  ]
  matching-append subject (e ∷ events) stored = elim (Bool-cases (matches tokens subject e)) [
    | inl hit ↦ rw hit (ap (λ rest. fresh e ∷ rest) (matching-append subject events stored))
    | inr miss ↦ rw miss (matching-append subject events stored)
  ]

  matching-cons :
      (subject : String) (stored : StoredEvent) (events : List StoredEvent) (items : List Queued)
      → items ++ matching subject (stored ∷ events)
        ≡ (items ++ matching_one subject stored) ++ matching subject events
  unfolding matching_one
  matching-cons subject stored events items = elim (Bool-cases (matches tokens subject stored)) [
    | inl hit ↦ rw (hit, append_two items (fresh stored ∷ []) (matching subject events)) refl
    | inr miss ↦ rw (miss, append_nil items) refl
  ]

  InSync-offer_all :
      (events : List StoredEvent) (stored : StoredEvent) (t : Table Key Subscription)
      → InSync events t
      → InSync (events ++ stored ∷ []) (offer_all tokens stored t)
  unfolding offer_all
  InSync-offer_all events stored [] h = tt
  InSync-offer_all events stored ((key, s) ∷ rest) (first, others) = (
    rw (matching-append key.0 events stored)
        (offer-Holds key.0 (matching key.0 events) stored s first),
    InSync-offer_all events stored rest others,
  )

  catch_up-Holds :
      (subject : String) (events : List StoredEvent) (items : List Queued) (s : Subscription)
      → Holds items s
      → Holds (items ++ matching subject events) (catch_up tokens subject events s)
  unfolding catch_up
  catch_up-Holds subject [] items s h = rw (append_nil items) h
  catch_up-Holds subject (stored ∷ events) items s h =
      rw (matching-cons subject stored events items) (
        catch_up-Holds subject events (items ++ matching_one subject stored)
          (offer tokens subject stored s) (offer-Holds subject items stored s h))

  InSync-put :
      (events : List StoredEvent) (key : Key) (s : Subscription) (t : Table Key Subscription)
      → Holds (matching key.0 events) s
      → InSync events t
      → InSync events (put key s t)
  unfolding put
  InSync-put events key s [] held h = (held, tt)
  InSync-put events key s ((j, r) ∷ rest) held (first, others) = elim (Bool-cases (j == key)) [
    | inl same ↦ rw same (held, others)
    | inr other ↦ rw other (first, InSync-put events key s rest held others)
  ]

pub data Step : Type 0 where
  publish_step : StoredEvent → Step
  subscribe_step : Key → Step

pub published : List Step → List StoredEvent
published [] = []
published (publish_step stored ∷ steps) = stored ∷ published steps
published (subscribe_step key ∷ steps) = published steps

module _ (tokens : String → List String) where
  abbrev pub step : Step → Exchange → Option Exchange
  step (publish_step stored) x = publish_envelope tokens stored x
  step (subscribe_step key) x = subscribe tokens key x

  pub run_steps : Option Exchange → List Step → Option Exchange
  run_steps none steps = none
  run_steps (some x) [] = some x
  run_steps (some x) (op ∷ steps) = run_steps (step op x) steps

  pub record InOrder (x : Exchange) : Type 0 where
    pub is_connected : x.connected ≡ true
    pub in_sync : InSync tokens x.events x.subscriptions

  subscribed-InOrder :
      (x : Exchange) (key : Key) (known : Option Subscription)
      → InOrder x
      → InOrder (subscribed tokens x key known)
  subscribed-InOrder x key (some s) h = h
  subscribed-InOrder x key none h = record {
    is_connected = h.is_connected;
    in_sync =
        InSync-put tokens x.events key (catch_up tokens key.0 x.events empty) x.subscriptions
          (catch_up-Holds tokens key.0 x.events [] empty (unfold empty in (refl, refl))) h.in_sync;
  }

  subscribed-events :
      (x : Exchange) (key : Key) (known : Option Subscription)
      → (subscribed tokens x key known).events ≡ x.events
  subscribed-events x key (some s) = refl
  subscribed-events x key none = refl

  run_steps-InOrder :
      (x : Exchange) (steps : List Step)
      → InOrder x
      → (y : Exchange) × (run_steps (some x) steps ≡ some y)
        × (y.events ≡ x.events ++ published steps)
        × InOrder y
  unfolding run_steps published publish_envelope subscribe
  run_steps-InOrder x [] h = (x, refl, sym (append_nil x.events), h)
  run_steps-InOrder x (publish_step stored ∷ steps) h =
      let next : Exchange = record x {
        events = x.events ++ stored ∷ [];
        subscriptions = offer_all tokens stored x.subscriptions;
      } in
      let (y, ran, events, order) = run_steps-InOrder next steps (record {
        is_connected = h.is_connected;
        in_sync = InSync-offer_all tokens x.events stored x.subscriptions h.in_sync;
      }) in
      (
        y,
        ap (λ o. run_steps o steps) (if_connected x.connected next h.is_connected) ∙ ran,
        events ∙ append_two x.events (stored ∷ []) (published steps),
        order,
      )
  run_steps-InOrder x (subscribe_step key ∷ steps) h =
      let next = subscribed tokens x key (lookup key x.subscriptions) in
      let (y, ran, events, order) =
        run_steps-InOrder next steps (subscribed-InOrder x key (lookup key x.subscriptions) h) in
      (
        y,
        ap (λ o. run_steps o steps) (if_connected x.connected next h.is_connected) ∙ ran,
        events
            ∙ ap (λ es. es ++ published steps)
                (subscribed-events x key (lookup key x.subscriptions)),
        order,
      )

  -- On a bus that is connected, no publish or subscribe raises, and after any of them in any order
  -- every subscription holds, in the order of publication and once each, the events of all that were
  -- published whose subject it matches: it does not matter which were published before it was there.
  pub late_subscribers_catch_up :
      (steps : List Step)
      → (y : Exchange) × (run_steps (connect fresh_exchange) steps ≡ some y)
        × (y.events ≡ published steps)
        × InSync tokens y.events y.subscriptions
  unfolding connect
  late_subscribers_catch_up steps =
      let (y, ran, events, order) =
        run_steps-InOrder (record fresh_exchange { connected = true }) steps
          (record { is_connected = refl; in_sync = tt }) in
      (y, ran, events, order.in_sync)
