-- ===== src/Runtime/Relay/Safety.antt =====
-- Lemmas on the marks that the relay of packages/runtime/relay.py sets.
use k8s_ops.Prelude.{
  ℕ, zero, suc, String, Bool, true, false, ◌||◌, List, [], ◌∷◌, ◌++◌, map, string_eq, contains,
  contains-append, is_empty, ◌≡◌, refl, arith, Bool-cases, inl, inr,
}
use k8s_ops.Runtime.Envelope.{Envelope}
use k8s_ops.Runtime.World.{DeadLetter}
use k8s_ops.Runtime.Relay.{
  OutboxRow, Tables, Attempt, took, too_large, too_large_unrecorded, broke, Relay, claimable,
  unsent_events, close_row, letter_of, mark_rows, mark_events_sent, mark_events_dead_lettered,
  publish, turn, publish_all, settle, run_once,
}

-- One pass: what the broker answers, the clock, and whether the write behind it is lost.
abbrev pub Pass : Type 0 → Type 0
Pass P = (Envelope P → Attempt) × (ℕ × Bool)

module _ {P : Type 0} where
  -- the event is with the broker or in the dead letters
  abbrev pub delivered : Tables P → String → Bool
  delivered t id =
      contains t.broker id
      || contains (map (λ (d : DeadLetter P). d.original_event_id) t.dead_letters) id

  -- every row of the list that is marked as sent is delivered
  abbrev pub SentSafe : Tables P → List (OutboxRow P) → Type 0
  SentSafe t [] = Unit
  SentSafe t (row ∷ rows) =
      (row.sent ≡ true → delivered t row.evt.event_id ≡ true) × SentSafe t rows

  -- the tables deliver no less than before
  abbrev Grows : Tables P → Tables P → Type 0
  Grows t u = (id : String) → delivered t id ≡ true → delivered u id ≡ true

  SentSafe-Grows :
      (t u : Tables P) (rows : List (OutboxRow P)) → Grows t u → SentSafe t rows → SentSafe u rows
  SentSafe-Grows t u [] g h = tt
  SentSafe-Grows t u (row ∷ rows) g (first, rest) =
      (λ sent. g row.evt.event_id (first sent), SentSafe-Grows t u rows g rest)

  closed_safe :
      (r : Relay) (t : Tables P) (ids : List String) (row : OutboxRow P)
      → (contains ids row.evt.event_id ≡ true → delivered t row.evt.event_id ≡ true)
      → (row.sent ≡ true → delivered t row.evt.event_id ≡ true)
      → (close_row r ids row).sent ≡ true
      → delivered t (close_row r ids row).evt.event_id ≡ true
  closed_safe r t ids row known safe sent = elim (Bool-cases (contains ids row.evt.event_id)) [
    | inl marked ↦ rw marked (known marked)
    | inr other ↦ rw other (safe (rw other at sent))
  ]

  SentSafe-mark_rows :
      (r : Relay) (t : Tables P) (ids : List String) (rows : List (OutboxRow P))
      → ((id : String) → contains ids id ≡ true → delivered t id ≡ true)
      → SentSafe t rows
      → SentSafe t (mark_rows r ids rows)
  SentSafe-mark_rows r t ids [] known h = tt
  SentSafe-mark_rows r t ids (row ∷ rows) known (first, rest) = (
    closed_safe r t ids row (known row.evt.event_id) first,
    SentSafe-mark_rows r t ids rows known rest,
  )

contains-map_append :
    {P : Type 0} (ds : List (DeadLetter P)) (d : DeadLetter P) (id : String)
    → contains (map (λ (x : DeadLetter P). x.original_event_id) (ds ++ d ∷ [])) id ≡ (
        contains (map (λ (x : DeadLetter P). x.original_event_id) ds) id
        || contains (d.original_event_id ∷ []) id)
contains-map_append [] d id = refl
contains-map_append (x ∷ ds) d id = ground (arith, contains-map_append ds d id)

module _ {P : Type 0} (r : Relay) where
  SentSafe-unsent_events :
      (t : Tables P) (now limit : ℕ) (rows : List (OutboxRow P))
      → SentSafe t rows
      → SentSafe t (unsent_events r now limit rows).0
  unfolding unsent_events
  SentSafe-unsent_events t now zero rows h = h
  SentSafe-unsent_events t now (suc limit) [] h = tt
  SentSafe-unsent_events t now (suc limit) (row ∷ rows) (first, rest) =
      elim (Bool-cases (claimable r now row)) [
        | inl taken ↦ rw taken (first, SentSafe-unsent_events t now limit rows rest)
        | inr passed ↦ rw passed (first, SentSafe-unsent_events t now (suc limit) rows rest)
      ]

  -- the published ids are with the broker
  abbrev Published : Tables P → List String → Type 0
  Published t ids = (id : String) → contains ids id ≡ true → contains t.broker id ≡ true

  publish-Grows : (evt : Envelope P) (t : Tables P) → Grows t (publish r evt t)
  publish-Grows evt t id h = ground (arith, h, contains-append t.broker (evt.event_id ∷ []) id)

  Published-publish :
      (evt : Envelope P) (t : Tables P) (ids : List String)
      → Published t ids
      → Published (publish r evt t) (ids ++ evt.event_id ∷ [])
  Published-publish evt t ids h id among = ground (
    arith,
    h id,
    among,
    contains-append t.broker (evt.event_id ∷ []) id,
    contains-append ids (evt.event_id ∷ []) id,
  )

  dead_letters-Grows :
      (t : Tables P) (d : DeadLetter P) (rows : List (OutboxRow P))
      → Grows t (record t { dead_letters = t.dead_letters ++ d ∷ []; outbox = rows })
  dead_letters-Grows t d rows id h = ground (arith, h, contains-map_append t.dead_letters d id)

  new_letter :
      (t : Tables P) (d : DeadLetter P) (rows : List (OutboxRow P)) (id : String)
      → contains (d.original_event_id ∷ []) id ≡ true
      → delivered (record t { dead_letters = t.dead_letters ++ d ∷ []; outbox = rows }) id ≡ true
  new_letter t d rows id among = ground (arith, among, contains-map_append t.dead_letters d id)

  -- What holds before and after every turn of the loop.
  abbrev Kept : Tables P → List String → Type 0
  Kept t ids = SentSafe t t.outbox × Published t ids

  turn-Kept :
      (evt : Envelope P) (ids : List String) (t : Tables P) (a : Attempt)
      → Kept t ids
      → Kept (turn r evt ids t a).0 (turn r evt ids t a).1
  unfolding turn
  turn-Kept evt ids t took (safe, sent) = (
    SentSafe-Grows t (publish r evt t) t.outbox (publish-Grows evt t) safe,
    Published-publish evt t ids sent,
  )
  turn-Kept evt ids t (too_large error) (safe, sent) =
      unfold mark_events_dead_lettered in
      let u : Tables P = record t {
        dead_letters = t.dead_letters ++ letter_of r evt error ∷ [];
        outbox = mark_rows r (evt.event_id ∷ []) t.outbox;
      } in
      (
        SentSafe-mark_rows r u (evt.event_id ∷ []) t.outbox
            (new_letter t (letter_of r evt error) u.outbox)
            (SentSafe-Grows t u t.outbox (dead_letters-Grows t (letter_of r evt error) u.outbox)
              safe),
        sent,
      )
  turn-Kept evt ids t (too_large_unrecorded error) h = h
  turn-Kept evt ids t (broke true) (safe, sent) = (
    SentSafe-Grows t (publish r evt t) t.outbox (publish-Grows evt t) safe,
    λ id among. ground (arith, sent id, among, contains-append t.broker (evt.event_id ∷ []) id),
  )
  turn-Kept evt ids t (broke false) h = h

  loop-Kept :
      (attempt : Envelope P → Attempt) (evts : List (Envelope P)) (ids : List String) (t : Tables P)
      → Kept t ids
      → Kept (publish_all r attempt evts ids t).0 (publish_all r attempt evts ids t).1
  unfolding publish_all
  loop-Kept attempt [] ids t h = h
  loop-Kept attempt (evt ∷ evts) ids t h =
      let next = turn r evt ids t (attempt evt) in
      let kept = turn-Kept evt ids t (attempt evt) h in
      elim (Bool-cases next.2) [
        | inl raised ↦ rw raised kept
        | inr goes_on ↦ rw goes_on (loop-Kept attempt evts next.1 next.0 kept)
      ]

  settle-SentSafe :
      (mark_raises raised : Bool) (t : Tables P) (ids : List String)
      → Kept t ids
      → SentSafe
          (settle r mark_raises (t, ids, raised)).0
          (settle r mark_raises (t, ids, raised)).0.outbox
  unfolding settle
  settle-SentSafe mark_raises raised t ids (safe, sent) =
      elim (Bool-cases (is_empty ids || mark_raises)) [
        | inl unmarked ↦ rw unmarked safe
        | inr marks ↦ rw marks (
            unfold mark_events_sent in
            SentSafe-mark_rows r t ids t.outbox (λ id among. ground (arith, sent id among)) safe)
      ]

  run_once-SentSafe :
      (attempt : Envelope P → Attempt) (now : ℕ) (mark_raises : Bool) (t : Tables P)
      → SentSafe t t.outbox
      → SentSafe
          (run_once r attempt now mark_raises t).0
          (run_once r attempt now mark_raises t).0.outbox
  unfolding run_once
  run_once-SentSafe attempt now mark_raises t safe =
      let claimed = unsent_events r now r.batch t.outbox in
      let start : Tables P = record t { outbox = claimed.0 } in
      let end = publish_all r attempt claimed.1 [] start in
      settle-SentSafe mark_raises end.2 end.0 end.1 (
        loop-Kept attempt claimed.1 [] start
          (SentSafe-unsent_events t now r.batch t.outbox safe, λ id among. absurd (cc among)))

  pub relay_all : Tables P → List (Pass P) → Tables P
  relay_all t [] = t
  relay_all t ((attempt, (now, mark_raises)) ∷ passes) =
      relay_all (run_once r attempt now mark_raises t).0 passes

  -- Where every outbox row that is marked as sent is with the broker or in the dead letters, that
  -- holds again after any passes of the relay, whatever the broker answered, whichever publish
  -- timed out and whichever mark was lost: no event is taken for sent that went nowhere.
  pub sent_means_delivered :
      (t : Tables P) (passes : List (Pass P))
      → SentSafe t t.outbox
      → SentSafe (relay_all t passes) (relay_all t passes).outbox
  unfolding relay_all
  sent_means_delivered t [] safe = safe
  sent_means_delivered t ((attempt, (now, mark_raises)) ∷ passes) safe =
      sent_means_delivered (run_once r attempt now mark_raises t).0 passes
        (run_once-SentSafe attempt now mark_raises t safe)
