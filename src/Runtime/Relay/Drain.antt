-- ===== src/Runtime/Relay/Drain.antt =====
-- A pass of the relay of packages/runtime/relay.py with a broker that takes everything.
use k8s_ops.Prelude.{String, List, [], ◌∷◌, map, string_eq, ◌≡◌, true, none, In, ◌⊎◌}
use k8s_ops.Runtime.Envelope.{Envelope}
use k8s_ops.Runtime.Relay.{OutboxRow, Relay}

module _ {P : Type 0} (r : Relay) where
  abbrev pub ids_of : List (Envelope P) → List String
  ids_of evts = map (λ (e : Envelope P). e.event_id) evts

  -- A row whose event is among the published ones is sent and without a lease, any other is as
  -- before.
  abbrev pub Closes : List (Envelope P) → OutboxRow P → OutboxRow P → Type 0
  Closes evts old new =
      (In old.evt.event_id (ids_of evts) × (new ≡ record old { sent = true; leased_until = none }))
      ⊎ ((¬ In old.evt.event_id (ids_of evts)) × (new ≡ old))

  -- this of each row, in their order
  abbrev pub OnlyTheseSent : List (Envelope P) → List (OutboxRow P) → List (OutboxRow P) → Type 0
  OnlyTheseSent evts [] [] = Unit
  OnlyTheseSent evts [] (new ∷ news) = ⊥
  OnlyTheseSent evts (old ∷ olds) [] = ⊥
  OnlyTheseSent evts (old ∷ olds) (new ∷ news) = Closes evts old new × OnlyTheseSent evts olds news
