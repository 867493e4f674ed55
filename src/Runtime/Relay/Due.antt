-- ===== src/Runtime/Relay/Due.antt =====
-- Which rows `unsent_events` of packages/storage/repositories/outbox.py leases.
use k8s_ops.Prelude.{
  ℕ, zero, suc, ◌<◌, String, Bool, true, false, not, ◌&&◌, Option, none, some, List, [], ◌∷◌,
  string_eq, ◌≡◌, refl, arith, ◌↔◌, Bool-cases, inl, inr, beq_true, beq_self,
}
use k8s_ops.Runtime.Envelope.{Envelope}
use k8s_ops.Runtime.Relay.{OutboxRow, Relay, lease_over, from_source, claimable, unsent_events}

-- no lease runs
abbrev LeaseOver : ℕ → Option ℕ → Type 0
LeaseOver now none = Unit
LeaseOver now (some until) = until < now

-- the relay serves the source: every one, or the one that it is set to
abbrev Served : Option String → String → Type 0
Served none source = Unit
Served (some wanted) source = source ≡ wanted

lease_over-LeaseOver : (now : ℕ) (o : Option ℕ) → (lease_over now o ≡ true) ↔ LeaseOver now o
lease_over-LeaseOver now none = (λ h. tt, λ h. refl)
lease_over-LeaseOver now (some until) = (λ h. ground (arith, h), λ h. ground (arith, h))

from_source-Served :
    (o : Option String) (source : String) → (from_source o source ≡ true) ↔ Served o source
from_source-Served none source = (λ h. tt, λ h. refl)
from_source-Served (some wanted) source =
    (beq_true source wanted, λ same. rw same (beq_self wanted))

module _ {P : Type 0} (r : Relay) where
  -- a row that waits to be published: it is not sent, no lease on it runs, and it is of the source
  -- that the relay serves
  abbrev pub IsDue : ℕ → OutboxRow P → Type 0
  IsDue now row =
      (row.sent ≡ false) × LeaseOver now row.leased_until × Served r.source row.evt.source

  -- The events of the first rows that are due, in their order: as many as there is room for.
  pub data FirstDue (now : ℕ) : ℕ → List (OutboxRow P) → List (Envelope P) → Type 0 where
    no_room : {rows : List (OutboxRow P)} → FirstDue now 0 rows []
    no_rows : {room : ℕ} → FirstDue now room [] []
    due :
        {room : ℕ} {row : OutboxRow P} {rows : List (OutboxRow P)} {evts : List (Envelope P)}
        → IsDue now row
        → FirstDue now room rows evts
        → FirstDue now (suc room) (row ∷ rows) (row.evt ∷ evts)
    passed :
        {room : ℕ} {row : OutboxRow P} {rows : List (OutboxRow P)} {evts : List (Envelope P)}
        → ¬ IsDue now row
        → FirstDue now (suc room) rows evts
        → FirstDue now (suc room) (row ∷ rows) evts

  claimable_iff : (now : ℕ) (row : OutboxRow P) → (claimable r now row ≡ true) ↔ IsDue now row
  claimable_iff now row = (
    λ h.
        let (open_row, free, served) =
          parts row.sent (lease_over now row.leased_until) (from_source r.source row.evt.source)
            h in
        (
          open_row,
          (lease_over-LeaseOver now row.leased_until).0 free,
          (from_source-Served r.source row.evt.source).0 served,
        ),
    λ (open_row, free, served).
        rw
          (
            open_row,
            (lease_over-LeaseOver now row.leased_until).1 free,
            (from_source-Served r.source row.evt.source).1 served,
          )
          refl,
  )
    where
      parts : (a b c : Bool) → (not a && b && c) ≡ true → (a ≡ false) × (b ≡ true) × (c ≡ true)
      parts a b c h = (ground (arith, h), ground (arith, h), ground (arith, h))

  pub unsent_events-FirstDue :
      (now room : ℕ) (rows : List (OutboxRow P))
      → FirstDue now room rows (unsent_events r now room rows).1
  unfolding unsent_events
  unsent_events-FirstDue now zero rows = no_room
  unsent_events-FirstDue now (suc room) [] = no_rows
  unsent_events-FirstDue now (suc room) (row ∷ rows) = elim (Bool-cases (claimable r now row)) [
    | inl taken ↦
        rw taken (due ((claimable_iff now row).0 taken) (unsent_events-FirstDue now room rows))
    | inr waits ↦ rw waits (
        passed (λ is_due. absurd (cc (waits, (claimable_iff now row).1 is_due)))
          (unsent_events-FirstDue now (suc room) rows))
  ]
