-- ===== src/Runtime/Ledger/Laws.antt =====
-- What the statements of the ledger do to the row of one event and consumer, and to the others.
use k8s_ops.Prelude.{
  ℕ, ◌+◌, String, Bool, true, false, Option, none, some, ◌==◌, if◌then◌else◌, lookup, lookup-put,
  lookup-put_self, pair_eq, pair_beq_iff, ◌||◌, ◌↔◌, string_eq, ◌≡◌, refl, ◌⊎◌, inl, inr, arith,
  Bool-cases,
}
use k8s_ops.Runtime.Envelope.{Envelope}
use k8s_ops.Runtime.Ledger.{
  Status, processing, processed, retrying, dead_lettered, stored, claim_blocked, Row, Rows, Key,
  key_of, Claim, is_terminal, is_processing, may_claim, begin_event_processing,
  finish_event_processing, fail_event_processing, update_row, update_found, claim_found,
  refused_claim, claim_record, claim_event_processing,
}

abbrev pub status_in : Option Row → Option Status
status_in none = none
status_in (some row) = some row.status

abbrev pub attempts_in : Option Row → ℕ
attempts_in none = 0
attempts_in (some row) = row.attempts

unfoldable pub status_of : Key → Rows → Option Status
status_of k rows = status_in (lookup k rows)

pub attempts_of : Key → Rows → ℕ
attempts_of k rows = attempts_in (lookup k rows)

pub status_of-lookup :
    (k : Key) (rows rows' : Rows)
    → lookup k rows ≡ lookup k rows'
    → status_of k rows ≡ status_of k rows'
unfolding status_of
status_of-lookup k rows rows' e = rw e

abbrev pub terminal_in : Option Status → Bool
terminal_in none = false
terminal_in (some status) = is_terminal status

key_iff : (k j : Key) → ((k == j) ≡ true) ↔ (k ≡ j)
key_iff k j = pair_beq_iff k j

abbrev map_row : (Row → Row) → Option Row → Option Row
map_row f none = none
map_row f (some row) = some (f row)

lookup-update_found :
    (k j : Key) (f : Row → Row) (rows : Rows) (found : Option Row)
    → lookup k rows ≡ found
    → lookup j (update_found k f rows found) ≡ (if k == j then map_row f found else lookup j rows)
lookup-update_found k j f rows none h = ground (arith, key_iff k j)
lookup-update_found k j f rows (some row) h = lookup-put k j (f row) rows

-- An update changes the row of its key alone.
pub lookup-update_row :
    (k j : Key) (f : Row → Row) (rows : Rows)
    → lookup j (update_row k f rows) ≡ (if k == j then map_row f (lookup k rows) else lookup j rows)
unfolding update_row
lookup-update_row k j f rows = lookup-update_found k j f rows (lookup k rows) refl

open_of_may_claim :
    (stale now : ℕ) (row : Row) → may_claim stale now row ≡ true → is_terminal row.status ≡ false
open_of_may_claim stale now row h = ground arith

refused_status :
    (stale now : ℕ) (row : Row)
    → may_claim stale now row ≡ false
    → ((refused_claim (some row)).status ≡ claim_blocked) × (some row.status ≡ some processing)
      ⊎ ((status : Status) × ((refused_claim (some row)).status ≡ stored status)
          × (is_terminal status ≡ true)
          × (some row.status ≡ some status))
refused_status stale now row h = refused row.status (ground arith) refl
  where
    refused :
        (status : Status)
        → (is_terminal status || is_processing status) ≡ true
        → row.status ≡ status
        → ((refused_claim (some row)).status ≡ claim_blocked) × (some row.status ≡ some processing)
          ⊎ ((status : Status) × ((refused_claim (some row)).status ≡ stored status)
              × (is_terminal status ≡ true)
              × (some row.status ≡ some status))
    refused processing _ e = inl (rw e, rw e)
    refused retrying h e = cc
    refused processed _ e = inr (processed, rw e, refl, rw e)
    refused dead_lettered _ e = inr (dead_lettered, rw e, refl, rw e)

-- What a claim does: it is granted on a row that is absent or open, and then the row is
-- PROCESSING with one more attempt; or the table is as before, and the answer says why.
module _ {P : Type 0} (stale now : ℕ) (evt : Envelope P) (consumer : String) (rows : Rows) where
  abbrev pub Granted : Rows × Claim → Type 0
  Granted (rows', claim) =
      (terminal_in (status_of (key_of evt consumer) rows) ≡ false)
      × (claim.status ≡ stored processing)
      × (claim.attempts ≡ attempts_of (key_of evt consumer) rows + 1)
      × (status_of (key_of evt consumer) rows' ≡ some processing)
      × (attempts_of (key_of evt consumer) rows' ≡ claim.attempts)
      × ((j : Key) → (key_of evt consumer == j) ≡ false → lookup j rows' ≡ lookup j rows)

  abbrev pub Refused : Rows × Claim → Type 0
  Refused (rows', claim) =
      (rows' ≡ rows)
      × ((claim.status ≡ claim_blocked) × (status_of (key_of evt consumer) rows ≡ some processing)
          ⊎ ((status : Status) × (claim.status ≡ stored status)
              × (is_terminal status ≡ true)
              × (status_of (key_of evt consumer) rows ≡ some status)))

  found-cases :
      (found : Option Row)
      → lookup (key_of evt consumer) rows ≡ found
      → (let (rows', row) = claim_found stale now evt consumer rows found in
          Granted (rows', claim_record row (lookup (key_of evt consumer) rows'))
          ⊎ Refused (rows', claim_record row (lookup (key_of evt consumer) rows')))
  unfolding status_of attempts_of
  found-cases none h = inl (
    rw h,
    refl,
    rw h (omega arith),
    rw lookup-put_self,
    rw lookup-put_self,
    λ j e. rw (lookup-put, e),
  )
  found-cases (some row) h = elim (Bool-cases (may_claim stale now row)) [
    | inl granted ↦ rw granted (
        inl (
          rw h (open_of_may_claim stale now row granted),
          refl,
          rw h refl,
          rw lookup-put_self refl,
          rw lookup-put_self refl,
          λ j e. rw (lookup-put, e) refl,
        ))
    | inr refused ↦ rw refused (inr (refl, rw h (refused_status stale now row refused)))
  ]

  pub begin-cases :
      Granted (begin_event_processing stale now evt consumer rows)
      ⊎ Refused (begin_event_processing stale now evt consumer rows)
  unfolding begin_event_processing claim_event_processing
  begin-cases = found-cases (lookup (key_of evt consumer) rows) refl

abbrev pub closed_as : Status → Option Status → Option Status
closed_as status none = none
closed_as status (some _) = some status

module _ {P : Type 0} (now : ℕ) (evt : Envelope P) (consumer : String) (duration : Option ℕ)
    (rows : Rows) where
  pub status-finish :
      (j : Key)
      → status_of j (finish_event_processing now evt consumer duration rows) ≡ (
          if key_of evt consumer == j
          then closed_as processed (status_of (key_of evt consumer) rows)
          else status_of j rows)
  unfolding status_of finish_event_processing
  status-finish j = rw lookup-update_row (ground (arith))

  pub status-fail :
      (limit : ℕ) (error : String) (status : Status) (j : Key)
      → status_of j (fail_event_processing limit now evt consumer error status duration rows) ≡ (
          if key_of evt consumer == j
          then closed_as status (status_of (key_of evt consumer) rows)
          else status_of j rows)
  unfolding status_of fail_event_processing
  status-fail limit error status j = rw lookup-update_row (ground (arith))
