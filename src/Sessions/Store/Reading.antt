-- ===== src/Sessions/Store/Reading.antt =====
-- `get_session` of packages/storage/sessions.py against the abstract authority.
use k8s_ops.Prelude.{
  ℕ, ◌≤◌, String, Option, none, some, if◌then◌else◌, leb, string_eq, lookup, ◌≡◌, refl, sym,
  Bool-cases, inl, inr, ◌∙◌,
}
use k8s_ops.Sessions.State.{AuthSession, Config, Store, Answer, returns, not_connected}
use k8s_ops.Sessions.Store.{get_session, require_connected, read_lease, read_session, present}
use k8s_ops.Sessions.Store.Leases.{Authority, alive, read_alive}
use k8s_ops.Sessions.Store.Agreement.{
  Agrees, token_in, Owned, Refines, Agrees-later, Refines-later, Owned-remove,
  Agrees-remove_expired,
}

pub lease_read :
    (now : ℕ) (token : String) (found : Option (ℕ × AuthSession)) (config : Config) (clock : ℕ)
    (store : Store) (authority : Authority)
    → clock ≤ now
    → lookup token store.sessions ≡ found
    → Refines config clock store authority
    → ((read_lease now token found store).0 ≡ alive now (authority.lease token))
      × Refines config now (read_lease now token found store).1 authority
unfolding read_lease alive Agrees
lease_read now token none config clock store authority le found r =
    let reading = r.agrees token now le in
    (rw found at reading, Refines-later config clock now store authority le r)
lease_read now token (some (expires_at, session)) config clock store authority le found r =
    let reading = r.agrees token now le in
    elim (Bool-cases (leb expires_at now)) [
      | inl e ↦ rw e (
        rw (found, e) at reading,
        record {
          same_config = r.same_config;
          same_availability = r.same_availability;
          agrees =
              Agrees-remove_expired now store.sessions authority.lease token expires_at session
                found e (Agrees-later clock now store.sessions authority.lease le r.agrees);
          owned = Owned-remove store.sessions token r.owned;
        },
      )
      | inr e ↦ rw e (rw (found, e) at reading, Refines-later config clock now store authority le r)
    ]

pub session_read :
    (now : ℕ) (token : Option String) (config : Config) (clock : ℕ) (store : Store)
    (authority : Authority)
    → clock ≤ now
    → Refines config clock store authority
    → ((read_session now token store).0 ≡ read_alive now token authority)
      × Refines config now (read_session now token store).1 authority
unfolding read_session
session_read now none config clock store authority le r =
    (refl, Refines-later config clock now store authority le r)
session_read now (some token) config clock store authority le r =
    lease_read now token (lookup token store.sessions) config clock store authority le refl r

-- The session that a reading returns stands under the token it was asked for.
pub own_lease :
    (now : ℕ) (token : String) (found : Option (ℕ × AuthSession)) (store : Store)
    → token_in found token ≡ token
    → (session : AuthSession) → (read_lease now token found store).0 ≡ some session
    → some token ≡ some session.token
unfolding read_lease token_in
own_lease now token none store own session e = absurd (cc e)
own_lease now token (some (expires_at, stored)) store own session e =
    elim (Bool-cases (leb expires_at now)) [
      | inl q ↦ absurd (cc (rw q at e))
      | inr q ↦ let same : some stored ≡ some session = rw q at e in cc (same, own)
    ]

pub own_reading :
    (now : ℕ) (token : Option String) (store : Store)
    → Owned store.sessions
    → (session : AuthSession) → (read_session now token store).0 ≡ some session
    → token ≡ some session.token
unfolding read_session Owned
own_reading now none store owned session e = absurd (cc e)
own_reading now (some token) store owned session e =
    own_lease now token (lookup token store.sessions) store (owned token) session e

-- What a call answers about the sessions, from the abstract authority.
unfoldable pub answer_of : ℕ → Option String → Authority → Answer (Option AuthSession)
answer_of now token authority =
    if authority.available
    then returns (read_alive now (present token) authority)
    else not_connected

pub get_step :
    (now : ℕ) (token : Option String) (config : Config) (clock : ℕ) (store : Store)
    (authority : Authority)
    → clock ≤ now
    → Refines config clock store authority
    → ((get_session now token store).0 ≡ answer_of now token authority)
      × Refines config now (get_session now token store).1 authority
unfolding get_session require_connected answer_of
get_step now token config clock store authority le r =
    let (same, after) = session_read now (present token) config clock store authority le r in
    elim (Bool-cases store.connected) [
      | inl e ↦ let up = sym r.same_availability ∙ e in simp (e, up, same) (refl, after)
      | inr e ↦
          let down = sym r.same_availability ∙ e in
          simp (e, down) (refl, Refines-later config clock now store authority le r)
    ]
