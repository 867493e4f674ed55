-- ===== src/Sessions/Store/Refinement.antt =====
-- The calls on the sessions of `MemorySessionStore` (packages/storage/sessions.py) against the
-- abstract authority of Leases, one by one and in a run.
use k8s_ops.Prelude.{
  ℕ, ◌+◌, ◌≤◌, String, false, Option, none, some, List, [], ◌∷◌, string_eq, lookup, ◌≡◌, refl, sym,
  arith, Bool-cases, inl, inr, ◌∙◌,
}
use k8s_ops.Sessions.State.{AuthSession, Config, Store, returns, seconds}
use k8s_ops.Sessions.Store.{
  connect, close, create_session, get_session, touch_session, delete_session, new_session,
  require_connected, read_session, present, renew,
}
use k8s_ops.Sessions.Store.Leases.{
  Request, Operation, connects, closes, creates, reads, touches, deletes, perform, run, Authority,
  alive, grant, renew_alive, promise, promises, starts, ends, InOrder,
}
use k8s_ops.Sessions.Store.Agreement.{
  Agrees, token_in, Owned, Refines, Agrees-later, Refines-later, Agrees-put, Agrees-remove,
  Owned-put, Owned-remove,
}
use k8s_ops.Sessions.Store.Reading.{session_read, own_reading, answer_of, get_step}

pub renew_step :
    (later : ℕ) (token : Option String) (found : Option AuthSession) (config : Config) (clock : ℕ)
    (store : Store) (authority : Authority)
    → clock ≤ later
    → ((session : AuthSession) → found ≡ some session → token ≡ some session.token)
    → Refines config clock store authority
    → Refines config later
        (renew later (returns found, store)).1
        (renew_alive later config token found authority)
unfolding renew renew_alive grant
renew_step later none none config clock store authority le own r =
    Refines-later config clock later store authority le r
renew_step later (some token) none config clock store authority le own r =
    Refines-later config clock later store authority le r
renew_step later none (some session) config clock store authority le own r =
    absurd (cc (own session refl))
renew_step later (some token) (some session) config clock store authority le own r =
    let asked : some token ≡ some session.token = own session refl in
    let same : session.token ≡ token = cc asked in
    record {
      same_config = r.same_config;
      same_availability = r.same_availability;
      agrees =
          simp (r.same_config, same)
            (Agrees-put later store.sessions authority.lease token
              (later + seconds config.ttl_seconds, session)
              (Agrees-later clock later store.sessions authority.lease le r.agrees));
      owned =
          Owned-put store.sessions session.token (later + seconds store.config.ttl_seconds) session
            refl r.owned;
    }

pub touch_step :
    (now later : ℕ) (token : Option String) (config : Config) (clock : ℕ) (store : Store)
    (authority : Authority)
    → clock ≤ now
    → now ≤ later
    → Refines config clock store authority
    → Refines config later
        (touch_session now later token store).1
        (promise config (touches now later token) authority)
unfolding touch_session get_session require_connected promise
touch_step now later token config clock store authority le le' r =
    let (same, after) = session_read now (present token) config clock store authority le r in
    let reading = read_session now (present token) store in
    elim (Bool-cases store.connected) [
      | inl e ↦
          let up = sym r.same_availability ∙ e in
          let own = own_reading now (present token) store r.owned in
          simp (e, up)
            (rw (sym same) (
              renew_step later (present token) reading.0 config now reading.1 authority le' own
                after))
      | inr e ↦
          let down = sym r.same_availability ∙ e in
          simp (e, down)
            (Refines-later config clock later store authority (omega (arith, le, le')) r)
    ]

pub create_step :
    (now : ℕ) (token : String) (q : Request) (config : Config) (clock : ℕ) (store : Store)
    (authority : Authority)
    → clock ≤ now
    → Refines config clock store authority
    → Refines config now
        (create_session now token q.user_id q.roles q.workspace_id q.display_name q.email
          q.auth_mode store).1
        (promise config (creates now token q) authority)
unfolding create_session new_session require_connected promise grant
create_step now token q config clock store authority le r = elim (Bool-cases store.connected) [
  | inl e ↦
      let up = sym r.same_availability ∙ e in
      let session =
        new_session config token q.user_id q.roles q.workspace_id q.display_name q.email
          q.auth_mode in
      simp (e, up, r.same_config)
        (record {
          same_config = refl;
          same_availability = refl;
          agrees =
              Agrees-put now store.sessions authority.lease token
                (now + seconds config.ttl_seconds, session)
                (Agrees-later clock now store.sessions authority.lease le r.agrees);
          owned =
              Owned-put store.sessions token (now + seconds config.ttl_seconds) session refl
                r.owned;
        })
  | inr e ↦
      let down = sym r.same_availability ∙ e in
      simp (e, down) (Refines-later config clock now store authority le r)
]

pub delete_step :
    (token : String) (config : Config) (clock : ℕ) (store : Store) (authority : Authority)
    → Refines config clock store authority
    → Refines config clock (delete_session token store).1 (promise config (deletes token) authority)
unfolding delete_session require_connected promise
delete_step token config clock store authority r = elim (Bool-cases store.connected) [
  | inl e ↦
      let up = sym r.same_availability ∙ e in
      simp (e, up)
        (record {
          same_config = r.same_config;
          same_availability = refl;
          agrees = Agrees-remove clock store.sessions authority.lease token r.agrees;
          owned = Owned-remove store.sessions token r.owned;
        })
  | inr e ↦ let down = sym r.same_availability ∙ e in simp (e, down) r
]

pub step :
    (operation : Operation) (config : Config) (clock : ℕ) (store : Store) (authority : Authority)
    → clock ≤ starts clock operation
    → starts clock operation ≤ ends clock operation
    → Refines config clock store authority
    → Refines config
        (ends clock operation)
        (perform operation store)
        (promise config operation authority)
unfolding perform promise connect close starts ends Agrees Owned token_in alive lookup
step connects config clock store authority le le' r = record {
  same_config = r.same_config;
  same_availability = refl;
  agrees = r.agrees;
  owned = r.owned;
}
step closes config clock store authority le le' r = record {
  same_config = r.same_config;
  same_availability = refl;
  agrees = λ token t h. refl;
  owned = λ token. refl;
}
step (creates now token q) config clock store authority le le' r =
    create_step now token q config clock store authority le r
step (reads now token) config clock store authority le le' r =
    (get_step now token config clock store authority le r).1
step (touches now later token) config clock store authority le le' r =
    touch_step now later token config clock store authority le le' r
step (deletes token) config clock store authority le le' r =
    delete_step token config clock store authority r

pub refines :
    (operations : List Operation) (config : Config) (clock now : ℕ) (store : Store)
    (authority : Authority)
    → InOrder clock operations now
    → Refines config clock store authority
    → Refines config now (run operations store) (promises config operations authority)
unfolding run promises InOrder
refines [] config clock now store authority order r =
    Refines-later config clock now store authority order r
refines (operation ∷ rest) config clock now store authority (le, le', order) r =
    refines rest config (ends clock operation) now (perform operation store)
      (promise config operation authority) order
      (step operation config clock store authority le le' r)

unfoldable pub opened : Config → Store
opened config = record {
  config = config;
  connected = false;
  sessions = [];
  verifications = [];
  rate_events = [];
  strikes = [];
  locks = [];
}

unfoldable pub no_leases : Authority
no_leases = record { available = false; lease = λ token. none }

pub opened_refines : (config : Config) → Refines config 0 (opened config) no_leases
unfolding opened no_leases Agrees Owned token_in lookup
opened_refines config = record {
  same_config = refl;
  same_availability = refl;
  agrees = λ token t h. refl;
  owned = λ token. refl;
}

-- After any calls whose readings of the clock never run back, `get_session` answers as the abstract
-- authority does, which keeps one lease for each token: the lease of the last creation under that
-- token, moved by each renewal that came in time and ended by a deletion or a close alone, whatever
-- expired rows other readings have dropped meanwhile; an authority that is not connected says so.
pub sessions_refine_leases :
    (config : Config) (operations : List Operation) (now : ℕ) (token : Option String)
    → InOrder 0 operations now
    → (get_session now token (run operations (opened config))).0
      ≡ answer_of now token (promises config operations no_leases)
sessions_refine_leases config operations now token order =
    (get_step now token config now (run operations (opened config))
      (promises config operations no_leases) (omega arith)
      (refines operations config 0 now (opened config) no_leases order (opened_refines config))).0
