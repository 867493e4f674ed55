-- ===== src/Sessions/Store/Agreement.antt =====
-- The table of sessions of `MemorySessionStore` (packages/storage/sessions.py) and the leases of
-- an abstract authority: what they say from a time on.
use k8s_ops.Prelude.{
  ℕ, ◌≤◌, String, true, Option, none, some, if◌then◌else◌, leb, ◌==◌, string_eq, Table, lookup, put,
  remove, lookup-put, lookup-remove, ◌≡◌, sym, arith, Bool-cases, beq_true, inl, inr,
}
use k8s_ops.Sessions.State.{AuthSession, Config, Store}
use k8s_ops.Sessions.Store.Leases.{Authority, alive}

-- What a table of sessions says agrees with the leases from a time on.
unfoldable pub Agrees :
    ℕ → Table String (ℕ × AuthSession) → (String → Option (ℕ × AuthSession)) → Type 0
Agrees clock table lease =
    (token : String) (t : ℕ) → clock ≤ t → alive t (lookup token table) ≡ alive t (lease token)

unfoldable pub token_in : Option (ℕ × AuthSession) → String → String
token_in none token = token
token_in (some (expires_at, session)) token = session.token

-- Each session is stored under its own token.
unfoldable pub Owned : Table String (ℕ × AuthSession) → Type 0
Owned table = (token : String) → token_in (lookup token table) token ≡ token

pub record Refines (config : Config) (clock : ℕ) (store : Store) (authority : Authority)
    : Type 0 where
  pub same_config : store.config ≡ config
  pub same_availability : store.connected ≡ authority.available
  pub agrees : Agrees clock store.sessions authority.lease
  pub owned : Owned store.sessions

pub Agrees-later :
    (clock later : ℕ) (table : Table String (ℕ × AuthSession))
    (lease : String → Option (ℕ × AuthSession))
    → clock ≤ later
    → Agrees clock table lease
    → Agrees later table lease
unfolding Agrees
Agrees-later clock later table lease le agrees token t h = agrees token t (omega (arith, le, h))

pub Refines-later :
    (config : Config) (clock later : ℕ) (store : Store) (authority : Authority)
    → clock ≤ later
    → Refines config clock store authority
    → Refines config later store authority
Refines-later config clock later store authority le r = record {
  same_config = r.same_config;
  same_availability = r.same_availability;
  agrees = Agrees-later clock later store.sessions authority.lease le r.agrees;
  owned = r.owned;
}

pub Agrees-put :
    (clock : ℕ) (table : Table String (ℕ × AuthSession)) (lease : String → Option (ℕ × AuthSession))
    (token : String) (row : ℕ × AuthSession)
    → Agrees clock table lease
    → Agrees clock (put token row table) (λ j. if token == j then some row else lease j)
unfolding Agrees
Agrees-put clock table lease token row agrees j t h = elim (Bool-cases (token == j)) [
  | inl e ↦ rw (lookup-put token j row table, e)
  | inr e ↦ rw (lookup-put token j row table, e, agrees j t h)
]

pub Agrees-remove :
    (clock : ℕ) (table : Table String (ℕ × AuthSession)) (lease : String → Option (ℕ × AuthSession))
    (token : String)
    → Agrees clock table lease
    → Agrees clock (remove token table) (λ j. if token == j then none else lease j)
unfolding Agrees
Agrees-remove clock table lease token agrees j t h = elim (Bool-cases (token == j)) [
  | inl e ↦ rw (lookup-remove token j table, e)
  | inr e ↦ rw (lookup-remove token j table, e, agrees j t h)
]

pub Owned-put :
    (table : Table String (ℕ × AuthSession)) (token : String) (deadline : ℕ) (session : AuthSession)
    → session.token ≡ token
    → Owned table
    → Owned (put token (deadline, session) table)
unfolding Owned token_in
Owned-put table token deadline session own owned j = elim (Bool-cases (token == j)) [
  | inl e ↦ rw (lookup-put token j (deadline, session) table, e, own, beq_true token j e)
  | inr e ↦ rw (lookup-put token j (deadline, session) table, e, owned j)
]

pub Owned-remove :
    (table : Table String (ℕ × AuthSession)) (token : String)
    → Owned table
    → Owned (remove token table)
unfolding Owned token_in
Owned-remove table token owned j = elim (Bool-cases (token == j)) [
  | inl e ↦ rw (lookup-remove token j table, e)
  | inr e ↦ rw (lookup-remove token j table, e, owned j)
]

-- A row that has run out reads as no row.
pub alive-expired :
    (expires_at now t : ℕ) (session : AuthSession)
    → leb expires_at now ≡ true
    → now ≤ t
    → alive t (some (expires_at, session)) ≡ none
unfolding alive
alive-expired expires_at now t session e h = ground arith

pub Agrees-remove_expired :
    (now : ℕ) (table : Table String (ℕ × AuthSession)) (lease : String → Option (ℕ × AuthSession))
    (token : String) (expires_at : ℕ) (session : AuthSession)
    → lookup token table ≡ some (expires_at, session)
    → leb expires_at now ≡ true
    → Agrees now table lease
    → Agrees now (remove token table) lease
unfolding Agrees alive
Agrees-remove_expired now table lease token expires_at session found e agrees j t h =
    elim (Bool-cases (token == j)) [
      | inl q ↦
          let same = beq_true token j q in
          let gone = alive-expired expires_at now t session e h in
          rw (lookup-remove token j table, q, sym (agrees j t h), sym same, found, gone)
      | inr q ↦ rw (lookup-remove token j table, q, agrees j t h)
    ]
