-- ===== src/Sessions/Store.antt =====
-- The sessions and the verification tokens of `MemorySessionStore` (packages/storage/sessions.py).
-- The tokens that `secrets.token_urlsafe` draws and the readings of `time.monotonic` are
-- arguments; a call that reads the clock twice takes both readings.
pub mod Leases
mod Agreement
pub mod Reading
pub mod Refinement
pub mod Logout
pub mod Held
pub mod Provenance
pub mod Calls
pub mod Tokens
use k8s_ops.Prelude.{
  ℕ, ◌+◌, String, Bool, true, false, Option, none, some, List, [], ◌∷◌, if◌then◌else◌, leb, ltb,
  is_empty, ◌==◌, string_eq, Table, lookup, put, remove, not,
}
use k8s_ops.Sessions.State.{
  AuthMode, AuthSession, Config, Verification, Store, Answer, returns, not_connected, seconds,
}

unfoldable pub connect : Store → Store
connect store = record store { connected = true }

unfoldable pub close : Store → Store
close store = record store {
  connected = false;
  sessions = [];
  verifications = [];
  rate_events = [];
  strikes = [];
  locks = [];
}

-- `_require_connected` before the rest of a method.
unfoldable pub require_connected : {A : Type 0} → Store → Answer A × Store → Answer A × Store
require_connected store rest = if store.connected then rest else (not_connected, store)

-- `values or default`
unfoldable pub roles_or : Option (List String) → List String → List String
roles_or none default = default
roles_or (some roles) default = if is_empty roles then default else roles

unfoldable pub text_or : Option String → String → String
text_or none default = default
text_or (some text) default = if text == "" then default else text

unfoldable pub new_session :
    Config
    → String
    → String
    → Option (List String)
    → Option String
    → Option String
    → Option String
    → AuthMode
    → AuthSession
unfolding roles_or text_or
new_session config token user_id roles workspace_id display_name email auth_mode = record {
  token = token;
  user_id = user_id;
  roles = roles_or roles config.default_roles;
  workspace_id = text_or workspace_id config.default_workspace_id;
  display_name = display_name;
  email = email;
  auth_mode = auth_mode;
}

unfoldable pub create_session :
    ℕ
    → String
    → String
    → Option (List String)
    → Option String
    → Option String
    → Option String
    → AuthMode
    → Store
    → Answer AuthSession × Store
unfolding new_session require_connected
create_session now token user_id roles workspace_id display_name email auth_mode store =
    let session =
      new_session store.config token user_id roles workspace_id display_name email auth_mode in
    require_connected store (
      returns session,
      record store {
        sessions = put token (now + seconds store.config.ttl_seconds, session) store.sessions;
      },
    )

-- What `get_session` does with the row it finds.
unfoldable pub read_lease :
    ℕ → String → Option (ℕ × AuthSession) → Store → Option AuthSession × Store
read_lease now token none store = (none, store)
read_lease now token (some (expires_at, session)) store =
    if leb expires_at now
    then (none, record store { sessions = remove token store.sessions })
    else (some session, store)

-- `not token`
unfoldable pub present : Option String → Option String
present none = none
present (some token) = if token == "" then none else some token

unfoldable pub read_session : ℕ → Option String → Store → Option AuthSession × Store
unfolding read_lease
read_session now none store = (none, store)
read_session now (some token) store = read_lease now token (lookup token store.sessions) store

unfoldable pub get_session : ℕ → Option String → Store → Answer (Option AuthSession) × Store
unfolding require_connected read_session present
get_session now token store =
    let (found, after) = read_session now (present token) store in
    require_connected store (returns found, after)

-- The rest of `touch_session`, at a second reading of the clock.
unfoldable pub renew : ℕ → Answer (Option AuthSession) × Store → Answer Bool × Store
renew now (returns none, store) = (returns false, store)
renew now (returns (some session), store) = (
  returns true,
  record store {
    sessions = put session.token (now + seconds store.config.ttl_seconds, session) store.sessions;
  },
)
renew now (not_connected, store) = (not_connected, store)
renew now (Answer.rate_limit_exceeded n, store) = (Answer.rate_limit_exceeded n, store)
renew now (Answer.index_error, store) = (Answer.index_error, store)

unfoldable pub touch_session : ℕ → ℕ → Option String → Store → Answer Bool × Store
unfolding get_session renew
touch_session now later token store = renew later (get_session now token store)

unfoldable pub delete_session : String → Store → Answer Unit × Store
unfolding require_connected
delete_session token store =
    require_connected store (returns tt, record store { sessions = remove token store.sessions })

unfoldable pub create_email_verification_token :
    ℕ → String → String → String → Store → Answer String × Store
unfolding require_connected
create_email_verification_token now token user_id email store = require_connected store (
  returns token,
  record store {
    verifications =
        put token
          (
            now + seconds store.config.email_verification_ttl_seconds,
            record { user_id = user_id; email = email },
          )
          store.verifications;
  },
)

unfoldable pub read_verification : ℕ → Option (ℕ × Verification) → Option Verification
read_verification now none = none
read_verification now (some (expires_at, payload)) =
    if ltb now expires_at then some payload else none

unfoldable pub consume_present : ℕ → Option String → Store → Option Verification × Store
unfolding read_verification
consume_present now none store = (none, store)
consume_present now (some token) store = (
  read_verification now (lookup token store.verifications),
  record store { verifications = remove token store.verifications },
)

unfoldable pub consume_email_verification_token :
    ℕ → Option String → Store → Answer (Option Verification) × Store
unfolding require_connected consume_present present
consume_email_verification_token now token store =
    let (found, after) = consume_present now (present token) store in
    require_connected store (returns found, after)
