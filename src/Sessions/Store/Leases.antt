-- ===== src/Sessions/Store/Leases.antt =====
-- The sessions of `MemorySessionStore` (packages/storage/sessions.py) against an abstract
-- authority: one lease for each token, which nothing but a deletion or a close ends before its
-- time.
use k8s_ops.Prelude.{
  ℕ, ◌+◌, ◌≤◌, String, Bool, true, false, Option, none, some, List, [], ◌∷◌, if◌then◌else◌, leb,
  ◌==◌, string_eq,
}
use k8s_ops.Sessions.State.{AuthMode, AuthSession, Config, Store, seconds}
use k8s_ops.Sessions.Store.{
  connect, close, create_session, get_session, touch_session, delete_session, new_session, present,
}

pub record Request : Type 0 where
  pub user_id : String
  pub roles : Option (List String)
  pub workspace_id : Option String
  pub display_name : Option String
  pub email : Option String
  pub auth_mode : AuthMode

-- The calls on the sessions, each with its readings of the clock.
pub data Operation : Type 0 where
  connects closes : Operation
  creates : ℕ → String → Request → Operation
  reads : ℕ → Option String → Operation
  touches : ℕ → ℕ → Option String → Operation
  deletes : String → Operation

unfoldable pub perform : Operation → Store → Store
perform connects store = connect store
perform closes store = close store
perform (creates now token r) store =
    (create_session now token r.user_id r.roles r.workspace_id r.display_name r.email r.auth_mode
      store).1
perform (reads now token) store = (get_session now token store).1
perform (touches now later token) store = (touch_session now later token store).1
perform (deletes token) store = (delete_session token store).1

unfoldable pub run : List Operation → Store → Store
run [] store = store
run (operation ∷ rest) store = run rest (perform operation store)

-- The abstract authority.
pub record Authority : Type 0 where
  pub available : Bool
  pub lease : String → Option (ℕ × AuthSession)

unfoldable pub alive : ℕ → Option (ℕ × AuthSession) → Option AuthSession
alive now none = none
alive now (some (expires_at, session)) = if leb expires_at now then none else some session

abbrev pub read_alive : ℕ → Option String → Authority → Option AuthSession
read_alive now none authority = none
read_alive now (some token) authority = alive now (authority.lease token)

unfoldable pub grant : String → ℕ → AuthSession → Authority → Authority
grant token expires_at session authority = record authority {
  lease = λ j. if token == j then some (expires_at, session) else authority.lease j;
}

unfoldable pub renew_alive : ℕ → Config → Option String → Option AuthSession → Authority → Authority
renew_alive later config (some token) (some session) authority =
    grant token (later + seconds config.ttl_seconds) session authority
renew_alive later config _ _ authority = authority

unfoldable pub promise : Config → Operation → Authority → Authority
unfolding grant renew_alive
promise config connects authority = record authority { available = true }
promise config closes authority = record authority { available = false; lease = λ j. none }
promise config (creates now token r) authority =
    let session =
      new_session config token r.user_id r.roles r.workspace_id r.display_name r.email
        r.auth_mode in
    if authority.available
    then grant token (now + seconds config.ttl_seconds) session authority
    else authority
promise config (reads now token) authority = authority
promise config (touches now later token) authority =
    if authority.available
    then renew_alive later config (present token) (read_alive now (present token) authority)
        authority
    else authority
promise config (deletes token) authority =
    if authority.available
    then record authority { lease = λ j. if token == j then none else authority.lease j }
    else authority

unfoldable pub promises : Config → List Operation → Authority → Authority
promises config [] authority = authority
promises config (operation ∷ rest) authority =
    promises config rest (promise config operation authority)

-- The clock never runs back.
unfoldable pub starts : ℕ → Operation → ℕ
starts clock (creates now token r) = now
starts clock (reads now token) = now
starts clock (touches now later token) = now
starts clock _ = clock

unfoldable pub ends : ℕ → Operation → ℕ
ends clock (creates now token r) = now
ends clock (reads now token) = now
ends clock (touches now later token) = later
ends clock _ = clock

unfoldable pub InOrder : ℕ → List Operation → ℕ → Type 0
InOrder clock [] now = clock ≤ now
InOrder clock (operation ∷ rest) now =
    (clock ≤ starts clock operation)
    × (starts clock operation ≤ ends clock operation)
    × InOrder (ends clock operation) rest now
