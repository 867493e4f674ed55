-- ===== src/Sessions/State.antt =====
-- The data of packages/storage/sessions.py: sessions, the configuration, the errors and the state
-- of `MemorySessionStore`. A time is a whole number of
-- microseconds, and sums and comparisons of times are exact.
use k8s_ops.Prelude.{ℕ, ◌*◌, String, Bool, Option, List, Table}

pub data AuthMode : Type 0 where
  password trusted_proxy : AuthMode

pub record AuthSession : Type 0 where
  pub token : String
  pub user_id : String
  pub roles : List String
  pub workspace_id : String
  pub display_name : Option String
  pub email : Option String
  pub auth_mode : AuthMode

pub record Config : Type 0 where
  pub ttl_seconds : ℕ
  pub default_roles : List String
  pub default_workspace_id : String
  pub rate_limit : ℕ
  pub rate_limit_window_seconds : ℕ
  pub email_verification_ttl_seconds : ℕ

pub record Verification : Type 0 where
  pub user_id : String
  pub email : String

pub record Store : Type 0 where
  pub config : Config
  pub connected : Bool
  pub sessions : Table String (ℕ × AuthSession)
  pub verifications : Table String (ℕ × Verification)
  pub rate_events : Table String (List ℕ)
  pub strikes : Table String (ℕ × ℕ)
  pub locks : Table String ℕ

-- How a call ends: with a value, or with the exception that it raises. `RateLimitExceeded` carries
-- the seconds to wait; `index_error` is Python's own, from an empty sequence.
pub data Answer (A : Type 0) : Type 0 where
  returns : A → Answer A
  not_connected : Answer A
  rate_limit_exceeded : ℕ → Answer A
  index_error : Answer A

-- a number of seconds in microseconds
abbrev pub seconds : ℕ → ℕ
seconds n = n * 1000000
