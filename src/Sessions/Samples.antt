-- ===== src/Sessions/Samples.antt =====
-- Runs of the session store at concrete inputs.
use k8s_ops.Prelude.{
  ℕ, ◌+◌, ◌-◌, ◌/◌, true, false, any, ◌≤◌, String, none, some, List, [], ◌∷◌, ◌++◌, ◌≡◌, ◌≢◌, refl,
  arith, ltb, if◌then◌else◌, lookup, put,
}
use k8s_ops.Sessions.State.{
  Config, Store, AuthSession, password, returns, rate_limit_exceeded, index_error, seconds,
}
use k8s_ops.Sessions.Store.{
  connect, create_session, get_session, touch_session, create_email_verification_token,
  consume_email_verification_token,
}
use k8s_ops.Sessions.Store.Leases.{
  Request, Operation, perform, connects, creates, touches, deletes, run, promises, InOrder, starts,
  ends,
}
use k8s_ops.Sessions.Store.Refinement.{sessions_refine_leases, opened, no_leases}
use k8s_ops.Sessions.Store.Reading.{answer_of}
use k8s_ops.Sessions.Store.Logout.{logout_is_final, creates_token}
use k8s_ops.Sessions.Store.Held.{settles}
use k8s_ops.Sessions.Store.Provenance.{IssuedFor, sessions_come_from_logins}
use k8s_ops.Sessions.Store.Tokens.{token_is_redeemed_once}
use k8s_ops.Sessions.Store.Calls.{issues, redeems, answer_calls, concerns, issues_token}
use k8s_ops.Sessions.Limiter.{
  Floats, check_rate_limit, check_escalating_rate_limit, events_of, item,
}
use k8s_ops.Sessions.Limiter.Window.{admissions_within_limit}
use k8s_ops.Sessions.Limiter.Admissions.{is_admitted, call, admissions, events_within, Ordered}
use k8s_ops.Sessions.Limiter.Waiting.{AllOver, after_calls, a_window_suffices}
use k8s_ops.Sessions.Limiter.Locks.{a_strike_locks, locked_until, strikes_with}
use k8s_ops.Sessions.Limiter.Indexing.{checks_never_index_nothing}

-- the seconds told, without the rounding of doubles
instance abbrev exact_floats : Floats
exact_floats = record {
  ceil_seconds = λ oldest window now. (oldest + window - now + 999999) / 1000000;
}

abbrev small_config : Config
small_config = record {
  ttl_seconds = 10;
  default_roles = "observer" ∷ [];
  default_workspace_id = "w";
  rate_limit = 2;
  rate_limit_window_seconds = 5;
  email_verification_ttl_seconds = 10;
}

abbrev ann : Request
ann = record {
  user_id = "ann";
  roles = none;
  workspace_id = none;
  display_name = none;
  email = none;
  auth_mode = password;
}

abbrev logged_in : List Operation
logged_in = connects ∷ creates 0 "t" ann ∷ touches 5000000 5000001 (some "t") ∷ []

logged_in-InOrder : InOrder 0 logged_in 14000000
unfolding InOrder starts ends
logged_in-InOrder =
    (omega arith, omega arith, (omega arith, omega arith, (omega arith, omega arith, omega arith)))

sessions_refine_leases_example :
    (get_session 14000000 (some "t") (run logged_in (opened small_config))).0
    ≡ answer_of 14000000 (some "t") (promises small_config logged_in no_leases)
sessions_refine_leases_example =
    sessions_refine_leases small_config logged_in 14000000 (some "t") logged_in-InOrder

abbrev logged_out : List Operation
logged_out = logged_in ++ deletes "t" ∷ touches 6000000 6000000 (some "t") ∷ []

logged_out-InOrder : InOrder 0 logged_out 7000000
unfolding InOrder starts ends
logged_out-InOrder = (
  omega arith,
  omega arith,
  (
    omega arith,
    omega arith,
    (omega arith, omega arith, (omega arith, omega arith, (omega arith, omega arith, omega arith))),
  ),
)

abbrev session_of_ann : AuthSession
session_of_ann = record {
  token = "t";
  user_id = "ann";
  roles = "observer" ∷ [];
  workspace_id = "w";
  display_name = none;
  email = none;
  auth_mode = password;
}

logout_is_final_example :
    (get_session 7000000 (some "t") (run logged_out (opened small_config))).0
    ≢ returns (some session_of_ann)
unfolding run perform touch_session create_session connect lookup put opened creates_token
logout_is_final_example =
    logout_is_final small_config logged_in (touches 6000000 6000000 (some "t") ∷ []) 7000000 "t"
      session_of_ann logged_out-InOrder refl refl

sessions_come_from_logins_example :
    (before : List Operation) × (at : ℕ) × (r : Request) × (after : List Operation) × (logged_in
      ≡ before ++ creates at "t" r ∷ after)
    × IssuedFor small_config "t" r session_of_ann
    × (any (settles "t") after ≡ false)
unfolding run perform touch_session create_session get_session connect lookup put opened
sessions_come_from_logins_example =
    sessions_come_from_logins small_config logged_in 14000000 "t" session_of_ann logged_in-InOrder
      refl

abbrev ready : Store
ready = connect (opened small_config)

token_is_redeemed_once_example :
    let asked =
      answer_calls
        (issues 1 "u" "bob" "b@x" ∷ [])
        (create_email_verification_token 0 "t" "ann" "a@x" ready).1 in
    let (first, left) = consume_email_verification_token 2 (some "t") asked in
    (first
      ≡ returns (if ltb 2 10000000 then some (record { user_id = "ann"; email = "a@x" }) else none))
    × ((consume_email_verification_token 4
          (some "t")
          (answer_calls (redeems 3 (some "u") ∷ []) left)).0
        ≡ returns none)
unfolding connect concerns issues_token opened
token_is_redeemed_once_example =
    token_is_redeemed_once 0 2 4 "t" "ann" "a@x" (issues 1 "u" "bob" "b@x" ∷ [])
      (redeems 3 (some "u") ∷ []) ready refl refl refl refl

abbrev two_in_five : String → ℕ × ℕ
two_in_five key = (2, 5)

abbrev burst : List (ℕ × String)
burst = (0, "k") ∷ (1000000, "k") ∷ (2000000, "j") ∷ (3000000, "k") ∷ (5000000, "k") ∷ []

admissions_within_limit_example :
    events_within 500000 (seconds 5) (events_of "k" ready)
      + events_within 500000 (seconds 5) (admissions two_in_five "k" burst ready)
    ≤ 2
unfolding connect Ordered opened events_of lookup
admissions_within_limit_example =
    admissions_within_limit two_in_five "k" 500000 0 burst ready refl
      (omega arith, (omega arith, (omega arith, (omega arith, (omega arith, tt))))) (omega arith)

-- the refused call at 3000000 does not count
abbrev refused_last : List (ℕ × String)
refused_last = (0, "k") ∷ (1000000, "k") ∷ (2000000, "j") ∷ (3000000, "k") ∷ []

a_window_suffices_example :
    is_admitted (call two_in_five 6000000 "k" (after_calls two_in_five refused_last ready)).0 ≡ true
unfolding connect opened admissions call check_rate_limit AllOver events_of lookup is_admitted put
a_window_suffices_example =
    a_window_suffices two_in_five "k" 6000000 refused_last ready (omega arith) refl tt
      (omega arith, (omega arith, tt))

abbrev struck_once : Store
struck_once = (check_escalating_rate_limit 0 0 "k" 1 5 (30 ∷ 60 ∷ []) 600 ready).1

a_strike_locks_example :
    let (answer, after) =
      check_escalating_rate_limit 1000000 1000000 "k" 1 5 (30 ∷ 60 ∷ []) 600 struck_once in
    (answer ≡ rate_limit_exceeded 30)
    × (check_escalating_rate_limit 21000000 21000000 "k" 1 5 (30 ∷ 60 ∷ []) 600 after
        ≡ (rate_limit_exceeded 10, after))
unfolding check_escalating_rate_limit check_rate_limit connect lookup opened put locked_until
    strikes_with item
a_strike_locks_example =
    a_strike_locks 1000000 1000000 21000000 21000000 "k" 1 5 (30 ∷ 60 ∷ []) 600 4 30 struck_once
      refl (omega arith) refl refl (omega arith)

checks_never_index_nothing_example :
    ((check_rate_limit 0 "k" (some 1) (some 5) ready).0 ≢ index_error)
    × ((check_escalating_rate_limit 0 0 "k" 1 5 (30 ∷ []) 600 ready).0 ≢ index_error)
checks_never_index_nothing_example =
    checks_never_index_nothing 0 0 "k" 1 5 (30 ∷ []) 600 ready (omega arith) (omega arith)
