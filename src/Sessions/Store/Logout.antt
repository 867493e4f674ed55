-- ===== src/Sessions/Store/Logout.antt =====
-- Deleted sessions of `MemorySessionStore` (packages/storage/sessions.py).
use k8s_ops.Prelude.{
  ℕ, String, Bool, true, false, Option, none, some, List, [], ◌∷◌, ◌==◌, string_eq, ◌≡◌, refl, sym,
  arith, Bool-cases, beq_true, beq_self, inl, inr, ◌∙◌, any, ||-false, none_either, ◌≢◌, ◌++◌,
}
use k8s_ops.Sessions.State.{AuthSession, Config, returns}
use k8s_ops.Sessions.Store.{get_session, present}
use k8s_ops.Sessions.Store.Leases.{
  Operation, connects, closes, creates, reads, touches, deletes, run, Authority, alive, read_alive,
  grant, renew_alive, promise, promises, ends, InOrder,
}
use k8s_ops.Sessions.Store.Reading.{answer_of}
use k8s_ops.Sessions.Store.Refinement.{
  refines, opened, no_leases, opened_refines, sessions_refine_leases,
}

-- No call of these creates a session under the token.
unfoldable pub creates_token : String → Operation → Bool
creates_token token (creates now other q) = other == token
creates_token token _ = false

granted_elsewhere :
    (later : ℕ) (config : Config) (token asked : String) (found : Option AuthSession)
    (authority : Authority)
    → ((asked == token) ≡ true → found ≡ none)
    → authority.lease token ≡ none
    → (renew_alive later config (some asked) found authority).lease token ≡ none
unfolding renew_alive grant
granted_elsewhere later config token asked none authority other ended = ended
granted_elsewhere later config token asked (some session) authority other ended =
    elim (Bool-cases (asked == token)) [ inl e ↦ absurd (cc (other e)) | inr e ↦ rw e ended ]

renewal_grants_nothing :
    (now later : ℕ) (config : Config) (token : String) (asked : Option String)
    (authority : Authority)
    → authority.lease token ≡ none
    → (renew_alive later config asked (read_alive now asked authority) authority).lease token ≡ none
unfolding renew_alive grant alive
renewal_grants_nothing now later config token none authority ended = ended
renewal_grants_nothing now later config token (some asked) authority ended =
    granted_elsewhere later config token asked (alive now (authority.lease asked)) authority
      (λ e. rw (beq_true asked token e, ended) refl) ended

promise_grants_nothing :
    (config : Config) (operation : Operation) (token : String) (authority : Authority)
    → creates_token token operation ≡ false
    → authority.lease token ≡ none
    → (promise config operation authority).lease token ≡ none
unfolding promise grant creates_token
promise_grants_nothing config connects token authority h ended = ended
promise_grants_nothing config closes token authority h ended = refl
promise_grants_nothing config (creates now other q) token authority h ended =
    elim (Bool-cases authority.available) [ inl e ↦ simp (e, h) ended | inr e ↦ simp e ended ]
promise_grants_nothing config (reads now other) token authority h ended = ended
promise_grants_nothing config (touches now later other) token authority h ended =
    elim (Bool-cases authority.available) [
      | inl e ↦
          simp e (renewal_grants_nothing now later config token (present other) authority ended)
      | inr e ↦ simp e ended
    ]
promise_grants_nothing config (deletes other) token authority h ended =
    elim (Bool-cases authority.available) [
      | inl e ↦ simp e (none_either (other == token) (authority.lease token) ended)
      | inr e ↦ simp e ended
    ]

promises_grant_nothing :
    (config : Config) (operations : List Operation) (token : String) (authority : Authority)
    → any (creates_token token) operations ≡ false
    → authority.lease token ≡ none
    → (promises config operations authority).lease token ≡ none
unfolding promises
promises_grant_nothing config [] token authority h ended = ended
promises_grant_nothing config (operation ∷ rest) token authority h ended =
    let (first, others) =
      ||-false (creates_token token operation) (any (creates_token token) rest) h in
    promises_grant_nothing config rest token (promise config operation authority) others
      (promise_grants_nothing config operation token authority first ended)

answers_nothing :
    (now : ℕ) (token : String) (authority : Authority) (session : AuthSession)
    → authority.lease token ≡ none
    → answer_of now (some token) authority ≢ returns (some session)
unfolding answer_of present alive
answers_nothing now token authority session ended e = elim (Bool-cases authority.available) [
  | inl up ↦ elim (Bool-cases (token == "")) [
    | inl q ↦ absurd (cc (simp (up, q) at e))
    | inr q ↦ absurd (cc (simp (up, q, ended) at e))
  ]
  | inr down ↦ absurd (cc (simp down at e))
]

promises-append :
    (config : Config) (before after : List Operation) (authority : Authority)
    → promises config (before ++ after) authority
      ≡ promises config after (promises config before authority)
unfolding promises
promises-append config [] after authority = refl
promises-append config (operation ∷ before) after authority =
    promises-append config before after (promise config operation authority)

InOrder-prefix :
    (clock now : ℕ) (before after : List Operation)
    → InOrder clock (before ++ after) now
    → (mid : ℕ) × InOrder clock before mid
unfolding InOrder
InOrder-prefix clock now [] after order = (clock, omega arith)
InOrder-prefix clock now (operation ∷ before) after (le, le', order) =
    let (mid, rest) = InOrder-prefix (ends clock operation) now before after order in
    (mid, (le, le', rest))

deletion_ends :
    (config : Config) (token : String) (authority : Authority)
    → authority.available ≡ true
    → (promise config (deletes token) authority).lease token ≡ none
unfolding promise
deletion_ends config token authority up = simp (up, beq_self) refl

-- Where the clock never runs back, `get_session` returns no session under a token once a connected
-- store has deleted it and no later call creates one under that token again: no renewal and no
-- reconnection brings it back.
pub logout_is_final :
    (config : Config) (before after : List Operation) (now : ℕ) (token : String)
    (session : AuthSession)
    → InOrder 0 (before ++ deletes token ∷ after) now
    → (run before (opened config)).connected ≡ true
    → any (creates_token token) after ≡ false
    → (get_session now (some token) (run (before ++ deletes token ∷ after) (opened config))).0
      ≢ returns (some session)
unfolding promise promises
logout_is_final config before after now token session order up fresh e =
    let (mid, ordered) = InOrder-prefix 0 now before (deletes token ∷ after) order in
    let authority = promises config before no_leases in
    let same =
      refines before config 0 mid (opened config) no_leases ordered (opened_refines config) in
    let ended = deletion_ends config token authority (sym same.same_availability ∙ up) in
    let later = promise config (deletes token) authority in
    answers_nothing now token (promises config after later) session
      (promises_grant_nothing config after token later fresh ended)
      (rw
        (
          sessions_refine_leases config (before ++ deletes token ∷ after) now (some token) order,
          promises-append config before (deletes token ∷ after) no_leases,
        )
        at e)
