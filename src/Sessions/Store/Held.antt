-- ===== src/Sessions/Store/Held.antt =====
-- What one call on the sessions of packages/storage/sessions.py does to the session that the
-- abstract authority holds under a token.
use k8s_ops.Prelude.{
  ℕ, String, Bool, true, false, Option, none, some, ◌==◌, string_eq, ◌≡◌, refl, sym, ◌∙◌, ap, ◌⊎◌,
  inl, inr, Bool-cases, beq_true, leb, if◌then◌else◌,
}
use k8s_ops.Sessions.State.{AuthSession, Config}
use k8s_ops.Sessions.Store.{present, new_session}
use k8s_ops.Sessions.Store.Leases.{
  Request, Operation, connects, closes, creates, reads, touches, deletes, Authority, alive,
  read_alive, grant, renew_alive, promise,
}

-- The calls that end a session under the token or put another one there.
unfoldable pub settles : String → Operation → Bool
settles token (creates now other r) = other == token
settles token (deletes other) = other == token
settles token closes = true
settles token _ = false

-- the session that a login makes
abbrev pub made : Config → String → Request → AuthSession
made config token r =
    new_session config token r.user_id r.roles r.workspace_id r.display_name r.email r.auth_mode

-- the authority holds this session under the token
abbrev pub Holds : Authority → String → AuthSession → Type 0
Holds authority token session =
    (expires_at : ℕ) × (authority.lease token ≡ some (expires_at, session))

-- an authority that is not connected holds nothing under the token
abbrev pub Bare : String → Authority → Type 0
Bare token authority = (authority.available ≡ true) ⊎ (authority.lease token ≡ none)

available-renew_alive :
    (later : ℕ) (config : Config) (asked : Option String) (found : Option AuthSession)
    (authority : Authority)
    → (renew_alive later config asked found authority).available ≡ authority.available
unfolding renew_alive grant
available-renew_alive later config none found authority = refl
available-renew_alive later config (some token) none authority = refl
available-renew_alive later config (some token) (some session) authority = refl

pub alive-lease :
    (now : ℕ) (o : Option (ℕ × AuthSession)) (session : AuthSession)
    → alive now o ≡ some session
    → (expires_at : ℕ) × (o ≡ some (expires_at, session))
unfolding alive
alive-lease now none session h = absurd (cc h)
alive-lease now (some (expires_at, found)) session h = elim (Bool-cases (leb expires_at now)) [
  | inl over ↦ absurd (cc (rw over at h))
  | inr runs ↦ let same : found ≡ session = cc (rw runs at h) in (expires_at, rw same refl)
]

-- A renewal puts no other session under a token.
renewed_is_held :
    (later : ℕ) (config : Config) (now : ℕ) (asked token : String) (found : Option AuthSession)
    (session : AuthSession) (authority : Authority)
    → alive now (authority.lease asked) ≡ found
    → Holds (renew_alive later config (some asked) found authority) token session
    → Holds authority token session
unfolding renew_alive grant
renewed_is_held later config now asked token none session authority e h = h
renewed_is_held later config now asked token (some known) session authority e (ends_at, h) =
    elim (Bool-cases (asked == token)) [
      | inl own ↦
          let same : known ≡ session = cc (rw own at h) in
          rw (← beq_true asked token own)
            (alive-lease now (authority.lease asked) session (e ∙ ap (λ k. some k) same))
      | inr other ↦ (ends_at, rw other at h)
    ]

renewal_is_held :
    (later : ℕ) (config : Config) (now : ℕ) (asked : Option String) (token : String)
    (session : AuthSession) (authority : Authority)
    → Holds
        (renew_alive later config asked (read_alive now asked authority) authority)
        token
        session
    → Holds authority token session
renewal_is_held later config now none token session authority h = unfold renew_alive in h
renewal_is_held later config now (some asked) token session authority h =
    renewed_is_held later config now asked token (alive now (authority.lease asked)) session
      authority refl h

held_otherwise :
    (x y : Authority) {token : String} {session : AuthSession} (t : Bool)
    → t ≡ false
    → Holds (if t then x else y) token session
    → Holds y token session
held_otherwise x y true e h = absurd (cc e)
held_otherwise x y false e h = h

held_then :
    (x y : Authority) {token : String} {session : AuthSession} (t : Bool)
    → t ≡ true
    → Holds (if t then x else y) token session
    → Holds x token session
held_then x y true e h = h
held_then x y false e h = absurd (cc e)

Bare-otherwise :
    (x y : Authority) {token : String} (t : Bool)
    → t ≡ false
    → Bare token y
    → Bare token (if t then x else y)
Bare-otherwise x y true e h = absurd (cc e)
Bare-otherwise x y false e h = h

Bare-then :
    (x y : Authority) {token : String} (t : Bool)
    → t ≡ true
    → Bare token x
    → Bare token (if t then x else y)
Bare-then x y true e h = h
Bare-then x y false e h = absurd (cc e)

down_holds_nothing :
    (token : String) (session : AuthSession) (authority : Authority)
    → Bare token authority
    → authority.available ≡ false
    → ¬ Holds authority token session
down_holds_nothing token session authority (inl up) down h = absurd (cc (up, down))
down_holds_nothing token session authority (inr nothing) down (ends_at, lease) =
    absurd (cc (nothing, lease))

pub promise-Bare :
    (config : Config) (operation : Operation) (token : String) (authority : Authority)
    → Bare token authority
    → Bare token (promise config operation authority)
unfolding promise grant renew_alive
promise-Bare config connects token authority bare = inl refl
promise-Bare config closes token authority bare = inr refl
promise-Bare config (creates now other r) token authority bare =
    elim (Bool-cases authority.available) [
      | inl e ↦ simp e (inl refl)
      | inr e ↦ Bare-otherwise _ _ authority.available e bare
    ]
promise-Bare config (reads now other) token authority bare = bare
promise-Bare config (touches now later other) token authority bare =
    elim (Bool-cases authority.available) [
      | inl e ↦
          let found = read_alive now (present other) authority in
          Bare-then _ _ authority.available e
            (inl (available-renew_alive later config (present other) found authority ∙ e))
      | inr e ↦ Bare-otherwise _ _ authority.available e bare
    ]
promise-Bare config (deletes other) token authority bare = elim (Bool-cases authority.available) [
  | inl e ↦ simp e (inl refl)
  | inr e ↦ Bare-otherwise _ _ authority.available e bare
]

-- What one call does to a session that is held after it: it was there before, or this login made it.
unfoldable pub Origin : Config → String → AuthSession → Operation → Authority → Type 0
Origin config token session operation authority =
    (Holds authority token session × (settles token operation ≡ false))
    ⊎ ((now : ℕ) × (r : Request) × (operation ≡ creates now token r)
        × (session ≡ made config token r))

pub held_before :
    (config : Config) (operation : Operation) (token : String) (session : AuthSession)
    (authority : Authority)
    → Bare token authority
    → Holds (promise config operation authority) token session
    → Origin config token session operation authority
unfolding promise grant renew_alive settles Origin
held_before config connects token session authority bare h = inl (h, refl)
held_before config closes token session authority bare (e, h) = absurd (cc h)
held_before config (creates now other r) token session authority bare h =
    elim (Bool-cases authority.available) [
      | inl up ↦ elim (Bool-cases (other == token)) [
        | inl own ↦
            let (ends_at, lease) = simp (up, own) at h in
            inr (
              now,
              r,
              ap (λ t. creates now t r) (beq_true other token own),
              (let same : made config other r ≡ session = cc lease in
                  rw (← beq_true other token own) (sym same)),
            )
        | inr apart ↦ inl (simp (up, apart) at h, apart)
      ]
      | inr down ↦ absurd (
          down_holds_nothing token session authority bare down
            (held_otherwise _ _ authority.available down h))
    ]
held_before config (reads now other) token session authority bare h = inl (h, refl)
held_before config (touches now later other) token session authority bare h =
    elim (Bool-cases authority.available) [
      | inl up ↦ inl (
        renewal_is_held later config now (present other) token session authority
            (held_then _ _ authority.available up h),
        refl,
      )
      | inr down ↦ inl (held_otherwise _ _ authority.available down h, refl)
    ]
held_before config (deletes other) token session authority bare h =
    elim (Bool-cases authority.available) [
      | inl up ↦ elim (Bool-cases (other == token)) [
        | inl own ↦ let (ends_at, lease) = simp (up, own) at h in absurd (cc lease)
        | inr apart ↦ inl (simp (up, apart) at h, apart)
      ]
      | inr down ↦ absurd (
          down_holds_nothing token session authority bare down
            (held_otherwise _ _ authority.available down h))
    ]
