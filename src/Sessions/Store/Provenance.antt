-- ===== src/Sessions/Store/Provenance.antt =====
-- Where the sessions of `MemorySessionStore` (packages/storage/sessions.py) come from.
use k8s_ops.Prelude.{
  ℕ, String, true, false, some, List, [], ◌∷◌, ◌++◌, ◌==◌, string_eq, ◌≡◌, refl, sym, ◌∙◌, ap, ◌⊎◌,
  inl, inr, Bool-cases, any, Option, none, ◌≢◌, beq_true,
}
use k8s_ops.Sessions.State.{AuthSession, Config, returns}
use k8s_ops.Sessions.Store.{get_session, present, new_session, roles_or, text_or}
use k8s_ops.Sessions.Store.Leases.{
  Request, Operation, creates, run, Authority, promise, promises, InOrder,
}
use k8s_ops.Sessions.Store.Reading.{answer_of}
use k8s_ops.Sessions.Store.Refinement.{opened, no_leases, sessions_refine_leases}
use k8s_ops.Sessions.Store.Held.{
  settles, made, Holds, Bare, Origin, alive-lease, promise-Bare, held_before,
}

-- Where a session that is held after some calls was made, and that nothing has ended it since.
Login : Config → String → AuthSession → List Operation → Type 0
Login config token session operations =
    (before : List Operation) × (now : ℕ) × (r : Request) × (after : List Operation) × (operations
      ≡ before ++ creates now token r ∷ after)
    × (session ≡ made config token r)
    × (any (settles token) after ≡ false)

traced :
    (config : Config) (operations : List Operation) (token : String) (session : AuthSession)
    (authority : Authority)
    → Bare token authority
    → Holds (promises config operations authority) token session
    → (Holds authority token session × (any (settles token) operations ≡ false))
      ⊎ Login config token session operations
unfolding promises Origin Login
traced config [] token session authority bare h = inl (h, refl)
traced config (operation ∷ rest) token session authority bare h =
    elim (traced config rest token session (promise config operation authority)
      (promise-Bare config operation token authority bare) h) [
        | inl (held, quiet) ↦
            elim (held_before config operation token session authority bare held) [
              | inl (earlier, kept) ↦ inl (earlier, rw (kept, quiet) refl)
              | inr (now, r, same, is_made) ↦
                  inr ([], now, r, rest, ap (λ o. o ∷ rest) same, is_made, quiet)
            ]
        | inr (before, now, r, after, same, is_made, quiet) ↦
            inr (operation ∷ before, now, r, after, ap (λ l. operation ∷ l) same, is_made, quiet)
      ]

answered :
    (now : ℕ) (token : String) (authority : Authority) (session : AuthSession)
    → answer_of now (some token) authority ≡ returns (some session)
    → Holds authority token session
unfolding answer_of present
answered now token authority session e = elim (Bool-cases authority.available) [
  | inl up ↦ elim (Bool-cases (token == "")) [
    | inl q ↦ absurd (cc (simp (up, q) at e))
    | inr q ↦ alive-lease now (authority.lease token) session (cc (simp (up, q) at e))
  ]
  | inr down ↦ absurd (cc (simp down at e))
]

-- the roles of a session: those asked for, or the default where none are
abbrev pub GivenRoles : List String → Option (List String) → List String → Type 0
GivenRoles default none roles = roles ≡ default
GivenRoles default (some []) roles = roles ≡ default
GivenRoles default (some (role ∷ more)) roles = roles ≡ role ∷ more

-- the workspace of a session: the one asked for, or the default where none is or it is empty
abbrev pub GivenWorkspace : String → Option String → String → Type 0
GivenWorkspace default none workspace = workspace ≡ default
GivenWorkspace default (some asked) workspace =
    ((asked ≡ "") × (workspace ≡ default)) ⊎ ((asked ≢ "") × (workspace ≡ asked))

-- The session has the token, and in its other fields what the login asked for.
pub record IssuedFor (config : Config) (token : String) (r : Request) (session : AuthSession)
    : Type 0 where
  pub same_token : session.token ≡ token
  pub same_user : session.user_id ≡ r.user_id
  pub given_roles : GivenRoles config.default_roles r.roles session.roles
  pub given_workspace :
      GivenWorkspace config.default_workspace_id r.workspace_id session.workspace_id
  pub same_display_name : session.display_name ≡ r.display_name
  pub same_email : session.email ≡ r.email
  pub same_auth_mode : session.auth_mode ≡ r.auth_mode

roles_or-GivenRoles :
    (default : List String) (asked : Option (List String))
    → GivenRoles default asked (roles_or asked default)
unfolding roles_or
roles_or-GivenRoles default none = refl
roles_or-GivenRoles default (some []) = refl
roles_or-GivenRoles default (some (role ∷ more)) = refl

text_or-GivenWorkspace :
    (default : String) (asked : Option String)
    → GivenWorkspace default asked (text_or asked default)
unfolding text_or
text_or-GivenWorkspace default none = refl
text_or-GivenWorkspace default (some asked) = elim (Bool-cases (asked == "")) [
  | inl bare ↦ rw bare (inl (beq_true asked "" bare, refl))
  | inr named ↦
      let is_asked : asked ≢ "" =
        λ same. let bare : (asked == "") ≡ true = rw same refl in absurd (cc (named, bare)) in
      rw named (inr (is_asked, refl))
]

made-IssuedFor :
    (config : Config) (token : String) (r : Request)
    → IssuedFor config token r (made config token r)
unfolding new_session
made-IssuedFor config token r = record {
  same_token = refl;
  same_user = refl;
  given_roles = roles_or-GivenRoles config.default_roles r.roles;
  given_workspace = text_or-GivenWorkspace config.default_workspace_id r.workspace_id;
  same_display_name = refl;
  same_email = refl;
  same_auth_mode = refl;
}

-- Where the clock never runs back, a session that `get_session` returns comes from a login: one of
-- the calls was a creation under this very token, the session has the token, the user, the roles,
-- the workspace, the name, the address and the mode of that creation, with the defaults for roles
-- and a workspace that it left out, and no later call created another one under the token, deleted
-- it or closed the store.
pub sessions_come_from_logins :
    (config : Config) (operations : List Operation) (now : ℕ) (token : String)
    (session : AuthSession)
    → InOrder 0 operations now
    → (get_session now (some token) (run operations (opened config))).0 ≡ returns (some session)
    → (before : List Operation) × (at : ℕ) × (r : Request) × (after : List Operation) × (operations
        ≡ before ++ creates at token r ∷ after)
      × IssuedFor config token r session
      × (any (settles token) after ≡ false)
unfolding no_leases Login
sessions_come_from_logins config operations now token session order e =
    let held =
      answered now token (promises config operations no_leases) session
        (sym (sessions_refine_leases config operations now (some token) order) ∙ e) in
    elim (traced config operations token session no_leases (inr refl) held) [
      | inl ((ends_at, lease), quiet) ↦ absurd (cc lease)
      | inr (before, at, r, after, split, is_made, quiet) ↦
          (before, at, r, after, split, rw is_made (made-IssuedFor config token r), quiet)
    ]
