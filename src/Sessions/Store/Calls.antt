-- ===== src/Sessions/Store/Calls.antt =====
-- Calls on the verification tokens (packages/storage/sessions.py), and what they keep of another
-- token.
use k8s_ops.Prelude.{
  ℕ, String, Bool, false, Option, none, some, List, [], ◌∷◌, ◌==◌, string_eq, lookup, lookup-put,
  lookup-remove, any, ◌≡◌, refl, sym, ◌∙◌, Bool-cases, inl, inr, ||-false,
}
use k8s_ops.Sessions.State.{Store}
use k8s_ops.Sessions.Store.{
  create_email_verification_token, consume_email_verification_token, consume_present,
  require_connected, present,
}

-- A call on the tokens, with its reading of the clock.
pub data Call : Type 0 where
  issues : ℕ → String → String → String → Call
  redeems : ℕ → Option String → Call

unfoldable pub answer_call : Call → Store → Store
answer_call (issues now token user_id email) store =
    (create_email_verification_token now token user_id email store).1
answer_call (redeems now token) store = (consume_email_verification_token now token store).1

unfoldable pub answer_calls : List Call → Store → Store
answer_calls [] store = store
answer_calls (call ∷ rest) store = answer_calls rest (answer_call call store)

unfoldable pub issues_token : String → Call → Bool
issues_token token (issues now other user_id email) = other == token
issues_token token (redeems now other) = false

unfoldable asks_for : String → Option String → Bool
asks_for token none = false
asks_for token (some other) = other == token

unfoldable pub concerns : String → Call → Bool
unfolding asks_for
concerns token (issues now other user_id email) = other == token
concerns token (redeems now other) = asks_for token other

-- What a call on another token keeps.
pub record Keeps (token : String) (before after : Store) : Type 0 where
  pub same_connected : after.connected ≡ before.connected
  pub same_config : after.config ≡ before.config
  pub same_row : lookup token after.verifications ≡ lookup token before.verifications

asks_for-present :
    (token : String) (asked : Option String)
    → asks_for token asked ≡ false
    → asks_for token (present asked) ≡ false
unfolding asks_for present
asks_for-present token none h = h
asks_for-present token (some other) h = elim (Bool-cases (other == "")) [
  | inl e ↦ rw e refl
  | inr e ↦ rw e h
]

consume_present-Keeps :
    (now : ℕ) (token : String) (asked : Option String) (store : Store)
    → asks_for token asked ≡ false
    → Keeps token store (consume_present now asked store).1
unfolding consume_present asks_for
consume_present-Keeps now token none store h = record {
  same_connected = refl;
  same_config = refl;
  same_row = refl;
}
consume_present-Keeps now token (some other) store h = record {
  same_connected = refl;
  same_config = refl;
  same_row = simp (lookup-remove, h);
}

redeems-Keeps :
    (now : ℕ) (token : String) (asked : Option String) (store : Store)
    → asks_for token asked ≡ false
    → Keeps token store (consume_email_verification_token now asked store).1
unfolding consume_email_verification_token require_connected
redeems-Keeps now token asked store h = elim (Bool-cases store.connected) [
  | inl e ↦
      simp e
        (consume_present-Keeps now token (present asked) store (asks_for-present token asked h))
  | inr e ↦ simp e (record { same_connected = refl; same_config = refl; same_row = refl })
]

pub issues-Keeps :
    (now : ℕ) (other user_id email token : String) (store : Store)
    → (other == token) ≡ false
    → Keeps token store (create_email_verification_token now other user_id email store).1
unfolding create_email_verification_token require_connected
issues-Keeps now other user_id email token store h = elim (Bool-cases store.connected) [
  | inl e ↦
      simp e
        (record { same_connected = sym e; same_config = refl; same_row = simp (lookup-put, h) })
  | inr e ↦ simp e (record { same_connected = refl; same_config = refl; same_row = refl })
]

answer_call-Keeps :
    (call : Call) (token : String) (store : Store)
    → concerns token call ≡ false
    → Keeps token store (answer_call call store)
unfolding answer_call concerns
answer_call-Keeps (issues now other user_id email) token store h =
    issues-Keeps now other user_id email token store h
answer_call-Keeps (redeems now other) token store h = redeems-Keeps now token other store h

pub answer_calls-Keeps :
    (calls : List Call) (token : String) (store : Store)
    → any (concerns token) calls ≡ false
    → Keeps token store (answer_calls calls store)
unfolding answer_calls
answer_calls-Keeps [] token store h = record {
  same_connected = refl;
  same_config = refl;
  same_row = refl;
}
answer_calls-Keeps (call ∷ rest) token store h =
    let (first, others) = ||-false (concerns token call) (any (concerns token) rest) h in
    let one = answer_call-Keeps call token store first in
    let more = answer_calls-Keeps rest token (answer_call call store) others in
    record {
      same_connected = more.same_connected ∙ one.same_connected;
      same_config = more.same_config ∙ one.same_config;
      same_row = more.same_row ∙ one.same_row;
    }
