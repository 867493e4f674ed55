-- ===== src/Sessions/Store/Tokens.antt =====
-- The e-mail verification tokens of `MemorySessionStore` (packages/storage/sessions.py).
use k8s_ops.Prelude.{
  ℕ, ◌+◌, String, true, false, Option, none, some, List, [], ◌∷◌, if◌then◌else◌, ltb, ◌==◌,
  string_eq, lookup, lookup-put_self, lookup-remove, any, ◌≡◌, refl, ◌∙◌, ||-false, none_either,
  beq_self,
}
use k8s_ops.Sessions.State.{Store, returns, seconds}
use k8s_ops.Sessions.Store.{
  create_email_verification_token, consume_email_verification_token, consume_present,
  read_verification, require_connected, present,
}
use k8s_ops.Sessions.Store.Calls.{
  Call, issues, redeems, answer_call, answer_calls, issues_token, concerns, issues-Keeps,
  answer_calls-Keeps,
}

-- A store without the token, which stays without it.
record Lacks (token : String) (store : Store) : Type 0 where
  pub lacking_connected : store.connected ≡ true
  pub no_row : lookup token store.verifications ≡ none

consume_present-Lacks :
    (now : ℕ) (token : String) (asked : Option String) (store : Store)
    → Lacks token store
    → Lacks token (consume_present now asked store).1
unfolding consume_present
consume_present-Lacks now token none store l = l
consume_present-Lacks now token (some other) store l = record {
  lacking_connected = l.lacking_connected;
  no_row =
      rw (lookup-remove other token store.verifications)
        (none_either (other == token) (lookup token store.verifications) l.no_row);
}

redeems-Lacks :
    (now : ℕ) (token : String) (asked : Option String) (store : Store)
    → Lacks token store
    → Lacks token (consume_email_verification_token now asked store).1
unfolding consume_email_verification_token require_connected
redeems-Lacks now token asked store l =
    simp l.lacking_connected (consume_present-Lacks now token (present asked) store l)

answer_call-Lacks :
    (call : Call) (token : String) (store : Store)
    → issues_token token call ≡ false
    → Lacks token store
    → Lacks token (answer_call call store)
unfolding answer_call issues_token
answer_call-Lacks (issues now other user_id email) token store h l =
    let same = issues-Keeps now other user_id email token store h in
    record {
      lacking_connected = same.same_connected ∙ l.lacking_connected;
      no_row = same.same_row ∙ l.no_row;
    }
answer_call-Lacks (redeems now other) token store h l = redeems-Lacks now token other store l

answer_calls-Lacks :
    (calls : List Call) (token : String) (store : Store)
    → any (issues_token token) calls ≡ false
    → Lacks token store
    → Lacks token (answer_calls calls store)
unfolding answer_calls
answer_calls-Lacks [] token store h l = l
answer_calls-Lacks (call ∷ rest) token store h l =
    let (first, others) = ||-false (issues_token token call) (any (issues_token token) rest) h in
    answer_calls-Lacks rest token (answer_call call store) others
      (answer_call-Lacks call token store first l)

-- What a connected store answers for a token that is not empty.
redeem-row :
    (now : ℕ) (token : String) (store : Store)
    → store.connected ≡ true
    → (token == "") ≡ false
    → ((consume_email_verification_token now (some token) store).0
        ≡ returns (read_verification now (lookup token store.verifications)))
      × Lacks token (consume_email_verification_token now (some token) store).1
unfolding consume_email_verification_token require_connected consume_present present
redeem-row now token store up present_token =
    simp (up, present_token)
      (refl, record { lacking_connected = refl; no_row = simp (lookup-remove, beq_self) })

issued_row :
    (now : ℕ) (token user_id email : String) (store : Store)
    → store.connected ≡ true
    → let after = (create_email_verification_token now token user_id email store).1 in
      (after.connected ≡ true)
      × (lookup token after.verifications
          ≡ some (
            now + seconds store.config.email_verification_ttl_seconds,
            record { user_id = user_id; email = email },
          ))
unfolding create_email_verification_token require_connected
issued_row now token user_id email store up = simp (up, lookup-put_self) (refl, refl)

-- An issued token that is not empty is redeemed once: whatever other tokens are issued or redeemed
-- in between, the first redemption returns the account it was issued for exactly when its
-- time is not over, and every later one returns nothing until the token is issued again.
pub token_is_redeemed_once :
    (issued now later : ℕ) (token user_id email : String) (between after : List Call)
    (store : Store)
    → store.connected ≡ true
    → (token == "") ≡ false
    → any (concerns token) between ≡ false
    → any (issues_token token) after ≡ false
    → let deadline = issued + seconds store.config.email_verification_ttl_seconds in
      let asked =
        answer_calls between (create_email_verification_token issued token user_id email store).1 in
      let (first, left) = consume_email_verification_token now (some token) asked in
      (first
        ≡ returns
            (if ltb now deadline then some (record { user_id = user_id; email = email }) else none))
      × ((consume_email_verification_token later (some token) (answer_calls after left)).0
          ≡ returns none)
unfolding read_verification
token_is_redeemed_once issued now later token user_id email between after store up given spared
      fresh =
    let start = (create_email_verification_token issued token user_id email store).1 in
    let asked = answer_calls between start in
    let (up', row) = issued_row issued token user_id email store up in
    let kept = answer_calls-Keeps between token start spared in
    let (first, lacks) = redeem-row now token asked (kept.same_connected ∙ up') given in
    let left = (consume_email_verification_token now (some token) asked).1 in
    let gone = answer_calls-Lacks after token left fresh lacks in
    let (second, _) =
      redeem-row later token (answer_calls after left) gone.lacking_connected given in
    (simp (kept.same_row, row) at first, simp gone.no_row at second)
