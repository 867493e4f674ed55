-- ===== src/Bus/Subject/Laws.antt =====
-- The wildcard relation of subjects, for `_subject_matches` of packages/events/in_memory.py.
use k8s_ops.Prelude.{
  String, Bool, true, false, not, ◌&&◌, ◌==◌, string_eq, List, [], ◌∷◌, is_empty, if◌then◌else◌,
  ◌≡◌, ◌≢◌, refl, ◌↔◌, arith, Bool-cases, ◌⊎◌, inl, inr, beq_true, beq_self,
}
use k8s_ops.Bus.Subject.{subject_matches}

-- `*` stands for one token, a last `>` for one or more, any other token for itself.
pub data Matches : List String → List String → Type 0 where
  nothing : Matches [] []
  rest : (word : String) (words : List String) → Matches (">" ∷ []) (word ∷ words)
  one :
      {pattern subject : List String} (word : String)
      → Matches pattern subject
      → Matches ("*" ∷ pattern) (word ∷ subject)
  same :
      {pattern subject : List String} (word : String)
      → word ≢ ">"
      → Matches pattern subject
      → Matches (word ∷ pattern) (word ∷ subject)

empty_list : (xs : List String) → is_empty xs ≡ true → xs ≡ []
empty_list [] h = refl
empty_list (x ∷ xs) h = absurd (cc)

tests :
    (star own left : Bool)
    → (if not star && not own then false else left) ≡ true
    → ((star ≡ true) ⊎ (own ≡ true)) × (left ≡ true)
tests true own left h = (inl refl, h)
tests false true left h = (inr refl, h)
tests false false left h = absurd (cc)

sound :
    (pattern subject : List String)
    → subject_matches pattern subject ≡ true
    → Matches pattern subject
unfolding subject_matches
sound [] [] h = nothing
sound [] (word ∷ subject) h = absurd (cc)
sound (token ∷ pattern) [] h = absurd (cc)
sound (token ∷ pattern) (word ∷ subject) h = elim (Bool-cases (token == ">")) [
  | inl last ↦
      rw (beq_true token ">" last) (rw (empty_list pattern (rw last at h)) (rest word subject))
  | inr more ↦
      let (kind, left) =
        tests (token == "*") (token == word) (subject_matches pattern subject) (rw more at h) in
      elim kind [
        | inl star ↦ rw (beq_true token "*" star) (one word (sound pattern subject left))
        | inr own ↦
            rw (beq_true token word own)
              (same word (λ e. cc (beq_true token word own, more, e)) (sound pattern subject left))
      ]
]

own_token :
    (last star own alone left : Bool)
    → last ≡ false
    → own ≡ true
    → left ≡ true
    → (if last then alone else if not star && not own then false else left) ≡ true
own_token last star own alone left h e k = ground arith

complete :
    {pattern subject : List String}
    → Matches pattern subject
    → subject_matches pattern subject ≡ true
unfolding subject_matches
complete nothing = refl
complete (rest word words) = refl
complete (one word m) = complete m
complete (same {pattern = p} {subject = q} word h m) =
    let plain : (word == ">") ≡ false = elim (Bool-cases (word == ">")) [
      | inl last ↦ absurd (h (beq_true word ">" last))
      | inr other ↦ other
    ] in
    own_token (word == ">") (word == "*") (word == word) (is_empty p) (subject_matches p q) plain
      (beq_self word) (complete m)

-- The subject test is true exactly where the wildcard relation holds: `*` stands for one token, a
-- last `>` for one or more, any other token for itself.
pub subject_matches_iff :
    (pattern subject : List String)
    → (subject_matches pattern subject ≡ true) ↔ Matches pattern subject
subject_matches_iff pattern subject = (sound pattern subject, complete)
