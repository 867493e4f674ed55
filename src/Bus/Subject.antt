-- ===== src/Bus/Subject.antt =====
-- `_subject_matches` of packages/events/in_memory.py, on the tokens between the dots.
pub mod Laws
use k8s_ops.Prelude.{
  String, Bool, true, false, not, ◌&&◌, ◌==◌, string_eq, List, [], ◌∷◌, is_empty, if◌then◌else◌,
}

-- The loop over the pattern's tokens: the index stands for what is left of both lists.
unfoldable pub subject_matches : List String → List String → Bool
subject_matches [] subject = is_empty subject
subject_matches (token ∷ pattern) [] = false
subject_matches (token ∷ pattern) (word ∷ subject) =
    let rest = subject_matches pattern subject in
    if token == ">"
    then is_empty pattern
    else if not (token == "*") && not (token == word)
    then false
    else rest
