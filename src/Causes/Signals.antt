-- ===== src/Causes/Signals.antt =====
-- Matching a candidate's signal groups against the facts, log lines and event texts that were
-- extracted from an evidence bundle: `match_signal_group`, `match_one` and `split_signal_groups`
-- of services/ai/agent/causes/signals.py. A matcher that is no mapping has no field that is a text.
-- `casefold` is the text's own method.
use Prim.Native.String.{find, len}
use k8s_ops.Prelude.{
  ◌+◌, String, Bool, true, false, Option, none, some, List, [], ◌∷◌, any, contains, string_eq, leb,
  length, if◌then◌else◌, ◌≡◌, arith, In, here, there, Bool-cases, inl, inr,
}

pub record Matcher : Type 0 where
  pub fact : Option String
  pub log_pattern : Option String
  pub event_pattern : Option String

pub record SignalGroup : Type 0 where
  pub id : Option String
  pub any_of : List Matcher

pub record BundleSignals : Type 0 where
  pub facts : List String
  pub log_lines : List String
  pub event_texts : List String

-- `needle in text`
abbrev pub has_text : String → String → Bool
has_text needle text = leb (find text needle) (len text)

by_place :
    {A : Type 0} (p : A → Bool) (g h : A) (hs : List A)
    → In g (h ∷ hs)
    → p h ≡ true
    → (In g hs → p g ≡ true)
    → p g ≡ true
by_place p g _ hs here hit rest = hit
by_place p g h hs (there j) hit rest = rest j

module _ (casefold : String → String) where
  abbrev pub any_line : String → List String → Bool
  any_line pattern lines = any (λ line. has_text (casefold pattern) (casefold line)) lines

  abbrev pub match_event : Option String → BundleSignals → Bool
  match_event none signals = false
  match_event (some pattern) signals = any_line pattern signals.event_texts

  abbrev pub match_log : Option String → Option String → BundleSignals → Bool
  match_log none event_pattern signals = match_event event_pattern signals
  match_log (some pattern) event_pattern signals = any_line pattern signals.log_lines

  -- the first of the three fields that is a text decides
  abbrev pub match_fields : Option String → Option String → Option String → BundleSignals → Bool
  match_fields none log_pattern event_pattern signals = match_log log_pattern event_pattern signals
  match_fields (some fact) log_pattern event_pattern signals = contains signals.facts fact

  abbrev pub match_one : Matcher → BundleSignals → Bool
  match_one m signals = match_fields m.fact m.log_pattern m.event_pattern signals

  unfoldable pub match_signal_group : SignalGroup → BundleSignals → Bool
  match_signal_group group signals = any (λ m. match_one m signals) group.any_of

  -- the matched groups, and the unmatched ones
  unfoldable pub split_signal_groups :
      List SignalGroup → BundleSignals → List SignalGroup × List SignalGroup
  split_signal_groups [] signals = ([], [])
  split_signal_groups (group ∷ groups) signals =
      let (matched, unmatched) = split_signal_groups groups signals in
      if match_signal_group group signals
      then (group ∷ matched, unmatched)
      else (matched, group ∷ unmatched)

  pub length-split_signal_groups :
      (groups : List SignalGroup) (signals : BundleSignals)
      → length (split_signal_groups groups signals).0
          + length (split_signal_groups groups signals).1
        ≡ length groups
  unfolding split_signal_groups
  length-split_signal_groups [] signals = omega arith
  length-split_signal_groups (group ∷ groups) signals =
      elim (Bool-cases (match_signal_group group signals)) [
        | inl hit ↦ rw hit (omega (arith, length-split_signal_groups groups signals))
        | inr miss ↦ rw miss (omega (arith, length-split_signal_groups groups signals))
      ]

  -- no group is unmatched: all of them match
  pub none_unmatched :
      (groups : List SignalGroup) (signals : BundleSignals) (g : SignalGroup)
      → length (split_signal_groups groups signals).1 ≡ 0
      → In g groups
      → match_signal_group g signals ≡ true
  unfolding split_signal_groups
  none_unmatched [] signals g all i = elim i [ ]
  none_unmatched (group ∷ groups) signals g all i =
      elim (Bool-cases (match_signal_group group signals)) [
        | inl hit ↦
            by_place (λ x. match_signal_group x signals) g group groups i hit
              (λ j. none_unmatched groups signals g (rw hit at all) j)
        | inr miss ↦ absurd (omega (arith, rw miss at all))
      ]
