-- ===== src/Limits/Samples.antt =====
-- A payload of two lists, shrunk to ten bytes where an item has two.
use k8s_ops.Prelude.{ℕ, ◌+◌, ◌*◌, min, String, some, List, [], ◌∷◌, length, ◌≡◌, Table}
use k8s_ops.Limits.Selection.{limit_list}
use k8s_ops.Limits.Selection.Length.{length-limit_list}
use k8s_ops.Limits.Payload.{Limit, Budget, limit_payload_size}
use k8s_ops.Limits.Payload.Ending.{Ended, limit_payload_size_ends}
use k8s_ops.Limits.Payload.Originals.{Keeps, original_counts_stay}

abbrev items_in : Table String (List String) → ℕ
items_in [] = 0
items_in ((key, items) ∷ rest) = length items + items_in rest

abbrev ten_bytes : Budget String
ten_bytes = record {
  payload_size = λ payload. 2 * items_in payload;
  list_size = λ items. 2 * length items;
  max_bytes = 10;
  keys = "pods" ∷ "events" ∷ [];
  group_key = λ key. some (λ item. item);
}

abbrev collected : Table String (List String)
collected = ("pods", "a" ∷ "a" ∷ "a" ∷ "b" ∷ "c" ∷ []) ∷ ("events", "x" ∷ "y" ∷ []) ∷ []

length-limit_list_example :
    length (limit_list ("a" ∷ "a" ∷ "a" ∷ "b" ∷ "c" ∷ []) 3 (some (λ (item : String). item)))
    ≡ min 3 5
length-limit_list_example =
    length-limit_list ("a" ∷ "a" ∷ "a" ∷ "b" ∷ "c" ∷ []) 3 (some (λ item. item))

limit_payload_size_ends_example : Ended ten_bytes (limit_payload_size ten_bytes collected []).0
limit_payload_size_ends_example = limit_payload_size_ends ten_bytes collected []

abbrev known_limits : Table String Limit
known_limits = ("pods", (9, 5)) ∷ []

original_counts_stay_example :
    Keeps known_limits (limit_payload_size ten_bytes collected known_limits).1
original_counts_stay_example = original_counts_stay ten_bytes collected known_limits
