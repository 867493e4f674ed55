-- ===== src/Bus/Samples.antt =====
-- Subjects and a subscription at concrete inputs.
use k8s_ops.Prelude.{some, String, ◌+◌, true, false, List, [], ◌∷◌, ◌≡◌, ◌↔◌}
use k8s_ops.Bus.Subject.{subject_matches}
use k8s_ops.Bus.Subject.Laws.{Matches, subject_matches_iff}
use k8s_ops.Bus.Subscription.{empty}
use k8s_ops.Bus.Subscription.Counting.{held}
use k8s_ops.Bus.Subscription.Conservation.{
  Op, put_op, fetch_op, ack_op, nak_op, timer_op, run, settled_in, brought_in, none_lost,
}
use k8s_ops.Bus.Exchange.{Exchange, fresh_exchange, connect}
use k8s_ops.Bus.Exchange.CatchUp.{
  Step, publish_step, subscribe_step, published, run_steps, InSync, late_subscribers_catch_up,
}

subject_matches_iff_example :
    (subject_matches ("cluster" ∷ "*" ∷ ">" ∷ []) ("cluster" ∷ "evidence" ∷ "received" ∷ []) ≡ true)
    ↔ Matches ("cluster" ∷ "*" ∷ ">" ∷ []) ("cluster" ∷ "evidence" ∷ "received" ∷ [])
subject_matches_iff_example =
    subject_matches_iff ("cluster" ∷ "*" ∷ ">" ∷ []) ("cluster" ∷ "evidence" ∷ "received" ∷ [])

-- Both are fetched and delayed; the second delay is the shorter one, so its timer is over first.
-- Then all is fetched again and one is acked.
abbrev second_try : List Op
second_try =
    put_op "e1"
    ∷ put_op "e2"
    ∷ fetch_op 2
    ∷ nak_op (record { data_of = "e1"; delivery_id = 1; settled = false }) 30
    ∷ nak_op (record { data_of = "e2"; delivery_id = 2; settled = false }) 5
    ∷ timer_op 1
    ∷ timer_op 0
    ∷ fetch_op 5
    ∷ ack_op (record { data_of = "e1"; delivery_id = 4; settled = false })
    ∷ []

none_lost_example :
    held "e1" (run empty second_try) + settled_in "e1" empty second_try ≡ brought_in "e1" second_try
none_lost_example = none_lost "e1" second_try

-- A subject is one token here.
abbrev mixed_steps : List Step
mixed_steps =
    publish_step (record { subject = "incident"; data_of = "e1" })
    ∷ subscribe_step ("incident", "worker")
    ∷ publish_step (record { subject = "incident"; data_of = "e2" })
    ∷ []

abbrev one_token : String → List String
one_token subject = subject ∷ []

late_subscribers_catch_up_example :
    (y : Exchange) × (run_steps one_token (connect fresh_exchange) mixed_steps ≡ some y)
    × (y.events ≡ published mixed_steps)
    × InSync one_token y.events y.subscriptions
late_subscribers_catch_up_example = late_subscribers_catch_up one_token mixed_steps
