-- ===== src/Bus/Exchange.antt =====
-- `InMemoryEventBus` of packages/events/in_memory.py: publishing to the subscriptions whose subject
-- matches, and subscribing with a catch-up on the events published so far. `tokens` splits a
-- subject at its dots. A call on a bus that is not connected raises, which is `none` here.
pub mod CatchUp
use k8s_ops.Prelude.{
  String, Bool, true, false, not, Option, none, some, List, [], ◌∷◌, ◌++◌, if◌then◌else◌, ◌==◌,
  string_eq, pair_eq, pair_beq, Table, lookup, put,
}
use k8s_ops.Bus.Subject.{subject_matches}
use k8s_ops.Bus.Subscription.{Subscription, empty, enqueue}

pub record StoredEvent : Type 0 where
  pub subject : String
  pub data_of : String

-- subject and durable name
abbrev pub Key : Type 0
Key = String × String

pub record Exchange : Type 0 where
  pub connected : Bool
  pub closed : Bool
  pub events : List StoredEvent
  pub subscriptions : Table Key Subscription

abbrev pub fresh_exchange : Exchange
fresh_exchange = record { connected = false; closed = false; events = []; subscriptions = [] }

unfoldable pub connect : Exchange → Option Exchange
connect x = if x.closed then none else some (record x { connected = true })

module _ (tokens : String → List String) where
  abbrev pub matches : String → StoredEvent → Bool
  matches subject stored = subject_matches (tokens subject) (tokens stored.subject)

  abbrev pub offer : String → StoredEvent → Subscription → Subscription
  offer subject stored s = if matches subject stored then enqueue s stored.data_of else s

  unfoldable pub offer_all : StoredEvent → Table Key Subscription → Table Key Subscription
  offer_all stored [] = []
  offer_all stored ((key, s) ∷ rest) = (key, offer key.0 stored s) ∷ offer_all stored rest

  unfoldable pub publish_envelope : StoredEvent → Exchange → Option Exchange
  unfolding offer_all
  publish_envelope stored x =
      if x.connected
      then some (record x {
        events = x.events ++ stored ∷ [];
        subscriptions = offer_all stored x.subscriptions;
      })
      else none

  unfoldable pub catch_up : String → List StoredEvent → Subscription → Subscription
  catch_up subject [] s = s
  catch_up subject (stored ∷ events) s = catch_up subject events (offer subject stored s)

  abbrev pub subscribed : Exchange → Key → Option Subscription → Exchange
  subscribed x key (some s) = x
  subscribed x key none = record x {
    subscriptions = put key (catch_up key.0 x.events empty) x.subscriptions;
  }

  unfoldable pub subscribe : Key → Exchange → Option Exchange
  unfolding catch_up
  subscribe key x =
      if x.connected then some (subscribed x key (lookup key x.subscriptions)) else none
