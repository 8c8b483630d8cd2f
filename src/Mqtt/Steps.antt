-- ===== src/Mqtt/Steps.antt =====
-- Plugin tasks, the dispatch loop and the supervisor as a step relation. `register`, `unregister`, the
-- pruning of a dispatch, `subscribe_filter` and `unsubscribe_filter` each hold a lock; between them
-- anything may happen, and rumqttc may refuse any request.
use iot_athome.Prelude.{ℕ, List, [], ◌∷◌, ◌++◌, ◌≡◌, Bool, Text, ok}
use iot_athome.Capabilities.{CapabilityMap, check_mqtt_subscribe}
use iot_athome.Mqtt.{
  Router, register, unregister, prune, MqttBroker, subscribe_filter, unsubscribe_filter,
}
use iot_athome.Mqtt.Tally.{Hold, tally_of, others}
use iot_athome.Mqtt.Refcount.{unless_refused}

-- The filters of plugins and filters.
abbrev pub filters : List Hold → List Text
filters [] = []
filters ((p, f) ∷ hs) = f ∷ filters hs

pub record System : Type 0 where
  pub router : Router
  pub broker : MqttBroker
  -- Host calls between `register` and `subscribe_filter`.
  pub pending : List Hold
  -- The registrations whose `subscribe_filter` has returned.
  pub wired : List Hold
  -- Filters that `unregister` returned and whose `unsubscribe_filter` is still to come.
  pub leaving : List Text
  -- The filters of the requests that rumqttc has refused, and of the entries that a dispatch has
  -- reported dead.
  pub refusals : List Text
  pub pruned : List Text

-- One atomic step of some task.
pub data Step : System → System → Type 0 where
  -- `mqtt::Host::subscribe` has passed its check and registers.
  registers :
      {s : System} (caps : CapabilityMap) (p f : Text) (tx : ℕ)
      → check_mqtt_subscribe caps f ≡ ok tt
      → Step s (record s { router = register p f tx s.router; pending = (p, f) ∷ s.pending })
  -- The same call goes on to `subscribe_filter`; `accepted` is rumqttc's answer if it is asked.
  subscribes :
      {s : System} (before after : List Hold) (p f : Text) (accepted : Bool)
      → s.pending ≡ before ++ (p, f) ∷ after
      → Step s (record s {
        broker = (subscribe_filter accepted f s.broker).1;
        pending = before ++ after;
        wired = (p, f) ∷ s.wired;
        refusals = unless_refused (subscribe_filter accepted f s.broker).0 f s.refusals;
      })
  -- A dispatch has found the mailboxes of `dead` closed and prunes them, also where other tasks have
  -- changed the router since its snapshot.
  prunes :
      {s : System} (dead : List Hold)
      → Step s (record s { router = prune dead s.router; pruned = filters dead ++ s.pruned })
  -- The supervisor finds the plugin's task ended, so that no host call of it is pending.
  exits :
      {s : System} (p : Text)
      → ((f : Text) → tally_of p f s.pending ≡ 0)
      → Step s (record s {
        router = (unregister p s.router).1;
        wired = others p s.wired;
        leaving = (unregister p s.router).0 ++ s.leaving;
      })
  -- The supervisor's loop goes on with one filter.
  unsubscribes :
      {s : System} (before after : List Text) (f : Text) (accepted : Bool)
      → s.leaving ≡ before ++ f ∷ after
      → Step s (record s {
        broker = (unsubscribe_filter accepted f s.broker).1;
        leaving = before ++ after;
        refusals = unless_refused (unsubscribe_filter accepted f s.broker).0 f s.refusals;
      })

pub data Reach (s : System) : System → Type 0 where
  here : Reach s s
  next : {t u : System} → Reach s t → Step t u → Reach s u
