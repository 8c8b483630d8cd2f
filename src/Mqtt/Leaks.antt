-- ===== src/Mqtt/Leaks.antt =====
-- Where the reference counts and the broker part company: a SUBSCRIBE that the client refuses, and
-- a subscription that a dispatch prunes.
use mathlib.Core.Path.{subst}
use iot_athome.Prelude.{
  All-at, ℕ, ◌-◌, List, [], ◌∷◌, ◌++◌, ◌≡◌, refl, Bool, true, false, not, Text, text_eq_iff,
  text_eq_refl, filter, any, All, arith, ok, err,
}
use iot_athome.Capabilities.{CapabilityMap, check_mqtt_subscribe, matches_mqtt_topic}
use iot_athome.Mqtt.{
  Subscription, Router, unregister, is_dead, reported, prune, dispatch, MqttBroker, refcount,
  subscribe_filter, unsubscribe_filter, unsubscribe_all, plugin_exit, MqttHost, host_subscribe,
  broker_subscribe_failed,
}
use iot_athome.Mqtt.Router.{dead_of, dead_of-Reported, Reported}
use iot_athome.Mqtt.Refcount.{
  refcount-subscribe_filter, refcount-unsubscribe_filter, wire-subscribe_filter,
}
use iot_athome.Mqtt.Tally.{Hold, tally_of, count_filter, holds, count_filter-unregister}

-- If the client refuses the first SUBSCRIBE of a filter, the host call fails; every retry then
-- succeeds and sends nothing, so that the broker still does not forward the filter.
pub refused_subscribe_sticks :
    (caps : CapabilityMap) (accepted : Bool) (p f : Text) (tx : ℕ) (h : MqttHost)
    → check_mqtt_subscribe caps f ≡ ok tt
    → refcount f h.broker ≡ 0
    → ((host_subscribe caps false p f tx h).0 ≡ err broker_subscribe_failed)
      × ((host_subscribe caps accepted p f tx (host_subscribe caps false p f tx h).1).0 ≡ ok tt)
      × ((host_subscribe caps accepted p f tx (host_subscribe caps false p f tx h).1).1.broker.wire
          ≡ h.broker.wire)
unfolding host_subscribe subscribe_filter
refused_subscribe_sticks caps accepted p f tx h allowed fresh = (
  ground (arith, allowed, fresh),
  ground (arith, allowed, fresh, refcount-subscribe_filter false f f h.broker, text_eq_refl f),
  ground (
    arith,
    allowed,
    fresh,
    wire-subscribe_filter false f h.broker,
    refcount-subscribe_filter false f f h.broker,
    wire-subscribe_filter accepted f (subscribe_filter false f h.broker).1,
    text_eq_refl f,
  ),
)

refcount-unsubscribe_all :
    (accepted : Text → Bool) (g : Text) (fs : List Text) (b : MqttBroker)
    → refcount g (unsubscribe_all accepted fs b) ≡ refcount g b - count_filter g fs
unfolding unsubscribe_all
refcount-unsubscribe_all accepted g [] b = ground arith
refcount-unsubscribe_all accepted g (f ∷ fs) b = ground (
  arith,
  refcount-unsubscribe_all accepted g fs (unsubscribe_filter (accepted f) f b).1,
  refcount-unsubscribe_filter (accepted f) f g b,
  text_eq_iff f g,
)

tally_of-pruned :
    (dead : List Hold) (s : Subscription) (r : Router)
    → is_dead dead s ≡ true
    → tally_of s.plugin_id s.filter (holds (filter (λ x. not (is_dead dead x)) r)) ≡ 0
unfolding filter
tally_of-pruned dead s [] h = refl
tally_of-pruned dead s (x ∷ r) h = ground (
  arith,
  text_eq_iff x.plugin_id s.plugin_id,
  text_eq_iff x.filter s.filter,
  tally_of-pruned dead s r h,
)

tally_of-prune :
    (dead : List Hold) (s : Subscription) (r : Router)
    → is_dead dead s ≡ true
    → tally_of s.plugin_id s.filter (holds (prune dead r)) ≡ 0
unfolding prune reported any
tally_of-prune [] s r h = cc
tally_of-prune (d ∷ dead) s r h = tally_of-pruned (d ∷ dead) s r h

-- A dispatch that finds the subscription's mailbox closed takes it out of the router, so that the
-- supervisor's clean-up after the plugin's exit no longer returns its filter: the filter's count
-- stays as it was, and the broker is never told to unsubscribe it.
pub pruned_reference_stays :
    (alive : ℕ → Bool) (topic : Text) (accepted : Text → Bool) (h : MqttHost)
    (before after : Router) (s : Subscription)
    → h.router ≡ before ++ s ∷ after
    → matches_mqtt_topic s.filter topic ≡ true
    → alive s.tx ≡ false
    → refcount s.filter
        (plugin_exit accepted s.plugin_id
          (record h { router = (dispatch alive topic h.router).1 })).broker
      ≡ refcount s.filter h.broker
unfolding plugin_exit dispatch dead_of
pruned_reference_stays alive topic accepted h before after s at m closed =
    let dead = dead_of alive topic h.router in
    let hit : is_dead dead s ≡ true =
      All-at (Reported alive topic dead) before s after
        (subst (λ r. All (Reported alive topic dead) r) at (dead_of-Reported alive topic h.router))
        m closed in
    omega (
      arith,
      refcount-unsubscribe_all accepted s.filter (unregister s.plugin_id (prune dead h.router)).0
          h.broker,
      count_filter-unregister s.filter s.plugin_id (prune dead h.router),
      tally_of-prune dead s h.router hit,
    )
