-- ===== src/Mqtt/Samples.antt =====
-- The router and the broker at concrete inputs.
use iot_athome.Prelude.{
  ℕ, [], ◌∷◌, map, not, ◌≡◌, refl, Bool, true, false, Text, codes, text_eq, All, any, filter,
  length, split, lookup, ok, err, ltb,
}
use iot_athome.Capabilities.{
  CapabilityMap, matches_mqtt_topic, match_levels, check_mqtt_subscribe, mqtt_filter_covers,
  cover_levels,
}
use iot_athome.Mqtt.{
  Subscription, register, unregister, dispatch, send_all, snapshot, prune, reported, refcount,
  subscribe_filter, MqttHost, host_subscribe, plugin_exit, broker_subscribe_failed,
}
use iot_athome.Mqtt.Router.{
  owned_by, unregister_lem, deliverable, delivered-dispatch, dispatch_prunes,
}
use iot_athome.Mqtt.Steps.{System}
use iot_athome.Mqtt.Interleavings.{start}
use iot_athome.Mqtt.Leaks.{refused_subscribe_sticks, pruned_reference_stays}

abbrev p1 : Text
p1 = codes "p1"

abbrev p2 : Text
p2 = codes "p2"

abbrev rtl : Text
rtl = codes "rtl_433/+"

abbrev caps : CapabilityMap
caps = record {
  bus = record { publish = []; subscribe = [] };
  mqtt = record { publish = []; subscribe = codes "rtl_433/#" ∷ []; bridge = [] };
  net = record { outbound = [] };
  registry = record { upsert = false; list = false };
}

rtl_allowed : check_mqtt_subscribe caps rtl ≡ ok tt
unfolding check_mqtt_subscribe mqtt_filter_covers cover_levels split text_eq any
rtl_allowed = refl

abbrev sub1 : Subscription
sub1 = record { plugin_id = p1; filter = rtl; tx = 1 }

abbrev sub2 : Subscription
sub2 = record { plugin_id = p2; filter = rtl; tx = 2 }

-- Mailbox 1 is closed.
abbrev only_two : ℕ → Bool
only_two n = ltb 1 n

one_delivery : dispatch only_two (codes "rtl_433/x") (sub1 ∷ sub2 ∷ []) ≡ (1, sub2 ∷ [])
unfolding dispatch send_all snapshot prune reported any filter matches_mqtt_topic match_levels split
    text_eq
one_delivery = refl

unregister_lem_run :
    ((unregister p1 (sub1 ∷ sub2 ∷ [])).0
      ≡ map (λ s. s.filter) (filter (owned_by p1) (sub1 ∷ sub2 ∷ [])))
    × ((unregister p1 (sub1 ∷ sub2 ∷ [])).1 ≡ filter (λ s. not (owned_by p1 s)) (sub1 ∷ sub2 ∷ []))
unregister_lem_run = unregister_lem p1 (sub1 ∷ sub2 ∷ [])

delivered-dispatch_run :
    (dispatch only_two (codes "rtl_433/x") (sub1 ∷ sub2 ∷ [])).0
    ≡ length (filter (deliverable only_two (codes "rtl_433/x")) (sub1 ∷ sub2 ∷ []))
delivered-dispatch_run = delivered-dispatch only_two (codes "rtl_433/x") (sub1 ∷ sub2 ∷ [])

dispatch_prunes_run :
    All
      (λ s. matches_mqtt_topic s.filter (codes "rtl_433/x") ≡ true → only_two s.tx ≡ true)
      (dispatch only_two (codes "rtl_433/x") (sub1 ∷ sub2 ∷ [])).1
dispatch_prunes_run = dispatch_prunes only_two (codes "rtl_433/x") (sub1 ∷ sub2 ∷ [])

abbrev empty_host : MqttHost
empty_host = record { router = []; broker = record { filter_refcount = []; wire = [] } }

refused_subscribe_sticks_run :
    ((host_subscribe caps false p1 rtl 1 empty_host).0 ≡ err broker_subscribe_failed)
    × ((host_subscribe caps true p1 rtl 1 (host_subscribe caps false p1 rtl 1 empty_host).1).0
        ≡ ok tt)
    × ((host_subscribe caps true p1 rtl 1
          (host_subscribe caps false p1 rtl 1 empty_host).1).1.broker.wire
        ≡ [])
unfolding lookup
refused_subscribe_sticks_run =
    refused_subscribe_sticks caps true p1 rtl 1 empty_host rtl_allowed refl

abbrev one_held : MqttHost
one_held = record {
  router = sub1 ∷ [];
  broker = record { filter_refcount = (rtl, 1) ∷ []; wire = [] };
}

pruned_reference_stays_run :
    refcount rtl
      (plugin_exit
        (λ f. true)
        p1
        (record one_held { router = (dispatch only_two (codes "rtl_433/x") (sub1 ∷ [])).1 })).broker
    ≡ refcount rtl one_held.broker
unfolding matches_mqtt_topic match_levels split text_eq
pruned_reference_stays_run =
    pruned_reference_stays only_two (codes "rtl_433/x") (λ f. true) one_held [] [] sub1 refl refl
      refl

-- p1 subscribes, p2 subscribes to the same filter in the middle of p1's exit.
abbrev after_one : System
after_one = record start {
  router = register p1 rtl 1 [];
  broker = (subscribe_filter true rtl start.broker).1;
  wired = (p1, rtl) ∷ [];
}
