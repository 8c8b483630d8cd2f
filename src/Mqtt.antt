-- ===== src/Mqtt.antt =====
-- crates/iot-plugin-host/src/mqtt.rs: the routing table of inbound messages, and the reference
-- counts that decide when the host tells the broker SUBSCRIBE and UNSUBSCRIBE. The clean-up after a
-- plugin's exit is in supervisor.rs, and the host call `subscribe` in component.rs.
pub mod Router
pub mod Refcount
pub mod Tally
pub mod Steps
pub mod Interleavings
pub mod Leaks
mod Samples
use iot_athome.Prelude.{
  ℕ, zero, suc, ◌+◌, ◌-◌, List, [], ◌∷◌, ◌++◌, Bool, true, false, not, ◌&&◌, Option, some, none,
  Text, codes, text_eq, Dict, lookup, insert, remove, any, filter, length, if◌then◌else◌, ltb, ◌==◌,
  Result, ok, err, is_empty,
}
use iot_athome.Capabilities.{matches_mqtt_topic, CapabilityMap, Denied, check_mqtt_subscribe}

-- A mailbox is known by a number; the environment says which mailboxes are still open.
pub record Subscription : Type 0 where
  pub plugin_id : Text
  pub filter : Text
  pub tx : ℕ

abbrev pub Router : Type 0
Router = List Subscription

unfoldable pub register : Text → Text → ℕ → Router → Router
register plugin_id filter tx r =
    r ++ record { plugin_id = plugin_id; filter = filter; tx = tx } ∷ []

-- The filters that were removed, and what is left.
unfoldable pub unregister : Text → Router → List Text × Router
unregister plugin_id [] = ([], [])
unregister plugin_id (s ∷ r) =
    let (removed, kept) = unregister plugin_id r in
    if text_eq s.plugin_id plugin_id then (s.filter ∷ removed, kept) else (removed, s ∷ kept)

-- The subscriptions that `dispatch` sends to.
unfoldable pub snapshot : Text → Router → List Subscription
snapshot topic = filter (λ s. matches_mqtt_topic s.filter topic)

-- The loop over the snapshot: how many sends succeeded, and the dead entries.
unfoldable pub send_all : (ℕ → Bool) → List Subscription → ℕ × List (Text × Text)
send_all alive [] = (0, [])
send_all alive (s ∷ r) =
    let (delivered, dead) = send_all alive r in
    if alive s.tx then (delivered + 1, dead) else (delivered, (s.plugin_id, s.filter) ∷ dead)

unfoldable pub reported : List (Text × Text) → Text → Text → Bool
reported dead plugin_id f = any (λ (pid, filt). text_eq pid plugin_id && text_eq filt f) dead

abbrev pub is_dead : List (Text × Text) → Subscription → Bool
is_dead dead s = reported dead s.plugin_id s.filter

unfoldable pub prune : List (Text × Text) → Router → Router
prune dead r = if is_empty dead then r else filter (λ s. not (is_dead dead s)) r

-- A dispatch that no other task interrupts.
unfoldable pub dispatch : (ℕ → Bool) → Text → Router → ℕ × Router
dispatch alive topic r =
    let (delivered, dead) = send_all alive (snapshot topic r) in (delivered, prune dead r)

-- The packets that reached the broker, the last one first.
pub data Packet : Type 0 where
  subscribe unsubscribe : Text → Packet

pub record MqttBroker : Type 0 where
  pub filter_refcount : Dict ℕ
  pub wire : List Packet

-- rumqttc's refusal of a request.
pub data ClientError : Type 0 where
  refused : ClientError

abbrev pub count_of : Option ℕ → ℕ
count_of none = 0
count_of (some n) = n

-- `filter_refcount(filter)`
abbrev pub refcount : Text → MqttBroker → ℕ
refcount f b = count_of (lookup f b.filter_refcount)

-- A request on the client: `accepted` is rumqttc's answer.
abbrev request : Bool → Packet → MqttBroker → Result ClientError (Unit {0}) × MqttBroker
request accepted p b =
    if accepted then (ok tt, record b { wire = p ∷ b.wire }) else (err refused, b)

unfoldable pub subscribe_filter :
    Bool → Text → MqttBroker → Result ClientError (Unit {0}) × MqttBroker
subscribe_filter accepted f b =
    let entry = refcount f b + 1 in
    let b' : MqttBroker = record b { filter_refcount = insert f entry b.filter_refcount } in
    if entry == 1 then request accepted (subscribe f) b' else (ok tt, b')

-- By the entry that `counts.get_mut(filter)` finds.
unfoldable pub drop_reference :
    Option ℕ → Bool → Text → MqttBroker → Result ClientError (Unit {0}) × MqttBroker
drop_reference (some count) accepted f b =
    if ltb 1 count
    then (ok tt, record b { filter_refcount = insert f (count - 1) b.filter_refcount })
    else request accepted (unsubscribe f)
        (record b { filter_refcount = remove f b.filter_refcount })
drop_reference none accepted f b = (ok tt, b)

unfoldable pub unsubscribe_filter :
    Bool → Text → MqttBroker → Result ClientError (Unit {0}) × MqttBroker
unsubscribe_filter accepted f b = drop_reference (lookup f b.filter_refcount) accepted f b

-- The router and the broker of one host process.
pub record MqttHost : Type 0 where
  pub router : Router
  pub broker : MqttBroker

pub data SubscribeError : Type 0 where
  denied : Denied → SubscribeError
  broker_subscribe_failed : SubscribeError

abbrev subscribe_result : Result ClientError (Unit {0}) → Result SubscribeError (Unit {0})
subscribe_result (ok _) = ok tt
subscribe_result (err _) = err broker_subscribe_failed

-- `mqtt::Host::subscribe` of a plugin whose broker and mailbox are wired.
abbrev subscribe_checked :
    Result Denied (Unit {0})
    → Bool
    → Text
    → Text
    → ℕ
    → MqttHost
    → Result SubscribeError (Unit {0}) × MqttHost
subscribe_checked (err d) accepted id f tx h = (err (denied d), h)
subscribe_checked (ok _) accepted id f tx h =
    let (r, b) = subscribe_filter accepted f h.broker in
    (subscribe_result r, record { router = register id f tx h.router; broker = b })

unfoldable pub host_subscribe :
    CapabilityMap → Bool → Text → Text → ℕ → MqttHost → Result SubscribeError (Unit {0}) × MqttHost
host_subscribe caps accepted id f tx h =
    subscribe_checked (check_mqtt_subscribe caps f) accepted id f tx h

-- The loop of `supervise` over the filters of a plugin that has exited; a refusal is logged only.
unfoldable pub unsubscribe_all : (Text → Bool) → List Text → MqttBroker → MqttBroker
unsubscribe_all accepted [] b = b
unsubscribe_all accepted (f ∷ fs) b =
    unsubscribe_all accepted fs (unsubscribe_filter (accepted f) f b).1

unfoldable pub plugin_exit : (Text → Bool) → Text → MqttHost → MqttHost
plugin_exit accepted id h =
    let (removed, kept) = unregister id h.router in
    record { router = kept; broker = unsubscribe_all accepted removed h.broker }
