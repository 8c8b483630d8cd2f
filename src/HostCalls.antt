-- ===== src/HostCalls.antt =====
-- crates/iot-plugin-host/src/component.rs: the publishing calls that a plugin can make, each behind
-- its check of the manifest. `mqtt::Host::subscribe` stands in Mqtt.
pub mod Mediation
mod Samples
use iot_athome.Prelude.{
  ℕ, ◌+◌, List, [], ◌∷◌, Bool, true, false, Option, some, none, Text, codes, if◌then◌else◌, Result,
  ok, err,
}
use iot_athome.Capabilities.{CapabilityMap, Denied, check_bus_publish, check_mqtt_publish}

pub record PluginError : Type 0 where
  pub code : Text
  pub message : Text

-- What a call does to the world: a message handed to the bus or the broker, an audit entry.
pub data HostEffect : Type 0 where
  bus_sent : Text → Text → Text → HostEffect
  mqtt_sent : Text → Text → Bool → HostEffect
  plugin_denied : Text → Text → Text → HostEffect

-- `audited`, `bus` and `mqtt` tell whether the log, the bus and the broker are wired. The effects
-- stand with the latest first.
pub record PluginState : Type 0 where
  pub id : Text
  pub capabilities : CapabilityMap
  pub audited : Bool
  pub bus : Bool
  pub mqtt : Bool
  pub effects : List HostEffect

abbrev pub add : HostEffect → PluginState → PluginState
add e s = record s { effects = e ∷ s.effects }

unfoldable pub record_denied : Text → Text → PluginState → PluginState
record_denied subject reason s = if s.audited then add (plugin_denied s.id subject reason) s else s

-- The answer of the bus or the broker: `none` where it takes the message.
abbrev answered : Text → Option Text → Result PluginError (Unit {0})
answered code none = ok tt
answered code (some e) = err (record { code = code; message = e })

-- The common course of the two calls: the check, the dry run without a connection, the send.
abbrev pub guarded :
    Result Denied (Unit {0})
    → Text
    → Bool
    → HostEffect
    → Result PluginError (Unit {0})
    → PluginState
    → Result PluginError (Unit {0}) × PluginState
guarded (err d) target wired e answer s =
    (err (record { code = d.code; message = d.message }), record_denied target d.code s)
guarded (ok _) target true e answer s = (answer, add e s)
guarded (ok _) target false e answer s = (ok tt, s)

unfoldable pub bus_publish :
    Option Text → Text → Text → Text → PluginState → Result PluginError (Unit {0}) × PluginState
bus_publish answer subject iot_type payload s =
    guarded (check_bus_publish s.capabilities subject) subject s.bus
      (bus_sent subject iot_type payload) (answered (codes "bus.publish_failed") answer) s

unfoldable pub mqtt_publish :
    Option Text → Text → Text → Bool → PluginState → Result PluginError (Unit {0}) × PluginState
mqtt_publish answer topic payload retain s =
    guarded (check_mqtt_publish s.capabilities topic) topic s.mqtt (mqtt_sent topic payload retain)
      (answered (codes "mqtt.publish_failed") answer) s
