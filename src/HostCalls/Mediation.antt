-- ===== src/HostCalls/Mediation.antt =====
-- No plugin gets past the checks.
use iot_athome.Prelude.{
  ◌≡◌, refl, List, [], ◌∷◌, All, any, Bool, true, false, Option, Text, Result, ok, err, arith,
  if◌then◌else◌,
}
use iot_athome.Capabilities.{
  CapabilityMap, Denied, check_bus_publish, check_mqtt_publish, matches_subject, matches_mqtt_topic,
}
use iot_athome.HostCalls.{
  PluginError, HostEffect, bus_sent, mqtt_sent, plugin_denied, PluginState, add, record_denied,
  guarded, bus_publish, mqtt_publish,
}

-- A call, with the answer that the bus or the broker would give.
pub data HostCall : Type 0 where
  bus_call : Option Text → Text → Text → Text → HostCall
  mqtt_call : Option Text → Text → Text → Bool → HostCall

abbrev pub run_call : HostCall → PluginState → Result PluginError (Unit {0}) × PluginState
run_call (bus_call answer subject iot_type payload) = bus_publish answer subject iot_type payload
run_call (mqtt_call answer topic payload retain) = mqtt_publish answer topic payload retain

-- The calls of a plugin, the first one first.
pub run_calls : List HostCall → PluginState → PluginState
run_calls [] s = s
run_calls (c ∷ cs) s = run_calls cs (run_call c s).1

-- What a plugin with the manifest may bring about.
abbrev pub Permitted : CapabilityMap → HostEffect → Type 0
Permitted m (bus_sent subject iot_type payload) =
    any (λ p. matches_subject p subject) m.bus.publish ≡ true
Permitted m (mqtt_sent topic payload retain) =
    any (λ p. matches_mqtt_topic p topic) m.mqtt.publish ≡ true
Permitted m (plugin_denied id subject reason) = Unit

-- A state of the plugin with that manifest.
record IsMediated (m : CapabilityMap) (s : PluginState) : Type 0 where
  manifest : s.capabilities ≡ m
  permitted : All (Permitted m) s.effects

noted-IsMediated :
    (m : CapabilityMap) (target code : Text) (audited : Bool) (s : PluginState)
    → IsMediated m s
    → IsMediated m (if audited then add (plugin_denied s.id target code) s else s)
noted-IsMediated m target code true s v = record {
  manifest = v.manifest;
  permitted = (tt, v.permitted);
}
noted-IsMediated m target code false s v = v

record_denied-IsMediated :
    (m : CapabilityMap) (target code : Text) (s : PluginState)
    → IsMediated m s
    → IsMediated m (record_denied target code s)
unfolding record_denied
record_denied-IsMediated m target code s v = noted-IsMediated m target code s.audited s v

guarded-IsMediated :
    (m : CapabilityMap) (check : Result Denied (Unit {0})) (target : Text) (wired : Bool)
    (e : HostEffect) (answer : Result PluginError (Unit {0})) (s : PluginState)
    → IsMediated m s
    → (check ≡ ok tt → Permitted m e)
    → IsMediated m (guarded check target wired e answer s).1
guarded-IsMediated m (err d) target wired e answer s v p =
    record_denied-IsMediated m target d.code s v
guarded-IsMediated m (ok _) target true e answer s v p = record {
  manifest = v.manifest;
  permitted = (p refl, v.permitted);
}
guarded-IsMediated m (ok _) target false e answer s v p = v

run_call-IsMediated :
    (m : CapabilityMap) (c : HostCall) (s : PluginState)
    → IsMediated m s
    → IsMediated m (run_call c s).1
unfolding bus_publish mqtt_publish check_bus_publish check_mqtt_publish
run_call-IsMediated m (bus_call answer subject iot_type payload) s v =
    guarded-IsMediated m _ _ _ _ _ s v (λ h. ground (arith, h, v.manifest))
run_call-IsMediated m (mqtt_call answer topic payload retain) s v =
    guarded-IsMediated m _ _ _ _ _ s v (λ h. ground (arith, h, v.manifest))

run_calls-IsMediated :
    (m : CapabilityMap) (cs : List HostCall) (s : PluginState)
    → IsMediated m s
    → IsMediated m (run_calls cs s)
unfolding run_calls
run_calls-IsMediated m [] s v = v
run_calls-IsMediated m (c ∷ cs) s v =
    run_calls-IsMediated m cs (run_call c s).1 (run_call-IsMediated m c s v)

-- Whatever calls a plugin makes, in whatever order, every message that reaches the bus or the broker
-- is on a subject or a topic that some entry of the plugin's manifest matches.
pub run_calls-Permitted :
    (cs : List HostCall) (s : PluginState)
    → s.effects ≡ []
    → All (Permitted s.capabilities) (run_calls cs s).effects
run_calls-Permitted cs s fresh =
    (run_calls-IsMediated s.capabilities cs s
      (record { manifest = refl; permitted = rw fresh tt })).permitted
