-- ===== src/HostCalls/Samples.antt =====
-- A plugin that may publish its own device subjects and one topic level.
use iot_athome.Prelude.{
  ◌≡◌, refl, List, [], ◌∷◌, All, any, true, false, some, none, codes, starts_with, strip_suffix,
}
use iot_athome.Capabilities.{CapabilityMap, check_bus_publish, matches_subject}
use iot_athome.HostCalls.{bus_sent, plugin_denied, record_denied, PluginState, bus_publish}
use iot_athome.HostCalls.Mediation.{
  HostCall, bus_call, mqtt_call, run_calls, Permitted, run_calls-Permitted,
}

abbrev manifest : CapabilityMap
manifest = record {
  bus = record { publish = codes "device.echo.>" ∷ []; subscribe = [] };
  mqtt = record { publish = codes "cmd/+" ∷ []; subscribe = []; bridge = [] };
  net = record { outbound = [] };
  registry = record { upsert = false; list = false };
}

abbrev echo : PluginState
echo = record {
  id = codes "echo";
  capabilities = manifest;
  audited = true;
  bus = true;
  mqtt = true;
  effects = [];
}

abbrev calls : List HostCall
calls =
    bus_call none (codes "device.echo.d.e.state") (codes "t") []
    ∷ bus_call none (codes "device.other.d.e.state") (codes "t") []
    ∷ mqtt_call (some (codes "full")) (codes "cmd/lamp") [] false
    ∷ []

run_calls-Permitted_example : All (Permitted manifest) (run_calls calls echo).effects
run_calls-Permitted_example = run_calls-Permitted calls echo refl

sent :
    (bus_publish none (codes "device.echo.d.e.state") (codes "t") [] echo).1.effects
    ≡ bus_sent (codes "device.echo.d.e.state") (codes "t") [] ∷ []
unfolding bus_publish check_bus_publish any matches_subject strip_suffix starts_with
sent = refl

refused :
    (bus_publish none (codes "x") (codes "t") [] echo).1.effects
    ≡ plugin_denied (codes "echo") (codes "x") (codes "capability.denied") ∷ []
unfolding bus_publish record_denied check_bus_publish any matches_subject strip_suffix starts_with
refused = refl
