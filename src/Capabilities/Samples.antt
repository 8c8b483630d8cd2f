-- ===== src/Capabilities/Samples.antt =====
-- The capability checks at concrete inputs.
use iot_athome.Prelude.{
  [], ◌∷◌, ◌≡◌, refl, true, false, ◌↔◌, Text, codes, text_eq, split, any, all, ok, err, Result,
  Option, some, none, if◌then◌else◌,
}
use iot_athome.Subjects
use iot_athome.Subjects.{validate_token, token_char}
use iot_athome.Subjects.Shape.{Subject, build}
use iot_athome.Capabilities.{
  CapabilityMap, UrlCrate, match_levels, matches_mqtt_topic, cover_levels, mqtt_filter_covers,
  check_bus_publish, check_mqtt_subscribe, check_net_outbound,
}
use iot_athome.Capabilities.Topics.{TopicMatch, matches_mqtt_topic_iff}
use iot_athome.Capabilities.Covers.{
  plain_levels, mqtt_filter_covers_sound, mqtt_filter_covers_iff, check_mqtt_subscribe_narrows,
}
use iot_athome.Capabilities.Bus.{plugin_scope, check_bus_publish_scope}
use iot_athome.Capabilities.Outbound.{Permitted, check_net_outbound_iff}

abbrev manifest : CapabilityMap
manifest = record {
  bus = record { publish = plugin_scope (codes "demo-echo") ∷ []; subscribe = [] };
  mqtt = record {
    publish = codes "cmd/+" ∷ [];
    subscribe = codes "sensors/+/temp" ∷ codes "z2m/#" ∷ [];
    bridge = [];
  };
  net = record { outbound = codes "https://api.acme.com/v1" ∷ [] };
  registry = record { upsert = false; list = false };
}

plus_is_one_level :
    (matches_mqtt_topic (codes "sensors/+/temp") (codes "sensors/a/temp") ≡ true)
    × (matches_mqtt_topic (codes "sensors/+/temp") (codes "sensors/a/b/temp") ≡ false)
    × (matches_mqtt_topic (codes "z2m/#") (codes "z2m") ≡ true)
unfolding matches_mqtt_topic match_levels split text_eq
plus_is_one_level = (refl, refl, refl)

never_broadens :
    (mqtt_filter_covers (codes "sensors/+/temp") (codes "sensors/#") ≡ false)
    × (mqtt_filter_covers (codes "sensors/#") (codes "sensors/+/temp") ≡ true)
unfolding mqtt_filter_covers cover_levels split text_eq
never_broadens = (refl, refl)

mqtt_filter_covers-sound_run :
    matches_mqtt_topic (codes "sensors/#") (codes "sensors/a/temp") ≡ true
unfolding mqtt_filter_covers cover_levels matches_mqtt_topic match_levels split text_eq
mqtt_filter_covers-sound_run =
    mqtt_filter_covers_sound (codes "sensors/#") (codes "sensors/+/temp") (codes "sensors/a/temp")
      refl refl

mqtt_filter_covers_iff_example : (mqtt_filter_covers (codes "+/temp") (codes "a/temp") ≡ true) ↔ (
    (topic : Text)
    → matches_mqtt_topic (codes "a/temp") topic ≡ true
    → matches_mqtt_topic (codes "+/temp") topic ≡ true)
unfolding plain_levels all split text_eq
mqtt_filter_covers_iff_example = mqtt_filter_covers_iff (codes "+/temp") (codes "a/temp") refl

check_mqtt_subscribe_narrows_example :
    any (λ p. matches_mqtt_topic p (codes "z2m/lamp/set")) manifest.mqtt.subscribe ≡ true
unfolding check_mqtt_subscribe any mqtt_filter_covers cover_levels matches_mqtt_topic match_levels
    split text_eq
check_mqtt_subscribe_narrows_example =
    check_mqtt_subscribe_narrows manifest (codes "z2m/+/set") (codes "z2m/lamp/set") refl refl

matches_mqtt_topic_iff_run :
    (matches_mqtt_topic (codes "a/+") (codes "a/b") ≡ true)
    ↔ TopicMatch (split b'/' (codes "a/+")) (split b'/' (codes "a/b"))
matches_mqtt_topic_iff_run = matches_mqtt_topic_iff (codes "a/+") (codes "a/b")

echo_state :
    build (Subject.device_state (codes "demo-echo") (codes "d1") (codes "temp"))
    ≡ ok (codes "device.demo-echo.d1.temp.state")
unfolding Subjects.device_state validate_token token_char all
echo_state = refl

echo_token : validate_token (codes "demo-echo") ≡ ok tt
unfolding validate_token token_char all
echo_token = refl

check_bus_publish_scope_example :
    (check_bus_publish manifest (codes "device.demo-echo.d1.temp.state") ≡ ok tt)
    ↔ (◌≡◌ {A = Option Text} (some (codes "demo-echo")) (some (codes "demo-echo")))
check_bus_publish_scope_example =
    check_bus_publish_scope manifest (codes "demo-echo")
      (Subject.device_state (codes "demo-echo") (codes "d1") (codes "temp"))
      (codes "device.demo-echo.d1.temp.state") refl echo_token echo_state

-- A stand-in for the `url` crate that knows three texts.
data KnownUrl : Type 0 where
  api api_forecast spliced : KnownUrl

abbrev known_parse : Text → Result Text KnownUrl
known_parse s =
    if text_eq s (codes "https://api.acme.com/v1")
    then ok api
    else if text_eq s (codes "https://api.acme.com/v1/forecast")
    then ok api_forecast
    else if text_eq s (codes "https://api.acme.com/v1x")
    then ok spliced
    else err (codes "relative URL without a base")

abbrev known_path : KnownUrl → Text
known_path api = codes "/v1"
known_path api_forecast = codes "/v1/forecast"
known_path spliced = codes "/v1x"

abbrev known_urls : UrlCrate
known_urls = record {
  Url = KnownUrl;
  parse = known_parse;
  scheme = λ u. codes "https";
  username = λ u. [];
  password = λ u. none;
  host_str = λ u. some (codes "api.acme.com");
  port_or_known_default = λ u. some 443;
  path = known_path;
}

check_net_outbound_iff_example :
    (check_net_outbound known_urls manifest (codes "https://api.acme.com/v1/forecast") ≡ ok tt) ↔ (
      (req : KnownUrl) × (known_parse (codes "https://api.acme.com/v1/forecast") ≡ ok req)
      × Permitted known_urls manifest req)
check_net_outbound_iff_example =
    check_net_outbound_iff known_urls manifest (codes "https://api.acme.com/v1/forecast")
