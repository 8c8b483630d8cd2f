-- ===== src/Sdr433.antt =====
-- plugins/sdr433-adapter/src/translator.rs and state_publisher.rs: what an rtl_433 envelope becomes on
-- the bus. A `&str` is its UTF-8 bytes.
pub mod Tokens
pub mod Values
mod Samples
use iot_athome.Prelude.{
  ℕ, zero, suc, ◌+◌, ◌-◌, List, [], ◌∷◌, ◌++◌, Bool, true, false, ◌&&◌, ◌||◌, Option, some, none,
  Text, codes, String, text_eq, leb, ltb, ◌==◌, is_empty, if◌then◌else◌, filter, map,
}
use iot_athome.Json.{
  Json, Items, Fields, null, bool, number, string, array, object, nil, item, no_field, field, get,
  get_field,
}
use iot_athome.Payloads.{
  EntityState, Timestamp, ProstValue, ProstValues, ProstFields, no_kind, null_value, bool_value,
  number_value, string_value, list_value, struct_value, end, value, end_fields, prost_field,
}

pub record EntitySpec : Type 0 where
  pub type_ : Text
  pub unit : Text
  pub device_class : Text
  pub capability : Text

abbrev spec : String → String → String → String → EntitySpec
spec type_ unit device_class capability = record {
  type_ = codes type_;
  unit = codes unit;
  device_class = codes device_class;
  capability = codes capability;
}

-- The arms of the match, from the first to the last.
abbrev pub catalog : List (Text × EntitySpec)
catalog =
    (codes "temperature_C", spec "sensor.temperature" "C" "temperature" "temperature")
    ∷ (codes "temperature_F", spec "sensor.temperature" "F" "temperature" "temperature_f")
    ∷ (codes "humidity", spec "sensor.humidity" "%" "humidity" "humidity")
    ∷ (codes "state", spec "binary_sensor.contact" "" "door" "contact")
    ∷ (codes "contact_open", spec "binary_sensor.contact" "" "door" "contact")
    ∷ (codes "pressure_PSI", spec "sensor.pressure" "psi" "pressure" "pressure_psi")
    ∷ (codes "pressure_kPa", spec "sensor.pressure" "kPa" "pressure" "pressure_kpa")
    ∷ (codes "rain_mm", spec "sensor.rainfall" "mm" "precipitation" "rainfall_mm")
    ∷ (codes "rain_in", spec "sensor.rainfall" "in" "precipitation" "rainfall_in")
    ∷ (codes "power_W", spec "sensor.power" "W" "power" "power")
    ∷ (codes "energy_kWh", spec "sensor.energy" "kWh" "energy" "energy")
    ∷ (codes "count", spec "sensor.pulse_count" "pulses" "energy" "pulse_count")
    ∷ (codes "water_consumption", spec "sensor.water_total" "L" "water" "water_total")
    ∷ (codes "battery_ok", spec "binary_sensor.battery" "" "battery" "battery_ok")
    ∷ []

unfoldable pub find_spec : Text → List (Text × EntitySpec) → Option EntitySpec
find_spec key [] = none
find_spec key ((k, s) ∷ arms) = if text_eq k key then some s else find_spec key arms

unfoldable pub entity_spec : Text → Option EntitySpec
entity_spec key = find_spec key catalog

abbrev pub is_known : Option EntitySpec → Bool
is_known none = false
is_known (some s) = true

unfoldable pub known_entity_keys : List Text → List Text
known_entity_keys = filter (λ k. is_known (entity_spec k))

-- char::to_ascii_lowercase
abbrev pub lower : ℕ → ℕ
lower c = if leb b'A' c && leb c b'Z' then c + 32 else c

abbrev pub safe : ℕ → Bool
safe c = leb b'a' c && leb c b'z' || leb b'0' c && leb c b'9' || c == b'-' || c == b'_'

-- A byte that continues a character; the character has its underscore from its first byte.
abbrev pub is_continuation : ℕ → Bool
is_continuation c = leb 128 c && leb c 191

unfoldable pub sanitize : Text → Text
sanitize [] = []
sanitize (c ∷ s) =
    let rest = sanitize s in
    if is_continuation c then rest else (if safe (lower c) then lower c else b'_') ∷ rest

-- `print` is the Display of serde_json's numbers.
module _ {N : Type 0} (print : N → Text) where
  unfoldable pub format_json_id : Json N → Text
  format_json_id (string s) = s
  format_json_id (number n) = print n
  format_json_id (bool true) = codes "true"
  format_json_id (bool false) = codes "false"
  format_json_id v = []

  abbrev pub as_str : Option (Json N) → Option Text
  as_str (some (string s)) = some s
  as_str v = none

  abbrev pub formatted : Option (Json N) → Text
  formatted none = []
  formatted (some v) = format_json_id v

  -- The id with the channel behind it, if there is one.
  abbrev pub with_channel : Text → Text → Text
  with_channel out channel = if is_empty channel then out else out ++ b'-' ∷ sanitize channel

  abbrev pub base_id : Text → Text → Text
  base_id model id_part =
      if is_empty id_part then sanitize model else sanitize model ++ b'-' ∷ sanitize id_part

  abbrev pub device_id_of : Option Text → Text → Text → Option Text
  device_id_of none id_part channel = none
  device_id_of (some model) id_part channel = some (with_channel (base_id model id_part) channel)

  unfoldable pub device_id_from_envelope : Json N → Option Text
  device_id_from_envelope (object obj) =
      device_id_of (as_str (get_field (codes "model") obj)) (formatted (get_field (codes "id") obj))
        (formatted (get_field (codes "channel") obj))
  device_id_from_envelope v = none

abbrev pub or_else {ℓ} : {A : Type ℓ} → Option A → A → A
or_else none d = d
or_else (some a) d = a

abbrev pub keys : {N : Type 0} → Fields N → List Text
keys no_field = []
keys (field k v fs) = k ∷ keys fs

unfoldable pub state_subject : Text → Text → Text
state_subject device_id key =
    codes "device.sdr433." ++ (device_id ++ b'.' ∷ (key ++ codes ".state"))

-- A call of `bus::publish`; its answer is only logged.
pub record Publication (F : Type 0) : Type 0 where
  pub subject : Text
  pub iot_type : Text
  pub state : EntityState F

-- `as_f64` is serde_json's, `zero` is 0.0.
module _ {N F : Type 0} (as_f64 : N → Option F) (zero_f64 : F) where
  unfoldable mutual
    pub json_to_prost : Json N → ProstValue F
    json_to_prost null = null_value
    json_to_prost (bool b) = bool_value b
    json_to_prost (number n) = number_value (or_else (as_f64 n) zero_f64)
    json_to_prost (string s) = string_value s
    json_to_prost (array arr) = list_value (items_to_prost arr)
    json_to_prost (object obj) = struct_value (fields_to_prost obj)

    pub items_to_prost : Items N → ProstValues F
    items_to_prost nil = end
    items_to_prost (item v vs) = value (json_to_prost v) (items_to_prost vs)

    pub fields_to_prost : Fields N → ProstFields F
    fields_to_prost no_field = end_fields
    fields_to_prost (field k v fs) = prost_field k (json_to_prost v) (fields_to_prost fs)

  abbrev pub publication : Timestamp → Text → Text → Json N → Publication F
  publication now device_id key v = record {
    subject = state_subject device_id key;
    iot_type = codes "iot.device.v1.EntityState";
    state = record {
      device_id = some device_id;
      entity_id = some (device_id ++ (codes "::" ++ key));
      value = some (json_to_prost v);
      at = some now;
      schema_version = 1;
    };
  }

  abbrev publish_keys : (Text → Timestamp) → Text → Fields N → List Text → List (Publication F)
  publish_keys now device_id obj [] = []
  publish_keys now device_id obj (k ∷ ks) =
      let rest = publish_keys now device_id obj ks in
      elim (get_field k obj) [ none ↦ rest | some v ↦ publication (now k) device_id k v ∷ rest ]

  -- `now` is the clock at a key's turn.
  unfoldable pub publish_all : (Text → Timestamp) → Text → Json N → List (Publication F)
  publish_all now device_id (object obj) =
      publish_keys now device_id obj (known_entity_keys (keys obj))
  publish_all now device_id v = []
