-- ===== src/Sdr433/Values.antt =====
-- A value from the adapter through the bus to the condition of a rule.
use iot_athome.Prelude.{◌≡◌, refl, ap, ◌∙◌, Option, some, ◌∷◌, Text, text_eq, codes}
use iot_athome.Json.{
  Json, Items, Fields, null, bool, number, string, array, object, nil, item, no_field, field, get,
  get_field,
}
use iot_athome.Payloads.{
  Parsers, prost_value_to_json, values_to_json, fields_to_json, number_or_null, EntityState,
  Timestamp, decode_payload, entity_state_to_json, entity_or_null,
}
use iot_athome.Sdr433.{json_to_prost, items_to_prost, fields_to_prost, or_else, publication}

module _ {N : Type 0} (p : Parsers N) (as_f64 : N → Option p.Float) (zero_f64 : p.Float) where
  -- A number after its passage through a double; none where the double is not finite.
  abbrev pub as_double : N → Json N
  as_double n = number_or_null (p.from_f64 (or_else (as_f64 n) zero_f64))

  mutual
    -- The value with each of its numbers passed through a double.
    pub doubled : Json N → Json N
    doubled null = null
    doubled (bool b) = bool b
    doubled (number n) = as_double n
    doubled (string s) = string s
    doubled (array vs) = array (doubled_items vs)
    doubled (object fs) = object (doubled_fields fs)

    doubled_items : Items N → Items N
    doubled_items nil = nil
    doubled_items (item v vs) = item (doubled v) (doubled_items vs)

    doubled_fields : Fields N → Fields N
    doubled_fields no_field = no_field
    doubled_fields (field k v fs) = field k (doubled v) (doubled_fields fs)

  mutual
    unfolding prost_value_to_json json_to_prost doubled

    value_back : (v : Json N) → prost_value_to_json p (json_to_prost as_f64 zero_f64 v) ≡ doubled v
    value_back null = refl
    value_back (bool b) = refl
    value_back (number n) = refl
    value_back (string s) = refl
    value_back (array vs) = ap array (items_back vs)
    value_back (object fs) = ap object (fields_back fs)

    items_back :
        (vs : Items N) → values_to_json p (items_to_prost as_f64 zero_f64 vs) ≡ doubled_items vs
    items_back nil = refl
    items_back (item v vs) = rw (value_back v, items_back vs) refl

    fields_back :
        (fs : Fields N) → fields_to_json p (fields_to_prost as_f64 zero_f64 fs) ≡ doubled_fields fs
    fields_back no_field = refl
    fields_back (field k v fs) = rw (value_back v, fields_back fs) refl

  -- Converting a value to protobuf and back gives the value, each number passed through a double.
  pub prost_value_to_json-json_to_prost :
      (v : Json N) → prost_value_to_json p (json_to_prost as_f64 zero_f64 v) ≡ doubled v
  prost_value_to_json-json_to_prost v = value_back v

  -- Of a message that the adapter publishes, a rule's condition sees under `value` the value itself, its
  -- structure and texts unchanged and each number passed through a double, and the device under
  -- `device_id`. That is so where prost's encoding starts with the tag of the first field and prost
  -- reads the message back from it, which it does not beyond its limit on nesting.
  pub decode_payload-publication :
      (encode : EntityState p.Float → Text) (now : Timestamp) (device_id key : Text) (v : Json N)
      (rest : Text)
      → encode (publication as_f64 zero_f64 now device_id key v).state ≡ 10 ∷ rest
      → p.decode (10 ∷ rest) ≡ some (publication as_f64 zero_f64 now device_id key v).state
      → (get
            (codes "value")
            (decode_payload p (encode (publication as_f64 zero_f64 now device_id key v).state))
          ≡ some (doubled v))
        × (get
              (codes "device_id")
              (decode_payload p (encode (publication as_f64 zero_f64 now device_id key v).state))
            ≡ some (string device_id))
  unfolding decode_payload entity_state_to_json get_field text_eq
  decode_payload-publication encode now device_id key v rest tagged read_back =
      let seen = ap (decode_payload p) tagged ∙ ap (entity_or_null p) read_back in
      (ap (get (codes "value")) seen ∙ ap some (value_back v), ap (get (codes "device_id")) seen)
