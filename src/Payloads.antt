-- ===== src/Payloads.antt =====
-- crates/iot-automation/src/engine.rs: what a rule's condition sees of a bus message, JSON or a
-- protobuf EntityState. The parsers of serde_json and prost are parameters; the records are the
-- generated types.
pub mod Decode
mod Samples
use iot_athome.Prelude.{
  ℕ, zero, suc, ◌+◌, ◌-◌, ◌/◌, ◌%◌, List, [], ◌∷◌, ◌++◌, Bool, true, false, ◌&&◌, ◌||◌, Option,
  some, none, Text, codes, length, leb, ltb, ◌==◌, if◌then◌else◌, text_eq,
}
use iot_athome.Json.{
  Json, Items, Fields, null, bool, number, string, array, object, nil, item, no_field, field,
}

-- `negsuc n` is -(n + 1).
pub data ℤ : Type 0 where
  pos : ℕ → ℤ
  negsuc : ℕ → ℤ

mutual
  pub data ProstValue (F : Type 0) : Type 0 where
    no_kind null_value : ProstValue F
    bool_value : Bool → ProstValue F
    number_value : F → ProstValue F
    string_value : Text → ProstValue F
    list_value : ProstValues F → ProstValue F
    struct_value : ProstFields F → ProstValue F

  pub data ProstValues (F : Type 0) : Type 0 where
    end : ProstValues F
    value : ProstValue F → ProstValues F → ProstValues F

  pub data ProstFields (F : Type 0) : Type 0 where
    end_fields : ProstFields F
    prost_field : Text → ProstValue F → ProstFields F → ProstFields F

pub record Timestamp : Type 0 where
  pub seconds : ℤ
  pub nanos : ℤ

pub record EntityState (F : Type 0) : Type 0 where
  pub device_id : Option Text
  pub entity_id : Option Text
  pub value : Option (ProstValue F)
  pub at : Option Timestamp
  pub schema_version : ℕ

pub record Parsers (Number : Type 0) : Type 1 where
  pub Float : Type 0
  pub from_f64 : Float → Option Number
  pub from_u32 : ℕ → Number
  pub from_slice : Text → Option (Json Number)
  pub decode : Text → Option (EntityState Float)

-- Display of an unsigned number below 10^20, the most significant digit first.
abbrev pub digits : ℕ → ℕ → Text → Text
digits zero n acc = acc
digits (suc fuel) n acc =
    let here = (b'0' + n % 10) ∷ acc in if ltb n 10 then here else digits fuel (n / 10) here

abbrev pub decimal : ℕ → Text
decimal n = digits 20 n []

abbrev signed : ℤ → Text
signed (pos n) = decimal n
signed (negsuc n) = b'-' ∷ decimal (n + 1)

abbrev zeros : ℕ → Text
zeros zero = []
zeros (suc n) = b'0' ∷ zeros n

-- {:09}: zeros up to nine characters, the sign among them.
abbrev padded : ℤ → Text
padded (pos n) = let ds = decimal n in zeros (9 - length ds) ++ ds
padded (negsuc n) = let ds = decimal (n + 1) in b'-' ∷ (zeros (8 - length ds) ++ ds)

-- Map::insert of the keys below, which all differ.
abbrev present : {A N : Type 0} → Text → (A → Json N) → Option A → Fields N → Fields N
present k f none fs = fs
present k f (some a) fs = field k (f a) fs

abbrev pub number_or_null : {N : Type 0} → Option N → Json N
number_or_null none = null
number_or_null (some n) = number n

module _ {Number : Type 0} (p : Parsers Number) where
  open p use {Float}

  unfoldable mutual
    pub prost_value_to_json : ProstValue Float → Json Number
    prost_value_to_json no_kind = null
    prost_value_to_json null_value = null
    prost_value_to_json (bool_value b) = bool b
    prost_value_to_json (number_value n) = number_or_null (p.from_f64 n)
    prost_value_to_json (string_value s) = string s
    prost_value_to_json (list_value lst) = array (values_to_json lst)
    prost_value_to_json (struct_value st) = object (fields_to_json st)

    pub values_to_json : ProstValues Float → Items Number
    values_to_json end = nil
    values_to_json (value v vs) = item (prost_value_to_json v) (values_to_json vs)

    pub fields_to_json : ProstFields Float → Fields Number
    fields_to_json end_fields = no_field
    fields_to_json (prost_field k v fs) = field k (prost_value_to_json v) (fields_to_json fs)

  abbrev time_to_json : Timestamp → Json Number
  time_to_json ts = string (signed ts.seconds ++ b'.' ∷ padded ts.nanos)

  unfoldable pub entity_state_to_json : EntityState Float → Json Number
  entity_state_to_json entity = object (
      present (codes "device_id") string entity.device_id (
        present (codes "entity_id") string entity.entity_id (
          present (codes "value") prost_value_to_json entity.value (
            present (codes "at") time_to_json entity.at (
              field (codes "schema_version") (number (p.from_u32 entity.schema_version))
                no_field)))))

  abbrev pub looks_jsonish : Text → Bool
  looks_jsonish [] = false
  looks_jsonish (c ∷ s) =
      c == b'{'
      || c == b'['
      || c == b'"'
      || c == b't'
      || c == b'f'
      || c == b'n'
      || leb b'0' c && leb c b'9'

  abbrev pub entity_or_null : Option (EntityState Float) → Json Number
  entity_or_null (some entity) = entity_state_to_json entity
  entity_or_null none = null

  abbrev pub from_entity : Text → Json Number
  from_entity bytes = entity_or_null (p.decode bytes)

  unfoldable pub decode_payload : Text → Json Number
  decode_payload [] = null
  decode_payload (b ∷ bytes) =
      if looks_jsonish (b ∷ bytes)
      then (elim (p.from_slice (b ∷ bytes)) [ some v ↦ v | none ↦ from_entity (b ∷ bytes) ])
      else from_entity (b ∷ bytes)
