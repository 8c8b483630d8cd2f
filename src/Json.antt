-- ===== src/Json.antt =====
-- serde_json's values, with the number type as a parameter: `Value::get` by a key, and the values
-- that `google.protobuf.Value` carries on the bus.
use iot_athome.Prelude.{Bool, Option, some, none, List, [], ◌∷◌, Text, text_eq, if◌then◌else◌}

mutual
  pub data Json (N : Type 0) : Type 0 where
    null : Json N
    bool : Bool → Json N
    number : N → Json N
    string : Text → Json N
    array : Items N → Json N
    object : Fields N → Json N

  pub data Items (N : Type 0) : Type 0 where
    nil : Items N
    item : Json N → Items N → Items N

  pub data Fields (N : Type 0) : Type 0 where
    no_field : Fields N
    field : Text → Json N → Fields N → Fields N

module _ {N : Type 0} where
  -- Map::get
  unfoldable pub get_field : Text → Fields N → Option (Json N)
  get_field k no_field = none
  get_field k (field j v fs) = if text_eq j k then some v else get_field k fs

  -- Value::get with a string: only an object has fields.
  abbrev pub get : Text → Json N → Option (Json N)
  get k (object fs) = get_field k fs
  get k v = none

  -- The walk along the segments of a path.
  unfoldable pub follow : List Text → Json N → Option (Json N)
  follow [] v = some v
  follow (s ∷ segs) v = elim (get s v) [ none ↦ none | some w ↦ follow segs w ]
