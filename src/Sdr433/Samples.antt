-- ===== src/Sdr433/Samples.antt =====
-- The adapter at concrete envelopes.
use iot_athome.Prelude.{
  ℕ, ◌+◌, ◌≡◌, refl, List, [], ◌∷◌, All, true, some, none, Text, codes, text_eq, all, filter, err,
  ok, if◌then◌else◌,
}
use iot_athome.Json.{Json, number, string, object, no_field, field, get_field, get}
use iot_athome.Subjects
use iot_athome.Subjects.{bad_char, token_char, validate_token}
use iot_athome.Subjects.Shape.{IsToken}
use iot_athome.Payloads.{Parsers, pos, prost_value_to_json, Timestamp, EntityState, decode_payload}
use iot_athome.Sdr433.{
  entity_spec, find_spec, is_known, known_entity_keys, sanitize, format_json_id,
  device_id_from_envelope, json_to_prost, state_subject, publish_all, Publication, publication,
}
use iot_athome.Sdr433.Tokens.{
  device_id_from_envelope-IsToken, state_subject_exact, upper_keys, upper_keys_refused,
}
use iot_athome.Sdr433.Values.{
  doubled, decode_payload-publication, prost_value_to_json-json_to_prost,
}

abbrev envelope : Json ℕ
envelope = object (
    field (codes "model") (string (codes "Acurite-Tower")) (
      field (codes "id") (number 7) (
        field (codes "channel") (string (codes "A")) (
          field (codes "humidity") (number 61)
            (field (codes "mic") (string (codes "CRC")) no_field)))))

abbrev print : ℕ → Text
print n = codes "13245"

tower : device_id_from_envelope print envelope ≡ some (codes "acurite-tower-13245-a")
unfolding device_id_from_envelope get_field text_eq sanitize format_json_id
tower = refl

device_id_from_envelope-IsToken_example : IsToken (codes "acurite-tower-13245-a")
device_id_from_envelope-IsToken_example =
    device_id_from_envelope-IsToken print envelope (codes "acurite-tower-13245-a") tower refl

state_subject_exact_run :
    Subjects.device_state (codes "sdr433") (codes "acurite-tower-13245-a") (codes "humidity") ≡ (
      if all token_char (codes "humidity")
      then ok (state_subject (codes "acurite-tower-13245-a") (codes "humidity"))
      else err (bad_char (codes "humidity")))
state_subject_exact_run =
    state_subject_exact (codes "acurite-tower-13245-a") (codes "humidity")
      device_id_from_envelope-IsToken_example refl

upper_keys_refused_run :
    All
      (λ key.
        (is_known (entity_spec key) ≡ true)
        × (Subjects.device_state (codes "sdr433") (codes "a") key ≡ err (bad_char key)))
      upper_keys
unfolding validate_token all token_char
upper_keys_refused_run = upper_keys_refused (codes "a") refl

-- Doubles are even numbers here.
abbrev parsers : Parsers ℕ
parsers = record {
  Float = ℕ;
  from_f64 = some;
  from_u32 = λ n. n;
  from_slice = λ s. none;
  decode = λ s. none;
}

prost_value_to_json-json_to_prost_run :
    prost_value_to_json parsers (json_to_prost (λ n. some (n + n)) 0 envelope)
    ≡ doubled parsers (λ n. some (n + n)) 0 envelope
prost_value_to_json-json_to_prost_run =
    prost_value_to_json-json_to_prost parsers (λ n. some (n + n)) 0 envelope

abbrev at_zero : Timestamp
at_zero = record { seconds = pos 0; nanos = pos 0 }

-- Messages on the wire: this one's text is its tag alone.
abbrev sent : EntityState ℕ
sent = (publication (λ n. some (n + n)) 0 at_zero (codes "d") (codes "humidity") envelope).state

abbrev wired : Parsers ℕ
wired = record parsers { decode = λ s. some sent }

decode_payload-publication_example :
    (get (codes "value") (decode_payload wired (10 ∷ []))
      ≡ some (doubled wired (λ n. some (n + n)) 0 envelope))
    × (get (codes "device_id") (decode_payload wired (10 ∷ [])) ≡ some (string (codes "d")))
decode_payload-publication_example =
    decode_payload-publication wired (λ n. some (n + n)) 0 (λ e. 10 ∷ []) at_zero (codes "d")
      (codes "humidity") envelope [] refl refl

abbrev subjects : {F : Type 0} → List (Publication F) → List Text
subjects [] = []
subjects (p ∷ ps) = p.subject ∷ subjects ps

published_keys :
    subjects (
      publish_all {N = ℕ} {F = ℕ} some 0
        (λ k. record { seconds = pos 0; nanos = pos 0 })
        (codes "d")
        envelope)
    ≡ codes "device.sdr433.d.humidity.state" ∷ []
unfolding publish_all known_entity_keys entity_spec find_spec text_eq filter get_field state_subject
    json_to_prost
published_keys = refl
