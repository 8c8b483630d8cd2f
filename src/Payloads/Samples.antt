-- ===== src/Payloads/Samples.antt =====
-- A payload that JSON allows and the engine does not read.
use iot_athome.Prelude.{ℕ, ◌≡◌, refl, inl, none, some, codes}
use iot_athome.Json.{null, number}
use iot_athome.Payloads.{Parsers, decode_payload}
use iot_athome.Payloads.Decode.{decode_payload_narrow}

-- Parsers that read every text as the number 5, and nothing as an EntityState.
abbrev fives : Parsers ℕ
fives = record {
  Float = ℕ;
  from_f64 = some;
  from_u32 = λ n. n;
  from_slice = λ s. some (number 5);
  decode = λ s. none;
}

decode_payload_narrow_run : decode_payload fives (codes "-5") ≡ null
decode_payload_narrow_run = decode_payload_narrow fives b'-' (codes "5") (inl refl) refl
