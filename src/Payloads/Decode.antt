-- ===== src/Payloads/Decode.antt =====
-- Which bytes `decode_payload` reads as JSON.
use iot_athome.Prelude.{ℕ, ◌≡◌, ◌⊎◌, inl, inr, ◌∷◌, true, none, Text, is_space, arith}
use iot_athome.Json.{null}
use iot_athome.Payloads.{Parsers, decode_payload}

-- A message that starts with a minus sign or white space is never read as JSON, whatever the JSON
-- parser would make of it: if it is no EntityState, the rule's condition sees null.
pub decode_payload_narrow :
    {N : Type 0} (p : Parsers N) (c : ℕ) (s : Text)
    → (c ≡ b'-') ⊎ (is_space c ≡ true)
    → p.decode (c ∷ s) ≡ none
    → decode_payload p (c ∷ s) ≡ null
unfolding decode_payload
decode_payload_narrow p c s (inl minus) h = ground (arith, minus, h)
decode_payload_narrow p c s (inr space) h = ground (arith, space, h)
