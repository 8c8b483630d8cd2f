-- ===== src/Trace.antt =====
-- crates/iot-observability/src/traceparent.rs: W3C trace contexts and the header that carries them.
-- An array of bytes is the list of its bytes; what the random generator gives is an argument.
pub mod Ids
pub mod Header
mod Samples
use iot_athome.Prelude.{
  ℕ, zero, suc, ◌+◌, ◌-◌, ◌*◌, ◌%◌, ◌≡◌, ◌<◌, List, [], ◌∷◌, ◌++◌, All, Bool, true, false, not,
  ◌&&◌, Option, some, none, Text, codes, text_eq, split, trim, length, leb, ◌==◌, if◌then◌else◌,
  Result, ok, err, ◌>>=◌, hex_encode,
}

pub record TraceContext : Type 0 where
  pub trace_id : List ℕ
  pub span_id : List ℕ
  pub flags : ℕ

pub data TraceparentError : Type 0 where
  wrong_segment_count : ℕ → TraceparentError
  unsupported_version : Text → TraceparentError
  bad_trace_id bad_span_id bad_flags : TraceparentError

abbrev flags_sampled : ℕ
flags_sampled = 1

-- [0; n]
abbrev pub zeros : ℕ → List ℕ
zeros zero = []
zeros (suc n) = 0 ∷ zeros n

-- id[0] = 1
abbrev pub set_first : List ℕ → List ℕ
set_first [] = []
set_first (b ∷ bytes) = 1 ∷ bytes

-- What an id becomes after `fill_random` has put `random` into it.
abbrev pub fresh_id : ℕ → List ℕ → List ℕ
fresh_id n random = if text_eq random (zeros n) then set_first random else random

-- `trace_bytes` and `span_bytes` are the 16 and the 8 random bytes.
unfoldable pub new_root : List ℕ → List ℕ → TraceContext
new_root trace_bytes span_bytes = record {
  trace_id = fresh_id 16 trace_bytes;
  span_id = fresh_id 8 span_bytes;
  flags = flags_sampled;
}

unfoldable pub child_of : TraceContext → List ℕ → TraceContext
child_of parent span_bytes = record {
  trace_id = parent.trace_id;
  span_id = fresh_id 8 span_bytes;
  flags = parent.flags;
}

unfoldable pub to_header : TraceContext → Text
to_header t =
    codes "00-"
    ++ (hex_encode t.trace_id ++ b'-' ∷ (hex_encode t.span_id ++ b'-' ∷ hex_encode (t.flags ∷ [])))

unfoldable pub decode_nib : ℕ → Option ℕ
decode_nib b =
    if leb b'0' b && leb b b'9'
    then some (b - b'0')
    else if leb b'a' b && leb b b'f'
    then some (b - b'a' + 10)
    else none

abbrev pub byte_of : Option ℕ → Option ℕ → Option (List ℕ) → Option (List ℕ)
byte_of (some hi) (some lo) (some out) = some ((hi * 16 % 256 + lo) ∷ out)
byte_of hi lo out = none

-- The loop over `src`, two characters at a time.
unfoldable pub decode_pairs : Text → Option (List ℕ)
decode_pairs [] = some []
decode_pairs (c ∷ []) = none
decode_pairs (c ∷ d ∷ s) = byte_of (decode_nib c) (decode_nib d) (decode_pairs s)

unfoldable pub hex_decode_fixed : ℕ → Text → Option (List ℕ)
hex_decode_fixed n src = if not (length src == n * 2) then none else decode_pairs src

abbrev pub ok_or {ℓ κ} : {A : Type ℓ} {E : Type κ} → E → Option A → Result E A
ok_or e none = err e
ok_or e (some a) = ok a

-- An id of `n` bytes, with the check that it is not zero.
unfoldable pub parse_id : ℕ → TraceparentError → Text → Result TraceparentError (List ℕ)
parse_id n bad s = do
  id ← ok_or bad (hex_decode_fixed n s)
  if text_eq id (zeros n) then err bad else ok id

abbrev pub first_byte : List ℕ → ℕ
first_byte [] = 0
first_byte (b ∷ bytes) = b

-- `parse` once the header is split.
unfoldable pub parse_segments : List Text → Result TraceparentError TraceContext
parse_segments (version ∷ trace ∷ span ∷ flags ∷ []) =
    if not (text_eq version (codes "00")) then err (unsupported_version version) else (do
      trace_id ← parse_id 16 bad_trace_id trace
      span_id ← parse_id 8 bad_span_id span
      flags_bytes ← ok_or bad_flags (hex_decode_fixed 1 flags)
      ok (record { trace_id = trace_id; span_id = span_id; flags = first_byte flags_bytes }))
parse_segments segs = err (wrong_segment_count (length segs))

unfoldable pub parse : Text → Result TraceparentError TraceContext
parse header = parse_segments (split b'-' (trim header))
