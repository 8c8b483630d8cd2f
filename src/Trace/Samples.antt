-- ===== src/Trace/Samples.antt =====
-- Trace contexts at concrete headers.
use iot_athome.Prelude.{
  ◌≡◌, refl, ◌∷◌, ◌++◌, Text, codes, text_eq, split, trim, trim_end, trim_start, ok, err, arith,
}
use iot_athome.Trace.{
  TraceContext, wrong_segment_count, bad_trace_id, new_root, child_of, to_header, zeros, parse,
  parse_segments, parse_id, hex_decode_fixed, decode_pairs, decode_nib,
}
use iot_athome.Trace.Header.{IsValid, parse-to_header, to_header-parse, new-IsValid}

abbrev context : TraceContext
context = record { trace_id = 171 ∷ zeros 15; span_id = 1 ∷ zeros 7; flags = 1 }

abbrev header : Text
header = codes "00-ab000000000000000000000000000000-0100000000000000-01"

context-IsValid : IsValid context
unfolding text_eq
context-IsValid = record {
  trace = record { size = refl; bytes = ground arith; nonzero = refl };
  span = record { size = refl; bytes = ground arith; nonzero = refl };
  flags = omega arith;
}

parse-to_header_example : parse (to_header context) ≡ ok context
parse-to_header_example = parse-to_header context context-IsValid

parse_header : parse (codes " " ++ header) ≡ ok context
unfolding parse parse_segments parse_id hex_decode_fixed decode_pairs decode_nib split trim trim_end
    trim_start text_eq
parse_header = refl

refused_headers :
    (parse (codes "00-ab-01") ≡ err (wrong_segment_count 3))
    × (parse (codes "00-00000000000000000000000000000000-0100000000000000-01") ≡ err bad_trace_id)
    × (parse (codes "00-AB000000000000000000000000000000-0100000000000000-01") ≡ err bad_trace_id)
unfolding parse parse_segments parse_id hex_decode_fixed decode_pairs decode_nib split trim trim_end
    trim_start text_eq
refused_headers = (refl, refl, refl)

to_header-parse_run : (to_header context ≡ trim (codes " " ++ header)) × IsValid context
to_header-parse_run = to_header-parse (codes " " ++ header) context parse_header

new-IsValid_run :
    IsValid (new_root (zeros 16) (zeros 8))
    × ((t : TraceContext)
        → IsValid t
        → IsValid (child_of t (zeros 8))
          × ((child_of t (zeros 8)).trace_id ≡ t.trace_id)
          × ((child_of t (zeros 8)).flags ≡ t.flags))
new-IsValid_run = new-IsValid (zeros 16) (zeros 8) refl refl (ground arith) (ground arith)
