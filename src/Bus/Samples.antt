-- ===== src/Bus/Samples.antt =====
-- A header map that is a dictionary, with a task's trace context.
use iot_athome.Prelude.{
  ◌≡◌, refl, [], ◌∷◌, ◌++◌, Option, some, Text, codes, text_eq, Dict, lookup, insert, lookup-insert,
  ok, arith,
}
use iot_athome.Trace.{TraceContext, zeros}
use iot_athome.Bus.{
  traceparent, Headers, HeadersLaws, Message, Bus, or_new, publish_proto, extract_trace_context,
}
use iot_athome.Bus.Stamps.{Stamped, expected, ValidIf, extract-publish_proto}

abbrev dict_headers : Headers
dict_headers = record {
  Map = Dict Text;
  Value = Text;
  new = [];
  get = lookup;
  insert = insert;
  of_text = λ v. v;
  utf8 = λ v. some v;
}

dict_laws : HeadersLaws dict_headers
dict_laws = record {
  get_insert = λ k j v m. lookup-insert j k v m;
  get_new = λ k. unfold lookup in refl;
  utf8_of_text = λ v. refl;
}

abbrev context : TraceContext
context = record { trace_id = 171 ∷ zeros 15; span_id = 1 ∷ zeros 7; flags = 1 }

context-ValidIf : ValidIf dict_headers dict_laws (some context)
unfolding text_eq ValidIf
context-ValidIf = record {
  trace = record { size = refl; bytes = ground arith; nonzero = refl };
  span = record { size = refl; bytes = ground arith; nonzero = refl };
  flags = omega arith;
}

abbrev bus : Bus dict_headers
bus = record { publisher = codes "plugin"; taken = [] }

abbrev extra : Option (Dict Text)
extra = some ((codes "iot-publisher", codes "someone else") ∷ [])

extract-publish_proto_example :
    (m : Message dict_headers) × (stamped : Dict Text) × (publish_proto dict_headers
        (some context)
        (ok tt)
        (codes "device.p.d.e.state")
        (codes "T")
        (1 ∷ [])
        extra
        bus
      ≡ (record bus { taken = [] ++ m ∷ [] }, ok tt))
    × (m.subject ≡ codes "device.p.d.e.state")
    × (m.payload ≡ 1 ∷ [])
    × (m.headers ≡ some stamped)
    × Stamped dict_headers dict_laws (codes "plugin") (codes "T") stamped
    × (extract_trace_context dict_headers m
        ≡ expected dict_headers dict_laws
            (dict_headers.get traceparent (or_new dict_headers extra))
            (some context))
extract-publish_proto_example =
    extract-publish_proto dict_headers dict_laws (some context) (codes "device.p.d.e.state")
      (codes "T") (1 ∷ []) extra bus context-ValidIf
