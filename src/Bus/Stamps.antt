-- ===== src/Bus/Stamps.antt =====
-- What a receiver reads in the headers of a published message.
use iot_athome.Prelude.{
  ℕ, ◌≡◌, refl, ap, ◌∙◌, List, [], ◌∷◌, ◌++◌, true, false, Option, some, none, Text, text_eq, ok,
}
use iot_athome.Payloads.{digits}
use iot_athome.Trace.{TraceContext, to_header}
use iot_athome.Trace.Header.{IsValid, parse-to_header}
use iot_athome.Bus.{
  traceparent, iot_schema_version, iot_type, iot_publisher, content_type, content_type_protobuf,
  device_schema_version, Headers, HeadersLaws, Message, Bus, or_new, stamp_trace, stamp,
  headers_for, publish_proto, parsed_ok, parsed_text, parsed_value, extract_trace_context,
}

module _ (hs : Headers) (laws : HeadersLaws hs) where
  same :
      (k v : Text) (m : hs.Map)
      → text_eq k k ≡ true
      → hs.get k (hs.insert k v m) ≡ some (hs.of_text v)
  same k v m e = laws.get_insert k k v m ∙ rw e refl

  past : (k j v : Text) (m : hs.Map) → text_eq j k ≡ false → hs.get k (hs.insert j v m) ≡ hs.get k m
  past k j v m e = laws.get_insert k j v m ∙ rw e refl

  -- The values of the four headers in a map.
  pub record Stamped (publisher kind : Text) (m : hs.Map) : Type 0 where
    pub type : hs.get iot_type m ≡ some (hs.of_text kind)
    pub version :
        hs.get iot_schema_version m ≡ some (hs.of_text (digits 20 device_schema_version []))
    pub from : hs.get iot_publisher m ≡ some (hs.of_text publisher)
    pub encoding : hs.get content_type m ≡ some (hs.of_text content_type_protobuf)

  stamp-Stamped :
      (publisher kind : Text) (m : hs.Map) → Stamped publisher kind (stamp hs publisher kind m)
  unfolding stamp text_eq
  stamp-Stamped publisher kind m = record {
    type = past iot_type content_type _ _ refl ∙ same iot_type kind _ refl;
    version =
        past iot_schema_version content_type _ _ refl
        ∙ past iot_schema_version iot_type _ _ refl
        ∙ same iot_schema_version _ _ refl;
    from =
        past iot_publisher content_type _ _ refl
        ∙ past iot_publisher iot_type _ _ refl
        ∙ past iot_publisher iot_schema_version _ _ refl
        ∙ same iot_publisher publisher _ refl;
    encoding = same content_type _ _ refl;
  }

  stamp-traceparent :
      (publisher kind : Text) (m : hs.Map)
      → hs.get traceparent (stamp hs publisher kind m) ≡ hs.get traceparent m
  unfolding stamp text_eq
  stamp-traceparent publisher kind m =
      past traceparent content_type _ _ refl
      ∙ past traceparent iot_type _ _ refl
      ∙ past traceparent iot_schema_version _ _ refl
      ∙ past traceparent iot_publisher _ _ refl

  stamp_trace-Stamped :
      (publisher kind : Text) (o : Option hs.Value) (current : Option TraceContext) (m : hs.Map)
      → Stamped publisher kind m
      → Stamped publisher kind (stamp_trace hs o current m)
  unfolding text_eq
  stamp_trace-Stamped publisher kind (some v) current m s = s
  stamp_trace-Stamped publisher kind none none m s = s
  stamp_trace-Stamped publisher kind none (some t) m s = record {
    type = past iot_type traceparent _ _ refl ∙ s.type;
    version = past iot_schema_version traceparent _ _ refl ∙ s.version;
    from = past iot_publisher traceparent _ _ refl ∙ s.from;
    encoding = past content_type traceparent _ _ refl ∙ s.encoding;
  }

  -- The trace context that a receiver should read: the caller's header where it gave one, else the task's.
  pub expected : Option hs.Value → Option TraceContext → Option TraceContext
  expected (some v) current = parsed_value hs (some v)
  expected none current = current

  unfoldable pub ValidIf : Option TraceContext → Type 0
  ValidIf none = Unit
  ValidIf (some t) = IsValid t

  trace_read :
      (o : Option hs.Value) (current : Option TraceContext) (m : hs.Map)
      → hs.get traceparent m ≡ o
      → ValidIf current
      → parsed_value hs (hs.get traceparent (stamp_trace hs o current m)) ≡ expected o current
  unfolding expected ValidIf text_eq
  trace_read (some v) current m e valid = ap (parsed_value hs) e
  trace_read none none m e valid = ap (parsed_value hs) e
  trace_read none (some t) m e valid =
      ap (parsed_value hs) (same traceparent (to_header t) m refl)
      ∙ ap (parsed_text hs) (laws.utf8_of_text (to_header t))
      ∙ ap (parsed_ok hs) (parse-to_header t valid)

  -- A message that the client takes has the publisher, the schema version, the type and the content type
  -- in its headers, whatever the caller put there. A receiver extracts from it the trace context of the
  -- caller's traceparent header if the caller gave one, and else exactly the publishing task's; if the
  -- task has none either, the message is sent all the same and no trace context is read from it.
  pub extract-publish_proto :
      (current : Option TraceContext) (subject kind : Text) (payload : List ℕ)
      (extra : Option hs.Map) (b : Bus hs)
      → ValidIf current
      → (m : Message hs) × (stamped : hs.Map) × (publish_proto hs current
            (ok tt)
            subject
            kind
            payload
            extra
            b
          ≡ (record b { taken = b.taken ++ m ∷ [] }, ok tt))
        × (m.subject ≡ subject)
        × (m.payload ≡ payload)
        × (m.headers ≡ some stamped)
        × Stamped b.publisher kind stamped
        × (extract_trace_context hs m ≡ expected (hs.get traceparent (or_new hs extra)) current)
  unfolding publish_proto headers_for extract_trace_context
  extract-publish_proto current subject kind payload extra b valid =
      let m = stamp hs b.publisher kind (or_new hs extra) in
      (
        _,
        _,
        refl,
        refl,
        refl,
        refl,
        stamp_trace-Stamped b.publisher kind (hs.get traceparent m) current m
            (stamp-Stamped b.publisher kind (or_new hs extra)),
        trace_read (hs.get traceparent m) current m refl valid
            ∙ ap (λ o. expected o current) (stamp-traceparent b.publisher kind (or_new hs extra)),
      )
