-- ===== src/Bus.antt =====
-- crates/iot-bus/src/lib.rs: the headers of what is published, and the trace context of what is received.
-- The NATS client is the list of the messages that it took and its answer; its header map is a parameter.
pub mod Stamps
mod Samples
use iot_athome.Prelude.{
  ℕ, ◌≡◌, List, [], ◌∷◌, ◌++◌, Option, some, none, Text, codes, text_eq, if◌then◌else◌, Result, ok,
  err,
}
use iot_athome.Payloads.{digits}
use iot_athome.Trace.{TraceContext, TraceparentError, to_header, parse}

abbrev pub traceparent : Text
traceparent = codes "traceparent"

abbrev pub iot_schema_version : Text
iot_schema_version = codes "iot-schema-version"

abbrev pub iot_type : Text
iot_type = codes "iot-type"

abbrev pub iot_publisher : Text
iot_publisher = codes "iot-publisher"

abbrev pub content_type : Text
content_type = codes "content-type"

abbrev pub content_type_protobuf : Text
content_type_protobuf = codes "application/x-protobuf"

abbrev pub device_schema_version : ℕ
device_schema_version = 1

-- async_nats' HeaderMap and its values; `utf8` is str::from_utf8 of a value's bytes.
pub record Headers : Type 1 where
  pub Map : Type 0
  pub Value : Type 0
  pub new : Map
  pub get : Text → Map → Option Value
  pub insert : Text → Text → Map → Map
  pub of_text : Text → Value
  pub utf8 : Value → Option Text

-- An insertion replaces what the name had and leaves the other names alone; a value keeps its text.
pub record HeadersLaws (hs : Headers) : Type 0 where
  pub get_insert :
      (k j v : Text) (m : hs.Map)
      → hs.get k (hs.insert j v m) ≡ (if text_eq j k then some (hs.of_text v) else hs.get k m)
  pub get_new : (k : Text) → hs.get k hs.new ≡ none
  pub utf8_of_text : (v : Text) → hs.utf8 (hs.of_text v) ≡ some v

pub data BusError : Type 0 where
  connect publish missing_certs creds : Text → BusError

module _ (hs : Headers) where
  pub record Message : Type 0 where
    pub subject : Text
    pub headers : Option hs.Map
    pub payload : List ℕ

  pub record Bus : Type 0 where
    pub publisher : Text
    -- what the client has taken, the oldest first
    pub taken : List Message

  -- unwrap_or_default
  abbrev pub or_new : Option hs.Map → hs.Map
  or_new none = hs.new
  or_new (some m) = m

  abbrev pub stamp_trace : Option hs.Value → Option TraceContext → hs.Map → hs.Map
  stamp_trace (some v) current m = m
  stamp_trace none none m = m
  stamp_trace none (some t) m = hs.insert traceparent (to_header t) m

  -- The four headers that every message gets.
  unfoldable pub stamp : Text → Text → hs.Map → hs.Map
  stamp publisher kind m = hs.insert content_type content_type_protobuf (
      hs.insert iot_type kind (
        hs.insert iot_schema_version (digits 20 device_schema_version [])
          (hs.insert iot_publisher publisher m)))

  unfoldable pub headers_for : Text → Text → Option TraceContext → Option hs.Map → hs.Map
  headers_for publisher kind current extra =
      let m = stamp publisher kind (or_new extra) in stamp_trace (hs.get traceparent m) current m

  abbrev pub taken_by : Bus → Message → Result Text (Unit {0}) → Bus × Result BusError (Unit {0})
  taken_by b m (err e) = (b, err (publish e))
  taken_by b m (ok _) = (record b { taken = b.taken ++ m ∷ [] }, ok tt)

  -- `current` is the task's trace context and `answer` the client's.
  unfoldable pub publish_proto :
      Option TraceContext
      → Result Text (Unit {0})
      → Text
      → Text
      → List ℕ
      → Option hs.Map
      → Bus
      → Bus × Result BusError (Unit {0})
  publish_proto current answer subject kind payload extra b =
      taken_by b
        (record {
          subject = subject;
          headers = some (headers_for b.publisher kind current extra);
          payload = payload;
        })
        answer

  abbrev pub parsed_ok : Result TraceparentError TraceContext → Option TraceContext
  parsed_ok (ok t) = some t
  parsed_ok (err e) = none

  abbrev pub parsed_text : Option Text → Option TraceContext
  parsed_text none = none
  parsed_text (some s) = parsed_ok (parse s)

  abbrev pub parsed_value : Option hs.Value → Option TraceContext
  parsed_value none = none
  parsed_value (some v) = parsed_text (hs.utf8 v)

  abbrev pub parsed_headers : Option hs.Map → Option TraceContext
  parsed_headers none = none
  parsed_headers (some m) = parsed_value (hs.get traceparent m)

  unfoldable pub extract_trace_context : Message → Option TraceContext
  extract_trace_context m = parsed_headers m.headers
