-- ===== src/Lib.antt =====
-- IoT-AtHome, the core of the home-automation platform (crates/ and plugins/ of the repository):
-- plugins run in a host that checks every call against the manifest's allow-lists, share one MQTT
-- broker connection, and are restarted or dead-lettered by a supervisor; they publish on NATS
-- subjects that one module builds.
--
-- The parts, and the modules that model them:
--
--   Prelude       shared: tests on numbers, lists, text as bytes, dictionaries, results
--   Subjects      crates/iot-proto-core/src/subjects.rs, the seven subject builders (Shape: what
--                 they accept and build)
--   Capabilities  crates/iot-plugin-host/src/capabilities.rs, the checks of bus, MQTT and URLs
--                 (Topics, Covers, Bus, Outbound: one for each kind of check)
--   Mqtt          crates/iot-plugin-host/src/mqtt.rs, MqttRouter and the counts of MqttBroker, with
--                 `mqtt::Host::subscribe` of component.rs and the exit clean-up of supervisor.rs
--                 (Router, Refcount, Tally, Steps, Interleavings, Leaks)
--   Supervisor    crates/iot-plugin-host/src/supervisor.rs, CrashTracker, backoff and the supervise
--                 loop (Backoff, Window, Loop)
--   HostCalls     crates/iot-plugin-host/src/component.rs, the two publishing calls of a plugin and
--                 the audit entry of a refusal (Mediation)
--   Acl           crates/iot-plugin-host/src/manifest.rs and mqtt_acl.rs, manifests and the broker's
--                 access rules (Plain, Rules)
--   Runtime       crates/iot-plugin-host/src/runtime.rs, the task that serves a plugin's mailbox
--                 (Calls)
--   Audit         crates/iot-audit/src/lib.rs, the hash-chained log: open, append, verify (Lines:
--                 the file, Chain: the three together, Entries and Tamper: what the hashes fix)
--   Bus           crates/iot-bus/src/lib.rs, publish_proto and extract_trace_context, with the names of
--                 crates/iot-proto-core/src/headers.rs (Stamps)
--   Trace         crates/iot-observability/src/traceparent.rs, W3C trace contexts (Ids, Header)
--   Json          the values of serde_json, shared by the modules below
--   Rules         crates/iot-automation/src/rule.rs and expr.rs, rules and conditions (Compile)
--   Payloads      crates/iot-automation/src/engine.rs, decode_payload (Decode)
--   Templates     the same file, render_template (Rounds)
--   Automation    the same file, the engine's on_message (Idempotency, Steps, Messages)
--   Files         std::path and std::fs as the command-line tool uses them: a path is the list of its
--                 components, `..` and links are not resolved (Paths, Runs, Effects, Names)
--   Jwt           crates/iot-bus/src/jwt.rs, the broker's user and account tokens and the credentials
--                 file (Tokens, Lines)
--   Sbom          crates/iot-cli/src/plugin.rs, the scan of a bundle's bill of materials (Gate)
--   Install       the same file, install, uninstall and the signature column of list (Vetting, Content,
--                 Placement, Identity, Posture, Removal, Status, Names)
--   Nats          crates/iot-cli/src/nats.rs and secfile.rs, bootstrap and mint-user (Bootstrap, Tokens)
--   Gateway       crates/iot-gateway/src/auth.rs, the bearer tokens of requests and the cache of the
--                 issuer's keys (Keys, Bearer, Outage)
--   WakeVad       crates/iot-voice/src/wake_vad.rs, the energy detector of the wake word (Firing)
--   Pipeline      crates/iot-voice/src/pipeline.rs, from the microphone to the intent
--                 (Capture, Taken, Cycles, Dispatch), with the data of audio.rs, wake.rs and intent.rs beside it
--   Intents       crates/iot-voice/src/intent.rs, the parser of spoken phrases
--                 (Normal: the normal form, Ends, Grammar: what a phrase asks for, Phrases)
--   Instances     concrete functions for the third-party crates, for the modules of samples
--   Sdr433        plugins/sdr433-adapter/src/translator.rs and state_publisher.rs (Tokens, Values)
--
-- They meet in these places: a plugin's task (Runtime) makes host calls, which the manifest's checks
-- (Capabilities) guard; its crashes feed the tracker (Supervisor), whose clean-up returns the
-- plugin's filters (Mqtt); what an adapter publishes (Sdr433) on a subject (Subjects) a rule reads
-- back (Payloads, Rules) and acts on (Automation), and the firing goes to the log (Audit).
-- A plugin is installed (Install) with the manifest that the host later checks, the broker identity
-- that Nats and Jwt mint from its capabilities, and a bill of materials that Sbom has vetted; the wake
-- detector (WakeVad) and the phrase parser (Intents) are stages of the voice pipeline (Pipeline).
--
-- How the code is read. A `&str` is the list of its UTF-8 bytes, and a numeric type is a native
-- number with its wrap-around or saturation written out. A method on `&mut self` returns the new
-- record. What the environment answers (a rumqttc request, a mailbox, the clock, a file write) is
-- an argument of the step that asks. Crates that the repository only calls (`url`) are records of
-- functions, with laws where a proof needs what they document. Concurrency is a step relation whose
-- steps are the critical sections of the code's locks. Loops are recursion on the list that they
-- walk. Two loops have fuel instead. That of `render_template` is the number of
-- rounds, of which one more than the message has opening braces is enough where the payload brings
-- none in, and no number is enough where it does. `digits`, a number's decimal text, has fuel for
-- twenty digits, which hold every 64-bit number.
-- `Pipeline.run` has fuel for one cycle more than the source has frames, which is enough because each
-- cycle that goes on takes at least one. The type f32 is a record of operations.
--
-- Not modelled: the async runtime, sockets, TLS, logging, wasmtime and the generated bindings; the
-- tables that the command-line tool prints and its Windows branches; the audio and speech back ends;
-- connecting to the bus and its retained messages, the registry, the gateway's handlers and stream,
-- the history store, the zigbee2mqtt adapter and the voice daemon.
mod Prelude
pub mod Jwt
pub mod Files
pub mod Sbom
pub mod Nats
pub mod Install
pub mod Instances
pub mod WakeVad
pub mod Pipeline
pub mod Subjects
pub mod Bus
pub mod Capabilities
pub mod Mqtt
pub mod Supervisor
pub mod Audit
pub mod Trace
pub mod Json
pub mod Templates
pub mod Rules
pub mod Payloads
pub mod Automation
pub mod Runtime
pub mod Sdr433
pub mod Gateway
pub mod HostCalls
pub mod Intents
pub mod Acl
