-- ===== src/Pipeline/Samples.antt =====
-- A pipeline over whole numbers: a loud enough frame wakes it, and what it hears is one of three texts.
use iot_athome.Prelude.{
  ℕ, ◌+◌, ◌*◌, ◌≡◌, ◌⊎◌, refl, List, [], ◌∷◌, length, Option, some, none, ltb, leb, Result, ok, err,
  codes, text_eq, if◌then◌else◌,
}
use iot_athome.Instances.Loudness.{levels}
use iot_athome.WakeVad.{AudioFrame, Wake}
use iot_athome.Pipeline.{
  Stages, State, Source, Intent, PipelineError, no_match, capture, capture_utterance, peak,
  is_silent, truncate, run, detect_one_cycle, wait_for_wake, dispatched,
}
use iot_athome.Pipeline.Capture.{Captured, capture_utterance-Captured}
use iot_athome.Pipeline.Cycles.{Stops, run-Stops}
use iot_athome.Pipeline.Dispatch.{Kept, Sent, Reached, cycle_sends}

abbrev frame : ℕ → AudioFrame levels
frame n = record { samples = n ∷ []; captured_at_ms = 7 }

abbrev repeat : List ℕ → ℕ → Source levels → Source levels
repeat [] n rest = rest
repeat (x ∷ xs) n rest = ok (frame n) ∷ repeat xs n rest

abbrev twelve : List ℕ
twelve = 1 ∷ 2 ∷ 3 ∷ 4 ∷ 5 ∷ 6 ∷ 7 ∷ 8 ∷ 9 ∷ 10 ∷ 11 ∷ 12 ∷ []

-- Two loud frames, twelve silent ones, and the next wake.
abbrev speech : Source levels
speech = ok (frame 6) ∷ ok (frame 7) ∷ repeat twelve 1 (ok (frame 9) ∷ [])

captured : capture_utterance speech ≡ (ok (frame 9) ∷ [], ok (frame 6 ∷ frame 7 ∷ []))
unfolding capture_utterance capture is_silent peak truncate text_eq
captured = refl

capture_utterance-Captured_example : Captured [] speech (ok (frame 9) ∷ []) (frame 6 ∷ frame 7 ∷ [])
capture_utterance-Captured_example =
    capture_utterance-Captured speech (ok (frame 9) ∷ []) (frame 6 ∷ frame 7 ∷ []) captured

abbrev heard_intent : Intent levels
heard_intent = record {
  domain = codes "lights";
  verb = codes "on";
  target = some (codes "kitchen");
  raw = codes "light";
  confidence = 0;
}

abbrev loud_wake : ℕ → Option (Wake levels)
loud_wake n = if leb 8 n then some (record { confidence = 0; captured_at_ms = 7 }) else none

abbrev loudest : AudioFrame levels → ℕ
loudest f = peak f

abbrev stages : Stages levels
stages = record {
  WakeState = ℕ;
  SttState = ℕ;
  observe = λ seen f. (seen + 1, ok (loud_wake (loudest f)));
  transcribe =
      λ calls fs. (calls + 1, ok (if ltb 1 (length fs) then codes "light" else codes "noise"));
  parse = λ text. if text_eq text (codes "light") then ok heard_intent else err (no_match text);
  dispatch = λ i. ok tt;
  clock = λ n. 100 * n;
}

-- A wake, the speech, and another wake at which the audio ends.
abbrev start : State stages
start = record {
  source = ok (frame 1) ∷ ok (frame 8) ∷ speech;
  detector = 0;
  recognizer = 0;
  metrics = record {
    wake_latency = none;
    endpoint_latency = none;
    stt_latency = none;
    nlu_latency = none;
  };
  sent = [];
  readings = 0;
  warned = [];
}

cycle_dispatches : (detect_one_cycle stages 0 start).1 ≡ ok dispatched
unfolding detect_one_cycle wait_for_wake capture_utterance capture is_silent peak truncate text_eq
cycle_dispatches = refl

cycle_sends_example :
    Kept stages start (detect_one_cycle stages 0 start)
    ⊎ ((i : Intent levels) × Reached stages start i
        × Sent stages i start (detect_one_cycle stages 0 start))
cycle_sends_example = cycle_sends stages 0 start

run-Stops_example :
    (x : State stages × Result PipelineError (Unit {0})) × (run stages start ≡ some x)
    × Stops stages start x
run-Stops_example = run-Stops stages start
