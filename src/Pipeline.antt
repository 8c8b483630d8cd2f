-- ===== src/Pipeline.antt =====
-- crates/iot-voice/src/pipeline.rs: from the microphone to the intent. The source of audio is the finite
-- list of what `next_frame` delivers, after which it has ended; the wake detector and the recognizer are
-- state and a step, the parser a function. Instants are the readings of a clock, in milliseconds.
pub mod Capture
pub mod Cycles
pub mod Taken
pub mod Dispatch
mod Samples
use iot_athome.Prelude.{
  ℕ, suc, zero, ◌+◌, ◌-◌, List, [], ◌∷◌, ◌++◌, length, Bool, true, false, Option, some, none, Text,
  codes, ltb, leb, ◌==◌, is_empty, if◌then◌else◌, Result, ok, err,
}
use iot_athome.WakeVad.{Floats, AudioFrame, Wake}

abbrev pub max_utterance_frames : ℕ
max_utterance_frames = 250

abbrev pub silence_tail_frames : ℕ
silence_tail_frames = 12

pub record Intent (fl : Floats) : Type 0 where
  pub domain : Text
  pub verb : Text
  -- the target of the arguments, none for JSON's null
  pub target : Option Text
  pub raw : Text
  pub confidence : fl.F

pub data IntentError : Type 0 where
  no_match sink_failed : Text → IntentError

pub data PipelineError : Type 0 where
  audio wake stt : Text → PipelineError
  intent : IntentError → PipelineError

pub record Metrics : Type 0 where
  pub wake_latency : Option ℕ
  pub endpoint_latency : Option ℕ
  pub stt_latency : Option ℕ
  pub nlu_latency : Option ℕ

abbrev pub or_zero : Option ℕ → ℕ
or_zero none = 0
or_zero (some n) = n

unfoldable pub total_latency : Metrics → ℕ
total_latency m =
    or_zero m.wake_latency
    + or_zero m.endpoint_latency
    + or_zero m.stt_latency
    + or_zero m.nlu_latency

abbrev pub total_budget : ℕ
total_budget = 800

-- The stages: the detector's and the recognizer's states, what they do, and the clock's n-th reading.
pub record Stages (fl : Floats) : Type 1 where
  pub WakeState : Type 0
  pub SttState : Type 0
  pub observe : WakeState → AudioFrame fl → WakeState × Result Text (Option (Wake fl))
  pub transcribe : SttState → List (AudioFrame fl) → SttState × Result Text Text
  pub parse : Text → Result IntentError (Intent fl)
  pub dispatch : Intent fl → Result IntentError (Unit {0})
  pub clock : ℕ → ℕ

pub data Outcome : Type 0 where
  end_of_stream dispatched no_intent : Outcome

abbrev pub is_end : Outcome → Bool
is_end end_of_stream = true
is_end _ = false

abbrev fold_peak : (fl : Floats) → fl.F → List fl.F → fl.F
fold_peak fl acc [] = acc
fold_peak fl acc (s ∷ ss) = fold_peak fl (fl.max_of acc (fl.abs s)) ss

module _ {fl : Floats} where
  -- AudioFrame::peak
  unfoldable pub peak : AudioFrame fl → fl.F
  peak f = fold_peak fl (fl.lit (codes "0.0")) f.samples

  unfoldable pub is_silent : AudioFrame fl → Bool
  is_silent f = fl.lt (peak f) (fl.lit (codes "0.05"))

  abbrev pub next_run : ℕ → AudioFrame fl → ℕ
  next_run run f = if is_silent f then run + 1 else 0

-- Vec::truncate
unfoldable pub truncate {ℓ} : {A : Type ℓ} → ℕ → List A → List A
truncate zero xs = []
truncate (suc n) [] = []
truncate (suc n) (x ∷ xs) = x ∷ truncate n xs

-- What `next_frame` delivers, one result at each call.
abbrev pub Source : Floats → Type 0
Source fl = List (Result Text (AudioFrame fl))

module _ {fl : Floats} where
  abbrev pub trimmed : List (AudioFrame fl) → ℕ → List (AudioFrame fl)
  trimmed frames run = truncate (length frames - run) frames

  -- The loop of capture_utterance, with the frames so far and the run of silence.
  unfoldable pub capture :
      List (AudioFrame fl) → ℕ → Source fl → Source fl × Result PipelineError (List (AudioFrame fl))
  capture frames run [] = ([], ok frames)
  capture frames run (err e ∷ rest) =
      if ltb (length frames) max_utterance_frames
      then (rest, err (audio e))
      else (err e ∷ rest, ok frames)
  capture frames run (ok f ∷ rest) =
      let more = capture (frames ++ f ∷ []) (next_run run f) rest in
      if ltb (length frames) max_utterance_frames
      then (if leb silence_tail_frames (next_run run f)
          then (rest, ok (trimmed (frames ++ f ∷ []) (next_run run f)))
          else more)
      else (ok f ∷ rest, ok frames)

  unfoldable pub capture_utterance :
      Source fl → Source fl × Result PipelineError (List (AudioFrame fl))
  capture_utterance source = capture [] 0 source

module _ {fl : Floats} (st : Stages fl) where
  -- What the loop does with the detector's answer; `more` is the rest of the loop.
  abbrev pub heard :
      st.WakeState
      → Source fl
      → st.WakeState × Source fl × Result PipelineError (Option (Wake fl))
      → Result Text (Option (Wake fl))
      → st.WakeState × Source fl × Result PipelineError (Option (Wake fl))
  heard w rest more (err e) = (w, rest, err (wake e))
  heard w rest more (ok (some found)) = (w, rest, ok (some found))
  heard w rest more (ok none) = more

  unfoldable pub wait_for_wake :
      st.WakeState → Source fl → st.WakeState × Source fl × Result PipelineError (Option (Wake fl))
  wait_for_wake w [] = (w, [], ok none)
  wait_for_wake w (err e ∷ rest) = (w, rest, err (audio e))
  wait_for_wake w (ok f ∷ rest) =
      let more = wait_for_wake (st.observe w f).0 rest in
      heard (st.observe w f).0 rest more (st.observe w f).1

  pub record State : Type 0 where
    pub source : Source fl
    pub detector : st.WakeState
    pub recognizer : st.SttState
    pub metrics : Metrics
    -- the intents dispatched, the oldest first
    pub sent : List (Intent fl)
    -- the readings of the clock so far
    pub readings : ℕ
    -- the times over the budget that were warned of
    pub warned : List ℕ

  abbrev pub latency : ℕ → ℕ → ℕ
  latency start end = st.clock end - st.clock start

  abbrev pub update_metrics : ℕ → ℕ → Option ℕ → Option ℕ → State → State
  update_metrics wake_time endpoint_time stt_time nlu_time s = record s {
    metrics = record {
      wake_latency = some wake_time;
      endpoint_latency = some endpoint_time;
      stt_latency = stt_time;
      nlu_latency = nlu_time;
    };
  }

  abbrev pub warn_over : ℕ → State → State
  warn_over total s =
      if ltb total_budget total then record s { warned = s.warned ++ total ∷ [] } else s

  -- The end of the fourth stage, for a reading `n` at its start.
  abbrev pub finish : ℕ → ℕ → ℕ → ℕ → ℕ → Outcome → State → State × Result PipelineError Outcome
  finish cycle_start n wake_time endpoint_time stt_time outcome s = (
    warn_over (st.clock (n + 2) - cycle_start) (
        update_metrics wake_time endpoint_time (some stt_time) (some (latency n (n + 1)))
          (record s { readings = n + 3 })),
    ok outcome,
  )

  abbrev pub after_dispatch :
      ℕ
      → ℕ
      → ℕ
      → ℕ
      → ℕ
      → Intent fl
      → State
      → Result IntentError (Unit {0})
      → State × Result PipelineError Outcome
  after_dispatch cycle_start n wake_time endpoint_time stt_time i s (err e) =
      (record s { readings = n + 1 }, err (intent e))
  after_dispatch cycle_start n wake_time endpoint_time stt_time i s (ok _) =
      finish cycle_start n wake_time endpoint_time stt_time dispatched
        (record s { sent = s.sent ++ i ∷ [] })

  abbrev pub understand :
      ℕ
      → ℕ
      → ℕ
      → ℕ
      → ℕ
      → State
      → Result IntentError (Intent fl)
      → State × Result PipelineError Outcome
  understand cycle_start n wake_time endpoint_time stt_time s (ok i) =
      after_dispatch cycle_start n wake_time endpoint_time stt_time i s (st.dispatch i)
  understand cycle_start n wake_time endpoint_time stt_time s (err (no_match raw)) =
      finish cycle_start n wake_time endpoint_time stt_time no_intent s
  understand cycle_start n wake_time endpoint_time stt_time s (err (sink_failed e)) =
      (record s { readings = n + 1 }, err (intent (sink_failed e)))

  abbrev pub after_stt :
      ℕ → ℕ → ℕ → ℕ → State → st.SttState × Result Text Text → State × Result PipelineError Outcome
  after_stt cycle_start n wake_time endpoint_time s (next, err e) =
      (record s { recognizer = next; readings = n + 1 }, err (stt e))
  after_stt cycle_start n wake_time endpoint_time s (next, ok text) =
      understand cycle_start (n + 2) wake_time endpoint_time (latency n (n + 1))
        (record s { recognizer = next }) (st.parse text)

  -- Stage 3, for the captured frames and the reading `n` at its start.
  abbrev pub recognize :
      ℕ → ℕ → ℕ → ℕ → State → List (AudioFrame fl) → State × Result PipelineError Outcome
  recognize cycle_start n wake_time endpoint_time s [] = (
    update_metrics wake_time endpoint_time none none (record s { readings = n + 1 }),
    ok no_intent,
  )
  recognize cycle_start n wake_time endpoint_time s (f ∷ frames) =
      after_stt cycle_start n wake_time endpoint_time s (st.transcribe s.recognizer (f ∷ frames))

  abbrev pub after_capture :
      ℕ
      → ℕ
      → ℕ
      → State
      → Source fl × Result PipelineError (List (AudioFrame fl))
      → State × Result PipelineError Outcome
  after_capture cycle_start n wake_time s (rest, err e) =
      (record s { source = rest; readings = n + 1 }, err e)
  after_capture cycle_start n wake_time s (rest, ok frames) =
      recognize cycle_start (n + 2) wake_time (latency n (n + 1)) (record s { source = rest })
        frames

  abbrev pub after_wake :
      ℕ
      → ℕ
      → State
      → st.WakeState × Source fl × Result PipelineError (Option (Wake fl))
      → State × Result PipelineError Outcome
  after_wake cycle_start n s (w, rest, err e) =
      (record s { detector = w; source = rest; readings = n + 1 }, err e)
  after_wake cycle_start n s (w, rest, ok none) =
      (record s { detector = w; source = rest; readings = n + 1 }, ok end_of_stream)
  after_wake cycle_start n s (w, rest, ok (some found)) =
      after_capture cycle_start (n + 2) (latency n (n + 1))
        (record s { detector = w; source = rest }) (capture_utterance rest)

  unfoldable pub detect_one_cycle : ℕ → State → State × Result PipelineError Outcome
  detect_one_cycle cycle_start s =
      after_wake cycle_start s.readings s (wait_for_wake s.detector s.source)

  -- The match on a cycle's outcome; `more` is the rest of the loop.
  abbrev pub resumed :
      State
      → Option (State × Result PipelineError (Unit {0}))
      → Result PipelineError Outcome
      → Option (State × Result PipelineError (Unit {0}))
  resumed s more (err e) = some (s, err e)
  resumed s more (ok end_of_stream) = some (s, ok tt)
  resumed s more (ok dispatched) = more
  resumed s more (ok no_intent) = more

  -- The loop of run; none is fuel that ran out.
  unfoldable pub cycles : ℕ → ℕ → State → Option (State × Result PipelineError (Unit {0}))
  cycles zero cycle_start s = none
  cycles (suc fuel) cycle_start s =
      let (next, result) = detect_one_cycle cycle_start s in
      let more = cycles fuel cycle_start next in resumed next more result

  -- One reading of the clock, then a cycle for each frame at most and one more.
  unfoldable pub run : State → Option (State × Result PipelineError (Unit {0}))
  run s =
      cycles (length s.source + 1) (st.clock s.readings) (record s { readings = s.readings + 1 })
