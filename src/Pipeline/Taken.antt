-- ===== src/Pipeline/Taken.antt =====
-- What a detection cycle takes from the source of audio.
use iot_athome.Prelude.{
  ℕ, ◌+◌, ◌≡◌, ◌≤◌, ◌<◌, refl, ap, inl, inr, List, [], ◌∷◌, ◌++◌, length, false, Bool-cases, Option,
  some, none, ltb, leb, Result, ok, err, arith, Text,
}
use iot_athome.WakeVad.{Floats, AudioFrame, Wake}
use iot_athome.Pipeline.{
  max_utterance_frames, silence_tail_frames, PipelineError, Intent, IntentError, no_match,
  sink_failed, Outcome, end_of_stream, dispatched, no_intent, is_end, Stages, State, Source,
  next_run, capture, capture_utterance, wait_for_wake, detect_one_cycle, heard, warn_over,
  after_dispatch, understand, after_stt, recognize, after_capture, after_wake, total_budget,
}

ended :
    (r : Result PipelineError Outcome) (o : Outcome)
    → r ≡ ok end_of_stream
    → r ≡ ok o
    → is_end o ≡ false
    → ⊥
ended r end_of_stream h k live = cc
ended r dispatched h k live = cc
ended r no_intent h k live = cc

module _ {fl : Floats} where
  capture_shorter :
      (frames : List (AudioFrame fl)) (n : ℕ) (source : Source fl)
      → length (capture frames n source).0 ≤ length source
  unfolding capture
  capture_shorter frames n [] = omega arith
  capture_shorter frames n (err e ∷ source) =
      elim (Bool-cases (ltb (length frames) max_utterance_frames)) [
        | inl e ↦ rw e (omega arith)
        | inr e ↦ rw e (omega arith)
      ]
  capture_shorter frames n (ok f ∷ source) =
      let rest = capture_shorter (frames ++ f ∷ []) (next_run n f) source in
      elim (Bool-cases (ltb (length frames) max_utterance_frames)) [
        | inr full ↦ rw full (omega arith)
        | inl more ↦ elim (Bool-cases (leb silence_tail_frames (next_run n f))) [
          | inl done ↦ rw (more, done) (omega arith)
          | inr on ↦ rw (more, on) (omega (arith, rest))
        ]
      ]

module _ {fl : Floats} (st : Stages fl) where
  heard_shorter :
      (w : st.WakeState) (rest : Source fl)
      (more : st.WakeState × Source fl × Result PipelineError (Option (Wake fl)))
      (r : Result Text (Option (Wake fl))) (found : Wake fl)
      → (more.2 ≡ ok (some found) → length more.1 ≤ length rest)
      → (heard st w rest more r).2 ≡ ok (some found)
      → length (heard st w rest more r).1 ≤ length rest
  heard_shorter w rest more (err e) found k h = cc
  heard_shorter w rest more (ok (some o)) found k h = omega arith
  heard_shorter w rest more (ok none) found k h = k h

  -- A wake takes at least one frame.
  wait_shorter :
      (w : st.WakeState) (source : Source fl) (found : Wake fl)
      → (wait_for_wake st w source).2 ≡ ok (some found)
      → length (wait_for_wake st w source).1 < length source
  unfolding wait_for_wake
  wait_shorter w [] found h = cc
  wait_shorter w (err e ∷ source) found h = cc
  wait_shorter w (ok f ∷ source) found h = omega (
    arith,
    heard_shorter (st.observe w f).0 source (wait_for_wake st (st.observe w f).0 source)
        (st.observe w f).1 found
        (λ k. omega (arith, wait_shorter (st.observe w f).0 source found k)) h,
  )

  warn_over-source : (total : ℕ) (s : State st) → (warn_over st total s).source ≡ s.source
  warn_over-source total s = elim (Bool-cases (ltb total_budget total)) [
    | inl e ↦ rw e refl
    | inr e ↦ rw e refl
  ]

  after_dispatch-source :
      (c n a b d : ℕ) (i : Intent fl) (s : State st) (r : Result IntentError (Unit {0}))
      → (after_dispatch st c n a b d i s r).0.source ≡ s.source
  after_dispatch-source c n a b d i s (err e) = refl
  after_dispatch-source c n a b d i s (ok _) = warn_over-source _ _

  understand-source :
      (c n a b d : ℕ) (s : State st) (r : Result IntentError (Intent fl))
      → (understand st c n a b d s r).0.source ≡ s.source
  understand-source c n a b d s (ok i) = after_dispatch-source c n a b d i s (st.dispatch i)
  understand-source c n a b d s (err (no_match raw)) = warn_over-source _ _
  understand-source c n a b d s (err (sink_failed e)) = refl

  after_stt-source :
      (c n a b : ℕ) (s : State st) (r : st.SttState × Result Text Text)
      → (after_stt st c n a b s r).0.source ≡ s.source
  after_stt-source c n a b s (next, err e) = refl
  after_stt-source c n a b s (next, ok text) =
      understand-source c (n + 2) a b _ (record s { recognizer = next }) (st.parse text)

  recognize-source :
      (c n a b : ℕ) (s : State st) (frames : List (AudioFrame fl))
      → (recognize st c n a b s frames).0.source ≡ s.source
  recognize-source c n a b s [] = refl
  recognize-source c n a b s (f ∷ frames) =
      after_stt-source c n a b s (st.transcribe s.recognizer (f ∷ frames))

  after_capture-source :
      (c n a : ℕ) (s : State st) (r : Source fl × Result PipelineError (List (AudioFrame fl)))
      → (after_capture st c n a s r).0.source ≡ r.0
  after_capture-source c n a s (rest, err e) = refl
  after_capture-source c n a s (rest, ok frames) =
      recognize-source c (n + 2) a _ (record s { source = rest }) frames

  after_wake-shorter :
      (c n : ℕ) (s : State st)
      (r : st.WakeState × Source fl × Result PipelineError (Option (Wake fl))) (size : ℕ)
      (o : Outcome)
      → ((found : Wake fl) → r.2 ≡ ok (some found) → length r.1 < size)
      → (after_wake st c n s r).1 ≡ ok o
      → is_end o ≡ false
      → length (after_wake st c n s r).0.source < size
  unfolding capture_utterance
  after_wake-shorter c n s (w, rest, err e) size o k h live = cc
  after_wake-shorter c n s (w, rest, ok none) size o k h live = absurd (ended _ o refl h live)
  after_wake-shorter c n s (w, rest, ok (some found)) size o k h live = omega (
    arith,
    ap length (after_capture-source c (n + 2) _ _ (capture_utterance rest)),
    capture_shorter [] 0 rest,
    k found refl,
  )

  pub cycle_shorter :
      (c : ℕ) (s : State st) (o : Outcome)
      → (detect_one_cycle st c s).1 ≡ ok o
      → is_end o ≡ false
      → length (detect_one_cycle st c s).0.source < length s.source
  unfolding detect_one_cycle
  cycle_shorter c s o h live =
      after_wake-shorter c s.readings s (wait_for_wake st s.detector s.source) (length s.source) o
        (λ found. wait_shorter s.detector s.source found) h live

  heard_le :
      (w : st.WakeState) (rest : Source fl)
      (more : st.WakeState × Source fl × Result PipelineError (Option (Wake fl)))
      (r : Result Text (Option (Wake fl)))
      → length more.1 ≤ length rest
      → length (heard st w rest more r).1 ≤ length rest
  heard_le w rest more (err e) k = omega arith
  heard_le w rest more (ok (some o)) k = omega arith
  heard_le w rest more (ok none) k = k

  pub wait_le :
      (w : st.WakeState) (source : Source fl) → length (wait_for_wake st w source).1 ≤ length source
  unfolding wait_for_wake
  wait_le w [] = omega arith
  wait_le w (err e ∷ source) = omega arith
  wait_le w (ok f ∷ source) = omega (
    arith,
    heard_le (st.observe w f).0 source (wait_for_wake st (st.observe w f).0 source)
        (st.observe w f).1 (wait_le (st.observe w f).0 source),
  )

  heard_end :
      (w : st.WakeState) (rest : Source fl)
      (more : st.WakeState × Source fl × Result PipelineError (Option (Wake fl)))
      (r : Result Text (Option (Wake fl)))
      → (more.2 ≡ ok none → more.1 ≡ [])
      → (heard st w rest more r).2 ≡ ok none
      → (heard st w rest more r).1 ≡ []
  heard_end w rest more (err e) k h = cc
  heard_end w rest more (ok (some o)) k h = cc
  heard_end w rest more (ok none) k h = k h

  -- Without a wake and without an error the source has ended.
  pub wait_end :
      (w : st.WakeState) (source : Source fl)
      → (wait_for_wake st w source).2 ≡ ok none
      → (wait_for_wake st w source).1 ≡ []
  unfolding wait_for_wake
  wait_end w [] h = refl
  wait_end w (err e ∷ source) h = cc
  wait_end w (ok f ∷ source) h =
      heard_end (st.observe w f).0 source (wait_for_wake st (st.observe w f).0 source)
        (st.observe w f).1 (wait_end (st.observe w f).0 source) h

  pub after_wake_le :
      (c n : ℕ) (s : State st)
      (r : st.WakeState × Source fl × Result PipelineError (Option (Wake fl)))
      → length (after_wake st c n s r).0.source ≤ length r.1
  unfolding capture_utterance
  after_wake_le c n s (w, rest, err e) = omega arith
  after_wake_le c n s (w, rest, ok none) = omega arith
  after_wake_le c n s (w, rest, ok (some found)) = omega (
    arith,
    ap length (after_capture-source c (n + 2) _ _ (capture_utterance rest)),
    capture_shorter [] 0 rest,
  )

  understand_goes_on :
      (c n a b d : ℕ) (s : State st) (r : Result IntentError (Intent fl))
      → (understand st c n a b d s r).1 ≡ ok end_of_stream
      → ⊥
  understand_goes_on c n a b d s (ok i) h = by_answer (st.dispatch i) h
    where
      by_answer :
          (x : Result IntentError (Unit {0}))
          → (after_dispatch st c n a b d i s x).1 ≡ ok end_of_stream
          → ⊥
      by_answer (err e) h = cc
      by_answer (ok _) h = cc
  understand_goes_on c n a b d s (err (no_match raw)) h = cc
  understand_goes_on c n a b d s (err (sink_failed e)) h = cc

  recognize_goes_on :
      (c n a b : ℕ) (s : State st) (frames : List (AudioFrame fl))
      → (recognize st c n a b s frames).1 ≡ ok end_of_stream
      → ⊥
  recognize_goes_on c n a b s [] h = cc
  recognize_goes_on c n a b s (f ∷ frames) h = by_text (st.transcribe s.recognizer (f ∷ frames)) h
    where
      by_text :
          (x : st.SttState × Result Text Text) → (after_stt st c n a b s x).1 ≡ ok end_of_stream → ⊥
      by_text (next, err e) h = cc
      by_text (next, ok text) h =
          understand_goes_on c (n + 2) a b _ (record s { recognizer = next }) (st.parse text) h

  after_capture_goes_on :
      (c n a : ℕ) (s : State st) (r : Source fl × Result PipelineError (List (AudioFrame fl)))
      → (after_capture st c n a s r).1 ≡ ok end_of_stream
      → ⊥
  after_capture_goes_on c n a s (rest, err e) h = cc
  after_capture_goes_on c n a s (rest, ok frames) h =
      recognize_goes_on c (n + 2) a _ (record s { source = rest }) frames h

  pub after_wake_end :
      (c n : ℕ) (s : State st)
      (r : st.WakeState × Source fl × Result PipelineError (Option (Wake fl)))
      → (r.2 ≡ ok none → r.1 ≡ [])
      → (after_wake st c n s r).1 ≡ ok end_of_stream
      → (after_wake st c n s r).0.source ≡ []
  after_wake_end c n s (w, rest, err e) k h = cc
  after_wake_end c n s (w, rest, ok none) k h = k refl
  after_wake_end c n s (w, rest, ok (some found)) k h = absurd (
      after_capture_goes_on c (n + 2) _ (record s { detector = w; source = rest })
        (capture_utterance rest) h)
