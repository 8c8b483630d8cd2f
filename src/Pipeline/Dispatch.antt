-- ===== src/Pipeline/Dispatch.antt =====
-- What a detection cycle dispatches.
use iot_athome.Prelude.{
  ℕ, ◌+◌, ◌≡◌, refl, sym, ap, ◌∙◌, ◌⊎◌, inl, inr, List, [], ◌∷◌, ◌++◌, Bool, true, false,
  Bool-cases, Option, some, none, ltb, Result, ok, err, Text, ◌≢◌,
}
use iot_athome.WakeVad.{Floats, AudioFrame, Wake}
use iot_athome.Pipeline.{
  PipelineError, Intent, IntentError, no_match, sink_failed, Outcome, dispatched, Stages, State,
  Source, capture_utterance, wait_for_wake, detect_one_cycle, warn_over, after_dispatch, understand,
  after_stt, recognize, after_capture, after_wake, total_budget,
}

abbrev was_dispatched : Result PipelineError Outcome → Bool
was_dispatched (ok dispatched) = true
was_dispatched _ = false

module _ {fl : Floats} (st : Stages fl) where
  -- A step from `s` that dispatches nothing, and one that dispatches the intent `i`.
  pub record Kept (s : State st) (after : State st × Result PipelineError Outcome) : Type 0 where
    pub not_dispatched : after.1 ≢ ok dispatched
    pub same_sent : after.0.sent ≡ s.sent

  pub record Sent (i : Intent fl) (s : State st) (after : State st × Result PipelineError Outcome)
      : Type 0 where
    pub is_dispatched : after.1 ≡ ok dispatched
    pub now_sent : after.0.sent ≡ s.sent ++ i ∷ []

  -- The stages that lead to the intent `i`: a wake, a captured utterance, its text, and a sink that accepts.
  pub record Reached (s : State st) (i : Intent fl) : Type 0 where
    pub found : Wake fl
    pub frames : List (AudioFrame fl)
    pub text : Text
    pub wakes : (wait_for_wake st s.detector s.source).2 ≡ ok (some found)
    pub captures : (capture_utterance (wait_for_wake st s.detector s.source).1).1 ≡ ok frames
    pub speaks : frames ≢ []
    pub hears : (st.transcribe s.recognizer frames).1 ≡ ok text
    pub means : st.parse text ≡ ok i
    pub accepts : st.dispatch i ≡ ok tt

  kept :
      (s : State st) (after : State st × Result PipelineError Outcome)
      → was_dispatched after.1 ≡ false
      → after.0.sent ≡ s.sent
      → Kept s after
  kept s after h k = record {
    not_dispatched = λ e. cc (sym (ap was_dispatched e) ∙ h);
    same_sent = k;
  }

  warn_over-sent : (total : ℕ) (s : State st) → (warn_over st total s).sent ≡ s.sent
  warn_over-sent total s = elim (Bool-cases (ltb total_budget total)) [
    | inl e ↦ rw e refl
    | inr e ↦ rw e refl
  ]

  after_dispatch-Sent :
      (c n a b d : ℕ) (i : Intent fl) (s : State st) (r : Result IntentError (Unit {0}))
      → Kept s (after_dispatch st c n a b d i s r)
        ⊎ ((r ≡ ok tt) × Sent i s (after_dispatch st c n a b d i s r))
  after_dispatch-Sent c n a b d i s (err e) = inl (kept s _ refl refl)
  after_dispatch-Sent c n a b d i s (ok _) =
      inr (refl, record { is_dispatched = refl; now_sent = warn_over-sent _ _ })

  understand-Sent :
      (c n a b d : ℕ) (s : State st) (r : Result IntentError (Intent fl))
      → Kept s (understand st c n a b d s r)
        ⊎ ((i : Intent fl) × (r ≡ ok i)
            × (st.dispatch i ≡ ok tt)
            × Sent i s (understand st c n a b d s r))
  understand-Sent c n a b d s (ok i) = elim (after_dispatch-Sent c n a b d i s (st.dispatch i)) [
    | inl k ↦ inl k
    | inr (accepted, sent) ↦ inr (i, refl, accepted, sent)
  ]
  understand-Sent c n a b d s (err (no_match raw)) = inl (kept s _ refl (warn_over-sent _ _))
  understand-Sent c n a b d s (err (sink_failed e)) = inl (kept s _ refl refl)

  Understood : State st → (Text → Type 0) → State st × Result PipelineError Outcome → Type 0
  Understood s Heard after =
      Kept s after
      ⊎ ((text : Text) × (i : Intent fl) × Heard text
          × (st.parse text ≡ ok i)
          × (st.dispatch i ≡ ok tt)
          × Sent i s after)

  after_stt-Sent :
      (c n a b : ℕ) (s : State st) (r : st.SttState × Result Text Text)
      → Understood s (λ text. r.1 ≡ ok text) (after_stt st c n a b s r)
  unfolding Understood
  after_stt-Sent c n a b s (next, err e) = inl (kept s _ refl refl)
  after_stt-Sent c n a b s (next, ok text) =
      elim (understand-Sent c (n + 2) a b _ (record s { recognizer = next }) (st.parse text)) [
        | inl k ↦ inl (record { not_dispatched = k.not_dispatched; same_sent = k.same_sent })
        | inr (i, parsed, accepted, sent) ↦ inr (
          text,
          i,
          refl,
          parsed,
          accepted,
          record { is_dispatched = sent.is_dispatched; now_sent = sent.now_sent },
        )
      ]

  recognize-Sent :
      (c n a b : ℕ) (s : State st) (frames : List (AudioFrame fl))
      → Understood s
          (λ text. (frames ≢ []) × ((st.transcribe s.recognizer frames).1 ≡ ok text))
          (recognize st c n a b s frames)
  unfolding Understood
  recognize-Sent c n a b s [] = inl (kept s _ refl refl)
  recognize-Sent c n a b s (f ∷ frames) =
      elim (after_stt-Sent c n a b s (st.transcribe s.recognizer (f ∷ frames))) [
        | inl k ↦ inl k
        | inr (text, i, hears, means, accepts, sent) ↦
            inr (text, i, ((λ e. cc e), hears), means, accepts, sent)
      ]

  after_capture-Sent :
      (c n a : ℕ) (s : State st) (r : Source fl × Result PipelineError (List (AudioFrame fl)))
      → Understood s
          (λ text.
            (frames : List (AudioFrame fl)) × (r.1 ≡ ok frames)
            × (frames ≢ [])
            × ((st.transcribe s.recognizer frames).1 ≡ ok text))
          (after_capture st c n a s r)
  unfolding Understood
  after_capture-Sent c n a s (rest, err e) = inl (kept s _ refl refl)
  after_capture-Sent c n a s (rest, ok frames) =
      elim (recognize-Sent c (n + 2) a _ (record s { source = rest }) frames) [
        | inl k ↦ inl (record { not_dispatched = k.not_dispatched; same_sent = k.same_sent })
        | inr (text, i, (speaks, hears), means, accepts, sent) ↦ inr (
          text,
          i,
          (frames, refl, speaks, hears),
          means,
          accepts,
          record { is_dispatched = sent.is_dispatched; now_sent = sent.now_sent },
        )
      ]

  after_wake-Sent :
      (c n : ℕ) (s : State st)
      (r : st.WakeState × Source fl × Result PipelineError (Option (Wake fl)))
      → Understood s
          (λ text.
            (found : Wake fl) × (frames : List (AudioFrame fl)) × (r.2 ≡ ok (some found))
            × ((capture_utterance r.1).1 ≡ ok frames)
            × (frames ≢ [])
            × ((st.transcribe s.recognizer frames).1 ≡ ok text))
          (after_wake st c n s r)
  unfolding Understood
  after_wake-Sent c n s (w, rest, err e) = inl (kept s _ refl refl)
  after_wake-Sent c n s (w, rest, ok none) = inl (kept s _ refl refl)
  after_wake-Sent c n s (w, rest, ok (some found)) =
      elim (after_capture-Sent c (n + 2) _ (record s { detector = w; source = rest })
        (capture_utterance rest)) [
          | inl k ↦ inl (record { not_dispatched = k.not_dispatched; same_sent = k.same_sent })
          | inr (text, i, (frames, captures, speaks, hears), means, accepts, sent) ↦ inr (
            text,
            i,
            (found, frames, refl, captures, speaks, hears),
            means,
            accepts,
            record { is_dispatched = sent.is_dispatched; now_sent = sent.now_sent },
          )
        ]

  -- A detection cycle either dispatches nothing, or it says so and hands the sink exactly one intent: the
  -- one that the parser reads in the transcription of the utterance, not empty, captured after the wake
  -- word, and the sink accepts it.
  pub cycle_sends :
      (c : ℕ) (s : State st)
      → Kept s (detect_one_cycle st c s)
        ⊎ ((i : Intent fl) × Reached s i × Sent i s (detect_one_cycle st c s))
  unfolding detect_one_cycle Understood
  cycle_sends c s = elim (after_wake-Sent c s.readings s (wait_for_wake st s.detector s.source)) [
    | inl k ↦ inl k
    | inr (said, i, (w, fs, woke, captured, spoken, heard), meant, accepted, sent) ↦ inr (
      i,
      record {
        found = w;
        frames = fs;
        text = said;
        wakes = woke;
        captures = captured;
        speaks = spoken;
        hears = heard;
        means = meant;
        accepts = accepted;
      },
      sent,
    )
  ]
