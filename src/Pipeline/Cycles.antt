-- ===== src/Pipeline/Cycles.antt =====
-- The loop over the detection cycles.
use iot_athome.Pipeline.Taken.{cycle_shorter, wait_end, wait_le, after_wake_le, after_wake_end}
use iot_athome.Pipeline.Dispatch.{cycle_sends}
use iot_athome.Prelude.{
  ◌⊎◌, length-append, ℕ, suc, zero, ◌+◌, ◌≡◌, ◌≤◌, ◌<◌, refl, ap, inl, inr, [], ◌∷◌, length, false,
  Option, some, Result, ok, err, arith,
}
use iot_athome.WakeVad.{Floats}
use iot_athome.Pipeline.{
  PipelineError, Outcome, end_of_stream, dispatched, no_intent, is_end, Stages, State,
  wait_for_wake, detect_one_cycle, cycles, run, resumed,
}

module _ {fl : Floats} (st : Stages fl) where
  -- How the pipeline stops: at the end of the audio with everything read, or with an error; and it has
  -- dispatched no more intents than it has taken frames.
  pub record Stops (s : State st) (x : State st × Result PipelineError (Unit {0})) : Type 0 where
    pub how : ((x.1 ≡ ok tt) × (x.0.source ≡ [])) ⊎ ((e : PipelineError) × (x.1 ≡ err e))
    pub at_most : length x.0.sent + length x.0.source ≤ length s.sent + length s.source

  cycle_le : (c : ℕ) (s : State st) → length (detect_one_cycle st c s).0.source ≤ length s.source
  unfolding detect_one_cycle
  cycle_le c s = omega (
    arith,
    after_wake_le st c s.readings s (wait_for_wake st s.detector s.source),
    wait_le st s.detector s.source,
  )

  -- A cycle that dispatches takes a frame.
  cycle_at_most :
      (c : ℕ) (s : State st)
      → length (detect_one_cycle st c s).0.sent + length (detect_one_cycle st c s).0.source
        ≤ length s.sent + length s.source
  cycle_at_most c s = elim (cycle_sends st c s) [
    | inl k ↦ omega (arith, ap length k.same_sent, cycle_le c s)
    | inr (i, _, k) ↦ omega (
      arith,
      ap length k.now_sent,
      length-append s.sent (i ∷ []),
      cycle_shorter st c s dispatched k.is_dispatched refl,
    )
  ]

  cycle_end :
      (c : ℕ) (s : State st)
      → (detect_one_cycle st c s).1 ≡ ok end_of_stream
      → (detect_one_cycle st c s).0.source ≡ []
  unfolding detect_one_cycle
  cycle_end c s h =
      after_wake_end st c s.readings s (wait_for_wake st s.detector s.source)
        (wait_end st s.detector s.source) h

  -- The loop after one cycle.
  resumed-Stops :
      (s next : State st) (more : Option (State st × Result PipelineError (Unit {0})))
      (r : Result PipelineError Outcome)
      → length next.sent + length next.source ≤ length s.sent + length s.source
      → (r ≡ ok end_of_stream → next.source ≡ [])
      → ((o : Outcome)
          → r ≡ ok o
          → is_end o ≡ false
          → (x : State st × Result PipelineError (Unit {0})) × (more ≡ some x) × Stops next x)
      → (x : State st × Result PipelineError (Unit {0})) × (resumed st next more r ≡ some x)
        × Stops s x
  resumed-Stops s next more (err e) le end k =
      (_, refl, record { how = inr (e, refl); at_most = le })
  resumed-Stops s next more (ok end_of_stream) le end k =
      (_, refl, record { how = inl (refl, end refl); at_most = le })
  resumed-Stops s next more (ok dispatched) le end k =
      let (x, e, stops) = k dispatched refl refl in
      (x, e, record { how = stops.how; at_most = omega (arith, le, stops.at_most) })
  resumed-Stops s next more (ok no_intent) le end k =
      let (x, e, stops) = k no_intent refl refl in
      (x, e, record { how = stops.how; at_most = omega (arith, le, stops.at_most) })

  cycles-Stops :
      (fuel c : ℕ) (s : State st)
      → length s.source < fuel
      → (x : State st × Result PipelineError (Unit {0})) × (cycles st fuel c s ≡ some x) × Stops s x
  unfolding cycles
  cycles-Stops zero c s h = absurd (omega (arith, h))
  cycles-Stops (suc fuel) c s h =
      let next = (detect_one_cycle st c s).0 in
      resumed-Stops s next (cycles st fuel c next) (detect_one_cycle st c s).1 (cycle_at_most c s)
        (cycle_end c s)
        (λ o e live. cycles-Stops fuel c next (omega (arith, h, cycle_shorter st c s o e live)))

  -- On audio of finitely many frames the pipeline stops, whatever the stages answer: cleanly, with all of
  -- the audio read, or with an error. It has then dispatched no more new intents than it has taken
  -- frames from the source.
  pub run-Stops :
      (s : State st)
      → (x : State st × Result PipelineError (Unit {0})) × (run st s ≡ some x) × Stops s x
  unfolding run
  run-Stops s =
      let (x, e, stops) =
        cycles-Stops (length s.source + 1) (st.clock s.readings)
          (record s { readings = s.readings + 1 }) (omega arith) in
      (x, e, record { how = stops.how; at_most = stops.at_most })
