-- ===== src/WakeVad/Samples.antt =====
-- A detector over whole numbers.
use iot_athome.Prelude.{ℕ, ◌≡◌, refl, [], ◌∷◌, All, some, none, arith}
use iot_athome.WakeVad.{
  AudioFrame, Wake, Detector, new_detector, current_threshold, update_noise_estimate, rms_of,
  push_history, noted, compared, fired, observe, observe_all,
}
use iot_athome.Instances.Loudness.{floats}
use iot_athome.WakeVad.Firing.{fires_apart, starts_quiet, fires_on_fourth}

abbrev frame : ℕ → AudioFrame floats
frame n = record { samples = n ∷ []; captured_at_ms = 7 }

abbrev ready : ℕ → Detector floats
ready run = record {
  frames_seen = 200;
  noise_floor = 5;
  variance = 0;
  rms_history = [];
  over_threshold_run = run;
  cooldown_remaining = 0;
}

abbrev woken : Wake floats
woken = record { confidence = 0; captured_at_ms = 7 }

fires : (observe floats (ready 3) (frame 3)).1 ≡ some woken
unfolding observe noted compared fired update_noise_estimate rms_of current_threshold push_history
fires = refl

fires_apart_example :
    All
      (λ said. said ≡ none)
      (observe_all floats (observe floats (ready 3) (frame 3)).0 (frame 9 ∷ frame 9 ∷ [])).1
fires_apart_example =
    fires_apart floats (ready 3) (frame 3) woken (frame 9 ∷ frame 9 ∷ []) fires (omega arith)

starts_quiet_run :
    All (λ said. said ≡ none) (observe_all floats (new_detector floats) (frame 9 ∷ [])).1
starts_quiet_run = starts_quiet floats (frame 9 ∷ []) (omega arith)

fires_on_fourth_example :
    (w : Wake floats) × ((observe_all floats
        (ready 0)
        (frame 3 ∷ frame 4 ∷ frame 3 ∷ frame 9 ∷ [])).1
      ≡ none ∷ none ∷ none ∷ some w ∷ [])
unfolding rms_of current_threshold
fires_on_fourth_example =
    fires_on_fourth floats (ready 0) (frame 3) (frame 4) (frame 3) (frame 9) (omega arith)
      (omega arith) refl refl (refl, (refl, (refl, (refl, tt))))
