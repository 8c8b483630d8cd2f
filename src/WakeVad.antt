-- ===== src/WakeVad.antt =====
-- crates/iot-voice/src/wake_vad.rs: the wake detector that listens for energy. The floating-point
-- operations are an argument; the counters of 32 bits wrap.
pub mod Firing
mod Samples
use iot_athome.Prelude.{
  ℕ, suc, ◌+◌, ◌-◌, ◌%◌, ◌^◌, List, [], ◌∷◌, ◌++◌, map, length, Bool, Option, some, none, Text,
  codes, ltb, leb, ◌==◌, if◌then◌else◌,
}

-- The type f32 and what the code uses of it.
pub record Floats : Type 1 where
  pub F : Type 0
  -- a literal of the source
  pub lit : Text → F
  pub of_count : ℕ → F
  pub add : F → F → F
  pub sub : F → F → F
  pub mul : F → F → F
  pub div : F → F → F
  pub neg : F → F
  pub abs : F → F
  pub sqrt : F → F
  pub max_of : F → F → F
  pub mul_add : F → F → F → F
  pub clamp : F → F → F → F
  -- a < b, a >= b
  pub lt : F → F → Bool
  pub ge : F → F → Bool

pub record AudioFrame (fl : Floats) : Type 0 where
  pub samples : List fl.F
  pub captured_at_ms : ℕ

pub record Wake (fl : Floats) : Type 0 where
  pub confidence : fl.F
  pub captured_at_ms : ℕ

abbrev pub warmup_frames : ℕ
warmup_frames = 100

abbrev pub sustained_frames : ℕ
sustained_frames = 4

abbrev pub cooldown_frames : ℕ
cooldown_frames = 50

abbrev pub sliding_window : ℕ
sliding_window = 16

pub record Detector (fl : Floats) : Type 0 where
  pub frames_seen : ℕ
  pub noise_floor : fl.F
  pub variance : fl.F
  -- the oldest first
  pub rms_history : List fl.F
  pub over_threshold_run : ℕ
  pub cooldown_remaining : ℕ

-- += 1 on a u32
abbrev pub next_u32 : ℕ → ℕ
next_u32 n = (n + 1) % 2 ^ 32

abbrev pop_front {ℓ} : {A : Type ℓ} → List A → List A
pop_front [] = []
pop_front (x ∷ xs) = xs

module _ (fl : Floats) where
  unfoldable pub new_detector : Detector fl
  new_detector = record {
    frames_seen = 0;
    noise_floor = fl.lit (codes "0.0");
    variance = fl.lit (codes "0.0");
    rms_history = [];
    over_threshold_run = 0;
    cooldown_remaining = 0;
  }

  abbrev k_sigma : fl.F
  k_sigma = fl.lit (codes "2.5")

  unfoldable pub current_threshold : Detector fl → fl.F
  current_threshold d =
      fl.max_of (fl.mul_add k_sigma (fl.sqrt d.variance) d.noise_floor) (fl.lit (codes "0.01"))

  unfoldable pub update_noise_estimate : fl.F → Detector fl → Detector fl
  update_noise_estimate rms d =
      let diff = fl.sub rms d.noise_floor in
      if d.frames_seen == 1
      then record d { noise_floor = rms; variance = fl.lit (codes "0.0") }
      else record d {
        noise_floor = fl.add d.noise_floor (fl.mul (fl.lit (codes "0.02")) diff);
        variance =
            fl.add d.variance
              (fl.mul (fl.lit (codes "0.01")) (fl.mul_add diff diff (fl.neg d.variance)));
      }

  -- iter().map(|s| s * s).sum()
  abbrev sum_squares : fl.F → List fl.F → fl.F
  sum_squares acc [] = acc
  sum_squares acc (s ∷ ss) = sum_squares (fl.add acc (fl.mul s s)) ss

  -- max(1)
  abbrev at_least_one : ℕ → ℕ
  at_least_one n = if ltb n 1 then 1 else n

  unfoldable pub rms_of : AudioFrame fl → fl.F
  rms_of frame = fl.sqrt (
      fl.div (sum_squares (fl.lit (codes "0.0")) frame.samples)
        (fl.of_count (at_least_one (length frame.samples))))

  unfoldable pub push_history : fl.F → List fl.F → List fl.F
  push_history rms history =
      (if leb sliding_window (length history) then pop_front history else history) ++ rms ∷ []

  -- The frame is counted and its energy remembered.
  unfoldable pub noted : fl.F → Detector fl → Detector fl
  noted rms d = record d {
    frames_seen = next_u32 d.frames_seen;
    rms_history = push_history rms d.rms_history;
  }

  -- The branches on the threshold.
  unfoldable pub compared : fl.F → Detector fl → Detector fl
  compared rms d =
      let quiet = update_noise_estimate rms (record d { over_threshold_run = 0 }) in
      if fl.ge rms (current_threshold d)
      then record d { over_threshold_run = next_u32 d.over_threshold_run }
      else quiet

  abbrev wake_at : fl.F → AudioFrame fl → Detector fl → Wake fl
  wake_at rms frame d = record {
    confidence =
        fl.clamp
          (fl.div
            (fl.div (fl.sub rms d.noise_floor)
              (fl.max_of (fl.sqrt d.variance) (fl.lit (codes "EPSILON"))))
            (fl.mul k_sigma (fl.lit (codes "2.0"))))
          (fl.lit (codes "0.0")) (fl.lit (codes "1.0"));
    captured_at_ms = frame.captured_at_ms;
  }

  unfoldable pub fired : fl.F → AudioFrame fl → Detector fl → Detector fl × Option (Wake fl)
  fired rms frame d =
      if leb sustained_frames d.over_threshold_run
      then (
        record d { over_threshold_run = 0; cooldown_remaining = cooldown_frames },
        some (wake_at rms frame d),
      )
      else (d, none)

  unfoldable pub observe : Detector fl → AudioFrame fl → Detector fl × Option (Wake fl)
  observe d0 frame =
      let rms = rms_of frame in
      let d = noted rms d0 in
      if leb d.frames_seen warmup_frames
      then (update_noise_estimate rms d, none)
      else if ltb 0 d.cooldown_remaining
      then (
        update_noise_estimate rms (record d { cooldown_remaining = d.cooldown_remaining - 1 }),
        none,
      )
      else fired rms frame (compared rms d)

  -- The detector over a stream of frames, with what it says of each.
  unfoldable pub observe_all :
      Detector fl → List (AudioFrame fl) → Detector fl × List (Option (Wake fl))
  observe_all d [] = (d, [])
  observe_all d (f ∷ fs) =
      let (next, said) = observe d f in
      let (last, rest) = observe_all next fs in (last, said ∷ rest)
