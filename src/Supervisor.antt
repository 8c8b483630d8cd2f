-- ===== src/Supervisor.antt =====
-- crates/iot-plugin-host/src/supervisor.rs: when a crashed plugin is restarted, after what delay, and
-- when it is dead-lettered. A `Duration` and an `Instant` are their nanoseconds; the earliest
-- instant that the platform can represent is 0.
pub mod Backoff
pub mod Window
pub mod Loop
mod Samples
use iot_athome.Prelude.{
  ℕ, zero, suc, ◌+◌, ◌-◌, ◌*◌, ◌%◌, ◌^◌, min, List, [], ◌∷◌, ◌++◌, Bool, true, false, Option, some,
  none, Text, filter, length, if◌then◌else◌, ltb, leb, Result, ok, err,
}
use iot_athome.Mqtt.{MqttHost, plugin_exit}

abbrev pub second : ℕ
second = 1_000_000_000

-- Duration::MAX
abbrev pub duration_max : ℕ
duration_max = (2 ^ 64 - 1) * second + 999_999_999

abbrev pub default_window : ℕ
default_window = 10 * 60 * second

abbrev pub default_max_in_window : ℕ
default_max_in_window = 5

abbrev pub default_backoff_base : ℕ
default_backoff_base = 1 * second

abbrev pub default_backoff_cap : ℕ
default_backoff_cap = 30 * second

pub record CrashRecord : Type 0 where
  pub at : ℕ
  pub reason : Text

pub record CrashTracker : Type 0 where
  pub records : List CrashRecord
  pub window : ℕ
  pub max_in_window : ℕ
  pub backoff_base : ℕ
  pub backoff_cap : ℕ

pub data Decision : Type 0 where
  restart : ℕ → Decision
  dead_letter : ℕ → ℕ → Decision

unfoldable pub new_tracker : ℕ → ℕ → ℕ → ℕ → CrashTracker
new_tracker window max_in_window base cap = record {
  records = [];
  window = window;
  max_in_window = max_in_window;
  backoff_base = base;
  backoff_cap = cap;
}

unfoldable pub default_tracker : CrashTracker
unfolding new_tracker
default_tracker =
    new_tracker default_window default_max_in_window default_backoff_base default_backoff_cap

-- u32::try_from(n).unwrap_or(u32::MAX)
abbrev to_u32 : ℕ → ℕ
to_u32 n = if ltb n (2 ^ 32) then n else 2 ^ 32 - 1

-- 1u32.checked_shl(shift).unwrap_or(u32::MAX)
abbrev one_shl : ℕ → ℕ
one_shl shift = if ltb shift 32 then 2 ^ shift % 2 ^ 32 else 2 ^ 32 - 1

-- Duration::saturating_mul
abbrev saturating_mul : ℕ → ℕ → ℕ
saturating_mul d m = if leb (d * m) duration_max then d * m else duration_max

unfoldable pub backoff : ℕ → ℕ → ℕ → ℕ
backoff count base cap =
    let shift = min (to_u32 (count - 1)) 30 in
    let multiplier = one_shl shift in min (saturating_mul base multiplier) cap

-- now.checked_sub(window).unwrap_or(now)
unfoldable pub cutoff : ℕ → ℕ → ℕ
cutoff now window = if leb window now then now - window else now

unfoldable pub prune : ℕ → CrashTracker → CrashTracker
prune now t = record t { records = filter (λ r. leb (cutoff now t.window) r.at) t.records }

-- `record`, which is a reserved word here.
unfoldable pub record_crash : ℕ → Text → CrashTracker → Decision × CrashTracker
record_crash now reason t =
    let pruned = prune now t in
    let t' : CrashTracker = record pruned {
      records = pruned.records ++ record { at = now; reason = reason } ∷ [];
    } in
    let count = length t'.records in
    if leb t'.max_in_window count
    then (dead_letter count t'.window, t')
    else (restart (backoff count t'.backoff_base t'.backoff_cap), t')

-- What one supervisor keeps, with what it has done to the world: the marker file, the sleeps (the
-- last one first), the number of plugin tasks that it spawned, and the shared MQTT host.
pub record Supervision : Type 0 where
  pub tracker : CrashTracker
  pub marker : Option Text
  pub slept : List ℕ
  pub started : ℕ
  pub mqtt : Option MqttHost

-- How a plugin task ends; the reason is the rendered text.
pub data TaskEnd : Type 0 where
  clean : TaskEnd
  crashed : Text → TaskEnd
  panicked : Text → TaskEnd

-- What one round of the loop finds: the outcome of `load_plugin_dir`, or the plugin's id and the end
-- of its task with what rumqttc answers during the clean-up; the clock, and whether the marker can
-- be written.
pub data Round : Type 0 where
  load_failed : Text → ℕ → Bool → Round
  ran : Text → TaskEnd → (Text → Bool) → ℕ → Bool → Round

pub data WriteError : Type 0 where
  marker_not_written : WriteError

-- Ok(true) if the plugin was just dead-lettered.
abbrev pub react : Decision → Text → Bool → Supervision → Result WriteError Bool × Supervision
react (restart after) reason writable s = (ok false, record s { slept = after ∷ s.slept })
react (dead_letter crashes window) reason writable s =
    if writable then (ok true, record s { marker = some reason }) else (err marker_not_written, s)

unfoldable pub on_crash : Text → ℕ → Bool → Supervision → Result WriteError Bool × Supervision
on_crash reason now writable s =
    let (decision, t) = record_crash now reason s.tracker in
    react decision reason writable (record s { tracker = t })

-- The clean-up of the router and the broker, where a broker is bound.
abbrev clean_up : (Text → Bool) → Text → Option MqttHost → Option MqttHost
clean_up accepted id none = none
clean_up accepted id (some h) = some (plugin_exit accepted id h)

abbrev pub ended : Text → (Text → Bool) → Supervision → Supervision
ended id accepted s = record s { started = s.started + 1; mqtt = clean_up accepted id s.mqtt }

-- `returned` is Ok(()); `waiting` means that the rounds given are used up.
pub data Verdict : Type 0 where
  returned failed waiting : Verdict

abbrev pub verdict :
    Result WriteError Bool × Supervision
    → (Supervision → Verdict × Supervision)
    → Verdict × Supervision
verdict (ok true, s) next = (returned, s)
verdict (ok false, s) next = next s
verdict (err e, s) next = (failed, s)

unfoldable pub supervise_rounds : List Round → Supervision → Verdict × Supervision
supervise_rounds [] s = (waiting, s)
supervise_rounds (load_failed e now writable ∷ rounds) s =
    verdict (on_crash e now writable s) (supervise_rounds rounds)
supervise_rounds (ran id clean accepted now writable ∷ rounds) s = (returned, ended id accepted s)
supervise_rounds (ran id (crashed reason) accepted now writable ∷ rounds) s =
    verdict (on_crash reason now writable (ended id accepted s)) (supervise_rounds rounds)
supervise_rounds (ran id (panicked reason) accepted now writable ∷ rounds) s =
    verdict (on_crash reason now writable (ended id accepted s)) (supervise_rounds rounds)

abbrev is_marked : Option Text → Bool
is_marked none = false
is_marked (some _) = true

-- `marker` is the `.dead-lettered` file of the install directory at the start.
unfoldable pub supervise : Option Text → Option MqttHost → List Round → Verdict × Supervision
supervise marker mqtt rounds =
    let s : Supervision = record {
      tracker = default_tracker;
      marker = marker;
      slept = [];
      started = 0;
      mqtt = mqtt;
    } in
    if is_marked marker then (returned, s) else supervise_rounds rounds s
