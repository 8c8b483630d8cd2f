-- ===== src/Supervisor/Samples.antt =====
-- The supervisor at concrete crash histories.
use iot_athome.Prelude.{
  ℕ, ◌*◌, ◌≤◌, ◌^◌, ◌-◌, min, List, [], ◌∷◌, ◌≡◌, refl, true, codes, filter, length, arith, none,
  leb, if◌then◌else◌,
}
use iot_athome.Supervisor.{
  second, CrashRecord, CrashTracker, restart, dead_letter, backoff, record_crash, Supervision,
  Round, load_failed, ran, crashed, supervise_rounds,
}
use iot_athome.Supervisor.Backoff.{backoff_lem, backoff_mono}
use iot_athome.Supervisor.Window.{
  tracker_of, recent, chronological, records_exact, decision_exact, early_crashes_restart,
}
use iot_athome.Supervisor.Loop.{GivenUp, crash_loop_ends}

backoff_schedule :
    (backoff 1 (1 * second) (30 * second) ≡ 1 * second)
    × (backoff 3 (1 * second) (30 * second) ≡ 4 * second)
    × (backoff 9 (1 * second) (30 * second) ≡ 30 * second)
unfolding backoff
backoff_schedule = (refl, refl, refl)

backoff_lem_run : backoff 4 second (30 * second) ≡ min (second * 2 ^ min (4 - 1) 30) (30 * second)
backoff_lem_run = backoff_lem 4 second (30 * second) (omega arith)

backoff_mono_example :
    (backoff 2 second (30 * second) ≤ backoff 7 second (30 * second))
    × (backoff 7 second (30 * second) ≤ 30 * second)
backoff_mono_example = backoff_mono 2 7 second (30 * second) (omega arith) (omega arith)

abbrev trap : ℕ → CrashRecord
trap s = record { at = s; reason = codes "trap" }

-- A window of 10, at most 3 crashes.
abbrev small : CrashTracker
small = record { records = []; window = 10; max_in_window = 3; backoff_base = 1; backoff_cap = 30 }

records_exact_example :
    (tracker_of small (trap 35 ∷ trap 30 ∷ trap 20 ∷ [])).records
    ≡ filter (recent 35 10) (chronological (trap 35 ∷ trap 30 ∷ trap 20 ∷ []))
records_exact_example =
    records_exact small (trap 35) (trap 30 ∷ trap 20 ∷ []) refl (omega arith) (omega arith)

decision_exact_example :
    (record_crash 35 (codes "trap") (tracker_of small (trap 30 ∷ trap 20 ∷ []))).0 ≡ (
      let n = length (filter (recent 35 10) (chronological (trap 35 ∷ trap 30 ∷ trap 20 ∷ []))) in
      if leb 3 n then dead_letter n 10 else restart (backoff n 1 30))
decision_exact_example =
    decision_exact small (trap 35) (trap 30 ∷ trap 20 ∷ []) refl (omega arith) (omega arith)

early_crashes_restart_run :
    (record_crash 9 (codes "trap") (tracker_of small (trap 7 ∷ trap 5 ∷ trap 3 ∷ []))).0
    ≡ restart (backoff 1 1 30)
early_crashes_restart_run =
    early_crashes_restart small (trap 9) (trap 7 ∷ trap 5 ∷ trap 3 ∷ []) refl (omega arith)
      (omega arith)

abbrev crash_round : ℕ → Round
crash_round now = ran (codes "p1") (crashed (codes "trap")) (λ f. true) now true

abbrev supervision : Supervision
supervision = record { tracker = small; marker = none; slept = []; started = 0; mqtt = none }

abbrev loop_rounds : List Round
loop_rounds = crash_round 100 ∷ load_failed (codes "no manifest") 103 true ∷ crash_round 108 ∷ []

crash_loop_ends_example : GivenUp 3 (supervise_rounds loop_rounds supervision)
crash_loop_ends_example =
    crash_loop_ends 100 loop_rounds supervision refl (omega arith) (omega arith) (
      (omega arith, omega arith, omega arith, refl),
      (
        (omega arith, omega arith, omega arith, refl),
        ((omega arith, omega arith, omega arith, refl), tt),
      ),
    )
