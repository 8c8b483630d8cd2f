-- ===== src/Supervisor/Window.antt =====
-- The tracker against the whole crash history of a plugin.
use iot_athome.Prelude.{
  ℕ, ◌+◌, ◌≤◌, ◌<◌, List, [], ◌∷◌, ◌++◌, ◌≡◌, refl, ap, sym, ◌∙◌, Bool, ◌&&◌, filter, filter-append,
  filter-filter, filter-ext, length, arith, leb, if◌then◌else◌, Text,
}
use iot_athome.Supervisor.{
  CrashRecord, CrashTracker, restart, dead_letter, backoff, cutoff, prune, record_crash,
}

-- A history holds the latest crash first; the tracker's list, the latest last.
abbrev pub chronological : List CrashRecord → List CrashRecord
chronological [] = []
chronological (c ∷ older) = chronological older ++ c ∷ []

-- The clock does not run backwards.
abbrev pub IsTimed : List CrashRecord → Type 0
IsTimed [] = Unit
IsTimed (c ∷ []) = Unit
IsTimed (c ∷ d ∷ older) = (d.at ≤ c.at) × IsTimed (d ∷ older)

-- The clock has run for the length of the window before the first crash.
abbrev pub IsLate : ℕ → List CrashRecord → Type 0
IsLate w [] = Unit
IsLate w (c ∷ older) = (w ≤ c.at) × IsLate w older

-- The tracker after a history, from a fresh one.
pub tracker_of : CrashTracker → List CrashRecord → CrashTracker
tracker_of t [] = t
tracker_of t (c ∷ older) = (record_crash c.at c.reason (tracker_of t older)).1

-- The crashes within the window that ends at `now`.
abbrev pub recent : ℕ → ℕ → CrashRecord → Bool
recent now window c = leb now (c.at + window)

-- The thresholds are never changed.
pub record SameThresholds (t u : CrashTracker) : Type 0 where
  pub window : u.window ≡ t.window
  pub max_in_window : u.max_in_window ≡ t.max_in_window
  pub backoff_base : u.backoff_base ≡ t.backoff_base
  pub backoff_cap : u.backoff_cap ≡ t.backoff_cap

pub record_crash-SameThresholds :
    (now : ℕ) (reason : Text) (t : CrashTracker) → SameThresholds t (record_crash now reason t).1
unfolding record_crash prune
record_crash-SameThresholds now reason t = ground arith

pub tracker_of-SameThresholds :
    (t : CrashTracker) (h : List CrashRecord) → SameThresholds t (tracker_of t h)
unfolding tracker_of
tracker_of-SameThresholds t [] = ground arith
tracker_of-SameThresholds t (c ∷ older) =
    let a = tracker_of-SameThresholds t older in
    let b = record_crash-SameThresholds c.at c.reason (tracker_of t older) in
    record {
      window = b.window ∙ a.window;
      max_in_window = b.max_in_window ∙ a.max_in_window;
      backoff_base = b.backoff_base ∙ a.backoff_base;
      backoff_cap = b.backoff_cap ∙ a.backoff_cap;
    }

-- What `record` keeps.
pub records-record_crash :
    (now : ℕ) (reason : Text) (t : CrashTracker)
    → (record_crash now reason t).1.records
      ≡ filter (λ r. leb (cutoff now t.window) r.at) t.records
        ++ record { at = now; reason = reason } ∷ []
unfolding record_crash prune
records-record_crash now reason t = ground arith

-- What `record` decides, by what it keeps.
pub decision-record_crash :
    (now : ℕ) (reason : Text) (t : CrashTracker)
    → (record_crash now reason t).0 ≡ (
        let n = length (record_crash now reason t).1.records in
        if leb t.max_in_window n
        then dead_letter n t.window
        else restart (backoff n t.backoff_base t.backoff_cap))
unfolding record_crash prune
decision-record_crash now reason t = ground arith

recent-narrows :
    (w : ℕ) (c d x : CrashRecord)
    → w ≤ c.at
    → d.at ≤ c.at
    → (recent d.at w x && leb (cutoff c.at w) x.at) ≡ recent c.at w x
unfolding cutoff
recent-narrows w c d x late timed = ground arith

filter-snoc-recent :
    (w : ℕ) (c : CrashRecord) (xs : List CrashRecord)
    → filter (recent c.at w) (xs ++ c ∷ []) ≡ filter (recent c.at w) xs ++ c ∷ []
filter-snoc-recent w c xs =
    filter-append (recent c.at w) xs (c ∷ []) ∙ ap (λ ys. filter (recent c.at w) xs ++ ys) self
  where
    self : filter (recent c.at w) (c ∷ []) ≡ c ∷ []
    self = unfold filter in ground arith

-- If the clock does not run backwards and was at least a window old at the first crash, the tracker
-- holds exactly the crashes of the whole history that lie in the window ending at the last one.
pub records_exact :
    (t : CrashTracker) (c : CrashRecord) (older : List CrashRecord)
    → t.records ≡ []
    → IsTimed (c ∷ older)
    → IsLate t.window (c ∷ older)
    → (tracker_of t (c ∷ older)).records ≡ filter (recent c.at t.window) (chronological (c ∷ older))
unfolding tracker_of filter
records_exact t c [] fresh timed late =
    records-record_crash c.at c.reason t
    ∙ ap (λ xs. filter (λ r. leb (cutoff c.at t.window) r.at) xs ++ c ∷ []) fresh
    ∙ sym (filter-snoc-recent t.window c [])
records_exact t c (d ∷ older) fresh timed late =
    let same = tracker_of-SameThresholds t (d ∷ older) in
    let ih = records_exact t d older fresh timed.1 late.1 in
    let H = chronological (d ∷ older) in
    records-record_crash c.at c.reason (tracker_of t (d ∷ older))
    ∙ ap (λ w. filter (λ r. leb (cutoff c.at w) r.at) (tracker_of t (d ∷ older)).records ++ c ∷ [])
        same.window
    ∙ ap (λ xs. filter (λ r. leb (cutoff c.at t.window) r.at) xs ++ c ∷ []) ih
    ∙ ap (λ xs. xs ++ c ∷ [])
        (filter-filter (λ r. leb (cutoff c.at t.window) r.at) (recent d.at t.window) H
          ∙ filter-ext _ (recent c.at t.window) H
              (λ x. recent-narrows t.window c d x late.0 timed.0))
    ∙ sym (filter-snoc-recent t.window c H)

-- If the clock does not run backwards and was at least a window old at the first crash, a crash
-- dead-letters the plugin exactly when the crashes of the whole history that lie in the window reach
-- the maximum, and otherwise the delay is the backoff of their number.
pub decision_exact :
    (t : CrashTracker) (c : CrashRecord) (older : List CrashRecord)
    → t.records ≡ []
    → IsTimed (c ∷ older)
    → IsLate t.window (c ∷ older)
    → (record_crash c.at c.reason (tracker_of t older)).0 ≡ (
        let n = length (filter (recent c.at t.window) (chronological (c ∷ older))) in
        if leb t.max_in_window n
        then dead_letter n t.window
        else restart (backoff n t.backoff_base t.backoff_cap))
unfolding tracker_of
decision_exact t c older fresh timed late =
    let same = tracker_of-SameThresholds t older in
    cc (
      decision-record_crash c.at c.reason (tracker_of t older),
      records_exact t c older fresh timed late,
      same.window,
      same.max_in_window,
      same.backoff_base,
      same.backoff_cap,
    )

-- Each crash later than the one before, all before the clock has reached the window's length.
abbrev pub IsEarly : ℕ → List CrashRecord → Type 0
IsEarly w [] = Unit
IsEarly w (c ∷ []) = c.at < w
IsEarly w (c ∷ d ∷ older) = (c.at < w) × (d.at < c.at) × IsEarly w (d ∷ older)

early-records :
    (t : CrashTracker) (c : CrashRecord) (older : List CrashRecord)
    → t.records ≡ []
    → IsEarly t.window (c ∷ older)
    → (tracker_of t (c ∷ older)).records ≡ c ∷ []
unfolding tracker_of cutoff
early-records t c [] fresh early =
    records-record_crash c.at c.reason t
    ∙ ap (λ xs. filter (λ r. leb (cutoff c.at t.window) r.at) xs ++ c ∷ []) fresh
    ∙ (unfold filter in refl)
early-records t c (d ∷ older) fresh early =
    let same = tracker_of-SameThresholds t (d ∷ older) in
    records-record_crash c.at c.reason (tracker_of t (d ∷ older))
    ∙ ap (λ xs. filter (λ r. leb (cutoff c.at (tracker_of t (d ∷ older)).window) r.at) xs ++ c ∷ [])
        (early-records t d older fresh early.2)
    ∙ (unfold filter in ground (arith, same.window))

-- While the clock is younger than the window, every crash discards the crashes before it: the plugin
-- is restarted after the shortest delay each time and never dead-lettered, however often it crashes.
pub early_crashes_restart :
    (t : CrashTracker) (c : CrashRecord) (older : List CrashRecord)
    → t.records ≡ []
    → 1 < t.max_in_window
    → IsEarly t.window (c ∷ older)
    → (record_crash c.at c.reason (tracker_of t older)).0
      ≡ restart (backoff 1 t.backoff_base t.backoff_cap)
unfolding tracker_of
early_crashes_restart t c older fresh big early =
    let same = tracker_of-SameThresholds t older in
    ground (
      arith,
      decision-record_crash c.at c.reason (tracker_of t older),
      early-records t c older fresh early,
      same.max_in_window,
      same.backoff_base,
      same.backoff_cap,
    )
