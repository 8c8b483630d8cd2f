-- ===== src/Supervisor/Loop.antt =====
-- The supervise loop: what it refuses, how long it waits, and that a crash loop ends.
use native.Mathlib.Decide.{dec_lt}
use mathlib.Core.Path.{subst}
use iot_athome.Prelude.{
  ℕ, suc, ◌+◌, ◌-◌, ◌≤◌, ◌<◌, List, [], ◌∷◌, ◌++◌, ◌≡◌, refl, ap, Bool, true, false, All, some,
  filter, length, length-append, arith, leb, Text, ok, sym, ◌∙◌,
}
use iot_athome.Supervisor.{
  CrashRecord, CrashTracker, backoff, cutoff, record_crash, Supervision, Round, load_failed, ran,
  clean, crashed, panicked, on_crash, ended, Verdict, returned, verdict, supervise_rounds,
}
use iot_athome.Supervisor.Window.{
  record_crash-SameThresholds, records-record_crash, decision-record_crash,
}

-- A round that ends in a crash, at an instant of one window from `lo`, which the clock was old enough
-- to subtract, and with a directory that the marker can be written to.
abbrev pub InWindow : ℕ → ℕ → ℕ → Bool → Type 0
InWindow lo w now writable = (lo ≤ now) × (now ≤ lo + w) × (w ≤ now) × (writable ≡ true)

abbrev pub IsCrash : ℕ → ℕ → Round → Type 0
IsCrash lo w (load_failed e now writable) = InWindow lo w now writable
IsCrash lo w (ran id clean accepted now writable) = ⊥
IsCrash lo w (ran id (crashed reason) accepted now writable) = InWindow lo w now writable
IsCrash lo w (ran id (panicked reason) accepted now writable) = InWindow lo w now writable

filter-kept :
    (lo w now : ℕ) (rs : List CrashRecord)
    → now ≤ lo + w
    → w ≤ now
    → All (λ r. lo ≤ r.at) rs
    → filter (λ r. leb (cutoff now w) r.at) rs ≡ rs
unfolding filter cutoff
filter-kept lo w now [] h k a = refl
filter-kept lo w now (r ∷ rs) h k a = ground (arith, filter-kept lo w now rs h k a.1, a.0)

All-snoc :
    (lo : ℕ) (rs : List CrashRecord) (c : CrashRecord)
    → All (λ r. lo ≤ r.at) rs
    → lo ≤ c.at
    → All (λ r. lo ≤ r.at) (rs ++ c ∷ [])
All-snoc lo [] c h k = (k, tt)
All-snoc lo (r ∷ rs) c h k = (h.0, All-snoc lo rs c h.1 k)

-- The state of a crash loop: what is recorded lies in the window, and is not yet too much.
record InLoop (lo w m k : ℕ) (s : Supervision) : Type 0 where
  window : s.tracker.window ≡ w
  maximum : s.tracker.max_in_window ≡ m
  counted : length s.tracker.records ≡ k
  since : All (λ r. lo ≤ r.at) s.tracker.records

-- The plugin was given up, and the spawned tasks are bounded.
pub record GivenUp (limit : ℕ) (r : Verdict × Supervision) : Type 0 where
  pub stopped : r.0 ≡ returned
  pub marked : (reason : Text) × (r.1.marker ≡ some reason)
  pub bounded : r.1.started ≤ limit

module _ (lo w m k : ℕ) (reason : Text) (now : ℕ) (s : Supervision) (h : InLoop lo w m k s)
    (at : InWindow lo w now true) where
  crash-records :
      (record_crash now reason s.tracker).1.records
      ≡ s.tracker.records ++ record { at = now; reason = reason } ∷ []
  crash-records =
      records-record_crash now reason s.tracker
      ∙ ap
          (λ x.
            filter (λ r. leb (cutoff now x) r.at) s.tracker.records
            ++ record { at = now; reason = reason } ∷ [])
          h.window
      ∙ ap (λ rs. rs ++ record { at = now; reason = reason } ∷ [])
          (filter-kept lo w now s.tracker.records at.1 at.2 h.since)

  crash-count : length (record_crash now reason s.tracker).1.records ≡ suc k
  crash-count = omega (
    arith,
    ap length crash-records,
    length-append s.tracker.records (record { at = now; reason = reason } ∷ []),
    h.counted,
  )

  after : CrashTracker
  after = (record_crash now reason s.tracker).1

  -- Below the maximum the loop goes on, after the backoff of the crashes so far.
  on_crash-restarts :
      suc k < m
      → on_crash reason now true s ≡ (
        ok false,
        record s {
          tracker = after;
          slept = backoff (suc k) s.tracker.backoff_base s.tracker.backoff_cap ∷ s.slept;
        },
      )
  unfolding on_crash after
  on_crash-restarts below =
      ground (arith, decision-record_crash now reason s.tracker, crash-count, h.maximum)

  -- At the maximum the plugin is dead-lettered.
  on_crash-gives_up :
      m ≤ suc k
      → on_crash reason now true s ≡ (ok true, record s { tracker = after; marker = some reason })
  unfolding on_crash after
  on_crash-gives_up over =
      ground (arith, decision-record_crash now reason s.tracker, crash-count, h.maximum)

  after-InLoop : InLoop lo w m (suc k) (record s {
    tracker = after;
    slept = backoff (suc k) s.tracker.backoff_base s.tracker.backoff_cap ∷ s.slept;
  })
  unfolding after
  after-InLoop = record {
    window = (record_crash-SameThresholds now reason s.tracker).window ∙ h.window;
    maximum = (record_crash-SameThresholds now reason s.tracker).max_in_window ∙ h.maximum;
    counted = crash-count;
    since =
        subst (All (λ r. lo ≤ r.at)) (sym crash-records)
          (All-snoc lo s.tracker.records (record { at = now; reason = reason }) h.since at.0);
  }

  crash-verdict :
      (limit : ℕ) (next : Supervision → Verdict × Supervision)
      → s.started ≤ limit
      → ((t : Supervision)
          → InLoop lo w m (suc k) t
          → suc k < m
          → t.started ≡ s.started
          → GivenUp limit (next t))
      → GivenUp limit (verdict (on_crash reason now true s) next)
  crash-verdict limit next le go = elim (dec_lt (suc k) m) [
    | yes below ↦ rw (on_crash-restarts below) (go _ after-InLoop below refl)
    | no over ↦
        rw (on_crash-gives_up (omega arith))
          (record { stopped = refl; marked = (reason, refl); bounded = le })
  ]

InLoop-ended :
    (lo w m k : ℕ) (id : Text) (accepted : Text → Bool) (s : Supervision)
    → InLoop lo w m k s
    → InLoop lo w m k (ended id accepted s)
InLoop-ended lo w m k id accepted s h = record {
  window = h.window;
  maximum = h.maximum;
  counted = h.counted;
  since = h.since;
}

loop-GivenUp :
    (limit lo w m k : ℕ) (rounds : List Round) (s : Supervision)
    → k < m
    → m ≤ k + length rounds
    → All (IsCrash lo w) rounds
    → InLoop lo w m k s
    → s.started + (m - k) ≤ limit
    → GivenUp limit (supervise_rounds rounds s)
unfolding supervise_rounds
loop-GivenUp limit lo w m k [] s below enough crashes h le = absurd (omega arith)
loop-GivenUp limit lo w m k (ran id clean accepted now writable ∷ rounds) s below enough crashes h
      le =
    absurd crashes.0
loop-GivenUp limit lo w m k (load_failed e now false ∷ rounds) s below enough crashes h le =
    cc (crashes.0.3)
loop-GivenUp limit lo w m k (load_failed e now true ∷ rounds) s below enough crashes h le =
    crash-verdict lo w m k e now s h crashes.0 limit (supervise_rounds rounds) (omega arith)
      (λ t inside more same.
        loop-GivenUp limit lo w m (suc k) rounds t more (omega arith) crashes.1 inside
          (omega arith))
loop-GivenUp limit lo w m k (ran id (crashed reason) accepted now false ∷ rounds) s below enough
      crashes h le =
    cc (crashes.0.3)
loop-GivenUp limit lo w m k (ran id (crashed reason) accepted now true ∷ rounds) s below enough
      crashes h le =
    crash-verdict lo w m k reason now (ended id accepted s) (InLoop-ended lo w m k id accepted s h)
      crashes.0 limit (supervise_rounds rounds) (omega arith)
      (λ t inside more same.
        loop-GivenUp limit lo w m (suc k) rounds t more (omega arith) crashes.1 inside
          (omega arith))
loop-GivenUp limit lo w m k (ran id (panicked reason) accepted now false ∷ rounds) s below enough
      crashes h le =
    cc (crashes.0.3)
loop-GivenUp limit lo w m k (ran id (panicked reason) accepted now true ∷ rounds) s below enough
      crashes h le =
    crash-verdict lo w m k reason now (ended id accepted s) (InLoop-ended lo w m k id accepted s h)
      crashes.0 limit (supervise_rounds rounds) (omega arith)
      (λ t inside more same.
        loop-GivenUp limit lo w m (suc k) rounds t more (omega arith) crashes.1 inside
          (omega arith))

-- A supervisor that has no crash on record and allows at least one, and a plugin that crashes in every
-- round: if the crashes all lie within one window's length of an instant `lo`, if the clock is never
-- younger than the window (before that the tracker forgets its records), and if the marker can be
-- written at each of them, then, once as many rounds are given as the maximum allows crashes, the loop
-- returns with the marker written, after no more than that many spawned tasks.
pub crash_loop_ends :
    (lo : ℕ) (rounds : List Round) (s : Supervision)
    → s.tracker.records ≡ []
    → 0 < s.tracker.max_in_window
    → s.tracker.max_in_window ≤ length rounds
    → All (IsCrash lo s.tracker.window) rounds
    → GivenUp (s.started + s.tracker.max_in_window) (supervise_rounds rounds s)
crash_loop_ends lo rounds s fresh pos enough crashes =
    loop-GivenUp (s.started + s.tracker.max_in_window) lo s.tracker.window s.tracker.max_in_window 0
      rounds s pos (omega arith) crashes
      (record {
        window = refl;
        maximum = refl;
        counted = ap length fresh;
        since = subst (All (λ r. lo ≤ r.at)) (sym fresh) tt;
      })
      (omega arith)
