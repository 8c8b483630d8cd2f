-- ===== src/WakeVad/Firing.antt =====
-- When the detector fires.
use iot_athome.Prelude.{
  ℕ, ◌+◌, ◌-◌, ◌^◌, ◌≡◌, ◌≤◌, ◌<◌, refl, sym, ap, ◌∙◌, inl, inr, List, [], ◌∷◌, length, All, true,
  false, Bool-cases, some, none, leb, ltb, ◌==◌, arith,
}
use iot_athome.WakeVad.{
  Floats, AudioFrame, Wake, Detector, warmup_frames, sustained_frames, next_u32, new_detector,
  current_threshold, update_noise_estimate, rms_of, noted, compared, fired, observe, observe_all,
}

-- For so many frames at least the detector cannot fire.
unfoldable pub quiet_for : {fl : Floats} → Detector fl → ℕ
quiet_for d =
    (warmup_frames - d.frames_seen)
    + d.cooldown_remaining
    + (sustained_frames - 1 - d.over_threshold_run)

module _ (fl : Floats) where
  estimate-counters :
      (rms : fl.F) (d : Detector fl) → quiet_for (update_noise_estimate fl rms d) ≡ quiet_for d
  unfolding update_noise_estimate quiet_for
  estimate-counters rms d = elim (Bool-cases (d.frames_seen == 1)) [
    | inl e ↦ rw e refl
    | inr e ↦ rw e refl
  ]

  compared-quiet :
      (rms : fl.F) (d : Detector fl)
      → warmup_frames < d.frames_seen
      → d.cooldown_remaining ≡ 0
      → quiet_for d ≤ quiet_for (compared fl rms d) + 1
  unfolding compared
  compared-quiet rms d warm cool = elim (Bool-cases (fl.ge rms (current_threshold fl d))) [
    | inl e ↦ rw e (unfold quiet_for in ground (arith, warm, cool))
    | inr e ↦
        rw (e, estimate-counters rms (record d { over_threshold_run = 0 }))
          (unfold quiet_for in omega (arith, warm, cool))
  ]

  compared-run :
      (rms : fl.F) (d : Detector fl)
      → ((compared fl rms d).over_threshold_run ≤ d.over_threshold_run + 1)
  unfolding compared update_noise_estimate
  compared-run rms d = elim (Bool-cases (fl.ge rms (current_threshold fl d))) [
    | inl e ↦ rw e (omega arith)
    | inr e ↦ elim (Bool-cases (d.frames_seen == 1)) [
      | inl x ↦ rw (e, x) (omega arith)
      | inr x ↦ rw (e, x) (omega arith)
    ]
  ]

  fired-quiet :
      (rms : fl.F) (f : AudioFrame fl) (d : Detector fl)
      → d.over_threshold_run < sustained_frames
      → fired fl rms f d ≡ (d, none)
  unfolding fired
  fired-quiet rms f d h = elim (Bool-cases (leb sustained_frames d.over_threshold_run)) [
    | inl e ↦ absurd (ground (arith, h, e))
    | inr e ↦ rw e refl
  ]

  observe-quiet :
      (d : Detector fl) (f : AudioFrame fl)
      → 0 < quiet_for d
      → ((observe fl d f).1 ≡ none) × (quiet_for d ≤ quiet_for (observe fl d f).0 + 1)
  unfolding observe noted
  observe-quiet d f h =
      let rms = rms_of fl f in
      let dn = noted fl rms d in
      elim (Bool-cases (leb (next_u32 d.frames_seen) warmup_frames)) [
        | inl warm ↦
            rw (warm, estimate-counters rms dn) (refl, unfold quiet_for in ground (arith, warm))
        | inr done ↦ elim (Bool-cases (ltb 0 d.cooldown_remaining)) [
          | inl cool ↦
              rw
                (
                  done,
                  cool,
                  estimate-counters rms
                      (record dn { cooldown_remaining = d.cooldown_remaining - 1 }),
                )
                (refl, unfold quiet_for in ground (arith, done, cool))
          | inr idle ↦
              let steps = compared-quiet rms dn (ground (arith, done)) (ground (arith, idle)) in
              let run = compared-run rms dn in
              let same : quiet_for dn ≡ quiet_for d =
                unfold quiet_for in ground (arith, done, idle) in
              let low : (compared fl rms dn).over_threshold_run < sustained_frames =
                unfold quiet_for in ground (arith, run, h, done, idle) in
              rw (done, idle, fired-quiet rms f (compared fl rms dn) low)
                (refl, omega (arith, steps, same))
        ]
      ]

  observe_all-quiet :
      (d : Detector fl) (fs : List (AudioFrame fl))
      → length fs ≤ quiet_for d
      → All (λ said. said ≡ none) (observe_all fl d fs).1
  unfolding observe_all
  observe_all-quiet d [] h = tt
  observe_all-quiet d (f ∷ fs) h =
      let (none_now, slow) = observe-quiet d f (omega (arith, h)) in
      (none_now, observe_all-quiet (observe fl d f).0 fs (omega (arith, h, slow)))

  fired-cools :
      (rms : fl.F) (f : AudioFrame fl) (d : Detector fl) (w : Wake fl)
      → (fired fl rms f d).1 ≡ some w
      → 53 ≤ quiet_for (fired fl rms f d).0
  unfolding fired quiet_for
  fired-cools rms f d w h = elim (Bool-cases (leb sustained_frames d.over_threshold_run)) [
    | inl e ↦ rw e (omega arith)
    | inr e ↦ absurd (ground (arith, h, e))
  ]

  observe-cools :
      (d : Detector fl) (f : AudioFrame fl) (w : Wake fl)
      → (observe fl d f).1 ≡ some w
      → 53 ≤ quiet_for (observe fl d f).0
  unfolding observe
  observe-cools d f w h =
      elim (Bool-cases (leb (noted fl (rms_of fl f) d).frames_seen warmup_frames)) [
        | inl warm ↦ absurd (ground (arith, h, warm))
        | inr done ↦ elim (Bool-cases (ltb 0 (noted fl (rms_of fl f) d).cooldown_remaining)) [
          | inl cool ↦ absurd (ground (arith, h, done, cool))
          | inr idle ↦
              let same : observe fl d f
                  ≡ fired fl (rms_of fl f) f
                      (compared fl (rms_of fl f) (noted fl (rms_of fl f) d)) =
                rw (done, idle) refl in
              rw (done, idle) (fired-cools _ f _ w (sym (ap (λ r. r.1) same) ∙ h))
        ]
      ]

  -- After the detector has fired, it says nothing of the next 53 frames, whatever they are: 50 frames
  -- of cooldown, and three of the four loud frames that the next fire needs.
  pub fires_apart :
      (d : Detector fl) (f : AudioFrame fl) (w : Wake fl) (fs : List (AudioFrame fl))
      → (observe fl d f).1 ≡ some w
      → length fs ≤ 53
      → All (λ said. said ≡ none) (observe_all fl (observe fl d f).0 fs).1
  fires_apart d f w fs h n =
      observe_all-quiet (observe fl d f).0 fs (omega (arith, n, observe-cools d f w h))

  -- A new detector says nothing of its first 103 frames: 100 of warm-up and three.
  pub starts_quiet :
      (fs : List (AudioFrame fl))
      → length fs ≤ 103
      → All (λ said. said ≡ none) (observe_all fl (new_detector fl) fs).1
  unfolding new_detector quiet_for
  starts_quiet fs n = observe_all-quiet (new_detector fl) fs n

  IsLoud : Detector fl → AudioFrame fl → Type 0
  IsLoud d f = fl.ge (rms_of fl f) (current_threshold fl d) ≡ true

  -- The detector past its warm-up and cooldown, after `n` loud frames.
  record Ready (d : Detector fl) (n : ℕ) : Type 0 where
    seen : warmup_frames ≤ d.frames_seen
    small : d.frames_seen + (4 - n) < 2 ^ 32
    cool : d.cooldown_remaining ≡ 0
    loud : d.over_threshold_run ≡ n

  loud_frame :
      (d : Detector fl) (f : AudioFrame fl) (n : ℕ)
      → Ready d n
      → n < 4
      → IsLoud d f
      → observe fl d f
        ≡ fired fl
            (rms_of fl f)
            f
            (record (noted fl (rms_of fl f) d) { over_threshold_run = n + 1 })
  unfolding observe noted compared IsLoud current_threshold
  loud_frame d f n r small loud =
      let seen : next_u32 d.frames_seen ≡ d.frames_seen + 1 = omega (arith, r.small, small) in
      let warm : leb (next_u32 d.frames_seen) warmup_frames ≡ false =
        ground (arith, seen, r.seen) in
      let run : next_u32 d.over_threshold_run ≡ n + 1 = omega (arith, r.loud, small) in
      let idle : ltb 0 d.cooldown_remaining ≡ false = ground (arith, r.cool) in
      rw (warm, idle, loud, run) refl

  loud_step :
      (d : Detector fl) (f : AudioFrame fl) (n : ℕ)
      → Ready d n
      → n < 3
      → IsLoud d f
      → (next : Detector fl) × (observe fl d f ≡ (next, none))
        × Ready next (n + 1)
        × (current_threshold fl next ≡ current_threshold fl d)
  unfolding current_threshold
  loud_step d f n r small loud =
      let next = record (noted fl (rms_of fl f) d) { over_threshold_run = n + 1 } in
      (
        next,
        loud_frame d f n r (omega (arith, small)) loud
            ∙ fired-quiet (rms_of fl f) f next (omega (arith, small)),
        unfold noted in
            record {
              seen = omega (arith, r.seen, r.small, small);
              small = omega (arith, r.small, small);
              cool = r.cool;
              loud = refl;
            },
        unfold noted in refl,
      )

  fourth :
      (d : Detector fl) (f : AudioFrame fl)
      → Ready d 3
      → IsLoud d f
      → (next : Detector fl) × (w : Wake fl) × (observe fl d f ≡ (next, some w))
  unfolding fired
  fourth d f r loud = (_, _, loud_frame d f 3 r (omega arith) loud)

  -- Past its warm-up and outside a cooldown, a detector that has seen no loud frame just before, and
  -- whose frame counter is below 2^32 - 4, fires on the fourth of four frames that all reach the
  -- threshold of the first, and not earlier.
  pub fires_on_fourth :
      (d : Detector fl) (f g h i : AudioFrame fl)
      → warmup_frames ≤ d.frames_seen
      → d.frames_seen < 2 ^ 32 - 4
      → d.cooldown_remaining ≡ 0
      → d.over_threshold_run ≡ 0
      → All (λ x. fl.ge (rms_of fl x) (current_threshold fl d) ≡ true) (f ∷ g ∷ h ∷ i ∷ [])
      → (w : Wake fl) × ((observe_all fl d (f ∷ g ∷ h ∷ i ∷ [])).1
          ≡ none ∷ none ∷ none ∷ some w ∷ [])
  unfolding observe_all IsLoud
  fires_on_fourth d f g h i seen small cool quiet loud =
      let r0 : Ready d 0 = record {
        seen = seen;
        small = omega (arith, small);
        cool = cool;
        loud = quiet;
      } in
      let (d1, e1, r1, t1) = loud_step d f 0 r0 (omega arith) loud.0 in
      let (d2, e2, r2, t2) =
        loud_step d1 g 1 r1 (omega arith) (ap (fl.ge (rms_of fl g)) t1 ∙ loud.1.0) in
      let (d3, e3, r3, t3) =
        loud_step d2 h 2 r2 (omega arith) (ap (fl.ge (rms_of fl h)) (t2 ∙ t1) ∙ loud.1.1.0) in
      let (d4, w, e4) = fourth d3 i r3 (ap (fl.ge (rms_of fl i)) (t3 ∙ t2 ∙ t1) ∙ loud.1.1.1.0) in
      (w, rw e1 (rw e2 (rw e3 (rw e4 refl))))
