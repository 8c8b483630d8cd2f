-- ===== src/Pipeline/Capture.antt =====
-- The captured utterance.
use mathlib.Core.List.{append_assoc, append-nil}
use mathlib.Core.Path.{subst}
use iot_athome.Prelude.{
  ℕ, ◌+◌, ◌-◌, ◌≡◌, ◌≤◌, ◌<◌, refl, sym, ap, ◌∙◌, ◌⊎◌, inl, inr, List, [], ◌∷◌, ◌++◌, length,
  length-append, map, All, true, false, Bool-cases, ltb, leb, Result, ok, err, arith,
}
use iot_athome.WakeVad.{Floats, AudioFrame}
use iot_athome.Pipeline.{
  max_utterance_frames, silence_tail_frames, PipelineError, is_silent, next_run, truncate, trimmed,
  Source, capture, capture_utterance,
}

truncate-append {ℓ} : {A : Type ℓ} (xs ys : List A) → truncate (length xs) (xs ++ ys) ≡ xs
unfolding truncate
truncate-append [] [] = refl
truncate-append [] (y ∷ ys) = refl
truncate-append (x ∷ xs) ys = ap (◌∷◌ x) (truncate-append xs ys)

module _ {fl : Floats} where
  -- The last frame, if there is one, is not silent.
  pub EndsLoud : List (AudioFrame fl) → Type 0
  EndsLoud [] = Unit
  EndsLoud (f ∷ []) = is_silent f ≡ false
  EndsLoud (f ∷ g ∷ fs) = EndsLoud (g ∷ fs)

  -- The frames so far are loud at their end up to a tail of `run` silent ones.
  record Tail (frames : List (AudioFrame fl)) (run : ℕ) : Type 0 where
    body : List (AudioFrame fl)
    tail : List (AudioFrame fl)
    parts : frames ≡ body ++ tail
    size : length tail ≡ run
    silent : All (λ f. is_silent f ≡ true) tail
    loud : EndsLoud body

  EndsLoud-append :
      (fs : List (AudioFrame fl)) (f : AudioFrame fl)
      → is_silent f ≡ false
      → EndsLoud (fs ++ f ∷ [])
  unfolding EndsLoud
  EndsLoud-append [] f h = h
  EndsLoud-append (g ∷ []) f h = h
  EndsLoud-append (g ∷ e ∷ fs) f h = EndsLoud-append (e ∷ fs) f h

  All-snoc :
      (P : AudioFrame fl → Type 0) (xs : List (AudioFrame fl)) (x : AudioFrame fl)
      → All P xs
      → P x
      → All P (xs ++ x ∷ [])
  All-snoc P [] x h p = (p, tt)
  All-snoc P (y ∷ xs) x h p = (h.0, All-snoc P xs x h.1 p)

  next-Tail :
      (frames : List (AudioFrame fl)) (run : ℕ) (f : AudioFrame fl)
      → Tail frames run
      → Tail (frames ++ f ∷ []) (next_run run f)
  next-Tail frames run f t = elim (Bool-cases (is_silent f)) [
    | inl e ↦ rw e (record {
      body = t.body;
      tail = t.tail ++ f ∷ [];
      parts = ap (λ fs. fs ++ f ∷ []) t.parts ∙ append_assoc t.body t.tail (f ∷ []);
      size = length-append t.tail (f ∷ []) ∙ ap (λ n. n + 1) t.size;
      silent = All-snoc _ t.tail f t.silent e;
      loud = t.loud;
    })
    | inr e ↦ rw e (record {
      body = frames ++ f ∷ [];
      tail = [];
      parts = sym (append-nil (frames ++ f ∷ []));
      size = refl;
      silent = tt;
      loud = EndsLoud-append frames f e;
    })
  ]

  trimmed-Tail :
      (frames : List (AudioFrame fl)) (run : ℕ) (t : Tail frames run) → trimmed frames run ≡ t.body
  trimmed-Tail frames run t =
      let cut : length frames - run ≡ length t.body =
        omega (arith, ap length t.parts, length-append t.body t.tail, t.size) in
      ap (λ n. truncate n frames) cut
      ∙ ap (truncate (length t.body)) t.parts
      ∙ truncate-append t.body t.tail

  -- How an utterance ends: after a whole tail of silence, which is cut off, or without one at the end of
  -- the source or at the cap.
  pub Ended : List (AudioFrame fl) → List (AudioFrame fl) → Source fl → Type 0
  Ended l cut rest =
      (EndsLoud l × (length cut ≡ silence_tail_frames) × All (λ f. is_silent f ≡ true) cut)
      ⊎ ((cut ≡ []) × ((rest ≡ []) ⊎ (length l ≡ max_utterance_frames)))

  -- The frames before the call and those that it takes from the source are the utterance and what is cut.
  pub record Captured (frames : List (AudioFrame fl)) (source rest : Source fl)
      (l : List (AudioFrame fl)) : Type 0 where
    pub taken : List (AudioFrame fl)
    pub cut : List (AudioFrame fl)
    pub from_source : source ≡ map ok taken ++ rest
    pub split_up : frames ++ taken ≡ l ++ cut
    pub size : length l + length cut ≤ max_utterance_frames
    pub ended : Ended l cut rest

  keep_all :
      (frames : List (AudioFrame fl)) (source : Source fl)
      → length frames ≤ max_utterance_frames
      → (source ≡ []) ⊎ (length frames ≡ max_utterance_frames)
      → Captured frames source source frames
  unfolding Ended
  keep_all frames source h why = record {
    taken = [];
    cut = [];
    from_source = refl;
    split_up = refl;
    size = omega (arith, h);
    ended = inr (refl, why);
  }

  one_more :
      (frames l : List (AudioFrame fl)) (f : AudioFrame fl) (source rest : Source fl)
      → Captured (frames ++ f ∷ []) source rest l
      → Captured frames (ok f ∷ source) rest l
  one_more frames l f source rest c = record {
    taken = f ∷ c.taken;
    cut = c.cut;
    from_source = ap (◌∷◌ (ok f)) c.from_source;
    split_up = sym (append_assoc frames (f ∷ []) c.taken) ∙ c.split_up;
    size = c.size;
    ended = c.ended;
  }

  same_frames :
      (a b : List (AudioFrame fl)) (r : Result PipelineError (List (AudioFrame fl)))
      → r ≡ ok a
      → r ≡ ok b
      → a ≡ b
  same_frames a b r h k = cc (sym h ∙ k)

  moved :
      (frames l m : List (AudioFrame fl)) (source rest last : Source fl)
      (r : Source fl × Result PipelineError (List (AudioFrame fl)))
      → r ≡ (rest, ok l)
      → r ≡ (last, ok m)
      → Captured frames source rest l
      → Captured frames source last m
  moved frames l m source rest last r h k c =
      subst (λ x. Captured frames source x m) (sym (ap (λ p. p.0) h) ∙ ap (λ p. p.0) k)
        (subst (Captured frames source rest)
          (same_frames l m r.1 (ap (λ p. p.1) h) (ap (λ p. p.1) k)) c)

  trimmed-Captured :
      (frames : List (AudioFrame fl)) (f : AudioFrame fl) (n : ℕ) (source : Source fl)
      → Tail (frames ++ f ∷ []) n
      → n ≡ silence_tail_frames
      → length frames < max_utterance_frames
      → Captured frames (ok f ∷ source) source (trimmed (frames ++ f ∷ []) n)
  unfolding Ended
  trimmed-Captured frames f n source t whole cap =
      rw (trimmed-Tail (frames ++ f ∷ []) n t) (record {
        taken = f ∷ [];
        cut = t.tail;
        from_source = refl;
        split_up = t.parts;
        size = omega (
          arith,
          ap length t.parts,
          length-append t.body t.tail,
          length-append frames (f ∷ []),
          cap,
        );
        ended = inl (t.loud, t.size ∙ whole, t.silent);
      })

  capture_lem :
      (frames : List (AudioFrame fl)) (n : ℕ) (source rest : Source fl) (l : List (AudioFrame fl))
      → Tail frames n
      → n < silence_tail_frames
      → length frames ≤ max_utterance_frames
      → capture frames n source ≡ (rest, ok l)
      → Captured frames source rest l
  unfolding capture
  capture_lem frames n [] rest l t small cap h =
      moved frames frames l [] [] rest _ refl h (keep_all frames [] cap (inl refl))
  capture_lem frames n (err e ∷ source) rest l t small cap h =
      elim (Bool-cases (ltb (length frames) max_utterance_frames)) [
        | inl more ↦ absurd (ground (arith, h, more))
        | inr full ↦
            moved frames frames l (err e ∷ source) (err e ∷ source) rest _ (rw full refl) h
              (keep_all frames (err e ∷ source) cap (inr (ground (arith, cap, full))))
      ]
  capture_lem frames n (ok f ∷ source) rest l t small cap h =
      let next = next-Tail frames n f t in
      elim (Bool-cases (ltb (length frames) max_utterance_frames)) [
        | inr full ↦
            moved frames frames l (ok f ∷ source) (ok f ∷ source) rest _ (rw full refl) h
              (keep_all frames (ok f ∷ source) cap (inr (ground (arith, cap, full))))
        | inl more ↦ elim (Bool-cases (leb silence_tail_frames (next_run n f))) [
          | inl done ↦ moved frames _ l (ok f ∷ source) source rest _ (rw (more, done) refl) h (
              trimmed-Captured frames f (next_run n f) source next (ground (arith, small, done))
                (ground (arith, more)))
          | inr on ↦
              let shorter : length frames < max_utterance_frames = ground (arith, more) in
              one_more frames l f source rest (
                capture_lem (frames ++ f ∷ []) (next_run n f) source rest l next
                  (ground (arith, on)) (omega (arith, length-append frames (f ∷ []), shorter))
                  (sym (rw (more, on) refl) ∙ h))
        ]
      ]

  -- An utterance that the source delivers without an error is the frames after the wake word, at most
  -- 250 with what is cut, and ends in one of three ways: after 12 silent frames, which are cut off so that
  -- its last frame is not silent, or without any cut at the end of the source or at the cap.
  pub capture_utterance-Captured :
      (source rest : Source fl) (l : List (AudioFrame fl))
      → capture_utterance source ≡ (rest, ok l)
      → Captured [] source rest l
  unfolding capture_utterance
  capture_utterance-Captured source rest l h =
      capture_lem [] 0 source rest l
        (record {
          body = [];
          tail = [];
          parts = refl;
          size = refl;
          silent = tt;
          loud = unfold EndsLoud in tt;
        })
        (omega arith) (omega arith) h
