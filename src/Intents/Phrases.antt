-- ===== src/Intents/Phrases.antt =====
-- Which phrases are understood.
use iot_athome.Intents.Grammar.{
  state_word, plural, WithThe, Asks, light_the, light, scene_the, scene, scene_set, sensor, cancel,
}
use iot_athome.Intents.Ends.{strip_prefix_suffix→append, strip_prefix_suffix-append}
use mathlib.Core.List.{append-nil}
use mathlib.Core.Path.{subst}
use iot_athome.Prelude.{
  codes, ◌≡◌, refl, sym, ap, ◌∙◌, ◌⊎◌, inl, inr, List, [], ◌∷◌, ◌++◌, Bool, true, false, Bool-cases,
  Option, Option-cases, some, none, Text, text_eq, text_eq→eq, trim, ok, err,
}
use iot_athome.WakeVad.{Floats}
use iot_athome.Pipeline.{Intent, no_match}
use iot_athome.Intents.Normal.{Normal, normalise-Normal}
use iot_athome.Intents.{
  strip_prefix_suffix, normalise, Pattern, patterns, cancels, intent, cancel_intent, match_patterns,
  match_phrase, or_no_match, parse,
}

module _ (fl : Floats) where
  -- The text is a target between the pattern's ends.
  abbrev Fits : Text → Pattern → Type 0
  Fits n p = (inner : Text) × (n ≡ p.prefix ++ (inner ++ p.suffix))

  -- The intent of the first pattern that fits, or of a word that cancels.
  abbrev Means : List Pattern → Text → Text → Intent fl → Type 0
  Means [] n raw i = (cancels n ≡ true) × (i ≡ cancel_intent fl raw)
  Means (p ∷ ps) n raw i =
      ((inner : Text) × (n ≡ p.prefix ++ (inner ++ p.suffix))
        × (i ≡ intent fl p.domain p.verb (trim inner) raw))
      ⊎ ((Fits n p → ⊥) × Means ps n raw i)

  -- No pattern fits, and the text does not cancel.
  abbrev Silent : List Pattern → Text → Type 0
  Silent [] n = cancels n ≡ false
  Silent (p ∷ ps) n = (Fits n p → ⊥) × Silent ps n

  Decided : List Pattern → Text → Text → Option (Intent fl) → Type 0
  Decided ps n raw o =
      ((i : Intent fl) × (o ≡ some i) × Means ps n raw i) ⊎ ((o ≡ none) × Silent ps n)

  misses : (n : Text) (p : Pattern) → strip_prefix_suffix n p.prefix p.suffix ≡ none → Fits n p → ⊥
  misses n p miss (inner, e) =
      let (t, hit) = strip_prefix_suffix-append p.prefix inner p.suffix in
      let clash : ◌≡◌ {A = Option Text} none (some t) =
        sym miss ∙ ap (λ x. strip_prefix_suffix x p.prefix p.suffix) e ∙ hit in
      cc clash

  match_patterns-Decided :
      (n raw : Text) (ps : List Pattern) → Decided ps n raw (match_patterns fl n raw ps)
  unfolding match_patterns Decided
  match_patterns-Decided n raw [] = elim (Bool-cases (cancels n)) [
    | inl e ↦ rw e (inl (cancel_intent fl raw, refl, (refl, refl)))
    | inr e ↦ rw e (inr (refl, refl))
  ]
  match_patterns-Decided n raw (p ∷ ps) =
      elim (Option-cases (strip_prefix_suffix n p.prefix p.suffix)) [
        | inl miss ↦ rw miss (elim (match_patterns-Decided n raw ps) [
          | inl (i, e, means) ↦ inl (i, e, inr (misses n p miss, means))
          | inr (e, silent) ↦ inr (e, (misses n p miss, silent))
        ])
        | inr (t, hit) ↦
            let (inner, parts, same) = strip_prefix_suffix→append n p.prefix p.suffix t hit in
            rw hit
              (inl (_, refl, inl (inner, parts, ap (λ x. intent fl p.domain p.verb x raw) same)))
      ]

  cancel_word :
      (n : Text)
      → cancels n ≡ true
      → (n ≡ codes "stop") ⊎ (n ≡ codes "cancel") ⊎ (n ≡ codes "never mind")
  unfolding cancels
  cancel_word n h = elim (Bool-cases (text_eq n (codes "stop"))) [
    | inl e ↦ inl (text_eq→eq n _ e)
    | inr a ↦ elim (Bool-cases (text_eq n (codes "cancel"))) [
      | inl e ↦ inr (inl (text_eq→eq n _ e))
      | inr b ↦ inr (inr (text_eq→eq n _ (sym (rw (a, b) refl) ∙ h)))
    ]
  ]

  -- Neither of the two numbers.
  either_way : (P : Bool → Type 0) → (P false → ⊥) → (P true → ⊥) → (b : Bool) → P b → ⊥
  either_way P f t false = f
  either_way P f t true = t

  Means-Asks : (n raw : Text) (i : Intent fl) → Means patterns n raw i → Asks fl n raw i
  unfolding patterns WithThe
  Means-Asks n raw i (inl (x, e, is)) = subst (Asks fl n raw) (sym is) (light_the true false x e)
  Means-Asks n raw i (inr (m0, inl (x, e, is))) =
      subst (Asks fl n raw) (sym is) (light_the true true x e)
  Means-Asks n raw i (inr (m0, inr (m1, inl (x, e, is)))) = subst (Asks fl n raw) (sym is) (
      light true false x
        (either_way (λ b. WithThe (codes "turn " ++ state_word true) (codes " light" ++ plural b) n)
          m0 m1)
        e)
  Means-Asks n raw i (inr (m0, inr (m1, inr (m2, inl (x, e, is))))) =
      subst (Asks fl n raw) (sym is) (
        light true true x
          (either_way
            (λ b. WithThe (codes "turn " ++ state_word true) (codes " light" ++ plural b) n) m0 m1)
          e)
  Means-Asks n raw i (inr (m0, inr (m1, inr (m2, inr (m3, inl (x, e, is)))))) =
      subst (Asks fl n raw) (sym is) (light_the false false x e)
  Means-Asks n raw i (inr (m0, inr (m1, inr (m2, inr (m3, inr (m4, inl (x, e, is))))))) =
      subst (Asks fl n raw) (sym is) (light_the false true x e)
  Means-Asks n raw i (inr (m0, inr (m1, inr (m2, inr (m3, inr (m4, inr (m5, inl (x, e, is)))))))) =
      subst (Asks fl n raw) (sym is) (
        light false false x
          (either_way
            (λ b. WithThe (codes "turn " ++ state_word false) (codes " light" ++ plural b) n) m4 m5)
          e)
  Means-Asks n raw i
        (inr (m0, inr (m1, inr (m2, inr (m3, inr (m4, inr (m5, inr (m6, inl (x, e, is))))))))) =
      subst (Asks fl n raw) (sym is) (
        light false true x
          (either_way
            (λ b. WithThe (codes "turn " ++ state_word false) (codes " light" ++ plural b) n) m4 m5)
          e)
  Means-Asks n raw i
        (inr (
          m0,
          inr (m1, inr (m2, inr (m3, inr (m4, inr (m5, inr (m6, inr (m7, inl (x, e, is)))))))),
        )) =
      subst (Asks fl n raw) (sym is) (scene_the x e)
  Means-Asks n raw i
        (inr (
          m0,
          inr (
            m1,
            inr (m2, inr (m3, inr (m4, inr (m5, inr (m6, inr (m7, inr (m8, inl (x, e, is)))))))),
          ),
        )) =
      subst (Asks fl n raw) (sym is) (scene x m8 e)
  Means-Asks n raw i
        (inr (
          m0,
          inr (
            m1,
            inr (
              m2,
              inr (m3, inr (m4, inr (m5, inr (m6, inr (m7, inr (m8, inr (m9, inl (x, e, is)))))))),
            ),
          ),
        )) =
      subst (Asks fl n raw) (sym is)
        (scene_set x (e ∙ ap (λ t. codes "set the scene to " ++ t) (append-nil x)))
  Means-Asks n raw i
        (inr (
          m0,
          inr (
            m1,
            inr (
              m2,
              inr (
                m3,
                inr (
                  m4,
                  inr (m5, inr (m6, inr (m7, inr (m8, inr (m9, inr (m10, inl (x, e, is))))))),
                ),
              ),
            ),
          ),
        )) =
      subst (Asks fl n raw) (sym is) (
        sensor (codes "what is the ") x (inl refl)
          (e ∙ ap (λ t. codes "what is the " ++ t) (append-nil x)))
  Means-Asks n raw i
        (inr (
          m0,
          inr (
            m1,
            inr (
              m2,
              inr (
                m3,
                inr (
                  m4,
                  inr (
                    m5,
                    inr (m6, inr (m7, inr (m8, inr (m9, inr (m10, inr (m11, inl (x, e, is))))))),
                  ),
                ),
              ),
            ),
          ),
        )) =
      subst (Asks fl n raw) (sym is) (
        sensor (codes "what's the ") x (inr (inl refl))
          (e ∙ ap (λ t. codes "what's the " ++ t) (append-nil x)))
  Means-Asks n raw i
        (inr (
          m0,
          inr (
            m1,
            inr (
              m2,
              inr (
                m3,
                inr (
                  m4,
                  inr (
                    m5,
                    inr (
                      m6,
                      inr (m7, inr (m8, inr (m9, inr (m10, inr (m11, inr (m12, inl (x, e, is))))))),
                    ),
                  ),
                ),
              ),
            ),
          ),
        )) =
      subst (Asks fl n raw) (sym is) (
        sensor (codes "tell me the ") x (inr (inr refl))
          (e ∙ ap (λ t. codes "tell me the " ++ t) (append-nil x)))
  Means-Asks n raw i
        (inr (
          m0,
          inr (
            m1,
            inr (
              m2,
              inr (
                m3,
                inr (
                  m4,
                  inr (
                    m5,
                    inr (
                      m6,
                      inr (
                        m7,
                        inr (m8, inr (m9, inr (m10, inr (m11, inr (m12, inr (m13, (stop, is))))))),
                      ),
                    ),
                  ),
                ),
              ),
            ),
          ),
        )) =
      subst (Asks fl n raw) (sym is) (cancel (cancel_word n stop))

  cancel_said :
      (n : Text)
      → (n ≡ codes "stop") ⊎ (n ≡ codes "cancel") ⊎ (n ≡ codes "never mind")
      → cancels n ≡ true
  unfolding cancels text_eq
  cancel_said n (inl e) = rw e refl
  cancel_said n (inr (inl e)) = rw e refl
  cancel_said n (inr (inr e)) = rw e refl

  Silent-Asks : (n raw : Text) (i : Intent fl) → Silent patterns n → Asks fl n raw i → ⊥
  unfolding patterns
  Silent-Asks n raw i s (light_the true false x e) = s.0 (x, e)
  Silent-Asks n raw i s (light_the true true x e) = s.1.0 (x, e)
  Silent-Asks n raw i s (light_the false false x e) = s.1.1.1.1.0 (x, e)
  Silent-Asks n raw i s (light_the false true x e) = s.1.1.1.1.1.0 (x, e)
  Silent-Asks n raw i s (light true false x no_the e) = s.1.1.0 (x, e)
  Silent-Asks n raw i s (light true true x no_the e) = s.1.1.1.0 (x, e)
  Silent-Asks n raw i s (light false false x no_the e) = s.1.1.1.1.1.1.0 (x, e)
  Silent-Asks n raw i s (light false true x no_the e) = s.1.1.1.1.1.1.1.0 (x, e)
  Silent-Asks n raw i s (scene_the x e) = s.1.1.1.1.1.1.1.1.0 (x, e)
  Silent-Asks n raw i s (scene x no_the e) = s.1.1.1.1.1.1.1.1.1.0 (x, e)
  Silent-Asks n raw i s (scene_set x e) =
      s.1.1.1.1.1.1.1.1.1.1.0 (x, e ∙ ap (λ t. codes "set the scene to " ++ t) (sym (append-nil x)))
  Silent-Asks n raw i s (sensor lead x (inl is) e) =
      s.1.1.1.1.1.1.1.1.1.1.1.0
        (x, e ∙ ap (λ l. l ++ x) is ∙ ap (λ t. codes "what is the " ++ t) (sym (append-nil x)))
  Silent-Asks n raw i s (sensor lead x (inr (inl is)) e) =
      s.1.1.1.1.1.1.1.1.1.1.1.1.0
        (x, e ∙ ap (λ l. l ++ x) is ∙ ap (λ t. codes "what's the " ++ t) (sym (append-nil x)))
  Silent-Asks n raw i s (sensor lead x (inr (inr is)) e) =
      s.1.1.1.1.1.1.1.1.1.1.1.1.1.0
        (x, e ∙ ap (λ l. l ++ x) is ∙ ap (λ t. codes "tell me the " ++ t) (sym (append-nil x)))
  Silent-Asks n raw i s (cancel said) =
      let clash : ◌≡◌ {A = Bool} true false =
        sym (cancel_said n said) ∙ s.1.1.1.1.1.1.1.1.1.1.1.1.1.1 in
      cc clash

  -- The parser decides the grammar. A text has the normal form `n`: lower case, trimmed, without `please`,
  -- `could you`, `can you` and `would you` at its start (in this order), with single blanks between its
  -- words. If `n` asks for something, the answer is an intent that it asks for, with the trimmed target
  -- and the text as it was heard; if it asks for nothing, the answer is that nothing matched this text.
  pub parse_decides :
      (to_lowercase : Text → Text) (text : Text)
      → (n : Text) × Normal to_lowercase text n
        × (((i : Intent fl) × (parse fl to_lowercase text ≡ ok i) × Asks fl n text i)
            ⊎ ((parse fl to_lowercase text ≡ err (no_match text))
                × ¬ ((i : Intent fl) × Asks fl n text i)))
  unfolding parse match_phrase Decided
  parse_decides to_lowercase text =
      let n = normalise to_lowercase text in
      (
        n,
        normalise-Normal to_lowercase text,
        elim (match_patterns-Decided n text patterns) [
          | inl (i, e, means) ↦ inl (i, ap (or_no_match fl text) e, Means-Asks n text i means)
          | inr (e, silent) ↦
              inr (ap (or_no_match fl text) e, λ x. Silent-Asks n text x.0 silent x.1)
        ],
      )
