-- ===== src/Intents/Normal.antt =====
-- What the normal form of a text is: the forms of politeness at its start, and its words.
use mathlib.Core.List.{append-nil, append_assoc}
use mathlib.Core.Path.{subst}
use iot_athome.Prelude.{
  ℕ, zero, suc, ◌-◌, ◌≤◌, ◌≡◌, refl, sym, ap, ◌∙◌, List, [], ◌∷◌, ◌++◌, true, false, not, inl, inr,
  Bool-cases, Text, codes, starts_with, starts_with→append, is_space, spaceless, is_empty, all,
  all-append, length, length-append, trim, join, arith,
}
use iot_athome.Intents.{skip_matches, trim_start_matches, words_from, flushed, normalise}

abbrev repeated : ℕ → Text → Text
repeated zero p = []
repeated (suc k) p = p ++ repeated k p

-- `t` is `s` without the occurrences of `p` at its start.
pub record Stripped (p s t : Text) : Type 0 where
  pub times : ℕ
  pub parts : s ≡ repeated times p ++ t
  pub rest : starts_with p t ≡ false

-- The words of a text, in order: maximal runs without white space.
pub data Words : Text → List Text → Type 0 where
  done : Words [] []
  space : (c : ℕ) (s : Text) (ws : List Text) → is_space c ≡ true → Words s ws → Words (c ∷ s) ws
  last : (w : Text) → is_empty w ≡ false → spaceless w ≡ true → Words w (w ∷ [])
  word :
      (w : Text) (c : ℕ) (s : Text) (ws : List Text)
      → is_empty w ≡ false
      → spaceless w ≡ true
      → is_space c ≡ true
      → Words s ws
      → Words (w ++ c ∷ s) (w ∷ ws)

-- The lower-case text is trimmed, loses the four forms of politeness one after the other, and its words
-- are joined by single blanks.
pub record Normal (to_lowercase : Text → Text) (text n : Text) : Type 0 where
  pub no_please : Text
  pub no_could : Text
  pub no_can : Text
  pub no_would : Text
  pub words : List Text
  pub please : Stripped (codes "please ") (trim (to_lowercase text)) no_please
  pub could_you : Stripped (codes "could you ") no_please no_could
  pub can_you : Stripped (codes "can you ") no_could no_can
  pub would_you : Stripped (codes "would you ") no_can no_would
  pub split_up : Words no_would words
  pub joined : n ≡ join b' ' words

skip_matches-append : (p u s : Text) → skip_matches (length u) p (u ++ s) ≡ skip_matches 0 p s
unfolding skip_matches
skip_matches-append p [] s = refl
skip_matches-append p (c ∷ u) s = skip_matches-append p u s

same_tail : {c d : ℕ} {s t : Text} → ◌≡◌ {A = Text} (c ∷ s) (d ∷ t) → s ≡ t
same_tail h = cc h

strip-Stripped :
    (d : ℕ) (q : Text) (n : ℕ) (s : Text)
    → length s ≤ n
    → Stripped (d ∷ q) s (trim_start_matches (d ∷ q) s)
unfolding skip_matches starts_with
strip-Stripped d q n [] h = record { times = 0; parts = refl; rest = refl }
strip-Stripped d q zero (c ∷ s) h = absurd (omega (arith, h))
strip-Stripped d q (suc n) (c ∷ s) h = elim (Bool-cases (starts_with (d ∷ q) (c ∷ s))) [
  | inr no_match ↦ rw no_match (record { times = 0; parts = refl; rest = no_match })
  | inl here ↦
      let (r, e) = starts_with→append (d ∷ q) (c ∷ s) here in
      let tail = same_tail e in
      let fewer : length r ≤ n = omega (arith, ap length e, length-append q r, h) in
      let rest = strip-Stripped d q n r fewer in
      let one_less : suc (length q) - 1 ≡ length q = omega arith in
      let passed : skip_matches 0 (d ∷ q) (c ∷ s) ≡ skip_matches 0 (d ∷ q) r = rw here (
        ap (λ k. skip_matches k (d ∷ q) s) one_less
        ∙ ap (skip_matches (length q) (d ∷ q)) tail
        ∙ skip_matches-append (d ∷ q) q r) in
      subst (Stripped (d ∷ q) (c ∷ s)) (sym passed) (record {
        times = suc rest.times;
        parts =
            e
            ∙ ap (λ x. (d ∷ q) ++ x) rest.parts
            ∙ sym (append_assoc (d ∷ q) (repeated rest.times (d ∷ q)) (skip_matches 0 (d ∷ q) r));
        rest = rest.rest;
      })
]

flushed-Words :
    (w : Text) (c : ℕ) (s : Text) (ws : List Text)
    → spaceless w ≡ true
    → is_space c ≡ true
    → Words s ws
    → Words (w ++ c ∷ s) (flushed w ws)
flushed-Words [] c s ws full blank v = space c s ws blank v
flushed-Words (d ∷ w) c s ws full blank v = word (d ∷ w) c s ws refl full blank v

words_from-Words : (w s : Text) → spaceless w ≡ true → Words (w ++ s) (words_from w s)
unfolding words_from all
words_from-Words [] [] full = done
words_from-Words (d ∷ w) [] full =
    subst (λ x. Words x ((d ∷ w) ∷ [])) (sym (append-nil (d ∷ w))) (last (d ∷ w) refl full)
words_from-Words w (c ∷ s) full = elim (Bool-cases (is_space c)) [
  | inl blank ↦
      rw blank (flushed-Words w c s (words_from [] s) full blank (words_from-Words [] s refl))
  | inr letter ↦
      let longer : spaceless (w ++ c ∷ []) ≡ true =
        all-append (λ x. not (is_space x)) w (c ∷ []) ∙ rw (full, letter) refl in
      rw letter (
        subst (λ x. Words x (words_from (w ++ c ∷ []) s)) (append_assoc w (c ∷ []) s)
          (words_from-Words (w ++ c ∷ []) s longer))
]

trim_start_matches-Stripped :
    (d : ℕ) (q s : Text) → Stripped (d ∷ q) s (trim_start_matches (d ∷ q) s)
trim_start_matches-Stripped d q s = strip-Stripped d q (length s) s (omega arith)

pub normalise-Normal :
    (to_lowercase : Text → Text) (text : Text)
    → Normal to_lowercase text (normalise to_lowercase text)
unfolding normalise all
normalise-Normal to_lowercase text = record {
  no_please = _;
  no_could = _;
  no_can = _;
  no_would = _;
  words = _;
  please = trim_start_matches-Stripped b'p' (codes "lease ") (trim (to_lowercase text));
  could_you = trim_start_matches-Stripped b'c' (codes "ould you ") _;
  can_you = trim_start_matches-Stripped b'c' (codes "an you ") _;
  would_you = trim_start_matches-Stripped b'w' (codes "ould you ") _;
  split_up = words_from-Words [] _ refl;
  joined = refl;
}
