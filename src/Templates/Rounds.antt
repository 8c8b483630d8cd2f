-- ===== src/Templates/Rounds.antt =====
-- When the rounds of `render_template` come to an end, and when they do not.
use iot_athome.Prelude.{
  strip_prefix, strip_prefix→append, ℕ, zero, suc, ◌+◌, ◌<◌, ◌≡◌, refl, ap, sym, inl, inr, [], ◌∷◌,
  ◌++◌, Bool, true, some, none, Option-cases, Text, codes, ◌==◌, if◌then◌else◌, lacks, all, arith,
}
use iot_athome.Json.{Json}
use iot_athome.Templates.{
  find_pattern, replace_from, opening, closing, replacement, render_round, render_loop,
  render_template,
}

-- The number of opening braces.
unfoldable pub braces : Text → ℕ
braces [] = 0
braces (c ∷ s) = if c == b'{' then suc (braces s) else braces s

braces-append : (s t : Text) → braces (s ++ t) ≡ braces s + braces t
unfolding braces
braces-append [] t = omega arith
braces-append (c ∷ s) t = ground (arith, braces-append s t)

braces_none : (s : Text) → lacks b'{' s ≡ true → braces s ≡ 0
unfolding braces lacks all
braces_none [] h = refl
braces_none (c ∷ s) h = ground (arith, braces_none s)

append_assoc : (a b c : Text) → (a ++ b) ++ c ≡ a ++ (b ++ c)
append_assoc [] b c = refl
append_assoc (x ∷ a) b c = ap (◌∷◌ x) (append_assoc a b c)

find_pattern→append :
    (p s before rest : Text) → find_pattern p s ≡ some (before, rest) → s ≡ before ++ (p ++ rest)
unfolding find_pattern
find_pattern→append p [] before rest h = cc
find_pattern→append p (c ∷ s) before rest h = elim (Option-cases (strip_prefix p (c ∷ s))) [
  | inr (r, here) ↦ ground (arith, h, here, strip_prefix→append p (c ∷ s) r here)
  | inl on ↦ elim (Option-cases (find_pattern p s)) [
    | inl nowhere ↦ ground (arith, h, on, nowhere)
    | inr ((b, r), later) ↦ ground (arith, h, on, later, find_pattern→append p s b r later)
  ]
]

module _ {N : Type 0} (to_string : Json N → Text) (payload : Json N) where
  -- No placeholder brings an opening brace in.
  abbrev pub BracesFall : Type 0
  BracesFall = (path : Text) → lacks b'{' (replacement to_string payload path) ≡ true

  round_falls :
      (out out' : Text)
      → BracesFall
      → render_round to_string payload out ≡ some out'
      → braces out' < braces out
  unfolding render_round braces
  round_falls out out' falls h = elim (Option-cases (find_pattern opening out)) [
    | inl nowhere ↦ ground (arith, h, nowhere)
    | inr ((before, rest), found) ↦ elim (Option-cases (find_pattern closing rest)) [
      | inl open_ ↦ ground (arith, h, found, open_)
      | inr ((path, after), closed) ↦
          let whole = find_pattern→append opening out before rest found in
          let parts = find_pattern→append closing rest path after closed in
          let e : before ++ (replacement to_string payload path ++ after) ≡ out' =
            ground (arith, h, found, closed) in
          let none_in = braces_none (replacement to_string payload path) (falls path) in
          rw (sym e) (
            rw whole (
              rw parts (
                omega (
                  arith,
                  none_in,
                  braces-append before (replacement to_string payload path ++ after),
                  braces-append (replacement to_string payload path) after,
                  braces-append before (opening ++ (path ++ (closing ++ after))),
                  braces-append path (closing ++ after),
                ))))
    ]
  ]

  loop_ends :
      (fuel : ℕ) (out : Text)
      → BracesFall
      → braces out < fuel
      → (s : Text) × (render_loop to_string payload fuel out ≡ some s)
        × (render_round to_string payload s ≡ none)
  unfolding render_loop
  loop_ends zero out falls h = ground (arith, h)
  loop_ends (suc fuel) out falls h = elim (Option-cases (render_round to_string payload out)) [
    | inl ended ↦ (out, rw (render_loop, ended) refl, ended)
    | inr (out', next) ↦
        let small = round_falls out out' falls next in
        let (s, runs, stops) = loop_ends fuel out' falls (omega arith) in
        (s, rw (render_loop, next) runs, stops)
  ]

  -- If nothing that a placeholder stands for contains an opening brace, the loop ends: one round
  -- more than the message has opening braces is enough, and in the result no placeholder is left that
  -- a further round would replace.
  pub render_template_ends :
      (fuel : ℕ) (tpl trigger : Text)
      → BracesFall
      → braces (replace_from 0 (codes "{{trigger}}") trigger tpl) < fuel
      → (s : Text) × (render_template to_string payload fuel tpl trigger ≡ some s)
        × (render_round to_string payload s ≡ none)
  unfolding render_template
  render_template_ends fuel tpl trigger falls h =
      loop_ends fuel (replace_from 0 (codes "{{trigger}}") trigger tpl) falls h

-- A text of quotation marks.
abbrev quotes : Text → Bool
quotes = all (λ c. c == b'"')

abbrev pub placeholder : Text → Text → Text
placeholder path after = opening ++ (path ++ (closing ++ after))

quotes_snoc : (b : Text) → quotes b ≡ true → quotes (b ++ b'"' ∷ []) ≡ true
unfolding all
quotes_snoc [] h = refl
quotes_snoc (c ∷ b) h = ground (arith, quotes_snoc b)

find_opening :
    (b path s : Text)
    → quotes b ≡ true
    → find_pattern opening (b ++ placeholder path s) ≡ some (b, path ++ (closing ++ s))
unfolding find_pattern strip_prefix all
find_opening [] path s h = refl
find_opening (c ∷ b) path s h = ground (arith, find_opening b path s)

find_closing :
    (path s : Text)
    → lacks b'}' path ≡ true
    → find_pattern closing (path ++ (closing ++ s)) ≡ some (path, s)
unfolding find_pattern strip_prefix lacks all
find_closing [] s h = refl
find_closing (c ∷ path) s h = ground (arith, find_closing path s)

module _ {N : Type 0} (to_string : Json N → Text) (payload : Json N) where
  quoted_round :
      (b path s : Text)
      → quotes b ≡ true
      → lacks b'}' path ≡ true
      → replacement to_string payload path ≡ b'"' ∷ placeholder path (b'"' ∷ [])
      → render_round to_string payload (b ++ placeholder path s)
        ≡ some ((b ++ b'"' ∷ []) ++ placeholder path (b'"' ∷ s))
  unfolding render_round
  quoted_round b path s hb hp r = ground (
    arith,
    find_opening b path s hb,
    find_closing path s hp,
    r,
    append_assoc b (b'"' ∷ []) (placeholder path (b'"' ∷ s)),
    append_assoc path (closing ++ b'"' ∷ []) s,
  )

  runs_on :
      (fuel : ℕ) (b path s : Text)
      → quotes b ≡ true
      → lacks b'}' path ≡ true
      → replacement to_string payload path ≡ b'"' ∷ placeholder path (b'"' ∷ [])
      → render_loop to_string payload fuel (b ++ placeholder path s) ≡ none
  unfolding render_loop
  runs_on zero b path s hb hp r = refl
  runs_on (suc fuel) b path s hb hp r =
      rw (render_loop, quoted_round b path s hb hp r)
        (runs_on fuel (b ++ b'"' ∷ []) path (b'"' ∷ s) (quotes_snoc b hb) hp r)

  -- If the text at a path of the payload is that path's own placeholder, between the quotation marks
  -- that JSON gives a string, a message that starts with the placeholder and has no trigger to
  -- substitute is never rendered: the loop is still running however many rounds it is given.
  pub render_template_hangs :
      (fuel : ℕ) (path trigger tail : Text)
      → lacks b'}' path ≡ true
      → replace_from 0 (codes "{{trigger}}") trigger (placeholder path tail) ≡ placeholder path tail
      → replacement to_string payload path ≡ b'"' ∷ placeholder path (b'"' ∷ [])
      → render_template to_string payload fuel (placeholder path tail) trigger ≡ none
  unfolding render_template all
  render_template_hangs fuel path trigger tail hp ht r = rw ht (runs_on fuel [] path tail refl hp r)
