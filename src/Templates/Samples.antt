-- ===== src/Templates/Samples.antt =====
-- Log messages at concrete payloads.
use iot_athome.Prelude.{
  strip_prefix, ℕ, ◌≡◌, refl, List, [], ◌∷◌, ◌++◌, true, false, some, none, Text, codes, text_eq,
  split, starts_with, lacks, all, arith,
}
use iot_athome.Json.{Json, bool, string, object, no_field, field, follow, get_field}
use iot_athome.Templates.{
  find_pattern, replace_from, shown, replacement, render_round, render_loop, render_template,
}
use iot_athome.Templates.Rounds.{braces, render_template_ends, render_template_hangs, placeholder}

-- The text of booleans and plain strings.
abbrev show : Json ℕ → Text
show (bool true) = codes "true"
show (bool false) = codes "false"
show (string s) = b'"' ∷ (s ++ b'"' ∷ [])
show v = codes "null"

abbrev door_open : Json ℕ
door_open = object (field (codes "open") (bool true) no_field)

render_door :
    render_template show door_open 9
      (codes "{{trigger}}: {{payload.open}}, {{payload.x}}")
      (codes "t")
    ≡ some (codes "t: true, null")
unfolding render_template replace_from starts_with render_loop render_round find_pattern
    strip_prefix replacement follow get_field split text_eq
render_door = refl

-- A payload without braces in its texts.
door_shown : (segs : List Text) → lacks b'{' (shown show door_open (follow segs door_open)) ≡ true
unfolding lacks all follow get_field
door_shown [] = refl
door_shown (s ∷ []) = ground arith
door_shown (s ∷ t ∷ segs) = ground arith

door_braces : (path : Text) → lacks b'{' (replacement show door_open path) ≡ true
unfolding replacement
door_braces path = door_shown (split b'.' path)

render_template_ends_example :
    (s : Text) × (render_template show door_open 9 (codes "{{payload.open}}") (codes "t") ≡ some s)
    × (render_round show door_open s ≡ none)
unfolding replace_from starts_with braces
render_template_ends_example =
    render_template_ends show door_open 9 (codes "{{payload.open}}") (codes "t") door_braces
      (omega arith)

abbrev hostile : Json ℕ
hostile = object (field (codes "name") (string (codes "{{payload.name}}")) no_field)

render_template_hangs_example :
    render_template show hostile 1000 (placeholder (codes "name") []) (codes "t") ≡ none
unfolding lacks all replace_from starts_with replacement follow get_field split text_eq
render_template_hangs_example =
    render_template_hangs show hostile 1000 (codes "name") (codes "t") [] refl refl refl
