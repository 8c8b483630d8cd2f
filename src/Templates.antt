-- ===== src/Templates.antt =====
-- crates/iot-automation/src/engine.rs, `render_template`: the placeholders in the message of a log
-- action.
pub mod Rounds
mod Samples
use iot_athome.Prelude.{
  strip_prefix, ℕ, zero, suc, ◌-◌, List, [], ◌∷◌, ◌++◌, Bool, true, false, Option, some, none, Text,
  codes, ◌==◌, if◌then◌else◌, split, starts_with, length,
}
use iot_athome.Json.{Json, follow}

abbrev pub after_byte : ℕ → Option (Text × Text) → Option (Text × Text)
after_byte c none = none
after_byte c (some (before, rest)) = some (c ∷ before, rest)

-- What stands before and after the first occurrence of a pattern, as str::find finds it.
unfoldable pub find_pattern : Text → Text → Option (Text × Text)
find_pattern p [] = none
find_pattern p (c ∷ s) = elim (strip_prefix p (c ∷ s)) [
  | some rest ↦ some ([], rest)
  | none ↦ after_byte c (find_pattern p s)
]

-- str::replace; `skip` bytes of an occurrence that has been replaced are still to be passed over.
unfoldable pub replace_from : ℕ → Text → Text → Text → Text
replace_from skip p new [] = []
replace_from (suc skip) p new (c ∷ s) = replace_from skip p new s
replace_from zero p new (c ∷ s) = elim (starts_with p (c ∷ s)) [
  | true ↦ new ++ replace_from (length p - 1) p new s
  | false ↦ c ∷ replace_from zero p new s
]

abbrev pub opening : Text
opening = codes "{{payload."

abbrev pub closing : Text
closing = codes "}}"

-- `to_string` is the `Display` of serde_json's values.
module _ {N : Type 0} (to_string : Json N → Text) (payload : Json N) where
  abbrev pub shown : Option (Json N) → Text
  shown none = codes "null"
  shown (some v) = to_string v

  -- What stands for the placeholder of a path.
  unfoldable pub replacement : Text → Text
  replacement path = shown (follow (split b'.' path) payload)

  -- One round of the `while let` loop; `none` where the loop ends.
  unfoldable pub render_round : Text → Option Text
  render_round out = elim (find_pattern opening out) [
    | none ↦ none
    | some (before, rest) ↦ elim (find_pattern closing rest) [
      | none ↦ none
      | some (path, after) ↦ some (before ++ (replacement path ++ after))
    ]
  ]

  -- `none` where the fuel is used up and the loop is still running.
  unfoldable pub render_loop : ℕ → Text → Option Text
  render_loop zero out = none
  render_loop (suc fuel) out = elim (render_round out) [
    | none ↦ some out
    | some out' ↦ render_loop fuel out'
  ]

  unfoldable pub render_template : ℕ → Text → Text → Option Text
  render_template fuel tpl trigger =
      render_loop fuel (replace_from 0 (codes "{{trigger}}") trigger tpl)
