-- ===== src/Intents/Samples.antt =====
-- Phrases that are understood, over texts of small letters.
use iot_athome.Prelude.{
  ◌≡◌, ◌⊎◌, refl, Text, codes, text_eq, starts_with, strip_prefix, join, trim, trim_start, trim_end,
  ok, err,
}
use iot_athome.Instances.Loudness.{floats}
use iot_athome.Pipeline.{Intent, no_match}
use iot_athome.Intents.{
  skip_matches, words_from, strip_end, strip_prefix_suffix, normalise, patterns, cancels, intent,
  match_patterns, match_phrase, parse,
}
use iot_athome.Intents.Phrases.{parse_decides}
use iot_athome.Intents.Grammar.{Asks}
use iot_athome.Intents.Normal.{Normal}

abbrev small : Text → Text
small s = s

kitchen :
    parse floats small (codes " please turn  on the kitchen light")
    ≡ ok (
        intent floats
          (codes "lights")
          (codes "on")
          (codes "kitchen")
          (codes " please turn  on the kitchen light"))
unfolding parse normalise skip_matches words_from match_phrase match_patterns patterns
    strip_prefix_suffix strip_prefix strip_end trim trim_start trim_end join starts_with text_eq
kitchen = refl

-- "turn on the lights" turns on a light called "the".
all_lights :
    parse floats small (codes "turn on the lights")
    ≡ ok (intent floats (codes "lights") (codes "on") (codes "the") (codes "turn on the lights"))
unfolding parse normalise skip_matches words_from match_phrase match_patterns patterns
    strip_prefix_suffix strip_prefix strip_end trim trim_start trim_end join starts_with text_eq
all_lights = refl

-- "please" is stripped before "could you" only.
could_you_please :
    parse floats small (codes "could you please stop")
    ≡ err (no_match (codes "could you please stop"))
unfolding parse normalise skip_matches words_from match_phrase match_patterns patterns cancels
    strip_prefix_suffix strip_prefix strip_end trim trim_start trim_end join starts_with text_eq
could_you_please = refl

parse_decides_example :
    (n : Text) × Normal small (codes "please stop") n
    × (((i : Intent floats) × (parse floats small (codes "please stop") ≡ ok i)
          × Asks floats n (codes "please stop") i)
        ⊎ ((parse floats small (codes "please stop") ≡ err (no_match (codes "please stop")))
            × ¬ ((i : Intent floats) × Asks floats n (codes "please stop") i)))
parse_decides_example = parse_decides floats small (codes "please stop")
