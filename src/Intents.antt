-- ===== src/Intents.antt =====
-- crates/iot-voice/src/intent.rs: the parser of spoken phrases. Lower-casing goes by Unicode's tables and
-- is a parameter; white space is ASCII.
pub mod Normal
pub mod Ends
pub mod Grammar
pub mod Phrases
mod Samples
use iot_athome.Prelude.{
  ℕ, zero, suc, ◌-◌, List, [], ◌∷◌, ◌++◌, Bool, true, false, ◌||◌, Option, some, none, Text, codes,
  text_eq, starts_with, strip_prefix, join, is_empty, length, is_space, trim, if◌then◌else◌, Result,
  ok, err,
}
use iot_athome.WakeVad.{Floats}
use iot_athome.Pipeline.{Intent, IntentError, no_match}

-- str::trim_start_matches of a pattern that is not empty; `skip` bytes of an occurrence are still to be
-- passed over.
unfoldable pub skip_matches : ℕ → Text → Text → Text
skip_matches skip p [] = []
skip_matches zero p (c ∷ s) =
    let past = skip_matches (length p - 1) p s in if starts_with p (c ∷ s) then past else c ∷ s
skip_matches (suc skip) p (c ∷ s) = skip_matches skip p s

abbrev pub trim_start_matches : Text → Text → Text
trim_start_matches p s = skip_matches 0 p s

abbrev pub flushed : Text → List Text → List Text
flushed word rest = if is_empty word then rest else word ∷ rest

-- str::split_whitespace, with the letters of the current word
unfoldable pub words_from : Text → Text → List Text
words_from word [] = flushed word []
words_from word (c ∷ s) =
    let next = words_from [] s in
    let longer = words_from (word ++ c ∷ []) s in if is_space c then flushed word next else longer

-- str::strip_suffix
unfoldable pub strip_end : Text → Text → Option Text
strip_end q [] = if is_empty q then some [] else none
strip_end q (c ∷ s) =
    let rest = strip_end q s in
    if text_eq (c ∷ s) q then some [] else elim rest [ none ↦ none | some r ↦ some (c ∷ r) ]

abbrev pub inner_of : Text → Text → Option Text
inner_of suffix inner =
    if is_empty suffix
    then some (trim inner)
    else elim (strip_end suffix inner) [ none ↦ none | some r ↦ some (trim r) ]

abbrev pub within : Text → Option Text → Option Text
within suffix none = none
within suffix (some inner) = inner_of suffix inner

unfoldable pub strip_prefix_suffix : Text → Text → Text → Option Text
strip_prefix_suffix s prefix suffix = within suffix (strip_prefix prefix s)

unfoldable pub normalise : (Text → Text) → Text → Text
normalise to_lowercase text =
    let lc = trim_start_matches (codes "would you ") (
      trim_start_matches (codes "can you ") (
        trim_start_matches (codes "could you ")
          (trim_start_matches (codes "please ") (trim (to_lowercase text))))) in
    join b' ' (words_from [] lc)

-- One of the patterns that match_phrase tries, with the intent it stands for.
pub record Pattern : Type 0 where
  pub domain : Text
  pub verb : Text
  pub prefix : Text
  pub suffix : Text

abbrev lights_on : Text → Text → Pattern
lights_on p q = record { domain = codes "lights"; verb = codes "on"; prefix = p; suffix = q }

abbrev lights_off : Text → Text → Pattern
lights_off p q = record { domain = codes "lights"; verb = codes "off"; prefix = p; suffix = q }

abbrev scene : Text → Text → Pattern
scene p q = record { domain = codes "scenes"; verb = codes "activate"; prefix = p; suffix = q }

abbrev sensor : Text → Text → Pattern
sensor p q = record { domain = codes "sensors"; verb = codes "report"; prefix = p; suffix = q }

-- In the order in which they are tried.
unfoldable pub patterns : List Pattern
patterns =
    lights_on (codes "turn on the ") (codes " light")
    ∷ lights_on (codes "turn on the ") (codes " lights")
    ∷ lights_on (codes "turn on ") (codes " light")
    ∷ lights_on (codes "turn on ") (codes " lights")
    ∷ lights_off (codes "turn off the ") (codes " light")
    ∷ lights_off (codes "turn off the ") (codes " lights")
    ∷ lights_off (codes "turn off ") (codes " light")
    ∷ lights_off (codes "turn off ") (codes " lights")
    ∷ scene (codes "activate the ") (codes " scene")
    ∷ scene (codes "activate ") (codes " scene")
    ∷ scene (codes "set the scene to ") []
    ∷ sensor (codes "what is the ") []
    ∷ sensor (codes "what's the ") []
    ∷ sensor (codes "tell me the ") []
    ∷ []

unfoldable pub cancels : Text → Bool
cancels n = text_eq n (codes "stop") || text_eq n (codes "cancel") || text_eq n (codes "never mind")

module _ (fl : Floats) where
  abbrev pub intent : Text → Text → Text → Text → Intent fl
  intent domain verb target raw = record {
    domain = domain;
    verb = verb;
    target = some target;
    raw = raw;
    confidence = fl.lit (codes "0.95");
  }

  abbrev pub cancel_intent : Text → Intent fl
  cancel_intent raw = record {
    domain = codes "system";
    verb = codes "cancel";
    target = none;
    raw = raw;
    confidence = fl.lit (codes "1.0");
  }

  abbrev pub matched : Pattern → Text → Option Text → Option (Intent fl) → Option (Intent fl)
  matched p raw none rest = rest
  matched p raw (some target) rest = some (intent p.domain p.verb target raw)

  unfoldable pub match_patterns : Text → Text → List Pattern → Option (Intent fl)
  match_patterns n raw [] = if cancels n then some (cancel_intent raw) else none
  match_patterns n raw (p ∷ ps) =
      let rest = match_patterns n raw ps in
      matched p raw (strip_prefix_suffix n p.prefix p.suffix) rest

  unfoldable pub match_phrase : Text → Text → Option (Intent fl)
  match_phrase n raw = match_patterns n raw patterns

  abbrev pub or_no_match : Text → Option (Intent fl) → Result IntentError (Intent fl)
  or_no_match text none = err (no_match text)
  or_no_match text (some i) = ok i

  unfoldable pub parse : (Text → Text) → Text → Result IntentError (Intent fl)
  parse to_lowercase text = or_no_match text (match_phrase (normalise to_lowercase text) text)
