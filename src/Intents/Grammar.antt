-- ===== src/Intents/Grammar.antt =====
-- The grammar of the phrases, apart from the table by which they are matched.
use iot_athome.Prelude.{codes, ◌≡◌, ◌⊎◌, [], ◌++◌, Bool, true, false, Text, trim}
use iot_athome.WakeVad.{Floats}
use iot_athome.Pipeline.{Intent}
use iot_athome.Intents.{intent, cancel_intent}

abbrev pub state_word : Bool → Text
state_word true = codes "on"
state_word false = codes "off"

abbrev pub plural : Bool → Text
plural true = codes "s"
plural false = []

-- A phrase with the article: "turn on the kitchen lights", "activate the movie scene".
unfoldable pub WithThe : Text → Text → Text → Type 0
WithThe verb noun n = (inner : Text) × (n ≡ verb ++ codes " the " ++ (inner ++ noun))

module _ (fl : Floats) where
  -- What the normalised text `n` asks for, by the grammar of the phrases. A light or a scene is named
  -- with or without the article, and without it only if the text does not read with it.
  pub data Asks (n raw : Text) : Intent fl → Type 0 where
    light_the :
        (on many : Bool) (inner : Text)
        → n
          ≡ codes "turn "
            ++ state_word on
            ++ codes " the "
            ++ (inner ++ (codes " light" ++ plural many))
        → Asks n raw (intent fl (codes "lights") (state_word on) (trim inner) raw)
    light :
        (on many : Bool) (inner : Text)
        → ((either : Bool)
            → WithThe (codes "turn " ++ state_word on) (codes " light" ++ plural either) n
            → ⊥)
        → n
          ≡ codes "turn "
            ++ state_word on
            ++ codes " "
            ++ (inner ++ (codes " light" ++ plural many))
        → Asks n raw (intent fl (codes "lights") (state_word on) (trim inner) raw)
    scene_the :
        (inner : Text)
        → n ≡ codes "activate the " ++ (inner ++ codes " scene")
        → Asks n raw (intent fl (codes "scenes") (codes "activate") (trim inner) raw)
    scene :
        (inner : Text)
        → (WithThe (codes "activate") (codes " scene") n → ⊥)
        → n ≡ codes "activate " ++ (inner ++ codes " scene")
        → Asks n raw (intent fl (codes "scenes") (codes "activate") (trim inner) raw)
    scene_set :
        (inner : Text)
        → n ≡ codes "set the scene to " ++ inner
        → Asks n raw (intent fl (codes "scenes") (codes "activate") (trim inner) raw)
    sensor :
        (lead inner : Text)
        → (lead ≡ codes "what is the ")
          ⊎ (lead ≡ codes "what's the ")
          ⊎ (lead ≡ codes "tell me the ")
        → n ≡ lead ++ inner
        → Asks n raw (intent fl (codes "sensors") (codes "report") (trim inner) raw)
    cancel :
        (n ≡ codes "stop") ⊎ (n ≡ codes "cancel") ⊎ (n ≡ codes "never mind")
        → Asks n raw (cancel_intent fl raw)
