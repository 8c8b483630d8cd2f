-- ===== src/Capabilities/Topics.antt =====
-- `matches_mqtt_topic` against the wildcard rules of MQTT, level by level.
use iot_athome.Prelude.{
  List, [], ◌∷◌, ◌≡◌, refl, true, ◌↔◌, Text, codes, text_eq, text_eq_iff, text_eq→eq, split, arith,
  inl, inr, Bool-cases,
}
use iot_athome.Capabilities.{match_levels, matches_mqtt_topic}

-- `#` matches whatever is left, `+` one level, and any other level itself.
pub data TopicMatch : List Text → List Text → Type 0 where
  rest : {p : Text} {pat top : List Text} → p ≡ codes "#" → TopicMatch (p ∷ pat) top
  end : TopicMatch [] []
  one :
      {p t : Text} {pat top : List Text}
      → p ≡ codes "+"
      → TopicMatch pat top
      → TopicMatch (p ∷ pat) (t ∷ top)
  same :
      {p t : Text} {pat top : List Text}
      → p ≡ t
      → TopicMatch pat top
      → TopicMatch (p ∷ pat) (t ∷ top)

match_levels_complete : {pat top : List Text} → TopicMatch pat top → match_levels pat top ≡ true
unfolding match_levels
match_levels_complete (rest {p} {pat} {top = []} e) = (text_eq_iff p (codes "#")).1 e
match_levels_complete (rest {p} {pat} {top = t ∷ top} e) = rw ((text_eq_iff p (codes "#")).1 e)
match_levels_complete end = refl
match_levels_complete (one {p} {t} {pat} {top} e d) =
    ground (arith, text_eq_iff p (codes "+"), match_levels_complete d)
match_levels_complete (same {p} {t} {pat} {top} e d) =
    ground (arith, text_eq_iff p t, match_levels_complete d)

match_levels_sound : (pat top : List Text) → match_levels pat top ≡ true → TopicMatch pat top
unfolding match_levels
match_levels_sound [] [] h = end
match_levels_sound [] (t ∷ top) h = cc
match_levels_sound (p ∷ pat) [] h = rest (text_eq→eq p (codes "#") h)
match_levels_sound (p ∷ pat) (t ∷ top) h = elim (Bool-cases (text_eq p (codes "#"))) [
  | inl e ↦ rest (text_eq→eq p (codes "#") e)
  | inr ne ↦ elim (Bool-cases (text_eq p (codes "+"))) [
    | inl e ↦ one (text_eq→eq p (codes "+") e) (match_levels_sound pat top (ground arith))
    | inr ne' ↦ same (text_eq→eq p t (ground arith)) (match_levels_sound pat top (ground arith))
  ]
]

-- `matches_mqtt_topic` accepts exactly the topics that the wildcard rules give to the pattern.
pub matches_mqtt_topic_iff :
    (pattern topic : Text)
    → (matches_mqtt_topic pattern topic ≡ true) ↔ TopicMatch (split b'/' pattern) (split b'/' topic)
unfolding matches_mqtt_topic
matches_mqtt_topic_iff pattern topic =
    (match_levels_sound (split b'/' pattern) (split b'/' topic), match_levels_complete)
