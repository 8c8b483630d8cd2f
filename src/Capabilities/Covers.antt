-- ===== src/Capabilities/Covers.antt =====
-- `mqtt_filter_covers`: a plugin can narrow the filters of its manifest and never broaden them.
use iot_athome.Prelude.{
  suc, List, [], ◌∷◌, ◌++◌, ◌≡◌, refl, Bool, true, false, not, ◌↔◌, Text, codes, text_eq,
  text_eq_iff, text_eq_refl, split, arith, length, get_elem?-append, length-append, if◌then◌else◌,
  any, any_of_any, all, ok, ◌||◌,
}
use mathlib.Core.List.{append_assoc}
use iot_athome.Capabilities.{
  match_levels, matches_mqtt_topic, cover_levels, mqtt_filter_covers, CapabilityMap,
  check_mqtt_subscribe,
}

-- The loop of `mqtt_filter_covers` over what is left of both filters, without the index.
covers : List Text → List Text → Bool
covers [] [] = true
covers [] (s ∷ r) = false
covers (a ∷ as') [] = text_eq a (codes "#")
covers (a ∷ as') (s ∷ r) =
    let rest = covers as' r in
    if text_eq a (codes "#")
    then true
    else if text_eq a (codes "+")
    then (if not (text_eq s (codes "#")) then rest else false)
    else (if text_eq s a then rest else false)

cover_levels-shift :
    (a_segs : List Text) (s : Text) (pre r : List Text)
    → cover_levels a_segs (length (pre ++ s ∷ [])) ((pre ++ s ∷ []) ++ r)
      ≡ cover_levels a_segs (suc (length pre)) (pre ++ s ∷ r)
cover_levels-shift a_segs s pre r = rw (length-snoc pre s, append_assoc)
  where
    length-snoc : (pre : List Text) (s : Text) → length (pre ++ s ∷ []) ≡ suc (length pre)
    length-snoc pre s = omega (arith, length-append pre (s ∷ []))

-- Where `pre` has been compared, the loop answers for what is left.
cover_levels-eq-covers :
    (a_segs pre r : List Text) → cover_levels a_segs (length pre) (pre ++ r) ≡ covers a_segs r
unfolding cover_levels covers
cover_levels-eq-covers [] pre [] = ground (arith, length-append pre [])
cover_levels-eq-covers [] pre (s ∷ r) = ground (arith, length-append pre (s ∷ r))
cover_levels-eq-covers (a ∷ a_segs) pre [] = ground (arith, get_elem?-append pre [])
cover_levels-eq-covers (a ∷ a_segs) pre (s ∷ r) = ground (
  arith,
  get_elem?-append pre (s ∷ r),
  cover_levels-shift a_segs s pre r,
  cover_levels-eq-covers a_segs (pre ++ s ∷ []) r,
)

-- What the requested filter matches, the allowed one matches.
covers_sound :
    (a_segs r top : List Text)
    → covers a_segs r ≡ true
    → match_levels r top ≡ true
    → match_levels a_segs top ≡ true
unfolding covers match_levels
covers_sound [] [] top c m = m
covers_sound [] (s ∷ r) top c m = cc
covers_sound (a ∷ a_segs) [] [] c m = c
covers_sound (a ∷ a_segs) [] (t ∷ top) c m = cc
covers_sound (a ∷ a_segs) (s ∷ r) [] c m =
    ground (arith, text_eq_iff a (codes "#"), text_eq_iff s (codes "#"), text_eq_iff s a)
covers_sound (a ∷ a_segs) (s ∷ r) (t ∷ top) c m = ground (
  arith,
  text_eq_iff a (codes "#"),
  text_eq_iff s (codes "#"),
  text_eq_iff s (codes "+"),
  text_eq_iff a (codes "+"),
  text_eq_iff s t,
  text_eq_iff a t,
  text_eq_iff s a,
  covers_sound a_segs r top,
)

match_levels_self : (r : List Text) → match_levels r r ≡ true
unfolding match_levels
match_levels_self [] = refl
match_levels_self (s ∷ r) = ground (arith, text_eq_refl s, match_levels_self r)

-- No level is `#`.
unfoldable pub plain_levels : List Text → Bool
plain_levels = all (λ s. not (text_eq s (codes "#")))

covers_complete :
    (a_segs r : List Text)
    → plain_levels r ≡ true
    → match_levels a_segs r ≡ true
    → covers a_segs r ≡ true
unfolding covers match_levels plain_levels all
covers_complete [] [] h m = refl
covers_complete [] (s ∷ r) h m = cc
covers_complete (a ∷ a_segs) [] h m = m
covers_complete (a ∷ a_segs) (s ∷ r) h m =
    ground (arith, text_eq_iff s a, text_eq_iff a s, covers_complete a_segs r)

mqtt_filter_covers-eq :
    (allowed requested : Text)
    → mqtt_filter_covers allowed requested
      ≡ text_eq allowed requested || covers (split b'/' allowed) (split b'/' requested)
unfolding mqtt_filter_covers
mqtt_filter_covers-eq allowed requested =
    ground (arith, cover_levels-eq-covers (split b'/' allowed) [] (split b'/' requested))

-- If the allowed filter covers the requested one, every topic that the requested filter matches is
-- matched by the allowed filter.
pub mqtt_filter_covers_sound :
    (allowed requested topic : Text)
    → mqtt_filter_covers allowed requested ≡ true
    → matches_mqtt_topic requested topic ≡ true
    → matches_mqtt_topic allowed topic ≡ true
unfolding matches_mqtt_topic
mqtt_filter_covers_sound allowed requested topic c m = ground (
  arith,
  mqtt_filter_covers-eq allowed requested,
  text_eq_iff allowed requested,
  covers_sound (split b'/' allowed) (split b'/' requested) (split b'/' topic),
)

-- For a requested filter without `#`, the check is exact: it passes if and only if every topic of
-- the requested filter is a topic of the allowed one.
pub mqtt_filter_covers_iff :
    (allowed requested : Text)
    → plain_levels (split b'/' requested) ≡ true
    → (mqtt_filter_covers allowed requested ≡ true) ↔ (
        (topic : Text)
        → matches_mqtt_topic requested topic ≡ true
        → matches_mqtt_topic allowed topic ≡ true)
unfolding matches_mqtt_topic
mqtt_filter_covers_iff allowed requested h = (
  λ c topic m. mqtt_filter_covers_sound allowed requested topic c m,
  λ all_topics. ground (
    arith,
    mqtt_filter_covers-eq allowed requested,
    covers_complete (split b'/' allowed) (split b'/' requested),
    all_topics requested (match_levels_self (split b'/' requested)),
  ),
)

-- A subscription that the check lets through receives only topics that some filter of the manifest
-- matches.
pub check_mqtt_subscribe_narrows :
    (m : CapabilityMap) (filter topic : Text)
    → check_mqtt_subscribe m filter ≡ ok tt
    → matches_mqtt_topic filter topic ≡ true
    → any (λ p. matches_mqtt_topic p topic) m.mqtt.subscribe ≡ true
unfolding check_mqtt_subscribe
check_mqtt_subscribe_narrows m filter topic h t =
    any_of_any (λ p. mqtt_filter_covers p filter) (λ p. matches_mqtt_topic p topic) m.mqtt.subscribe
      (λ p c. mqtt_filter_covers_sound p filter topic c t) (ground arith)
