-- ===== src/Capabilities/Bus.antt =====
-- What the usual manifest entry `device.<plugin>.>` lets a plugin publish, among the subjects that
-- the builders of iot-proto-core make.
use mathlib.Core.List.{append_assoc}
use iot_athome.Prelude.{
  sym, All, ◌∙◌, text_eq_iff, List, [], ◌∷◌, ◌++◌, ◌≡◌, refl, Bool, true, false, ◌↔◌, Text, codes,
  text_eq, starts_with, strip_suffix-append, lacks, all, arith, any, ok, Option, some, none, join,
}
use iot_athome.Subjects.Shape.{
  Subject, build, build_iff, IsToken, dot_lacks, arguments, head_token, tail_tokens,
}
use iot_athome.Capabilities.{matches_subject, CapabilityMap, check_bus_publish}

-- device.<plugin>.>
abbrev pub plugin_scope : Text → Text
plugin_scope q = codes "device." ++ (q ++ codes ".>")

matches_subject-scope :
    (q s : Text)
    → matches_subject (plugin_scope q) s ≡ starts_with (codes "device." ++ (q ++ codes ".")) s
unfolding matches_subject
matches_subject-scope q s = ground (
  arith,
  strip_suffix-append b'>' (codes "device." ++ (q ++ codes ".")),
  append_assoc (codes "device.") (q ++ codes ".") (codes ">"),
  append_assoc q (codes ".") (codes ">"),
)

-- Two tokens before a dot are compared whole.
starts_with-token :
    (q p s : Text)
    → lacks b'.' q ≡ true
    → lacks b'.' p ≡ true
    → starts_with (q ++ codes ".") (p ++ b'.' ∷ s) ≡ text_eq q p
unfolding starts_with lacks all text_eq
starts_with-token [] [] s hq hp = refl
starts_with-token [] (c ∷ p) s hq hp = ground arith
starts_with-token (c ∷ q) [] s hq hp = ground arith
starts_with-token (c ∷ q) (d ∷ p) s hq hp = ground (arith, starts_with-token q p s)

-- The plugin token of a device subject.
abbrev pub plugin_of : Subject → Option Text
plugin_of (Subject.device_state p d e) = some p
plugin_of (Subject.device_event p d e) = some p
plugin_of (Subject.device_avail p d) = some p
plugin_of _ = none

-- What follows `device.` in a device subject, after its plugin token.
device-join :
    (q p v : Text) (ws : List Text)
    → starts_with (codes "device." ++ (q ++ codes ".")) (join b'.' (codes "device" ∷ p ∷ v ∷ ws))
      ≡ starts_with (q ++ codes ".") (p ++ b'.' ∷ join b'.' (v ∷ ws))
unfolding join starts_with
device-join q p v ws = refl

scope-of-device :
    (q p v : Text) (ws : List Text)
    → IsToken q
    → IsToken p
    → matches_subject (plugin_scope q) (join b'.' (codes "device" ∷ p ∷ v ∷ ws)) ≡ text_eq q p
scope-of-device q p v ws hq hp =
    matches_subject-scope q (join b'.' (codes "device" ∷ p ∷ v ∷ ws))
    ∙ device-join q p v ws
    ∙ starts_with-token q p (join b'.' (v ∷ ws)) (dot_lacks q hq) (dot_lacks p hp)

-- Whether the entry lets the subject of a builder through.
abbrev in_scope : Text → Option Text → Bool
in_scope q none = false
in_scope q (some p) = text_eq q p

scope-of-built :
    (q : Text) (a : Subject)
    → IsToken q
    → All IsToken (arguments a)
    → matches_subject (plugin_scope q) (join b'.' (head_token a ∷ tail_tokens a))
      ≡ in_scope q (plugin_of a)
scope-of-built q (Subject.device_state p d e) hq hs =
    scope-of-device q p d (e ∷ codes "state" ∷ []) hq hs.0
scope-of-built q (Subject.device_event p d e) hq hs =
    scope-of-device q p d (e ∷ codes "event" ∷ []) hq hs.0
scope-of-built q (Subject.device_avail p d) hq hs =
    scope-of-device q p d (codes "avail" ∷ []) hq hs.0
scope-of-built q (Subject.command p d e) hq hs =
    matches_subject-scope q _ ∙ unfold join starts_with in refl
scope-of-built q (Subject.automation_fired r) hq hs =
    matches_subject-scope q _ ∙ unfold join starts_with in refl
scope-of-built q (Subject.ml_prediction m) hq hs =
    matches_subject-scope q _ ∙ unfold join starts_with in refl
scope-of-built q (Subject.audit k) hq hs =
    matches_subject-scope q _ ∙ unfold join starts_with in refl

in_scope_iff : (q : Text) (o : Option Text) → (in_scope q o ≡ true) ↔ (o ≡ some q)
in_scope_iff q none = ground arith
in_scope_iff q (some p) = ground (arith, text_eq_iff q p)

module _ (m : CapabilityMap) (q s : Text) (hm : m.bus.publish ≡ plugin_scope q ∷ []) where
  sole : any (λ p. matches_subject p s) m.bus.publish ≡ matches_subject (plugin_scope q) s
  unfolding any
  sole = rw hm (ground arith)

  sole-matches : check_bus_publish m s ≡ ok tt → matches_subject (plugin_scope q) s ≡ true
  unfolding check_bus_publish
  sole-matches h = ground (arith, sole)

  sole-allows : matches_subject (plugin_scope q) s ≡ true → check_bus_publish m s ≡ ok tt
  unfolding check_bus_publish
  sole-allows h = ground (arith, sole)

-- A plugin whose `bus.publish` list is `device.<q>.>` may publish a subject that a builder made if
-- and only if it is a device state, event or availability subject of the plugin `q` itself.
pub check_bus_publish_scope :
    (m : CapabilityMap) (q : Text) (a : Subject) (s : Text)
    → m.bus.publish ≡ plugin_scope q ∷ []
    → IsToken q
    → build a ≡ ok s
    → (check_bus_publish m s ≡ ok tt) ↔ (plugin_of a ≡ some q)
check_bus_publish_scope m q a s hm hq hs =
    let (ts, e) = (build_iff a s).0 hs in
    let decided : matches_subject (plugin_scope q) s ≡ in_scope q (plugin_of a) =
      rw (← e) (scope-of-built q a hq ts) in
    (
      λ h. (in_scope_iff q (plugin_of a)).0 (sym decided ∙ sole-matches m q s hm h),
      λ h. sole-allows m q s hm (decided ∙ (in_scope_iff q (plugin_of a)).1 h),
    )
