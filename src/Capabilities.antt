-- ===== src/Capabilities.antt =====
-- crates/iot-plugin-host/src/capabilities.rs: the manifest's allow-lists and the checks that every
-- host call makes.
pub mod Topics
pub mod Covers
pub mod Bus
pub mod Outbound
mod Samples
use iot_athome.Prelude.{
  ℕ, suc, String, List, [], ◌∷◌, ◌++◌, Bool, true, false, Option, some, none, ◌||◌, ◌&&◌, not, Text,
  codes, any, text_eq, starts_with, strip_suffix, split, length, get_elem?, ◌==◌, if◌then◌else◌,
  Result, ok, err, is_empty,
}

pub record BusCapabilities : Type 0 where
  pub publish : List Text
  pub subscribe : List Text

pub record MqttCapabilities : Type 0 where
  pub publish : List Text
  pub subscribe : List Text
  pub bridge : List Text

pub record NetCapabilities : Type 0 where
  pub outbound : List Text

pub record RegistryCapabilities : Type 0 where
  pub upsert : Bool
  pub list : Bool

pub record CapabilityMap : Type 0 where
  pub bus : BusCapabilities
  pub mqtt : MqttCapabilities
  pub net : NetCapabilities
  pub registry : RegistryCapabilities

pub record Denied : Type 0 where
  pub code : Text
  pub message : Text

abbrev denied : Text → Denied
denied message = record { code = codes "capability.denied"; message = message }

abbrev quoted : Text → Text
quoted s = b'`' ∷ (s ++ codes "`")

-- Ok(()) if the test passes, else the denial.
abbrev allow : Bool → Text → Result Denied (Unit {0})
allow pass message = if pass then ok tt else err (denied message)

unfoldable pub matches_subject : Text → Text → Bool
matches_subject pattern subject = elim (strip_suffix b'>' pattern) [
  | some prefix ↦ starts_with prefix subject
  | none ↦ text_eq pattern subject
]

-- The loop over the two `split` iterators; one clause for each pair of `next()` results.
unfoldable pub match_levels : List Text → List Text → Bool
match_levels [] [] = true
match_levels (p ∷ pat) [] = text_eq p (codes "#")
match_levels [] (t ∷ top) = false
match_levels (p ∷ pat) (t ∷ top) =
    let rest = match_levels pat top in
    if text_eq p (codes "#")
    then true
    else if text_eq p (codes "+") || text_eq p t
    then rest
    else false

unfoldable pub matches_mqtt_topic : Text → Text → Bool
matches_mqtt_topic pattern topic = match_levels (split b'/' pattern) (split b'/' topic)

-- The `+` arm's test, and the literal arm's.
abbrev narrows : Option Text → Bool
narrows none = false
narrows (some s) = not (text_eq s (codes "#"))

abbrev same_literal : Text → Option Text → Bool
same_literal lit none = false
same_literal lit (some s) = text_eq s lit

-- The loop over `a_segs.iter().enumerate()`, from index `i`; at its end `i` is `a_segs.len()`.
unfoldable pub cover_levels : List Text → ℕ → List Text → Bool
cover_levels [] i r_segs = length r_segs == i
cover_levels (a ∷ a_segs) i r_segs =
    let rest = cover_levels a_segs (suc i) r_segs in
    if text_eq a (codes "#")
    then true
    else if text_eq a (codes "+")
    then (if narrows (get_elem? r_segs i) then rest else false)
    else (if same_literal a (get_elem? r_segs i) then rest else false)

unfoldable pub mqtt_filter_covers : Text → Text → Bool
mqtt_filter_covers allowed requested =
    if text_eq allowed requested
    then true
    else cover_levels (split b'/' allowed) 0 (split b'/' requested)

unfoldable pub check_bus_publish : CapabilityMap → Text → Result Denied (Unit {0})
check_bus_publish m subject =
    allow (any (λ p. matches_subject p subject) m.bus.publish)
      (codes "bus.publish on " ++ (quoted subject ++ codes " not in manifest allow-list"))

unfoldable pub check_mqtt_publish : CapabilityMap → Text → Result Denied (Unit {0})
check_mqtt_publish m topic =
    allow (any (λ p. matches_mqtt_topic p topic) m.mqtt.publish)
      (codes "mqtt.publish on " ++ (quoted topic ++ codes " not in manifest allow-list"))

unfoldable pub check_mqtt_subscribe : CapabilityMap → Text → Result Denied (Unit {0})
check_mqtt_subscribe m filter =
    allow (any (λ p. mqtt_filter_covers p filter) m.mqtt.subscribe)
      (codes "mqtt.subscribe on " ++ (quoted filter ++ codes " not in manifest allow-list"))

-- What the code calls of the `url` crate. `parse` gives the URL or the rendered error.
pub record UrlCrate : Type 1 where
  pub Url : Type 0
  pub parse : Text → Result Text Url
  pub scheme : Url → Text
  pub username : Url → Text
  pub password : Url → Option Text
  pub host_str : Url → Option Text
  pub port_or_known_default : Url → Option ℕ
  pub path : Url → Text

abbrev option_eq : (a b : Option Text) → Bool
option_eq none none = true
option_eq (some s) (some t) = text_eq s t
option_eq _ _ = false

abbrev port_eq : (a b : Option ℕ) → Bool
port_eq none none = true
port_eq (some s) (some t) = s == t
port_eq _ _ = false

abbrev ends_with_slash : Text → Bool
ends_with_slash s = elim (strip_suffix b'/' s) [ none ↦ false | some _ ↦ true ]

-- `req_path.as_bytes().get(n)` is `None` or `Some(b'/')`.
abbrev at_boundary : Option ℕ → Bool
at_boundary none = true
at_boundary (some c) = c == b'/'

unfoldable pub path_covers : Text → Text → Bool
path_covers allow_path req_path =
    if not (starts_with allow_path req_path)
    then false
    else if ends_with_slash allow_path
    then true
    else at_boundary (get_elem? req_path (length allow_path))

module _ (c : UrlCrate) where
  open c use {Url, parse, scheme, username, password, host_str, port_or_known_default, path}

  abbrev or_root : Text → Text
  or_root p = if is_empty p then codes "/" else p

  unfoldable pub entry_covers : Url → Url → Bool
  entry_covers allow req =
      if not (text_eq (scheme allow) (scheme req))
      then false
      else if not (option_eq (host_str allow) (host_str req))
      then false
      else if not (port_eq (port_or_known_default allow) (port_or_known_default req))
      then false
      else path_covers (or_root (path allow)) (path req)

  unfoldable pub url_entry_authorises : Text → Url → Bool
  url_entry_authorises entry req = elim (parse entry) [
    | err _ ↦ false
    | ok allow ↦ entry_covers allow req
  ]

  abbrev is_some : Option Text → Bool
  is_some none = false
  is_some (some _) = true

  abbrev http : Text → Bool
  http s = text_eq s (codes "http") || text_eq s (codes "https")

  -- After a successful parse.
  unfoldable pub check_request : CapabilityMap → Text → Url → Result Denied (Unit {0})
  check_request m url req =
      if not (http (scheme req))
      then err (
          denied (
            codes "net.outbound on "
            ++ (quoted url
                ++ (codes ": scheme "
                    ++ (quoted (scheme req) ++ codes " not allowed (only http/https)")))))
      else if not (is_empty (username req)) || is_some (password req)
      then err (
          denied (
            codes "net.outbound on " ++ (quoted url ++ codes ": userinfo (user/pass) not allowed")))
      else allow (any (λ entry. url_entry_authorises entry req) m.net.outbound)
          (codes "net.outbound on " ++ (quoted url ++ codes " not in manifest allow-list"))

  unfoldable pub check_net_outbound : CapabilityMap → Text → Result Denied (Unit {0})
  check_net_outbound m url = elim (parse url) [
    | err e ↦
        err (denied (codes "net.outbound on " ++ (quoted url ++ (codes ": malformed URL: " ++ e))))
    | ok req ↦ check_request m url req
  ]
