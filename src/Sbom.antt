-- ===== src/Sbom.antt =====
-- crates/iot-cli/src/plugin.rs, the scan of a bundle's SBOM: the severities of its advisories and the
-- gate on them. serde_json's parser is an argument; warnings that are only logged are left out.
mod Gate
mod Samples
use iot_athome.Prelude.{
  ℕ, List, [], ◌∷◌, ◌++◌, map, Bool, true, false, Option, some, none, Text, codes, text_eq, ◌==◌,
  ◌||◌, leb, filter, is_empty, length, if◌then◌else◌, Result, ok, err, ◌>>=◌,
}
use iot_athome.Json.{Json, Items, nil, item, string, array, get}
use iot_athome.Sdr433.{lower}
use iot_athome.Files.{FsPath, Fs, IoError, is_file, read}

-- The order of the declaration is the derived order.
pub data Severity : Type 0 where
  none_ info low medium high critical unknown : Severity

-- The discriminant that the derived `Ord` compares.
unfoldable pub rank : Severity → ℕ
rank none_ = 0
rank info = 1
rank low = 2
rank medium = 3
rank high = 4
rank critical = 5
rank unknown = 6

-- a >= b
abbrev pub at_least : Severity → Severity → Bool
at_least a b = leb (rank b) (rank a)

unfoldable pub to_ascii_lowercase : Text → Text
to_ascii_lowercase = map lower

unfoldable pub severity_named : Text → Severity
severity_named name =
    if text_eq name (codes "critical")
    then critical
    else if text_eq name (codes "high")
    then high
    else if text_eq name (codes "medium")
    then medium
    else if text_eq name (codes "low")
    then low
    else if text_eq name (codes "info") || text_eq name (codes "informational")
    then info
    else if text_eq name (codes "none")
    then none_
    else unknown

unfoldable pub parse_severity : Text → Severity
parse_severity raw = severity_named (to_ascii_lowercase raw)

pub record VulnFinding : Type 0 where
  pub id : Text
  pub severity : Severity
  pub affects : Text

-- iter().max(): of equal ones the last.
abbrev larger : Severity → Option Severity → Severity
larger s none = s
larger s (some t) = if at_least t s then t else s

unfoldable pub max_severity : List Severity → Option Severity
max_severity [] = none
max_severity (s ∷ ss) = some (larger s (max_severity ss))

abbrev pub unwrap_or {ℓ} : {A : Type ℓ} → A → Option A → A
unwrap_or d none = d
unwrap_or d (some a) = a

unfoldable pub join_comma : List Text → Text
join_comma [] = []
join_comma (w ∷ []) = w
join_comma (w ∷ v ∷ ws) = w ++ b',' ∷ join_comma (v ∷ ws)

module _ {N : Type 0} where
  abbrev pub as_str : Option (Json N) → Option Text
  as_str (some (string s)) = some s
  as_str _ = none

  -- as_array().into_iter().flatten()
  abbrev elements : Option (Json N) → Items N
  elements (some (array items)) = items
  elements _ = nil

  -- filter_map of the string at one key
  unfoldable pub strings_at : Text → Items N → List Text
  strings_at key nil = []
  strings_at key (item v items) = elim (as_str (get key v)) [
    | some s ↦ s ∷ strings_at key items
    | none ↦ strings_at key items
  ]

  abbrev pub rating_texts : Json N → List Text
  rating_texts v = strings_at (codes "severity") (elements (get (codes "ratings") v))

  unfoldable pub severity_of : Json N → Severity
  severity_of v = unwrap_or unknown (max_severity (map parse_severity (rating_texts v)))

  unfoldable pub finding_of : Json N → VulnFinding
  finding_of v = record {
    id = unwrap_or (codes "UNKNOWN") (as_str (get (codes "id") v));
    severity = severity_of v;
    affects = join_comma (strings_at (codes "ref") (elements (get (codes "affects") v)));
  }

  unfoldable pub findings : Items N → List VulnFinding
  findings nil = []
  findings (item v items) = finding_of v ∷ findings items

  -- A document without the array has no findings.
  unfoldable pub scan_document : Json N → List VulnFinding
  scan_document doc = findings (elements (get (codes "vulnerabilities") doc))

pub data SbomError : Type 0 where
  read_sbom : IoError → SbomError
  parse_sbom : SbomError
  -- the advisories of the refusal
  advisories : List Text → SbomError

abbrev pub parsed : {N : Type 0} → Option (Json N) → Result SbomError (List VulnFinding)
parsed none = err parse_sbom
parsed (some doc) = ok (scan_document doc)

abbrev pub blocks : VulnFinding → Bool
blocks f = at_least f.severity high

abbrev ids : List VulnFinding → List Text
ids = map (λ (f : VulnFinding). f.id)

unfoldable pub judge : Bool → List VulnFinding → Result SbomError (Unit {0})
judge allow_vulnerabilities found =
    let blocking = filter blocks found in
    if is_empty blocking
    then ok tt
    else if allow_vulnerabilities
    then ok tt
    else err (advisories (ids blocking))

module _ {N : Type 0} (serde_json : Text → Option (Json N)) where
  unfoldable pub scan_sbom : FsPath → Fs → Result SbomError (List VulnFinding)
  scan_sbom path fs = elim (read path fs) [
    | err e ↦ err (read_sbom e)
    | ok bytes ↦ parsed (serde_json bytes)
  ]

  unfoldable pub enforce_sbom_policy : FsPath → Bool → Fs → Result SbomError (Unit {0})
  enforce_sbom_policy sbom_path allow_vulnerabilities fs =
      if is_file sbom_path fs then scan_sbom sbom_path fs >>= judge allow_vulnerabilities else ok tt
