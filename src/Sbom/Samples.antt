-- ===== src/Sbom/Samples.antt =====
-- The scan on concrete documents.
use iot_athome.Prelude.{
  ◌≡◌, refl, ◌↔◌, ◌⊎◌, List, [], ◌∷◌, map, filter, All, true, false, ◌||◌, not, any, is_empty,
  Option, some, none, Text, codes, text_eq, ok, err,
}
use iot_athome.Json.{Json, nil, item, string, array, no_field, field, object, get_field}
use iot_athome.Files.{FsPath, Fs, file, put, is_file, read, path_eq}
use iot_athome.Sbom.{
  VulnFinding, rank, severity_named, parse_severity, to_ascii_lowercase, high, unknown,
  max_severity, strings_at, rating_texts, severity_of, finding_of, findings, scan_document,
  scan_sbom, judge, advisories, enforce_sbom_policy, at_least, join_comma,
}
use iot_athome.Sbom.Gate.{
  is_harmless, severity_of_iff, enforce_sbom_policy_iff, enforce_sbom_policy_names,
}

abbrev Doc : Type 0
Doc = Json Text

abbrev rating : Text → Doc
rating s = object (field (codes "severity") (string s) no_field)

-- Rated Medium by one source and with an unknown word by another.
abbrev advisory : Doc
advisory = object (
    field (codes "id") (string (codes "CVE-1")) (
      field (codes "ratings")
        (array (item (rating (codes "Medium")) (item (rating (codes "n/a")) nil))) no_field))

-- The unknown rating wins over every other, and blocks.
unknown_wins : severity_of advisory ≡ unknown
unfolding severity_of strings_at get_field text_eq parse_severity severity_named to_ascii_lowercase
    max_severity rank
unknown_wins = refl

severity_of_iff_example : at_least (severity_of advisory) high ≡ (
    is_empty (rating_texts advisory) || any (λ raw. not (is_harmless raw)) (rating_texts advisory))
severity_of_iff_example = severity_of_iff advisory

abbrev sbom : FsPath
sbom = codes "sbom.cdx.json" ∷ []

abbrev fs : Fs
fs = put sbom (file 420 (codes "{}")) (λ q. none)

abbrev parse : Text → Option Doc
parse s = some (object (field (codes "vulnerabilities") (array (item advisory nil)) no_field))

abbrev blocking : VulnFinding
blocking = record { id = codes "CVE-1"; severity = unknown; affects = [] }

refused : enforce_sbom_policy parse sbom false fs ≡ err (advisories (codes "CVE-1" ∷ []))
unfolding enforce_sbom_policy scan_sbom read judge scan_document findings finding_of severity_of
    strings_at get_field text_eq parse_severity severity_named to_ascii_lowercase max_severity rank
    path_eq filter join_comma
refused = refl

allowed : enforce_sbom_policy parse sbom true fs ≡ ok tt
unfolding enforce_sbom_policy scan_sbom read judge scan_document findings finding_of severity_of
    strings_at get_field text_eq parse_severity severity_named to_ascii_lowercase max_severity rank
    path_eq filter join_comma
allowed = refl

enforce_sbom_policy_iff_example : (enforce_sbom_policy parse sbom true fs ≡ ok tt) ↔ (
    (is_file sbom fs ≡ false)
    ⊎ ((found : List VulnFinding) × (scan_sbom parse sbom fs ≡ ok found)
        × ((true ≡ true) ⊎ All (λ f. at_least f.severity high ≡ false) found)))
enforce_sbom_policy_iff_example = enforce_sbom_policy_iff parse sbom true fs

enforce_sbom_policy_names_run :
    (found : List VulnFinding) × (scan_sbom parse sbom fs ≡ ok found)
    × ((codes "CVE-1" ∷ [])
        ≡ map
            (λ (f : VulnFinding). f.id)
            (filter (λ (f : VulnFinding). at_least f.severity high) found))
enforce_sbom_policy_names_run =
    enforce_sbom_policy_names parse sbom false fs (codes "CVE-1" ∷ []) refused
