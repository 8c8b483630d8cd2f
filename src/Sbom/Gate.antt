-- ===== src/Sbom/Gate.antt =====
-- Which advisories refuse a bundle.
use iot_athome.Prelude.{
  ◌≡◌, ◌≢◌, refl, sym, ◌∙◌, ◌↔◌, ◌⊎◌, inl, inr, List, [], ◌∷◌, map, filter, err, Result-cases, All,
  Bool, true, false, not, is_empty, text_eq→eq, Bool-cases, Option-cases, Option, some, none, Text,
  codes, text_eq, ◌||◌, ok, any, arith,
}
use iot_athome.Json.{Json}
use iot_athome.Files.{FsPath, Fs, is_file, read}
use iot_athome.Sbom.{
  VulnFinding, advisories, scan_sbom, judge, enforce_sbom_policy, Severity, high, unknown, none_,
  rank, severity_named, unwrap_or, at_least, parse_severity, max_severity, severity_of,
  rating_texts, to_ascii_lowercase,
}

-- Not one of the words that `parse_severity` knows and that rank below High.
abbrev pub harmless : List Text
harmless = codes "medium" ∷ codes "low" ∷ codes "info" ∷ codes "informational" ∷ codes "none" ∷ []

abbrev pub is_harmless : Text → Bool
is_harmless raw = any (text_eq (to_ascii_lowercase raw)) harmless

words : (name : Text) → at_least (severity_named name) high ≡ not (any (text_eq name) harmless)
unfolding severity_named rank any
words name = elim (Bool-cases (text_eq name (codes "critical"))) [
  | inl e ↦ rw (text_eq→eq name (codes "critical") e) (unfold text_eq in refl)
  | inr c ↦ elim (Bool-cases (text_eq name (codes "high"))) [
    | inl e ↦ rw (text_eq→eq name (codes "high") e) (unfold text_eq in refl)
    | inr h ↦ ground (arith, c, h)
  ]
]

at_least_high : (raw : Text) → at_least (parse_severity raw) high ≡ not (is_harmless raw)
unfolding parse_severity
at_least_high raw = words (to_ascii_lowercase raw)

larger_iff :
    (s : Severity) (o : Option Severity) (ss : List Severity)
    → max_severity ss ≡ o
    → at_least (unwrap_or none_ (max_severity (s ∷ ss))) high
      ≡ (at_least s high || at_least (unwrap_or none_ o) high)
unfolding max_severity rank
larger_iff s none ss h = rw h (ground arith)
larger_iff s (some t) ss h = rw h (ground arith)

max_high :
    (ss : List Severity)
    → at_least (unwrap_or none_ (max_severity ss)) high ≡ any (λ s. at_least s high) ss
unfolding any
max_high [] = unfold max_severity rank in refl
max_high (s ∷ ss) = larger_iff s (max_severity ss) ss refl ∙ rw (max_high ss) refl

rated :
    (texts : List Text)
    → any (λ s. at_least s high) (map parse_severity texts)
      ≡ any (λ raw. not (is_harmless raw)) texts
unfolding any
rated [] = refl
rated (raw ∷ texts) = rw (at_least_high raw, rated texts) refl

-- An advisory blocks the installation exactly if it has no rating with a text, or one of its ratings
-- is not, up to the case of its ASCII letters, one of medium, low, info, informational and none. So one
-- rating that the program does not know refuses the bundle, like a high one.
pub severity_of_iff :
    {N : Type 0} (v : Json N)
    → at_least (severity_of v) high
      ≡ (is_empty (rating_texts v) || any (λ raw. not (is_harmless raw)) (rating_texts v))
unfolding severity_of
severity_of_iff v = by_ratings (rating_texts v)
  where
    by_ratings :
        (texts : List Text)
        → at_least (unwrap_or unknown (max_severity (map parse_severity texts))) high
          ≡ (is_empty texts || any (λ raw. not (is_harmless raw)) texts)
    by_ratings [] = unfold max_severity rank in refl
    by_ratings (raw ∷ texts) =
        unfold max_severity in
        (max_high (parse_severity raw ∷ map parse_severity texts) ∙ rated (raw ∷ texts))

filter-All {ℓ} :
    {A : Type ℓ} (p : A → Bool) (xs : List A)
    → (is_empty (filter p xs) ≡ true) ↔ All (λ x. p x ≡ false) xs
unfolding filter
filter-All p [] = (λ h. tt, λ h. refl)
filter-All p (x ∷ xs) = (
  λ h. elim (Bool-cases (p x)) [
    | inl e ↦ ground (arith, h, e)
    | inr e ↦ (e, (filter-All p xs).0 (ground (arith, h, e)))
  ],
  λ (e, h). rw e ((filter-All p xs).1 h),
)

judge_iff :
    (allowed : Bool) (found : List VulnFinding)
    → (judge allowed found ≡ ok tt)
      ↔ ((allowed ≡ true) ⊎ All (λ f. at_least f.severity high ≡ false) found)
unfolding judge
judge_iff allowed found =
    let (to, from) = filter-All (λ (f : VulnFinding). at_least f.severity high) found in
    (
      λ h.
          elim (Bool-cases
            (is_empty (filter (λ (f : VulnFinding). at_least f.severity high) found))) [
              | inl e ↦ inr (to e)
              | inr e ↦ inl (ground (arith, h, e))
            ],
      λ c. elim c [ inl e ↦ ground (arith, e) | inr e ↦ rw (from e) refl ],
    )

judge_names :
    (allowed : Bool) (found : List VulnFinding) (names : List Text)
    → judge allowed found ≡ err (advisories names)
    → names
      ≡ map
          (λ (f : VulnFinding). f.id)
          (filter (λ (f : VulnFinding). at_least f.severity high) found)
unfolding judge
judge_names allowed found names h =
    elim (Bool-cases (is_empty (filter (λ (f : VulnFinding). at_least f.severity high) found))) [
      | inl e ↦ ground (arith, h, e)
      | inr e ↦ ground (arith, h, e)
    ]

scan_sbom-names :
    {N : Type 0} (serde_json : Text → Option (Json N)) (path : FsPath) (fs : Fs) (names : List Text)
    → scan_sbom serde_json path fs ≢ err (advisories names)
unfolding scan_sbom
scan_sbom-names serde_json path fs names h = elim (Result-cases (read path fs)) [
  | inr (x, bad) ↦ ground (arith, h, bad)
  | inl (bytes, good) ↦ elim (Option-cases (serde_json bytes)) [
    | inl e ↦ ground (arith, h, good, e)
    | inr (doc, e) ↦ ground (arith, h, good, e)
  ]
]

-- The gate passes exactly the bundles without an SBOM, and those whose SBOM can be read and has no
-- blocking advisory, or any advisories if they are allowed; an SBOM that cannot be read or parsed
-- refuses the bundle whatever the flag.
pub enforce_sbom_policy_iff :
    {N : Type 0} (serde_json : Text → Option (Json N)) (path : FsPath) (allowed : Bool) (fs : Fs)
    → (enforce_sbom_policy serde_json path allowed fs ≡ ok tt) ↔ (
        (is_file path fs ≡ false)
        ⊎ ((found : List VulnFinding) × (scan_sbom serde_json path fs ≡ ok found)
            × ((allowed ≡ true) ⊎ All (λ f. at_least f.severity high ≡ false) found)))
unfolding enforce_sbom_policy judge
enforce_sbom_policy_iff serde_json path allowed fs = elim (Bool-cases (is_file path fs)) [
  | inr e ↦ (λ h. inl e, λ c. rw e refl)
  | inl e ↦ elim (Result-cases (scan_sbom serde_json path fs)) [
    | inr (x, bad) ↦ (
      λ h. ground (arith, h, e, bad),
      λ c. elim c [
        | inl f ↦ ground (arith, f, e)
        | inr (found, good, _) ↦ ground (arith, good, bad)
      ],
    )
    | inl (found, good) ↦
        let same : enforce_sbom_policy serde_json path allowed fs ≡ judge allowed found =
          rw (e, good) refl in
        (
          λ h. inr (found, good, (judge_iff allowed found).0 (sym same ∙ h)),
          λ c. elim c [
            | inl f ↦ ground (arith, f, e)
            | inr (other, also, pass) ↦ rw (e, also) ((judge_iff allowed other).1 pass)
          ],
        )
  ]
]

-- A refusal for advisories names exactly the blocking ones, in their order.
pub enforce_sbom_policy_names :
    {N : Type 0} (serde_json : Text → Option (Json N)) (path : FsPath) (allowed : Bool) (fs : Fs)
    (names : List Text)
    → enforce_sbom_policy serde_json path allowed fs ≡ err (advisories names)
    → (found : List VulnFinding) × (scan_sbom serde_json path fs ≡ ok found)
      × (names
          ≡ map
              (λ (f : VulnFinding). f.id)
              (filter (λ (f : VulnFinding). at_least f.severity high) found))
unfolding enforce_sbom_policy
enforce_sbom_policy_names serde_json path allowed fs names h = elim (Bool-cases (is_file path fs)) [
  | inr e ↦ ground (arith, h, e)
  | inl e ↦ elim (Result-cases (scan_sbom serde_json path fs)) [
    | inr (x, bad) ↦ absurd (scan_sbom-names serde_json path fs names (ground (arith, h, e, bad)))
    | inl (found, good) ↦
        let same : enforce_sbom_policy serde_json path allowed fs ≡ judge allowed found =
          rw (e, good) refl in
        (found, good, judge_names allowed found names (sym same ∙ h))
  ]
]
