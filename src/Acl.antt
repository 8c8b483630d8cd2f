-- ===== src/Acl.antt =====
-- crates/iot-plugin-host/src/manifest.rs and mqtt_acl.rs: plugin manifests, and the Mosquitto access
-- rules that the installed ones add up to. The text is kept as its lines until the end; each `writeln!` is one of them.
pub mod Plain
pub mod Rules
mod Samples
use iot_athome.Prelude.{
  ℕ, List, [], ◌∷◌, ◌++◌, Bool, true, false, ◌||◌, ◌&&◌, Text, codes, length, map, ltb, ◌==◌,
  is_empty, text_eq, not, Option, some, none, Result, ok, err, if◌then◌else◌,
}
use iot_athome.Payloads.{decimal}
use iot_athome.Capabilities.{CapabilityMap}

pub record SignatureClaim : Type 0 where
  pub mechanism : Text
  pub identity : Text
  pub issuer : Text
  pub rekor_entry : Text

pub record Resources : Type 0 where
  pub memory_mb_max : ℕ
  pub cpu_pct_max : ℕ
  pub fuel_max : ℕ

pub record Manifest : Type 0 where
  pub schema_version : ℕ
  pub id : Text
  pub name : Text
  pub version : Text
  pub description : Text
  pub runtime : Text
  pub entrypoint : Text
  pub capabilities : CapabilityMap
  pub resources : Resources
  pub signatures : List SignatureClaim

pub data ManifestError : Type 0 where
  io yaml : ManifestError
  unsupported_schema : ℕ → ManifestError
  unsupported_runtime : Text → ManifestError

-- The host's checks of a manifest that serde_yaml has read.
unfoldable pub supported : Manifest → Result ManifestError Manifest
supported m =
    if not (m.schema_version == 1)
    then err (unsupported_schema m.schema_version)
    else if not (text_eq m.runtime (codes "wasm-component"))
    then err (unsupported_runtime m.runtime)
    else ok m

-- `file` is what the file system gives, `serde_yaml` reads it or refuses it.
abbrev pub load : (Text → Option Manifest) → Option Text → Result ManifestError Manifest
load serde_yaml none = err io
load serde_yaml (some bytes) = elim (serde_yaml bytes) [ none ↦ err yaml | some m ↦ supported m ]

-- a.cmp(&b) is not greater
unfoldable pub text_le : Text → Text → Bool
text_le [] t = true
text_le (c ∷ s) [] = false
text_le (c ∷ s) (d ∷ t) = ltb c d || (c == d && text_le s t)

-- A stable sort by id.
unfoldable pub insert_sorted : Manifest → List Manifest → List Manifest
insert_sorted m [] = m ∷ []
insert_sorted m (n ∷ ms) =
    let rest = insert_sorted m ms in if text_le m.id n.id then m ∷ n ∷ ms else n ∷ rest

unfoldable pub sort_by_id : List Manifest → List Manifest
sort_by_id [] = []
sort_by_id (m ∷ ms) = insert_sorted m (sort_by_id ms)

-- "—" and "→" in UTF-8.
abbrev pub em_dash : Text
em_dash = 226 ∷ 128 ∷ 148 ∷ []

abbrev arrow : Text
arrow = 226 ∷ 134 ∷ 146 ∷ []

abbrev pub named : Manifest → Text
named m = m.id ++ (codes " (" ++ (m.version ++ codes ")"))

unfoldable pub summary : List Manifest → Text
summary [] = codes "(none installed)"
summary (m ∷ []) = named m
summary (m ∷ n ∷ ms) = named m ++ (codes ", " ++ summary (n ∷ ms))

abbrev pub read_rule : Text → Text
read_rule filter = codes "topic read  " ++ filter

abbrev pub write_rule : Text → Text
write_rule topic = codes "topic write " ++ topic

abbrev pub rules_of : Manifest → List Text
rules_of m =
    map read_rule m.capabilities.mqtt.subscribe ++ map write_rule m.capabilities.mqtt.publish

unfoldable pub section_header : Manifest → Text
section_header m =
    codes "# plugin: "
    ++ (named m
        ++ (b' '
            ∷ (em_dash
                ++ (b' '
                    ∷ (decimal (length m.capabilities.mqtt.subscribe)
                        ++ (codes " subscribe, "
                            ++ (decimal (length m.capabilities.mqtt.publish)
                                ++ codes " publish")))))))

-- The sections of the sorted manifests, with a blank line before each.
unfoldable pub sections : List Manifest → List Text
sections [] = []
sections (m ∷ ms) = [] ∷ section_header m ∷ (rules_of m ++ sections ms)

abbrev pub body : List Manifest → List Text
body [] =
    (codes "# (no plugins installed " ++ (arrow ++ codes " no topics granted; fail-closed)")) ∷ []
body (m ∷ ms) = sections (m ∷ ms)

abbrev pub head_lines : Text → Text → List Text
head_lines user plugins =
    (codes "# Generated by `iotctl mosquitto regen-acl` " ++ (em_dash ++ codes " do not edit."))
    ∷ codes "# Re-run after every `iotctl plugin install` / `uninstall`."
    ∷ (codes "# Plugins: " ++ plugins)
    ∷ []
    ∷ (codes "user " ++ user)
    ∷ []

unfoldable pub unlines : List Text → Text
unlines [] = []
unlines (l ∷ ls) = l ++ b'\n' ∷ unlines ls

unfoldable pub acl_lines : Text → List Manifest → List Text
acl_lines user sorted = head_lines user (summary sorted) ++ body sorted

unfoldable pub generate : Text → List Manifest → Text
generate user manifests = unlines (acl_lines user (sort_by_id manifests))
