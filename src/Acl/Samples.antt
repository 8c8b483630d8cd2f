-- ===== src/Acl/Samples.antt =====
-- The access rules of two plugins, and of a filter with a line break.
use iot_athome.Prelude.{
  ◌≡◌, refl, List, [], ◌∷◌, all, lacks, false, Text, codes, text_eq, filter, split, starts_with,
  some, err,
}
use iot_athome.Acl.{
  Manifest, unsupported_runtime, supported, load, text_le, insert_sorted, sort_by_id, summary,
  section_header, sections, unlines, acl_lines, generate,
}
use iot_athome.Acl.Rules.{topic_rules, all_rules, topic_rules-generate}

abbrev manifest : Text → List Text → List Text → Manifest
manifest id subscribe publish = record {
  schema_version = 1;
  id = id;
  name = id;
  version = codes "0.1.0";
  description = [];
  runtime = codes "wasm-component";
  entrypoint = codes "plugin.wasm";
  capabilities = record {
    bus = record { publish = []; subscribe = [] };
    mqtt = record { publish = publish; subscribe = subscribe; bridge = [] };
    net = record { outbound = [] };
    registry = record { upsert = false; list = false };
  };
  resources = record { memory_mb_max = 128; cpu_pct_max = 25; fuel_max = 0 };
  signatures = [];
}

abbrev installed : List Manifest
installed =
    manifest (codes "z2m") (codes "z2m/+" ∷ []) (codes "z2m/set" ∷ [])
    ∷ manifest (codes "echo") (codes "echo/#" ∷ []) []
    ∷ []

topic_rules-generate_example :
    topic_rules (generate (codes "host") installed) ≡ all_rules (sort_by_id installed)
unfolding lacks all
topic_rules-generate_example = topic_rules-generate (codes "host") installed refl (
  record { id = refl; version = refl; subscribe = (refl, tt); publish = (refl, tt) },
  (record { id = refl; version = refl; subscribe = (refl, tt); publish = tt }, tt),
)

rules_in_order :
    all_rules (sort_by_id installed)
    ≡ codes "topic read  echo/#" ∷ codes "topic read  z2m/+" ∷ codes "topic write z2m/set" ∷ []
unfolding all_rules sort_by_id insert_sorted text_le
rules_in_order = refl

-- One filter of a manifest becomes two rules.
two_rules :
    topic_rules
      (generate (codes "host") (manifest (codes "m") (codes "a\ntopic readwrite #" ∷ []) [] ∷ []))
    ≡ codes "topic read  a" ∷ codes "topic readwrite #" ∷ []
unfolding topic_rules generate unlines acl_lines sections section_header summary sort_by_id
    insert_sorted split filter starts_with
two_rules = refl

other_runtime :
    load
      (λ bytes. some (record (manifest bytes [] []) { runtime = codes "python" }))
      (some (codes "m"))
    ≡ err (unsupported_runtime (codes "python"))
unfolding supported text_eq
other_runtime = refl
