-- ===== src/Acl/Rules.antt =====
-- The rules that Mosquitto finds in the generated file.
use iot_athome.Prelude.{
  ◌≡◌, refl, ap, ◌∙◌, List, [], ◌∷◌, ◌++◌, All, Bool, Text, codes, map, filter, filter-append,
  split, split-append, starts_with,
}
use iot_athome.Acl.{
  Manifest, read_rule, write_rule, rules_of, section_header, sections, unlines, acl_lines, generate,
  sort_by_id,
}
use iot_athome.Acl.Plain.{OneLine, IsPlain, sort_by_id-IsPlain, acl_lines-OneLine}

abbrev pub is_rule : Text → Bool
is_rule = starts_with (codes "topic ")

-- The rules of a file: its lines that start with `topic`.
unfoldable pub topic_rules : Text → List Text
topic_rules file = filter is_rule (split b'\n' file)

split-unlines : (ls : List Text) → All OneLine ls → split b'\n' (unlines ls) ≡ ls ++ [] ∷ []
unfolding unlines split
split-unlines [] h = refl
split-unlines (l ∷ ls) h = split-append b'\n' l (unlines ls) h.0 ∙ ap (◌∷◌ l) (split-unlines ls h.1)

unfoldable pub all_rules : List Manifest → List Text
all_rules [] = []
all_rules (m ∷ ms) = rules_of m ++ all_rules ms

filter-read_rule : (fs : List Text) → filter is_rule (map read_rule fs) ≡ map read_rule fs
unfolding filter starts_with
filter-read_rule [] = refl
filter-read_rule (f ∷ fs) = ap (◌∷◌ (read_rule f)) (filter-read_rule fs)

filter-write_rule : (ts : List Text) → filter is_rule (map write_rule ts) ≡ map write_rule ts
unfolding filter starts_with
filter-write_rule [] = refl
filter-write_rule (t ∷ ts) = ap (◌∷◌ (write_rule t)) (filter-write_rule ts)

filter-rules_of : (m : Manifest) → filter is_rule (rules_of m) ≡ rules_of m
filter-rules_of m =
    filter-append is_rule (map read_rule m.capabilities.mqtt.subscribe)
      (map write_rule m.capabilities.mqtt.publish)
    ∙ rw
        (
          filter-read_rule m.capabilities.mqtt.subscribe,
          filter-write_rule m.capabilities.mqtt.publish,
        )
        refl

filter-sections : (ms : List Manifest) → filter is_rule (sections ms) ≡ all_rules ms
unfolding filter starts_with sections section_header all_rules
filter-sections [] = refl
filter-sections (m ∷ ms) =
    filter-append is_rule (rules_of m) (sections ms)
    ∙ rw (filter-rules_of m, filter-sections ms) refl

append_nil : (xs : List Text) → xs ++ [] ≡ xs
append_nil [] = refl
append_nil (x ∷ xs) = ap (◌∷◌ x) (append_nil xs)

filter-acl_lines :
    (user : Text) (ms : List Manifest)
    → filter is_rule (acl_lines user ms ++ [] ∷ []) ≡ all_rules ms
unfolding filter starts_with acl_lines all_rules
filter-acl_lines user [] = refl
filter-acl_lines user (m ∷ ms) =
    filter-append is_rule (sections (m ∷ ms)) ([] ∷ [])
    ∙ rw (filter-sections (m ∷ ms)) (append_nil (all_rules (m ∷ ms)))

-- The generated file grants the host exactly what the manifests list: if no user name, id, version or
-- filter contains a line break, its rules are a read rule for each subscribe filter and a write rule
-- for each publish topic, manifest by manifest in the order of the ids, and nothing else.
pub topic_rules-generate :
    (user : Text) (ms : List Manifest)
    → OneLine user
    → All IsPlain ms
    → topic_rules (generate user ms) ≡ all_rules (sort_by_id ms)
unfolding generate topic_rules
topic_rules-generate user ms hu h =
    ap (filter is_rule) (
      split-unlines (acl_lines user (sort_by_id ms))
        (acl_lines-OneLine user (sort_by_id ms) hu (sort_by_id-IsPlain ms h)))
    ∙ filter-acl_lines user (sort_by_id ms)
