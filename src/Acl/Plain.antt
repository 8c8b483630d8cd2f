-- ===== src/Acl/Plain.antt =====
-- Generated lines without line breaks.
use iot_athome.Payloads.{digits}
use iot_athome.Prelude.{
  ℕ, zero, suc, ◌+◌, ◌/◌, ◌%◌, ltb, Bool-cases, inl, inr, ◌≡◌, refl, ◌∙◌, List, [], ◌∷◌, ◌++◌, All,
  true, not, Text, codes, all-append, length, map, lacks, all, arith, ◌==◌,
}
use iot_athome.Acl.{
  named, em_dash, insert_sorted, text_le, Manifest, read_rule, write_rule, rules_of, section_header,
  sections, head_lines, acl_lines, sort_by_id, summary, body,
}

abbrev pub OneLine : Text → Type 0
OneLine s = lacks b'\n' s ≡ true

-- Every text of the manifest stands on one line.
pub record IsPlain (m : Manifest) : Type 0 where
  pub id : OneLine m.id
  pub version : OneLine m.version
  pub subscribe : All OneLine m.capabilities.mqtt.subscribe
  pub publish : All OneLine m.capabilities.mqtt.publish

lacks-append : (s t : Text) → OneLine s → OneLine t → OneLine (s ++ t)
unfolding lacks
lacks-append s t hs ht = all-append (λ c. not (c == b'\n')) s t ∙ rw (hs, ht) refl

All-append : (xs ys : List Text) → All OneLine xs → All OneLine ys → All OneLine (xs ++ ys)
All-append [] ys h k = k
All-append (x ∷ xs) ys h k = (h.0, All-append xs ys h.1 k)

digits-OneLine : (fuel n : ℕ) (acc : Text) → OneLine acc → OneLine (digits fuel n acc)
unfolding lacks all
digits-OneLine zero n acc h = h
digits-OneLine (suc fuel) n acc h = elim (Bool-cases (ltb n 10)) [
  | inl last ↦ rw last (ground (arith, h))
  | inr more ↦ rw more (digits-OneLine fuel (n / 10) ((b'0' + n % 10) ∷ acc) (ground (arith, h)))
]

named-OneLine : (m : Manifest) → IsPlain m → OneLine (named m)
named-OneLine m v = lacks-append m.id _ v.id (
    lacks-append (codes " (") _ (unfold lacks all in refl)
      (lacks-append m.version (codes ")") v.version (unfold lacks all in refl)))

summary-OneLine : (ms : List Manifest) → All IsPlain ms → OneLine (summary ms)
unfolding summary
summary-OneLine [] h = unfold lacks all in refl
summary-OneLine (m ∷ []) h = named-OneLine m h.0
summary-OneLine (m ∷ n ∷ ms) h =
    lacks-append (named m) _ (named-OneLine m h.0)
      (lacks-append (codes ", ") _ (unfold lacks all in refl) (summary-OneLine (n ∷ ms) h.1))

map-OneLine :
    (p : Text) (fs : List Text) → OneLine p → All OneLine fs → All OneLine (map (λ f. p ++ f) fs)
map-OneLine p [] hp h = tt
map-OneLine p (f ∷ fs) hp h = (lacks-append p f hp h.0, map-OneLine p fs hp h.1)

header-OneLine :
    (name subs pubs : Text)
    → OneLine name
    → OneLine subs
    → OneLine pubs
    → OneLine (
        codes "# plugin: "
        ++ (name
            ++ (b' '
                ∷ (em_dash
                    ++ (b' ' ∷ (subs ++ (codes " subscribe, " ++ (pubs ++ codes " publish"))))))))
header-OneLine name subs pubs hn hs hp =
    lacks-append (codes "# plugin: ") _ (unfold lacks all in refl) (
      lacks-append name _ hn (
        lacks-append (b' ' ∷ (em_dash ++ b' ' ∷ [])) _ (unfold lacks all in refl) (
          lacks-append subs _ hs (
            lacks-append (codes " subscribe, ") _ (unfold lacks all in refl)
              (lacks-append pubs (codes " publish") hp (unfold lacks all in refl))))))

section_header-OneLine : (m : Manifest) → IsPlain m → OneLine (section_header m)
unfolding section_header
section_header-OneLine m v =
    header-OneLine (named m) _ _ (named-OneLine m v)
      (digits-OneLine 20 (length m.capabilities.mqtt.subscribe) [] (unfold lacks all in refl))
      (digits-OneLine 20 (length m.capabilities.mqtt.publish) [] (unfold lacks all in refl))

sections-OneLine : (ms : List Manifest) → All IsPlain ms → All OneLine (sections ms)
unfolding sections
sections-OneLine [] h = tt
sections-OneLine (m ∷ ms) h = (
  unfold lacks all in refl,
  (
    section_header-OneLine m h.0,
    All-append (rules_of m) (sections ms)
        (All-append (map read_rule m.capabilities.mqtt.subscribe)
          (map write_rule m.capabilities.mqtt.publish)
          (map-OneLine (codes "topic read  ") m.capabilities.mqtt.subscribe
            (unfold lacks all in refl) h.0.subscribe)
          (map-OneLine (codes "topic write ") m.capabilities.mqtt.publish (unfold lacks all in refl)
            h.0.publish))
        (sections-OneLine ms h.1),
  ),
)

insert_sorted-IsPlain :
    (m : Manifest) (ms : List Manifest)
    → IsPlain m
    → All IsPlain ms
    → All IsPlain (insert_sorted m ms)
unfolding insert_sorted
insert_sorted-IsPlain m [] v h = (v, tt)
insert_sorted-IsPlain m (n ∷ ms) v h = elim (Bool-cases (text_le m.id n.id)) [
  | inl here ↦ rw here (v, h)
  | inr on ↦ rw on (h.0, insert_sorted-IsPlain m ms v h.1)
]

pub sort_by_id-IsPlain : (ms : List Manifest) → All IsPlain ms → All IsPlain (sort_by_id ms)
unfolding sort_by_id
sort_by_id-IsPlain [] h = tt
sort_by_id-IsPlain (m ∷ ms) h =
    insert_sorted-IsPlain m (sort_by_id ms) h.0 (sort_by_id-IsPlain ms h.1)

head_lines-OneLine :
    (user plugins : Text) → OneLine user → OneLine plugins → All OneLine (head_lines user plugins)
head_lines-OneLine user plugins hu hp = (
  unfold lacks all in refl,
  (
    unfold lacks all in refl,
    (
      lacks-append (codes "# Plugins: ") plugins (unfold lacks all in refl) hp,
      (
        unfold lacks all in refl,
        (lacks-append (codes "user ") user (unfold lacks all in refl) hu, tt),
      ),
    ),
  ),
)

pub acl_lines-OneLine :
    (user : Text) (ms : List Manifest)
    → OneLine user
    → All IsPlain ms
    → All OneLine (acl_lines user ms)
unfolding acl_lines
acl_lines-OneLine user [] hu h =
    All-append (head_lines user (summary [])) (body [])
      (head_lines-OneLine user (summary []) hu (summary-OneLine [] tt))
      (unfold lacks all in refl, tt)
acl_lines-OneLine user (m ∷ ms) hu h =
    All-append (head_lines user (summary (m ∷ ms))) (body (m ∷ ms))
      (head_lines-OneLine user (summary (m ∷ ms)) hu (summary-OneLine (m ∷ ms) h))
      (sections-OneLine (m ∷ ms) h)
