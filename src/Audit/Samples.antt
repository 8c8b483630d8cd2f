-- ===== src/Audit/Samples.antt =====
-- A log of two entries, over a small stand-in for the crates: texts as JSON values, a digest of
-- the length, and an entry's line looked up in a table.
use iot_athome.Prelude.{
  sym, ◌∙◌, take, trim_end, ℕ, zero, suc, ◌%◌, ◌≡◌, ◌⊎◌, ◌<◌, Bool-cases, refl, ap, true, inl, inr,
  List, [], ◌∷◌, ◌++◌, map, All, Bool, ◌&&◌, arith, ◌==◌, Text, text_eq, text_eq→eq, lacks, all,
  length, if◌then◌else◌, some, none, Option, ok, err, hex_encode, hex_digit, codes,
}
use iot_athome.Audit.{
  Entry, verify_lines, verify_entry, parse_line, hash_entry, AuditCrates, AuditLaws, hash_input,
  read_lines, verify, open_log, complete, cut, append, json,
}
use iot_athome.Audit.Chain.{Request, fresh, serve, serve_accepted}
use iot_athome.Audit.Entries.{core, NoCollision, digest_of, read_chain, verify_chain}
use iot_athome.Audit.Tamper.{verify_exact, retime, verify_chain-retime}

abbrev repeat : ℕ → ℕ → List ℕ
repeat zero b = []
repeat (suc n) b = b ∷ repeat n b

abbrev sample_digest : Text → List ℕ
sample_digest x = length x % 256 ∷ repeat 31 0

abbrev sample_entry : ℕ → Text → ℕ → Text → Text → Entry Text
sample_entry seq prev at kind payload = record {
  seq = seq;
  prev = prev;
  at = at;
  kind = kind;
  payload = payload;
  hash = hex_encode (sample_digest (prev ++ b'|' ∷ (kind ++ b'|' ∷ payload)));
}

abbrev first : Entry Text
first = sample_entry 0 [] 5 (codes "add") (codes "1")

abbrev second : Entry Text
second = sample_entry 1 first.hash 6 (codes "remove") (codes "2")

abbrev late : Entry Text
late = sample_entry 0 [] 9 (codes "add") (codes "1")

abbrev same : Entry Text → Entry Text → Bool
same e f =
    e.seq == f.seq
    && text_eq e.prev f.prev
    && e.at == f.at
    && text_eq e.kind f.kind
    && text_eq e.payload f.payload
    && text_eq e.hash f.hash

same→eq : (e f : Entry Text) → same e f ≡ true → e ≡ f
same→eq e f h = ground (
  arith,
  text_eq→eq e.prev f.prev,
  text_eq→eq e.kind f.kind,
  text_eq→eq e.payload f.payload,
  text_eq→eq e.hash f.hash,
)

abbrev print : Entry Text → Option Text
print e =
    if same e first
    then some (codes "0}")
    else if same e second
    then some (codes "1}")
    else if same e late
    then some (codes "2}")
    else none

abbrev read : Text → Option (Entry Text)
read line =
    if text_eq line (codes "0}")
    then some first
    else if text_eq line (codes "1}")
    then some second
    else if text_eq line (codes "2}")
    then some late
    else none

abbrev sample_crates : AuditCrates
sample_crates = record {
  Value = Text;
  jcs = some;
  i_json = λ v. v;
  sha256 = sample_digest;
  to_string = print;
  from_str = read;
}

-- What `print` makes of an entry, and of which one.
print-cases :
    (e : Entry Text) (line : Text)
    → print e ≡ some line
    → ((e ≡ first) × (line ≡ codes "0}"))
      ⊎ ((e ≡ second) × (line ≡ codes "1}"))
      ⊎ ((e ≡ late) × (line ≡ codes "2}"))
print-cases e line h = elim (Bool-cases (same e first)) [
  | inl x ↦ inl (same→eq e first x, ground (arith, h, x))
  | inr x ↦ elim (Bool-cases (same e second)) [
    | inl y ↦ inr (inl (same→eq e second y, ground (arith, h, x, y)))
    | inr y ↦ elim (Bool-cases (same e late)) [
      | inl z ↦ inr (inr (same→eq e late z, ground (arith, h, x, y, z)))
      | inr z ↦ ground (arith, h, x, y, z)
    ]
  ]
]

digest_length : (n b : ℕ) → length (repeat n b) ≡ n
digest_length zero b = refl
digest_length (suc n) b = omega (arith, digest_length n b)

digest_bytes : (n b : ℕ) → b < 256 → All (λ d. d < 256) (repeat n b)
digest_bytes zero b h = tt
digest_bytes (suc n) b h = (h, digest_bytes n b h)

same_text : {a b : Text} → ◌≡◌ {A = Option Text} (some a) (some b) → a ≡ b
same_text h = cc h

sample_laws : AuditLaws sample_crates
unfolding lacks all text_eq
sample_laws = record {
  one_line = λ e line h. elim (print-cases e line h) [
    | inl (_, l) ↦ rw l refl
    | inr (inl (_, l)) ↦ rw l refl
    | inr (inr (_, l)) ↦ rw l refl
  ];
  closed = λ e line h. elim (print-cases e line h) [
    | inl (_, l) ↦ (codes "0", l)
    | inr (inl (_, l)) ↦ (codes "1", l)
    | inr (inr (_, l)) ↦ (codes "2", l)
  ];
  reads_back = λ e line h. elim (print-cases e line h) [
    | inl (d, l) ↦ rw (l, d) refl
    | inr (inl (d, l)) ↦ rw (l, d) refl
    | inr (inr (d, l)) ↦ rw (l, d) refl
  ];
  canonical = λ v w s j k. same_text (j ∙ sym k);
  digest_length = λ x. ap suc (digest_length 31 0);
  digest_bytes = λ x. (omega arith, digest_bytes 31 0 (omega arith));
}

abbrev requests : List (Request Text)
requests =
    record { written = complete; at = 5; kind = codes "add"; payload = codes "1" }
    ∷ record { written = cut 0; at = 5; kind = codes "add"; payload = codes "1" }
    ∷ record { written = complete; at = 6; kind = codes "remove"; payload = codes "2" }
    ∷ []

serve_accepted_example :
    ((serve sample_crates requests fresh).disk ≡ none
      ⊎ verify sample_crates (serve sample_crates requests fresh).disk ≡ ok tt)
    × (open_log sample_crates (serve sample_crates requests fresh).disk
        ≡ ok (serve sample_crates requests fresh))
serve_accepted_example = serve_accepted sample_crates sample_laws requests (tt, (refl, (tt, tt)))

-- The newline of the first line is lost: the next call succeeds on the same line, and `verify` fails.
abbrev torn : List (Request Text)
torn =
    record { written = cut 2; at = 5; kind = codes "add"; payload = codes "1" }
    ∷ record { written = complete; at = 5; kind = codes "add"; payload = codes "1" }
    ∷ []

torn_log : verify sample_crates (serve sample_crates torn fresh).disk ≡ err json
unfolding verify verify_lines parse_line hash_entry trim_end text_eq hex_encode hex_digit read_lines
    serve append take
torn_log = refl

abbrev two_lines : Text
two_lines = codes "0}" ++ b'\n' ∷ (codes "1}" ++ b'\n' ∷ [])

abbrev forged_lines : Text
forged_lines = codes "2}" ++ b'\n' ∷ (codes "1}" ++ b'\n' ∷ [])

-- For the payloads that the entries have, the inputs are as given.
pair_free :
    (e f : Entry Text)
    → (digest_of sample_crates e.prev e.kind e.payload
          ≡ digest_of sample_crates f.prev f.kind f.payload
        → hash_input sample_crates e.prev e.kind e.payload
          ≡ hash_input sample_crates f.prev f.kind f.payload)
    → (s t : Text) → some e.payload ≡ some s
    → some f.payload ≡ some t
    → digest_of sample_crates e.prev e.kind s ≡ digest_of sample_crates f.prev f.kind t
    → hash_input sample_crates e.prev e.kind s ≡ hash_input sample_crates f.prev f.kind t
pair_free e f h s t j k d = ground (arith, h (ground (arith, d, j, k)), j, k)

free_of_collisions : NoCollision sample_crates (second ∷ first ∷ []) (second ∷ late ∷ [])
unfolding hex_encode
free_of_collisions = (
  (pair_free second second (λ d. refl), (pair_free second late (λ d. ground arith), tt)),
  ((pair_free first second (λ d. ground arith), (pair_free first late (λ d. refl), tt)), tt),
)

verify_exact_example :
    map (core sample_crates) (second ∷ first ∷ []) ≡ map (core sample_crates) (second ∷ late ∷ [])
unfolding verify verify_lines verify_entry parse_line hash_entry trim_end text_eq hex_encode
    hex_digit read_chain lacks all read_lines
verify_exact_example =
    verify_exact sample_crates sample_laws two_lines forged_lines (second ∷ first ∷ [])
      (second ∷ late ∷ []) refl refl refl refl refl (refl, (refl, tt)) (refl, (refl, tt))
      free_of_collisions

verify_chain-retime_run :
    verify_chain sample_crates (map (retime sample_crates (λ t. 9)) (second ∷ first ∷ []))
    ≡ verify_chain sample_crates (second ∷ first ∷ [])
verify_chain-retime_run = verify_chain-retime sample_crates (λ t. 9) (second ∷ first ∷ [])
