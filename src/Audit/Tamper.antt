-- ===== src/Audit/Tamper.antt =====
-- What the chain of hashes fixes of a file that `verify` accepts, and what it does not.
use iot_athome.Prelude.{
  ℕ, ◌≡◌, refl, ap, sym, ◌∙◌, true, false, inl, inr, Result-cases, List, [], ◌∷◌, map, All, arith,
  Text, lacks, is_empty, some, ok, hex_encode, hex_encode-injective,
}
use iot_athome.Audit.{
  Entry, AuditCrates, AuditLaws, Expected, hash_input, verify_entry, verify_lines, parse_line,
  read_lines, verify,
}
use iot_athome.Audit.Chain.{hex_encode_nonempty}
use iot_athome.Audit.Entries.{
  append-separator, verify_chain, core, newest, digest_of, NoCollision, verify_entry-inversion,
  verify_chain-inversion, expected-newest, NoCollision-older, read_chain,
}

module _ (c : AuditCrates) (laws : AuditLaws c) where
  hash_nonempty :
      (f : Entry c.Value) (fs : List (Entry c.Value)) (y : Expected)
      → verify_chain c (f ∷ fs) ≡ ok y
      → is_empty f.hash ≡ false
  hash_nonempty f fs y h =
      let (m, p, _, last) = verify_chain-inversion c f fs y h in
      let (s, j, _, _, hash, x) = verify_entry-inversion c f m p y last in
      ground (arith, hash, hex_encode_nonempty (digest_of c f.prev f.kind s) (laws.digest_length _))

  -- Entries with one hash have one previous hash, kind and canonical payload.
  same_inputs :
      (e f : Entry c.Value) (s t : Text)
      → lacks b'|' e.prev ≡ true
      → lacks b'|' f.prev ≡ true
      → lacks b'|' e.kind ≡ true
      → lacks b'|' f.kind ≡ true
      → (digest_of c e.prev e.kind s ≡ digest_of c f.prev f.kind t
          → hash_input c e.prev e.kind s ≡ hash_input c f.prev f.kind t)
      → hex_encode (digest_of c e.prev e.kind s) ≡ hex_encode (digest_of c f.prev f.kind t)
      → (e.prev ≡ f.prev) × (e.kind ≡ f.kind) × (s ≡ t)
  same_inputs e f s t pe pf ke kf free same =
      let digests = hex_encode-injective _ _ (laws.digest_bytes _) (laws.digest_bytes _) same in
      let (prev, rest) = append-separator b'|' e.prev f.prev _ _ pe pf (free digests) in
      let (kind, canonical) = append-separator b'|' e.kind f.kind s t ke kf rest in
      (prev, kind, canonical)

  pub verify_chain_exact :
      (es fs : List (Entry c.Value)) (x y : Expected)
      → verify_chain c es ≡ ok x
      → verify_chain c fs ≡ ok y
      → newest c es ≡ newest c fs
      → All (λ e. lacks b'|' e.kind ≡ true) es
      → All (λ f. lacks b'|' f.kind ≡ true) fs
      → NoCollision c es fs
      → (map (core c) es ≡ map (core c) fs) × (x ≡ y)
  unfolding verify_chain
  verify_chain_exact [] [] x y hx hy same ke kf free = (refl, ground (arith, hx, hy))
  verify_chain_exact [] (f ∷ fs) x y hx hy same ke kf free =
      ground (arith, same, hash_nonempty f fs y hy)
  verify_chain_exact (e ∷ es) [] x y hx hy same ke kf free =
      ground (arith, same, hash_nonempty e es x hx)
  verify_chain_exact (e ∷ es) (f ∷ fs) x y hx hy same ke kf free =
      let (m, p, before, last) = verify_chain-inversion c e es x hx in
      let (n, q, before', last') = verify_chain-inversion c f fs y hy in
      let (s, j, seq, prev, hash, end) = verify_entry-inversion c e m p x last in
      let (t, j', seq', prev', hash', end') = verify_entry-inversion c f n q y last' in
      let (head, bars) = expected-newest c es m p before in
      let (head', bars') = expected-newest c fs n q before' in
      let (prevs, kinds, canonicals) =
        same_inputs e f s t (ground (arith, prev, bars)) (ground (arith, prev', bars')) ke.0 kf.0
          (free.0.0 s t j j') (sym hash ∙ same ∙ hash') in
      let (older, expected) =
        verify_chain_exact es fs (m, p) (n, q) before before'
          (ground (arith, prevs, prev, prev', head, head')) ke.1 kf.1
          (NoCollision-older c e f es fs free) in
      let seqs : m ≡ n = ap (λ z. z.0) expected in
      let payloads : c.i_json e.payload ≡ c.i_json f.payload =
        laws.canonical e.payload f.payload t (j ∙ ap some canonicals) j' in
      (cc (older, seq, seqs, seq', prevs, kinds, payloads), cc (end, end', seqs))

  pub verify_lines-read_chain :
      (ls : List Text) (acc es : List (Entry c.Value)) (x y : Expected)
      → verify_chain c acc ≡ ok x
      → verify_lines c ls x ≡ ok y
      → read_chain c ls acc ≡ ok es
      → verify_chain c es ≡ ok y
  unfolding verify_lines read_chain
  verify_lines-read_chain [] acc es x y hx hy r = ground (arith, hx, hy, r)
  verify_lines-read_chain (l ∷ ls) acc es x y hx hy r = elim (Result-cases (parse_line c l)) [
    | inr (e, bad) ↦ ground (arith, bad, r)
    | inl (e, good) ↦ elim (Result-cases (verify_entry c e x)) [
      | inr (e, bad) ↦ ground (arith, good, bad, hy)
      | inl (z, next) ↦
          verify_lines-read_chain ls (e ∷ acc) es z y
            (unfold verify_chain in ground (arith, hx, next)) (ground (arith, good, next, hy))
            (ground (arith, good, r))
    ]
  ]

  verify-chain :
      (file : Text) (es : List (Entry c.Value))
      → verify c (some file) ≡ ok tt
      → read_chain c (read_lines file) [] ≡ ok es
      → (x : Expected) × (verify_chain c es ≡ ok x)
  unfolding verify
  verify-chain file es h r = elim (Result-cases (verify_lines c (read_lines file) (0, []))) [
    | inr (e, bad) ↦ ground (arith, h, bad)
    | inl (x, good) ↦ (
      x,
      verify_lines-read_chain (read_lines file) [] es (0, []) x (unfold verify_chain in refl) good
          r,
    )
  ]

  -- Two files that `verify` accepts and whose newest entries have the same hash agree, entry by entry
  -- and in number, in the sequence numbers, the previous hashes, the kinds, the hashes and the payloads
  -- as RFC 8785 reads them (numbers as doubles); the times may differ. That is so if no kind contains
  -- `|` and the digest has no collision among the inputs of the two files.
  pub verify_exact :
      (file file' : Text) (es fs : List (Entry c.Value))
      → verify c (some file) ≡ ok tt
      → verify c (some file') ≡ ok tt
      → read_chain c (read_lines file) [] ≡ ok es
      → read_chain c (read_lines file') [] ≡ ok fs
      → newest c es ≡ newest c fs
      → All (λ e. lacks b'|' e.kind ≡ true) es
      → All (λ f. lacks b'|' f.kind ≡ true) fs
      → NoCollision c es fs
      → map (core c) es ≡ map (core c) fs
  verify_exact file file' es fs vf vg rf rg same ke kf free =
      let (x, hx) = verify-chain file es vf rf in
      let (y, hy) = verify-chain file' fs vg rg in
      (verify_chain_exact es fs x y hx hy same ke kf free).0

module _ (c : AuditCrates) where
  -- Another time in each entry.
  abbrev pub retime : (ℕ → ℕ) → Entry c.Value → Entry c.Value
  retime f e = record e { at = f e.at }

  -- The times of the entries play no part: `verify` finds the same whatever they are changed to.
  pub verify_chain-retime :
      (f : ℕ → ℕ) (es : List (Entry c.Value))
      → verify_chain c (map (retime f) es) ≡ verify_chain c es
  unfolding verify_chain verify_entry
  verify_chain-retime f [] = refl
  verify_chain-retime f (e ∷ es) = rw (verify_chain-retime f es) refl
