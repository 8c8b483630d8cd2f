-- ===== src/Audit/Entries.antt =====
-- The entries of a file that `verify` accepts, taken apart one by one.
use iot_athome.Prelude.{
  ℕ, ◌+◌, ◌%◌, ◌^◌, ◌≡◌, refl, true, inl, inr, Option-cases, Result-cases, List, [], ◌∷◌, ◌++◌, All,
  All-map, arith, Text, text_eq→eq, lacks, all, some, ok, ◌>>=◌, hex_encode, hex_encode-lacks,
}
use iot_athome.Audit.{
  Entry, AuditCrates, Checked, Expected, hash_entry, hash_input, verify_entry, parse_line,
}

-- The text up to a separator that it lacks is determined.
pub append-separator :
    (sep : ℕ) (a b s t : Text)
    → lacks sep a ≡ true
    → lacks sep b ≡ true
    → a ++ sep ∷ s ≡ b ++ sep ∷ t
    → (a ≡ b) × (s ≡ t)
unfolding lacks all
append-separator sep [] [] s t ha hb e = ground (arith, e)
append-separator sep [] (y ∷ b) s t ha hb e = ground (arith, e)
append-separator sep (x ∷ a) [] s t ha hb e = ground (arith, e)
append-separator sep (x ∷ a) (y ∷ b) s t ha hb e = ground (arith, e, append-separator sep a b s t)

module _ (c : AuditCrates) where
  -- `verify` on entries that are already parsed, the newest first.
  unfoldable pub verify_chain : List (Entry c.Value) → Checked Expected
  verify_chain [] = ok (0, [])
  verify_chain (e ∷ older) = verify_chain older >>= λ x. verify_entry c e x

  -- Everything but the time, with the payload as RFC 8785 reads it.
  abbrev pub Core : Type 0
  Core = ℕ × Text × Text × c.Value × Text

  abbrev pub core : Entry c.Value → Core
  core e = (e.seq, e.prev, e.kind, c.i_json e.payload, e.hash)

  -- The newest hash, or the empty one.
  abbrev pub newest : List (Entry c.Value) → Text
  newest [] = []
  newest (e ∷ older) = e.hash

  abbrev pub digest_of : Text → Text → Text → List ℕ
  digest_of prev kind canonical = c.sha256 (hash_input c prev kind canonical)

  -- No two inputs that the two chains hash have the same digest.
  abbrev pub NoCollision : List (Entry c.Value) → List (Entry c.Value) → Type 0
  NoCollision es fs =
      All
        (λ e.
          All
            (λ f.
              (s t : Text)
              → c.jcs e.payload ≡ some s
              → c.jcs f.payload ≡ some t
              → digest_of e.prev e.kind s ≡ digest_of f.prev f.kind t
              → hash_input c e.prev e.kind s ≡ hash_input c f.prev f.kind t)
            fs)
        es

  pub verify_entry-inversion :
      (e : Entry c.Value) (n : ℕ) (prev : Text) (x : Expected)
      → verify_entry c e (n, prev) ≡ ok x
      → (s : Text) × (c.jcs e.payload ≡ some s)
        × (e.seq ≡ n)
        × (e.prev ≡ prev)
        × (e.hash ≡ hex_encode (digest_of e.prev e.kind s))
        × (x ≡ ((n + 1) % 2 ^ 64, e.hash))
  unfolding verify_entry hash_entry
  verify_entry-inversion e n prev x h = elim (Option-cases (c.jcs e.payload)) [
    | inl j ↦ ground (arith, h, j)
    | inr (s, j) ↦
        let a = text_eq→eq e.prev prev in
        let b = text_eq→eq (hex_encode (digest_of e.prev e.kind s)) e.hash in
        (
          s,
          j,
          ground (arith, h, j),
          ground (arith, h, j, a, b),
          ground (arith, h, j, a, b),
          ground (arith, h, j, a, b),
        )
  ]

  -- An accepted chain, taken apart at its newest entry.
  pub verify_chain-inversion :
      (e : Entry c.Value) (older : List (Entry c.Value)) (x : Expected)
      → verify_chain (e ∷ older) ≡ ok x
      → (n : ℕ) × (prev : Text) × (verify_chain older ≡ ok (n, prev))
        × (verify_entry c e (n, prev) ≡ ok x)
  unfolding verify_chain
  verify_chain-inversion e older x h = elim (Result-cases (verify_chain older)) [
    | inr (err_, bad) ↦ ground (arith, h, bad)
    | inl ((n, prev), good) ↦ (n, prev, good, ground (arith, h, good))
  ]

  pub expected-newest :
      (es : List (Entry c.Value)) (n : ℕ) (prev : Text)
      → verify_chain es ≡ ok (n, prev)
      → (prev ≡ newest es) × (lacks b'|' prev ≡ true)
  unfolding verify_chain lacks all
  expected-newest [] n prev h = ground (arith, h)
  expected-newest (e ∷ older) n prev h =
      let (m, p, _, last) = verify_chain-inversion e older (n, prev) h in
      let (s, _, _, _, hash, x) = verify_entry-inversion e m p (n, prev) last in
      ground (arith, hash, x, hex_encode-lacks b'|' (digest_of e.prev e.kind s) refl)

  pub NoCollision-older :
      (e f : Entry c.Value) (es fs : List (Entry c.Value))
      → NoCollision (e ∷ es) (f ∷ fs)
      → NoCollision es fs
  NoCollision-older e f es fs h = All-map es (λ g a. a.1) h.1

  -- The entries of a file's lines, the newest first, put before those that are read already.
  unfoldable pub read_chain : List Text → List (Entry c.Value) → Checked (List (Entry c.Value))
  read_chain [] acc = ok acc
  read_chain (l ∷ ls) acc = parse_line c l >>= λ e. read_chain ls (e ∷ acc)
