-- ===== src/Install/Status.antt =====
-- The list's signature column.
use mathlib.Core.Path.{subst}
use iot_athome.Prelude.{
  ◌⊎◌, ℕ, suc, zero, ◌*◌, ◌≡◌, ◌≤◌, refl, sym, ap, ◌∙◌, inl, inr, List, [], ◌∷◌, ◌++◌, length,
  Bool-cases, Option, some, none, Text, codes, arith, Result, ok, err, hex_encode,
}
use iot_athome.Files.{FsPath, Fs, join_path, is_file}
use iot_athome.Install.{Verifier, InstallError, beside, verify_signature}
use iot_athome.Install.Vetting.{IsSigned, verify_signature-IsSigned}
use iot_athome.Install.Posture.{
  SignatureStatus, verified, verification_failed, signed_unverified, unsigned, pubkey_fingerprint,
  signature_status, or_unknown, prefix_of, label, with_key, after_check, hashed,
}

prefix_of-some : (n : ℕ) (s : Text) → n ≤ length s → (t : Text) × (prefix_of n s ≡ some t)
unfolding prefix_of
prefix_of-some zero s h = ([], refl)
prefix_of-some (suc n) [] h = absurd (omega (arith, h))
prefix_of-some (suc n) (c ∷ s) h =
    let (t, e) = prefix_of-some n s (omega (arith, h)) in (c ∷ t, rw e refl)

length-hex_encode : (bytes : List ℕ) → length (hex_encode bytes) ≡ length bytes * 2
unfolding hex_encode
length-hex_encode [] = refl
length-hex_encode (b ∷ bytes) = omega (arith, length-hex_encode bytes)

module _ (v : Verifier) (install_dir : FsPath) (entrypoint : Text) where
  abbrev wasm_path : FsPath
  wasm_path = join_path install_dir entrypoint

  abbrev sig_path : FsPath
  sig_path = beside wasm_path (codes "sig")

  pubkey_fingerprint-IsSigned :
      (p : FsPath) (fs : Fs) (s : IsSigned v wasm_path sig_path p fs)
      → pubkey_fingerprint v p fs ≡ hashed v (v.to_public_key_der s.vk)
  unfolding pubkey_fingerprint
  pubkey_fingerprint-IsSigned p fs s = rw (s.key_text, s.key) refl

  -- What is shown as the fingerprint of a key: the digest of its DER form, or the text `unknown` where
  -- it has none.
  pub IsPrint : v.VerifyingKey → Text → Type 0
  IsPrint vk f =
      ((der : Text) × (v.to_public_key_der vk ≡ some der) × (f ≡ hex_encode (v.sha256 der)))
      ⊎ ((v.to_public_key_der vk ≡ none) × (f ≡ codes "unknown"))

  or_unknown-IsPrint :
      (vk : v.VerifyingKey) (o : Option Text)
      → v.to_public_key_der vk ≡ o
      → IsPrint vk (or_unknown (hashed v o))
  unfolding IsPrint
  or_unknown-IsPrint vk none e = inr (e, refl)
  or_unknown-IsPrint vk (some der) e = inl (der, e, refl)

  -- The fingerprint text of a path, if the signature verified with the key in it.
  Shown : FsPath → Fs → Text → Type 0
  Shown p fs f = (s : IsSigned v wasm_path sig_path p fs) × IsPrint s.vk f

  after_check_verified :
      (p : FsPath) (fs : Fs) (f : Text) (r : Fs × Result InstallError (Unit {0}))
      → verify_signature v wasm_path sig_path p fs ≡ r
      → after_check v p r ≡ verified f
      → Shown p fs f
  unfolding Shown
  after_check_verified p fs f (g, err e) h k = cc
  after_check_verified p fs f (g, ok _) h k =
      let (same, signed) = verify_signature-IsSigned v wasm_path sig_path p fs g h in
      let print : f ≡ or_unknown (pubkey_fingerprint v p fs) =
        cc (ap (λ x. or_unknown (pubkey_fingerprint v p x)) same, k) in
      (
        signed,
        subst (IsPrint signed.vk)
            (sym (print ∙ ap or_unknown (pubkey_fingerprint-IsSigned p fs signed)))
            (or_unknown-IsPrint signed.vk (v.to_public_key_der signed.vk) refl),
      )

  -- The list says `verified` of an installed plugin only if a trust key is given and the plugin's detached
  -- signature verifies under it on the installed bytes. What it shows beside is then the SHA-256 digest
  -- of that very key's DER form, or the text `unknown` if the key has no DER form.
  pub signature_status-IsSigned :
      (trust_pub : Option FsPath) (fs : Fs) (f : Text)
      → signature_status v install_dir entrypoint trust_pub fs ≡ verified f
      → (p : FsPath) × (trust_pub ≡ some p)
        × (s : IsSigned v wasm_path sig_path p fs) × IsPrint s.vk f
  unfolding signature_status Shown
  signature_status-IsSigned trust_pub fs f h = elim (Bool-cases (is_file sig_path fs)) [
    | inr e ↦
        let none_there : unsigned ≡ signature_status v install_dir entrypoint trust_pub fs =
          rw e refl in
        cc (none_there ∙ h)
    | inl e ↦ by_key trust_pub (sym (rw e refl) ∙ h)
  ]
    where
      by_key :
          (o : Option FsPath)
          → with_key v wasm_path sig_path o fs ≡ verified f
          → (p : FsPath) × (o ≡ some p) × (s : IsSigned v wasm_path sig_path p fs) × IsPrint s.vk f
      by_key none k = cc
      by_key (some p) k =
          let (signed, e) =
            after_check_verified p fs f (verify_signature v wasm_path sig_path p fs) refl k in
          (p, refl, signed, e)

  the_digest :
      (vk : v.VerifyingKey) (der f : Text)
      → v.to_public_key_der vk ≡ some der
      → IsPrint vk f
      → f ≡ hex_encode (v.sha256 der)
  unfolding IsPrint
  the_digest vk der f e (inl (d, has, is)) =
      let same : ◌≡◌ {A = Option Text} (some d) (some der) = sym has ∙ e in
      is ∙ ap (λ x. hex_encode (v.sha256 x)) (cc same)
  the_digest vk der f e (inr (lacks, is)) =
      let clash : ◌≡◌ {A = Option Text} none (some der) = sym lacks ∙ e in absurd (cc clash)

  -- The label of a status never panics on its slice of 16 characters, if a key that verifies can be
  -- encoded and the hash has 32 bytes.
  pub label_total :
      (trust_pub : Option FsPath) (fs : Fs)
      → ((vk : v.VerifyingKey) → (der : Text) × (v.to_public_key_der vk ≡ some der))
      → ((bytes : Text) → length (v.sha256 bytes) ≡ 32)
      → (text : Text) × (label (signature_status v install_dir entrypoint trust_pub fs) ≡ some text)
  unfolding label
  label_total trust_pub fs encodes size =
      by_status (signature_status v install_dir entrypoint trust_pub fs) refl
    where
      by_status :
          (st : SignatureStatus)
          → signature_status v install_dir entrypoint trust_pub fs ≡ st
          → (text : Text) × (label st ≡ some text)
      by_status verification_failed e = (codes "verification-failed", refl)
      by_status signed_unverified e = (codes "signed (unverified)", refl)
      by_status unsigned e = (codes "unsigned", refl)
      by_status (verified f) e =
          let (p, _, signed, is) = signature_status-IsSigned trust_pub fs f e in
          let (der, encoded) = encodes signed.vk in
          let print = the_digest signed.vk der f encoded is in
          let (t, cut) =
            prefix_of-some 16 f
              (omega (arith, ap length print, length-hex_encode (v.sha256 der), size der)) in
          (codes "verified " ++ t, rw cut refl)
