-- ===== src/Install/Vetting.antt =====
-- What the checks before an installation have established.
use mathlib.Core.Path.{subst}
use iot_athome.Prelude.{
  ◌≡◌, refl, sym, ap, ◌∙◌, ◌⊎◌, inl, inr, Bool, true, false, Bool-cases, Option, some, none, Text,
  codes, trim, arith, Result, Result-cases, ok, err,
}
use iot_athome.Json.{Json}
use iot_athome.Acl.{Manifest}
use iot_athome.Sbom.{SbomError, enforce_sbom_policy}
use iot_athome.Files.{FsPath, Fs, join_path, is_file, read}
use iot_athome.Files.Runs.{Within, reading, bind_ok, bind-Within, reading-Within}
use iot_athome.Files.Effects.{Holds, reading_ok, read_ok}
use iot_athome.Install.{
  Verifier, Flags, InstallError, unsigned_refused, or_fail, require, text_of, bytes_of,
  verify_signature, with_trust, enforce_signature_policy, sbom_result, load_manifest, beside, vet,
}

-- The file at `sig_path` is a signature of `blob`, the bytes at `blob_path`, that the key at `pub_pem`
-- verifies.
pub record IsSigned (v : Verifier) (blob_path sig_path pub_pem : FsPath) (fs : Fs) : Type 0 where
  pub pem : Text
  pub vk : v.VerifyingKey
  pub sig_text : Text
  pub sig_bytes : Text
  pub sig : v.Signature
  pub blob : Text
  pub key_text : text_of v (read pub_pem fs) ≡ ok pem
  pub key_file : Holds pub_pem pem fs
  pub key : v.from_public_key_pem pem ≡ some vk
  pub sig_file : Holds sig_path sig_text fs
  pub decoded : v.b64_decode (trim sig_text) ≡ some sig_bytes
  pub der : v.from_der sig_bytes ≡ some sig
  pub blob_file : Holds blob_path blob fs
  pub valid : v.verify vk blob sig ≡ true

or_fail_ok {ℓ} :
    {A : Type ℓ} (e : InstallError) (o : Option A) (a : A) → or_fail e o ≡ ok a → o ≡ some a
or_fail_ok e none a h = cc
or_fail_ok e (some b) a h = ground (arith, h)

require_ok : (e : InstallError) (b : Bool) (u : Unit {0}) → require e b ≡ ok u → b ≡ true
require_ok e true u h = refl
require_ok e false u h = cc

module _ (v : Verifier) where
  text_ok : (p : FsPath) (fs : Fs) (s : Text) → text_of v (read p fs) ≡ ok s → Holds p s fs
  text_ok p fs s h = elim (Result-cases (read p fs)) [
    | inr (e, bad) ↦ ground (arith, h, bad)
    | inl (b, good) ↦ elim (Bool-cases (v.read_utf8 b)) [
      | inr e ↦ ground (arith, h, good, e)
      | inl e ↦ read_ok p s fs (good ∙ ap ok (ground (arith, h, good, e)))
    ]
  ]

  bytes_ok : (p : FsPath) (fs : Fs) (s : Text) → bytes_of v (read p fs) ≡ ok s → Holds p s fs
  bytes_ok p fs s h = elim (Result-cases (read p fs)) [
    | inr (e, bad) ↦ ground (arith, h, bad)
    | inl (b, good) ↦ read_ok p s fs (good ∙ ap ok (ground (arith, h, good)))
  ]

  verify_signature-Within :
      (P : FsPath → Bool) (blob_path sig_path pub_pem : FsPath)
      → Within P (verify_signature v blob_path sig_path pub_pem)
  unfolding verify_signature
  verify_signature-Within P blob_path sig_path pub_pem =
      bind-Within P _ _ (reading-Within P _) (λ _. bind-Within P _ _ (reading-Within P _) (λ _.
        bind-Within P _ _ (reading-Within P _) (λ _. bind-Within P _ _ (reading-Within P _) (λ _.
          bind-Within P _ _ (reading-Within P _)
            (λ _. bind-Within P _ _ (reading-Within P _) (λ _. reading-Within P _))))))

  pub verify_signature-IsSigned :
      (blob_path sig_path pub_pem : FsPath) (fs last : Fs)
      → verify_signature v blob_path sig_path pub_pem fs ≡ (last, ok tt)
      → (fs ≡ last) × IsSigned v blob_path sig_path pub_pem fs
  unfolding verify_signature
  verify_signature-IsSigned blob_path sig_path pub_pem fs last h0 =
      let (pem, fs1, r1, h1) = bind_ok _ _ h0 in
      let (vk, fs2, r2, h2) = bind_ok _ _ h1 in
      let (sig_text, fs3, r3, h3) = bind_ok _ _ h2 in
      let (sig_bytes, fs4, r4, h4) = bind_ok _ _ h3 in
      let (sig, fs5, r5, h5) = bind_ok _ _ h4 in
      let (blob, fs6, r6, h6) = bind_ok _ _ h5 in
      let (e1, g1) = reading_ok _ r1 in
      let (e2, g2) = reading_ok _ r2 in
      let (e3, g3) = reading_ok _ r3 in
      let (e4, g4) = reading_ok _ r4 in
      let (e5, g5) = reading_ok _ r5 in
      let (e6, g6) = reading_ok _ r6 in
      let (e7, g7) = reading_ok _ h6 in
      (
        e1 ∙ e2 ∙ e3 ∙ e4 ∙ e5 ∙ e6 ∙ e7,
        record {
          pem = pem;
          vk = vk;
          sig_text = sig_text;
          sig_bytes = sig_bytes;
          sig = sig;
          blob = blob;
          key_text = g1;
          key_file = text_ok pub_pem fs pem g1;
          key = or_fail_ok _ (v.from_public_key_pem pem) vk g2;
          sig_file =
              subst (Holds sig_path sig_text) (sym (e1 ∙ e2)) (text_ok sig_path fs2 sig_text g3);
          decoded = or_fail_ok _ (v.b64_decode (trim sig_text)) sig_bytes g4;
          der = or_fail_ok _ (v.from_der sig_bytes) sig g5;
          blob_file =
              subst (Holds blob_path blob) (sym (e1 ∙ e2 ∙ e3 ∙ e4 ∙ e5))
                (bytes_ok blob_path fs5 blob g6);
          valid = require_ok _ (v.verify vk blob sig) tt g7;
        },
      )

  -- The signature policy is met.
  unfoldable pub Approved : FsPath → FsPath → Option FsPath → Bool → Fs → Type 0
  Approved wasm_path sig_path trust_pub allow_unsigned fs =
      ((is_file sig_path fs ≡ true)
        × (pub_pem : FsPath) × (trust_pub ≡ some pub_pem)
        × IsSigned v wasm_path sig_path pub_pem fs)
      ⊎ ((is_file sig_path fs ≡ false) × (allow_unsigned ≡ true))

  with_trust_ok :
      (wasm_path sig_path : FsPath) (trust_pub : Option FsPath) (fs last : Fs)
      → with_trust v wasm_path sig_path trust_pub fs ≡ (last, ok tt)
      → (fs ≡ last)
        × (pub_pem : FsPath) × (trust_pub ≡ some pub_pem)
        × IsSigned v wasm_path sig_path pub_pem fs
  unfolding reading
  with_trust_ok wasm_path sig_path none fs last h = cc
  with_trust_ok wasm_path sig_path (some p) fs last h =
      let (same, signed) = verify_signature-IsSigned wasm_path sig_path p fs last h in
      (same, p, refl, signed)

  enforce_signature_policy_ok :
      (wasm_path sig_path : FsPath) (trust_pub : Option FsPath) (allow_unsigned : Bool)
      (fs last : Fs)
      → enforce_signature_policy v wasm_path sig_path trust_pub allow_unsigned fs ≡ (last, ok tt)
      → (fs ≡ last) × Approved wasm_path sig_path trust_pub allow_unsigned fs
  unfolding enforce_signature_policy Approved
  enforce_signature_policy_ok wasm_path sig_path trust_pub allow_unsigned fs last h =
      elim (Bool-cases (is_file sig_path fs)) [
        | inl e ↦
            let same_run : with_trust v wasm_path sig_path trust_pub fs
                ≡ enforce_signature_policy v wasm_path sig_path trust_pub allow_unsigned fs =
              rw e refl in
            let (same, p, given, signed) =
              with_trust_ok wasm_path sig_path trust_pub fs last (same_run ∙ h) in
            (same, inl (e, p, given, signed))
        | inr e ↦
            let same_run : (fs, require unsigned_refused allow_unsigned)
                ≡ enforce_signature_policy v wasm_path sig_path trust_pub allow_unsigned fs =
              rw e refl in
            let at = same_run ∙ h in
            (
              ap (λ r. r.0) at,
              inr (e, require_ok unsigned_refused allow_unsigned tt (ap (λ r. r.1) at)),
            )
      ]

module _ (v : Verifier) (P : FsPath → Bool) where
  with_trust-Within :
      (wasm_path sig_path : FsPath) (trust_pub : Option FsPath)
      → Within P (with_trust v wasm_path sig_path trust_pub)
  with_trust-Within wasm_path sig_path none = reading-Within P _
  with_trust-Within wasm_path sig_path (some p) = verify_signature-Within v P wasm_path sig_path p

  enforce_signature_policy-Within :
      (wasm_path sig_path : FsPath) (trust_pub : Option FsPath) (allow_unsigned : Bool)
      → Within P (enforce_signature_policy v wasm_path sig_path trust_pub allow_unsigned)
  unfolding enforce_signature_policy Within
  enforce_signature_policy-Within wasm_path sig_path trust_pub allow_unsigned fs q out =
      elim (Bool-cases (is_file sig_path fs)) [
        | inl e ↦ rw e (with_trust-Within wasm_path sig_path trust_pub fs q out)
        | inr e ↦ rw e refl
      ]

-- The manifest is one that the host supports, its entry point is there, the signature is approved and
-- the SBOM passes.
pub record Vetted {N : Type 0} (v : Verifier) (from_slice : Text → Option (Json N)) (src : FsPath)
    (flags : Flags) (fs : Fs) (m : Manifest) : Type 0 where
  pub manifest : load_manifest v (join_path src (codes "manifest.yaml")) fs ≡ ok m
  pub entry : is_file (join_path src m.entrypoint) fs ≡ true
  pub approved :
      Approved v
        (join_path src m.entrypoint)
        (beside (join_path src m.entrypoint) (codes "sig"))
        flags.trust_pub
        flags.allow_unsigned
        fs
  pub sbom :
      enforce_sbom_policy from_slice
        (join_path src (codes "sbom.cdx.json"))
        flags.allow_vulnerabilities
        fs
      ≡ ok tt

module _ {N : Type 0} (v : Verifier) (from_slice : Text → Option (Json N)) where
  sbom_ok : (r : Result SbomError (Unit {0})) (u : Unit {0}) → sbom_result r ≡ ok u → r ≡ ok tt
  sbom_ok (ok _) u h = refl
  sbom_ok (err e) u h = cc

  -- `vet` accepts a bundle only if it is vetted, and changes nothing.
  pub vet_ok :
      (src : FsPath) (flags : Flags) (fs last : Fs) (m : Manifest)
      → vet v from_slice src flags fs ≡ (last, ok m)
      → (fs ≡ last) × Vetted v from_slice src flags fs m
  unfolding vet
  vet_ok src flags fs last m h0 =
      let (loaded, fs1, r1, h1) = bind_ok _ _ h0 in
      let (_, fs2, r2, h2) = bind_ok _ _ h1 in
      let (_, fs3, r3, h3) = bind_ok _ _ h2 in
      let (_, fs4, r4, h4) = bind_ok _ _ h3 in
      let (e1, g1) = reading_ok _ r1 in
      let (e2, g2) = reading_ok _ r2 in
      let (e3, approved) =
        enforce_signature_policy_ok v _ _ flags.trust_pub flags.allow_unsigned fs2 fs3 r3 in
      let (e4, g4) = reading_ok _ r4 in
      let (e5, g5) = reading_ok _ h4 in
      let same : loaded ≡ m = ground (arith, g5) in
      (
        e1 ∙ e2 ∙ e3 ∙ e4 ∙ e5,
        subst (Vetted v from_slice src flags fs) same (record {
          manifest = g1;
          entry =
              subst (λ g. is_file (join_path src loaded.entrypoint) g ≡ true) (sym e1)
                (require_ok _ _ _ g2);
          approved =
              subst (Approved v _ _ flags.trust_pub flags.allow_unsigned) (sym (e1 ∙ e2)) approved;
          sbom =
              subst
                (λ g.
                  enforce_sbom_policy from_slice (join_path src (codes "sbom.cdx.json"))
                    flags.allow_vulnerabilities g
                  ≡ ok tt)
                (sym (e1 ∙ e2 ∙ e3)) (sbom_ok _ _ g4);
        }),
      )

  vet-Within :
      (P : FsPath → Bool) (src : FsPath) (flags : Flags) → Within P (vet v from_slice src flags)
  unfolding vet
  vet-Within P src flags = bind-Within P _ _ (reading-Within P _) (λ m.
      bind-Within P _ _ (reading-Within P _) (λ _.
        bind-Within P _ _
          (enforce_signature_policy-Within v P _ _ flags.trust_pub flags.allow_unsigned)
          (λ _. bind-Within P _ _ (reading-Within P _) (λ _. reading-Within P _))))

  -- The checks change nothing, whether they pass or not.
  pub vet_reads :
      (src : FsPath) (flags : Flags) (fs : Fs) (q : FsPath)
      → (vet v from_slice src flags fs).0 q ≡ fs q
  unfolding Within
  vet_reads src flags fs q = vet-Within (λ _. false) src flags fs q refl

  -- The manifest that `vet` passes on is the one it read.
  pub vet_manifest :
      (src : FsPath) (flags : Flags) (fs : Fs) (m n : Manifest)
      → load_manifest v (join_path src (codes "manifest.yaml")) fs ≡ ok m
      → (vet v from_slice src flags fs).1 ≡ ok n
      → n ≡ m
  vet_manifest src flags fs m n read good =
      let (_, vetted) =
        vet_ok src flags fs (vet v from_slice src flags fs).0 n
          (ap (λ r. ((vet v from_slice src flags fs).0, r)) good) in
      ground (arith, vetted.manifest, read)
