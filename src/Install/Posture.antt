-- ===== src/Install/Posture.antt =====
-- What `iotctl plugin list` says of each installed plugin.
use iot_athome.Prelude.{
  ℕ, [], ◌∷◌, ◌++◌, Option, some, none, Text, codes, hex_encode, if◌then◌else◌, Result, ok, err,
  suc, zero,
}
use iot_athome.Files.{FsPath, Fs, join_path, is_file, read}
use iot_athome.Install.{Verifier, InstallError, beside, verify_signature, text_of}

pub data SignatureStatus : Type 0 where
  verified : Text → SignatureStatus
  verification_failed signed_unverified unsigned : SignatureStatus

abbrev pub hashed : (v : Verifier) → Option Text → Option Text
hashed v none = none
hashed v (some der) = some (hex_encode (v.sha256 der))

abbrev pub key_digest : (v : Verifier) → Option v.VerifyingKey → Option Text
key_digest v none = none
key_digest v (some vk) = hashed v (v.to_public_key_der vk)

abbrev pem_digest : (v : Verifier) → Result InstallError Text → Option Text
pem_digest v (err e) = none
pem_digest v (ok pem) = key_digest v (v.from_public_key_pem pem)

-- `.ok()` of it: the caller drops the error.
unfoldable pub pubkey_fingerprint : Verifier → FsPath → Fs → Option Text
pubkey_fingerprint v pub_pem fs = pem_digest v (text_of v (read pub_pem fs))

abbrev pub or_unknown : Option Text → Text
or_unknown none = codes "unknown"
or_unknown (some s) = s

abbrev pub after_check :
    (v : Verifier) → FsPath → Fs × Result InstallError (Unit {0}) → SignatureStatus
after_check v trust_pub (fs, err e) = verification_failed
after_check v trust_pub (fs, ok _) = verified (or_unknown (pubkey_fingerprint v trust_pub fs))

abbrev pub with_key : Verifier → FsPath → FsPath → Option FsPath → Fs → SignatureStatus
with_key v wasm_path sig_path none fs = signed_unverified
with_key v wasm_path sig_path (some trust_pub) fs =
    after_check v trust_pub (verify_signature v wasm_path sig_path trust_pub fs)

unfoldable pub signature_status : Verifier → FsPath → Text → Option FsPath → Fs → SignatureStatus
signature_status v install_dir entrypoint trust_pub fs =
    let wasm_path = join_path install_dir entrypoint in
    let sig_path = beside wasm_path (codes "sig") in
    if is_file sig_path fs then with_key v wasm_path sig_path trust_pub fs else unsigned

-- &s[..n], or the panic when the text is shorter.
unfoldable pub prefix_of : ℕ → Text → Option Text
prefix_of zero s = some []
prefix_of (suc n) [] = none
prefix_of (suc n) (c ∷ s) = elim (prefix_of n s) [ none ↦ none | some t ↦ some (c ∷ t) ]

abbrev labelled : Option Text → Option Text
labelled none = none
labelled (some s) = some (codes "verified " ++ s)

-- None is a panic.
unfoldable pub label : SignatureStatus → Option Text
label (verified fingerprint) = labelled (prefix_of 16 fingerprint)
label verification_failed = some (codes "verification-failed")
label signed_unverified = some (codes "signed (unverified)")
label unsigned = some (codes "unsigned")
