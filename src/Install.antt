-- ===== src/Install.antt =====
-- crates/iot-cli/src/plugin.rs: the installation of a plugin bundle, its removal, and what the list
-- says of its signature. p256, base64, serde, nkeys and the parsers are arguments; so are the fresh key
-- and the process around. What is only printed or logged is left out.
mod Names
mod Vetting
mod Placement
mod Content
mod Identity
mod Removal
pub mod Posture
mod Status
mod Samples
use iot_athome.Prelude.{
  ℕ, List, [], ◌∷◌, ◌++◌, map, Bool, true, false, not, ◌||◌, Option, some, none, Text, codes, trim,
  is_empty, if◌then◌else◌, Result, ok, err, is_ok, hex_encode,
}
use iot_athome.Json.{Json, Items, nil, item, Fields, no_field, field, string, array, object}
use iot_athome.Capabilities.{CapabilityMap}
use iot_athome.Acl.{Manifest, ManifestError, load}
use iot_athome.Sbom.{SbomError, enforce_sbom_policy}
use iot_athome.Jwt.{Nkeys, Codec}
use iot_athome.Nats.{
  Host, NatsError, io, encode_seed, parse_json, mapped, store, read_to_string, load_key, parse_acl,
  issue_and_format_creds,
}
use iot_athome.Files.{
  FsPath, Fs, IoError, invalid_utf8, join_path, extension, with_extension, file_name, is_file,
  exists, read, write, copy, remove_dir_all, create_dir_all,
}
use iot_athome.Files.Runs.{Run, reading, context, when, ◌>>=◌, ◌>>◌}

pub data InstallError : Type 0 where
  bad_manifest : ManifestError → InstallError
  no_entrypoint no_trust_pub unsigned_refused : InstallError
  cannot_read : IoError → InstallError
  bad_pubkey bad_base64 bad_der bad_signature : InstallError
  sbom_refused : SbomError → InstallError
  already_installed : FsPath → InstallError
  files : IoError → InstallError
  identity : NatsError → InstallError
  not_installed no_manifest : FsPath → InstallError

-- What the code calls of p256, base64's standard alphabet, sha2 and serde_yaml.
pub record Verifier : Type 1 where
  pub VerifyingKey : Type 0
  pub Signature : Type 0
  pub from_public_key_pem : Text → Option VerifyingKey
  pub from_der : Text → Option Signature
  pub b64_decode : Text → Option Text
  pub verify : VerifyingKey → Text → Signature → Bool
  pub to_public_key_der : VerifyingKey → Option Text
  pub sha256 : Text → List ℕ
  pub serde_yaml : Text → Option Manifest
  pub read_utf8 : Text → Bool

abbrev pub or_fail {ℓ} : {A : Type ℓ} → InstallError → Option A → Result InstallError A
or_fail e none = err e
or_fail e (some a) = ok a

abbrev pub require : InstallError → Bool → Result InstallError (Unit {0})
require e pass = if pass then ok tt else err e

-- `unwrap_or_default`, then the test.
abbrev pub suffix_with : Option Text → Text → Text
suffix_with none suffix = suffix
suffix_with (some ext) suffix = if is_empty ext then suffix else ext ++ b'.' ∷ suffix

unfoldable pub extension_with_suffix : FsPath → Text → Text
extension_with_suffix p suffix = suffix_with (extension p) suffix

-- `<entrypoint>.<suffix>` beside the entry point.
unfoldable pub beside : FsPath → Text → FsPath
beside wasm_path suffix = with_extension wasm_path (extension_with_suffix wasm_path suffix)

module _ (v : Verifier) where
  abbrev pub text_of : Result IoError Text → Result InstallError Text
  text_of (err e) = err (cannot_read e)
  text_of (ok bytes) = if v.read_utf8 bytes then ok bytes else err (cannot_read invalid_utf8)

  abbrev pub bytes_of : Result IoError Text → Result InstallError Text
  bytes_of (err e) = err (cannot_read e)
  bytes_of (ok bytes) = ok bytes

  unfoldable pub verify_signature : FsPath → FsPath → FsPath → Run InstallError (Unit {0})
  verify_signature blob_path sig_path pub_pem = do
    pem ← reading (λ fs. text_of (read pub_pem fs))
    vk ← reading (λ fs. or_fail bad_pubkey (v.from_public_key_pem pem))
    sig_text ← reading (λ fs. text_of (read sig_path fs))
    sig_bytes ← reading (λ fs. or_fail bad_base64 (v.b64_decode (trim sig_text)))
    sig ← reading (λ fs. or_fail bad_der (v.from_der sig_bytes))
    blob ← reading (λ fs. bytes_of (read blob_path fs))
    reading (λ fs. require bad_signature (v.verify vk blob sig))

  abbrev pub with_trust : FsPath → FsPath → Option FsPath → Run InstallError (Unit {0})
  with_trust wasm_path sig_path none = reading (λ fs. err no_trust_pub)
  with_trust wasm_path sig_path (some trust_pub) = verify_signature wasm_path sig_path trust_pub

  unfoldable pub enforce_signature_policy :
      FsPath → FsPath → Option FsPath → Bool → Run InstallError (Unit {0})
  enforce_signature_policy wasm_path sig_path trust_pub allow_unsigned fs =
      if is_file sig_path fs
      then with_trust wasm_path sig_path trust_pub fs
      else (fs, require unsigned_refused allow_unsigned)

  abbrev loaded : Result ManifestError Manifest → Result InstallError Manifest
  loaded (ok m) = ok m
  loaded (err e) = err (bad_manifest e)

  abbrev contents : Result IoError Text → Option Text
  contents (ok bytes) = some bytes
  contents (err e) = none

  unfoldable pub load_manifest : FsPath → Fs → Result InstallError Manifest
  load_manifest path fs = loaded (load v.serde_yaml (contents (read path fs)))

abbrev pub sbom_result : Result SbomError (Unit {0}) → Result InstallError (Unit {0})
sbom_result (ok _) = ok tt
sbom_result (err e) = err (sbom_refused e)

unfoldable pub copy_required : FsPath → FsPath → Run InstallError (Unit {0})
copy_required src dst = context files (copy src dst)

unfoldable pub copy_if_present : FsPath → FsPath → Run InstallError (Unit {0})
copy_if_present src dst fs = when (is_file src fs) (copy_required src dst) fs

-- Step 4: a collision needs `--force`.
unfoldable pub prepare : FsPath → Bool → Run InstallError (Unit {0})
prepare dest force = do
  stale ← reading (λ fs. ok (exists dest fs))
  reading (λ fs. require (already_installed dest) (not stale || force))
  when stale (context files (remove_dir_all dest))
  context files (create_dir_all dest)

-- Step 5.
unfoldable pub copy_bundle : FsPath → FsPath → Text → Run InstallError (Unit {0})
copy_bundle src dest entrypoint =
    let wasm_path = join_path src entrypoint in
    let sig_path = beside wasm_path (codes "sig") in
    let cert_path = beside wasm_path (codes "cert") in
    do
      copy_required (join_path src (codes "manifest.yaml")) (join_path dest (codes "manifest.yaml"))
      copy_required wasm_path (join_path dest entrypoint)
      copy_if_present sig_path (join_path dest (file_name sig_path))
      copy_if_present cert_path (join_path dest (file_name cert_path))
      copy_if_present (join_path src (codes "sbom.cdx.json"))
          (join_path dest (codes "sbom.cdx.json"))

abbrev printed : Result Text Text → Result NatsError Text
printed (ok s) = ok s
printed (err e) = err parse_json

module _ {N : Type 0} where
  unfoldable pub strings : List Text → Items N
  strings [] = nil
  strings (s ∷ ss) = item (string s) (strings ss)

  unfoldable pub acl_json : Text → Text → CapabilityMap → Json N
  acl_json plugin_id public_key caps = object (
      field (codes "plugin_id") (string plugin_id) (
        field (codes "user_nkey") (string public_key) (
          field (codes "allow_pub") (array (strings caps.bus.publish))
            (field (codes "allow_sub") (array (strings caps.bus.subscribe)) no_field))))

module _ {N Key : Type 0} (host : Host N) (keys : Nkeys Key) where
  -- `kp` is the fresh key.
  unfoldable pub generate_nats_identity :
      Key → FsPath → Text → CapabilityMap → Run NatsError (Unit {0})
  generate_nats_identity kp dest plugin_id caps = do
    seed ← reading (λ fs. mapped encode_seed (keys.seed kp))
    store host true (join_path dest (codes "nats.nkey")) seed
    acl ←
        reading
          (λ fs. printed (host.to_string_pretty (acl_json plugin_id (keys.public_key kp) caps)))
    store host false (join_path dest (codes "acl.json")) acl

module _ {N Key : Type 0} (host : Host N) (keys : Nkeys Key) (codec : Codec) where
  unfoldable pub mint_creds_post_install : FsPath → Text → FsPath → Run NatsError (Unit {0})
  mint_creds_post_install dest plugin_id account_seed_path = do
    account ← load_key host keys codec account_seed_path
    user ← load_key host keys codec (join_path dest (codes "nats.nkey"))
    acl ← parse_acl host (join_path dest (codes "acl.json"))
    creds ← issue_and_format_creds host keys codec account user plugin_id acl
    store host true (join_path dest (codes "nats.creds")) creds

  abbrev pub credentials : FsPath → Text → Option FsPath → Run NatsError (Unit {0})
  credentials dest plugin_id none = reading (λ fs. ok tt)
  credentials dest plugin_id (some seed_path) = mint_creds_post_install dest plugin_id seed_path

-- The command's flags.
pub record Flags : Type 0 where
  pub trust_pub : Option FsPath
  pub allow_unsigned : Bool
  pub allow_vulnerabilities : Bool
  pub force : Bool
  pub account_seed : Option FsPath

module _ {N : Type 0} (v : Verifier) (from_slice : Text → Option (Json N)) where
  -- Steps 1 to 3: they only read.
  unfoldable pub vet : FsPath → Flags → Run InstallError Manifest
  vet src flags = do
    manifest ← reading (load_manifest v (join_path src (codes "manifest.yaml")))
    let wasm_path = join_path src manifest.entrypoint
    reading (λ fs. require no_entrypoint (is_file wasm_path fs))
    enforce_signature_policy v wasm_path (beside wasm_path (codes "sig")) flags.trust_pub
        flags.allow_unsigned
    reading (λ fs. sbom_result (
        enforce_sbom_policy from_slice (join_path src (codes "sbom.cdx.json"))
          flags.allow_vulnerabilities fs))
    reading (λ fs. ok manifest)

module _ {N Key : Type 0} (host : Host N) (keys : Nkeys Key) (codec : Codec) where
  -- Steps 4 to 7, with the fresh key.
  unfoldable pub place : Key → FsPath → FsPath → Flags → Manifest → Run InstallError (Unit {0})
  place kp src plugin_dir flags manifest =
      let dest = join_path plugin_dir manifest.id in
      do
        prepare dest flags.force
        copy_bundle src dest manifest.entrypoint
        context identity
            (generate_nats_identity host keys kp dest manifest.id manifest.capabilities)
        context identity (credentials host keys codec dest manifest.id flags.account_seed)

module _ {N Key : Type 0} (v : Verifier) (host : Host N) (keys : Nkeys Key) (codec : Codec)
    (from_slice : Text → Option (Json N)) where
  unfoldable pub install : Key → FsPath → FsPath → Flags → Run InstallError (Unit {0})
  install kp src plugin_dir flags =
      vet v from_slice src flags >>= place host keys codec kp src plugin_dir flags

unfoldable pub uninstall : Text → FsPath → Run InstallError (Unit {0})
uninstall id plugin_dir =
    let dest = join_path plugin_dir id in
    do
      reading (λ fs. require (not_installed dest) (exists dest fs))
      reading
          (λ fs. require (no_manifest dest) (is_file (join_path dest (codes "manifest.yaml")) fs))
      context files (remove_dir_all dest)
