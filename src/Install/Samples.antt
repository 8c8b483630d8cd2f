-- ===== src/Install/Samples.antt =====
-- An installation in a small file system.
use iot_athome.Prelude.{
  ℕ, ◌≡◌, refl, ap, [], ◌∷◌, ◌&&◌, Bool, true, false, Option, some, none, Text, codes, lacks, all,
  text_eq, split, filter, starts_with, strip_suffix, trim, trim_end, trim_start, any, hex_encode,
  if◌then◌else◌, Result, ok, err,
}
use iot_athome.Json.{Json, get_field}
use iot_athome.Acl.{Manifest, supported}
use iot_athome.Sbom.{enforce_sbom_policy}
use iot_athome.Jwt.{issue_user_jwt, sign_token}
use iot_athome.Instances.{keys, keys_laws}
use iot_athome.Instances.Claims.{codec, codec_laws}
use iot_athome.Instances.Documents.{host, host_laws}
use iot_athome.Files.{
  FsPath, Fs, file, dir, put, join_path, components, parent, path_eq, is_under, is_file, read,
  write, set_permissions, create_dir_all, remove_dir_all, copy, prefixes, last_dot, split_name,
  extension, with_extension, file_name,
}
use iot_athome.Files.Names.{IsName_of_test}
use iot_athome.Files.Runs.{◌>>=◌, reading, context, when}
use iot_athome.Files.Effects.{Holds}
use iot_athome.Nats.{
  restrict_permissions, store, read_to_string, load_key, parse_acl, collect_subjects, texts,
  generate_jti, issue_and_format_creds,
}
use iot_athome.Nats.Tokens.{IsMinted}
use iot_athome.Install.{
  Verifier, Flags, InstallError, bad_signature, no_manifest, extension_with_suffix, beside,
  verify_signature, enforce_signature_policy, load_manifest, copy_required, copy_if_present,
  prepare, copy_bundle, strings, acl_json, generate_nats_identity, mint_creds_post_install, vet,
  place, install, uninstall,
}
use iot_athome.Install.Names.{beside-last}
use iot_athome.Install.Vetting.{IsSigned}
use iot_athome.Install.Placement.{around, install_refuses, install_confined}
use iot_athome.Install.Content.{IsEntry, install_verified}
use iot_athome.Install.Identity.{bus_acl, place-IsMinted}
use iot_athome.Install.Removal.{uninstall_exact}
use iot_athome.Install.Posture.{signature_status, verified, pubkey_fingerprint, label, prefix_of}
use iot_athome.Install.Status.{signature_status-IsSigned, IsPrint, label_total}

abbrev demo : Manifest
demo = record {
  schema_version = 1;
  id = codes "e";
  name = [];
  version = codes "1";
  description = [];
  runtime = codes "wasm-component";
  entrypoint = codes "p.wasm";
  capabilities = record {
    bus = record { publish = codes "device.e.>" ∷ []; subscribe = codes "cmd.e.>" ∷ [] };
    mqtt = record { publish = []; subscribe = []; bridge = [] };
    net = record { outbound = [] };
    registry = record { upsert = false; list = false };
  };
  resources = record { memory_mb_max = 128; cpu_pct_max = 25; fuel_max = 0 };
  signatures = [];
}

-- A signature is the text it signs; a hash is 32 bytes.
abbrev verifier : Verifier
verifier = record {
  VerifyingKey = Text;
  Signature = Text;
  from_public_key_pem = λ s. some s;
  from_der = λ s. some s;
  b64_decode = λ s. some s;
  verify = λ vk blob sig. text_eq blob sig;
  to_public_key_der = λ vk. some vk;
  sha256 = λ s. codes "0123456789abcdef0123456789abcdef";
  serde_yaml = λ s. some demo;
  read_utf8 = λ s. true;
}

abbrev no_json : Text → Option (Json ℕ)
no_json s = none

abbrev empty : Fs
empty [] = some dir
empty (c ∷ q) = none

abbrev src : FsPath
src = codes "src" ∷ []

abbrev plugins : FsPath
plugins = codes "plugins" ∷ []

abbrev trust : FsPath
trust = codes "trust.pub" ∷ []

abbrev account : FsPath
account = codes "account.nk" ∷ []

abbrev start : Fs
start = put (codes "src" ∷ codes "manifest.yaml" ∷ []) (file 420 (codes "id: e")) (
    put (codes "src" ∷ codes "p.wasm" ∷ []) (file 420 (codes "wasm")) (
      put (codes "src" ∷ codes "p.wasm.sig" ∷ []) (file 420 (codes "wasm")) (
        put trust (file 420 (codes "pem"))
          (put account (file 384 (codes "SA")) (put src dir (put plugins dir empty))))))

abbrev flags : Flags
flags = record {
  trust_pub = some trust;
  allow_unsigned = false;
  allow_vulnerabilities = false;
  force = false;
  account_seed = some account;
}

-- The fresh key is the user's.
installed : Fs
installed = (install verifier host keys codec no_json false src plugins flags start).0

installs :
    install verifier host keys codec no_json false src plugins flags start ≡ (installed, ok tt)
unfolding installed install vet ◌>>=◌ reading context when verify_signature enforce_signature_policy
    load_manifest supported enforce_sbom_policy copy_required copy_if_present prepare copy_bundle
    strings acl_json generate_nats_identity mint_creds_post_install place extension_with_suffix
    beside last_dot split_name extension with_extension file_name join_path components split filter
    starts_with parent path_eq is_under text_eq read write set_permissions create_dir_all
    remove_dir_all copy prefixes any restrict_permissions store read_to_string load_key parse_acl
    collect_subjects texts get_field generate_jti issue_and_format_creds issue_user_jwt sign_token
    trim trim_end trim_start
installs = ap (λ (r : Result InstallError (Unit {0})). (installed, r)) refl

placed : Fs
placed = (place host keys codec false src plugins flags demo start).0

places : place host keys codec false src plugins flags demo start ≡ (placed, ok tt)
unfolding placed ◌>>=◌ reading context when verify_signature enforce_signature_policy load_manifest
    supported enforce_sbom_policy copy_required copy_if_present prepare copy_bundle strings acl_json
    generate_nats_identity mint_creds_post_install place extension_with_suffix beside last_dot
    split_name extension with_extension file_name join_path components split filter starts_with
    parent path_eq is_under text_eq read write set_permissions create_dir_all remove_dir_all copy
    prefixes any restrict_permissions store read_to_string load_key parse_acl collect_subjects texts
    get_field generate_jti issue_and_format_creds issue_user_jwt sign_token trim trim_end trim_start
places = ap (λ (r : Result InstallError (Unit {0})). (placed, r)) refl

loads : load_manifest verifier (join_path src (codes "manifest.yaml")) start ≡ ok demo
unfolding load_manifest supported join_path components split filter starts_with path_eq text_eq read
loads = refl

entry : IsEntry (codes "p.wasm")
unfolding lacks all text_eq strip_suffix
entry = record {
  named = IsName_of_test (codes "p.wasm") refl;
  final = refl;
  free = (refl, (refl, (refl, (refl, tt))));
}

outside : around (join_path plugins demo.id) (join_path src demo.entrypoint) ≡ false
unfolding join_path components split filter starts_with is_under text_eq
outside = refl

account_outside : around (join_path plugins demo.id) account ≡ false
unfolding join_path components split filter starts_with is_under text_eq
account_outside = refl

install_verified_example :
    (pub_pem : FsPath) × (flags.trust_pub ≡ some pub_pem)
    × (signed : IsSigned verifier
        (join_path src demo.entrypoint)
        (beside (join_path src demo.entrypoint) (codes "sig"))
        pub_pem
        start)
    × Holds (join_path (join_path plugins demo.id) demo.entrypoint) signed.blob installed
install_verified_example =
    install_verified verifier host keys codec no_json false src plugins flags start installed demo
      installs loads refl entry outside

place-IsMinted_example :
    (signer : Bool) × (account_text : Text) × Holds account account_text start
    × (keys.from_seed (trim account_text) ≡ ok signer)
    × IsMinted host keys codec signer false demo.id
        (bus_acl demo.capabilities)
        (join_path (join_path plugins demo.id) (codes "nats.creds"))
        placed
place-IsMinted_example =
    place-IsMinted host keys codec host_laws keys_laws codec_laws false src plugins account flags
      demo start placed places refl entry.named entry.final account_outside

install_confined_example :
    (install verifier host keys codec no_json false src plugins flags start).0 trust ≡ start trust
unfolding lacks all text_eq strip_suffix is_under
install_confined_example =
    install_confined verifier host keys codec no_json false src plugins flags start demo trust loads
      (IsName_of_test (codes "e") refl) (IsName_of_test (codes "p.wasm") refl) refl refl

-- The same bundle with another wasm file.
abbrev tampered : Fs
tampered = put (codes "src" ∷ codes "p.wasm" ∷ []) (file 420 (codes "evil")) start

caught : (vet verifier no_json src flags tampered).1 ≡ err bad_signature
unfolding vet ◌>>=◌ reading verify_signature enforce_signature_policy load_manifest supported
    extension_with_suffix beside last_dot split_name extension with_extension join_path components
    split filter starts_with path_eq text_eq read trim trim_end trim_start
caught = refl

install_refuses_run :
    ((install verifier host keys codec no_json false src plugins flags tampered).1
      ≡ err bad_signature)
    × ((install verifier host keys codec no_json false src plugins flags tampered).0 plugins
        ≡ tampered plugins)
install_refuses_run =
    install_refuses verifier host keys codec no_json false src plugins flags tampered bad_signature
      plugins caught

beside-last_run :
    beside (codes "d" ∷ codes "foo.wasm.bin" ∷ []) (codes "sig")
    ≡ codes "d" ∷ codes "foo.wasm.bin.sig" ∷ []
unfolding text_eq strip_suffix
beside-last_run = beside-last (codes "d" ∷ []) (codes "foo.wasm.bin") (codes "sig") refl refl refl

-- Of such a name only the last extension is taken.
one_extension : extension_with_suffix (codes "foo.wasm.bin" ∷ []) (codes "sig") ≡ codes "bin.sig"
unfolding extension_with_suffix extension split_name last_dot text_eq
one_extension = refl

there : installed (join_path plugins (codes "e")) ≡ some dir
unfolding installed install vet ◌>>=◌ reading context when verify_signature enforce_signature_policy
    load_manifest supported enforce_sbom_policy copy_required copy_if_present prepare copy_bundle
    strings acl_json generate_nats_identity mint_creds_post_install place extension_with_suffix
    beside last_dot split_name extension with_extension file_name join_path components split filter
    starts_with parent path_eq is_under text_eq read write set_permissions create_dir_all
    remove_dir_all copy prefixes any restrict_permissions store read_to_string load_key parse_acl
    collect_subjects texts get_field generate_jti issue_and_format_creds issue_user_jwt sign_token
    trim trim_end trim_start
there = refl

uninstall_exact_run :
    ((uninstall (codes "e") plugins installed).0 trust ≡ (
      if is_file (join_path (join_path plugins (codes "e")) (codes "manifest.yaml")) installed
        && is_under (join_path plugins (codes "e")) trust
      then none
      else installed trust))
    × ((uninstall (codes "e") plugins installed).1 ≡ (
        if is_file (join_path (join_path plugins (codes "e")) (codes "manifest.yaml")) installed
        then ok tt
        else err (no_manifest (join_path plugins (codes "e")))))
uninstall_exact_run = uninstall_exact (codes "e") plugins installed trust there

abbrev digest : Text
digest = hex_encode (codes "0123456789abcdef0123456789abcdef")

listed : signature_status verifier src (codes "p.wasm") (some trust) start ≡ verified digest
unfolding signature_status verify_signature ◌>>=◌ reading pubkey_fingerprint extension_with_suffix
    beside last_dot split_name extension with_extension join_path components split filter
    starts_with path_eq text_eq read trim trim_end trim_start hex_encode
listed = refl

signature_status-IsSigned_example :
    (p : FsPath) × (some trust ≡ some p)
    × (s : IsSigned verifier
        (join_path src (codes "p.wasm"))
        (beside (join_path src (codes "p.wasm")) (codes "sig"))
        p
        start)
    × IsPrint verifier src (codes "p.wasm") s.vk digest
signature_status-IsSigned_example =
    signature_status-IsSigned verifier src (codes "p.wasm") (some trust) start digest listed

label_total_run :
    (text : Text) × (label (signature_status verifier src (codes "p.wasm") (some trust) start)
      ≡ some text)
label_total_run =
    label_total verifier src (codes "p.wasm") (some trust) start (λ vk. (vk, refl)) (λ s. refl)

-- A fingerprint that cannot be computed makes the list panic.
panics : label (verified (codes "unknown")) ≡ none
unfolding label prefix_of
panics = refl
