-- ===== src/Install/Placement.antt =====
-- Where an installation can change the file system.
use iot_athome.Prelude.{
  ℕ, ◌≡◌, refl, ap, ◌∙◌, inl, inr, [], ◌∷◌, ◌++◌, Bool, true, false, ◌||◌, Option, some, none, Text,
  codes, starts_with, strip_suffix, arith, Result-cases, ok, err,
}
use iot_athome.Json.{Json}
use iot_athome.Acl.{Manifest}
use iot_athome.Capabilities.{CapabilityMap}
use iot_athome.Jwt.{Nkeys, Codec, UserAcl}
use iot_athome.Files.{
  FsPath, Fs, is_under, join_path, copy, remove_dir_all, create_dir_all, is_file, read,
}
use iot_athome.Files.Names.{IsName, join_path-IsName, starts_with-IsName, is_under-join_path}
use iot_athome.Files.Runs.{
  Within, ◌>>=◌, bind-Within, reading-Within, when-Within, context-Within, copy-Within,
  remove_dir_all-Within, create_dir_all-Within,
}
use iot_athome.Nats.{Host, load_key, parse_acl, read_to_string, issue_and_format_creds}
use iot_athome.Nats.Tokens.{store-Within}
use iot_athome.Install.{
  Verifier, Flags, InstallError, load_manifest, files, identity, copy_required, copy_if_present,
  prepare, copy_bundle, generate_nats_identity, mint_creds_post_install, credentials, vet, place,
  install,
}
use iot_athome.Install.Vetting.{vet_reads, vet_manifest}
use iot_athome.Install.Names.{file_name-beside, starts_with-beside}

-- At or under the plugin's directory, or one of the directories on the way to it.
abbrev pub around : FsPath → FsPath → Bool
around dest q = is_under dest q || is_under q dest

pub inside : (dest q : FsPath) → is_under dest q ≡ true → around dest q ≡ true
inside dest q h = rw h refl

module _ (P : FsPath → Bool) where
  pub copy_required-Within : (src dst : FsPath) → P dst ≡ true → Within P (copy_required src dst)
  unfolding copy_required
  copy_required-Within src dst h = context-Within P files (copy src dst) (copy-Within P src dst h)

  pub copy_if_present-Within :
      (src dst : FsPath) → P dst ≡ true → Within P (copy_if_present src dst)
  unfolding copy_if_present Within
  copy_if_present-Within src dst h fs =
      when-Within P (is_file src fs) _ (copy_required-Within src dst h) fs

module _ (dest : FsPath) where
  pub prepare-Within : (force : Bool) → Within (around dest) (prepare dest force)
  unfolding prepare
  prepare-Within force = bind-Within (around dest) _ _ (reading-Within (around dest) _) (λ stale.
      bind-Within (around dest) _ _ (reading-Within (around dest) _) (λ _.
        bind-Within (around dest) _ _
          (when-Within (around dest) stale _ (
            context-Within (around dest) files (remove_dir_all dest)
              (remove_dir_all-Within (around dest) dest (λ q h. ground (arith, h)))))
          (λ _.
            context-Within (around dest) files (create_dir_all dest)
              (create_dir_all-Within (around dest) dest (λ q h. ground (arith, h))))))

  pub copy_bundle-Within :
      (src : FsPath) (entrypoint : Text)
      → IsName entrypoint
      → strip_suffix b'.' entrypoint ≡ none
      → Within (around dest) (copy_bundle src dest entrypoint)
  unfolding copy_bundle starts_with
  copy_bundle-Within src entrypoint named final =
      let at = λ (name : Text) (e : starts_with (codes "/") name ≡ false).
        inside dest (join_path dest name) (is_under-join_path dest name e) in
      let P = around dest in
      let side = λ (s : Text) (c : ℕ) (t : Text) (e : s ≡ entrypoint ++ b'.' ∷ c ∷ t).
        ap (starts_with (codes "/")) e ∙ starts_with-beside src entrypoint named final (c ∷ t) in
      bind-Within (around dest) _ _ (copy_required-Within P _ _ (at _ refl)) (λ _.
        bind-Within (around dest) _ _
          (copy_required-Within P _ _ (at entrypoint (starts_with-IsName entrypoint named)))
          (λ _.
            bind-Within (around dest) _ _
              (copy_if_present-Within P _ _ (
                at _ (
                  side _ b's' (codes "ig")
                    (file_name-beside src entrypoint named final b's' (codes "ig")))))
              (λ _.
                bind-Within (around dest) _ _
                  (copy_if_present-Within P _ _ (
                    at _ (
                      side _ b'c' (codes "ert")
                        (file_name-beside src entrypoint named final b'c' (codes "ert")))))
                  (λ _. copy_if_present-Within P _ _ (at _ refl)))))

module _ {N Key : Type 0} (host : Host N) (keys : Nkeys Key) (codec : Codec)
    (P : FsPath → Bool) where
  pub load_key-Within : (p : FsPath) → Within P (load_key host keys codec p)
  unfolding load_key read_to_string
  load_key-Within p = bind-Within P _ _ (reading-Within P _) (λ _. reading-Within P _)

  pub parse_acl-Within : (p : FsPath) → Within P (parse_acl host p)
  unfolding parse_acl read_to_string
  parse_acl-Within p = bind-Within P _ _ (reading-Within P _) (λ _. reading-Within P _)

  pub issue_and_format_creds-Within :
      (account user : Key) (name : Text) (acl : UserAcl)
      → Within P (issue_and_format_creds host keys codec account user name acl)
  unfolding issue_and_format_creds
  issue_and_format_creds-Within account user name acl =
      bind-Within P _ _ (reading-Within P _)
        (λ _. bind-Within P _ _ (reading-Within P _) (λ _. reading-Within P _))

  pub generate_nats_identity-Within :
      (kp : Key) (dest : FsPath) (name : Text) (caps : CapabilityMap)
      → P (join_path dest (codes "nats.nkey")) ≡ true
      → P (join_path dest (codes "acl.json")) ≡ true
      → Within P (generate_nats_identity host keys kp dest name caps)
  unfolding generate_nats_identity
  generate_nats_identity-Within kp dest name caps x y =
      bind-Within P _ _ (reading-Within P _) (λ seed.
        bind-Within P _ _ (store-Within host P true _ seed x)
          (λ _. bind-Within P _ _ (reading-Within P _) (λ acl. store-Within host P false _ acl y)))

  pub credentials-Within :
      (dest : FsPath) (name : Text) (account_seed : Option FsPath)
      → P (join_path dest (codes "nats.creds")) ≡ true
      → Within P (credentials host keys codec dest name account_seed)
  unfolding mint_creds_post_install
  credentials-Within dest name none x = reading-Within P _
  credentials-Within dest name (some path) x = bind-Within P _ _ (load_key-Within path) (λ account.
      bind-Within P _ _ (load_key-Within (join_path dest (codes "nats.nkey"))) (λ user.
        bind-Within P _ _ (parse_acl-Within (join_path dest (codes "acl.json"))) (λ acl.
          bind-Within P _ _ (issue_and_format_creds-Within account user name acl)
            (λ creds. store-Within host P true _ creds x))))

module _ {N Key : Type 0} (host : Host N) (keys : Nkeys Key) (codec : Codec) where
  pub place-Within :
      (kp : Key) (src plugin_dir : FsPath) (flags : Flags) (m : Manifest)
      → IsName m.entrypoint
      → strip_suffix b'.' m.entrypoint ≡ none
      → Within
          (around (join_path plugin_dir m.id))
          (place host keys codec kp src plugin_dir flags m)
  unfolding place starts_with
  place-Within kp src plugin_dir flags m named final =
      let dest = join_path plugin_dir m.id in
      let P = around dest in
      let at = λ (name : Text) (e : starts_with (codes "/") name ≡ false).
        inside dest (join_path dest name) (is_under-join_path dest name e) in
      bind-Within P _ _ (prepare-Within dest flags.force) (λ _.
        bind-Within P _ _ (copy_bundle-Within dest src m.entrypoint named final) (λ _.
          bind-Within P _ _
            (context-Within P identity _ (
              generate_nats_identity-Within host keys codec P kp dest m.id m.capabilities
                (at _ refl) (at _ refl)))
            (λ _.
              context-Within P identity _
                (credentials-Within host keys codec P dest m.id flags.account_seed (at _ refl)))))

module _ {N Key : Type 0} (v : Verifier) (host : Host N) (keys : Nkeys Key) (codec : Codec)
    (from_slice : Text → Option (Json N)) where
  -- A bundle that a check refuses changes no path, and the command fails with the check's error.
  pub install_refuses :
      (kp : Key) (src plugin_dir : FsPath) (flags : Flags) (fs : Fs) (e : InstallError) (q : FsPath)
      → (vet v from_slice src flags fs).1 ≡ err e
      → ((install v host keys codec from_slice kp src plugin_dir flags fs).1 ≡ err e)
        × ((install v host keys codec from_slice kp src plugin_dir flags fs).0 q ≡ fs q)
  unfolding install ◌>>=◌
  install_refuses kp src plugin_dir flags fs e q bad =
      rw bad (refl, vet_reads v from_slice src flags fs q)

  -- An installation of a bundle whose id and entry point are names of directory entries changes nothing
  -- but what lies in the directory `<plugin_dir>/<id>` and the directories on the way to it, whether it
  -- succeeds, is refused or fails half-way.
  pub install_confined :
      (kp : Key) (src plugin_dir : FsPath) (flags : Flags) (fs : Fs) (m : Manifest) (q : FsPath)
      → load_manifest v (join_path src (codes "manifest.yaml")) fs ≡ ok m
      → IsName m.id
      → IsName m.entrypoint
      → strip_suffix b'.' m.entrypoint ≡ none
      → around (plugin_dir ++ m.id ∷ []) q ≡ false
      → (install v host keys codec from_slice kp src plugin_dir flags fs).0 q ≡ fs q
  unfolding install ◌>>=◌ Within
  install_confined kp src plugin_dir flags fs m q read id named final out =
      let reads = vet_reads v from_slice src flags fs q in
      elim (Result-cases (vet v from_slice src flags fs).1) [
        | inr (e, bad) ↦ rw bad reads
        | inl (n, good) ↦
            rw (good, vet_manifest v from_slice src flags fs m n read good)
              (place-Within host keys codec kp src plugin_dir flags m named final _ q
                  (ap (λ d. around d q) (join_path-IsName plugin_dir m.id id) ∙ out)
                ∙ reads)
      ]
