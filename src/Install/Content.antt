-- ===== src/Install/Content.antt =====
-- What an installation puts in place: the bytes that were verified.
use mathlib.Core.Path.{subst}
use iot_athome.Prelude.{
  ℕ, ◌≡◌, refl, ap, ◌∙◌, inl, inr, List, [], ◌∷◌, ◌++◌, All, all-append, Bool, true, false, not,
  Option, some, none, Text, codes, text_eq, lacks, all, is_empty, starts_with, strip_suffix, arith,
  ok,
}
use iot_athome.Json.{Json}
use iot_athome.Acl.{Manifest}
use iot_athome.Jwt.{Nkeys, Codec}
use iot_athome.Files.{FsPath, Fs, path_eq, join_path, file_name}
use iot_athome.Files.Paths.{path_eq_refl}
use iot_athome.Files.Names.{
  IsName, IsName_of_test, name_test, path_eq-join_path, is_under-join_path, starts_with-IsName,
}
use iot_athome.Files.Runs.{bind_ok, other_path, context-Within, bind-Within}
use iot_athome.Files.Effects.{Holds, copy_ok, context_ok, kept}
use iot_athome.Nats.{Host}
use iot_athome.Install.{
  Verifier, Flags, load_manifest, files, identity, copy_required, copy_bundle, beside, place,
  install,
}
use iot_athome.Install.Vetting.{IsSigned, Vetted, Approved, vet_ok, vet_manifest}
use iot_athome.Install.Names.{not_up, file_name-beside}
use iot_athome.Install.Placement.{
  around, prepare-Within, copy_required-Within, copy_if_present-Within,
  generate_nats_identity-Within, credentials-Within,
}

-- The names that the installation writes beside the entry point, after it.
abbrev pub reserved : List Text
reserved = codes "sbom.cdx.json" ∷ codes "nats.nkey" ∷ codes "acl.json" ∷ codes "nats.creds" ∷ []

-- An entry point that none of the other files of the installation takes the place of.
pub record IsEntry (e : Text) : Type 0 where
  pub named : IsName e
  pub final : strip_suffix b'.' e ≡ none
  pub free : All (λ n. text_eq e n ≡ false) reserved

longer : (e t : Text) (c : ℕ) → text_eq e (e ++ c ∷ t) ≡ false
unfolding text_eq
longer [] t c = refl
longer (a ∷ e) t c = ground (arith, longer e t c)

more :
    (e t : Text) (c : ℕ)
    → (is_empty (e ++ b'.' ∷ c ∷ t) ≡ false) × (text_eq (e ++ b'.' ∷ c ∷ t) (codes ".") ≡ false)
unfolding text_eq
more [] t c = (refl, refl)
more (a ∷ []) t c = (refl, ground arith)
more (a ∷ b ∷ e) t c = (refl, ground arith)

beside_name-IsName :
    (e : Text) (c : ℕ) (t : Text)
    → IsName e
    → lacks b'/' (b'.' ∷ c ∷ t) ≡ true
    → IsName (e ++ b'.' ∷ c ∷ t)
unfolding lacks
beside_name-IsName e c t h plain = record {
  no_slash = all-append _ e (b'.' ∷ c ∷ t) ∙ ground (arith, h.no_slash, plain);
  some_text = (more e t c).0;
  no_dot = (more e t c).1;
  no_parent = not_up e c t h.some_text;
}

module _ (dest : FsPath) (e : Text) (entry : IsEntry e) where
  -- Every path but the entry point's.
  abbrev elsewhere : FsPath → Bool
  elsewhere q = not (path_eq (join_path dest e) q)

  elsewhere-IsName :
      (n : Text) → IsName n → text_eq e n ≡ false → elsewhere (join_path dest n) ≡ true
  elsewhere-IsName n named h = ap not (path_eq-join_path dest e n entry.named named ∙ h)

  elsewhere_entry : elsewhere (join_path dest e) ≡ false
  elsewhere_entry = ap not (path_eq_refl (join_path dest e))

  elsewhere-beside :
      (src : FsPath) (c : ℕ) (t : Text)
      → lacks b'/' (b'.' ∷ c ∷ t) ≡ true
      → elsewhere (join_path dest (file_name (beside (join_path src e) (c ∷ t)))) ≡ true
  elsewhere-beside src c t plain =
      ap (λ n. elsewhere (join_path dest n)) (file_name-beside src e entry.named entry.final c t)
      ∙ elsewhere-IsName (e ++ b'.' ∷ c ∷ t) (beside_name-IsName e c t entry.named plain)
          (longer e (c ∷ t) b'.')

  copy_bundle_ok :
      (src : FsPath) (blob : Text) (fs last : Fs)
      → copy_bundle src dest e fs ≡ (last, ok tt)
      → around dest (join_path src e) ≡ false
      → Holds (join_path src e) blob fs
      → Holds (join_path dest e) blob last
  unfolding copy_bundle copy_required starts_with lacks all text_eq
  copy_bundle_ok src blob fs last h0 out held =
      let (_, fs1, r1, h1) = bind_ok _ _ h0 in
      let (_, fs2, r2, h2) = bind_ok _ _ h1 in
      let P = around dest in
      let at : (name : Text)
          → starts_with (codes "/") name ≡ false
          → around dest (join_path dest name) ≡ true =
        λ name e. rw (is_under-join_path dest name e) refl in
      let w = join_path src e in
      let start =
        kept P _ w blob fs fs1 (ok tt) (copy_required-Within P _ _ (at _ refl)) out r1 held in
      let copied =
        copy_ok w (join_path dest e) blob fs1 fs2 start
          (other_path (λ q. not (around dest q)) w (join_path dest e) (ap not out)
            (ap not (at e (starts_with-IsName e entry.named))))
          (context_ok files _ r2) in
      kept elsewhere _ (join_path dest e) blob fs2 last (ok tt)
        (bind-Within elsewhere _ _
          (copy_if_present-Within elsewhere _ _ (elsewhere-beside src b's' (codes "ig") refl))
          (λ _.
            bind-Within elsewhere _ _
              (copy_if_present-Within elsewhere _ _ (elsewhere-beside src b'c' (codes "ert") refl))
              (λ _.
                copy_if_present-Within elsewhere _ _
                  (elsewhere-IsName _ (IsName_of_test _ refl) entry.free.0))))
        elsewhere_entry h2 copied

module _ {N Key : Type 0} (host : Host N) (keys : Nkeys Key) (codec : Codec) where
  place_content :
      (kp : Key) (src plugin_dir : FsPath) (flags : Flags) (m : Manifest) (blob : Text)
      (fs last : Fs)
      → place host keys codec kp src plugin_dir flags m fs ≡ (last, ok tt)
      → IsEntry m.entrypoint
      → around (join_path plugin_dir m.id) (join_path src m.entrypoint) ≡ false
      → Holds (join_path src m.entrypoint) blob fs
      → Holds (join_path (join_path plugin_dir m.id) m.entrypoint) blob last
  unfolding place lacks all text_eq
  place_content kp src plugin_dir flags m blob fs last h0 entry out held =
      let (_, fs1, r1, h1) = bind_ok _ _ h0 in
      let (_, fs2, r2, h2) = bind_ok _ _ h1 in
      let (_, fs3, r3, r4) = bind_ok _ _ h2 in
      let dest = join_path plugin_dir m.id in
      let P = elsewhere dest m.entrypoint entry in
      let start =
        kept (around dest) _ _ blob fs fs1 (ok tt) (prepare-Within dest flags.force) out r1 held in
      let copied = copy_bundle_ok dest m.entrypoint entry src blob fs1 fs2 r2 out start in
      let free = λ (n : Text) (named : IsName n) (e : text_eq m.entrypoint n ≡ false).
        elsewhere-IsName dest m.entrypoint entry n named e in
      let named = λ (n : Text) (t : name_test n ≡ true). IsName_of_test n t in
      let with_keys =
        kept P _ _ blob fs2 fs3 (ok tt)
          (context-Within P identity _ (
            generate_nats_identity-Within host keys codec P kp dest m.id m.capabilities
              (free _ (named _ refl) entry.free.1.0) (free _ (named _ refl) entry.free.1.1.0)))
          (elsewhere_entry dest m.entrypoint entry) r3 copied in
      kept P _ _ blob fs3 last (ok tt)
        (context-Within P identity _ (
          credentials-Within host keys codec P dest m.id flags.account_seed
            (free _ (named _ refl) entry.free.1.1.1.0)))
        (elsewhere_entry dest m.entrypoint entry) r4 with_keys

module _ {N Key : Type 0} (v : Verifier) (host : Host N) (keys : Nkeys Key) (codec : Codec)
    (from_slice : Text → Option (Json N)) where
  -- An installation that succeeds without `--allow-unsigned` has put in place, under the entry point's
  -- name in the plugin's directory, the very bytes on which the detached signature beside the source's entry
  -- point verifies under the given trust key. The entry point is the name of a directory entry
  -- and none that the installation uses itself, and the source lies outside the target.
  pub install_verified :
      (kp : Key) (src plugin_dir : FsPath) (flags : Flags) (fs last : Fs) (m : Manifest)
      → install v host keys codec from_slice kp src plugin_dir flags fs ≡ (last, ok tt)
      → load_manifest v (join_path src (codes "manifest.yaml")) fs ≡ ok m
      → flags.allow_unsigned ≡ false
      → IsEntry m.entrypoint
      → around (join_path plugin_dir m.id) (join_path src m.entrypoint) ≡ false
      → (pub_pem : FsPath) × (flags.trust_pub ≡ some pub_pem)
        × (signed : IsSigned v
            (join_path src m.entrypoint)
            (beside (join_path src m.entrypoint) (codes "sig"))
            pub_pem
            fs)
        × Holds (join_path (join_path plugin_dir m.id) m.entrypoint) signed.blob last
  unfolding install Approved
  install_verified kp src plugin_dir flags fs last m h0 read strict entry out =
      let (n, mid, r1, r2) = bind_ok _ _ h0 in
      let (same, vetted) = vet_ok v from_slice src flags fs mid n r1 in
      let which : n ≡ m = vet_manifest v from_slice src flags fs m n read (ap (λ r. r.1) r1) in
      elim (subst (Vetted v from_slice src flags fs) which vetted).approved [
        | inr (_, allowed) ↦ absurd (cc (allowed, strict))
        | inl (_, p, given, signed) ↦ (
          p,
          given,
          signed,
          place_content host keys codec kp src plugin_dir flags m signed.blob mid last
              (subst (λ x. place host keys codec kp src plugin_dir flags x mid ≡ (last, ok tt))
                which r2)
              entry out
              (subst (Holds (join_path src m.entrypoint) signed.blob) same signed.blob_file),
        )
      ]
