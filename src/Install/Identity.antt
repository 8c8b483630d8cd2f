-- ===== src/Install/Identity.antt =====
-- The credentials that an installation mints.
use mathlib.Core.Path.{subst}
use iot_athome.Prelude.{
  ◌≡◌, refl, sym, ap, ◌∙◌, List, [], ◌∷◌, true, false, some, none, Text, codes, text_eq, lacks, all,
  strip_suffix, starts_with, trim, trim-spaceless, arith, Result, ok, err,
}
use iot_athome.Json.{get_field}
use iot_athome.Capabilities.{CapabilityMap}
use iot_athome.Acl.{Manifest}
use iot_athome.Jwt.{Nkeys, Codec, NkeysLaws, CodecLaws, UserAcl}
use iot_athome.Files.{FsPath, Fs, file, join_path}
use iot_athome.Files.Names.{IsName, IsName_of_test, path_eq-join_path, is_under-join_path}
use iot_athome.Files.Runs.{bind_ok, context-Within}
use iot_athome.Files.Effects.{Holds, Holds-unique, same_at, context_ok, reading_ok}
use iot_athome.Nats.{Host, HostLaws, owner_only, texts, collect_subjects, acl_of}
use iot_athome.Nats.Tokens.{
  IsMinted, mapped_ok, store_ok, load_key_ok, parse_acl_ok, creds-IsMinted,
}
use iot_athome.Nats.Bootstrap.{store_keeps}
use iot_athome.Install.{
  Flags, identity, printed, strings, acl_json, generate_nats_identity, mint_creds_post_install,
  credentials, place,
}
use iot_athome.Install.Placement.{
  around, inside, prepare-Within, copy_bundle-Within, generate_nats_identity-Within,
}

texts-strings : (N : Type 0) (ss : List Text) → texts (strings {N = N} ss) ≡ ss
unfolding texts strings
texts-strings N [] = refl
texts-strings N (s ∷ ss) = ap (◌∷◌ s) (texts-strings N ss)

-- The allow-lists of the manifest.
abbrev pub bus_acl : CapabilityMap → UserAcl
bus_acl caps = record { allow_pub = caps.bus.publish; allow_sub = caps.bus.subscribe }

acl_of-acl_json :
    (N : Type 0) (id key : Text) (caps : CapabilityMap)
    → acl_of (acl_json {N = N} id key caps) ≡ bus_acl caps
unfolding acl_json collect_subjects get_field text_eq
acl_of-acl_json N id key caps =
    rw (texts-strings N caps.bus.publish, texts-strings N caps.bus.subscribe) refl

ok_same : (A : Type 0) (a b : A) (r : Result Text A) → r ≡ ok a → r ≡ ok b → a ≡ b
ok_same A a b r h k = cc (sym h ∙ k)

some_same {ℓ} : {A : Type ℓ} {a b : A} → some a ≡ some b → a ≡ b
some_same h = cc

printed_ok : (r : Result Text Text) (s : Text) → printed r ≡ ok s → r ≡ ok s
printed_ok (ok t) s h = ground (arith, h)
printed_ok (err e) s h = cc

module _ {N Key : Type 0} (host : Host N) (keys : Nkeys Key) (codec : Codec) where
  -- The seed is there for its owner alone, and beside it the printed allow-lists.
  generate_nats_identity_ok :
      (kp : Key) (dest : FsPath) (id : Text) (caps : CapabilityMap) (fs last : Fs)
      → generate_nats_identity host keys kp dest id caps fs ≡ (last, ok tt)
      → (seed : Text) × (acl : Text) × (keys.seed kp ≡ ok seed)
        × (host.to_string_pretty (acl_json id (keys.public_key kp) caps) ≡ ok acl)
        × (last (join_path dest (codes "nats.nkey")) ≡ some (file owner_only seed))
        × Holds (join_path dest (codes "acl.json")) acl last
  unfolding generate_nats_identity lacks all text_eq
  generate_nats_identity_ok kp dest id caps fs last h0 =
      let (seed, fs1, r1, h1) = bind_ok _ _ h0 in
      let (_, fs2, r2, h2) = bind_ok _ _ h1 in
      let (acl, fs3, r3, h3) = bind_ok _ _ h2 in
      let (_, g1) = reading_ok _ r1 in
      let (e3, g3) = reading_ok _ r3 in
      let (_, secret) = store_ok host true _ seed fs1 fs2 r2 in
      let (held, _) = store_ok host false _ acl fs3 last h3 in
      let apart =
        path_eq-join_path dest (codes "acl.json") (codes "nats.nkey") (IsName_of_test _ refl)
          (IsName_of_test _ refl) in
      (
        seed,
        acl,
        mapped_ok _ (keys.seed kp) seed g1,
        printed_ok _ acl g3,
        store_keeps host false _ (join_path dest (codes "nats.nkey")) acl fs3 last apart h3
            ∙ sym (ap (λ (g : Fs). g (join_path dest (codes "nats.nkey"))) e3)
            ∙ secret refl,
        held,
      )

  mint_ok :
      (hl : HostLaws host) (kl : NkeysLaws keys) (cl : CodecLaws codec) (kp : Key)
      (dest account_path : FsPath) (id seed acl : Text) (caps : CapabilityMap) (fs last : Fs)
      → keys.seed kp ≡ ok seed
      → host.to_string_pretty (acl_json id (keys.public_key kp) caps) ≡ ok acl
      → Holds (join_path dest (codes "nats.nkey")) seed fs
      → Holds (join_path dest (codes "acl.json")) acl fs
      → mint_creds_post_install host keys codec dest id account_path fs ≡ (last, ok tt)
      → (account : Key) × (account_text : Text) × Holds account_path account_text fs
        × (keys.from_seed (trim account_text) ≡ ok account)
        × IsMinted host keys codec account kp id
            (bus_acl caps)
            (join_path dest (codes "nats.creds"))
            last
  unfolding mint_creds_post_install
  mint_ok hl kl cl kp dest account_path id seed acl caps fs last seeded printed_acl has_seed has_acl
        h0 =
      let (account, fs1, r1, h1) = bind_ok _ _ h0 in
      let (user, fs2, r2, h2) = bind_ok _ _ h1 in
      let (lists, fs3, r3, h3) = bind_ok _ _ h2 in
      let (creds, fs4, r4, h4) = bind_ok _ _ h3 in
      let (e1, account_text, account_held, account_key) =
        load_key_ok host keys codec account_path fs fs1 account r1 in
      let (e2, user_text, user_held, user_key) =
        load_key_ok host keys codec (join_path dest (codes "nats.nkey")) fs1 fs2 user r2 in
      let (e3, raw, v, acl_held, acl_read, lists_of) =
        parse_acl_ok host (join_path dest (codes "acl.json")) fs2 fs3 lists r3 in
      let minted =
        creds-IsMinted host keys codec kl cl account user id creds lists _ fs3 fs4 last r4 h4 in
      let same_seed : user_text ≡ seed =
        Holds-unique _ user_text seed fs1 user_held (subst (Holds _ seed) e1 has_seed) in
      let same_raw : raw ≡ acl =
        Holds-unique _ raw acl fs2 acl_held (subst (Holds _ acl) (e1 ∙ e2) has_acl) in
      let same_user : user ≡ kp = ok_same Key user kp _ user_key (
        ap (λ t. keys.from_seed (trim t)) same_seed
        ∙ ap keys.from_seed (trim-spaceless seed (kl.seed-spaceless kp seed seeded))
        ∙ kl.from_seed-seed kp seed seeded) in
      let same_lists : lists ≡ bus_acl caps =
        lists_of
        ∙ ap acl_of (
            some_same (
              sym acl_read
              ∙ ap host.from_str same_raw
              ∙ hl.from_str-to_string_pretty _ acl printed_acl))
        ∙ acl_of-acl_json _ id (keys.public_key kp) caps in
      (
        account,
        account_text,
        account_held,
        account_key,
        subst
            (λ k.
              IsMinted host keys codec account k id (bus_acl caps)
                (join_path dest (codes "nats.creds")) last)
            same_user
            (subst
              (λ a.
                IsMinted host keys codec account user id a (join_path dest (codes "nats.creds"))
                  last)
              same_lists minted),
      )

  -- When an installation with an account's seed succeeds, the plugin's directory has credentials that
  -- only their owner can read, for the fresh key, with a token that verifies under the account of the
  -- seed file, and the token allows exactly the subjects of the manifest's bus allow-lists. The entry point is
  -- the name of a directory entry and the seed file lies outside the plugin's directory.
  pub place-IsMinted :
      (hl : HostLaws host) (kl : NkeysLaws keys) (cl : CodecLaws codec) (kp : Key)
      (src plugin_dir account_path : FsPath) (flags : Flags) (m : Manifest) (fs last : Fs)
      → place host keys codec kp src plugin_dir flags m fs ≡ (last, ok tt)
      → flags.account_seed ≡ some account_path
      → IsName m.entrypoint
      → strip_suffix b'.' m.entrypoint ≡ none
      → around (join_path plugin_dir m.id) account_path ≡ false
      → (account : Key) × (account_text : Text) × Holds account_path account_text fs
        × (keys.from_seed (trim account_text) ≡ ok account)
        × IsMinted host keys codec account kp m.id
            (bus_acl m.capabilities)
            (join_path (join_path plugin_dir m.id) (codes "nats.creds"))
            last
  unfolding place Holds starts_with
  place-IsMinted hl kl cl kp src plugin_dir account_path flags m fs last h0 given named final out =
      let (_, fs1, r1, h1) = bind_ok _ _ h0 in
      let (_, fs2, r2, h2) = bind_ok _ _ h1 in
      let (_, fs3, r3, r4) = bind_ok _ _ h2 in
      let dest = join_path plugin_dir m.id in
      let (seed, acl, seeded, shown, secret, held) =
        generate_nats_identity_ok kp dest m.id m.capabilities fs2 fs3 (context_ok identity _ r3) in
      let run =
        subst (λ o. credentials host keys codec dest m.id o fs3 ≡ (last, ok tt)) given
          (context_ok identity _ r4) in
      let (account, text, found, key, minted) =
        mint_ok hl kl cl kp dest account_path m.id seed acl m.capabilities fs3 last seeded shown
          (owner_only, secret) held run in
      let P = around dest in
      let at = λ (name : Text) (e : starts_with (codes "/") name ≡ false).
        inside dest (join_path dest name) (is_under-join_path dest name e) in
      let back : fs3 account_path ≡ fs account_path =
        same_at P _ account_path fs2 fs3 (ok tt)
          (context-Within P identity _ (
            generate_nats_identity-Within host keys codec P kp dest m.id m.capabilities (at _ refl)
              (at _ refl)))
          out r3
        ∙ same_at P _ account_path fs1 fs2 (ok tt)
            (copy_bundle-Within dest src m.entrypoint named final) out r2
        ∙ same_at P _ account_path fs fs1 (ok tt) (prepare-Within dest flags.force) out r1 in
      (account, text, (found.0, sym back ∙ found.1), key, minted)
