-- ===== src/Nats/Samples.antt =====
-- The commands in a small file system.
use iot_athome.Prelude.{
  ℕ, ◌≡◌, refl, ap, inl, [], ◌∷◌, Any, Bool, true, false, some, none, Text, codes, text_eq, split,
  filter, starts_with, trim, trim_end, trim_start, any, Result, ok, err, is_ok,
}
use iot_athome.Json.{Json, nil, item, string, array, object, field, no_field, get_field}
use iot_athome.Jwt.{
  account_claims, default_limits, issue_user_jwt, issue_account_jwt, sign_token, verify_account_jwt,
}
use iot_athome.Instances.{keys, keys_laws}
use iot_athome.Instances.Claims.{codec, codec_laws}
use iot_athome.Instances.Documents.{host}
use iot_athome.Files.{
  FsPath, Fs, file, dir, put, join_path, components, parent, path_eq, is_under, read, write,
  set_permissions, create_dir_all, prefixes, exists,
}
use iot_athome.Files.Runs.{◌>>=◌, reading, context, when}
use iot_athome.Files.Effects.{Holds}
use iot_athome.Nats.{
  NatsError, owner_only, restrict_permissions, store, read_to_string, load_key, parse_acl, acl_of,
  collect_subjects, texts, generate_jti, issue_and_format_creds, default_out, or_default,
  cmd_mint_user, cmd_bootstrap, resolver_snippet,
}
use iot_athome.Nats.Tokens.{IsMinted, cmd_mint_user-IsMinted}
use iot_athome.Nats.Bootstrap.{
  roots, operator_nk, account_nk, account_jwt, resolver_conf, cmd_bootstrap_ok,
  cmd_bootstrap_refuses,
}

abbrev at : Text → FsPath
at s = codes "d" ∷ s ∷ []

abbrev empty : Fs
empty [] = some dir
empty (c ∷ q) = none

abbrev one_dir : Fs
one_dir = put (codes "d" ∷ []) dir empty

abbrev printed : Result Text Text → Text
printed (ok s) = s
printed (err e) = []

abbrev acl_document : Json ℕ
acl_document = object (
    field (codes "plugin_id") (string (codes "e")) (
      field (codes "user_nkey") (string (codes "U")) (
        field (codes "allow_pub") (array (item (string (codes "device.e.>")) nil))
          (field (codes "allow_sub") (array nil) no_field))))

abbrev start : Fs
start = put (at (codes "account")) (file 384 (codes "SA")) (
    put (at (codes "user")) (file 384 (codes "SU"))
      (put (at (codes "acl")) (file 420 (printed (host.to_string_pretty acl_document))) one_dir))

minted : Fs
unfolding cmd_mint_user ◌>>=◌ reading context when load_key read_to_string read path_eq parse_acl
    issue_and_format_creds store restrict_permissions write set_permissions
minted =
    (cmd_mint_user host keys codec (at (codes "account")) (at (codes "user")) (at (codes "acl"))
      (codes "e") none start).0

mints :
    cmd_mint_user host keys codec
      (at (codes "account"))
      (at (codes "user"))
      (at (codes "acl"))
      (codes "e")
      none
      start
    ≡ (minted, ok tt)
unfolding minted cmd_mint_user ◌>>=◌ reading context when load_key read_to_string read path_eq
    text_eq parse_acl issue_and_format_creds store restrict_permissions write set_permissions
    issue_user_jwt sign_token parent trim trim_end trim_start collect_subjects texts get_field
    generate_jti join_path components split filter starts_with
mints = ap (λ (r : Result NatsError (Unit {0})). (minted, r)) refl

cmd_mint_user-IsMinted_run :
    (account : Bool) × (user : Bool) × (v : Json ℕ) × (fallback : FsPath) × (account_text : Text)
    × (user_text : Text) × (raw : Text) × (Holds (at (codes "account")) account_text start
        × (keys.from_seed (trim account_text) ≡ ok account))
    × (Holds (at (codes "user")) user_text start × (keys.from_seed (trim user_text) ≡ ok user))
    × (Holds (at (codes "acl")) raw start × (host.from_str raw ≡ some v))
    × (default_out host keys codec (at (codes "user")) ≡ ok fallback)
    × IsMinted host keys codec account user
        (codes "e")
        (acl_of v)
        (or_default host keys codec none fallback)
        minted
cmd_mint_user-IsMinted_run =
    cmd_mint_user-IsMinted host keys codec keys_laws codec_laws (at (codes "account"))
      (at (codes "user")) (at (codes "acl")) (codes "e") none start minted mints

abbrev out : FsPath
out = codes "d" ∷ codes "nats" ∷ []

rooted : Fs
rooted = (cmd_bootstrap host keys codec true false out false (codes "IOT") one_dir).0

roots_up :
    cmd_bootstrap host keys codec true false out false (codes "IOT") one_dir ≡ (rooted, ok tt)
unfolding rooted cmd_bootstrap ◌>>=◌ reading context when path_eq is_under text_eq store
    restrict_permissions write set_permissions create_dir_all prefixes any issue_account_jwt
    sign_token parent join_path components split filter starts_with
roots_up = ap (λ (r : Result NatsError (Unit {0})). (rooted, r)) refl

cmd_bootstrap_ok_example :
    (operator_seed : Text) × (account_seed : Text) × (jwt : Text) × (keys.seed true
      ≡ ok operator_seed)
    × (keys.seed false ≡ ok account_seed)
    × (rooted (join_path out operator_nk) ≡ some (file owner_only operator_seed))
    × (rooted (join_path out account_nk) ≡ some (file owner_only account_seed))
    × Holds (join_path out account_jwt) jwt rooted
    × (verify_account_jwt keys codec true jwt
        ≡ ok (
            account_claims keys codec true
              (keys.public_key false)
              (codes "IOT")
              default_limits
              host.now))
    × Holds
        (join_path out resolver_conf)
        (resolver_snippet host keys codec (keys.public_key true) (keys.public_key false) jwt)
        rooted
cmd_bootstrap_ok_example =
    cmd_bootstrap_ok host keys codec keys_laws codec_laws true false out false (codes "IOT") one_dir
      rooted roots_up

abbrev taken : Fs
taken = put (codes "d" ∷ operator_nk ∷ []) (file 384 (codes "SA")) one_dir

taken_there : Any (λ p. exists p taken ≡ true) (roots (codes "d" ∷ []))
unfolding join_path components split filter starts_with path_eq text_eq
taken_there = inl refl

taken_kept : taken (codes "d" ∷ operator_nk ∷ []) ≡ some (file 384 (codes "SA"))
unfolding path_eq text_eq
taken_kept = refl

cmd_bootstrap_refuses_example :
    (is_ok (cmd_bootstrap host keys codec true false (codes "d" ∷ []) false (codes "IOT") taken).1
      ≡ false)
    × ((cmd_bootstrap host keys codec true false (codes "d" ∷ []) false (codes "IOT") taken).0
          (codes "d" ∷ operator_nk ∷ [])
        ≡ some (file 384 (codes "SA")))
cmd_bootstrap_refuses_example =
    cmd_bootstrap_refuses host keys codec true false (codes "d" ∷ []) (codes "IOT") taken
      (codes "d" ∷ operator_nk ∷ []) (file 384 (codes "SA")) taken_there taken_kept
