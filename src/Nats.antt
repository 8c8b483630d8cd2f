-- ===== src/Nats.antt =====
-- crates/iot-cli/src/nats.rs and secfile.rs: the trust root of the broker and the credentials of one
-- user. Fresh keys, the clock and the random bytes of a token's id are arguments; so are nkeys, base64
-- and serde_json. Of restrict_permissions the POSIX side is modelled.
pub mod Tokens
pub mod Bootstrap
mod Samples
use iot_athome.Prelude.{
  ℕ, ◌≡◌, ◌+◌, ◌*◌, ◌-◌, ◌^◌, min, List, [], ◌∷◌, ◌++◌, Bool, true, false, not, ◌||◌, Option, some,
  none, Text, codes, trim, any, is_empty, if◌then◌else◌, Result, ok, err,
}
use iot_athome.Json.{Json, Items, nil, item, string, array, get}
use iot_athome.Sbom.{as_str}
use iot_athome.Acl.{em_dash}
use iot_athome.Jwt.{
  Nkeys, Codec, JwtError, UserAcl, default_limits, issue_user_jwt, issue_account_jwt,
  format_creds_file,
}
use iot_athome.Files.{
  FsPath, Fs, IoError, invalid_utf8, join_path, parent, exists, read, write, set_permissions,
  create_dir_all,
}
use iot_athome.Files.Runs.{Run, reading, context, when, ◌>>=◌, ◌>>◌}

pub data NatsError : Type 0 where
  io : IoError → NatsError
  exists_already : FsPath → NatsError
  parse_seed encode_seed : Text → NatsError
  parse_json : NatsError
  mint : JwtError → NatsError
  no_parent : NatsError

abbrev pub mapped {ℓ} :
    {A : Type ℓ} {E : Type 0} → (E → NatsError) → Result E A → Result NatsError A
mapped f (ok a) = ok a
mapped f (err e) = err (f e)

-- 90 d
abbrev pub user_jwt_ttl_secs : ℕ
user_jwt_ttl_secs = 90 * 24 * 60 * 60

-- u64::saturating_add
abbrev pub saturating_add : ℕ → ℕ → ℕ
saturating_add a b = min (a + b) (2 ^ 64 - 1)

-- 0o600
abbrev pub owner_only : ℕ
owner_only = 384

unfoldable pub restrict_permissions : FsPath → Run NatsError (Unit {0})
restrict_permissions path = context io (set_permissions owner_only path)

module _ {N : Type 0} where
  -- items.iter().filter_map(as_str)
  unfoldable pub texts : Items N → List Text
  texts nil = []
  texts (item v items) = elim (as_str (some v)) [ some s ↦ s ∷ texts items | none ↦ texts items ]

  abbrev subjects_in : Option (Json N) → List Text
  subjects_in (some (array items)) = texts items
  subjects_in _ = []

  unfoldable pub collect_subjects : Json N → Text → List Text
  collect_subjects v key = subjects_in (get key v)

  abbrev pub acl_of : Json N → UserAcl
  acl_of v = record {
    allow_pub = collect_subjects v (codes "allow_pub");
    allow_sub = collect_subjects v (codes "allow_sub");
  }

-- What the process has around it: the mode of a new file, whether bytes are UTF-8, the parser.
pub record Host (N : Type 0) : Type 0 where
  pub new_mode : ℕ
  pub valid_utf8 : Text → Bool
  pub from_str : Text → Option (Json N)
  pub to_string_pretty : Json N → Result Text Text
  -- seconds since the epoch, 0 before it
  pub now : ℕ
  -- the 16 random bytes of a token's id
  pub jti_bytes : Text

-- What is printed is read back.
pub record HostLaws {N : Type 0} (host : Host N) : Type 0 where
  pub from_str-to_string_pretty :
      (v : Json N) (s : Text) → host.to_string_pretty v ≡ ok s → host.from_str s ≡ some v

module _ {N : Type 0} (host : Host N) where
  abbrev pub utf8 : Result IoError Text → Result NatsError Text
  utf8 (err e) = err (io e)
  utf8 (ok bytes) = if host.valid_utf8 bytes then ok bytes else err (io invalid_utf8)

  -- fs::read_to_string
  unfoldable pub read_to_string : FsPath → Run NatsError Text
  read_to_string path = reading (λ fs. utf8 (read path fs))

  -- fs::write, then restrict_permissions for a secret.
  unfoldable pub store : Bool → FsPath → Text → Run NatsError (Unit {0})
  store is_secret path bytes = do
    context io (write host.new_mode path bytes)
    when is_secret (restrict_permissions path)

  abbrev pub read_json : Option (Json N) → Result NatsError UserAcl
  read_json none = err parse_json
  read_json (some v) = ok (acl_of v)

  unfoldable pub parse_acl : FsPath → Run NatsError UserAcl
  parse_acl path = do raw ← read_to_string path; reading (λ fs. read_json (host.from_str raw))

module _ {N Key : Type 0} (host : Host N) (keys : Nkeys Key) (codec : Codec) where
  unfoldable pub load_key : FsPath → Run NatsError Key
  load_key path = do
    seed ← read_to_string host path
    reading (λ fs. mapped parse_seed (keys.from_seed (trim seed)))

  unfoldable pub generate_jti : Text
  generate_jti = codec.b64_encode host.jti_bytes

  abbrev pub user_token : Key → Key → Text → UserAcl → Result JwtError Text
  user_token account user name acl =
      issue_user_jwt keys codec account (keys.public_key user) name acl host.now
        (saturating_add host.now user_jwt_ttl_secs) generate_jti

  unfoldable pub issue_and_format_creds : Key → Key → Text → UserAcl → Run NatsError Text
  issue_and_format_creds account user name acl = do
    jwt ← reading (λ fs. mapped mint (user_token account user name acl))
    seed ← reading (λ fs. mapped encode_seed (keys.seed user))
    reading (λ fs. ok (format_creds_file jwt seed))

  abbrev pub default_out : FsPath → Result NatsError FsPath
  default_out [] = err no_parent
  default_out (c ∷ path) = ok (join_path (parent (c ∷ path)) (codes "nats.creds"))

  abbrev pub or_default : Option FsPath → FsPath → FsPath
  or_default none path = path
  or_default (some out) path = out

  unfoldable pub cmd_mint_user :
      FsPath → FsPath → FsPath → Text → Option FsPath → Run NatsError (Unit {0})
  cmd_mint_user account_seed_path user_seed_path acl_path name out = do
    account ← load_key account_seed_path
    user ← load_key user_seed_path
    acl ← parse_acl host acl_path
    creds ← issue_and_format_creds account user name acl
    fallback ← reading (λ fs. default_out user_seed_path)
    store host true (or_default out fallback) creds

  -- The `include` for the broker's configuration.
  unfoldable pub resolver_snippet : Text → Text → Text → Text
  resolver_snippet operator_pub account_pub account_jwt =
      codes "# Generated by `iotctl nats bootstrap` "
      ++ (em_dash
          ++ (codes " do not edit.\n# Re-run with --force to regenerate (DESTRUCTIVE).\noperator: "
              ++ (operator_pub
                  ++ (codes "\nresolver: MEMORY\nresolver_preload: {\n  "
                      ++ (account_pub ++ (codes ": \"" ++ (account_jwt ++ codes "\"\n}\n")))))))

  abbrev pub first_existing : List FsPath → Fs → Result NatsError (Unit {0})
  first_existing [] fs = ok tt
  first_existing (p ∷ ps) fs = if exists p fs then err (exists_already p) else first_existing ps fs

  -- The operator's and the account's keys are the fresh ones.
  unfoldable pub cmd_bootstrap : Key → Key → FsPath → Bool → Text → Run NatsError (Unit {0})
  cmd_bootstrap operator account out force account_name =
      let at = λ (name : Text). join_path out name in
      do
        context io (create_dir_all out)
        reading (λ fs.
            if force
            then ok tt
            else first_existing
                (at (codes "operator.nk")
                  ∷ at (codes "iot-account.nk")
                  ∷ at (codes "iot-account.jwt")
                  ∷ [])
                fs)
        operator_seed ← reading (λ fs. mapped encode_seed (keys.seed operator))
        store host true (at (codes "operator.nk")) operator_seed
        store host false (at (codes "operator.pub")) (keys.public_key operator)
        account_seed ← reading (λ fs. mapped encode_seed (keys.seed account))
        store host true (at (codes "iot-account.nk")) account_seed
        store host false (at (codes "iot-account.pub")) (keys.public_key account)
        account_jwt ← reading (λ fs. mapped mint (
            issue_account_jwt keys codec operator (keys.public_key account) account_name
              default_limits host.now))
        store host false (at (codes "iot-account.jwt")) account_jwt
        store host false (at (codes "resolver.conf"))
            (resolver_snippet (keys.public_key operator) (keys.public_key account) account_jwt)
