-- ===== src/Jwt.antt =====
-- crates/iot-bus/src/jwt.rs: the tokens and the credentials file that NATS reads.
-- nkeys, base64 and serde_json, with the code that serde derives, are arguments.
pub mod Tokens
pub mod Lines
pub mod Samples
use iot_athome.Prelude.{
  ℕ, ◌+◌, ◌*◌, ◌≡◌, List, [], ◌∷◌, ◌++◌, Bool, true, Text, codes, split, lacks, spaceless,
  if◌then◌else◌, Result, ok, err, ◌>>=◌,
}
use iot_athome.Payloads.{ℤ, pos, negsuc}

pub data JwtError : Type 0 where
  nkeys : Text → JwtError
  json : Text → JwtError
  bad_signature : JwtError
  malformed : Text → JwtError
  base64 : Text → JwtError

pub record UserAcl : Type 0 where
  pub allow_pub : List Text
  pub allow_sub : List Text

pub record Permissions : Type 0 where
  pub allow : List Text

pub record UserNatsClaims : Type 0 where
  pub publish : Permissions
  pub subscribe : Permissions
  pub type_ : Text
  pub version : ℕ

pub record UserClaims : Type 0 where
  pub iss : Text
  pub sub : Text
  pub iat : ℕ
  pub exp : ℕ
  pub jti : Text
  pub name : Text
  pub nats : UserNatsClaims

pub record AccountLimits : Type 0 where
  pub subs : ℤ
  pub payload : ℤ
  pub data_bytes : ℤ
  pub imports : ℤ
  pub exports : ℤ
  pub wildcards : Bool
  pub conn : ℤ
  pub leaf : ℤ
  pub mem_storage : ℤ
  pub disk_storage : ℤ
  pub streams : ℤ
  pub consumer : ℤ

pub record AccountNatsClaims : Type 0 where
  pub limits : AccountLimits
  pub type_ : Text
  pub version : ℕ

pub record AccountClaims : Type 0 where
  pub iss : Text
  pub sub : Text
  pub iat : ℕ
  pub name : Text
  pub nats : AccountNatsClaims

-- -1
abbrev unlimited : ℤ
unlimited = negsuc 0

-- AccountLimits::default
abbrev pub default_limits : AccountLimits
default_limits = record {
  subs = unlimited;
  payload = unlimited;
  data_bytes = unlimited;
  imports = unlimited;
  exports = unlimited;
  wildcards = true;
  conn = unlimited;
  leaf = unlimited;
  mem_storage = pos (256 * 1024 * 1024);
  disk_storage = pos (2 * 1024 * 1024 * 1024);
  streams = unlimited;
  consumer = unlimited;
}

-- What the code calls of nkeys.
pub record Nkeys (Key : Type 0) : Type 0 where
  pub public_key : Key → Text
  pub seed : Key → Result Text Text
  pub from_seed : Text → Result Text Key
  pub sign : Key → Text → Result Text Text
  pub verify : Key → Text → Text → Bool

-- What the code calls of base64 and of serde_json.
pub record Codec : Type 0 where
  pub b64_encode : Text → Text
  pub b64_decode : Text → Result Text Text
  pub user_to_vec : UserClaims → Result Text Text
  pub user_from_slice : Text → Result Text UserClaims
  pub account_to_vec : AccountClaims → Result Text Text
  pub account_from_slice : Text → Result Text AccountClaims

-- A signature verifies under the key that made it, and a seed, which has no white space, gives its key
-- back.
pub record NkeysLaws {Key : Type 0} (keys : Nkeys Key) : Type 0 where
  pub verify-sign :
      (k : Key) (input sig : Text) → keys.sign k input ≡ ok sig → keys.verify k input sig ≡ true
  pub from_seed-seed : (k : Key) (s : Text) → keys.seed k ≡ ok s → keys.from_seed s ≡ ok k
  pub seed-spaceless : (k : Key) (s : Text) → keys.seed k ≡ ok s → spaceless s ≡ true

-- The encodings are read back, and base64url has no dot.
pub record CodecLaws (codec : Codec) : Type 0 where
  pub encode-lacks : (bytes : Text) → lacks b'.' (codec.b64_encode bytes) ≡ true
  pub decode-encode : (bytes : Text) → codec.b64_decode (codec.b64_encode bytes) ≡ ok bytes
  pub from_slice-to_vec_user :
      (c : UserClaims) (bytes : Text)
      → codec.user_to_vec c ≡ ok bytes
      → codec.user_from_slice bytes ≡ ok c
  pub from_slice-to_vec_account :
      (c : AccountClaims) (bytes : Text)
      → codec.account_to_vec c ≡ ok bytes
      → codec.account_from_slice bytes ≡ ok c

-- `?` on an error of another crate.
abbrev pub map_err {ℓ} : {A : Type ℓ} {E F : Type 0} → (E → F) → Result E A → Result F A
map_err f (ok a) = ok a
map_err f (err e) = err (f e)

-- The segments, as `segs.next()` takes them.
unfoldable pub three_segments : List Text → Result JwtError (Text × Text × Text)
three_segments [] = err (malformed (codes "missing header"))
three_segments (header ∷ []) = err (malformed (codes "missing payload"))
three_segments (header ∷ payload ∷ []) = err (malformed (codes "missing signature"))
three_segments (header ∷ payload ∷ sig ∷ []) = ok (header, payload, sig)
three_segments (header ∷ payload ∷ sig ∷ extra ∷ segs) = err (malformed (codes "extra segment"))

abbrev header : Text
header = codes "{\"typ\":\"JWT\",\"alg\":\"ed25519-nkey\"}"

module _ {Key : Type 0} (keys : Nkeys Key) (codec : Codec) where
  -- The claims of `issue_user_jwt`.
  abbrev pub user_claims : Key → Text → Text → UserAcl → ℕ → ℕ → Text → UserClaims
  user_claims issuer subject_public name acl iat exp jti = record {
    iss = keys.public_key issuer;
    sub = subject_public;
    iat = iat;
    exp = exp;
    jti = jti;
    name = name;
    nats = record {
      publish = record { allow = acl.allow_pub };
      subscribe = record { allow = acl.allow_sub };
      type_ = codes "user";
      version = 2;
    };
  }

  -- The claims of `issue_account_jwt`.
  abbrev pub account_claims : Key → Text → Text → AccountLimits → ℕ → AccountClaims
  account_claims operator account_public name limits iat = record {
    iss = keys.public_key operator;
    sub = account_public;
    iat = iat;
    name = name;
    nats = record { limits = limits; type_ = codes "account"; version = 2 };
  }

  -- What both functions that issue do with the serialised claims.
  unfoldable pub sign_token : Key → Text → Result JwtError Text
  sign_token issuer payload =
      let signing_input = codec.b64_encode header ++ b'.' ∷ codec.b64_encode payload in
      do
        sig ← map_err nkeys (keys.sign issuer signing_input)
        ok (signing_input ++ b'.' ∷ codec.b64_encode sig)

  unfoldable pub issue_user_jwt : Key → Text → Text → UserAcl → ℕ → ℕ → Text → Result JwtError Text
  issue_user_jwt issuer subject_public name acl iat exp jti = do
    payload ←
        map_err json (codec.user_to_vec (user_claims issuer subject_public name acl iat exp jti))
    sign_token issuer payload

  unfoldable pub issue_account_jwt : Key → Text → Text → AccountLimits → ℕ → Result JwtError Text
  issue_account_jwt operator account_public name limits iat = do
    payload ←
        map_err json (codec.account_to_vec (account_claims operator account_public name limits iat))
    sign_token operator payload

  abbrev check_signature : Key → Text → Text → Result JwtError (Unit {0})
  check_signature key input sig = if keys.verify key input sig then ok tt else err bad_signature

  -- What both functions that verify do before they read the claims.
  unfoldable pub verified_payload : Key → Text → Result JwtError Text
  verified_payload key token = do
    (header_b64, payload_b64, sig_b64) ← three_segments (split b'.' token)
    sig ← map_err base64 (codec.b64_decode sig_b64)
    checked ← check_signature key (header_b64 ++ b'.' ∷ payload_b64) sig
    map_err base64 (codec.b64_decode payload_b64)

  unfoldable pub verify_user_jwt : Key → Text → Result JwtError UserClaims
  verify_user_jwt issuer token = do
    payload ← verified_payload issuer token
    map_err json (codec.user_from_slice payload)

  unfoldable pub verify_account_jwt : Key → Text → Result JwtError AccountClaims
  verify_account_jwt operator token = do
    payload ← verified_payload operator token
    map_err json (codec.account_from_slice payload)

-- The lines of the credentials file.
abbrev pub creds_lines : Text → Text → List Text
creds_lines user_jwt user_seed =
    codes "-----BEGIN NATS USER JWT-----"
    ∷ user_jwt
    ∷ codes "------END NATS USER JWT------"
    ∷ []
    ∷ codes "************************* IMPORTANT *************************"
    ∷ codes "NKEY Seed printed below can be used to sign and prove identity."
    ∷ codes "NKEYs are sensitive and should be treated as secrets."
    ∷ []
    ∷ codes "-----BEGIN USER NKEY SEED-----"
    ∷ user_seed
    ∷ codes "------END USER NKEY SEED------"
    ∷ []
    ∷ codes "*************************************************************"
    ∷ []

-- Each line ends in a newline.
unfoldable pub write_lines : List Text → Text
write_lines [] = []
write_lines (line ∷ lines) = line ++ b'\n' ∷ write_lines lines

unfoldable pub format_creds_file : Text → Text → Text
format_creds_file user_jwt user_seed = write_lines (creds_lines user_jwt user_seed)
