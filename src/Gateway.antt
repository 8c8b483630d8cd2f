-- ===== src/Gateway.antt =====
-- crates/iot-gateway/src/auth.rs: the bearer tokens of the gateway's requests. jsonwebtoken and the HTTP
-- client are parameters; instants are in nanoseconds. A request is one step: of the lock on the key cache
-- only the order of its sections is kept.
pub mod Keys
pub mod Bearer
pub mod Outage
mod Samples
use iot_athome.Prelude.{
  ℕ, ◌-◌, ◌*◌, ◌^◌, List, [], ◌∷◌, ◌++◌, Bool, true, false, not, ◌||◌, Option, some, none, Text,
  codes, text_eq, Dict, lookup, insert, ltb, if◌then◌else◌, Result, ok, err, strip_prefix,
}

pub record OidcConfig : Type 0 where
  pub issuer_url : Text
  pub audience : Text
  pub jwks_cache_secs : ℕ

pub data AuthError : Type 0 where
  missing_token malformed_token missing_kid : AuthError
  unknown_kid jwks validation : Text → AuthError

pub data StatusCode : Type 0 where
  unauthorized bad_gateway : StatusCode

abbrev pub status : AuthError → StatusCode
status (jwks e) = bad_gateway
status _ = unauthorized

pub record Jwk : Type 0 where
  pub kty : Text
  pub alg : Option Text
  pub kid : Text
  pub n : Text
  pub e : Text

pub record JwksDoc : Type 0 where
  pub keys : List Jwk

pub record Claims : Type 0 where
  pub sub : Text
  -- exp and iat by the 64 bits of an i64
  pub exp : ℕ
  pub iat : Option ℕ
  pub preferred_username : Option Text
  pub email : Option Text

-- What `decode` is asked to check: RS256 with this audience, this issuer and this leeway in seconds.
pub record Validation : Type 0 where
  pub audience : Text
  pub issuer : Text
  pub leeway : ℕ

-- jsonwebtoken, and HeaderValue::to_str. `decode_header` gives the key id, if the header has one.
pub record Tokens : Type 1 where
  pub DecodingKey : Type 0
  pub decode_header : Text → Result Text (Option Text)
  pub from_rsa_components : Text → Text → Result Text DecodingKey
  pub decode : Text → DecodingKey → Validation → Result Text Claims
  pub to_str : Text → Option Text

-- What the environment answers during one request: the instant at which the cache is read, what a GET
-- of a URL would give, and the instant at which its answer would be stored.
pub record Moment : Type 0 where
  pub now : ℕ
  pub fetch : Text → Result Text JwksDoc
  pub stored : ℕ

module _ (tk : Tokens) where
  pub record Verifier : Type 0 where
    pub cfg : OidcConfig
    pub keys : Dict tk.DecodingKey
    pub fetched_at : Option ℕ
    -- the documents fetched so far and when they were stored, the newest first
    pub fetched : List (ℕ × JwksDoc)

  unfoldable pub new_verifier : OidcConfig → Verifier
  new_verifier cfg = record { cfg = cfg; keys = []; fetched_at = none; fetched = [] }

  abbrev or_rs256 : Option Text → Text
  or_rs256 none = codes "RS256"
  or_rs256 (some a) = a

  unfoldable pub skipped : Jwk → Bool
  skipped jwk =
      not (text_eq jwk.kty (codes "RSA")) || not (text_eq (or_rs256 jwk.alg) (codes "RS256"))

  abbrev pub add_key : Text → Result Text tk.DecodingKey → Dict tk.DecodingKey → Dict tk.DecodingKey
  add_key kid (ok k) fresh = insert kid k fresh
  add_key kid (err e) fresh = fresh

  -- The loop over the keys of the document.
  unfoldable pub fresh_keys : Dict tk.DecodingKey → List Jwk → Dict tk.DecodingKey
  fresh_keys fresh [] = fresh
  fresh_keys fresh (jwk ∷ rest) =
      fresh_keys
        (if skipped jwk then fresh else add_key jwk.kid (tk.from_rsa_components jwk.n jwk.e) fresh)
        rest

  abbrev pub jwks_url : OidcConfig → Text
  jwks_url cfg = cfg.issuer_url ++ codes "/protocol/openid-connect/certs"

  abbrev pub stored_keys :
      Verifier → ℕ → Result Text JwksDoc → Verifier × Result AuthError (Unit {0})
  stored_keys v at (err e) = (v, err (jwks e))
  stored_keys v at (ok body) = (
    record v {
      keys = fresh_keys [] body.keys;
      fetched_at = some at;
      fetched = (at, body) ∷ v.fetched;
    },
    ok tt,
  )

  unfoldable pub refresh : Verifier → Moment → Verifier × Result AuthError (Unit {0})
  refresh v m = stored_keys v m.stored (m.fetch (jwks_url v.cfg))

  -- is_some_and(|t| t.elapsed() < ttl)
  abbrev pub is_fresh : OidcConfig → ℕ → Option ℕ → Bool
  is_fresh cfg now none = false
  is_fresh cfg now (some t) = ltb (now - t) (cfg.jwks_cache_secs * 10 ^ 9)

  abbrev pub known : Text → Option tk.DecodingKey → Result AuthError tk.DecodingKey
  known kid none = err (unknown_kid kid)
  known kid (some k) = ok k

  -- What follows a refresh.
  abbrev pub reread :
      Text → Verifier × Result AuthError (Unit {0}) → Verifier × Result AuthError tk.DecodingKey
  reread kid (v, err e) = (v, err e)
  reread kid (v, ok _) = (v, known kid (lookup kid v.keys))

  abbrev pub cached :
      Verifier
      → Bool
      → Verifier × Result AuthError tk.DecodingKey
      → Option tk.DecodingKey
      → Verifier × Result AuthError tk.DecodingKey
  cached v true miss (some k) = (v, ok k)
  cached v false miss (some k) = miss
  cached v fresh miss none = miss

  unfoldable pub key_for : Verifier → Moment → Text → Verifier × Result AuthError tk.DecodingKey
  key_for v m kid =
      cached v (is_fresh v.cfg m.now v.fetched_at) (reread kid (refresh v m)) (lookup kid v.keys)

  abbrev pub rules : OidcConfig → Validation
  rules cfg = record { audience = cfg.audience; issuer = cfg.issuer_url; leeway = 30 }

  abbrev pub validated : Result Text Claims → Result AuthError Claims
  validated (err e) = err (validation e)
  validated (ok claims) = ok claims

  abbrev pub decoded :
      Text → Verifier × Result AuthError tk.DecodingKey → Verifier × Result AuthError Claims
  decoded token (v, err e) = (v, err e)
  decoded token (v, ok key) = (v, validated (tk.decode token key (rules v.cfg)))

  abbrev pub with_header :
      Verifier → Moment → Text → Result Text (Option Text) → Verifier × Result AuthError Claims
  with_header v m token (err e) = (v, err (validation e))
  with_header v m token (ok none) = (v, err missing_kid)
  with_header v m token (ok (some kid)) = decoded token (key_for v m kid)

  unfoldable pub verify : Verifier → Moment → Text → Verifier × Result AuthError Claims
  verify v m token = with_header v m token (tk.decode_header token)

  abbrev pub bearer_of : Option Text → Option Text
  bearer_of none = none
  bearer_of (some s) = strip_prefix (codes "Bearer ") s

  -- extract_bearer, of the value of the Authorization header
  unfoldable pub extract_bearer : Option Text → Option Text
  extract_bearer none = none
  extract_bearer (some value) = bearer_of (tk.to_str value)

  module _ {Response : Type 0} where
    abbrev pub after_verify :
        Response → Verifier × Result AuthError Claims → Option Verifier × Result StatusCode Response
    after_verify next (v, err e) = (some v, err (status e))
    after_verify next (v, ok claims) = (some v, ok next)

    abbrev pub with_token :
        Response → Verifier → Moment → Option Text → Option Verifier × Result StatusCode Response
    with_token next v m none = (some v, err unauthorized)
    with_token next v m (some token) = after_verify next (verify v m token)

    -- `next` is what the rest of the stack answers when it is run.
    unfoldable pub bearer_middleware :
        Option Verifier
        → Moment
        → Option Text
        → Response
        → Option Verifier × Result StatusCode Response
    bearer_middleware none m header next = (none, ok next)
    bearer_middleware (some v) m header next = with_token next v m (extract_bearer header)

  -- The tokens of a history of requests, one after the other.
  unfoldable pub verify_all : Verifier → List (Moment × Text) → Verifier
  verify_all v [] = v
  verify_all v ((m, token) ∷ rest) = verify_all (verify v m token).0 rest
